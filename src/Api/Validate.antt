-- ===== src/Api/Validate.antt =====
-- `validate` of src/api.rs and its helpers. The names of the fields are the source's.
pub mod Names
pub mod Caa
pub mod Values
pub mod Stability
pub mod Rows
pub mod Accepted
use vercel_ddns.Base.{
  ℕ, ◌+◌, Text, codes, Bool, true, false, ◌&&◌, ◌||◌, not, Option, none, some, List, [], ◌∷◌, ◌++◌,
  ◌==◌, ◌!=◌, text_eq, option_eq, if◌then◌else◌, all, any, ltb, leb, eqb, is_nil, length,
}
use vercel_ddns.Base.Int.{ℤ, pos, in_range, int_eq}
use vercel_ddns.Base.Outcome.{Result, ok, err}
use vercel_ddns.Base.Strings.{
  len, split, splitn, trim, trim_end_matches, to_ascii_lowercase, to_ascii_uppercase, contains_char,
  starts_with_char, ends_with_char, is_ascii_lowercase, is_ascii_digit, is_ascii_alphanumeric,
  is_whitespace,
}
use vercel_ddns.Net.Numbers.{parse_u8}
use vercel_ddns.Net.Ipv4
use vercel_ddns.Net.Ipv6.{Ipv6}
use vercel_ddns.Storage.{RecordInput, is_some, is_none, is_u16, ttl_check}
use vercel_ddns.Sync.Matching.{Kind, kind_of}

-- The bytes that a label may hold: an ASCII byte is a code point, and no other byte passes.
abbrev pub label_char : Bool → ℕ → Bool
label_char owner c = is_ascii_lowercase c || is_ascii_digit c || eqb c b'-' || (owner && eqb c b'_')

unfoldable pub valid_label : Bool → Text → Bool
valid_label owner label =
    not (is_nil label)
    && leb (len label) 63
    && not (starts_with_char b'-' label)
    && not (ends_with_char b'-' label)
    && all (label_char owner) label

-- The first label of an owner name may be a wildcard.
abbrev pub valid_labels : Bool → List Text → Bool
valid_labels owner [] = true
valid_labels owner (label ∷ labels) =
    ((owner && label == codes "*") || valid_label owner label) && all (valid_label owner) labels

unfoldable pub valid_name : Text → Bool → Bool
valid_name name owner =
    leb 2 (length (split b'.' name)) && leb (len name) 253 && valid_labels owner (split b'.' name)

-- `value.contains(['\r', '\n', '\0'])`
abbrev pub has_control : Text → Bool
has_control s = contains_char 13 s || contains_char 10 s || contains_char 0 s

-- `parts.next().unwrap_or_default()`
abbrev pub piece : List Text → Text
piece [] = []
piece (s ∷ _) = s

abbrev pub rest_of : List Text → List Text
rest_of [] = []
rest_of (_ ∷ ss) = ss

unfoldable pub check_caa : Text → Text → Text → Result Text Text
check_caa flags tag value =
    if not (all is_ascii_digit flags) || is_none (parse_u8 flags)
    then err (codes "CAA flags must be 0..255")
    else if is_nil tag || ltb 15 (len tag) || not (all is_ascii_alphanumeric tag)
    then err (codes "CAA tag must be 1 to 15 alphanumeric characters")
    else if is_nil value || has_control value
    then err (codes "invalid CAA value")
    else ok (flags ++ (b' ' ∷ (tag ++ (b' ' ∷ value))))

unfoldable pub normalize_caa : Text → Result Text Text
normalize_caa value =
    let parts = splitn is_whitespace 3 value in
    check_caa (piece parts) (piece (rest_of parts)) (piece (rest_of (rest_of parts)))

abbrev pub trim_dots : Text → Text
trim_dots = trim_end_matches (eqb b'.')

-- The target of an MX, a CNAME or an SRV record.
unfoldable pub normalize_target : Bool → Text → Result Text Text
normalize_target root_allowed value =
    let target = to_ascii_lowercase (trim_dots (trim value)) in
    if root_allowed && trim value == codes "."
    then ok (codes ".")
    else if valid_name target false
    then ok target
    else err (codes "invalid target hostname")

abbrev pub or_error {ℓ} : {A : Type ℓ} → Text → (A → Text) → Option A → Result Text Text
or_error e show none = err e
or_error e show (some a) = ok (show a)

abbrev pub is_acme : Text → Bool
is_acme label = label == codes "_acme-challenge"

abbrev pub is_other : Kind → Bool
is_other Kind.other = true
is_other _ = false

abbrev pub needs_priority : Kind → Bool
needs_priority Kind.mx = true
needs_priority Kind.srv = true
needs_priority _ = false

abbrev pub is_srv : Kind → Bool
is_srv Kind.srv = true
is_srv _ = false

abbrev pub normalized : RecordInput → RecordInput
normalized input = record input {
  fqdn = to_ascii_lowercase (trim_dots (trim input.fqdn));
  record_type = to_ascii_uppercase input.record_type;
}

module _ (V : Ipv6) where
  -- The `match kind` on a value that is given.
  unfoldable pub normalize_value : Kind → Option ℤ → Text → Result Text Text
  normalize_value Kind.a priority value =
      or_error (codes "invalid IPv4") Ipv4.display (Ipv4.parse (trim value))
  normalize_value Kind.aaaa priority value =
      or_error (codes "invalid IPv6") V.display (V.parse (trim value))
  normalize_value Kind.caa priority value = normalize_caa value
  normalize_value Kind.cname priority value = normalize_target false value
  normalize_value Kind.mx priority value = normalize_target (priority == some (pos 0)) value
  normalize_value Kind.srv priority value = normalize_target true value
  normalize_value Kind.txt priority value =
      if ltb 2048 (len value) || has_control value
      then err (codes "invalid TXT value")
      else ok value
  normalize_value Kind.other priority value = ok value

  abbrev pub set_value : RecordInput → Result Text Text → Result Text RecordInput
  set_value input (ok value) = ok (record input { value = some value })
  set_value input (err e) = err e

  abbrev pub check_value : Kind → RecordInput → Option Text → Result Text RecordInput
  check_value kind input (some value) = set_value input (normalize_value kind input.priority value)
  check_value Kind.a input none = ok input
  check_value _ input none = err (codes "only A records can be dynamic")

  -- The tests on a name and a type that are normalised, in the order of the source.
  unfoldable pub check_input : RecordInput → Result Text RecordInput
  check_input input =
      let kind = kind_of input.record_type in
      if not (valid_name input.fqdn true)
      then err (codes "invalid FQDN")
      else if any is_acme (split b'.' input.fqdn)
      then err (codes "ACME challenge records belong to cert-manager")
      else if not (ttl_check input.ttl)
      then err (codes "TTL must be 1 (automatic) or 60..86400")
      else if is_other kind
      then err (codes "unsupported record type")
      else if needs_priority kind && not (is_u16 input.priority)
      then err (codes "priority must be 0..65535")
      else if not (needs_priority kind) && is_some input.priority
      then err (codes "priority only applies to MX and SRV")
      else if is_srv kind && (not (is_u16 input.port) || not (is_u16 input.weight))
      then err (codes "SRV requires port and weight in 0..65535")
      else if not (is_srv kind) && (is_some input.port || is_some input.weight)
      then err (codes "port and weight only apply to SRV")
      else check_value kind input input.value

  unfoldable pub validate : RecordInput → Result Text RecordInput
  validate input = check_input (normalized input)
