-- ===== src/Api/Validate/Stability.antt =====
-- `validate` of src/api.rs on its own results.
use vercel_ddns.Base.{
  ℕ, ◌≡◌, refl, inl, inr, Text, true, false, Option, none, some, [], ◌∷◌, arith, sym, subst, any,
  if◌then◌else◌,
}
use vercel_ddns.Base.Outcome.{ok, Result-cases, ok-injective, err-ne-ok}
use vercel_ddns.Base.Strings.{split, trim, to_ascii_lowercase, upper, to_ascii_uppercase}
use vercel_ddns.Net.Ipv6.{Ipv6, IsLawful}
use vercel_ddns.Storage.{RecordInput, is_u16, is_none, ttl_check}
use vercel_ddns.Sync.Matching.{Kind, kind_of}
use vercel_ddns.Api.Validate.{
  validate, check_input, check_value, normalized, normalize_value, valid_name, trim_dots, is_acme,
  is_other, needs_priority, is_srv,
}
use vercel_ddns.Api.Validate.Names.{valid_name-normal}
use vercel_ddns.Api.Validate.Values.{normalize_value_idem}

upper_idem : (c : ℕ) → upper (upper c) ≡ upper c
unfolding upper
upper_idem c = ground arith

to_ascii_uppercase_idem :
    (s : Text) → to_ascii_uppercase (to_ascii_uppercase s) ≡ to_ascii_uppercase s
unfolding to_ascii_uppercase
to_ascii_uppercase_idem [] = refl
to_ascii_uppercase_idem (c ∷ s) = cc (upper_idem c, to_ascii_uppercase_idem s)

-- The tests that an accepted input has passed, apart from the value's.
pub record Passes (input : RecordInput) : Type 0 where
  pub name : valid_name input.fqdn true ≡ true
  pub not_acme : any is_acme (split b'.' input.fqdn) ≡ false
  pub ttl : ttl_check input.ttl ≡ true
  pub known : is_other (kind_of input.record_type) ≡ false
  pub priority :
      (if needs_priority (kind_of input.record_type)
        then is_u16 input.priority
        else is_none input.priority)
      ≡ true
  pub port :
      (if is_srv (kind_of input.record_type) then is_u16 input.port else is_none input.port) ≡ true
  pub weight :
      (if is_srv (kind_of input.record_type) then is_u16 input.weight else is_none input.weight)
      ≡ true

-- The fields that `check_value` keeps.
abbrev SameBut : RecordInput → RecordInput → Type 0
SameBut input out =
    (out.fqdn ≡ input.fqdn)
    × (out.record_type ≡ input.record_type)
    × (out.ttl ≡ input.ttl)
    × (out.priority ≡ input.priority)
    × (out.weight ≡ input.weight)
    × (out.port ≡ input.port)

module _ (V : Ipv6) where
  pub check_input-eq-ok :
      (input : RecordInput) {out : RecordInput}
      → check_input V input ≡ ok out
      → Passes input × (check_value V (kind_of input.record_type) input input.value ≡ ok out)
  unfolding check_input
  check_input-eq-ok input h = (ground arith, ground arith)

  pub check_input-Passes :
      (input : RecordInput)
      → Passes input
      → check_input V input ≡ check_value V (kind_of input.record_type) input input.value
  unfolding check_input
  check_input-Passes input p = ground arith

  pub check_value-SameBut :
      (kind : Kind) (input : RecordInput) (value : Option Text) {out : RecordInput}
      → check_value V kind input value ≡ ok out
      → SameBut input out
  check_value-SameBut kind input (some v) h = ground arith
  check_value-SameBut Kind.a input none h = ground arith
  check_value-SameBut _ input none h = ground arith

pub Passes-SameBut : {input out : RecordInput} → SameBut input out → Passes input → Passes out
Passes-SameBut (f, t, l, p, w, o) h = record {
  name = rw f h.name;
  not_acme = rw f h.not_acme;
  ttl = rw l h.ttl;
  known = rw t h.known;
  priority = rw (t, p) h.priority;
  port = rw (t, o) h.port;
  weight = rw (t, w) h.weight;
}

module _ (V : Ipv6) (L : IsLawful V) where
  -- The value of an accepted input is accepted again, with no change.
  check_value_idem :
      (kind : Kind) (input : RecordInput) (value : Option Text) {out : RecordInput}
      → input.value ≡ value
      → check_value V kind input value ≡ ok out
      → check_value V kind out out.value ≡ ok out
  check_value_idem kind input (some v) e h =
      elim (Result-cases (normalize_value V kind input.priority v)) [
        | inl (w, got) ↦
            let same : record input { value = some w } ≡ _ = ok-injective (rw got at h) in
            rw (← same, normalize_value_idem V L kind input.priority v got)
        | inr (f, got) ↦ absurd (err-ne-ok (rw got at h))
      ]
  check_value_idem Kind.a input none e h = rw (← ok-injective h, e)
  check_value_idem _ input none e h = cc

  pub check_input_idem :
      (input : RecordInput) {out : RecordInput}
      → check_input V input ≡ ok out
      → check_input V out ≡ ok out
  check_input_idem input {out} h =
      let (passes, value) = check_input-eq-ok V input h in
      let same = check_value-SameBut V (kind_of input.record_type) input input.value value in
      rw (check_input-Passes V out (Passes-SameBut same passes)) (
        subst (λ t. check_value V (kind_of t) out out.value ≡ ok out) (sym same.1)
          (check_value_idem (kind_of input.record_type) input input.value refl value))

  normalized-Passes :
      (input : RecordInput) {out : RecordInput}
      → SameBut (normalized input) out
      → Passes out
      → normalized out ≡ out
  normalized-Passes input {out} same passes =
      let (trimmed, dotless, low) = valid_name-normal out.fqdn true passes.name in
      let upper : to_ascii_uppercase out.record_type ≡ out.record_type =
        rw same.1 (to_ascii_uppercase_idem input.record_type) in
      let name : to_ascii_lowercase (trim_dots (trim out.fqdn)) ≡ out.fqdn =
        rw (trimmed, dotless, low) in
      λ i. record out { fqdn = name i; record_type = upper i }

  -- What `validate` returns is its own normal form: validating it again changes nothing.
  pub validate_idem :
      (input : RecordInput) {out : RecordInput}
      → validate V input ≡ ok out
      → validate V out ≡ ok out
  unfolding validate
  validate_idem input {out} h =
      let (passes, value) = check_input-eq-ok V (normalized input) h in
      let same = check_value-SameBut V _ (normalized input) _ value in
      rw (normalized-Passes input {out = out} same (Passes-SameBut same passes))
        (check_input_idem (normalized input) h)

  -- What `validate` returns passes the checks again.
  pub validate-check_input :
      (input : RecordInput) {out : RecordInput}
      → validate V input ≡ ok out
      → check_input V out ≡ ok out
  unfolding validate
  validate-check_input input h = check_input_idem (normalized input) h
