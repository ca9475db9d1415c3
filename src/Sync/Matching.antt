-- ===== src/Sync/Matching.antt =====
-- src/sync.rs: whether a provider's record is the local record's, and whether it is up to date.
-- A function that can panic returns `none` where it does.
pub mod Sound
pub mod Echo
use vercel_ddns.Base.{
  ℕ, ◌+◌, ◌%◌, Text, codes, Bool, true, false, ◌&&◌, ◌||◌, not, Option, none, some, List, [], ◌∷◌,
  ◌++◌, Eq, ◌==◌, ◌!=◌, text_eq, nat_eq, option_eq, if◌then◌else◌, eqb,
}
use vercel_ddns.Base.Int.{ℤ, pos, int_eq, as_u16, as_u32}
use vercel_ddns.Base.Strings.{
  trim_end_matches, eq_ignore_ascii_case, ends_with, to_ascii_lowercase, splitn, strip_prefix_char,
  strip_suffix_char,
}
use vercel_ddns.Base.Json.{Value, get_u64, get_i64, get_str}
use vercel_ddns.Net.Numbers.{parse_u8}
use vercel_ddns.Net.Ipv4
use vercel_ddns.Net.Ipv4.{Ipv4Addr, ipv4_eq}
use vercel_ddns.Net.Ipv6.{Ipv6}
use vercel_ddns.Storage.{Record}
use vercel_ddns.Cloudflare.Types
use vercel_ddns.Cloudflare.Types.{DnsRecord, RecordData, SrvData, CaaData}

-- The record types that the source tells apart. `other` is any other text.
pub data Kind : Type 0 where
  a aaaa caa cname mx txt srv other : Kind

unfoldable pub kind_of : Text → Kind
kind_of t =
    if t == codes "A"
    then a
    else if t == codes "AAAA"
    then aaaa
    else if t == codes "CAA"
    then caa
    else if t == codes "CNAME"
    then cname
    else if t == codes "MX"
    then mx
    else if t == codes "TXT"
    then txt
    else if t == codes "SRV"
    then srv
    else other

abbrev dot : ℕ
dot = b'.'

unfoldable pub same_name : Text → Text → Bool
same_name s t = eq_ignore_ascii_case (trim_end_matches (eqb dot) s) (trim_end_matches (eqb dot) t)

unfoldable pub belongs_to : Text → Text → Bool
belongs_to fqdn zone =
    same_name fqdn zone || ends_with (dot ∷ to_ascii_lowercase zone) (to_ascii_lowercase fqdn)

-- `strip_prefix('"').and_then(strip_suffix('"')).unwrap_or(value)`
unfoldable pub strip_quotes : Text → Text
strip_quotes value = elim (strip_prefix_char b'"' value) [
  | none ↦ value
  | some s ↦ elim (strip_suffix_char b'"' s) [ none ↦ value | some bare ↦ bare ]
]

abbrev pub caa_flags : Text → Text → Option ℕ → Option CaaData
caa_flags tag value none = none
caa_flags tag value (some flags) = some (record { flags = flags; tag = tag; value = value })

abbrev pub caa_parts : List Text → Option CaaData
caa_parts (raw ∷ tag ∷ value ∷ _) = caa_flags tag (strip_quotes value) (parse_u8 raw)
caa_parts _ = none

unfoldable pub caa_data : Text → Option CaaData
caa_data value = caa_parts (splitn (eqb b' ') 3 value)

-- The comparison of the three fields, on both sides of the source that make it.
unfoldable pub caa_equal : CaaData → Value → Bool
caa_equal local remote =
    get_u64 (codes "flags") remote == some local.flags
    && get_str (codes "tag") remote == some local.tag
    && get_str (codes "value") remote == some local.value

abbrev pub caa_equal_to : Option CaaData → Value → Option Bool
caa_equal_to none remote = none
caa_equal_to (some local) remote = some (caa_equal local remote)

-- `record.value.map(caa_data)` is computed before the remote side is looked at.
abbrev pub caa_identity : Option Text → Option Value → Option Bool
caa_identity none remote = some false
caa_identity (some value) (some remote) = caa_equal_to (caa_data value) remote
caa_identity (some value) none = elim (caa_data value) [ none ↦ none | some _ ↦ some false ]

unfoldable pub numbers_equal : Option ℤ → Option ℤ → Option ℤ → Value → Bool
numbers_equal priority weight port remote =
    get_i64 (codes "priority") remote == priority
    && get_i64 (codes "weight") remote == weight
    && get_i64 (codes "port") remote == port

abbrev pub srv_identity : Option ℤ → Option ℤ → Option ℤ → Option Value → Bool
srv_identity (some priority) (some weight) (some port) (some remote) =
    numbers_equal (some priority) (some weight) (some port) remote
srv_identity _ _ _ _ = false

unfoldable pub identity_matches : Record → DnsRecord → Option Bool
identity_matches local remote =
    if not (same_name local.fqdn remote.name) || local.record_type != remote.record_type
    then some false
    else elim (kind_of local.record_type) [
      | caa ↦ caa_identity local.value remote.extra
      | srv ↦ some (srv_identity local.priority local.weight local.port remote.extra)
      | _ ↦ some true
    ]

-- `Option::unwrap` on three values.
abbrev pub srv_data : Text → Option ℤ → Option ℤ → Option ℤ → Option RecordData
srv_data target (some priority) (some weight) (some port) = some (
    Types.srv (record {
      priority = as_u16 priority;
      weight = as_u16 weight;
      port = as_u16 port;
      target = target;
    }))
srv_data target _ _ _ = none

abbrev pub body : Record → Text → Option ℕ → Option RecordData → Types.Record
body local value priority extra = record {
  name = local.fqdn;
  record_type = local.record_type;
  content = value;
  ttl = as_u32 local.ttl;
  priority = priority;
  extra = extra;
  comment = some (codes "managed by ddnser");
}

unfoldable pub desired : Record → Text → Option Types.Record
desired local value = elim (kind_of local.record_type) [
  | mx ↦ elim local.priority [
    | none ↦ none
    | some priority ↦ some (body local value (some (as_u16 priority)) none)
  ]
  | srv ↦ elim (srv_data value local.priority local.weight local.port) [
    | none ↦ none
    | some extra ↦ some (body local value none (some extra))
  ]
  | caa ↦ elim (caa_data value) [
    | none ↦ none
    | some extra ↦ some (body local value none (some (Types.caa extra)))
  ]
  | _ ↦ some (body local value none none)
]

-- `priority.map(i32::from)`
abbrev pub widen : Option ℕ → Option ℤ
widen none = none
widen (some n) = some (pos n)

-- `a.ok().zip(b.ok()).is_some_and(|(a, b)| a == b)`
abbrev pub both_equal {ℓ} : {A : Type ℓ} ⦃e : Eq A⦄ → Option A → Option A → Bool
both_equal (some x) (some y) = x == y
both_equal _ _ = false

abbrev pub caa_content : Text → Option Value → Option Bool
caa_content value none = some false
caa_content value (some remote) = caa_equal_to (caa_data value) remote

abbrev pub target_matches : Text → Option Text → Bool
target_matches value none = false
target_matches value (some target) = same_name value target

abbrev pub srv_content : Record → Text → Option Value → Bool
srv_content local value none = false
srv_content local value (some remote) =
    target_matches value (get_str (codes "target") remote)
    && numbers_equal local.priority local.weight local.port remote

module _ (V : Ipv6) where
  abbrev pub same_ipv6 : Text → Text → Bool
  same_ipv6 s t = both_equal ⦃e = V.eq⦄ (V.parse s) (V.parse t)

  unfoldable pub content_matches : Record → Text → DnsRecord → Option Bool
  content_matches local value remote = elim (kind_of local.record_type) [
    | a ↦ some (both_equal (Ipv4.parse value) (Ipv4.parse remote.content))
    | aaaa ↦ some (same_ipv6 value remote.content)
    | cname ↦ some (same_name value remote.content)
    | mx ↦ some (same_name value remote.content && local.priority == widen remote.priority)
    | caa ↦ caa_content value remote.extra
    | srv ↦ some (srv_content local value remote.extra)
    | _ ↦ some (value == remote.content)
  ]

  -- The test of the source on both paths that may leave the provider's record as it is.
  unfoldable pub up_to_date : Record → Text → DnsRecord → Option Bool
  up_to_date local value remote = elim (content_matches local value remote) [
    | none ↦ none
    | some same ↦ some (same && remote.ttl == as_u32 local.ttl && not remote.proxied)
  ]
