-- ===== src/Sync/Matching/Echo.antt =====
-- `desired` of src/sync.rs against `identity_matches` and `content_matches`, on what the provider
-- reports of a record that was sent to it.
use vercel_ddns.Base.{
  ◌^◌, ◌<◌, ◌≡◌, ◌≢◌, refl, Text, codes, Option, none, some, arith, true, false, text_eq, nat_eq,
  option_eq, Option-cases, inl, inr,
}
use vercel_ddns.Base.Int.{pos, as_u32, as_u16_of_fits, int_eq}
use vercel_ddns.Base.Json.{
  Value, unsigned, string, object, field, end, get_u64, get_i64, get_str, get_field,
}
use vercel_ddns.Base.Strings.{eq_ignore_ascii_case}
use vercel_ddns.Net.Ipv4.{ipv4_eq}
use vercel_ddns.Net.Ipv6.{Ipv6}
use vercel_ddns.Storage.{Record}
use vercel_ddns.Cloudflare.Types
use vercel_ddns.Cloudflare.Types.{DnsRecord, CaaData, SrvData, RecordData}
use vercel_ddns.Sync.Matching.{
  Kind, kind_of, desired, identity_matches, content_matches, up_to_date, same_name, caa_equal,
  numbers_equal,
}
use vercel_ddns.Sync.Matching.Sound.{IsSound, Fits}

-- The JSON of `RecordData`: the struct's fields, with no tag for the variant.
abbrev pub extra_json : RecordData → Value
extra_json (Types.srv d) = object (
    field (codes "priority") (unsigned d.priority) (
      field (codes "weight") (unsigned d.weight)
        (field (codes "port") (unsigned d.port) (field (codes "target") (string d.target) end))))
extra_json (Types.caa d) = object (
    field (codes "flags") (unsigned d.flags)
      (field (codes "tag") (string d.tag) (field (codes "value") (string d.value) end)))

abbrev report : Option RecordData → Option Value
report none = none
report (some d) = some (extra_json d)

-- A provider that keeps what it is sent reports this record.
abbrev pub echo : Text → Types.Record → DnsRecord
echo id sent = record {
  id = id;
  name = sent.name;
  record_type = sent.record_type;
  content = sent.content;
  ttl = sent.ttl;
  proxied = false;
  priority = sent.priority;
  extra = report sent.extra;
}

same_name_refl : (s : Text) → same_name s s ≡ true
unfolding same_name eq_ignore_ascii_case
same_name_refl s = ground arith

caa_equal-extra_json : (d : CaaData) → caa_equal d (extra_json (Types.caa d)) ≡ true
unfolding caa_equal
caa_equal-extra_json d = rw (flags, tag, value) (ground arith)
  where
    flags : get_u64 (codes "flags") (extra_json (Types.caa d)) ≡ some d.flags
    flags = unfold get_u64 get_field text_eq in refl

    tag : get_str (codes "tag") (extra_json (Types.caa d)) ≡ some d.tag
    tag = unfold get_str get_field text_eq in refl

    value : get_str (codes "value") (extra_json (Types.caa d)) ≡ some d.value
    value = unfold get_str get_field text_eq in refl

srv_json-numbers :
    (d : SrvData)
    → d.priority < 2 ^ 16
    → d.weight < 2 ^ 16
    → d.port < 2 ^ 16
    → numbers_equal
        (some (pos d.priority))
        (some (pos d.weight))
        (some (pos d.port))
        (extra_json (Types.srv d))
      ≡ true
unfolding numbers_equal get_i64 get_field text_eq
srv_json-numbers d hp hw ho = ground arith

srv_json-target :
    (d : SrvData) → get_str (codes "target") (extra_json (Types.srv d)) ≡ some d.target
unfolding get_str get_field text_eq
srv_json-target d = refl

module _ (V : Ipv6) (r : Record) (value : Text) (id : Text) where
  -- The two tests that `reconcile` makes, on a report of what it sent.
  abbrev Accepted : Types.Record → Type 0
  Accepted sent =
      (identity_matches r (echo id sent) ≡ some true)
      × (content_matches V r value (echo id sent) ≡ some true)

  accepted :
      (k : Kind) {sent : Types.Record}
      → kind_of r.record_type ≡ k
      → Fits V r value k
      → desired r value ≡ some sent
      → Accepted sent
  unfolding desired identity_matches content_matches
  accepted Kind.a e (ip, got) h = (ground (arith, same_name_refl r.fqdn), ground arith)
  accepted Kind.aaaa e (ip, got) h = (ground (arith, same_name_refl r.fqdn), ground arith)
  accepted Kind.caa e (same, (d, got)) h = (
    ground (arith, same_name_refl r.fqdn, caa_equal-extra_json d),
    ground (arith, caa_equal-extra_json d),
  )
  accepted Kind.cname e f h =
      (ground (arith, same_name_refl r.fqdn), ground (arith, same_name_refl value))
  accepted Kind.mx e (n, p, lt) h = (
    ground (arith, same_name_refl r.fqdn),
    ground (arith, same_name_refl value, as_u16_of_fits n lt),
  )
  accepted Kind.txt e f h = (ground (arith, same_name_refl r.fqdn), ground arith)
  accepted Kind.srv e ((p, ep, hp), (w, ew, hw), (o, eo, ho)) h =
      let d : SrvData = record { priority = p; weight = w; port = o; target = value } in
      (
        ground (
          arith,
          same_name_refl r.fqdn,
          as_u16_of_fits p hp,
          as_u16_of_fits w hw,
          as_u16_of_fits o ho,
          srv_json-numbers d hp hw ho,
        ),
        ground (
          arith,
          same_name_refl value,
          as_u16_of_fits p hp,
          as_u16_of_fits w hw,
          as_u16_of_fits o ho,
          srv_json-numbers d hp hw ho,
          srv_json-target d,
        ),
      )
  accepted Kind.other e f h = absurd f

desired-ne-none :
    (V : Ipv6) (r : Record) (value : Text) (k : Kind)
    → kind_of r.record_type ≡ k
    → Fits V r value k
    → desired r value ≢ none
unfolding desired
desired-ne-none V r value Kind.a e f = ground arith
desired-ne-none V r value Kind.caa e (same, (d, got)) = ground arith
desired-ne-none V r value Kind.mx e (n, p, lt) = ground arith
desired-ne-none V r value Kind.srv e ((p, ep, hp), (w, ew, hw), (o, eo, ho)) = ground arith
desired-ne-none V r value Kind.other e f = absurd f
desired-ne-none V r value _ e f = ground arith

-- What the source sends for a sound row is well defined.
pub desired-some :
    (V : Ipv6) (r : Record) (value : Text)
    → IsSound V r value
    → (sent : Types.Record) × (desired r value ≡ some sent)
desired-some V r value sound = elim (Option-cases (desired r value)) [
  | inl gone ↦ absurd (desired-ne-none V r value (kind_of r.record_type) refl sound.fits gone)
  | inr found ↦ found
]

-- The fields of what is sent that do not depend on the type.
pub desired-fields :
    (r : Record) (value : Text) {sent : Types.Record}
    → desired r value ≡ some sent
    → (sent.name ≡ r.fqdn) × (sent.record_type ≡ r.record_type) × (sent.ttl ≡ as_u32 r.ttl)
unfolding desired
desired-fields r value h = ground arith

-- If the provider reports a record as it was sent, the report has the row's identity and is up to
-- date: the next reconciliation leaves it alone.
pub echo-up_to_date :
    (V : Ipv6) (r : Record) (value id : Text) {sent : Types.Record}
    → IsSound V r value
    → desired r value ≡ some sent
    → (identity_matches r (echo id sent) ≡ some true)
      × (up_to_date V r value (echo id sent) ≡ some true)
unfolding up_to_date
echo-up_to_date V r value id sound h =
    let (mine, same) = accepted V r value id (kind_of r.record_type) refl sound.fits h in
    (mine, ground (arith, desired-fields r value h))
