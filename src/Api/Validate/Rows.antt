-- ===== src/Api/Validate/Rows.antt =====
-- Rows that hold a result of `validate` in src/api.rs, as src/sync.rs reads them.
use vercel_ddns.Base.{
  ◌^◌, ◌≡◌, ◌⊎◌, refl, sym, subst, ap, inl, inr, Text, true, Option, none, some, arith, text_eq,
  Option-cases, codes,
}
use vercel_ddns.Base.Int.{ℤ, pos, negsuc, int_eq}
use vercel_ddns.Base.Outcome.{ok, ok-injective, Result-cases, err-ne-ok}
use vercel_ddns.Base.Strings.{trim}
use vercel_ddns.Net.Numbers.{parse_u8}
use vercel_ddns.Net.Ipv4
use vercel_ddns.Net.Ipv4.{Ipv4Addr}
use vercel_ddns.Net.Ipv4.Parsing
use vercel_ddns.Net.Ipv4.RoundTrip
use vercel_ddns.Net.Ipv6.{Ipv6, IsLawful}
use vercel_ddns.Storage.{Record, RecordInput, is_u16, ttl_check}
use vercel_ddns.Cloudflare.Types.{CaaData}
use vercel_ddns.Sync.Matching.{Kind, kind_of, caa_data, strip_quotes, caa_parts}
use vercel_ddns.Sync.Matching.Sound.{Fits, IsBelow}
use vercel_ddns.Sync.Run.{choose_value}
use vercel_ddns.Sync.Run.Answers.{IsReady}
use vercel_ddns.Api.Validate.{check_input, check_value, normalize_value, or_error}
use vercel_ddns.Api.Validate.Caa.{IsCaa, IsCaa-normalize_caa, joined}
use vercel_ddns.Api.Validate.Stability.{Passes, check_input-eq-ok}

-- The part of a row that the API sets.
abbrev pub input_of : Record → RecordInput
input_of r = record {
  fqdn = r.fqdn;
  record_type = r.record_type;
  value = r.value;
  ttl = r.ttl;
  priority = r.priority;
  weight = r.weight;
  port = r.port;
}

-- The row holds what `validate` returned.
abbrev pub IsValidated : Ipv6 → Record → Type 0
IsValidated V r = check_input V (input_of r) ≡ ok (input_of r)

IsBelow-ttl_check : (z : ℤ) → ttl_check z ≡ true → IsBelow (2 ^ 32) (some z)
IsBelow-ttl_check (pos n) h = (n, refl, ground arith)
IsBelow-ttl_check (negsuc n) h = absurd (ground arith)

IsBelow-is_u16 : (o : Option ℤ) → is_u16 o ≡ true → IsBelow (2 ^ 16) o
IsBelow-is_u16 none h = cc
IsBelow-is_u16 (some (pos n)) h = (n, refl, ground arith)
IsBelow-is_u16 (some (negsuc n)) h = cc

caa_data-joined :
    (flags tag value : Text)
    → IsCaa flags tag value
    → (d : CaaData) × (caa_data (joined flags tag value) ≡ some d)
unfolding caa_data
caa_data-joined flags tag value caa = elim (Option-cases (parse_u8 flags)) [
  | inl gone ↦ absurd (not_gone gone)
  | inr (n, got) ↦ (
    record { flags = n; tag = tag; value = strip_quotes value },
    rw (caa.at_spaces, caa_parts, got),
  )
]
  where
    not_gone : parse_u8 flags ≡ none → ⊥
    not_gone e = ground (arith, caa.number)

or_error-eq-ok {ℓ} :
    {A : Type ℓ} (e : Text) (show : A → Text) (o : Option A) {v : Text}
    → or_error e show o ≡ ok v
    → (a : A) × (o ≡ some a) × (show a ≡ v)
or_error-eq-ok e show none h = cc
or_error-eq-ok e show (some a) h = (a, refl, ok-injective h)

module _ (V : Ipv6) (L : IsLawful V) (r : Record) where
  -- The value of a validated row is in normal form.
  kept_value :
      (k : Kind) (v : Text)
      → r.value ≡ some v
      → check_value V k (input_of r) (some v) ≡ ok (input_of r)
      → normalize_value V k r.priority v ≡ ok v
  kept_value k v e h = elim (Result-cases (normalize_value V k r.priority v)) [
    | inl (w, got) ↦
        let same : some w ≡ r.value =
          ap (λ (i : RecordInput). i.value) (ok-injective (rw got at h)) in
        ground arith
    | inr (f, got) ↦ absurd (err-ne-ok (rw got at h))
  ]

  fits_a :
      (v : Text)
      → normalize_value V Kind.a r.priority v ≡ ok v
      → (ip : Ipv4Addr) × (Ipv4.parse v ≡ some ip)
  unfolding normalize_value
  fits_a v h =
      let (ip, got, shown) = or_error-eq-ok _ Ipv4.display (Ipv4.parse (trim v)) h in
      let fits = Parsing.parse-IsAddr (trim v) got in
      (ip, subst (λ s. Ipv4.parse s ≡ some ip) shown (RoundTrip.parse-display ip fits))

  fits_aaaa :
      (v : Text)
      → normalize_value V Kind.aaaa r.priority v ≡ ok v
      → (a : V.Addr) × (V.parse v ≡ some a)
  unfolding normalize_value
  fits_aaaa v h =
      let (a, got, shown) = or_error-eq-ok _ V.display (V.parse (trim v)) h in
      (a, subst (λ s. V.parse s ≡ some a) shown (L.parse-display a))

  fits_caa :
      (v : Text)
      → normalize_value V Kind.caa r.priority v ≡ ok v
      → (d : CaaData) × (caa_data v ≡ some d)
  unfolding normalize_value
  fits_caa v h =
      let (flags, tag, rest, same, caa) = IsCaa-normalize_caa v h in
      subst (λ s. (d : CaaData) × (caa_data s ≡ some d)) (sym same)
        (caa_data-joined flags tag rest caa)

  chosen :
      (ipv4 : Option Text) {value : Text}
      → choose_value ipv4 r ≡ some value
      → (r.value ≡ some value)
        ⊎ ((r.value ≡ none) × (r.record_type ≡ codes "A") × (ipv4 ≡ some value))
  unfolding choose_value
  chosen ipv4 h = ground arith

  kind_of-a : r.record_type ≡ codes "A" → kind_of r.record_type ≡ Kind.a
  unfolding kind_of
  kind_of-a h = ground arith

  -- The address that a sync may have found is the text of an address.
  abbrev pub Readable : Option Text → Type 0
  Readable ipv4 = (s : Text) → ipv4 ≡ some s → (ip : Ipv4Addr) × (Ipv4.parse s ≡ some ip)

  -- A value that the row itself holds.
  own_value_lem :
      (k : Kind) (value : Text)
      → kind_of r.record_type ≡ k
      → Passes (input_of r)
      → r.value ≡ some value
      → normalize_value V k r.priority value ≡ ok value
      → Fits V r value k
  own_value_lem Kind.a value e p own h = fits_a value h
  own_value_lem Kind.aaaa value e p own h = fits_aaaa value h
  own_value_lem Kind.caa value e p own h = (own, fits_caa value h)
  own_value_lem Kind.cname value e p own h = tt
  own_value_lem Kind.mx value e p own h = IsBelow-is_u16 r.priority (ground (arith, p.priority))
  own_value_lem Kind.txt value e p own h = tt
  own_value_lem Kind.srv value e p own h = (
    IsBelow-is_u16 r.priority (ground (arith, p.priority)),
    IsBelow-is_u16 r.weight (ground (arith, p.weight)),
    IsBelow-is_u16 r.port (ground (arith, p.port)),
  )
  own_value_lem Kind.other value e p own h = ground (arith, p.known)

  chosen_value_lem :
      (ipv4 : Option Text) (value : Text)
      → Readable ipv4
      → Passes (input_of r)
      → check_value V (kind_of r.record_type) (input_of r) r.value ≡ ok (input_of r)
      → choose_value ipv4 r ≡ some value
      → Fits V r value (kind_of r.record_type)
  chosen_value_lem ipv4 value readable p h c = elim (chosen ipv4 c) [
    | inl own ↦ own_value_lem (kind_of r.record_type) value refl p own (
        kept_value (kind_of r.record_type) value own (
          subst (λ o. check_value V (kind_of r.record_type) (input_of r) o ≡ ok (input_of r)) own
            h))
    | inr (dynamic, type_a, found) ↦
        subst (Fits V r value) (sym (kind_of-a type_a)) (readable value found)
  ]

  -- A row that holds a validated input is sound with whatever value a sync chooses for it, if the
  -- address that the sync found is the text of an address.
  pub IsReady-IsValidated :
      (ipv4 : Option Text) → Readable ipv4 → IsValidated V r → IsReady V ipv4 r
  IsReady-IsValidated ipv4 readable valid value c =
      let (p, h) = check_input-eq-ok V (input_of r) valid in
      record {
        ttl = IsBelow-ttl_check r.ttl p.ttl;
        fits = chosen_value_lem ipv4 value readable p h c;
      }
