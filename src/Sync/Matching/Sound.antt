-- ===== src/Sync/Matching/Sound.antt =====
-- What a row and the value chosen for it must be for none of the `unwrap`s of src/sync.rs to panic.
use vercel_ddns.Base.{ℕ, ◌^◌, ◌<◌, ◌≡◌, ◌≢◌, refl, Text, Option, none, some, arith, text_eq}
use vercel_ddns.Base.Int.{ℤ, pos}
use vercel_ddns.Net.Ipv4
use vercel_ddns.Net.Ipv4.{Ipv4Addr}
use vercel_ddns.Net.Ipv6.{Ipv6}
use vercel_ddns.Storage.{Record}
use vercel_ddns.Cloudflare.Types.{DnsRecord, CaaData}
use vercel_ddns.Sync.Matching.{
  Kind, kind_of, caa_data, identity_matches, content_matches, up_to_date,
}

-- A number that a cast to `wW` bits keeps.
abbrev pub IsBelow : ℕ → Option ℤ → Type 0
IsBelow bound o = (n : ℕ) × (o ≡ some (pos n)) × (n < bound)

module _ (V : Ipv6) (r : Record) (value : Text) where
  abbrev pub Fits : Kind → Type 0
  Fits Kind.a = (ip : Ipv4Addr) × (Ipv4.parse value ≡ some ip)
  Fits Kind.aaaa = (a : V.Addr) × (V.parse value ≡ some a)
  Fits Kind.caa = (r.value ≡ some value) × ((d : CaaData) × (caa_data value ≡ some d))
  Fits Kind.cname = Unit
  Fits Kind.mx = IsBelow (2 ^ 16) r.priority
  Fits Kind.txt = Unit
  Fits Kind.srv = IsBelow (2 ^ 16) r.priority × IsBelow (2 ^ 16) r.weight × IsBelow (2 ^ 16) r.port
  Fits Kind.other = ⊥

  pub record IsSound : Type 0 where
    pub ttl : IsBelow (2 ^ 32) (some r.ttl)
    pub fits : Fits (kind_of r.record_type)

module _ (V : Ipv6) {r : Record} {value : Text} (sound : IsSound V r value)
    (remote : DnsRecord) where
  identity_of_kind :
      (k : Kind) → kind_of r.record_type ≡ k → Fits V r value k → identity_matches r remote ≢ none
  unfolding identity_matches
  identity_of_kind Kind.a e f = ground arith
  identity_of_kind Kind.caa e (same, (d, got)) = ground arith
  identity_of_kind Kind.other e f = absurd f
  identity_of_kind _ e f = ground arith

  content_of_kind :
      (k : Kind)
      → kind_of r.record_type ≡ k
      → Fits V r value k
      → content_matches V r value remote ≢ none
  unfolding content_matches
  content_of_kind Kind.a e f = ground arith
  content_of_kind Kind.caa e (same, (d, got)) = ground arith
  content_of_kind Kind.other e f = absurd f
  content_of_kind _ e f = ground arith

  -- The tests of a sound row do not panic, whatever the provider's record holds.
  pub identity_matches-ne-none : identity_matches r remote ≢ none
  identity_matches-ne-none = identity_of_kind (kind_of r.record_type) refl sound.fits

  pub up_to_date-ne-none : up_to_date V r value remote ≢ none
  unfolding up_to_date
  up_to_date-ne-none = ground (arith, content_of_kind (kind_of r.record_type) refl sound.fits)
