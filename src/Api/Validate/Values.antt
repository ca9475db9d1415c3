-- ===== src/Api/Validate/Values.antt =====
-- The value that `validate` of src/api.rs returns, normalised again.
use vercel_ddns.Base.{
  ◌≡◌, ◌⊎◌, refl, inl, inr, Text, codes, Bool, true, false, Option, some, arith, Option-cases,
  text_eq, option_eq,
}
use vercel_ddns.Base.Int.{ℤ, int_eq}
use vercel_ddns.Base.Outcome.{ok}
use vercel_ddns.Base.Strings.{trim, is_whitespace, trim_start_matches, trim_end_matches}
use vercel_ddns.Net.Ipv4
use vercel_ddns.Net.Ipv4.Parsing
use vercel_ddns.Net.Ipv4.RoundTrip
use vercel_ddns.Net.Ipv6.{Ipv6, IsLawful}
use vercel_ddns.Sync.Matching.{Kind}
use vercel_ddns.Api.Validate.{normalize_value, normalize_target, or_error, valid_name}
use vercel_ddns.Api.Validate.Names.{valid_name-normal}
use vercel_ddns.Api.Validate.Caa.{IsCaa-normalize_caa, normalize_caa-IsCaa}

-- An address that is printed and trimmed is read as itself.
or_error_idem {ℓ} :
    {A : Type ℓ} (e : Text) (show : A → Text) (parse : Text → Option A) (v : Text) {v' : Text}
    → ((a : A) → parse v ≡ some a → parse (trim (show a)) ≡ some a)
    → or_error e show (parse v) ≡ ok v'
    → or_error e show (parse (trim v')) ≡ ok v'
or_error_idem e show parse v {v'} back h = elim (Option-cases (parse v)) [
  | inl gone ↦ cc
  | inr (a, got) ↦ rw (← printed a got, back a got)
]
  where
    printed : (a : _) → parse v ≡ some a → show a ≡ v'
    printed a got = ground arith

trim-dot : trim (codes ".") ≡ codes "."
unfolding trim trim_start_matches trim_end_matches is_whitespace
trim-dot = refl

normalize_target-eq-ok :
    (root : Bool) (value : Text) {v : Text}
    → normalize_target root value ≡ ok v
    → ((root ≡ true) × (v ≡ codes ".")) ⊎ (valid_name v false ≡ true)
unfolding normalize_target
normalize_target-eq-ok root value h = ground arith

normalize_target-valid :
    (root : Bool) (v : Text) → valid_name v false ≡ true → normalize_target root v ≡ ok v
unfolding normalize_target
normalize_target-valid root v h =
    let (trimmed, dotless, low) = valid_name-normal v false h in
    rw (trimmed, dotless, low) (ground arith)

normalize_target-dot : normalize_target true (codes ".") ≡ ok (codes ".")
unfolding normalize_target
normalize_target-dot = rw trim-dot (ground arith)

normalize_target_idem :
    (root : Bool) (value : Text) {v : Text}
    → normalize_target root value ≡ ok v
    → normalize_target root v ≡ ok v
normalize_target_idem root value {v} h = elim (normalize_target-eq-ok root value h) [
  | inl (allowed, dot) ↦ rw (allowed, dot) normalize_target-dot
  | inr valid ↦ normalize_target-valid root v valid
]

module _ (V : Ipv6) (L : IsLawful V) where
  pub normalize_value_idem :
      (kind : Kind) (priority : Option ℤ) (value : Text) {v : Text}
      → normalize_value V kind priority value ≡ ok v
      → normalize_value V kind priority v ≡ ok v
  unfolding normalize_value
  normalize_value_idem Kind.a priority value h =
      or_error_idem _ Ipv4.display Ipv4.parse (trim value)
        (λ ip got.
          let fits = Parsing.parse-IsAddr (trim value) got in
          rw (Parsing.trim-display ip fits) (RoundTrip.parse-display ip fits))
        h
  normalize_value_idem Kind.aaaa priority value h =
      or_error_idem _ V.display V.parse (trim value)
        (λ a got. rw (L.trim-display a) (L.parse-display a)) h
  normalize_value_idem Kind.caa priority value h =
      let (flags, tag, rest, same, caa) = IsCaa-normalize_caa value h in
      rw same (normalize_caa-IsCaa flags tag rest caa)
  normalize_value_idem Kind.cname priority value h = normalize_target_idem false value h
  normalize_value_idem Kind.mx priority value h = normalize_target_idem _ value h
  normalize_value_idem Kind.srv priority value h = normalize_target_idem true value h
  normalize_value_idem Kind.txt priority value h = ground arith
  normalize_value_idem Kind.other priority value h = refl
