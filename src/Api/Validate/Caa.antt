-- ===== src/Api/Validate/Caa.antt =====
-- `normalize_caa` of src/api.rs and the pieces of its result.
use vercel_ddns.Base.{ℕ, ◌≡◌, refl, Text, true, false, [], ◌∷◌, ◌++◌, arith, All, all, eqb}
use vercel_ddns.Base.Outcome.{ok}
use vercel_ddns.Base.Strings.{splitn, is_whitespace, is_ascii_digit, is_ascii_alphanumeric}
use vercel_ddns.Base.Strings.Splitting.{Fails, splitn_three}
use vercel_ddns.Net.Numbers.{parse_u8}
use vercel_ddns.Storage.{is_none}
use vercel_ddns.Api.Validate.{check_caa, normalize_caa, piece, rest_of}

-- Neither whitespace nor, which is more, a space.
abbrev Solid : ℕ → Type 0
Solid c = (is_whitespace c ≡ false) × (eqb b' ' c ≡ false)

Solid-alphanumeric : (c : ℕ) → is_ascii_alphanumeric c ≡ true → Solid c
unfolding is_whitespace
Solid-alphanumeric c h = ground arith

Solid-digits : (s : Text) → all is_ascii_digit s ≡ true → All Solid s
Solid-digits [] _ = tt
Solid-digits (c ∷ s) h = (Solid-alphanumeric c (ground arith), Solid-digits s (ground arith))

Solid-alphanumerics : (s : Text) → all is_ascii_alphanumeric s ≡ true → All Solid s
Solid-alphanumerics [] _ = tt
Solid-alphanumerics (c ∷ s) h =
    (Solid-alphanumeric c (ground arith), Solid-alphanumerics s (ground arith))

Fails-whitespace : (s : Text) → All Solid s → Fails is_whitespace s
Fails-whitespace [] _ = tt
Fails-whitespace (c ∷ s) ((h, _), hs) = (h, Fails-whitespace s hs)

Fails-space : (s : Text) → All Solid s → Fails (eqb b' ') s
Fails-space [] _ = tt
Fails-space (c ∷ s) ((_, h), hs) = (h, Fails-space s hs)

space_white : is_whitespace b' ' ≡ true
unfolding is_whitespace
space_white = refl

abbrev pub joined : Text → Text → Text → Text
joined flags tag value = flags ++ (b' ' ∷ (tag ++ (b' ' ∷ value)))

-- The pieces of a CAA value that is accepted.
pub record IsCaa (flags tag value : Text) : Type 0 where
  pub checked : check_caa flags tag value ≡ ok (joined flags tag value)
  pub number : is_none (parse_u8 flags) ≡ false
  pub at_spaces : splitn (eqb b' ') 3 (joined flags tag value) ≡ flags ∷ tag ∷ value ∷ []
  pub at_whitespace : splitn is_whitespace 3 (joined flags tag value) ≡ flags ∷ tag ∷ value ∷ []

check_caa-eq-ok :
    (flags tag value : Text) {v : Text}
    → check_caa flags tag value ≡ ok v
    → (v ≡ joined flags tag value)
      × (all is_ascii_digit flags ≡ true)
      × (is_none (parse_u8 flags) ≡ false)
      × (all is_ascii_alphanumeric tag ≡ true)
unfolding check_caa
check_caa-eq-ok flags tag value h = ground arith

pub IsCaa-check_caa :
    (flags tag value : Text) {v : Text}
    → check_caa flags tag value ≡ ok v
    → (v ≡ joined flags tag value) × IsCaa flags tag value
IsCaa-check_caa flags tag value {v} h =
    let (same, fs, number, ts) = check_caa-eq-ok flags tag value h in
    let sf = Solid-digits flags fs in
    let st = Solid-alphanumerics tag ts in
    (
      same,
      record {
        checked = rw same at h;
        number = number;
        at_spaces =
            splitn_three (eqb b' ') flags tag value b' ' b' ' (Fails-space flags sf) refl
              (Fails-space tag st) refl;
        at_whitespace =
            splitn_three is_whitespace flags tag value b' ' b' ' (Fails-whitespace flags sf)
              space_white (Fails-whitespace tag st) space_white;
      },
    )

-- Every CAA value that `normalize_caa` returns is of that form.
pub IsCaa-normalize_caa :
    (value : Text) {v : Text}
    → normalize_caa value ≡ ok v
    → (flags tag rest : Text) × (v ≡ joined flags tag rest) × IsCaa flags tag rest
unfolding normalize_caa
IsCaa-normalize_caa value h =
    let parts = splitn is_whitespace 3 value in
    let (same, caa) =
      IsCaa-check_caa (piece parts) (piece (rest_of parts)) (piece (rest_of (rest_of parts))) h in
    (piece parts, piece (rest_of parts), piece (rest_of (rest_of parts)), same, caa)

-- Such a value is normalised to itself.
pub normalize_caa-IsCaa :
    (flags tag value : Text)
    → IsCaa flags tag value
    → normalize_caa (joined flags tag value) ≡ ok (joined flags tag value)
unfolding normalize_caa
normalize_caa-IsCaa flags tag value caa = rw caa.at_whitespace caa.checked
