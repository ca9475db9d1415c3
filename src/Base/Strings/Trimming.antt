-- ===== src/Base/Strings/Trimming.antt =====
-- What `trim` and its parts leave alone.
use vercel_ddns.Base.Tests.{Text}
use vercel_ddns.Base.Lists.{All}
use Prim.Native.Nat.{ℕ}
use mathlib.Core.Path.{◌≡◌, refl}
use mathlib.Core.Bool.{Bool, false}
use mathlib.Core.List.{[], ◌∷◌}
use native.Mathlib.Omega.{arith}
use vercel_ddns.Base.Strings.{trim, trim_start_matches, trim_end_matches, is_whitespace}

module _ (p : ℕ → Bool) where
  pub trim_end_matches_idem :
      (s : Text) → trim_end_matches p (trim_end_matches p s) ≡ trim_end_matches p s
  unfolding trim_end_matches
  trim_end_matches_idem [] = refl
  trim_end_matches_idem (c ∷ s) = ground (arith, trim_end_matches_idem s)

  -- A text of which nothing passes is kept.
  pub trim_end_matches_of_fails : (s : Text) → All (λ c. p c ≡ false) s → trim_end_matches p s ≡ s
  unfolding trim_end_matches
  trim_end_matches_of_fails [] _ = refl
  trim_end_matches_of_fails (c ∷ s) (h, hs) = ground (arith, trim_end_matches_of_fails s hs)

  pub trim_start_matches_of_fails :
      (s : Text) → All (λ c. p c ≡ false) s → trim_start_matches p s ≡ s
  unfolding trim_start_matches
  trim_start_matches_of_fails [] _ = refl
  trim_start_matches_of_fails (c ∷ s) (h, hs) = ground arith

-- A text without whitespace is kept.
pub trim_of_fails : (s : Text) → All (λ c. is_whitespace c ≡ false) s → trim s ≡ s
unfolding trim
trim_of_fails s h =
    rw (trim_start_matches_of_fails is_whitespace s h) (trim_end_matches_of_fails is_whitespace s h)
