-- ===== src/Base/Strings/Splitting.antt =====
-- `split` and `splitn` on texts that are joined from pieces without the separator.
use vercel_ddns.Base.Tests.{Text, eqb}
use vercel_ddns.Base.Lists.{All}
use Prim.Native.Nat.{ℕ}
use mathlib.Core.Path.{◌≡◌, refl}
use mathlib.Core.Logic.{◌≢◌}
use mathlib.Core.Bool.{Bool, true, false}
use mathlib.Core.Option.{some}
use mathlib.Core.List.{[], ◌∷◌, ◌++◌}
use native.Mathlib.Omega.{arith}
use vercel_ddns.Base.Strings.{split, split_once, splitn, push_char}

abbrev pub Lacks : ℕ → Text → Type 0
Lacks b = All (λ c. c ≢ b)

pub split_at_sep : (sep c : ℕ) (s : Text) → eqb c sep ≡ true → split sep (c ∷ s) ≡ [] ∷ split sep s
unfolding split
split_at_sep sep c s h = ground arith

pub split_in_piece :
    (sep c : ℕ) (s : Text) → eqb c sep ≡ false → split sep (c ∷ s) ≡ push_char c (split sep s)
unfolding split
split_in_piece sep c s h = ground arith

pub split-lacking : (sep : ℕ) (s : Text) → Lacks sep s → split sep s ≡ s ∷ []
unfolding split
split-lacking sep [] _ = refl
split-lacking sep (c ∷ s) (hc, hs) = ground (arith, split-lacking sep s hs)

pub split-append :
    (sep : ℕ) (s t : Text) → Lacks sep s → split sep (s ++ (sep ∷ t)) ≡ s ∷ split sep t
unfolding split
split-append sep [] t _ = ground arith
split-append sep (c ∷ s) t (hc, hs) = ground (arith, split-append sep s t hs)

module _ (p : ℕ → Bool) where
  -- No character of the text passes the test.
  abbrev pub Fails : Text → Type 0
  Fails = All (λ c. p c ≡ false)

  pub split_once-append :
      (s t : Text) (c : ℕ) → Fails s → p c ≡ true → split_once p (s ++ (c ∷ t)) ≡ some (s, t)
  unfolding split_once
  split_once-append [] t c _ h = ground arith
  split_once-append (d ∷ s) t c (hd, hs) h = ground (arith, split_once-append s t c hs h)

module _ (p : ℕ → Bool) where
  pub splitn_three :
      (a b t : Text) (c d : ℕ)
      → Fails p a
      → p c ≡ true
      → Fails p b
      → p d ≡ true
      → splitn p 3 (a ++ (c ∷ (b ++ (d ∷ t)))) ≡ a ∷ b ∷ t ∷ []
  unfolding splitn
  splitn_three a b t c d ha hc hb hd =
      rw (split_once-append p a (b ++ (d ∷ t)) c ha hc, splitn, split_once-append p b t d hb hd)
