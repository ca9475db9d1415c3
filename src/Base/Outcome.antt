-- ===== src/Base/Outcome.antt =====
-- How a call of the source ends, and the calls that change the world.
use mathlib.Core.Path.{◌≡◌, refl}
use mathlib.Core.Logic.{◌⊎◌, inl, inr}
use vercel_ddns.Base.Tests.{Text}

-- `Result<A, E>`
pub data Result {ℓ κ} (E : Type ℓ) (A : Type κ) : Type (ℓ ⊔ κ) where
  ok : A → Result E A
  err : E → Result E A

-- A call of a database or of a service ends with a value or an error, and leaves a state.
pub data Reply {ℓ κ ι} (S : Type ℓ) (E : Type κ) (A : Type ι) : Type (ℓ ⊔ κ ⊔ ι) where
  returned : A → S → Reply S E A
  errored : E → S → Reply S E A

-- A computation that changes a world `W` returns `Ok`, returns an `Err` with its text, or panics.
pub data Ran {ℓ κ} (W : Type ℓ) (A : Type κ) : Type (ℓ ⊔ κ) where
  done : A → W → Ran W A
  failed : Text → W → Ran W A
  panicked : W → Ran W A

abbrev pub Act {ℓ κ} : Type ℓ → Type κ → Type (ℓ ⊔ κ)
Act W A = W → Ran W A

module _ {ℓ} {W : Type ℓ} where
  abbrev pub pure {κ} : {A : Type κ} → A → Act W A
  pure a w = done a w

  abbrev pub fail {κ} : {A : Type κ} → Text → Act W A
  fail e w = failed e w

  abbrev pub panic {κ} : {A : Type κ} → Act W A
  panic w = panicked w

  infixl 5 ◌>>=◌ ◌>>◌
  abbrev pub ◌>>=◌ {κ ι} : {A : Type κ} {B : Type ι} → Act W A → (A → Act W B) → Act W B
  ◌>>=◌ m f w = elim (m w) [
    | done a w' ↦ f a w'
    | failed e w' ↦ failed e w'
    | panicked w' ↦ panicked w'
  ]

  abbrev pub ◌>>◌ {κ} : {B : Type κ} → Act W (Unit {0}) → Act W B → Act W B
  m >> k = m >>= λ _. k

  -- The world in which a run ends.
  abbrev pub world {κ} : {A : Type κ} → Ran W A → W
  world (done _ w) = w
  world (failed _ w) = w
  world (panicked w) = w

module _ {ℓ κ} {E : Type ℓ} {A : Type κ} where
  pub Result-cases : (r : Result E A) → ((a : A) × (r ≡ ok a)) ⊎ ((e : E) × (r ≡ err e))
  Result-cases (ok a) = inl (a, refl)
  Result-cases (err e) = inr (e, refl)

  pub ok-injective : {a b : A} → ◌≡◌ {A = Result E A} (ok a) (ok b) → a ≡ b
  ok-injective h = cc

  pub err-ne-ok : {e : E} {a : A} → ◌≡◌ {A = Result E A} (err e) (ok a) → ⊥
  err-ne-ok h = cc

module _ {ℓ κ ι} {S : Type ℓ} {E : Type κ} {A : Type ι} where
  pub Reply-cases :
      (r : Reply S E A)
      → ((a : A) × (s : S) × (r ≡ returned a s)) ⊎ ((e : E) × (s : S) × (r ≡ errored e s))
  Reply-cases (returned a s) = inl (a, s, refl)
  Reply-cases (errored e s) = inr (e, s, refl)

module _ {ℓ κ} {W : Type ℓ} {A : Type κ} where
  pub Ran-cases :
      (r : Ran W A)
      → ((a : A) × (w : W) × (r ≡ done a w))
        ⊎ ((e : Text) × (w : W) × (r ≡ failed e w))
        ⊎ ((w : W) × (r ≡ panicked w))
  Ran-cases (done a w) = inl (a, w, refl)
  Ran-cases (failed e w) = inr (inl (e, w, refl))
  Ran-cases (panicked w) = inr (inr (w, refl))
