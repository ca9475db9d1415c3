-- ===== src/Base/Int.antt =====
-- Signed integers and the casts that the source makes.
use mathlib.Core.Path.{◌≡◌}
use Prim.Native.Nat.{ℕ, ◌-◌, ◌%◌, ◌^◌, ◌<◌}
use mathlib.Core.Bool.{Bool, false, ◌&&◌}
use native.Mathlib.Omega.{arith}
use vercel_ddns.Base.Tests.{leb, Eq}
use native.Mathlib.Decide.{ℕ_discrete}

-- `negsuc n` is -(n + 1).
pub data ℤ : Type 0 where
  pos : ℕ → ℤ
  negsuc : ℕ → ℤ

ℤ-discrete : Discrete ℤ
ℤ-discrete = hlevel ℕ_discrete

instance unfoldable pub int_eq : Eq ℤ
unfolding ℤ-discrete ℕ_discrete
int_eq = record { dec = ℤ-discrete }

-- `(lo..=hi).contains(&z)` for natural bounds.
abbrev pub in_range : ℕ → ℕ → ℤ → Bool
in_range lo hi (pos n) = leb lo n && leb n hi
in_range lo hi (negsuc n) = false

-- `z as uW`: the value modulo 2^W.
unfoldable pub as_unsigned : ℕ → ℤ → ℕ
as_unsigned w (pos n) = n % 2 ^ w
as_unsigned w (negsuc n) = 2 ^ w - 1 - n % 2 ^ w

abbrev pub as_u16 : ℤ → ℕ
as_u16 = as_unsigned 16

abbrev pub as_u32 : ℤ → ℕ
as_u32 = as_unsigned 32

-- A cast keeps a value that fits.
pub as_u16_of_fits : (n : ℕ) → n < 2 ^ 16 → as_u16 (pos n) ≡ n
unfolding as_unsigned
as_u16_of_fits n h = omega arith

pub as_u32_of_fits : (n : ℕ) → n < 2 ^ 32 → as_u32 (pos n) ≡ n
unfolding as_unsigned
as_u32_of_fits n h = omega arith
