-- ===== src/Base/Json.antt =====
-- `serde_json::Value`, as far as the source reads it.
use Prim.Native.Nat.{ℕ, ◌^◌}
use mathlib.Core.Bool.{Bool}
use mathlib.Core.Option.{Option, none, some}
use vercel_ddns.Base.Tests.{Text, ltb, ◌==◌, text_eq, if◌then◌else◌}
use vercel_ddns.Base.Int.{ℤ, pos, negsuc}

-- A number is an unsigned integer, a negative integer (`negative n` is -(n + 1)), or a float,
-- which no accessor used here returns.
mutual
  pub data Value : Type 0 where
    null : Value
    bool : Bool → Value
    unsigned : ℕ → Value
    negative : ℕ → Value
    float : Text → Value
    string : Text → Value
    array : Items → Value
    object : Fields → Value

  pub data Items : Type 0 where
    nil : Items
    cons : Value → Items → Items

  pub data Fields : Type 0 where
    end : Fields
    field : Text → Value → Fields → Fields

-- The value of a key, of the last field of that name as `serde_json::Map` keeps it.
unfoldable pub get_field : Text → Fields → Option Value
get_field k end = none
get_field k (field j v fs) = elim (get_field k fs) [
  | some w ↦ some w
  | none ↦ if j == k then some v else none
]

-- `Value::get`
abbrev pub get : Text → Value → Option Value
get k (object fs) = get_field k fs
get k _ = none

abbrev pub as_str : Value → Option Text
as_str (string s) = some s
as_str _ = none

abbrev pub as_u64 : Value → Option ℕ
as_u64 (unsigned n) = some n
as_u64 _ = none

abbrev pub as_i64 : Value → Option ℤ
as_i64 (unsigned n) = if ltb n (2 ^ 63) then some (pos n) else none
as_i64 (negative n) = some (negsuc n)
as_i64 _ = none

abbrev and_then {ℓ} : {A : Type ℓ} → Option Value → (Value → Option A) → Option A
and_then none f = none
and_then (some v) f = f v

-- `data.get(key).and_then(|v| v.as_…())`
unfoldable pub get_str : Text → Value → Option Text
get_str k v = and_then (get k v) as_str

unfoldable pub get_u64 : Text → Value → Option ℕ
get_u64 k v = and_then (get k v) as_u64

unfoldable pub get_i64 : Text → Value → Option ℤ
get_i64 k v = and_then (get k v) as_i64
