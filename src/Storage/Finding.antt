-- ===== src/Storage/Finding.antt =====
-- The rows that the statements of src/storage.rs find by their ID.
use vercel_ddns.Base.{◌≡◌, ◌≢◌, refl, some, List, [], ◌∷◌, arith}
use vercel_ddns.Base.Int.{ℤ, int_eq}
use vercel_ddns.Storage.Tables.{Record}
use vercel_ddns.Storage.Records.{find_row, replace_row, others}

pub find_row-replace_row :
    (id : ℤ) (row : Record) (rows : List Record) {r : Record}
    → row.id ≡ id
    → find_row id rows ≡ some r
    → find_row id (replace_row row rows) ≡ some row
unfolding find_row replace_row
find_row-replace_row id row [] e h = cc
find_row-replace_row id row (s ∷ rows) {r} e h =
    ground (arith, find_row-replace_row id row rows {r = r} e)

pub find_row-id : (id : ℤ) (rows : List Record) {r : Record} → find_row id rows ≡ some r → r.id ≡ id
unfolding find_row
find_row-id id [] h = cc
find_row-id id (s ∷ rows) {r} h = ground (arith, find_row-id id rows {r = r})

pub find_row-replace_row_ne :
    (k : ℤ) (row : Record) (rows : List Record)
    → k ≢ row.id
    → find_row k (replace_row row rows) ≡ find_row k rows
unfolding find_row replace_row
find_row-replace_row_ne k row [] other = refl
find_row-replace_row_ne k row (s ∷ rows) other =
    ground (arith, find_row-replace_row_ne k row rows other)

pub find_row-others :
    (k id : ℤ) (rows : List Record) → k ≢ id → find_row k (others id rows) ≡ find_row k rows
unfolding find_row others
find_row-others k id [] other = refl
find_row-others k id (s ∷ rows) other = ground (arith, find_row-others k id rows other)
