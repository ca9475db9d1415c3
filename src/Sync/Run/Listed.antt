-- ===== src/Sync/Run/Listed.antt =====
-- The rows of a consistent table in the order in which `list` of src/storage.rs returns them.
use vercel_ddns.Base.{
  ◌≡◌, ◌≢◌, ◌⊎◌, refl, sym, Text, Bool, true, false, if◌then◌else◌, some, List, [], ◌∷◌, arith,
  text_eq, option_eq, inl, inr, All,
}
use vercel_ddns.Base.Int.{int_eq}
use vercel_ddns.Storage.{Record, find_row, insert_row, order_rows, precedes, conflicts, clashes}
use vercel_ddns.Storage.Constraints.{Apart}
use vercel_ddns.Sync.Run.Writes.{In}
use vercel_ddns.Sync.Run.Effects.{In-order_rows}
use vercel_ddns.Sync.Run.Settled.{Away, Distinct, HeldIn}

conflicts-In :
    (r s : Record) (rows : List Record) → conflicts r rows ≡ false → In s rows → r.id ≢ s.id
unfolding conflicts clashes
conflicts-In r s [] h m = absurd m
conflicts-In r s (t ∷ rows) h (inl e) = ground arith
conflicts-In r s (t ∷ rows) h (inr m) = ground (arith, conflicts-In r s rows)

-- In a consistent table a row is found by its ID.
pub find_row-In :
    (rows : List Record) → Apart rows → (r : Record) → In r rows → find_row r.id rows ≡ some r
unfolding find_row
find_row-In [] a r m = absurd m
find_row-In (t ∷ rows) (h, a) r (inl e) = ground arith
find_row-In (t ∷ rows) (h, a) r (inr m) =
    let other = conflicts-In t r rows h m in let ih = find_row-In rows a r m in ground arith

pub All-map_In :
    (P : Record → Type 0) (records : List Record)
    → ((r : Record) → In r records → P r)
    → All P records
All-map_In P [] h = tt
All-map_In P (r ∷ records) h = (h r (inl refl), All-map_In P records (λ x m. h x (inr m)))

In-insert_row_of :
    (collate : Text → Text → Bool) (x r : Record) (rows : List Record)
    → (x ≡ r) ⊎ In x rows
    → In x (insert_row collate r rows)
unfolding insert_row
In-insert_row_of collate x r [] h = h
In-insert_row_of collate x r (s ∷ rows) h = ground (arith, In-insert_row_of collate x r rows)

pub In-order_rows_of :
    (collate : Text → Text → Bool) (x : Record) (rows : List Record)
    → In x rows
    → In x (order_rows collate rows)
unfolding order_rows
In-order_rows_of collate x [] h = h
In-order_rows_of collate x (r ∷ rows) (inl e) =
    In-insert_row_of collate x r (order_rows collate rows) (inl e)
In-order_rows_of collate x (r ∷ rows) (inr m) =
    In-insert_row_of collate x r (order_rows collate rows) (inr (In-order_rows_of collate x rows m))

Away-insert_row :
    (collate : Text → Text → Bool) (x r : Record) (rows : List Record)
    → x.id ≢ r.id
    → Away x rows
    → Away x (insert_row collate r rows)
unfolding insert_row
Away-insert_row collate x r [] other h = (other, tt)
Away-insert_row collate x r (s ∷ rows) other (hs, h) =
    placed (precedes collate r s) (Away-insert_row collate x r rows other h)
  where
    placed :
        (b : Bool)
        → Away x (insert_row collate r rows)
        → Away x (if b then r ∷ s ∷ rows else s ∷ insert_row collate r rows)
    placed true rest = (other, (hs, h))
    placed false rest = (hs, rest)

Distinct-insert_row :
    (collate : Text → Text → Bool) (r : Record) (rows : List Record)
    → Away r rows
    → Distinct rows
    → Distinct (insert_row collate r rows)
unfolding insert_row
Distinct-insert_row collate r [] away h = (tt, tt)
Distinct-insert_row collate r (s ∷ rows) (other, away) (hs, h) =
    placed (precedes collate r s) (Distinct-insert_row collate r rows away h)
  where
    placed :
        (b : Bool)
        → Distinct (insert_row collate r rows)
        → Distinct (if b then r ∷ s ∷ rows else s ∷ insert_row collate r rows)
    placed true rest = ((other, away), (hs, h))
    placed false rest = (Away-insert_row collate s r rows (λ e. other (sym e)) hs, rest)

pub Distinct-order_rows :
    (collate : Text → Text → Bool) (rows : List Record)
    → Apart rows
    → Distinct (order_rows collate rows)
unfolding order_rows
Distinct-order_rows collate [] a = tt
Distinct-order_rows collate (r ∷ rows) (h, a) =
    Distinct-insert_row collate r (order_rows collate rows)
      (All-map_In (λ (s : Record). r.id ≢ s.id) (order_rows collate rows)
        (λ s m. conflicts-In r s rows h (In-order_rows collate s rows m)))
      (Distinct-order_rows collate rows a)

pub HeldIn-order_rows :
    (collate : Text → Text → Bool) (rows : List Record)
    → Apart rows
    → HeldIn rows (order_rows collate rows)
HeldIn-order_rows collate rows a =
    All-map_In (λ r. find_row r.id rows ≡ some r) (order_rows collate rows)
      (λ r m. find_row-In rows a r (In-order_rows collate r rows m))
