-- ===== src/Storage/Constraints.antt =====
-- The constraints of `records` in migrations/0001_cloudflare_records.sql, on lists of rows.
use vercel_ddns.Base.{
  ℕ, ◌<◌, ◌≡◌, ◌≢◌, ◌∙◌, refl, subst, Text, some, Bool-cases, inl, inr, Bool, true, false, List, [],
  ◌∷◌, arith, All, ◌==◌, text_eq, option_eq, if◌then◌else◌,
}
use vercel_ddns.Base.Int.{ℤ, pos, int_eq}
use vercel_ddns.Storage.Tables.{Record, Database, row_check, clashes, same_provider}
use vercel_ddns.Storage.Records.{conflicts, others, replace_row, find_row, has_id}

abbrev pub Apart : List Record → Type 0
Apart [] = Unit
Apart (r ∷ rows) = (conflicts r rows ≡ false) × Apart rows

abbrev pub IsBelow : ℕ → Record → Type 0
IsBelow bound r = (n : ℕ) × (r.id ≡ pos n) × (n < bound)

-- What the schema promises of the table.
pub record IsConsistent (db : Database) : Type 0 where
  pub checked : All (λ r. row_check r ≡ true) db.rows
  pub apart : Apart db.rows
  pub issued : All (IsBelow db.next_id) db.rows

pub clashes_comm : (r s : Record) → clashes r s ≡ clashes s r
unfolding clashes
clashes_comm r s = ground arith

pub conflicts-replace_row :
    (s r : Record) (rows : List Record)
    → conflicts s rows ≡ false
    → clashes s r ≡ false
    → conflicts s (replace_row r rows) ≡ false
unfolding conflicts replace_row
conflicts-replace_row s r [] h e = refl
conflicts-replace_row s r (t ∷ rows) h e = ground (arith, conflicts-replace_row s r rows)

-- An id that a row of the table has is the id of no other.
pub replace_row_absent :
    (s r : Record) (rows : List Record)
    → conflicts s rows ≡ false
    → s.id ≡ r.id
    → (replace_row r rows ≡ rows) × (others r.id rows ≡ rows)
unfolding conflicts clashes replace_row others
replace_row_absent s r [] h e = (refl, refl)
replace_row_absent s r (t ∷ rows) h e = ground (arith, replace_row_absent s r rows)

pub Apart-replace_row :
    (r : Record) (rows : List Record)
    → conflicts r (others r.id rows) ≡ false
    → Apart rows
    → Apart (replace_row r rows)
unfolding conflicts others replace_row
Apart-replace_row r [] h a = tt
Apart-replace_row r (s ∷ rows) h (hs, a) = ground (
  arith,
  replace_row_absent s r rows hs,
  conflicts-replace_row s r rows hs,
  clashes_comm s r,
  Apart-replace_row r rows,
  a,
)

pub All-replace_row {ℓ} :
    (P : Record → Type ℓ) (r : Record) (rows : List Record)
    → P r
    → All P rows
    → All P (replace_row r rows)
unfolding replace_row
All-replace_row P r [] p h = tt
All-replace_row P r (s ∷ rows) p (hs, h) = (picked (s.id == r.id), All-replace_row P r rows p h)
  where
    picked : (b : Bool) → P (if b then r else s)
    picked true = p
    picked false = hs

pub All-others {ℓ} :
    (P : Record → Type ℓ) (id : ℤ) (rows : List Record) → All P rows → All P (others id rows)
unfolding others
All-others P id [] h = tt
All-others P id (s ∷ rows) (hs, h) = kept (s.id == id) (All-others P id rows h)
  where
    kept :
        (b : Bool)
        → All P (others id rows)
        → All P (if b then others id rows else s ∷ others id rows)
    kept true rest = rest
    kept false rest = (hs, rest)

pub conflicts-others :
    (r : Record) (id : ℤ) (rows : List Record)
    → conflicts r rows ≡ false
    → conflicts r (others id rows) ≡ false
unfolding conflicts others
conflicts-others r id [] h = refl
conflicts-others r id (s ∷ rows) h = ground (arith, conflicts-others r id rows)

pub Apart-others : (id : ℤ) (rows : List Record) → Apart rows → Apart (others id rows)
unfolding others
Apart-others id [] a = tt
Apart-others id (s ∷ rows) (hs, a) = kept (s.id == id) (Apart-others id rows a)
  where
    kept :
        (b : Bool)
        → Apart (others id rows)
        → Apart (if b then others id rows else s ∷ others id rows)
    kept true rest = rest
    kept false rest = (conflicts-others s id rows hs, rest)

pub conflicts-find_row :
    (s : Record) (id : ℤ) (rows : List Record) {r : Record}
    → conflicts s rows ≡ false
    → find_row id rows ≡ some r
    → clashes s r ≡ false
unfolding conflicts find_row
conflicts-find_row s id [] h e = cc
conflicts-find_row s id (t ∷ rows) {r} h e = ground (arith, conflicts-find_row s id rows {r = r})

-- Two rows of the table do not clash.
pub find_row-Apart :
    (i j : ℤ) (rows : List Record) {r s : Record}
    → Apart rows
    → find_row i rows ≡ some r
    → find_row j rows ≡ some s
    → i ≢ j
    → clashes r s ≡ false
unfolding find_row
find_row-Apart i j [] a e f other = cc
find_row-Apart i j (t ∷ rows) {r} {s} (h, a) e f other = elim (Bool-cases (has_id i t)) [
  | inl first ↦
      let same : t ≡ r = ground arith in
      let at : find_row j rows ≡ some s = ground arith in
      subst (λ x. clashes x s ≡ false) same (conflicts-find_row t j rows h at)
  | inr later ↦ elim (Bool-cases (has_id j t)) [
    | inl first ↦
        let same : t ≡ s = ground arith in
        let at : find_row i rows ≡ some r = ground arith in
        subst (λ x. clashes r x ≡ false) same (clashes_comm r t ∙ conflicts-find_row t i rows h at)
    | inr both ↦ find_row-Apart i j rows a (ground arith) (ground arith) other
  ]
]

-- So two rows are not linked to one record of the provider.
pub linked_once :
    (i j : ℤ) (rows : List Record) (zone provider_id : Text) {r s : Record}
    → Apart rows
    → find_row i rows ≡ some r
    → find_row j rows ≡ some s
    → i ≢ j
    → r.zone_id ≡ some zone
    → s.zone_id ≡ some zone
    → r.provider_record_id ≡ some provider_id
    → s.provider_record_id ≢ some provider_id
unfolding clashes same_provider
linked_once i j rows zone provider_id {r} {s} a e f other rz sz rp sp =
    let clear = find_row-Apart i j rows a e f other in ground arith
