-- ===== src/Sync/Reconcile/Linking.antt =====
-- `set_provider_id` and `clear_provider_id` of src/storage.rs, seen from the row.
use vercel_ddns.Base.{◌≡◌, ◌≢◌, ◌∙◌, Text, none, some, arith, text_eq, option_eq}
use vercel_ddns.Base.Int.{ℤ, int_eq}
use vercel_ddns.Base.Outcome.{returned}
use vercel_ddns.Storage.Finding.{find_row-replace_row, find_row-replace_row_ne, find_row-id}
use vercel_ddns.Storage.{
  Record, Database, find_row, write_row, set_provider_id, clear_provider_id, with_provider,
  without_provider, turn_of,
}

-- A row that is linked now holds the zone and the ID, and was not linked before.
pub set_provider_id-eq-returned :
    (db : Database) (id : ℤ) (zone provider_id : Text) {r : Record} {u : Unit {0}} {db' : Database}
    → find_row id db.rows ≡ some r
    → set_provider_id db id zone provider_id ≡ returned u db'
    → (find_row id db'.rows ≡ some (with_provider (turn_of db).now zone provider_id r))
      × (r.provider_record_id ≡ none)
unfolding set_provider_id write_row
set_provider_id-eq-returned db id zone provider_id {r} at h =
    let row = with_provider (turn_of db).now zone provider_id r in
    let kept = find_row-replace_row id row db.rows {r = r} (find_row-id id db.rows at) at in
    ground arith

pub clear_provider_id-eq-returned :
    (db : Database) (id : ℤ) {r : Record} {u : Unit {0}} {db' : Database}
    → find_row id db.rows ≡ some r
    → clear_provider_id db id ≡ returned u db'
    → find_row id db'.rows ≡ some (without_provider (turn_of db).now r)
unfolding clear_provider_id write_row
clear_provider_id-eq-returned db id {r} at h =
    let row = without_provider (turn_of db).now r in
    let kept = find_row-replace_row id row db.rows {r = r} (find_row-id id db.rows at) at in
    ground arith

-- A statement on one row leaves the others.
pub set_provider_id-find_row :
    (db : Database) (id : ℤ) (zone provider_id : Text) {r : Record} {u : Unit {0}} {db' : Database}
    → find_row id db.rows ≡ some r
    → set_provider_id db id zone provider_id ≡ returned u db'
    → (k : ℤ) → k ≢ id
    → find_row k db'.rows ≡ find_row k db.rows
unfolding set_provider_id write_row
set_provider_id-find_row db id zone provider_id {r} at h k other =
    let row = with_provider (turn_of db).now zone provider_id r in
    let named = find_row-id id db.rows at in
    let kept = find_row-replace_row_ne k row db.rows (λ e. other (e ∙ named)) in ground arith

pub clear_provider_id-find_row :
    (db : Database) (id : ℤ) {r : Record} {u : Unit {0}} {db' : Database}
    → find_row id db.rows ≡ some r
    → clear_provider_id db id ≡ returned u db'
    → (k : ℤ) → k ≢ id
    → find_row k db'.rows ≡ find_row k db.rows
unfolding clear_provider_id write_row
clear_provider_id-find_row db id {r} at h k other =
    let row = without_provider (turn_of db).now r in
    let named = find_row-id id db.rows at in
    let kept = find_row-replace_row_ne k row db.rows (λ e. other (e ∙ named)) in ground arith
