-- ===== src/Storage/Records.antt =====
-- The statements of src/storage.rs on the table `records`.
use vercel_ddns.Base.{
  ℕ, ◌+◌, Text, Bool, true, false, ◌&&◌, not, Option, none, some, List, [], ◌∷◌, any, find, leb,
  ◌==◌, text_eq, option_eq, if◌then◌else◌,
}
use vercel_ddns.Base.Int.{ℤ, pos, negsuc, int_eq}
use vercel_ddns.Base.Outcome.{Reply, returned, errored}
use vercel_ddns.Storage.Tables.{
  Record, RecordInput, Database, DbError, unavailable, row_not_found, unique_violation,
  check_violation, is_none, row_check, clashes, turn_of, spend,
}

-- `ORDER BY fqdn, record_type, id`
unfoldable pub int_le : ℤ → ℤ → Bool
int_le (pos a) (pos b) = leb a b
int_le (pos a) (negsuc b) = false
int_le (negsuc a) (pos b) = true
int_le (negsuc a) (negsuc b) = leb b a

unfoldable pub precedes : (Text → Text → Bool) → Record → Record → Bool
precedes collate r s =
    if r.fqdn == s.fqdn
    then (if r.record_type == s.record_type
        then int_le r.id s.id
        else collate r.record_type s.record_type)
    else collate r.fqdn s.fqdn

unfoldable pub insert_row : (Text → Text → Bool) → Record → List Record → List Record
insert_row collate r [] = r ∷ []
insert_row collate r (s ∷ rows) =
    if precedes collate r s then r ∷ s ∷ rows else s ∷ insert_row collate r rows

unfoldable pub order_rows : (Text → Text → Bool) → List Record → List Record
order_rows collate [] = []
order_rows collate (r ∷ rows) = insert_row collate r (order_rows collate rows)

unfoldable pub list : Database → Reply Database DbError (List Record)
list db =
    if (turn_of db).up
    then returned (order_rows db.collate db.rows) (spend db)
    else errored unavailable (spend db)

abbrev pub has_id : ℤ → Record → Bool
has_id id r = r.id == id

unfoldable pub find_row : ℤ → List Record → Option Record
find_row id rows = find (has_id id) rows

unfoldable pub get : Database → ℤ → Reply Database DbError (Option Record)
get db id =
    if (turn_of db).up
    then returned (find_row id db.rows) (spend db)
    else errored unavailable (spend db)

-- The row that `INSERT … RETURNING *` would make.
abbrev pub new_row : ℕ → ℕ → RecordInput → Record
new_row id now v = record {
  id = pos id;
  fqdn = v.fqdn;
  record_type = v.record_type;
  value = v.value;
  ttl = v.ttl;
  priority = v.priority;
  weight = v.weight;
  port = v.port;
  zone_id = none;
  provider_record_id = none;
  created_at = now;
  updated_at = now;
}

-- Whether a row clashes with another row of the table. A row has the table's own `id` as its key,
-- so an updated row is held against the rows of other ids.
unfoldable pub conflicts : Record → List Record → Bool
conflicts r rows = any (clashes r) rows

unfoldable pub others : ℤ → List Record → List Record
others id [] = []
others id (r ∷ rows) = let rest = others id rows in if r.id == id then rest else r ∷ rest

unfoldable pub create : Database → RecordInput → Reply Database DbError Record
create db v =
    let row = new_row db.next_id (turn_of db).now v in
    let after = record db { turn = db.turn + 1; next_id = db.next_id + 1 } in
    if not (turn_of db).up
    then errored unavailable (spend db)
    else if not (row_check row)
    then errored check_violation after
    else if conflicts row db.rows
    then errored unique_violation after
    else returned row (record after { rows = row ∷ db.rows })

-- The row takes the place of the row with its id.
unfoldable pub replace_row : Record → List Record → List Record
replace_row r [] = []
replace_row r (s ∷ rows) = (if s.id == r.id then r else s) ∷ replace_row r rows

-- An `UPDATE` of the one row with this id to `row`, once the row is found.
unfoldable pub write_row : Database → Record → Reply Database DbError Record
write_row db row =
    if not (row_check row)
    then errored check_violation db
    else if conflicts row (others row.id db.rows)
    then errored unique_violation db
    else returned row (record db { rows = replace_row row db.rows })

abbrev pub some_result : Reply Database DbError Record → Reply Database DbError (Option Record)
some_result (returned r db) = returned (some r) db
some_result (errored e db) = errored e db

abbrev pub unit_result : Reply Database DbError Record → Reply Database DbError (Unit {0})
unit_result (returned r db) = returned tt db
unit_result (errored e db) = errored e db

-- `UPDATE records SET value, ttl, priority, weight, port WHERE id AND fqdn AND record_type`
abbrev pub edited : ℕ → RecordInput → Record → Record
edited now v r = record r {
  value = v.value;
  ttl = v.ttl;
  priority = v.priority;
  weight = v.weight;
  port = v.port;
  updated_at = now;
}

unfoldable pub update : Database → ℤ → RecordInput → Reply Database DbError (Option Record)
update db id v =
    if not (turn_of db).up then errored unavailable (spend db) else elim (find_row id db.rows) [
      | none ↦ returned none (spend db)
      | some r ↦
          if r.fqdn == v.fqdn && r.record_type == v.record_type
          then some_result (write_row (spend db) (edited (turn_of db).now v r))
          else returned none (spend db)
    ]

abbrev pub with_provider : ℕ → Text → Text → Record → Record
with_provider now zone provider_id r = record r {
  zone_id = some zone;
  provider_record_id = some provider_id;
  updated_at = now;
}

unfoldable pub set_provider_id : Database → ℤ → Text → Text → Reply Database DbError (Unit {0})
set_provider_id db id zone provider_id =
    if not (turn_of db).up then errored unavailable (spend db) else elim (find_row id db.rows) [
      | none ↦ errored row_not_found (spend db)
      | some r ↦
          if is_none r.provider_record_id
          then unit_result
              (write_row (spend db) (with_provider (turn_of db).now zone provider_id r))
          else errored row_not_found (spend db)
    ]

abbrev pub without_provider : ℕ → Record → Record
without_provider now r = record r { zone_id = none; provider_record_id = none; updated_at = now }

unfoldable pub clear_provider_id : Database → ℤ → Reply Database DbError (Unit {0})
clear_provider_id db id =
    if not (turn_of db).up then errored unavailable (spend db) else elim (find_row id db.rows) [
      | none ↦ errored row_not_found (spend db)
      | some r ↦ unit_result (write_row (spend db) (without_provider (turn_of db).now r))
    ]

abbrev pub found : Option Record → Bool
found none = false
found (some _) = true

unfoldable pub delete : Database → ℤ → Reply Database DbError Bool
delete db id =
    if not (turn_of db).up
    then errored unavailable (spend db)
    else returned (found (find_row id db.rows)) (record (spend db) { rows = others id db.rows })
