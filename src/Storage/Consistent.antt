-- ===== src/Storage/Consistent.antt =====
-- The statements of src/storage.rs on `records`, in any sequence, against the schema's constraints.
use vercel_ddns.Base.{
  ℕ, ◌+◌, ◌≡◌, refl, subst, ◌∙◌, Text, true, false, some, List, [], ◌∷◌, arith, All, text_eq,
  option_eq, Bool-cases, Option-cases, inl, inr,
}
use vercel_ddns.Base.Int.{ℤ, pos, int_eq}
use vercel_ddns.Storage.Tables.{after, Record, RecordInput, Database, row_check, turn_of, spend}
use vercel_ddns.Storage.Records.{
  list, get, create, update, set_provider_id, clear_provider_id, delete, conflicts, others,
  replace_row, write_row, find_row, new_row, edited, with_provider, without_provider, has_id,
}
use vercel_ddns.Storage.Constraints.{
  IsBelow, IsConsistent, Apart-replace_row, All-replace_row, All-others, Apart-others,
}

pub find_row-IsBelow :
    (bound : ℕ) (id : ℤ) (rows : List Record) {r : Record}
    → All (IsBelow bound) rows
    → find_row id rows ≡ some r
    → IsBelow bound r × (r.id ≡ id)
unfolding find_row
find_row-IsBelow bound id [] h e = cc
find_row-IsBelow bound id (s ∷ rows) {r} (hs, h) e = elim (Bool-cases (has_id id s)) [
  | inl hit ↦ let same : s ≡ r = ground arith in (subst (IsBelow bound) same hs, ground arith)
  | inr miss ↦ find_row-IsBelow bound id rows {r = r} h (ground arith)
]

write_row-IsConsistent :
    (db : Database) (row : Record)
    → IsConsistent db
    → IsBelow db.next_id row
    → IsConsistent (after (write_row db row))
unfolding write_row
write_row-IsConsistent db row c fresh = elim (Bool-cases (row_check row)) [
  | inr bad ↦ ground arith
  | inl fine ↦ elim (Bool-cases (conflicts row (others row.id db.rows))) [
    | inl taken ↦ ground arith
    | inr free ↦
        let kept : IsConsistent (record db { rows = replace_row row db.rows }) = record {
          checked = All-replace_row (λ r. row_check r ≡ true) row db.rows fine c.checked;
          apart = Apart-replace_row row db.rows free c.apart;
          issued = All-replace_row (IsBelow db.next_id) row db.rows fresh c.issued;
        } in
        ground arith
  ]
]

All-issued : (n : ℕ) (rows : List Record) → All (IsBelow n) rows → All (IsBelow (n + 1)) rows
All-issued n [] h = tt
All-issued n (r ∷ rows) ((m, at, lt), h) = ((m, at, omega arith), All-issued n rows h)

module _ (db : Database) (c : IsConsistent db) where
  spend-IsConsistent : IsConsistent (spend db)
  spend-IsConsistent = record { checked = c.checked; apart = c.apart; issued = c.issued }

  rewrite-IsConsistent :
      (id : ℤ) {r : Record} (row : Record)
      → find_row id db.rows ≡ some r
      → row.id ≡ r.id
      → IsConsistent (after (write_row (spend db) row))
  rewrite-IsConsistent id {r} row found same =
      let ((n, at, lt), _) = find_row-IsBelow db.next_id id db.rows {r = r} c.issued found in
      write_row-IsConsistent (spend db) row spend-IsConsistent (n, same ∙ at, lt)

  burnt_id : IsConsistent (record db { turn = db.turn + 1; next_id = db.next_id + 1 })
  burnt_id = record {
    checked = c.checked;
    apart = c.apart;
    issued = All-issued db.next_id db.rows c.issued;
  }

  new_row-IsConsistent :
      (row : Record)
      → row.id ≡ pos db.next_id
      → row_check row ≡ true
      → conflicts row db.rows ≡ false
      → IsConsistent
          (record db { turn = db.turn + 1; next_id = db.next_id + 1; rows = row ∷ db.rows })
  new_row-IsConsistent row at fine free = record {
    checked = (fine, c.checked);
    apart = (free, c.apart);
    issued = ((db.next_id, at, omega arith), All-issued db.next_id db.rows c.issued);
  }

  pub create-IsConsistent : (v : RecordInput) → IsConsistent (after (create db v))
  unfolding create
  create-IsConsistent v =
      let row = new_row db.next_id (turn_of db).now v in
      elim (Bool-cases (row_check row)) [
        | inr bad ↦ ground (arith, spend-IsConsistent, burnt_id)
        | inl fine ↦ elim (Bool-cases (conflicts row db.rows)) [
          | inl taken ↦ ground (arith, spend-IsConsistent, burnt_id)
          | inr free ↦
              ground (arith, spend-IsConsistent, burnt_id, new_row-IsConsistent row refl fine free)
        ]
      ]

  pub update-IsConsistent : (id : ℤ) (v : RecordInput) → IsConsistent (after (update db id v))
  unfolding update
  update-IsConsistent id v = elim (Option-cases (find_row id db.rows)) [
    | inl gone ↦ ground (arith, spend-IsConsistent)
    | inr (r, found) ↦ ground (
      arith,
      spend-IsConsistent,
      rewrite-IsConsistent id (edited (turn_of db).now v r) found refl,
    )
  ]

  pub set_provider_id-IsConsistent :
      (id : ℤ) (zone provider_id : Text)
      → IsConsistent (after (set_provider_id db id zone provider_id))
  unfolding set_provider_id
  set_provider_id-IsConsistent id zone provider_id = elim (Option-cases (find_row id db.rows)) [
    | inl gone ↦ ground (arith, spend-IsConsistent)
    | inr (r, found) ↦ ground (
      arith,
      spend-IsConsistent,
      rewrite-IsConsistent id (with_provider (turn_of db).now zone provider_id r) found refl,
    )
  ]

  pub clear_provider_id-IsConsistent : (id : ℤ) → IsConsistent (after (clear_provider_id db id))
  unfolding clear_provider_id
  clear_provider_id-IsConsistent id = elim (Option-cases (find_row id db.rows)) [
    | inl gone ↦ ground (arith, spend-IsConsistent)
    | inr (r, found) ↦ ground (
      arith,
      spend-IsConsistent,
      rewrite-IsConsistent id (without_provider (turn_of db).now r) found refl,
    )
  ]

  pub delete-IsConsistent : (id : ℤ) → IsConsistent (after (delete db id))
  unfolding delete
  delete-IsConsistent id =
      let kept : IsConsistent (record (spend db) { rows = others id db.rows }) = record {
        checked = All-others (λ r. row_check r ≡ true) id db.rows c.checked;
        apart = Apart-others id db.rows c.apart;
        issued = All-others (IsBelow db.next_id) id db.rows c.issued;
      } in
      ground (arith, spend-IsConsistent)

-- The statements that src/storage.rs sends to the table.
pub data Statement : Type 0 where
  list_all : Statement
  get_one : ℤ → Statement
  insert : RecordInput → Statement
  edit : ℤ → RecordInput → Statement
  link : ℤ → Text → Text → Statement
  unlink : ℤ → Statement
  remove : ℤ → Statement

abbrev pub execute : Statement → Database → Database
execute list_all db = after (list db)
execute (get_one id) db = after (get db id)
execute (insert v) db = after (create db v)
execute (edit id v) db = after (update db id v)
execute (link id zone provider_id) db = after (set_provider_id db id zone provider_id)
execute (unlink id) db = after (clear_provider_id db id)
execute (remove id) db = after (delete db id)

abbrev pub execute_all : List Statement → Database → Database
execute_all [] db = db
execute_all (s ∷ ss) db = execute_all ss (execute s db)

pub execute-IsConsistent :
    (s : Statement) (db : Database) → IsConsistent db → IsConsistent (execute s db)
unfolding list get
execute-IsConsistent list_all db c = ground (arith, spend-IsConsistent db c)
execute-IsConsistent (get_one id) db c = ground (arith, spend-IsConsistent db c)
execute-IsConsistent (insert v) db c = create-IsConsistent db c v
execute-IsConsistent (edit id v) db c = update-IsConsistent db c id v
execute-IsConsistent (link id zone p) db c = set_provider_id-IsConsistent db c id zone p
execute-IsConsistent (unlink id) db c = clear_provider_id-IsConsistent db c id
execute-IsConsistent (remove id) db c = delete-IsConsistent db c id
