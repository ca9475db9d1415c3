-- ===== src/Storage/Everywhere.antt =====
-- The statements of src/storage.rs on `records`, against a predicate on rows.
use vercel_ddns.Base.{
  ℕ, ◌≡◌, subst, Text, some, List, [], ◌∷◌, arith, All, text_eq, Bool-cases, Option-cases, inl, inr,
}
use vercel_ddns.Base.Int.{ℤ, int_eq}
use vercel_ddns.Storage.Tables.{Record, RecordInput, Database, turn_of, spend, after}
use vercel_ddns.Storage.Records.{
  list, get, create, update, set_provider_id, clear_provider_id, delete, write_row, find_row,
  new_row, edited, with_provider, without_provider, has_id,
}
use vercel_ddns.Storage.Constraints.{All-replace_row, All-others}

-- The predicate does not look at what the database knows of the provider's record, nor at a time.
pub record IsUnlinked (P : Record → Type 0) : Type 0 where
  pub link :
      (r : Record) (now : ℕ) (zone provider_id : Text)
      → P r
      → P (with_provider now zone provider_id r)
  pub unlink : (r : Record) (now : ℕ) → P r → P (without_provider now r)

module _ (P : Record → Type 0) where
  pub find_row-All :
      (id : ℤ) (rows : List Record) {r : Record} → All P rows → find_row id rows ≡ some r → P r
  unfolding find_row
  find_row-All id [] h e = cc
  find_row-All id (s ∷ rows) {r} (hs, h) e = elim (Bool-cases (has_id id s)) [
    | inl hit ↦ let same : s ≡ r = ground arith in subst P same hs
    | inr miss ↦ find_row-All id rows {r = r} h (ground arith)
  ]

  write_row-All :
      (db : Database) (row : Record) → P row → All P db.rows → All P (after (write_row db row)).rows
  unfolding write_row
  write_row-All db row p h = ground (arith, All-replace_row P row db.rows p h)

  module _ (db : Database) (h : All P db.rows) where
    pub list-All : All P (after (list db)).rows
    unfolding list
    list-All = ground arith

    pub get-All : (id : ℤ) → All P (after (get db id)).rows
    unfolding get
    get-All id = ground arith

    pub create-All :
        (v : RecordInput)
        → P (new_row db.next_id (turn_of db).now v)
        → All P (after (create db v)).rows
    unfolding create
    create-All v p = ground arith

    pub update-All :
        (id : ℤ) (v : RecordInput)
        → ((r : Record)
            → P r
            → r.fqdn ≡ v.fqdn
            → r.record_type ≡ v.record_type
            → P (edited (turn_of db).now v r))
        → All P (after (update db id v)).rows
    unfolding update
    update-All id v p = elim (Option-cases (find_row id db.rows)) [
      | inl gone ↦ ground arith
      | inr (r, found) ↦
          let old = find_row-All id db.rows h found in
          ground (arith, p r old, write_row-All (spend db) (edited (turn_of db).now v r))
    ]

    pub delete-All : (id : ℤ) → All P (after (delete db id)).rows
    unfolding delete
    delete-All id = ground (arith, All-others P id db.rows h)

    module _ (free : IsUnlinked P) where
      pub set_provider_id-All :
          (id : ℤ) (zone provider_id : Text)
          → All P (after (set_provider_id db id zone provider_id)).rows
      unfolding set_provider_id
      set_provider_id-All id zone provider_id = elim (Option-cases (find_row id db.rows)) [
        | inl gone ↦ ground arith
        | inr (r, found) ↦
            let now = (turn_of db).now in
            let new = free.link r now zone provider_id (find_row-All id db.rows h found) in
            ground (arith, write_row-All (spend db) (with_provider now zone provider_id r) new h)
      ]

      pub clear_provider_id-All : (id : ℤ) → All P (after (clear_provider_id db id)).rows
      unfolding clear_provider_id
      clear_provider_id-All id = elim (Option-cases (find_row id db.rows)) [
        | inl gone ↦ ground arith
        | inr (r, found) ↦
            let now = (turn_of db).now in
            let new = free.unlink r now (find_row-All id db.rows h found) in
            ground (arith, write_row-All (spend db) (without_provider now r) new h)
      ]
