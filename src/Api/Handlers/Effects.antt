-- ===== src/Api/Handlers/Effects.antt =====
-- The handlers of src/api.rs: which rows they change, and which syncs they ask for.
use vercel_ddns.Base.{
  ℕ, ◌≤◌, ◌≡◌, ◌∙◌, ◌⊎◌, refl, ap, inl, inr, codes, ◌||◌, none, some, ◌∷◌, arith, ◌!=◌, text_eq,
  Option-cases, Bool-cases,
}
use vercel_ddns.Base.Int.{ℤ, int_eq}
use vercel_ddns.Base.Outcome.{
  ok, returned, errored, Ran, done, Result-cases, Reply-cases, Ran-cases,
}
use vercel_ddns.Net.Ipv6.{Ipv6}
use vercel_ddns.Storage
use vercel_ddns.Storage.{
  Record, RecordInput, Database, DbError, new_row, edited, turn_of, find_row, replace_row,
  write_row,
}
use vercel_ddns.Cloudflare.Client.{Client}
use vercel_ddns.Sync.World.{World}
use vercel_ddns.Sync.Delete
use vercel_ddns.Sync.Delete.Order.{delete_record-failed}
use vercel_ddns.Api.Validate.{validate}
use vercel_ddns.Api.Handlers.{
  Response, invalid, not_found, immutable, Handled, accepted, refused, database_error,
  create_record, update_record, edit, delete_record,
}

-- A refusal: the response is an error and the rows are as they were.
abbrev pub Refused {ℓ} : (C : Client) {A : Type ℓ} → World C → Ran (World C) (Handled A) → Type ℓ
Refused C w ran =
    (response : Response) × (w' : World C) × (ran ≡ done (refused response) w')
    × (400 ≤ response.status)
    × (w'.db.rows ≡ w.db.rows)

module _ (C : Client) (V : Ipv6) (raw : RecordInput) (w : World C) where
  -- The row is new, holds the normal form of the input, and stands in the table.
  abbrev pub Created : Record → RecordInput → World C → Type 0
  Created row input w' =
      (create_record C V raw w ≡ done (accepted 201 row (some (codes "record-created"))) w')
      × (validate V raw ≡ ok input)
      × (row ≡ new_row w.db.next_id (turn_of w.db).now input)
      × (w'.db.rows ≡ row ∷ w.db.rows)

  -- A creation is accepted with 201 and asks for a sync if it adds one row, which holds the normal
  -- form of the input and knows no record of the provider; otherwise it is refused with an error,
  -- asks for no sync and changes no row.
  pub create_record-cases :
      ((row : Record) × (input : RecordInput) × (w' : World C) × Created row input w')
      ⊎ Refused C w (create_record C V raw w)
  unfolding create_record database_error Storage.create
  create_record-cases = elim (Result-cases (validate V raw)) [
    | inr (message, e) ↦ inr (invalid message, w, ground arith, omega arith, refl)
    | inl (input, e) ↦ elim (Reply-cases (Storage.create w.db input)) [
      | inl (row, db, made) ↦
          inl (row, input, record w { db = db }, (ground arith, e, ground arith, ground arith))
      | inr (f, db, got) ↦
          inr (database_error f, record w { db = db }, ground arith, ground arith, ground arith)
    ]
  ]

-- An update finds the row and changes it, or changes nothing.
update-cases :
    (db : Database) (id : ℤ) (v : RecordInput)
    → ((r : Record) × (db' : Database) × (find_row id db.rows ≡ some r)
        × (Storage.update db id v ≡ returned (some (edited (turn_of db).now v r)) db')
        × (db'.rows ≡ replace_row (edited (turn_of db).now v r) db.rows))
      ⊎ ((db' : Database) × (Storage.update db id v ≡ returned none db') × (db'.rows ≡ db.rows))
      ⊎ ((e : DbError) × (db' : Database) × (Storage.update db id v ≡ errored e db')
          × (db'.rows ≡ db.rows))
unfolding Storage.update write_row
update-cases db id v = elim (Reply-cases (Storage.update db id v)) [
  | inr (e, db', got) ↦ inr (inr (e, db', got, ground arith))
  | inl (none, db', got) ↦ inr (inl (db', got, ground arith))
  | inl (some row, db', got) ↦ elim (Option-cases (find_row id db.rows)) [
    | inl gone ↦ absurd (ground arith)
    | inr (r, found) ↦ inl (r, db', found, ground arith, ground arith)
  ]
]

module _ (C : Client) (V : Ipv6) (id : ℤ) (raw : RecordInput) (w : World C) where
  -- The row of that ID has got the fields of the normal form, and kept its name, type and link.
  abbrev pub Updated : Record → RecordInput → World C → Type 0
  Updated old input w' =
      (now : ℕ) × (update_record C V id raw w
        ≡ done (accepted 200 (edited now input old) (some (codes "record-updated"))) w')
      × (validate V raw ≡ ok input)
      × (find_row id w.db.rows ≡ some old)
      × (old.fqdn ≡ input.fqdn)
      × (old.record_type ≡ input.record_type)
      × (w'.db.rows ≡ replace_row (edited now input old) w.db.rows)

  -- An update is accepted with 200 and asks for a sync if it changes the fields of the row of that
  -- ID to the normal form of the input, of the same name and type; otherwise it is refused with an
  -- error, asks for no sync and changes no row.
  pub update_record-cases :
      ((old : Record) × (input : RecordInput) × (w' : World C) × Updated old input w')
      ⊎ Refused C w (update_record C V id raw w)
  unfolding update_record edit database_error Storage.get
  update_record-cases = elim (Result-cases (validate V raw)) [
    | inr (message, e) ↦ inr (invalid message, w, ground arith, omega arith, refl)
    | inl (input, e) ↦ elim (Reply-cases (Storage.get w.db id)) [
      | inr (f, db, got) ↦
          inr (database_error f, record w { db = db }, ground arith, ground arith, ground arith)
      | inl (none, db, missing) ↦
          inr (not_found, record w { db = db }, ground arith, omega arith, ground arith)
      | inl (some old, db, got) ↦
          let rows : db.rows ≡ w.db.rows = ground arith in
          let found : find_row id w.db.rows ≡ some old = ground arith in
          elim (Bool-cases (old.fqdn != input.fqdn || old.record_type != input.record_type)) [
            | inl other ↦ inr (immutable, record w { db = db }, ground arith, omega arith, rows)
            | inr fits ↦ elim (update-cases db id input) [
              | inl (r, db', at, ran, after) ↦
                  let same : r ≡ old = ground arith in
                  let now = (turn_of db).now in
                  let kept : db'.rows ≡ replace_row (edited now input old) w.db.rows =
                    after
                    ∙ ap (λ x. replace_row (edited now input x) db.rows) same
                    ∙ ap (replace_row (edited now input old)) rows in
                  let sent : Storage.update db id input
                      ≡ returned (some (edited now input old)) db' =
                    ran ∙ ap (λ x. returned (some (edited now input x)) db') same in
                  inl (
                    old,
                    input,
                    record w { db = db' },
                    (now, ground arith, e, found, ground arith, ground arith, kept),
                  )
              | inr (inl (db', ran, after)) ↦
                  inr (not_found, record w { db = db' }, ground arith, omega arith, after ∙ rows)
              | inr (inr (f, db', ran, after)) ↦ inr (
                database_error f,
                record w { db = db' },
                ground arith,
                ground arith,
                after ∙ rows,
              )
            ]
          ]
    ]
  ]

-- A deletion that is refused changes no row.
pub delete_record-refused :
    (C : Client) (id : ℤ) (w : World C) {response : Response} {w' : World C}
    → delete_record C id w ≡ done (refused response) w'
    → (response.status ≡ 409) × (w'.db.rows ≡ w.db.rows)
unfolding delete_record
delete_record-refused C id w {response} {w'} h = elim (Ran-cases (Delete.delete_record C id w)) [
  | inl (u, w₁, ran) ↦ absurd (ground arith)
  | inr (inl (e, w₁, ran)) ↦
      let kept = delete_record-failed C id w {e = e} {w' = w₁} ran in (ground arith, ground arith)
  | inr (inr (w₁, ran)) ↦ absurd (ground arith)
]
