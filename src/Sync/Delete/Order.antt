-- ===== src/Sync/Delete/Order.antt =====
-- `delete_record` of src/sync.rs: the row and the provider's record.
use vercel_ddns.Base.{
  ◌≡◌, ◌∙◌, refl, sym, ap, subst, Text, Bool, true, Option, none, some, List, [], ◌∷◌, arith,
  text_eq, inl, inr,
}
use vercel_ddns.Base.Int.{ℤ, int_eq}
use vercel_ddns.Base.Outcome.{Ran, done, failed, Ran-cases, Reply-cases, returned, errored, world}
use vercel_ddns.Storage
use vercel_ddns.Storage.{Record, Database, others, find_row, has_id}
use vercel_ddns.Cloudflare.Types.{DnsRecord}
use vercel_ddns.Cloudflare.Client.{Client}
use vercel_ddns.Sync.Matching.{identity_matches}
use vercel_ddns.Sync.World
use vercel_ddns.Sync.World.{World}
use vercel_ddns.Sync.Delete.{delete_record, delete_linked, delete_remote, delete_row}

others_absent : (id : ℤ) (rows : List Record) → find_row id rows ≡ none → others id rows ≡ rows
unfolding find_row others
others_absent id [] h = refl
others_absent id (r ∷ rows) h = ground (arith, others_absent id rows)

delete-rows :
    (db : Database) (id : ℤ) {b : Bool} {db' : Database}
    → Storage.delete db id ≡ returned b db'
    → (db'.rows ≡ others id db.rows) × (b ≡ Storage.found (find_row id db.rows))
unfolding Storage.delete
delete-rows db id h = ground arith

delete-errored :
    (db : Database) (id : ℤ) {e : Storage.DbError} {db' : Database}
    → Storage.delete db id ≡ errored e db'
    → db'.rows ≡ db.rows
unfolding Storage.delete
delete-errored db id h = ground arith

get-rows :
    (db : Database) (id : ℤ) {o : Option Record} {db' : Database}
    → Storage.get db id ≡ returned o db'
    → (db'.rows ≡ db.rows) × (o ≡ find_row id db.rows)
unfolding Storage.get
get-rows db id h = ground arith

get-errored :
    (db : Database) (id : ℤ) {e : Storage.DbError} {db' : Database}
    → Storage.get db id ≡ errored e db'
    → db'.rows ≡ db.rows
unfolding Storage.get
get-errored db id h = ground arith

module _ (C : Client) where
  delete_linked-rows :
      (r : Record) (zone provider_id : Option Text) (w : World C)
      → (world (delete_linked C r zone provider_id w)).db.rows ≡ w.db.rows
  unfolding delete_linked delete_remote
  delete_linked-rows r (some zone) (some provider_id) w = ground arith
  delete_linked-rows r (some _) none w = refl
  delete_linked-rows r none _ w = refl

  delete_row-failed :
      (id : ℤ) (w : World C) {e : Text} {w' : World C}
      → delete_row C id w ≡ failed e w'
      → w'.db.rows ≡ w.db.rows
  unfolding delete_row
  delete_row-failed id w {w'} h = elim (Reply-cases (Storage.delete w.db id)) [
    | inl (b, db, got) ↦
        let (rows, found) = delete-rows w.db id got in ground (arith, others_absent id w.db.rows)
    | inr (f, db, got) ↦ let rows = delete-errored w.db id got in ground arith
  ]

  -- A deletion that ends with an error has left the table's rows as they were.
  pub delete_record-failed :
      (id : ℤ) (w : World C) {e : Text} {w' : World C}
      → delete_record C id w ≡ failed e w'
      → w'.db.rows ≡ w.db.rows
  unfolding delete_record
  delete_record-failed id w {e} {w'} h = elim (Reply-cases (Storage.get w.db id)) [
    | inl (none, db, got) ↦ let (rows, same) = get-rows w.db id got in ground arith
    | inl (some r, db, got) ↦
        let (rows, same) = get-rows w.db id got in
        let w₁ : World C = record w { db = db } in
        let linked = delete_linked-rows r r.zone_id r.provider_record_id w₁ in
        elim (Ran-cases (delete_linked C r r.zone_id r.provider_record_id w₁)) [
          | inl (u, w₂, ran) ↦ ground (arith, delete_row-failed id w₂ {e = e} {w' = w'})
          | inr (inl (f, w₂, ran)) ↦ ground arith
          | inr (inr (w₂, ran)) ↦ ground arith
        ]
    | inr (f, db, got) ↦ let rows = get-errored w.db id got in ground arith
  ]

  -- The provider's record was fetched, was the row's, and has been deleted; a row without a
  -- provider's record needs no call.
  abbrev pub Removed :
      Record → Option Text → Option Text → C.State → List World.Call → List World.Call → Type 0
  Removed r (some zone) (some provider_id) cloud before calls =
      (remote : DnsRecord) × (s : C.State) × (s' : C.State) × (C.get_record cloud zone provider_id
        ≡ returned remote s)
      × (remote.id ≡ provider_id)
      × (identity_matches r remote ≡ some true)
      × (C.delete_record s zone provider_id ≡ returned tt s')
      × (calls ≡ World.delete_record zone provider_id ∷ World.get_record zone provider_id ∷ before)
  Removed r _ _ cloud before calls = calls ≡ before

  delete_remote-done :
      (r : Record) (zone provider_id : Text) (w : World C) {u : Unit {0}} {w' : World C}
      → delete_remote C r zone provider_id w ≡ done u w'
      → Removed r (some zone) (some provider_id) w.cloud w.calls w'.calls
  unfolding delete_remote
  delete_remote-done r zone provider_id w h =
      elim (Reply-cases (C.get_record w.cloud zone provider_id)) [
        | inl (remote, s, got) ↦ elim (Reply-cases (C.delete_record s zone provider_id)) [
          | inl (tt, s', gone) ↦
              (remote, s, s', got, ground arith, ground arith, gone, ground arith)
          | inr (f, s', gone) ↦ absurd (ground arith)
        ]
        | inr (f, s, got) ↦ absurd (ground arith)
      ]

  delete_linked-done :
      (r : Record) (zone provider_id : Option Text) (w : World C) {u : Unit {0}} {w' : World C}
      → delete_linked C r zone provider_id w ≡ done u w'
      → Removed r zone provider_id w.cloud w.calls w'.calls
  unfolding delete_linked
  delete_linked-done r (some zone) (some provider_id) w h =
      delete_remote-done r zone provider_id w h
  delete_linked-done r (some _) none w h = ground arith
  delete_linked-done r none _ w h = ground arith

  delete_row-done :
      (id : ℤ) (w : World C) {u : Unit {0}} {w' : World C}
      → delete_row C id w ≡ done u w'
      → (w'.db.rows ≡ others id w.db.rows) × (w'.calls ≡ w.calls)
  unfolding delete_row
  delete_row-done id w {w'} h = elim (Reply-cases (Storage.delete w.db id)) [
    | inl (b, db, got) ↦ let (rows, found) = delete-rows w.db id got in ground arith
    | inr (f, db, got) ↦ ground arith
  ]

  -- A deletion that succeeds found the row, removed the provider's record if the row knows one,
  -- and took exactly the row away.
  pub delete_record-done :
      (id : ℤ) (w : World C) {u : Unit {0}} {w' : World C}
      → delete_record C id w ≡ done u w'
      → (r : Record) × (find_row id w.db.rows ≡ some r)
        × (w'.db.rows ≡ others id w.db.rows)
        × Removed r r.zone_id r.provider_record_id w.cloud w.calls w'.calls
  unfolding delete_record
  delete_record-done id w {w'} h = elim (Reply-cases (Storage.get w.db id)) [
    | inl (none, db, got) ↦ absurd (ground arith)
    | inl (some r, db, got) ↦
        let (rows, same) = get-rows w.db id got in
        let w₁ : World C = record w { db = db } in
        let linked = delete_linked-rows r r.zone_id r.provider_record_id w₁ in
        elim (Ran-cases (delete_linked C r r.zone_id r.provider_record_id w₁)) [
          | inl (u, w₂, ran) ↦
              let kept : w₂.db.rows ≡ db.rows =
                sym (ap (λ (end : Ran (World C) (Unit {0})). (world end).db.rows) ran) ∙ linked in
              let last : delete_row C id w₂ ≡ done tt w' = ground arith in
              let (gone, calls) = delete_row-done id w₂ {w' = w'} last in
              (
                r,
                sym same,
                gone ∙ ap (others id) (kept ∙ rows),
                subst (Removed r r.zone_id r.provider_record_id w₁.cloud w₁.calls) (sym calls)
                    (delete_linked-done r r.zone_id r.provider_record_id w₁ ran),
              )
          | inr (inl (f, w₂, ran)) ↦ absurd (ground arith)
          | inr (inr (w₂, ran)) ↦ absurd (ground arith)
        ]
    | inr (f, db, got) ↦ absurd (ground arith)
  ]
