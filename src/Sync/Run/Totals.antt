-- ===== src/Sync/Run/Totals.antt =====
-- The counters of `run_sync` in src/sync.rs.
use vercel_ddns.Base.{
  ℕ, suc, ◌+◌, ◌^◌, ◌<◌, ◌≡◌, ◌⊎◌, refl, ap, subst, inl, inr, Text, Bool, false, List, [], ◌∷◌,
  arith, length, text_eq, nat_eq, ◌∙◌,
}
use vercel_ddns.Base.Outcome.{Result, ok, err, done, Ran-cases, Reply-cases, returned, errored}
use vercel_ddns.Net.Ipv6.{Ipv6}
use vercel_ddns.Storage
use vercel_ddns.Storage.{Record, Database, insert_row, order_rows, precedes, is_none}
use vercel_ddns.Cloudflare.Types.{Zone}
use vercel_ddns.Cloudflare.Client.{Client}
use vercel_ddns.Sync.World.{World}
use vercel_ddns.Sync.World
use vercel_ddns.Sync.Reconcile.{Label, created, updated, unchanged}
use vercel_ddns.Sync.Run.{
  SyncOutcome, SyncRequest, Surroundings, Cache, count, bump, sync_record, sync_records, sync_all,
  sync_body, run_sync, with_ipv4, start,
}

abbrev pub total : SyncOutcome → ℕ
total o = o.created + o.updated + o.unchanged + o.failed

total-count :
    (tried : Result Text Label) (o : SyncOutcome)
    → total o + 1 < 2 ^ 32
    → total (count tried o) ≡ total o + 1
total-count (ok created) o h = omega arith
total-count (ok updated) o h = omega arith
total-count (ok unchanged) o h = omega arith
total-count (err e) o h = omega arith

length-insert_row :
    (collate : Text → Text → Bool) (r : Record) (rows : List Record)
    → length (insert_row collate r rows) ≡ suc (length rows)
unfolding insert_row
length-insert_row collate r [] = refl
length-insert_row collate r (s ∷ rows) = ground (arith, length-insert_row collate r rows)

pub length-order_rows :
    (collate : Text → Text → Bool) (rows : List Record)
    → length (order_rows collate rows) ≡ length rows
unfolding order_rows
length-order_rows collate [] = refl
length-order_rows collate (r ∷ rows) =
    omega
      (arith, length-insert_row collate r (order_rows collate rows), length-order_rows collate rows)

pub list-eq-returned :
    (db : Database) {records : List Record} {db' : Database}
    → Storage.list db ≡ returned records db'
    → records ≡ order_rows db.collate db.rows
unfolding Storage.list
list-eq-returned db e = ground arith

module _ (C : Client) (V : Ipv6) (zones : List Zone) where
  total-sync_records :
      (records : List Record) (cache : Cache) (o : SyncOutcome) (w : World C) {o' : SyncOutcome}
      {w' : World C}
      → total o + length records < 2 ^ 32
      → sync_records C V zones records cache o w ≡ done o' w'
      → total o' ≡ total o + length records
  unfolding sync_records
  total-sync_records [] cache o w h e = ground arith
  total-sync_records (r ∷ records) cache o w {o'} {w'} h e =
      elim (Ran-cases (sync_record C V zones o.ipv4 r cache w)) [
        | inl ((tried, cache'), w₁, got) ↦ ground (
          arith,
          total-sync_records records cache (record o { unchanged = bump o.unchanged }) w {o' = o'}
              {w' = w'},
          total-sync_records records cache' (count tried o) w₁ {o' = o'} {w' = w'},
          total-count tried o,
        )
        | inr (inl (f, w₁, got)) ↦ ground (
          arith,
          total-sync_records records cache (record o { unchanged = bump o.unchanged }) w {o' = o'}
              {w' = w'},
        )
        | inr (inr (w₁, got)) ↦ ground (
          arith,
          total-sync_records records cache (record o { unchanged = bump o.unchanged }) w {o' = o'}
              {w' = w'},
        )
      ]

module _ (C : Client) (V : Ipv6) (request : SyncRequest) (around : Surroundings) where
  -- Every row is counted, or the run gave up before the first row and says why.
  abbrev pub Accounted : ℕ → SyncOutcome → Type 0
  Accounted rows o = (total o ≡ rows) ⊎ ((total o ≡ 0) × (is_none o.error ≡ false))

  total-with_ipv4 :
      (records : List Record) (o : SyncOutcome)
      → total (with_ipv4 C V request around records o) ≡ total o
  unfolding with_ipv4
  total-with_ipv4 records o = ground arith

  sync_all-Accounted :
      (records : List Record) (o : SyncOutcome) (w : World C) {o' : SyncOutcome} {w' : World C}
      → total o ≡ 0
      → length records < 2 ^ 32
      → sync_all C V records o w ≡ done o' w'
      → Accounted (length records) o'
  unfolding sync_all
  sync_all-Accounted records o w {o'} {w'} zero few e = elim (Reply-cases (C.list_zones w.cloud)) [
    | inl (zones, s, got) ↦ inl (
        ground (
          arith,
          total-sync_records C V zones records [] o
              (record w { cloud = s; calls = World.list_zones ∷ w.calls }) {o' = o'} {w' = w'},
        ))
    | inr (f, s, got) ↦ inr (ground arith)
  ]

  sync_body-unlisted :
      (w : World C) {o : SyncOutcome} {w' : World C} {f : Storage.DbError} {db : Database}
      → Storage.list w.db ≡ errored f db
      → sync_body C V request around w ≡ done o w'
      → (total o ≡ 0) × (is_none o.error ≡ false)
  unfolding sync_body
  sync_body-unlisted w got e = ground arith

  -- The outcome of a run whose rows are read.
  sync_body-listed :
      (records : List Record) (db : Database) (w : World C) {o : SyncOutcome} {w' : World C}
      → Storage.list w.db ≡ returned records db
      → length records < 2 ^ 32
      → sync_body C V request around w ≡ done o w'
      → Accounted (length records) o
  unfolding sync_body
  sync_body-listed [] db w got few e = inl (ground arith)
  sync_body-listed (r ∷ records) db w {o} {w'} got few e =
      let first = with_ipv4 C V request around (r ∷ records) (start C V request around) in
      sync_all-Accounted (r ∷ records) first (record w { db = db }) {o' = o} {w' = w'}
        (total-with_ipv4 (r ∷ records) (start C V request around)) few (ground arith)

  sync_body-Accounted :
      (w : World C) {o : SyncOutcome} {w' : World C}
      → length w.db.rows < 2 ^ 32
      → sync_body C V request around w ≡ done o w'
      → Accounted (length w.db.rows) o
  sync_body-Accounted w {o} {w'} few e = elim (Reply-cases (Storage.list w.db)) [
    | inl (records, db, got) ↦
        let same =
          ap length (list-eq-returned w.db got) ∙ length-order_rows w.db.collate w.db.rows in
        subst (λ n. Accounted n o) same (sync_body-listed records db w got (omega (arith, same)) e)
    | inr (f, db, got) ↦ inr (sync_body-unlisted w got e)
  ]

  -- A sync that returns an outcome has counted every row of the table exactly once, as created,
  -- updated, unchanged or failed, unless it gave up before the first row; then it has counted
  -- nothing and reports an error. (The table has fewer than 2^32 rows.)
  pub run_sync-Accounted :
      (w : World C) {o : SyncOutcome} {w' : World C}
      → length w.db.rows < 2 ^ 32
      → run_sync C V request around w ≡ done o w'
      → Accounted (length w.db.rows) o
  unfolding run_sync
  run_sync-Accounted w {o} {w'} few e = elim (Ran-cases (sync_body C V request around w)) [
    | inl (o₁, w₁, got) ↦ ground (arith, sync_body-Accounted w {o = o₁} {w' = w₁} few got)
    | inr (inl (f, w₁, got)) ↦ absurd (ground arith)
    | inr (inr (w₁, got)) ↦ absurd (ground arith)
  ]
