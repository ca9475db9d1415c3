-- ===== src/Sync/Run/Effects.antt =====
-- The calls of `run_sync` in src/sync.rs, from the loop to the whole of it.
use vercel_ddns.Base.{
  ◌≡◌, ◌⊎◌, refl, sym, subst, ap, inl, inr, Text, Bool, Option, some, List, [], ◌∷◌, arith, text_eq,
  All,
}
use vercel_ddns.Base.Outcome.{Ran, done, Reply, Reply-cases, returned, errored, world}
use vercel_ddns.Net.Ipv6.{Ipv6}
use vercel_ddns.Storage
use vercel_ddns.Storage.{Record, Database, insert_row, order_rows, precedes}
use vercel_ddns.Cloudflare.Types.{Zone, CloudflareError}
use vercel_ddns.Cloudflare.Client.{Client}
use vercel_ddns.Sync.World
use vercel_ddns.Sync.World.{World, Call}
use vercel_ddns.Sync.Run.{
  SyncOutcome, SyncRequest, Surroundings, sync_records, sync_all, sync_body, run_sync, with_ipv4,
  start,
}
use vercel_ddns.Sync.Run.Totals.{list-eq-returned}
use vercel_ddns.Sync.Run.Writes.{In, Justified, Fair-sync_records}

In-insert_row :
    (collate : Text → Text → Bool) (x r : Record) (rows : List Record)
    → In x (insert_row collate r rows)
    → (x ≡ r) ⊎ In x rows
unfolding insert_row
In-insert_row collate x r [] h = h
In-insert_row collate x r (s ∷ rows) h = ground (arith, In-insert_row collate x r rows)

pub In-order_rows :
    (collate : Text → Text → Bool) (x : Record) (rows : List Record)
    → In x (order_rows collate rows)
    → In x rows
unfolding order_rows
In-order_rows collate x [] h = h
In-order_rows collate x (r ∷ rows) h =
    elim (In-insert_row collate x r (order_rows collate rows) h) [
      | inl e ↦ inl e
      | inr more ↦ inr (In-order_rows collate x rows more)
    ]

pub All-In :
    (rows records : List Record)
    → ((x : Record) → In x records → In x rows)
    → All (λ r. In r rows) records
All-In rows [] h = tt
All-In rows (r ∷ records) h = (h r (inl refl), All-In rows records (λ x m. h x (inr m)))

-- What the provider lists, if it answers.
abbrev pub zones_of {ℓ} : {S : Type ℓ} → Reply S CloudflareError (List Zone) → List Zone
zones_of (returned zones _) = zones
zones_of (errored _ _) = []

module _ (C : Client) (V : Ipv6) (request : SyncRequest) (around : Surroundings) (w : World C) where
  -- The public address of the run.
  abbrev pub address : Option Text
  address =
      (with_ipv4 C V request around (order_rows w.db.collate w.db.rows)
        (start C V request around)).ipv4

  abbrev pub JustifiedHere : Call → Type 0
  JustifiedHere = Justified request.source address (zones_of (C.list_zones w.cloud)) w.db.rows

  pub with_ipv4-source :
      (records : List Record) (o : SyncOutcome)
      → (with_ipv4 C V request around records o).source ≡ o.source
  unfolding with_ipv4
  with_ipv4-source records o = ground arith

  sync_all-listed :
      (records : List Record) (o : SyncOutcome) (db : Database) {zones : List Zone} {s : C.State}
      → C.list_zones w.cloud ≡ returned zones s
      → sync_all C V records o (record w { db = db })
        ≡ sync_records C V zones records [] o
            (record w { db = db; cloud = s; calls = World.list_zones ∷ w.calls })
  unfolding sync_all
  sync_all-listed records o db got = ground arith

  sync_all-refused :
      (records : List Record) (o : SyncOutcome) (db : Database) {f : CloudflareError} {s : C.State}
      → C.list_zones w.cloud ≡ errored f s
      → sync_all C V records o (record w { db = db })
        ≡ done
            (record o { error = some (C.to_text f) })
            (record w { db = db; cloud = s; calls = World.list_zones ∷ w.calls })
  unfolding sync_all
  sync_all-refused records o db got = ground arith

  Fair-refused :
      (records : List Record) (o : SyncOutcome) (db : Database) {f : CloudflareError} {s : C.State}
      → C.list_zones w.cloud ≡ errored f s
      → All JustifiedHere w.calls
      → All JustifiedHere (world (sync_all C V records o (record w { db = db }))).calls
  Fair-refused records o db got h =
      subst (λ (ran : Ran (World C) SyncOutcome). All JustifiedHere (world ran).calls)
        (sym (sync_all-refused records o db got)) (tt, h)

  abbrev JustifiedBy : List Zone → Call → Type 0
  JustifiedBy zones = Justified request.source address zones w.db.rows

  Fair-sync_all :
      (records : List Record) (o : SyncOutcome) (db : Database)
      → All (λ r. In r w.db.rows) records
      → o.source ≡ request.source
      → o.ipv4 ≡ address
      → All JustifiedHere w.calls
      → All JustifiedHere (world (sync_all C V records o (record w { db = db }))).calls
  Fair-sync_all records o db listed src ip h = elim (Reply-cases (C.list_zones w.cloud)) [
    | inl (zones, s, got) ↦
        let w₁ : World C = record w { db = db; cloud = s; calls = World.list_zones ∷ w.calls } in
        let before : All (JustifiedBy zones) w.calls =
          subst (λ zs. All (JustifiedBy zs) w.calls) (ap zones_of got) h in
        let after =
          Fair-sync_records C V request.source address zones w.db.rows records [] o w₁ listed src ip
            (tt, before) in
        let there : All JustifiedHere (world (sync_records C V zones records [] o w₁)).calls =
          subst (λ zs. All (JustifiedBy zs) (world (sync_records C V zones records [] o w₁)).calls)
            (sym (ap zones_of got)) after in
        subst (λ (ran : Ran (World C) SyncOutcome). All JustifiedHere (world ran).calls)
          (sym (sync_all-listed records o db got)) there
    | inr (f, s, got) ↦ Fair-refused records o db got h
  ]

  run_sync-world :
      (world (run_sync C V request around w)).calls ≡ (world (sync_body C V request around w)).calls
  unfolding run_sync
  run_sync-world = ground arith

  sync_body-unlisted :
      {f : Storage.DbError} {db : Database}
      → Storage.list w.db ≡ errored f db
      → (world (sync_body C V request around w)).calls ≡ w.calls
  unfolding sync_body
  sync_body-unlisted got = ground arith

  sync_body-listed :
      (r : Record) (records : List Record) {db : Database}
      → Storage.list w.db ≡ returned (r ∷ records) db
      → sync_body C V request around w
        ≡ sync_all C V
            (r ∷ records)
            (with_ipv4 C V request around (r ∷ records) (start C V request around))
            (record w { db = db })
  unfolding sync_body
  sync_body-listed r records got = ground arith

  sync_body-empty :
      {db : Database}
      → Storage.list w.db ≡ returned [] db
      → (world (sync_body C V request around w)).calls ≡ w.calls
  unfolding sync_body
  sync_body-empty got = ground arith

  abbrev Ends : List Call → Type 0
  Ends = All JustifiedHere

  Fair-sync_body :
      (records : List Record) {db : Database}
      → Storage.list w.db ≡ returned records db
      → Ends w.calls
      → Ends (world (sync_body C V request around w)).calls
  Fair-sync_body [] got h = subst Ends (sym (sync_body-empty got)) h
  Fair-sync_body (r ∷ records) {db} got h =
      let first = with_ipv4 C V request around (r ∷ records) (start C V request around) in
      let same = list-eq-returned w.db got in
      let listed =
        All-In w.db.rows (r ∷ records)
          (λ x m. In-order_rows w.db.collate x w.db.rows (subst (In x) same m)) in
      subst (λ (ran : Ran (World C) SyncOutcome). Ends (world ran).calls)
        (sym (sync_body-listed r records got))
        (Fair-sync_all (r ∷ records) first db listed
          (with_ipv4-source (r ∷ records) (start C V request around))
          (ap (λ rs. (with_ipv4 C V request around rs (start C V request around)).ipv4) same) h)

  -- All that a sync adds to the calls is reads, and writes that a row of the table asks for in
  -- its own zone. A sync by the timer or the webhook writes only for dynamic rows, and no sync
  -- deletes a record.
  pub run_sync-JustifiedHere :
      All JustifiedHere w.calls → All JustifiedHere (world (run_sync C V request around w)).calls
  run_sync-JustifiedHere h =
      subst Ends (sym run_sync-world) (elim (Reply-cases (Storage.list w.db)) [
        | inl (records, db, got) ↦ Fair-sync_body records got h
        | inr (f, db, got) ↦ subst Ends (sym (sync_body-unlisted got)) h
      ])
