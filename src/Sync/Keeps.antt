-- ===== src/Sync/Keeps.antt =====
-- What the functions of src/sync.rs keep of the database: a predicate that each statement they send
-- keeps.
use vercel_ddns.Base.{
  subst, inl, inr, Text, Option, none, some, arith, List, [], ◌∷◌, Option-cases, Bool-cases, find,
  ◌&&◌, not, option_eq, text_eq,
}
use vercel_ddns.Base.Int.{ℤ}
use vercel_ddns.Base.Outcome.{Ran, done, failed, panicked, world, Ran-cases, Reply-cases}
use vercel_ddns.Net.Ipv6.{Ipv6}
use vercel_ddns.Storage
use vercel_ddns.Storage.{Database, DbError, Record, after}
use vercel_ddns.Cloudflare.Types.{DnsRecord, Zone}
use vercel_ddns.Cloudflare.Client.{Client}
use vercel_ddns.Sync.World
use vercel_ddns.Sync.World.{World}
use vercel_ddns.Sync.Matching.{desired}
use vercel_ddns.Sync.Reconcile.{
  Label, Listing, create_new, recreate, refresh, adopt, reconcile, find_identity, has_remote_id,
}
use vercel_ddns.Sync.Delete.{delete_record, delete_linked, delete_remote, delete_row}
use vercel_ddns.Sync.Run.{
  SyncOutcome, SyncRequest, Surroundings, Cache, Tried, count, bump, sync_record, sync_records,
  sync_all, sync_body, run_sync, with_ipv4, start, fetch, choose_value, choose_zone, is_dynamic,
  is_periodic, then_reconcile, caught,
}

-- The statements on `records` that src/sync.rs sends keep the predicate.
pub record IsClosed (Inv : Database → Type 0) : Type 0 where
  pub listed : (db : Database) → Inv db → Inv (after (Storage.list db))
  pub got : (db : Database) (id : ℤ) → Inv db → Inv (after (Storage.get db id))
  pub linked :
      (db : Database) (id : ℤ) (zone provider_id : Text)
      → Inv db
      → Inv (after (Storage.set_provider_id db id zone provider_id))
  pub cleared : (db : Database) (id : ℤ) → Inv db → Inv (after (Storage.clear_provider_id db id))
  pub deleted : (db : Database) (id : ℤ) → Inv db → Inv (after (Storage.delete db id))

module _ (C : Client) (Inv : Database → Type 0) (closed : IsClosed Inv) where
  abbrev Keeps {ℓ} : {A : Type ℓ} → Ran (World C) A → Type 0
  Keeps ran = Inv (world ran).db

  module _ (V : Ipv6) (r : Record) (zone value : Text) where
    create_new-Keeps :
        (existing : Listing) (w : World C)
        → Inv w.db
        → Keeps (create_new C V r zone existing value w)
    unfolding create_new
    create_new-Keeps existing w h = elim (Option-cases (desired r value)) [
      | inl gone ↦ ground arith
      | inr (sent, made) ↦ elim (Reply-cases (C.create_record w.cloud zone sent)) [
        | inl (remote, s, e) ↦ ground (arith, closed.linked w.db r.id zone remote.id h)
        | inr (f, s, e) ↦ ground arith
      ]
    ]

    recreate-Keeps :
        (existing : Listing) (w : World C) → Inv w.db → Keeps (recreate C V r zone existing value w)
    unfolding recreate
    recreate-Keeps existing w h = elim (Reply-cases (Storage.clear_provider_id w.db r.id)) [
      | inl (u, db, e) ↦
          ground
            (arith, closed.cleared w.db r.id h, create_new-Keeps existing (record w { db = db }))
      | inr (f, db, e) ↦ ground (arith, closed.cleared w.db r.id h)
    ]

    refresh-Keeps :
        (existing : Listing) (id : Text) (current : DnsRecord) (w : World C)
        → Inv w.db
        → Keeps (refresh C V r zone existing value id current w)
    unfolding refresh
    refresh-Keeps existing id current w h = ground arith

    adopt-Keeps :
        (existing : Listing) (remote : DnsRecord) (w : World C)
        → Inv w.db
        → Keeps (adopt C V r zone existing value remote w)
    unfolding adopt
    adopt-Keeps existing remote w h = ground (arith, closed.linked w.db r.id zone remote.id h)

    pub reconcile-Keeps :
        (existing : Listing) (w : World C)
        → Inv w.db
        → Keeps (reconcile C V r zone existing value w)
    unfolding reconcile
    reconcile-Keeps existing w h = elim (Option-cases r.provider_record_id) [
      | inl e ↦ elim (Option-cases (find_identity r existing)) [
        | inl panics ↦ ground arith
        | inr (none, absent) ↦ ground (arith, create_new-Keeps existing w h)
        | inr (some remote, present) ↦ ground (arith, adopt-Keeps existing remote w h)
      ]
      | inr (id, e) ↦ elim (Option-cases (find (has_remote_id id) existing)) [
        | inl gone ↦ ground (arith, recreate-Keeps existing w h)
        | inr (current, at) ↦ ground (arith, refresh-Keeps existing id current w h)
      ]
    ]

  module _ (V : Ipv6) where
    caught-Keeps :
        (zone : Text) (cache : Cache) (ran : Ran (World C) (Label × Listing))
        → Keeps ran
        → Keeps (caught C V zone cache ran)
    caught-Keeps zone cache (done (label, listing) w) h = h
    caught-Keeps zone cache (failed e w) h = h
    caught-Keeps zone cache (panicked w) h = h

    then_reconcile-Keeps :
        (r : Record) (value zone : Text) (cache : Cache) (fetched : Ran (World C) (Listing × Cache))
        → Keeps fetched
        → Keeps (then_reconcile C V r zone value cache fetched)
    then_reconcile-Keeps r value zone cache (done (listing, cache') w) h =
        caught-Keeps zone cache' (reconcile C V r zone listing value w)
          (reconcile-Keeps V r zone value listing w h)
    then_reconcile-Keeps r value zone cache (failed e w) h = h
    then_reconcile-Keeps r value zone cache (panicked w) h = h

    fetch-Keeps :
        (zone : Text) (cache : Cache) (w : World C) → Inv w.db → Keeps (fetch C V zone cache w)
    unfolding fetch
    fetch-Keeps zone cache w h = ground arith

    pub sync_record-Keeps :
        (zones : List Zone) (ipv4 : Option Text) (r : Record) (cache : Cache) (w : World C)
        → Inv w.db
        → Keeps (sync_record C V zones ipv4 r cache w)
    unfolding sync_record
    sync_record-Keeps zones ipv4 r cache w h = elim (Option-cases (choose_value ipv4 r)) [
      | inl valueless ↦ ground arith
      | inr (value, v) ↦ elim (Option-cases (choose_zone zones r.fqdn)) [
        | inl nowhere ↦ ground arith
        | inr (zone, z) ↦ ground (
          arith,
          then_reconcile-Keeps r value zone.id cache (fetch C V zone.id cache w)
              (fetch-Keeps zone.id cache w h),
        )
      ]
    ]

    sync_records-Keeps :
        (zones : List Zone) (records : List Record) (cache : Cache) (o : SyncOutcome) (w : World C)
        → Inv w.db
        → Keeps (sync_records C V zones records cache o w)
    unfolding sync_records
    sync_records-Keeps zones [] cache o w h = h
    sync_records-Keeps zones (r ∷ records) cache o w h =
        elim (Bool-cases (is_periodic o.source && not (is_dynamic r))) [
          | inl skip ↦
              let rest =
                sync_records-Keeps zones records cache (record o { unchanged = bump o.unchanged }) w
                  h in
              ground arith
          | inr act ↦
              let first = sync_record-Keeps zones o.ipv4 r cache w h in
              elim (Ran-cases (sync_record C V zones o.ipv4 r cache w)) [
                | inl ((tried, cache'), w₁, got) ↦
                    let rest =
                      sync_records-Keeps zones records cache' (count tried o) w₁
                        (subst (λ (x : Ran (World C) (Tried C V)). Keeps x) got first) in
                    ground arith
                | inr (inl (f, w₁, got)) ↦ ground arith
                | inr (inr (w₁, got)) ↦ ground arith
              ]
        ]

    sync_all-Keeps :
        (records : List Record) (o : SyncOutcome) (w : World C)
        → Inv w.db
        → Keeps (sync_all C V records o w)
    unfolding sync_all
    sync_all-Keeps records o w h = elim (Reply-cases (C.list_zones w.cloud)) [
      | inl (zones, s, got) ↦ ground (
        arith,
        sync_records-Keeps zones records [] o
            (record w { cloud = s; calls = World.list_zones ∷ w.calls }) h,
      )
      | inr (f, s, got) ↦ ground arith
    ]

    sync_body-Keeps :
        (request : SyncRequest) (around : Surroundings) (w : World C)
        → Inv w.db
        → Keeps (sync_body C V request around w)
    unfolding sync_body
    sync_body-Keeps request around w h =
        let listed = closed.listed w.db h in
        elim (Reply-cases (Storage.list w.db)) [
          | inl ([], db, got) ↦ ground arith
          | inl (r ∷ records, db, got) ↦ ground (
            arith,
            sync_all-Keeps (r ∷ records)
                (with_ipv4 C V request around (r ∷ records) (start C V request around))
                (record w { db = db }),
          )
          | inr (f, db, got) ↦ ground arith
        ]

    -- A sync keeps of the database what every statement of src/storage.rs that it may send keeps.
    pub run_sync-Keeps :
        (request : SyncRequest) (around : Surroundings) (w : World C)
        → Inv w.db
        → Keeps (run_sync C V request around w)
    unfolding run_sync
    run_sync-Keeps request around w h = ground (arith, sync_body-Keeps request around w h)

  delete_linked-Keeps :
      (r : Record) (zone provider_id : Option Text) (w : World C)
      → Inv w.db
      → Keeps (delete_linked C r zone provider_id w)
  unfolding delete_linked delete_remote
  delete_linked-Keeps r (some zone) (some provider_id) w h = ground arith
  delete_linked-Keeps r (some zone) none w h = h
  delete_linked-Keeps r none _ w h = h

  delete_row-Keeps : (id : ℤ) (w : World C) → Inv w.db → Keeps (delete_row C id w)
  unfolding delete_row
  delete_row-Keeps id w h = ground (arith, closed.deleted w.db id h)

  -- So does a deletion.
  pub delete_record-Keeps : (id : ℤ) (w : World C) → Inv w.db → Keeps (delete_record C id w)
  unfolding delete_record
  delete_record-Keeps id w h =
      let read = closed.got w.db id h in
      elim (Reply-cases (Storage.get w.db id)) [
        | inl (none, db, got) ↦ ground arith
        | inr (f, db, got) ↦ ground arith
        | inl (some r, db, got) ↦
            let w₁ : World C = record w { db = db } in
            let kept : Inv db = ground arith in
            let linked = delete_linked-Keeps r r.zone_id r.provider_record_id w₁ kept in
            elim (Ran-cases (delete_linked C r r.zone_id r.provider_record_id w₁)) [
              | inl (u, w₂, ran) ↦ ground (
                arith,
                delete_row-Keeps id w₂
                    (subst (λ (x : Ran (World C) (Unit {0})). Keeps x) ran linked),
              )
              | inr (inl (f, w₂, ran)) ↦ ground arith
              | inr (inr (w₂, ran)) ↦ ground arith
            ]
      ]
