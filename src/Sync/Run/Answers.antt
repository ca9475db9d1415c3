-- ===== src/Sync/Run/Answers.antt =====
-- How `run_sync` of src/sync.rs ends.
use vercel_ddns.Base.{
  ◌≡◌, refl, sym, subst, ap, ◌∙◌, inl, inr, Text, codes, ◌&&◌, not, Option, some, List, [], ◌∷◌,
  arith, text_eq, Option-cases, All, Bool-cases,
}
use vercel_ddns.Base.Outcome.{
  Ran, done, failed, panicked, Ran-cases, Reply-cases, returned, errored,
}
use vercel_ddns.Net.Ipv6.{Ipv6}
use vercel_ddns.Storage
use vercel_ddns.Storage.{Record, Database, order_rows}
use vercel_ddns.Cloudflare.Types.{Zone}
use vercel_ddns.Cloudflare.Client.{Client}
use vercel_ddns.Sync.Matching.Sound.{IsSound}
use vercel_ddns.Sync.World
use vercel_ddns.Sync.World.{World}
use vercel_ddns.Sync.Reconcile.{Label, Listing}
use vercel_ddns.Sync.Reconcile.Panics.{NoPanic, KeepsIds, reconcile-NoPanic}
use vercel_ddns.Sync.Run.{
  SyncOutcome, SyncRequest, Surroundings, Cache, count, bump, sync_record, sync_records, sync_all,
  sync_body, run_sync, with_ipv4, start, fetch, choose_value, choose_zone, is_dynamic, is_periodic,
  then_reconcile, caught,
}
use vercel_ddns.Sync.Run.Totals.{list-eq-returned}
use vercel_ddns.Sync.Run.Writes.{In, count-ipv4}
use vercel_ddns.Sync.Run.Effects.{address, In-order_rows, All-In}

-- The row is sound with the value that a sync chooses for it, if there is one.
abbrev pub IsReady : Ipv6 → Option Text → Record → Type 0
IsReady V ipv4 r = (value : Text) → choose_value ipv4 r ≡ some value → IsSound V r value

abbrev pub IsDone {ℓ κ} : {W : Type ℓ} {A : Type κ} → Ran W A → Type (ℓ ⊔ κ)
IsDone {W} {A} ran = (a : A) × (w : W) × (ran ≡ done a w)

module _ (C : Client) (V : Ipv6) (zones : List Zone) (keeps : KeepsIds C) where
  fetch-NoPanic : (zone : Text) (cache : Cache) (w : World C) → NoPanic (fetch C V zone cache w)
  unfolding fetch
  fetch-NoPanic zone cache w = ground arith

  caught-NoPanic :
      (zone : Text) (cache : Cache) (ran : Ran (World C) (Label × Listing))
      → NoPanic ran
      → NoPanic (caught C V zone cache ran)
  caught-NoPanic zone cache (done (label, listing) w) h = tt
  caught-NoPanic zone cache (failed e w) h = tt
  caught-NoPanic zone cache (panicked w) h = h

  then_reconcile-NoPanic :
      (r : Record) (value zone : Text) (cache : Cache) (fetched : Ran (World C) (Listing × Cache))
      → IsSound V r value
      → NoPanic fetched
      → NoPanic (then_reconcile C V r zone value cache fetched)
  then_reconcile-NoPanic r value zone cache (done (listing, cache') w) sound h =
      caught-NoPanic zone cache' _ (reconcile-NoPanic C V r zone value sound keeps listing w)
  then_reconcile-NoPanic r value zone cache (failed e w) sound h = tt
  then_reconcile-NoPanic r value zone cache (panicked w) sound h = h

  sync_record-NoPanic :
      (ipv4 : Option Text) (r : Record) (cache : Cache) (w : World C)
      → IsReady V ipv4 r
      → NoPanic (sync_record C V zones ipv4 r cache w)
  unfolding sync_record
  sync_record-NoPanic ipv4 r cache w ready = elim (Option-cases (choose_value ipv4 r)) [
    | inl valueless ↦ ground arith
    | inr (value, v) ↦ elim (Option-cases (choose_zone zones r.fqdn)) [
      | inl nowhere ↦ ground arith
      | inr (zone, z) ↦ ground (
        arith,
        then_reconcile-NoPanic r value zone.id cache (fetch C V zone.id cache w) (ready value v)
            (fetch-NoPanic zone.id cache w),
      )
    ]
  ]

  -- No error of one record ends the loop either.
  sync_record-ne-failed :
      (ipv4 : Option Text) (r : Record) (cache : Cache) (w : World C) {e : Text} {w' : World C}
      → sync_record C V zones ipv4 r cache w ≡ failed e w'
      → ⊥
  unfolding sync_record
  sync_record-ne-failed ipv4 r cache w h = ground arith

  sync_records-IsDone :
      (ipv4 : Option Text) (records : List Record) (cache : Cache) (o : SyncOutcome) (w : World C)
      → o.ipv4 ≡ ipv4
      → All (IsReady V ipv4) records
      → IsDone (sync_records C V zones records cache o w)
  unfolding sync_records
  sync_records-IsDone ipv4 [] cache o w ip h = (o, w, refl)
  sync_records-IsDone ipv4 (r ∷ records) cache o w ip (h, hs) =
      elim (Ran-cases (sync_record C V zones o.ipv4 r cache w)) [
        | inl ((tried, cache'), w₁, got) ↦
            elim (Bool-cases (is_periodic o.source && not (is_dynamic r))) [
              | inl skip ↦
                  let (o', w', e) =
                    sync_records-IsDone ipv4 records cache
                      (record o { unchanged = bump o.unchanged }) w ip hs in
                  (o', w', ground arith)
              | inr act ↦
                  let (o', w', e) =
                    sync_records-IsDone ipv4 records cache' (count tried o) w₁
                      (count-ipv4 tried o ∙ ip) hs in
                  (o', w', ground arith)
            ]
        | inr (inl (f, w₁, got)) ↦ absurd (sync_record-ne-failed o.ipv4 r cache w got)
        | inr (inr (w₁, got)) ↦ absurd (
            subst NoPanic got
              (sync_record-NoPanic o.ipv4 r cache w (subst (λ i. IsReady V i r) (sym ip) h)))
      ]

module _ (C : Client) (V : Ipv6) (request : SyncRequest) (around : Surroundings)
    (keeps : KeepsIds C) (w : World C) where
  sync_all-IsDone :
      (records : List Record) (o : SyncOutcome) (w₁ : World C)
      → All (IsReady V o.ipv4) records
      → IsDone (sync_all C V records o w₁)
  unfolding sync_all
  sync_all-IsDone records o w₁ h = elim (Reply-cases (C.list_zones w₁.cloud)) [
    | inl (zones, s, got) ↦
        let (o', w', e) =
          sync_records-IsDone C V zones keeps o.ipv4 records [] o
            (record w₁ { cloud = s; calls = World.list_zones ∷ w₁.calls }) refl h in
        (o', w', ground arith)
    | inr (f, s, got) ↦ (
      record o { error = some (C.to_text f) },
      record w₁ { cloud = s; calls = World.list_zones ∷ w₁.calls },
      ground arith,
    )
  ]

  All-IsReady :
      (ipv4 : Option Text) (rows records : List Record)
      → All (λ r. In r rows) records
      → ((r : Record) → In r rows → IsReady V ipv4 r)
      → All (IsReady V ipv4) records
  All-IsReady ipv4 rows [] h f = tt
  All-IsReady ipv4 rows (r ∷ records) (h, hs) f = (f r h, All-IsReady ipv4 rows records hs f)

  listed_rows :
      (records : List Record) {db : Database}
      → Storage.list w.db ≡ returned records db
      → All (λ r. In r w.db.rows) records
  listed_rows records got =
      All-In w.db.rows records
        (λ x m. In-order_rows w.db.collate x w.db.rows (subst (In x) (list-eq-returned w.db got) m))

  sync_body-IsDone :
      (records : List Record) {db : Database}
      → Storage.list w.db ≡ returned records db
      → ((r : Record) → In r w.db.rows → IsReady V (address C V request around w) r)
      → IsDone (sync_body C V request around w)
  unfolding sync_body
  sync_body-IsDone [] {db} got f = (start C V request around, record w { db = db }, ground arith)
  sync_body-IsDone (r ∷ records) {db} got f =
      let first = with_ipv4 C V request around (r ∷ records) (start C V request around) in
      let same =
        ap (λ rs. (with_ipv4 C V request around rs (start C V request around)).ipv4)
          (list-eq-returned w.db got) in
      let ready =
        All-IsReady first.ipv4 w.db.rows (r ∷ records) (listed_rows (r ∷ records) got)
          (λ x m. subst (λ i. IsReady V i x) (sym same) (f x m)) in
      let (o, w', e) = sync_all-IsDone (r ∷ records) first (record w { db = db }) ready in
      (o, w', ground arith)

  sync_body-unlisted_IsDone :
      {f : Storage.DbError} {db : Database}
      → Storage.list w.db ≡ errored f db
      → IsDone (sync_body C V request around w)
  unfolding sync_body
  sync_body-unlisted_IsDone {db} got = (
    record (start C V request around) { error = some (codes "database read failed") },
    record w { db = db },
    ground arith,
  )

  -- If every row is sound with the value that the run chooses for it, and the provider keeps the
  -- ID of a record that it updates, a sync returns an outcome: it neither panics nor fails,
  -- whatever the database and the provider answer.
  pub run_sync-IsDone :
      ((r : Record) → In r w.db.rows → IsReady V (address C V request around w) r)
      → IsDone (run_sync C V request around w)
  unfolding run_sync
  run_sync-IsDone f = elim (Reply-cases (Storage.list w.db)) [
    | inl (records, db, got) ↦
        let (o, w', e) = sync_body-IsDone records got f in
        (record o { finished_at = around.finished }, w', ground arith)
    | inr (g, db, got) ↦
        let (o, w', e) = sync_body-unlisted_IsDone got in
        (record o { finished_at = around.finished }, w', ground arith)
  ]
