-- ===== src/Sync/Run/Placing.antt =====
-- `run_sync` of src/sync.rs on a provider that is a store: where a run with no error leaves the rows.
use vercel_ddns.Base.{
  ◌≡◌, ◌∙◌, refl, sym, ap, subst, none, List, [], ◌∷◌, arith, text_eq, option_eq, inl, inr, All,
}
use vercel_ddns.Base.Outcome.{done, Ran-cases, Reply-cases, returned}
use vercel_ddns.Net.Ipv6.{Ipv6}
use vercel_ddns.Storage
use vercel_ddns.Storage.{Record, Database, find_row, order_rows, turn_of, spend}
use vercel_ddns.Storage.Constraints.{IsConsistent}
use vercel_ddns.Cloudflare.Types.{Zone}
use vercel_ddns.Cloudflare.Client.{Client}
use vercel_ddns.Sync.World
use vercel_ddns.Sync.World.{World}
use vercel_ddns.Sync.Reconcile.Store.{IsStore}
use vercel_ddns.Sync.Run.{
  SyncOutcome, SyncRequest, Surroundings, sync_records, sync_all, sync_body, run_sync, with_ipv4,
  start, cached,
}
use vercel_ddns.Sync.Run.Totals.{list-eq-returned}
use vercel_ddns.Sync.Run.Answers.{IsReady}
use vercel_ddns.Sync.Run.Writes.{In, Allowed}
use vercel_ddns.Sync.Run.Effects.{address, with_ipv4-source, In-order_rows}
use vercel_ddns.Sync.Run.Settling.{IsInPlace, Coherent}
use vercel_ddns.Sync.Run.Settled.{sync_records-Ends}
use vercel_ddns.Sync.Run.Listed.{
  In-order_rows_of, Distinct-order_rows, HeldIn-order_rows, All-map_In,
}

-- The listing of rows changes none of them.
pub list-rows :
    (db : Database) {records : List Record} {db' : Database}
    → Storage.list db ≡ returned records db'
    → db' ≡ spend db
unfolding Storage.list
list-rows db e = ground arith

pub All-In_of :
    (P : Record → Type 0) (records : List Record)
    → All P records
    → (r : Record) → In r records
    → P r
All-In_of P [] h r m = absurd m
All-In_of P (x ∷ records) (hx, h) r (inl e) = subst P (sym e) hx
All-In_of P (x ∷ records) (hx, h) r (inr m) = All-In_of P records h r m

module _ (C : Client) (V : Ipv6) (request : SyncRequest) (around : Surroundings) (w : World C) where
  abbrev pub first : List Record → SyncOutcome
  first records = with_ipv4 C V request around records (start C V request around)

  -- Where the loop of a run starts.
  abbrev pub at_loop : Database → C.State → World C
  at_loop db s = record w { db = db; cloud = s; calls = World.list_zones ∷ w.calls }

  -- A run with no error over a table with a row went through the loop.
  record IsLooped (o : SyncOutcome) (w' : World C) : Type 0 where
    pub zones : List Zone
    pub s : C.State
    pub o₁ : SyncOutcome
    pub listed : C.list_zones w.cloud ≡ returned zones s
    pub looped :
        sync_records C V zones
          (order_rows w.db.collate w.db.rows)
          []
          (first (order_rows w.db.collate w.db.rows))
          (at_loop (spend w.db) s)
        ≡ done o₁ w'
    pub clear : o₁.error ≡ none

  run_sync-IsLooped :
      (r : Record) {o : SyncOutcome} {w' : World C}
      → In r w.db.rows
      → run_sync C V request around w ≡ done o w'
      → o.error ≡ none
      → IsLooped o w'
  unfolding run_sync sync_body sync_all
  run_sync-IsLooped r {o} {w'} m h clear = elim (Reply-cases (Storage.list w.db)) [
    | inr (f, db, got) ↦ absurd (ground arith)
    | inl ([], db, got) ↦ absurd (
        subst (In r) (sym (list-eq-returned w.db got))
          (In-order_rows_of w.db.collate r w.db.rows m))
    | inl (x ∷ records, db, got) ↦ elim (Reply-cases (C.list_zones w.cloud)) [
      | inr (f, s, ask) ↦ absurd (ground arith)
      | inl (zones, s, ask) ↦
          elim (Ran-cases
            (sync_records C V zones (x ∷ records) [] (first (x ∷ records)) (at_loop db s))) [
              | inl (o₁, w₁, ran) ↦
                  let same : w₁ ≡ w' = ground arith in
                  let rows = list-eq-returned w.db got in
                  let spent = list-rows w.db got in
                  record {
                    zones = zones;
                    s = s;
                    o₁ = o₁;
                    listed = ask;
                    looped =
                        subst
                          (λ rs.
                            sync_records C V zones rs [] (first rs) (at_loop (spend w.db) s)
                            ≡ done o₁ w')
                          rows
                          (subst
                            (λ d.
                              sync_records C V zones (x ∷ records) [] (first (x ∷ records))
                                (at_loop d s)
                              ≡ done o₁ w')
                            spent (ran ∙ ap (λ v. done o₁ v) same));
                    clear = ground arith;
                  }
              | inr (inl (f, w₁, ran)) ↦ absurd (ground arith)
              | inr (inr (w₁, ran)) ↦ absurd (ground arith)
            ]
    ]
  ]

  module _ (store : IsStore C) where
    pub none_cached : (s : C.State) → Coherent C store [] s
    unfolding cached
    none_cached s zone listing h = absurd (ground arith)

    -- After a run with no error every row that it may write for is in place: the provider holds
    -- its record, up to date with the value that the run chose, and the row is linked to it.
    pub run_sync-IsInPlace :
        IsConsistent w.db
        → ((r : Record) → In r w.db.rows → IsReady V (address C V request around w) r)
        → {o : SyncOutcome} {w' : World C} → run_sync C V request around w ≡ done o w'
        → o.error ≡ none
        → (r : Record) → In r w.db.rows
        → Allowed request.source r
        → IsInPlace C store V store.zones (address C V request around w) r w'.db.rows w'.cloud
    run_sync-IsInPlace consistent ready {o} {w'} h clear r m allowed =
        let rows = order_rows w.db.collate w.db.rows in
        let ran = run_sync-IsLooped r {o = o} {w' = w'} m h clear in
        let loop =
          subst
            (λ zs.
              sync_records C V zs rows [] (first rows) (at_loop (spend w.db) ran.s)
              ≡ done ran.o₁ w')
            (store.zoned w.cloud ran.listed) ran.looped in
        let spent : IsConsistent (spend w.db) = record {
          checked = consistent.checked;
          apart = consistent.apart;
          issued = consistent.issued;
        } in
        let ends =
          sync_records-Ends C store V store.zones request.source (address C V request around w) rows
            [] (first rows) (at_loop (spend w.db) ran.s) {o' = ran.o₁} {w' = w'}
            (with_ipv4-source C V request around w rows (start C V request around)) refl
            (All-map_In (IsReady V (address C V request around w)) rows
              (λ x at. ready x (In-order_rows w.db.collate x w.db.rows at)))
            (Distinct-order_rows w.db.collate w.db.rows consistent.apart)
            (HeldIn-order_rows w.db.collate w.db.rows consistent.apart) spent (none_cached ran.s)
            loop ran.clear in
        All-In_of
          (λ x.
            Allowed request.source x
            → IsInPlace C store V store.zones (address C V request around w) x w'.db.rows w'.cloud)
          rows ends.0 r (In-order_rows_of w.db.collate r w.db.rows m) allowed
