-- ===== src/Sync/Run/Fixpoint.antt =====
-- `run_sync` of src/sync.rs on a provider that is a store: two runs in a row.
use vercel_ddns.Base.{
  ◌≡◌, refl, sym, subst, Text, true, Option, none, some, List, arith, text_eq, option_eq,
}
use vercel_ddns.Base.Outcome.{Ran, done, world}
use vercel_ddns.Net.Ipv6.{Ipv6}
use vercel_ddns.Storage.{Record, find_row, order_rows}
use vercel_ddns.Storage.Constraints.{IsConsistent}
use vercel_ddns.Storage.Everywhere.{IsUnlinked}
use vercel_ddns.Cloudflare.Client.{Client}
use vercel_ddns.Sync.Matching.{identity_matches, content_matches, up_to_date}
use vercel_ddns.Sync.World.{World}
use vercel_ddns.Sync.Keeps.{run_sync-Keeps}
use vercel_ddns.Sync.Rows.{IsKept, IsKept-IsClosed}
use vercel_ddns.Sync.Reconcile.Convergence.{relinked}
use vercel_ddns.Sync.Reconcile.Store.{IsStore}
use vercel_ddns.Sync.Run.{
  SyncOutcome, SyncRequest, Surroundings, run_sync, choose_value, is_periodic,
}
use vercel_ddns.Sync.Run.Answers.{IsReady}
use vercel_ddns.Sync.Run.Writes.{In, Allowed}
use vercel_ddns.Sync.Run.Effects.{address, In-order_rows}
use vercel_ddns.Sync.Run.Settling.{IsInPlace}
use vercel_ddns.Sync.Run.Still.{IsStill}
use vercel_ddns.Sync.Run.Listed.{find_row-In, All-map_In}
use vercel_ddns.Sync.Run.Placing.{All-In_of, run_sync-IsInPlace}
use vercel_ddns.Sync.Run.Twice.{IsIdleRun, run_sync-IsIdleRun}

-- One of these rows has the ID, the type and the value.
abbrev Named : List Record → Record → Type 0
Named rows r' =
    (r : Record) × In r rows
    × (r.id ≡ r'.id)
    × (r.record_type ≡ r'.record_type)
    × (r.value ≡ r'.value)

Named-IsUnlinked : (rows : List Record) → IsUnlinked (Named rows)
Named-IsUnlinked rows = record { link = λ r now zone p h. h; unlink = λ r now h. h }

-- A sync adds no row and changes no type and no value.
run_sync-Named :
    (C : Client) (V : Ipv6) (request : SyncRequest) (around : Surroundings) (w : World C)
    {o : SyncOutcome} {w' : World C}
    → IsConsistent w.db
    → run_sync C V request around w ≡ done o w'
    → IsKept (Named w.db.rows) (Named-IsUnlinked w.db.rows) w'.db
run_sync-Named C V request around w consistent h =
    let rows = w.db.rows in
    let unlinked = Named-IsUnlinked rows in
    let kept =
      run_sync-Keeps C (IsKept (Named rows) unlinked) (IsKept-IsClosed (Named rows) unlinked) V
        request around w
        (record {
          consistent = consistent;
          rows = All-map_In (Named rows) rows (λ r m. (r, m, refl, refl, refl));
        }) in
    subst (λ (x : Ran (World C) SyncOutcome). IsKept (Named rows) unlinked (world x).db) h kept

-- A row in place is still: the row that the table holds for it is linked and up to date.
IsStill-IsInPlace :
    (C : Client) (store : IsStore C) (V : Ipv6) (ipv4 : Option Text) (r r' : Record)
    (rows : List Record) (s : C.State)
    → find_row r.id rows ≡ some r'
    → IsInPlace C store V store.zones ipv4 r rows s
    → IsStill C store V store.zones ipv4 r' s
unfolding choose_value identity_matches up_to_date content_matches
IsStill-IsInPlace C store V ipv4 r r' rows s at p =
    let row = relinked r (some p.zone.id) (some p.id) p.now in
    let same : row ≡ r' = ground (arith, at, p.held) in
    let still : IsStill C store V store.zones ipv4 row s = record {
      value = p.value;
      zone = p.zone;
      id = p.id;
      remote = p.remote;
      has_value = p.has_value;
      in_zone = p.in_zone;
      there = refl;
      known = refl;
      present = p.present;
      mine = p.mine;
      fresh = p.fresh;
    } in
    subst (λ x. IsStill C store V store.zones ipv4 x s) same still

-- The next run does not look at more rows.
Allowed-narrower :
    (source source' : Text) (r r' : Record)
    → (is_periodic source ≡ true → is_periodic source' ≡ true)
    → r.record_type ≡ r'.record_type
    → r.value ≡ r'.value
    → Allowed source' r'
    → Allowed source r
Allowed-narrower source source' r r' narrower same_type same_value allowed =
    ground (arith, narrower, same_type, same_value, allowed)

module _ (C : Client) (store : IsStore C) (V : Ipv6) (request : SyncRequest) (around : Surroundings)
    (w : World C) where
  -- After a run with no error, the next one writes nothing, if it finds the same address and does
  -- not look at more rows: it creates and updates no record, and leaves the rows and the provider.
  pub run_sync_twice :
      IsConsistent w.db
      → ((r : Record) → In r w.db.rows → IsReady V (address C V request around w) r)
      → {o : SyncOutcome} {w' : World C} → run_sync C V request around w ≡ done o w'
      → o.error ≡ none
      → (request' : SyncRequest) (around' : Surroundings)
      → (is_periodic request.source ≡ true → is_periodic request'.source ≡ true)
      → address C V request' around' w' ≡ address C V request around w
      → IsIdleRun C store V request' around' w'
  run_sync_twice consistent ready {o} {w'} h clear request' around' narrower same =
      let kept = run_sync-Named C V request around w {o = o} {w' = w'} consistent h in
      let ipv4 = address C V request around w in
      let still : (r' : Record)
          → In r' w'.db.rows
          → Allowed request'.source r'
          → IsStill C store V store.zones ipv4 r' w'.cloud =
        λ r' m allowed.
          let (r, among, named, same_type, same_value) =
            All-In_of (Named w.db.rows) w'.db.rows kept.rows r' m in
          let found = find_row-In w'.db.rows kept.consistent.apart r' m in
          IsStill-IsInPlace C store V ipv4 r r' w'.db.rows w'.cloud
            (subst (λ k. find_row k w'.db.rows ≡ some r') (sym named) found)
            (run_sync-IsInPlace C V request around w store consistent ready {o = o} {w' = w'} h
              clear r among
              (Allowed-narrower request.source request'.source r r' narrower same_type same_value
                allowed)) in
      let listed = order_rows w'.db.collate w'.db.rows in
      run_sync-IsIdleRun C store V request' around' w' (
        All-map_In
          (λ r'.
            Allowed request'.source r'
            → IsStill C store V store.zones (address C V request' around' w') r' w'.cloud)
          listed
          (λ r' m allowed.
            subst (λ i. IsStill C store V store.zones i r' w'.cloud) (sym same)
              (still r' (In-order_rows w'.db.collate r' w'.db.rows m) allowed)))
