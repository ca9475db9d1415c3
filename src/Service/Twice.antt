-- ===== src/Service/Twice.antt =====
-- Two runs of `run_sync` over a well-formed table, on a provider that is a store.
use vercel_ddns.Base.{◌≡◌, none, true}
use vercel_ddns.Base.Outcome.{done}
use vercel_ddns.Net.Ipv6.{Ipv6, IsLawful}
use vercel_ddns.Storage.{Record}
use vercel_ddns.Cloudflare.Client.{Client}
use vercel_ddns.Sync.World.{World}
use vercel_ddns.Sync.Reconcile.Store.{IsStore}
use vercel_ddns.Sync.Run.{Surroundings, SyncOutcome, SyncRequest, run_sync, is_periodic}
use vercel_ddns.Sync.Run.Writes.{In, Allowed}
use vercel_ddns.Sync.Run.Effects.{address}
use vercel_ddns.Sync.Run.Answers.{IsReady}
use vercel_ddns.Sync.Run.Settling.{IsInPlace}
use vercel_ddns.Sync.Run.Placing.{run_sync-IsInPlace}
use vercel_ddns.Sync.Run.Twice.{IsIdleRun}
use vercel_ddns.Sync.Run.Fixpoint.{run_sync_twice}
use vercel_ddns.Api.Validate.Rows.{IsValidated, IsReady-IsValidated}
use vercel_ddns.Api.Handlers.Tables.{IsWellFormed}
use vercel_ddns.Service.{IsSane}
use vercel_ddns.Service.Addresses.{HintIsAddr, address-Readable, In-All}

module _ (C : Client) (store : IsStore C) (V : Ipv6) (L : IsLawful V) (request : SyncRequest)
    (around : Surroundings) (w : World C) (sane : IsSane around) (hint : HintIsAddr request.myip)
    (formed : IsWellFormed V w.db) where
  all-IsReady : (r : Record) → In r w.db.rows → IsReady V (address C V request around w) r
  all-IsReady r m =
      IsReady-IsValidated V L r (address C V request around w)
        (address-Readable C V L r request around w sane hint)
        (In-All C V L (IsValidated V) w.db.rows formed.valid r m)

  -- After a run with no error over a well-formed table, every row that the run may write for is in
  -- place: the value and the longest zone are chosen for it, and the row is linked to a record that
  -- the provider holds in that zone and that is up to date with the value. (The provider is a
  -- store, and the addresses that the run meets are addresses.)
  pub run_sync_places :
      {o : SyncOutcome} {w' : World C}
      → run_sync C V request around w ≡ done o w'
      → o.error ≡ none
      → (r : Record) → In r w.db.rows
      → Allowed request.source r
      → IsInPlace C store V store.zones (address C V request around w) r w'.db.rows w'.cloud
  run_sync_places = run_sync-IsInPlace C V request around w store formed.consistent all-IsReady

  -- The run after one with no error over a well-formed table writes nothing: it returns, creates
  -- and updates no record, makes only reads, and leaves the rows and what the provider holds. (It
  -- finds the same address, it looks at no more rows than the first one, the provider is a store,
  -- and the addresses that the first run meets are addresses.)
  pub run_sync_settles :
      {o : SyncOutcome} {w' : World C}
      → run_sync C V request around w ≡ done o w'
      → o.error ≡ none
      → (request' : SyncRequest) (around' : Surroundings)
      → (is_periodic request.source ≡ true → is_periodic request'.source ≡ true)
      → address C V request' around' w' ≡ address C V request around w
      → IsIdleRun C store V request' around' w'
  run_sync_settles = run_sync_twice C store V request around w formed.consistent all-IsReady
