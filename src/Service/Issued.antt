-- ===== src/Service/Issued.antt =====
-- The tickets that `sync_now` has issued, after a step that issues none.
use vercel_ddns.Base.{◌≡◌, ◌≢◌, refl, subst, inl, inr, none, some, arith, All, ap}
use vercel_ddns.Base.Outcome.{Ran, done, failed, panicked}
use vercel_ddns.Net.Ipv6.{Ipv6, IsLawful}
use vercel_ddns.Cloudflare.Client.{Client}
use vercel_ddns.Sync.World.{World}
use vercel_ddns.Sync.Reconcile.Panics.{KeepsIds}
use vercel_ddns.Sync.Run.{Surroundings}
use vercel_ddns.Sync.Worker.{Syncer, gone, trigger, admit, serve, report}
use vercel_ddns.Api.Handlers.{Handled, accepted, refused}
use vercel_ddns.Service.{IsSane, handled}
use vercel_ddns.Service.Addresses.{run_sync-IsWellFormed}
use vercel_ddns.Service.Moves.{send_lem, serve-cases}
use vercel_ddns.Service.Safety.{IsSafe, JobIsSane}

module _ {C : Client} where
  pub numbered :
      {A : Type 0} (s : Syncer C) (ran : Ran (World C) (Handled A))
      → s.phase ≢ gone
      → (handled s ran).next_ticket ≡ s.next_ticket
  unfolding trigger
  numbered s (done (accepted code a (some source)) w) alive =
      ap (λ (x : Syncer C). x.next_ticket) (send_lem (record s { world = w }) _ alive)
  numbered s (done (accepted code a none) w) alive = refl
  numbered s (done (refused response) w) alive = refl
  numbered s (failed e w) alive = refl
  numbered s (panicked w) alive = refl

  pub admit_numbered : (s : Syncer C) → (admit s).next_ticket ≡ s.next_ticket
  unfolding admit
  admit_numbered s = ground arith

  pub report_numbered : (s : Syncer C) → (report s).next_ticket ≡ s.next_ticket
  unfolding report
  report_numbered s = ground arith

module _ (C : Client) (V : Ipv6) (L : IsLawful V) (keeps : KeepsIds C) where
  pub serve_numbered :
      (around : Surroundings) (s : Syncer C)
      → IsSane around
      → IsSafe C V s
      → (serve V around s).next_ticket ≡ s.next_ticket
  serve_numbered around s sane safe = elim (serve-cases s V around) [
    | inl same ↦ ap (λ (x : Syncer C). x.next_ticket) same
    | inr (job, rest, at, e, ends) ↦
        let (hint, _) = subst (All JobIsSane) e safe.queued in
        let (o, w, ran, _) =
          run_sync-IsWellFormed C V L keeps job.request around s.world sane hint safe.table in
        ap (λ (x : Syncer C). x.next_ticket) (ends o w ran)
  ]
