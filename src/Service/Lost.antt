-- ===== src/Service/Lost.antt =====
-- The service after its worker's task has ended in a panic.
use vercel_ddns.Base.{
  ℕ, ◌+◌, ◌≡◌, refl, sym, subst, inl, inr, Text, Option, none, some, List, [], ◌∷◌, arith,
}
use vercel_ddns.Base.Outcome.{Ran, done, failed, panicked}
use vercel_ddns.Net.Ipv4.{Ipv4Addr}
use vercel_ddns.Net.Ipv6.{Ipv6}
use vercel_ddns.Cloudflare.Client.{Client}
use vercel_ddns.Sync.World.{World}
use vercel_ddns.Sync.Run.{Surroundings, SyncOutcome, run_sync}
use vercel_ddns.Sync.Worker.{
  Syncer, Job, receiving, gone, send, trigger, tick, ask, admit, serve, report,
}
use vercel_ddns.Api.Handlers.{
  Handled, accepted, refused, list_records, status, create_record, update_record, delete_record,
}
use vercel_ddns.Webhook.{Codecs, Secrets}
use vercel_ddns.Service.{handled, Step, Reach, here, next}
use vercel_ddns.Service.Moves.{admit-cases}

-- The worker has gone, and these answers have been sent.
pub record IsLost {C : Client} (sent : List (ℕ × SyncOutcome)) (s : Syncer C) : Type 0 where
  pub phase : s.phase ≡ gone
  pub sent_back : s.sent_back ≡ sent

module _ {C : Client} (sent : List (ℕ × SyncOutcome)) where
  send-IsLost : (job : Job) (s : Syncer C) → IsLost sent s → IsLost sent (send job s)
  unfolding send
  send-IsLost job s h = let phase = h.phase in subst (IsLost sent) {x = s} (ground arith) h

  moved-IsLost : (s : Syncer C) (w : World C) → IsLost sent s → IsLost sent (record s { world = w })
  moved-IsLost s w h = record { phase = h.phase; sent_back = h.sent_back }

  handled-IsLost {ℓ} :
      {A : Type ℓ} (s : Syncer C) (ran : Ran (World C) (Handled A))
      → IsLost sent s
      → IsLost sent (handled s ran)
  unfolding trigger
  handled-IsLost s (done (accepted code a (some source)) w) h =
      send-IsLost _ (record s { world = w }) (moved-IsLost s w h)
  handled-IsLost s (done (accepted code a none) w) h = moved-IsLost s w h
  handled-IsLost s (done (refused response) w) h = moved-IsLost s w h
  handled-IsLost s (failed e w) h = moved-IsLost s w h
  handled-IsLost s (panicked w) h = moved-IsLost s w h

  ask-IsLost :
      (source : Text) (hint : Option Ipv4Addr) (s : Syncer C)
      → IsLost sent s
      → IsLost sent (ask source hint s)
  unfolding ask
  ask-IsLost source hint s h =
      send-IsLost _ (record s { next_ticket = s.next_ticket + 1 })
        (record { phase = h.phase; sent_back = h.sent_back })

  admit-IsLost : (s : Syncer C) → IsLost sent s → IsLost sent (admit s)
  admit-IsLost s h = elim (admit-cases s) [
    | inl same ↦ subst (IsLost sent) (sym same) h
    | inr (job, jobs, e, room, moved) ↦
        subst (IsLost sent) (sym moved) (record { phase = h.phase; sent_back = h.sent_back })
  ]

  serve-IsLost :
      (V : Ipv6) (around : Surroundings) (s : Syncer C)
      → IsLost sent s
      → IsLost sent (serve V around s)
  unfolding serve
  serve-IsLost V around s h = let phase = h.phase in subst (IsLost sent) {x = s} (ground arith) h

  report-IsLost : (s : Syncer C) → IsLost sent s → IsLost sent (report s)
  unfolding report
  report-IsLost s h = let phase = h.phase in subst (IsLost sent) {x = s} (ground arith) h

module _ (C : Client) (V : Ipv6) (B : Codecs) (secrets : Secrets) (interval : ℕ) where
  Step-IsLost :
      (sent : List (ℕ × SyncOutcome)) {s t : Syncer C}
      → Step C V B secrets interval s t
      → IsLost sent s
      → IsLost sent t
  unfolding tick trigger
  Step-IsLost sent {s} Step.ticks h = send-IsLost sent _ s h
  Step-IsLost sent {s} (Step.calls_webhook header query hint e) h = ask-IsLost sent _ hint s h
  Step-IsLost sent {s} Step.calls_sync h = ask-IsLost sent _ none s h
  Step-IsLost sent {s} (Step.calls_create raw) h =
      handled-IsLost sent s (create_record C V raw s.world) h
  Step-IsLost sent {s} (Step.calls_update id raw) h =
      handled-IsLost sent s (update_record C V id raw s.world) h
  Step-IsLost sent {s} (Step.calls_delete id) h =
      handled-IsLost sent s (delete_record C id s.world) h
  Step-IsLost sent {s} Step.calls_list h = handled-IsLost sent s (list_records C s.world) h
  Step-IsLost sent {s} Step.calls_status h = handled-IsLost sent s (status C interval s.world) h
  Step-IsLost sent {s} Step.admits h = admit-IsLost sent s h
  Step-IsLost sent {s} (Step.serves around sane) h = serve-IsLost sent V around s h
  Step-IsLost sent {s} Step.reports h = report-IsLost sent s h

  Reach-IsLost :
      (sent : List (ℕ × SyncOutcome)) {s t : Syncer C}
      → IsLost sent s
      → Reach C V B secrets interval s t
      → IsLost sent t
  Reach-IsLost sent h here = h
  Reach-IsLost sent h (next r st) = Step-IsLost sent st (Reach-IsLost sent h r)

  run_panicked :
      (s : Syncer C) (around : Surroundings) (job : Job) (rest : List Job) (w : World C)
      → s.phase ≡ receiving
      → s.queue ≡ job ∷ rest
      → run_sync C V job.request around s.world ≡ panicked w
      → IsLost s.sent_back (serve V around s)
  unfolding serve
  run_panicked s around job rest w at e ran =
      subst (IsLost s.sent_back)
        {x = record s { world = w; queue = []; waiting = []; phase = gone }} (ground arith)
        (record { phase = refl; sent_back = refl })

  -- A panic in a run is final: if the run of a request that the worker takes from the channel
  -- panics, then in whatever happens afterwards the worker is gone and no caller gets an outcome.
  pub serve-panicked :
      (s : Syncer C) (around : Surroundings) (job : Job) (rest : List Job) (w : World C)
      {t : Syncer C}
      → s.phase ≡ receiving
      → s.queue ≡ job ∷ rest
      → run_sync C V job.request around s.world ≡ panicked w
      → Reach C V B secrets interval (serve V around s) t
      → (t.phase ≡ gone) × (t.sent_back ≡ s.sent_back)
  serve-panicked s around job rest w at e ran r =
      let lost = Reach-IsLost s.sent_back (run_panicked s around job rest w at e ran) r in
      (lost.phase, lost.sent_back)
