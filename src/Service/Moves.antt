-- ===== src/Service/Moves.antt =====
-- What the steps of src/sync.rs's channel and worker do to a state.
use vercel_ddns.Base.{
  ◌<◌, ◌≡◌, ◌≢◌, refl, inl, inr, List, [], ◌∷◌, ◌++◌, arith, length, ltb, Bool-cases, List-cases,
  ◌⊎◌, text_eq,
}
use vercel_ddns.Base.Outcome.{done}
use vercel_ddns.Net.Ipv6.{Ipv6}
use vercel_ddns.Cloudflare.Client.{Client}
use vercel_ddns.Ip.{ipaddr_eq}
use vercel_ddns.Sync.World.{World}
use vercel_ddns.Sync.Run.{Surroundings, SyncOutcome, run_sync}
use vercel_ddns.Sync.Worker.{
  Syncer, Job, Phase-cases, receiving, reporting, gone, capacity, send, admit, serve, report,
  reported, report_of,
}

-- What the steps of the channel and the worker do to a state whose worker lives.
module _ {C : Client} (s : Syncer C) where
  pub send_lem :
      (job : Job) → s.phase ≢ gone → send job s ≡ record s { waiting = s.waiting ++ (job ∷ []) }
  unfolding send
  send_lem job alive = ground arith

  pub admit-cases :
      (admit s ≡ s)
      ⊎ ((job : Job) × (jobs : List Job) × (s.waiting ≡ job ∷ jobs)
          × (length s.queue < capacity)
          × (admit s ≡ record s { waiting = jobs; queue = s.queue ++ (job ∷ []) }))
  unfolding admit
  admit-cases = elim (List-cases s.waiting) [
    | inl empty ↦ inl (ground arith)
    | inr (job, jobs, e) ↦ elim (Bool-cases (ltb (length s.queue) capacity)) [
      | inl room ↦ inr (job, jobs, e, ground arith, ground arith)
      | inr full ↦ inl (ground arith)
    ]
  ]

  pub serve-cases :
      (V : Ipv6) (around : Surroundings)
      → (serve V around s ≡ s)
        ⊎ ((job : Job) × (rest : List Job) × (s.phase ≡ receiving)
            × (s.queue ≡ job ∷ rest)
            × ((o : SyncOutcome) (w : World C)
                → run_sync C V job.request around s.world ≡ done o w
                → serve V around s ≡ record s { world = w; queue = rest; phase = reporting job o }))
  unfolding serve
  serve-cases V around = elim (Phase-cases s.phase) [
    | inl at ↦ elim (List-cases s.queue) [
      | inl empty ↦ inl (ground arith)
      | inr (job, rest, e) ↦ inr (job, rest, at, e, λ o w ran. ground arith)
    ]
    | inr (inl (job, o, at)) ↦ inl (ground arith)
    | inr (inr at) ↦ inl (ground arith)
  ]

  pub report-cases :
      (report s ≡ s)
      ⊎ ((job : Job) × (o : SyncOutcome) × (s.phase ≡ reporting job o)
          × (report s ≡ reported job o s))
  unfolding report
  report-cases = elim (Phase-cases s.phase) [
    | inl at ↦ inl (ground arith)
    | inr (inl (job, o, at)) ↦ inr (job, o, at, rw (at, report_of) refl)
    | inr (inr at) ↦ inl (ground arith)
  ]
