-- ===== src/Service/Progress.antt =====
-- How the worker empties its channel.
use vercel_ddns.Base.{
  ℕ, zero, suc, ◌+◌, ◌*◌, ◌<◌, ◌≡◌, ◌⊎◌, ◌∙◌, refl, sym, subst, ap, inl, inr, List, [], ◌∷◌, ◌++◌,
  arith, All, length, append-nil, length-append, List-cases,
}
use vercel_ddns.Base.Outcome.{done}
use vercel_ddns.Net.Ipv6.{Ipv6, IsLawful}
use vercel_ddns.Cloudflare.Client.{Client}
use vercel_ddns.Sync.World.{World}
use vercel_ddns.Sync.Reconcile.Panics.{KeepsIds}
use vercel_ddns.Sync.Run.{Surroundings, SyncOutcome, run_sync}
use vercel_ddns.Sync.Worker.{
  Syncer, Job, Phase, Phase-cases, receiving, reporting, admit, serve, report, reported, report_of,
}
use vercel_ddns.Api.Handlers.Tables.{IsWellFormed}
use vercel_ddns.Webhook.{Codecs, Secrets}
use vercel_ddns.Service.{IsSane, Step, Reach, init}
use vercel_ddns.Service.Addresses.{run_sync-IsWellFormed}
use vercel_ddns.Service.Safety.{IsSafe, JobIsSane, Step-IsSafe, Reach-IsSafe}
use vercel_ddns.Service.Order.{
  line, at_work, tickets, answered, upto, admit-line, serve-line, report-line, Reach-line,
}

abbrev pending : Phase → ℕ
pending (reporting _ _) = 1
pending _ = 0

-- The steps that the worker has before it.
abbrev weight : {C : Client} → Syncer C → ℕ
weight s = 3 * length s.waiting + 2 * length s.queue + pending s.phase

record IsDrained {C : Client} (s : Syncer C) : Type 0 where
  waiting : s.waiting ≡ []
  queue : s.queue ≡ []
  phase : s.phase ≡ receiving

module _ {C : Client} (s : Syncer C) where
  report_lem :
      (job : Job) (o : SyncOutcome) → s.phase ≡ reporting job o → report s ≡ reported job o s
  unfolding report
  report_lem job o at = rw (at, report_of) refl

  admit_lem :
      (job : Job) (jobs : List Job)
      → s.waiting ≡ job ∷ jobs
      → s.queue ≡ []
      → admit s ≡ record s { waiting = jobs; queue = s.queue ++ (job ∷ []) }
  unfolding admit
  admit_lem job jobs e empty = ground (arith, ap length empty)

  serve_lem :
      (V : Ipv6) (around : Surroundings) (job : Job) (rest : List Job) (o : SyncOutcome)
      (w : World C)
      → s.phase ≡ receiving
      → s.queue ≡ job ∷ rest
      → run_sync C V job.request around s.world ≡ done o w
      → serve V around s ≡ record s { world = w; queue = rest; phase = reporting job o }
  unfolding serve
  serve_lem V around job rest o w at e ran = ground arith

module _ (C : Client) (V : Ipv6) (L : IsLawful V) (keeps : KeepsIds C) (B : Codecs)
    (secrets : Secrets) (interval : ℕ) where
  abbrev Steps : Syncer C → Syncer C → Type 0
  Steps = Step C V B secrets interval

  -- The surroundings that the worker meets when it serves a request in a state.
  module _ (meets : Syncer C → Surroundings) (sane : (s : Syncer C) → IsSane (meets s)) where
    -- A step that the worker takes by itself.
    pub data Work (s : Syncer C) : Syncer C → Type 0 where
      admits : Work s (admit s)
      serves : Work s (serve V (meets s) s)
      reports : Work s (report s)

    pub data Works : Syncer C → Syncer C → Type 0 where
      rests : {s : Syncer C} → Works s s
      works : {s t u : Syncer C} → Work s t → Works t u → Works s u

    as_step : {s t : Syncer C} → Work s t → Steps s t
    as_step admits = Step.admits
    as_step {s} serves = Step.serves (meets s) (sane s)
    as_step reports = Step.reports

    Work-line : {s t : Syncer C} → Work s t → IsSafe C V s → line t ≡ line s
    Work-line {s} admits safe = admit-line s
    Work-line {s} serves safe = serve-line C V L keeps (meets s) s (sane s) safe
    Work-line {s} reports safe = report-line s

    Works-line : {s u : Syncer C} → Works s u → IsSafe C V s → line u ≡ line s
    Works-line rests safe = refl
    Works-line (works st r) safe =
        Works-line r (Step-IsSafe C V L keeps B secrets interval (as_step st) safe)
        ∙ Work-line st safe

    -- The worker's next step, if it has one.
    advance :
        (s : Syncer C)
        → IsSafe C V s
        → IsDrained s ⊎ ((t : Syncer C) × Work s t × (weight t < weight s))
    advance s safe = elim (Phase-cases s.phase) [
      | inr (inr at) ↦ absurd (safe.alive at)
      | inr (inl (job, o, at)) ↦
          inr (report s, reports, omega (arith, ap weight (report_lem s job o at), ap pending at))
      | inl at ↦ elim (List-cases s.queue) [
        | inr (job, rest, e) ↦
            let (hint, _) = subst (All JobIsSane) e safe.queued in
            let (o, w, ran, _) =
              run_sync-IsWellFormed C V L keeps job.request (meets s) s.world (sane s) hint
                safe.table in
            inr (
              serve V (meets s) s,
              serves,
              omega (
                arith,
                ap weight (serve_lem s V (meets s) job rest o w at e ran),
                ap pending at,
                ap length e,
              ),
            )
        | inl empty ↦ elim (List-cases s.waiting) [
          | inl idle ↦ inl (record { waiting = idle; queue = empty; phase = at })
          | inr (job, jobs, e) ↦ inr (
            admit s,
            admits,
            omega (
              arith,
              ap weight (admit_lem s job jobs e empty),
              ap length e,
              length-append s.queue (job ∷ []),
            ),
          )
        ]
      ]
    ]

    drain :
        (n : ℕ) (s : Syncer C)
        → IsSafe C V s
        → weight s < n
        → (u : Syncer C) × Works s u × IsDrained u
    drain zero s safe lt = absurd (omega (arith, lt))
    drain (suc n) s safe lt = elim (advance s safe) [
      | inl idle ↦ (s, rests, idle)
      | inr (t, st, less) ↦
          let (u, r, idle) =
            drain n t (Step-IsSafe C V L keeps B secrets interval (as_step st) safe)
              (omega (arith, lt, less)) in
          (u, works st r, idle)
    ]

    drained-line : (s : Syncer C) → IsDrained s → line s ≡ answered s.sent_back
    unfolding tickets
    drained-line s idle =
        let busy : at_work s.phase ≡ [] = ap at_work idle.phase in
        let queue : tickets s.queue ≡ [] = ap tickets idle.queue in
        let waiting : tickets s.waiting ≡ [] = ap tickets idle.waiting in
        simp (busy, queue, waiting, append-nil)

    -- No caller is forgotten: from any state that the service can reach from a well-formed table,
    -- the worker's own steps lead to a state in which every ticket that `sync_now` has issued is
    -- answered, in the order of issue, whatever the resolvers answer to each of the runs. (The
    -- provider keeps the ID of a record that it updates.)
    pub Reach-answered :
        (w : World C) {s : Syncer C}
        → IsWellFormed V w.db
        → Reach C V B secrets interval (init C V B secrets interval w) s
        → (u : Syncer C) × Works s u × (answered u.sent_back ≡ upto s.next_ticket)
    Reach-answered w {s} h r =
        let safe = Reach-IsSafe C V L keeps B secrets interval w h r in
        let (u, more, idle) = drain (suc (weight s)) s safe (omega arith) in
        (
          u,
          more,
          sym (drained-line u idle)
              ∙ Works-line more safe
              ∙ Reach-line C V L keeps B secrets interval w h r,
        )
