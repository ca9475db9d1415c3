-- ===== src/Service/Order.antt =====
-- The order in which the worker of src/sync.rs answers its callers.
use vercel_ddns.Base.{
  ℕ, zero, suc, ◌+◌, ◌≡◌, ◌≢◌, ◌∙◌, refl, sym, subst, ap, inl, inr, Text, codes, Option, none, some,
  List, [], ◌∷◌, ◌++◌, append_assoc, append-nil, arith, All,
}
use vercel_ddns.Base.Outcome.{Ran, done, failed, panicked}
use vercel_ddns.Net.Ipv4.{Ipv4Addr}
use vercel_ddns.Net.Ipv6.{Ipv6, IsLawful}
use vercel_ddns.Cloudflare.Client.{Client}
use vercel_ddns.Sync.World.{World}
use vercel_ddns.Sync.Reconcile.Panics.{KeepsIds}
use vercel_ddns.Sync.Run.{Surroundings, SyncOutcome}
use vercel_ddns.Sync.Worker.{
  Syncer, Job, Phase, reporting, gone, send, trigger, tick, ask, admit, serve, report, with_answer,
}
use vercel_ddns.Api.Handlers.{
  Handled, accepted, refused, list_records, status, create_record, update_record, delete_record,
}
use vercel_ddns.Api.Handlers.Tables.{IsWellFormed}
use vercel_ddns.Webhook.{Codecs, Secrets}
use vercel_ddns.Service.{IsSane, handled, Step, Reach, here, next, init}
use vercel_ddns.Service.Addresses.{run_sync-IsWellFormed}
use vercel_ddns.Service.Moves.{send_lem, admit-cases, serve-cases, report-cases}
use vercel_ddns.Service.Safety.{IsSafe, JobIsSane, Reach-IsSafe}
use vercel_ddns.Service.Issued.{numbered, admit_numbered, report_numbered, serve_numbered}

abbrev pub ticket : Option ℕ → List ℕ
ticket none = []
ticket (some t) = t ∷ []

unfoldable pub tickets : List Job → List ℕ
tickets [] = []
tickets (job ∷ jobs) = ticket job.respond ++ tickets jobs

abbrev pub at_work : Phase → List ℕ
at_work (reporting job o) = ticket job.respond
at_work _ = []

-- The tickets answered, the oldest answer first.
unfoldable pub answered : List (ℕ × SyncOutcome) → List ℕ
answered [] = []
answered ((t, o) ∷ rest) = answered rest ++ (t ∷ [])

-- All tickets that are anywhere, by how far their requests have come.
abbrev pub line : {C : Client} → Syncer C → List ℕ
line s = answered s.sent_back ++ (at_work s.phase ++ (tickets s.queue ++ tickets s.waiting))

unfoldable pub upto : ℕ → List ℕ
upto zero = []
upto (suc n) = upto n ++ (n ∷ [])

tickets-append : (js ks : List Job) → tickets (js ++ ks) ≡ tickets js ++ tickets ks
unfolding tickets
tickets-append [] ks = refl
tickets-append (j ∷ js) ks =
    ap (λ l. ticket j.respond ++ l) (tickets-append js ks)
    ∙ sym (append_assoc (ticket j.respond) (tickets js) (tickets ks))

tickets-one : (job : Job) → tickets (job ∷ []) ≡ ticket job.respond
unfolding tickets
tickets-one job = append-nil (ticket job.respond)

tickets-first :
    (job : Job) (jobs : List Job) → tickets (job ∷ jobs) ≡ ticket job.respond ++ tickets jobs
unfolding tickets
tickets-first job jobs = refl

answered-with_answer :
    (r : Option ℕ) (o : SyncOutcome) (sent : List (ℕ × SyncOutcome))
    → answered (with_answer r o sent) ≡ answered sent ++ ticket r
unfolding answered
answered-with_answer none o sent = sym (append-nil (answered sent))
answered-with_answer (some t) o sent = refl

module _ {C : Client} where
  send-line :
      (job : Job) (s : Syncer C) → s.phase ≢ gone → line (send job s) ≡ line s ++ ticket job.respond
  send-line job s alive =
      ap line (send_lem s job alive) ∙ simp (tickets-append, tickets-one, append_assoc)

  handled-line {ℓ} :
      {A : Type ℓ} (s : Syncer C) (ran : Ran (World C) (Handled A))
      → s.phase ≢ gone
      → line (handled s ran) ≡ line s
  unfolding trigger
  handled-line s (done (accepted code a (some source)) w) alive =
      send-line _ (record s { world = w }) alive ∙ append-nil (line s)
  handled-line s (done (accepted code a none) w) alive = refl
  handled-line s (done (refused response) w) alive = refl
  handled-line s (failed e w) alive = refl
  handled-line s (panicked w) alive = refl

  ask-line :
      (source : Text) (hint : Option Ipv4Addr) (s : Syncer C)
      → s.phase ≢ gone
      → line (ask source hint s) ≡ line s ++ (s.next_ticket ∷ [])
  unfolding ask
  ask-line source hint s alive = send-line _ (record s { next_ticket = s.next_ticket + 1 }) alive

  pub admit-line : (s : Syncer C) → line (admit s) ≡ line s
  admit-line s = elim (admit-cases s) [
    | inl same ↦ ap line same
    | inr (job, jobs, e, room, moved) ↦
        let there : tickets s.waiting ≡ ticket job.respond ++ tickets jobs =
          ap tickets e ∙ tickets-first job jobs in
        ap line moved ∙ simp (tickets-append, tickets-one, append_assoc, there)
  ]

  pub report-line : (s : Syncer C) → line (report s) ≡ line s
  report-line s = elim (report-cases s) [
    | inl same ↦ ap line same
    | inr (job, o, at, ends) ↦
        let busy : at_work s.phase ≡ ticket job.respond = ap at_work at in
        ap line ends ∙ simp (answered-with_answer, append_assoc, busy)
  ]

  -- The tickets that have been issued stand in line.
  abbrev IsInLine : Syncer C → Type 0
  IsInLine s = line s ≡ upto s.next_ticket

  unmoved :
      (s t : Syncer C) → line t ≡ line s → t.next_ticket ≡ s.next_ticket → IsInLine s → IsInLine t
  unmoved s t e n h = e ∙ h ∙ ap upto (sym n)

  ask-IsInLine :
      (source : Text) (hint : Option Ipv4Addr) (s : Syncer C)
      → s.phase ≢ gone
      → IsInLine s
      → IsInLine (ask source hint s)
  unfolding ask upto
  ask-IsInLine source hint s alive h =
      let job : Job = record {
        request = record { source = source; myip = hint };
        respond = some s.next_ticket;
      } in
      let n : (ask source hint s).next_ticket ≡ s.next_ticket + 1 =
        ap (λ (x : Syncer C). x.next_ticket)
          (send_lem (record s { next_ticket = s.next_ticket + 1 }) job alive) in
      let one_more : (ask source hint s).next_ticket ≡ suc s.next_ticket = omega (arith, n) in
      ask-line source hint s alive ∙ ap (λ l. l ++ (s.next_ticket ∷ [])) h ∙ sym (ap upto one_more)

module _ (C : Client) (V : Ipv6) (L : IsLawful V) (keeps : KeepsIds C) where
  pub serve-line :
      (around : Surroundings) (s : Syncer C)
      → IsSane around
      → IsSafe C V s
      → line (serve V around s) ≡ line s
  serve-line around s sane safe = elim (serve-cases s V around) [
    | inl same ↦ ap line same
    | inr (job, rest, at, e, ends) ↦
        let (hint, _) = subst (All JobIsSane) e safe.queued in
        let (o, w, ran, _) =
          run_sync-IsWellFormed C V L keeps job.request around s.world sane hint safe.table in
        let free : at_work s.phase ≡ [] = ap at_work at in
        let there : tickets s.queue ≡ ticket job.respond ++ tickets rest =
          ap tickets e ∙ tickets-first job rest in
        ap line (ends o w ran) ∙ simp (append_assoc, free, there)
  ]

  module _ (B : Codecs) (secrets : Secrets) (interval : ℕ) where
    same_number :
        {A : Type 0} (s : Syncer C) (ran : Ran (World C) (Handled A))
        → s.phase ≢ gone
        → IsInLine s
        → IsInLine (handled s ran)
    same_number s ran alive h =
        unmoved s (handled s ran) (handled-line s ran alive) (numbered s ran alive) h

    Step-IsInLine :
        {s t : Syncer C} → Step C V B secrets interval s t → IsSafe C V s → IsInLine s → IsInLine t
    unfolding tick trigger
    Step-IsInLine {s} Step.ticks safe h =
        unmoved s (tick s) (send-line _ s safe.alive ∙ append-nil (line s))
          (ap (λ (x : Syncer C). x.next_ticket) (send_lem s _ safe.alive)) h
    Step-IsInLine {s} (Step.calls_webhook header query hint e) safe h =
        ask-IsInLine (codes "webhook") hint s safe.alive h
    Step-IsInLine {s} Step.calls_sync safe h = ask-IsInLine (codes "manual") none s safe.alive h
    Step-IsInLine {s} (Step.calls_create raw) safe h =
        same_number s (create_record C V raw s.world) safe.alive h
    Step-IsInLine {s} (Step.calls_update id raw) safe h =
        same_number s (update_record C V id raw s.world) safe.alive h
    Step-IsInLine {s} (Step.calls_delete id) safe h =
        same_number s (delete_record C id s.world) safe.alive h
    Step-IsInLine {s} Step.calls_list safe h = same_number s (list_records C s.world) safe.alive h
    Step-IsInLine {s} Step.calls_status safe h =
        same_number s (status C interval s.world) safe.alive h
    Step-IsInLine {s} Step.admits safe h = unmoved s (admit s) (admit-line s) (admit_numbered s) h
    Step-IsInLine {s} (Step.serves around sane) safe h =
        unmoved s (serve V around s) (serve-line around s sane safe)
          (serve_numbered C V L keeps around s sane safe) h
    Step-IsInLine {s} Step.reports safe h =
        unmoved s (report s) (report-line s) (report_numbered s) h

    -- Callers are answered in the order in which they asked, and each once: in every state that the
    -- service can reach from a well-formed table, the tickets that are answered, then that of the
    -- outcome to be written down, then those in the channel and those that wait for room in it are
    -- the tickets 0, 1, 2, … that have been issued, none twice and none missing. (The provider
    -- keeps the ID of a record that it updates.)
    pub Reach-line :
        (w : World C) {s : Syncer C}
        → IsWellFormed V w.db
        → Reach C V B secrets interval (init C V B secrets interval w) s
        → line s ≡ upto s.next_ticket
    unfolding answered tickets upto
    Reach-line w h here = refl
    Reach-line w h (next r st) =
        Step-IsInLine st (Reach-IsSafe C V L keeps B secrets interval w h r) (Reach-line w h r)
