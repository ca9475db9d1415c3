-- ===== src/Service/Safety.antt =====
-- What holds of the service in every state that it can reach.
use vercel_ddns.Base.{
  ℕ, ◌+◌, ◌≤◌, ◌≢◌, sym, subst, ap, inl, inr, Text, Option, none, some, [], ◌∷◌, arith, All,
  All-append, length, length-append, text_eq,
}
use vercel_ddns.Base.Outcome.{Ran, done, failed, panicked, world}
use vercel_ddns.Net.Ipv4.{Ipv4Addr}
use vercel_ddns.Net.Ipv6.{Ipv6, IsLawful}
use vercel_ddns.Storage
use vercel_ddns.Storage.{RecordInput, Record, Database, order_rows}
use vercel_ddns.Cloudflare.Client.{Client}
use vercel_ddns.Ip.{ipaddr_eq}
use vercel_ddns.Sync.World.{World}
use vercel_ddns.Sync.Reconcile.Panics.{KeepsIds}
use vercel_ddns.Sync.Run.{Surroundings, as_sync_run}
use vercel_ddns.Sync.Worker.{
  Syncer, Job, gone, capacity, send, trigger, tick, ask, admit, serve, report,
}
use vercel_ddns.Api.Handlers.{
  Handled, accepted, refused, list_records, status, create_record, update_record, delete_record,
}
use vercel_ddns.Api.Handlers.Tables.{
  IsWellFormed, IsWellFormed-IsClosed, create_record-IsWellFormed, update_record-IsWellFormed,
  delete_record-IsWellFormed,
}
use vercel_ddns.Webhook.{Codecs, Secrets}
use vercel_ddns.Webhook.Access.{sync_with-IsAddr}
use vercel_ddns.Service.{IsSane, handled, Step, Reach, here, next, init}
use vercel_ddns.Service.Addresses.{HintIsAddr, run_sync-IsWellFormed}
use vercel_ddns.Service.Moves.{send_lem, admit-cases, serve-cases, report-cases}

abbrev pub JobIsSane : Job → Type 0
JobIsSane job = HintIsAddr job.request.myip

-- The table is well formed, the channel holds no more than it may, the worker lives, and every
-- address that a request brings is one.
pub record IsSafe (C : Client) (V : Ipv6) (s : Syncer C) : Type 0 where
  pub table : IsWellFormed V s.world.db
  pub bounded : length s.queue ≤ capacity
  pub alive : s.phase ≢ gone
  pub waiting : All JobIsSane s.waiting
  pub queued : All JobIsSane s.queue

module _ (C : Client) (V : Ipv6) (L : IsLawful V) (keeps : KeepsIds C) where
  send-IsSafe : (job : Job) (s : Syncer C) → JobIsSane job → IsSafe C V s → IsSafe C V (send job s)
  send-IsSafe job s h safe = subst (IsSafe C V) (sym (send_lem s job safe.alive)) (record {
    table = safe.table;
    bounded = safe.bounded;
    alive = safe.alive;
    waiting = All-append JobIsSane s.waiting (job ∷ []) safe.waiting (h, tt);
    queued = safe.queued;
  })

  admit-IsSafe : (s : Syncer C) → IsSafe C V s → IsSafe C V (admit s)
  admit-IsSafe s safe = elim (admit-cases s) [
    | inl same ↦ subst (IsSafe C V) (sym same) safe
    | inr (job, jobs, e, room, moved) ↦
        let (h, hs) = subst (All JobIsSane) e safe.waiting in
        subst (IsSafe C V) (sym moved) (record {
          table = safe.table;
          bounded = omega (arith, length-append s.queue (job ∷ []));
          alive = safe.alive;
          waiting = hs;
          queued = All-append JobIsSane s.queue (job ∷ []) safe.queued (h, tt);
        })
  ]

  serve-IsSafe :
      (around : Surroundings) (s : Syncer C)
      → IsSane around
      → IsSafe C V s
      → IsSafe C V (serve V around s)
  serve-IsSafe around s sane safe = elim (serve-cases s V around) [
    | inl same ↦ subst (IsSafe C V) (sym same) safe
    | inr (job, rest, at, e, ends) ↦
        let (h, hs) = subst (All JobIsSane) e safe.queued in
        let (o, w, ran, kept) =
          run_sync-IsWellFormed C V L keeps job.request around s.world sane h safe.table in
        let fewer : length rest ≤ capacity = omega (arith, ap length e, safe.bounded) in
        subst (IsSafe C V) (sym (ends o w ran)) (record {
          table = kept;
          bounded = fewer;
          alive = λ x. cc;
          waiting = safe.waiting;
          queued = hs;
        })
  ]

  saved-IsWellFormed :
      (db : Database) (run : Storage.SyncRun)
      → IsWellFormed V db
      → IsWellFormed V (Storage.after (Storage.save_sync_run db run))
  unfolding Storage.save_sync_run
  saved-IsWellFormed db run h = record {
    consistent = record {
      checked = ground (arith, h.consistent.checked);
      apart = ground (arith, h.consistent.apart);
      issued = ground (arith, h.consistent.issued);
    };
    valid = ground (arith, h.valid);
  }

  report-IsSafe : (s : Syncer C) → IsSafe C V s → IsSafe C V (report s)
  report-IsSafe s safe = elim (report-cases s) [
    | inl same ↦ subst (IsSafe C V) (sym same) safe
    | inr (job, o, at, ends) ↦ subst (IsSafe C V) (sym ends) (record {
      table = saved-IsWellFormed s.world.db (as_sync_run o) safe.table;
      bounded = safe.bounded;
      alive = λ x. cc;
      waiting = safe.waiting;
      queued = safe.queued;
    })
  ]

  moved :
      (s : Syncer C) (w : World C)
      → IsWellFormed V w.db
      → IsSafe C V s
      → IsSafe C V (record s { world = w })
  moved s w h safe = record {
    table = h;
    bounded = safe.bounded;
    alive = safe.alive;
    waiting = safe.waiting;
    queued = safe.queued;
  }

  handled-IsSafe {ℓ} :
      {A : Type ℓ} (s : Syncer C) (ran : Ran (World C) (Handled A))
      → IsWellFormed V (world ran).db
      → IsSafe C V s
      → IsSafe C V (handled s ran)
  unfolding trigger
  handled-IsSafe s (done (accepted code a (some source)) w) h safe =
      send-IsSafe _ (record s { world = w }) (λ ip e. cc) (moved s w h safe)
  handled-IsSafe s (done (accepted code a none) w) h safe = moved s w h safe
  handled-IsSafe s (done (refused response) w) h safe = moved s w h safe
  handled-IsSafe s (failed e w) h safe = moved s w h safe
  handled-IsSafe s (panicked w) h safe = moved s w h safe

  module _ (B : Codecs) (secrets : Secrets) (interval : ℕ) where
    ask-IsSafe :
        (source : Text) (hint : Option Ipv4Addr) (s : Syncer C)
        → HintIsAddr hint
        → IsSafe C V s
        → IsSafe C V (ask source hint s)
    unfolding ask
    ask-IsSafe source hint s h safe =
        send-IsSafe _ (record s { next_ticket = s.next_ticket + 1 }) h
          (record {
            table = safe.table;
            bounded = safe.bounded;
            alive = safe.alive;
            waiting = safe.waiting;
            queued = safe.queued;
          })

    list_records-IsWellFormed :
        (w : World C) → IsWellFormed V w.db → IsWellFormed V (world (list_records C w)).db
    unfolding list_records
    list_records-IsWellFormed w h = ground (arith, (IsWellFormed-IsClosed V).listed w.db h)

    status-IsWellFormed :
        (w : World C) → IsWellFormed V w.db → IsWellFormed V (world (status C interval w)).db
    unfolding status Storage.latest_sync_run
    status-IsWellFormed w h = record {
      consistent = record {
        checked = ground (arith, h.consistent.checked);
        apart = ground (arith, h.consistent.apart);
        issued = ground (arith, h.consistent.issued);
      };
      valid = ground (arith, h.valid);
    }

    -- No step of the service loses the worker or the table.
    pub Step-IsSafe :
        {s t : Syncer C} → Step C V B secrets interval s t → IsSafe C V s → IsSafe C V t
    unfolding tick trigger
    Step-IsSafe {s} Step.ticks safe = send-IsSafe _ s (λ ip e. cc) safe
    Step-IsSafe {s} (Step.calls_webhook header query hint e) safe =
        ask-IsSafe _ hint s (sync_with-IsAddr B secrets header query e) safe
    Step-IsSafe {s} Step.calls_sync safe = ask-IsSafe _ none s (λ ip e. cc) safe
    Step-IsSafe {s} (Step.calls_create raw) safe =
        handled-IsSafe s (create_record C V raw s.world)
          (create_record-IsWellFormed V L C raw s.world safe.table) safe
    Step-IsSafe {s} (Step.calls_update id raw) safe =
        handled-IsSafe s (update_record C V id raw s.world)
          (update_record-IsWellFormed V L C id raw s.world safe.table) safe
    Step-IsSafe {s} (Step.calls_delete id) safe =
        handled-IsSafe s (delete_record C id s.world)
          (delete_record-IsWellFormed V L C id s.world safe.table) safe
    Step-IsSafe {s} Step.calls_list safe =
        handled-IsSafe s (list_records C s.world) (list_records-IsWellFormed s.world safe.table)
          safe
    Step-IsSafe {s} Step.calls_status safe =
        handled-IsSafe s (status C interval s.world) (status-IsWellFormed s.world safe.table) safe
    Step-IsSafe {s} Step.admits safe = admit-IsSafe s safe
    Step-IsSafe {s} (Step.serves around sane) safe = serve-IsSafe around s sane safe
    Step-IsSafe {s} Step.reports safe = report-IsSafe s safe

    init-IsSafe : (w : World C) → IsWellFormed V w.db → IsSafe C V (init C V B secrets interval w)
    init-IsSafe w h = record {
      table = h;
      bounded = omega arith;
      alive = λ x. cc;
      waiting = tt;
      queued = tt;
    }

    -- From a well-formed table on, whatever callers, provider and database do and in whatever
    -- order: the worker is never lost to a panic, its channel never holds more than 16 requests,
    -- and the table stays well formed. (The provider keeps the ID of a record that it updates.)
    pub Reach-IsSafe :
        (w : World C) {s : Syncer C}
        → IsWellFormed V w.db
        → Reach C V B secrets interval (init C V B secrets interval w) s
        → IsSafe C V s
    Reach-IsSafe w h here = init-IsSafe w h
    Reach-IsSafe w h (next r st) = Step-IsSafe st (Reach-IsSafe w h r)
