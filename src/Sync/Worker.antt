-- ===== src/Sync/Worker.antt =====
-- `Syncer` of src/sync.rs: the channel of requests, the worker that serves them, and what the
-- timer, the handlers and the webhook put into the channel. The worker holds the mutation lock
-- during `run_sync`, so that is one step; it writes the run down after it has let the lock go,
-- which is another.
use vercel_ddns.Base.{
  ℕ, ◌+◌, Text, codes, Option, none, some, List, [], ◌∷◌, ◌++◌, length, ltb, if◌then◌else◌,
}
use vercel_ddns.Base.{◌≡◌, ◌⊎◌, refl, inl, inr}
use vercel_ddns.Base.Outcome.{Reply, returned, errored, Ran, done, failed, panicked}
use vercel_ddns.Net.Ipv4.{Ipv4Addr}
use vercel_ddns.Net.Ipv6.{Ipv6}
use vercel_ddns.Storage
use vercel_ddns.Storage.{Database, DbError, SyncRun, after}
use vercel_ddns.Cloudflare.Client.{Client}
use vercel_ddns.Sync.World.{World}
use vercel_ddns.Sync.Run.{SyncOutcome, SyncRequest, Surroundings, as_sync_run, run_sync}
use vercel_ddns.Metrics.{Metrics, observe_sync}

-- A request in the channel, with the ticket of the caller that awaits its outcome, if one does.
pub record Job : Type 0 where
  pub request : SyncRequest
  pub respond : Option ℕ

-- Where the worker stands: it receives, it has an outcome to write down, or its task is over.
pub data Phase : Type 0 where
  receiving : Phase
  reporting : Job → SyncOutcome → Phase
  gone : Phase

pub Phase-cases :
    (p : Phase)
    → (p ≡ receiving) ⊎ ((job : Job) × (o : SyncOutcome) × (p ≡ reporting job o)) ⊎ (p ≡ gone)
Phase-cases receiving = inl refl
Phase-cases (reporting job o) = inr (inl (job, o, refl))
Phase-cases gone = inr (inr refl)

-- `waiting` are the senders that the full channel holds up, the first of them first; `sent_back`
-- the outcomes that the `oneshot` channels have carried, by ticket.
pub record Syncer (C : Client) : Type 0 where
  pub world : World C
  pub waiting : List Job
  pub queue : List Job
  pub phase : Phase
  pub last : Option SyncOutcome
  pub metrics : Metrics
  pub sent_back : List (ℕ × SyncOutcome)
  pub next_ticket : ℕ

abbrev pub capacity : ℕ
capacity = 16

-- The run is counted if it could be saved.
abbrev pub counted : Reply Database DbError (Unit {0}) → SyncRun → Metrics → Metrics
counted (returned _ _) run metrics = observe_sync run metrics
counted (errored _ _) run metrics = metrics

abbrev pub with_answer : Option ℕ → SyncOutcome → List (ℕ × SyncOutcome) → List (ℕ × SyncOutcome)
with_answer none o sent_back = sent_back
with_answer (some ticket) o sent_back = (ticket, o) ∷ sent_back

module _ {C : Client} where
  abbrev with_phase : Phase → Job → Syncer C → Syncer C
  with_phase gone job s = s
  with_phase _ job s = record s { waiting = s.waiting ++ (job ∷ []) }

  -- `tx.send(…)`, which fails at once if the worker has gone.
  unfoldable pub send : Job → Syncer C → Syncer C
  send job s = with_phase s.phase job s

  unfoldable pub trigger : Text → Syncer C → Syncer C
  trigger source s =
      send (record { request = record { source = source; myip = none }; respond = none }) s

  -- A tick of the timer's interval.
  unfoldable pub tick : Syncer C → Syncer C
  tick s = trigger (codes "timer") s

  -- The first half of `sync_now`: the request is sent with a new `oneshot` channel.
  unfoldable pub ask : Text → Option Ipv4Addr → Syncer C → Syncer C
  ask source myip s =
      send
        (record { request = record { source = source; myip = myip }; respond = some s.next_ticket })
        (record s { next_ticket = s.next_ticket + 1 })

  abbrev admit_one : List Job → Syncer C → Syncer C
  admit_one [] s = s
  admit_one (job ∷ jobs) s =
      if ltb (length s.queue) capacity
      then record s { waiting = jobs; queue = s.queue ++ (job ∷ []) }
      else s

  -- The channel takes the first sender that waits, if it has room.
  unfoldable pub admit : Syncer C → Syncer C
  admit s = admit_one s.waiting s

  -- What `run_sync` makes of a request: a panic ends the task and closes the channel.
  abbrev run_ended : Job → List Job → Syncer C → Ran (World C) SyncOutcome → Syncer C
  run_ended job rest s (done o w) = record s { world = w; queue = rest; phase = reporting job o }
  run_ended job rest s (failed _ w) = record s { world = w; queue = []; waiting = []; phase = gone }
  run_ended job rest s (panicked w) = record s { world = w; queue = []; waiting = []; phase = gone }

  abbrev serve_first : Ipv6 → Surroundings → Phase → List Job → Syncer C → Syncer C
  serve_first V around receiving (job ∷ rest) s =
      run_ended job rest s (run_sync C V job.request around s.world)
  serve_first V around _ _ s = s

  -- `rx.recv()` and the run under the lock.
  unfoldable pub serve : Ipv6 → Surroundings → Syncer C → Syncer C
  serve V around s = serve_first V around s.phase s.queue s

  -- The run is written down, it becomes the last one, and the caller has its answer.
  abbrev pub reported : Job → SyncOutcome → Syncer C → Syncer C
  reported job o s =
      let run = as_sync_run o in
      let saved = Storage.save_sync_run s.world.db run in
      record s {
        world = record s.world { db = after saved };
        phase = receiving;
        last = some o;
        metrics = counted saved run s.metrics;
        sent_back = with_answer job.respond o s.sent_back;
      }

  abbrev pub report_of : Phase → Syncer C → Syncer C
  report_of (reporting job o) s = reported job o s
  report_of _ s = s

  -- The rest of the loop's body.
  unfoldable pub report : Syncer C → Syncer C
  report s = report_of s.phase s
