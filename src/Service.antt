-- ===== src/Service.antt =====
-- The running service: what src/main.rs wires together. Any of the handlers of src/api.rs and
-- src/webhook.rs, the timer, the channel and the worker may take the next step.
pub mod Addresses
pub mod Twice
pub mod Moves
pub mod Safety
pub mod Issued
pub mod Order
pub mod Progress
pub mod Lost
pub mod Routes
use vercel_ddns.Base.{ℕ, Text, codes, Option, none, some, List, [], ◌∷◌, ◌≡◌, All}
use vercel_ddns.Base.Int.{ℤ}
use vercel_ddns.Base.Outcome.{Ran, done, failed, panicked, world}
use vercel_ddns.Net.Ipv4
use vercel_ddns.Net.Ipv4.{Ipv4Addr}
use vercel_ddns.Net.Ipv6.{Ipv6}
use vercel_ddns.Storage.{RecordInput, Database}
use vercel_ddns.Cloudflare.Client.{Client}
use vercel_ddns.Ip.{IpAddr, v4, v6}
use vercel_ddns.Ip.Votes.{IsListing}
use vercel_ddns.Metrics.{no_runs}
use vercel_ddns.Sync.World.{World}
use vercel_ddns.Sync.Run.{Surroundings}
use vercel_ddns.Sync.Worker.{Syncer, Phase, receiving, trigger, tick, ask, admit, serve, report}
use vercel_ddns.Api.Handlers.{
  Handled, accepted, refused, list_records, status, create_record, update_record, delete_record,
}
use vercel_ddns.Webhook.{Codecs, Secrets, NicUpdateQuery, decide, sync_with}

-- The octets of an address are bytes.
abbrev pub IsIpAddr : IpAddr → Type 0
IsIpAddr (v4 ip) = Ipv4.IsAddr ip
IsIpAddr (v6 _) = Unit

-- What a run meets outside: addresses, and a map that lists its entries in some order.
pub record IsSane (around : Surroundings) : Type 0 where
  pub addresses : All IsIpAddr around.answers
  pub order : IsListing around.order

module _ {C : Client} where
  -- The world that a handler leaves, and the sync that it triggers.
  abbrev pub handled {ℓ} : {A : Type ℓ} → Syncer C → Ran (World C) (Handled A) → Syncer C
  handled s (done (accepted _ _ (some source)) w) = trigger source (record s { world = w })
  handled s (done (accepted _ _ none) w) = record s { world = w }
  handled s (done (refused _) w) = record s { world = w }
  handled s (failed _ w) = record s { world = w }
  handled s (panicked w) = record s { world = w }

module _ (C : Client) (V : Ipv6) (B : Codecs) (secrets : Secrets) (interval : ℕ) where
  -- What may happen next. The lock serialises `serve` and the three writes; each is one step.
  pub data Step (s : Syncer C) : Syncer C → Type 0 where
    ticks : Step s (tick s)
    calls_webhook :
        (header : Option Text) (query : NicUpdateQuery) (hint : Option Ipv4Addr)
        → decide B secrets header query ≡ sync_with hint
        → Step s (ask (codes "webhook") hint s)
    calls_sync : Step s (ask (codes "manual") none s)
    calls_create : (raw : RecordInput) → Step s (handled s (create_record C V raw s.world))
    calls_update :
        (id : ℤ) (raw : RecordInput) → Step s (handled s (update_record C V id raw s.world))
    calls_delete : (id : ℤ) → Step s (handled s (delete_record C id s.world))
    calls_list : Step s (handled s (list_records C s.world))
    calls_status : Step s (handled s (status C interval s.world))
    admits : Step s (admit s)
    serves : (around : Surroundings) → IsSane around → Step s (serve V around s)
    reports : Step s (report s)

  -- The state in which `main` leaves the service.
  abbrev pub init : World C → Syncer C
  init w = record {
    world = w;
    waiting = [];
    queue = [];
    phase = receiving;
    last = none;
    metrics = no_runs;
    sent_back = [];
    next_ticket = 0;
  }

  pub data Reach (s : Syncer C) : Syncer C → Type 0 where
    here : Reach s s
    next : {t u : Syncer C} → Reach s t → Step t u → Reach s u
