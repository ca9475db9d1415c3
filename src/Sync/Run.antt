-- ===== src/Sync/Run.antt =====
-- `run_sync` of src/sync.rs and the outcome that it returns.
pub mod Totals
pub mod Writes
pub mod Effects
pub mod Answers
pub mod Settling
pub mod Taken
pub mod Settled
pub mod Still
pub mod Quiet
pub mod Listed
pub mod Placing
pub mod Twice
pub mod Fixpoint
use vercel_ddns.Base.{
  ℕ, ◌+◌, ◌-◌, ◌%◌, ◌^◌, Text, codes, Bool, true, false, ◌&&◌, ◌||◌, not, Option, none, some, List,
  [], ◌∷◌, ◌==◌, ◌!=◌, text_eq, nat_eq, if◌then◌else◌, any, filter, max_by_key, is_nil, ltb,
}
use vercel_ddns.Base.Int.{ℤ, pos, negsuc}
use vercel_ddns.Base.Strings.{len}
use vercel_ddns.Base.Outcome.{Result, ok, err, Ran, done, failed, panicked, Act, ◌>>=◌, pure}
use vercel_ddns.Net.Ipv4
use vercel_ddns.Net.Ipv4.{Ipv4Addr}
use vercel_ddns.Net.Ipv6.{Ipv6}
use vercel_ddns.Ip.{Votes, IpAddr, resolve_ipv4}
use vercel_ddns.Storage
use vercel_ddns.Storage.{Record, SyncRun, is_none}
use vercel_ddns.Cloudflare.Types.{Zone}
use vercel_ddns.Cloudflare.Client.{Client}
use vercel_ddns.Sync.Matching.{belongs_to}
use vercel_ddns.Sync.World
use vercel_ddns.Sync.World.{World, stored, asked}
use vercel_ddns.Sync.Reconcile.{Label, created, updated, unchanged, Listing, reconcile}

pub record SyncOutcome : Type 0 where
  pub source : Text
  pub started_at : ℕ
  pub finished_at : ℕ
  pub ipv4 : Option Text
  pub created : ℕ
  pub updated : ℕ
  pub unchanged : ℕ
  pub failed : ℕ
  pub error : Option Text

-- `n as i32`
unfoldable pub as_i32 : ℕ → ℤ
as_i32 n = let m = n % 2 ^ 32 in if ltb m (2 ^ 31) then pos m else negsuc (2 ^ 32 - 1 - m)

unfoldable pub as_sync_run : SyncOutcome → SyncRun
as_sync_run o = record {
  source = o.source;
  started_at = o.started_at;
  finished_at = o.finished_at;
  ipv4 = o.ipv4;
  created = as_i32 o.created;
  updated = as_i32 o.updated;
  unchanged = as_i32 o.unchanged;
  failed = as_i32 o.failed;
  error = o.error;
}

unfoldable pub is_changed : SyncOutcome → Bool
is_changed o = ltb 0 ((o.created + o.updated) % 2 ^ 32)

unfoldable pub is_ok : SyncOutcome → Bool
is_ok o = o.failed == 0 && is_none o.error

pub record SyncRequest : Type 0 where
  pub source : Text
  pub myip : Option Ipv4Addr

-- What a run meets outside the world: the clock at its start and its end, what the resolvers
-- answer if they are asked, and the order in which the votes are listed.
pub record Surroundings : Type 0 where
  pub started : ℕ
  pub finished : ℕ
  pub answers : List IpAddr
  pub order : Votes → Votes

-- An address record with no fixed value.
abbrev pub is_dynamic : Record → Bool
is_dynamic r = r.record_type == codes "A" && is_none r.value

abbrev pub is_periodic : Text → Bool
is_periodic source = source == codes "timer" || source == codes "webhook"

abbrev pub or_ipv4 : Bool → Option Text → Option Text
or_ipv4 true ipv4 = ipv4
or_ipv4 false ipv4 = none

-- `record.value.or(if A { ipv4 } else { None })`
unfoldable pub choose_value : Option Text → Record → Option Text
choose_value ipv4 r = elim r.value [
  | some value ↦ some value
  | none ↦ or_ipv4 (r.record_type == codes "A") ipv4
]

abbrev name_len : Zone → ℕ
name_len z = len z.name

-- The longest of the zones that the name belongs to.
unfoldable pub choose_zone : List Zone → Text → Option Zone
choose_zone zones fqdn = max_by_key name_len (filter (λ z. belongs_to fqdn z.name) zones)

-- The listings fetched so far, by zone ID.
abbrev pub Cache : Type 0
Cache = List (Text × Listing)

unfoldable pub cached : Text → Cache → Option Listing
cached zone [] = none
cached zone ((key, listing) ∷ cache) = if key == zone then some listing else cached zone cache

-- `+= 1` on a `u32`
abbrev pub bump : ℕ → ℕ
bump n = (n + 1) % 2 ^ 32

abbrev pub count : Result Text Label → SyncOutcome → SyncOutcome
count (ok created) o = record o { created = bump o.created }
count (ok updated) o = record o { updated = bump o.updated }
count (ok unchanged) o = record o { unchanged = bump o.unchanged }
count (err e) o = record o { failed = bump o.failed; error = some e }

module _ (C : Client) (V : Ipv6) where
  -- A record's own `Result`, which does not end the run, with the cache that it leaves.
  abbrev pub Tried : Type 0
  Tried = Result Text Label × Cache

  -- The zone's listing, from the cache or fetched into it.
  unfoldable pub fetch : Text → Cache → Act (World C) (Listing × Cache)
  fetch zone cache = elim (cached zone cache) [
    | some listing ↦ pure (listing, cache)
    | none ↦ do
      listing ← asked (World.list_records zone) (λ s. C.list_records s zone)
      pure (listing, (zone, listing) ∷ cache)
  ]

  abbrev pub caught : Text → Cache → Ran (World C) (Label × Listing) → Ran (World C) Tried
  caught zone cache (done (label, listing) w) = done (ok label, (zone, listing) ∷ cache) w
  caught zone cache (failed e w) = done (err e, cache) w
  caught zone cache (panicked w) = panicked w

  abbrev pub then_reconcile :
      Record → Text → Text → Cache → Ran (World C) (Listing × Cache) → Ran (World C) Tried
  then_reconcile r zone value cache (done (listing, cache') w) =
      caught zone cache' (reconcile C V r zone listing value w)
  then_reconcile r zone value cache (failed e w) = done (err e, cache) w
  then_reconcile r zone value cache (panicked w) = panicked w

  -- The inner `async` block: a value, a zone, its listing, and the reconciliation.
  unfoldable pub sync_record : List Zone → Option Text → Record → Cache → Act (World C) Tried
  sync_record zones ipv4 r cache w = elim (choose_value ipv4 r) [
    | none ↦ done (err (codes "dynamic address unavailable"), cache) w
    | some value ↦ elim (choose_zone zones r.fqdn) [
      | none ↦ done (err (codes "no matching Cloudflare zone"), cache) w
      | some zone ↦ then_reconcile r zone.id value cache (fetch zone.id cache w)
    ]
  ]

  -- The loop over the records.
  unfoldable pub sync_records :
      List Zone → List Record → Cache → SyncOutcome → Act (World C) SyncOutcome
  sync_records zones [] cache o = pure o
  sync_records zones (r ∷ records) cache o =
      let skip = sync_records zones records cache (record o { unchanged = bump o.unchanged }) in
      if is_periodic o.source && not (is_dynamic r) then skip else (do
        tried ← sync_record zones o.ipv4 r cache
        sync_records zones records tried.1 (count tried.0 o))

  abbrev pub start : SyncRequest → Surroundings → SyncOutcome
  start request around = record {
    source = request.source;
    started_at = around.started;
    finished_at = around.started;
    ipv4 = none;
    created = 0;
    updated = 0;
    unchanged = 0;
    failed = 0;
    error = none;
  }

  abbrev pub shown : Option Ipv4Addr → Option Text
  shown none = none
  shown (some ip) = some (Ipv4.display ip)

  -- The resolvers are asked only if there is a dynamic record.
  unfoldable pub with_ipv4 : SyncRequest → Surroundings → List Record → SyncOutcome → SyncOutcome
  with_ipv4 request around records o =
      if any is_dynamic records
      then record o { ipv4 = shown (resolve_ipv4 around.order around.answers request.myip) }
      else o

  -- What follows the reading of the records: their zones, and the loop.
  unfoldable pub sync_all : List Record → SyncOutcome → Act (World C) SyncOutcome
  sync_all records o w = elim (asked World.list_zones C.list_zones w) [
    | done zones w' ↦ sync_records zones records [] o w'
    | failed e w' ↦ done (record o { error = some e }) w'
    | panicked w' ↦ panicked w'
  ]

  -- The outer `async` block and what becomes of its `Err`.
  unfoldable pub sync_body : SyncRequest → Surroundings → Act (World C) SyncOutcome
  sync_body request around w = elim (stored (codes "database read failed") Storage.list w) [
    | done records w' ↦
        (if is_nil records
            then pure (start request around)
            else sync_all records (with_ipv4 request around records (start request around)))
          w'
    | failed e w' ↦ done (record (start request around) { error = some e }) w'
    | panicked w' ↦ panicked w'
  ]

  unfoldable pub run_sync : SyncRequest → Surroundings → Act (World C) SyncOutcome
  run_sync request around = do
    o ← sync_body request around
    pure (record o { finished_at = around.finished })
