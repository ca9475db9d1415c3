-- ===== src/Metrics.antt =====
-- src/metrics.rs: the counter of sync runs and the samples that are exposed of the latest run. The
-- counter is the list of the label pairs it was incremented at; the crate prometheus adds them up
-- and prints the samples. Times are whole seconds, and may run backwards between two readings.
pub mod Counts
use vercel_ddns.Base.{
  ℕ, ◌-◌, ◌+◌, Text, codes, Bool, true, false, ◌&&◌, Option, none, some, List, [], ◌∷◌, ◌==◌, leb,
  if◌then◌else◌, text_eq,
}
use vercel_ddns.Base.Int.{ℤ, pos, negsuc, int_eq}
use vercel_ddns.Storage.{SyncRun, is_none}
use vercel_ddns.Base.Outcome.{Reply, returned, errored}
use vercel_ddns.Storage
use vercel_ddns.Storage.{Database}

pub record RunLabels : Type 0 where
  pub source : Text
  pub result : Text

pub record Metrics : Type 0 where
  pub runs : List RunLabels

abbrev pub no_runs : Metrics
no_runs = record { runs = [] }

-- `run.failed == 0 && run.error.is_none()`
abbrev pub is_success : SyncRun → Bool
is_success run = run.failed == pos 0 && is_none run.error

unfoldable pub observe_sync : SyncRun → Metrics → Metrics
observe_sync run metrics =
    let result = if is_success run then codes "success" else codes "failure" in
    record { runs = record { source = run.source; result = result } ∷ metrics.runs }

-- a - b
abbrev pub minus : ℕ → ℕ → ℤ
minus a b = if leb b a then pos (a - b) else negsuc (b - a - 1)

-- The gauges of the latest run.
pub record Gauges : Type 0 where
  pub last_finished_timestamp_seconds : ℤ
  pub last_success : ℤ
  pub last_duration_seconds : ℤ
  pub records_created : ℤ
  pub records_updated : ℤ
  pub records_unchanged : ℤ
  pub records_failed : ℤ

unfoldable pub gauges : SyncRun → Gauges
gauges run = record {
  last_finished_timestamp_seconds = pos run.finished_at;
  last_success = if is_success run then pos 1 else pos 0;
  last_duration_seconds = minus run.finished_at run.started_at;
  records_created = run.created;
  records_updated = run.updated;
  records_unchanged = run.unchanged;
  records_failed = run.failed;
}

-- What the registry of `encode` gathers.
pub record Samples : Type 0 where
  pub counter : List RunLabels
  pub latest : Option Gauges

unfoldable pub encode : Metrics → Option SyncRun → Samples
encode metrics none = record { counter = metrics.runs; latest = none }
encode metrics (some run) = record { counter = metrics.runs; latest = some (gauges run) }

-- The handler: the samples, or none for a response with status 500.
unfoldable pub serve_metrics : Metrics → Database → Option Samples
serve_metrics metrics db = elim (Storage.latest_sync_run db) [
  | returned latest _ ↦ some (encode metrics latest)
  | errored _ _ ↦ none
]
