-- ===== src/Tests/Gauges.antt =====
-- A run that is observed.
use vercel_ddns.Base.{◌≡◌, ◌+◌, ◌&&◌, arith, codes, none, [], ◌==◌, text_eq, if◌then◌else◌}
use vercel_ddns.Base.Int.{pos}
use vercel_ddns.Sync.Run.{SyncOutcome, as_sync_run, is_ok}
use vercel_ddns.Metrics.{no_runs, observe_sync, gauges}
use vercel_ddns.Metrics.Counts.{count_of, observe_sync-as_sync_run}

abbrev outcome : SyncOutcome
outcome = record {
  source = codes "timer";
  started_at = 5;
  finished_at = 6;
  ipv4 = none;
  created = 1;
  updated = 0;
  unchanged = 0;
  failed = 2;
  error = none;
}

observe_sync-as_sync_run_example :
    (count_of (codes "timer") (codes "failure") (observe_sync (as_sync_run outcome) no_runs).runs
      ≡ (if outcome.source == codes "timer"
            && (if is_ok outcome then codes "success" else codes "failure") == codes "failure"
          then 1 + count_of (codes "timer") (codes "failure") []
          else count_of (codes "timer") (codes "failure") []))
    × ((gauges (as_sync_run outcome)).last_success ≡ (if is_ok outcome then pos 1 else pos 0))
observe_sync-as_sync_run_example =
    observe_sync-as_sync_run outcome no_runs (codes "timer") (codes "failure") (omega arith)
