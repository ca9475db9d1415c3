-- ===== src/Metrics/Counts.antt =====
-- What a run of `run_sync` in src/sync.rs leaves in the samples of src/metrics.rs.
use vercel_ddns.Base.{
  ℕ, ◌+◌, ◌^◌, ◌<◌, ◌≡◌, Text, codes, ◌&&◌, List, [], ◌∷◌, arith, ◌==◌, text_eq, nat_eq,
  if◌then◌else◌,
}
use vercel_ddns.Base.Int.{pos, int_eq}
use vercel_ddns.Sync.Run.{SyncOutcome, as_sync_run, as_i32, is_ok}
use vercel_ddns.Metrics.{Metrics, RunLabels, observe_sync, gauges}

-- How often the counter was incremented at these labels.
unfoldable pub count_of : Text → Text → List RunLabels → ℕ
count_of source result [] = 0
count_of source result (l ∷ ls) =
    if l.source == source && l.result == result
    then 1 + count_of source result ls
    else count_of source result ls

-- `u32 as i32` is 0 only of 0.
as_i32-eq-zero : (n : ℕ) → n < 2 ^ 32 → (as_i32 n == pos 0) ≡ (n == 0)
unfolding as_i32
as_i32-eq-zero n h = ground arith

-- A run that is observed adds one to the counter at its source and at whether the outcome was ok,
-- and nothing elsewhere; its gauge of success says the same as the outcome's `ok`.
pub observe_sync-as_sync_run :
    (o : SyncOutcome) (metrics : Metrics) (source result : Text)
    → o.failed < 2 ^ 32
    → (count_of source result (observe_sync (as_sync_run o) metrics).runs ≡ (
        if o.source == source && (if is_ok o then codes "success" else codes "failure") == result
        then 1 + count_of source result metrics.runs
        else count_of source result metrics.runs))
      × ((gauges (as_sync_run o)).last_success ≡ (if is_ok o then pos 1 else pos 0))
unfolding observe_sync as_sync_run count_of is_ok gauges
observe_sync-as_sync_run o metrics source result h =
    (ground (arith, as_i32-eq-zero o.failed h), ground (arith, as_i32-eq-zero o.failed h))
