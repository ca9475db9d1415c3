-- ===== src/Storage/Runs.antt =====
-- The statements of src/storage.rs on the table `sync_runs`.
use vercel_ddns.Base.{
  ℕ, ◌+◌, ◌*◌, Bool, Option, none, some, List, [], ◌∷◌, filter, leb, if◌then◌else◌,
}
use vercel_ddns.Base.Outcome.{Reply, returned, errored}
use vercel_ddns.Storage.Tables.{SyncRun, Database, DbError, unavailable, turn_of, spend}

-- `interval '30 days'`
abbrev pub retention : ℕ
retention = 30 * 24 * 3600

-- The rows that `DELETE … WHERE finished_at < now() - interval '30 days'` leaves.
abbrev pub is_recent : ℕ → SyncRun → Bool
is_recent now run = leb now (run.finished_at + retention)

-- A transaction of two statements, under one `now()`. The newest row is the first of the list.
-- The four calls (`begin`, two statements, `commit`) meet one turn: if any of them fails, nothing
-- of the transaction stays.
unfoldable pub save_sync_run : Database → SyncRun → Reply Database DbError (Unit {0})
save_sync_run db run =
    if (turn_of db).up
    then returned tt
        (record (spend db) { runs = filter (is_recent (turn_of db).now) (run ∷ db.runs) })
    else errored unavailable (spend db)

-- `ORDER BY finished_at DESC, id DESC LIMIT 1`: the newest of the runs that finished last.
unfoldable pub latest : List SyncRun → Option SyncRun
latest [] = none
latest (run ∷ runs) = elim (latest runs) [
  | none ↦ some run
  | some other ↦ if leb other.finished_at run.finished_at then some run else some other
]

unfoldable pub latest_sync_run : Database → Reply Database DbError (Option SyncRun)
latest_sync_run db =
    if (turn_of db).up then returned (latest db.runs) (spend db) else errored unavailable (spend db)
