-- ===== src/Api/Handlers.antt =====
-- The handlers of src/api.rs. A handler is a function on the world that ends with what axum turns
-- into the response; a panic loses the connection. The writes hold the mutation lock throughout, so
-- each is one step of the service.
pub mod Effects
pub mod Tables
use vercel_ddns.Base.{
  ℕ, Text, codes, Bool, true, false, ◌||◌, Option, none, some, List, [], ◌∷◌, ◌==◌, ◌!=◌, text_eq,
  if◌then◌else◌,
}
use vercel_ddns.Base.Int.{ℤ}
use vercel_ddns.Base.Outcome.{
  Result, ok, err, Reply, returned, errored, Ran, done, failed, panicked, Act,
}
use vercel_ddns.Net.Ipv6.{Ipv6}
use vercel_ddns.Storage
use vercel_ddns.Storage.{
  Record, RecordInput, SyncRun, Database, DbError, unavailable, row_not_found, unique_violation,
  check_violation,
}
use vercel_ddns.Cloudflare.Client.{Client}
use vercel_ddns.Sync.World.{World}
use vercel_ddns.Sync.Delete
use vercel_ddns.Sync.Run.{SyncOutcome}
use vercel_ddns.Api.Validate.{validate}

-- A response with a text for its body, which may be empty.
pub record Response : Type 0 where
  pub status : ℕ
  pub body : Text

-- `Ok` with its status code and the source of the sync that the handler triggers, or `Err`.
pub data Handled {ℓ} (A : Type ℓ) : Type ℓ where
  accepted : ℕ → A → Option Text → Handled A
  refused : Response → Handled A

pub record Status : Type 0 where
  pub last_sync : Option SyncRun
  pub sync_interval_secs : ℕ

unfoldable pub database_error : DbError → Response
database_error unique_violation = record {
  status = 409;
  body = codes "record or provider ID already exists";
}
database_error check_violation = record { status = 422; body = codes "invalid record" }
database_error row_not_found = record { status = 500; body = [] }
database_error unavailable = record { status = 500; body = [] }

abbrev pub invalid : Text → Response
invalid message = record { status = 422; body = message }

abbrev pub not_found : Response
not_found = record { status = 404; body = [] }

abbrev pub immutable : Response
immutable = invalid (codes "name and type are immutable; create a new record")

abbrev pub sync_lost : Response
sync_lost = record { status = 500; body = [] }

-- The answer to `POST /sync`: none means that the worker has gone.
unfoldable pub sync_now : Option SyncOutcome → Handled SyncOutcome
sync_now (some outcome) = accepted 200 outcome none
sync_now none = refused sync_lost

module _ (C : Client) where
  abbrev pub Handler {ℓ} : Type ℓ → Type ℓ
  Handler A = Act (World C) (Handled A)

  -- A statement, its error turned into a response, and what is done with its result.
  abbrev pub queried {ℓ κ} :
      {A : Type ℓ} {B : Type κ}
      → (Database → Reply Database DbError A)
      → (A → Handler B)
      → Handler B
  queried op then_do w = elim (op w.db) [
    | returned a db ↦ then_do a (record w { db = db })
    | errored e db ↦ done (refused (database_error e)) (record w { db = db })
  ]

  abbrev pub answer {ℓ} : {A : Type ℓ} → Handled A → Handler A
  answer h w = done h w

  unfoldable pub list_records : Handler (List Record)
  list_records = queried Storage.list (λ rows. answer (accepted 200 rows none))

  -- The sync run that is read is shown; an error shows none.
  unfoldable pub status : ℕ → Handler Status
  status interval w = elim (Storage.latest_sync_run w.db) [
    | returned run db ↦
        done (accepted 200 (record { last_sync = run; sync_interval_secs = interval }) none)
          (record w { db = db })
    | errored e db ↦
        done (accepted 200 (record { last_sync = none; sync_interval_secs = interval }) none)
          (record w { db = db })
  ]

  unfoldable pub delete_record : ℤ → Handler (Unit {0})
  delete_record id w = elim (Delete.delete_record C id w) [
    | done _ w' ↦ done (accepted 204 tt none) w'
    | failed error w' ↦ done (refused (record { status = 409; body = error })) w'
    | panicked w' ↦ panicked w'
  ]

  module _ (V : Ipv6) where
    unfoldable pub create_record : RecordInput → Handler Record
    create_record raw = elim (validate V raw) [
      | err message ↦ answer (refused (invalid message))
      | ok input ↦
          queried (λ db. Storage.create db input)
            (λ row. answer (accepted 201 row (some (codes "record-created"))))
    ]

    -- The row that `UPDATE … RETURNING *` gives, if any row fits.
    abbrev pub updated_row : Option Record → Handler Record
    updated_row none = answer (refused not_found)
    updated_row (some row) = answer (accepted 200 row (some (codes "record-updated")))

    unfoldable pub edit : ℤ → RecordInput → Record → Handler Record
    edit id input old =
        if old.fqdn != input.fqdn || old.record_type != input.record_type
        then answer (refused immutable)
        else queried (λ db. Storage.update db id input) updated_row

    abbrev pub edit_found : ℤ → RecordInput → Option Record → Handler Record
    edit_found id input none = answer (refused not_found)
    edit_found id input (some old) = edit id input old

    unfoldable pub update_record : ℤ → RecordInput → Handler Record
    update_record id raw = elim (validate V raw) [
      | err message ↦ answer (refused (invalid message))
      | ok input ↦ queried (λ db. Storage.get db id) (edit_found id input)
    ]
