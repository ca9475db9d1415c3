-- ===== src/Sync/World.antt =====
-- The world that the functions of src/sync.rs change: the database, the provider behind the
-- Cloudflare client, and the calls made to it so far, the newest first.
use vercel_ddns.Base.{Text, Option, none, some, List, ◌∷◌}
use vercel_ddns.Base.Outcome.{Reply, returned, errored, done, failed, panicked, Act}
use vercel_ddns.Storage.{Database, DbError}
use vercel_ddns.Cloudflare.Types.{CloudflareError, Record}
use vercel_ddns.Cloudflare.Client.{Client}

pub data Call : Type 0 where
  list_zones : Call
  list_records : Text → Call
  get_record : Text → Text → Call
  create_record : Text → Record → Call
  update_record : Text → Text → Record → Call
  delete_record : Text → Text → Call

pub record World (C : Client) : Type 0 where
  pub db : Database
  pub cloud : C.State
  pub calls : List Call

module _ {C : Client} where
  -- `storage.op(…).await.map_err(|_| message)?`
  abbrev pub stored {ℓ} :
      {A : Type ℓ} → Text → (Database → Reply Database DbError A) → Act (World C) A
  stored message op w = elim (op w.db) [
    | returned a db ↦ done a (record w { db = db })
    | errored _ db ↦ failed message (record w { db = db })
  ]

  -- `cloudflare.op(…).await.map_err(|e| e.to_string())?`
  abbrev pub asked {ℓ} :
      {A : Type ℓ} → Call → (C.State → Reply C.State CloudflareError A) → Act (World C) A
  asked call op w = elim (op w.cloud) [
    | returned a s ↦ done a (record w { cloud = s; calls = call ∷ w.calls })
    | errored e s ↦ failed (C.to_text e) (record w { cloud = s; calls = call ∷ w.calls })
  ]

  -- `Option::unwrap`
  abbrev pub unwrap {ℓ} : {A : Type ℓ} → Option A → Act (World C) A
  unwrap none w = panicked w
  unwrap (some a) w = done a w
