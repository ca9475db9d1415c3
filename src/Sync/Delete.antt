-- ===== src/Sync/Delete.antt =====
-- `delete_record` of src/sync.rs. Its `Err` is the text of the answer that the API makes of it.
pub mod Order
use vercel_ddns.Base.{
  Text, codes, Bool, true, false, not, Option, none, some, ◌==◌, ◌!=◌, text_eq, if◌then◌else◌,
}
use vercel_ddns.Base.Int.{ℤ}
use vercel_ddns.Base.Outcome.{Act, pure, fail, ◌>>=◌, ◌>>◌}
use vercel_ddns.Storage
use vercel_ddns.Storage.{Record}
use vercel_ddns.Cloudflare.Client.{Client}
use vercel_ddns.Sync.Matching.{identity_matches}
use vercel_ddns.Sync.World
use vercel_ddns.Sync.World.{World, stored, asked, unwrap}

module _ (C : Client) where
  -- The provider's record is fetched, held against the local one, and deleted.
  unfoldable pub delete_remote : Record → Text → Text → Act (World C) (Unit {0})
  delete_remote local zone provider_id = do
    remote ← asked (World.get_record zone provider_id) (λ s. C.get_record s zone provider_id)
    same ← unwrap (if remote.id != provider_id then some false else identity_matches local remote)
    if same
        then asked (World.delete_record zone provider_id) (λ s. C.delete_record s zone provider_id)
        else fail (codes "provider record identity changed; refusing deletion")

  -- Both `zone_id` and `provider_record_id` are known, or there is nothing to delete there.
  unfoldable pub delete_linked : Record → Option Text → Option Text → Act (World C) (Unit {0})
  delete_linked local (some zone) (some provider_id) = delete_remote local zone provider_id
  delete_linked local (some _) none = pure tt
  delete_linked local none _ = pure tt

  unfoldable pub delete_row : ℤ → Act (World C) (Unit {0})
  delete_row id = do
    deleted ← stored (codes "database deletion failed") (λ db. Storage.delete db id)
    if deleted then pure tt else fail (codes "record not deleted")

  unfoldable pub delete_record : ℤ → Act (World C) (Unit {0})
  delete_record id = do
    found ← stored (codes "database read failed") (λ db. Storage.get db id)
    elim found [
      | none ↦ fail (codes "record not found")
      | some local ↦ do delete_linked local local.zone_id local.provider_record_id; delete_row id
    ]
