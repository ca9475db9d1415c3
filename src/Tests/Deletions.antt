-- ===== src/Tests/Deletions.antt =====
-- Deletions of a linked row, and of a row that is not there.
use vercel_ddns.Base.{◌≡◌, refl, codes, none, some, [], ◌∷◌, text_eq, option_eq, nat_eq}
use vercel_ddns.Base.Int.{pos, int_eq}
use vercel_ddns.Base.Outcome.{done, failed, world}
use vercel_ddns.Base.Strings
use vercel_ddns.Storage
use vercel_ddns.Storage.{Record, find_row, others}
use vercel_ddns.Sync.Delete
use vercel_ddns.Sync.Delete.{delete_record}
use vercel_ddns.Sync.Delete.Order.{delete_record-done, delete_record-failed, Removed}
use vercel_ddns.Sync.Matching
use vercel_ddns.Sync.Matching.Echo.{echo}
use vercel_ddns.Sync.World.{World}
use vercel_ddns.Tests.Fixtures.{memory, host, mail, start_world}

abbrev owner : Record
owner = record host { zone_id = some (codes "z"); provider_record_id = some (codes "m") }

abbrev linked : World memory
linked = record (start_world (mail ∷ owner ∷ [])) {
  cloud = record {
    records = echo (codes "m") (Matching.body host (codes "9.8.7.6") none none) ∷ [];
    fresh = codes "n";
  };
}

abbrev after : World memory
after = world (delete_record memory (pos 1) linked)

deleted : delete_record memory (pos 1) linked ≡ done tt after
unfolding delete_record Storage.get find_row int_eq Delete.delete_linked Delete.delete_remote
    text_eq Matching.identity_matches Matching.same_name Strings.eq_ignore_ascii_case
    Strings.to_ascii_lowercase Strings.trim_end_matches Strings.lower Matching.kind_of
    Delete.delete_row Storage.delete
deleted = refl

delete_record-done_example :
    (r : Record) × (find_row (pos 1) (mail ∷ owner ∷ []) ≡ some r)
    × (after.db.rows ≡ others (pos 1) (mail ∷ owner ∷ []))
    × Removed memory r r.zone_id r.provider_record_id linked.cloud [] after.calls
delete_record-done_example = delete_record-done memory (pos 1) linked {u = tt} {w' = after} deleted

abbrev stopped : World memory
stopped = world (delete_record memory (pos 9) linked)

missing : delete_record memory (pos 9) linked ≡ failed (codes "record not found") stopped
unfolding delete_record Storage.get Storage.find_row int_eq
missing = refl

delete_record-failed_example : stopped.db.rows ≡ mail ∷ owner ∷ []
delete_record-failed_example =
    delete_record-failed memory (pos 9) linked {e = codes "record not found"} {w' = stopped} missing
