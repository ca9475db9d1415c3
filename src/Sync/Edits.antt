-- ===== src/Sync/Edits.antt =====
-- A CAA or an SRV row of src/sync.rs that has been edited since its record was pushed: `reconcile`
-- and `delete_record` on it.
use vercel_ddns.Base.{
  ◌^◌, ◌<◌, ◌≡◌, Text, codes, false, some, ◌∷◌, arith, text_eq, option_eq, nat_eq, find,
}
use vercel_ddns.Base.Int.{pos, int_eq}
use vercel_ddns.Base.Outcome.{failed, returned}
use vercel_ddns.Base.Json.{get_i64, get_field}
use vercel_ddns.Net.Ipv6.{Ipv6}
use vercel_ddns.Storage
use vercel_ddns.Storage.{Record, Database}
use vercel_ddns.Cloudflare.Types
use vercel_ddns.Cloudflare.Types.{DnsRecord, SrvData}
use vercel_ddns.Cloudflare.Client.{Client}
use vercel_ddns.Sync.Matching.{kind_of, identity_matches, numbers_equal}
use vercel_ddns.Sync.Matching.Echo.{extra_json}
use vercel_ddns.Sync.World
use vercel_ddns.Sync.World.{World}
use vercel_ddns.Sync.Reconcile.{Listing, has_remote_id, refresh, reconcile}
use vercel_ddns.Sync.Reconcile.Edits.{IsStale, identity_matches-IsStale}
use vercel_ddns.Sync.Delete.{delete_record, delete_linked, delete_remote}

-- The record that the provider holds was sent for another priority, weight or port.
pub record IsStaleSrv (r : Record) (current : DnsRecord) : Type 0 where
  pub srv : r.record_type ≡ codes "SRV"
  pub before : SrvData
  pub held : current.extra ≡ some (extra_json (Types.srv before))
  pub small : (before.priority < 2 ^ 16) × (before.weight < 2 ^ 16) × (before.port < 2 ^ 16)
  pub differ : ¬ (
      (r.priority ≡ some (pos before.priority))
      × (r.weight ≡ some (pos before.weight))
      × (r.port ≡ some (pos before.port)))

pub data Edited (r : Record) (value : Text) (current : DnsRecord) : Type 0 where
  edited_caa : IsStale r value current → Edited r value current
  edited_srv : IsStaleSrv r current → Edited r value current

identity_matches-IsStaleSrv :
    (r : Record) (current : DnsRecord)
    → IsStaleSrv r current
    → identity_matches r current ≡ some false
unfolding identity_matches kind_of numbers_equal get_i64 get_field text_eq
identity_matches-IsStaleSrv r current stale =
    ground (arith, stale.srv, stale.held, stale.small, stale.differ)

identity_matches-Edited :
    (r : Record) (value : Text) (current : DnsRecord)
    → Edited r value current
    → identity_matches r current ≡ some false
identity_matches-Edited r value current (edited_caa stale) =
    identity_matches-IsStale r value current stale
identity_matches-Edited r value current (edited_srv stale) =
    identity_matches-IsStaleSrv r current stale

-- The world after the refusal of a deletion: the row has been read, and so has its record.
abbrev pub asked_for : {C : Client} → World C → Database → C.State → Text → Text → World C
asked_for w db s zone id = record w {
  db = db;
  cloud = s;
  calls = World.get_record zone id ∷ w.calls;
}

-- If a CAA or an SRV row has been edited, so that its linked record was sent for other data, or for
-- another priority, weight or port, the row is stuck: its reconciliation fails and changes nothing,
-- and its deletion reads the record, is refused, and deletes nothing.
pub reconcile-Edited :
    (C : Client) (V : Ipv6) (r : Record) (zone value id : Text) (listing : Listing)
    (current : DnsRecord) (w : World C) {db : Database} {s : C.State}
    → r.provider_record_id ≡ some id
    → r.zone_id ≡ some zone
    → find (has_remote_id id) listing ≡ some current
    → Edited r value current
    → Storage.get w.db r.id ≡ returned (some r) db
    → C.get_record w.cloud zone id ≡ returned current s
    → (reconcile C V r zone listing value w ≡ failed (codes "provider record identity changed") w)
      × (delete_record C r.id w
          ≡ failed
              (codes "provider record identity changed; refusing deletion")
              (asked_for w db s zone id))
unfolding reconcile refresh delete_record delete_linked delete_remote
reconcile-Edited C V r zone value id listing current w {db} {s} linked there at edited read asked =
    let mine = identity_matches-Edited r value current edited in
    (ground (arith, mine), ground (arith, mine))
