-- ===== src/Sync/Reconcile/Edits.antt =====
-- `reconcile` of a CAA row that has been edited since its record was pushed.
use vercel_ddns.Base.{
  ◌≡◌, ◌≢◌, refl, Text, codes, true, false, some, arith, text_eq, option_eq, nat_eq, Bool-cases,
  inl, inr, find,
}
use vercel_ddns.Base.Outcome.{failed}
use vercel_ddns.Base.Json.{get_u64, get_str, get_field}
use vercel_ddns.Net.Ipv6.{Ipv6}
use vercel_ddns.Storage.{Record}
use vercel_ddns.Cloudflare.Types
use vercel_ddns.Cloudflare.Types.{DnsRecord, CaaData}
use vercel_ddns.Cloudflare.Client.{Client}
use vercel_ddns.Sync.Matching.{kind_of, identity_matches, caa_data, caa_equal}
use vercel_ddns.Sync.Matching.Echo.{extra_json}
use vercel_ddns.Sync.World.{World}
use vercel_ddns.Sync.Reconcile.{Listing, has_remote_id, refresh, reconcile}

-- Data that are reported as sent are the data that were sent.
caa_equal-eq-true : (d e : CaaData) → caa_equal d (extra_json (Types.caa e)) ≡ true → d ≡ e
unfolding caa_equal
caa_equal-eq-true d e h = λ i. record { flags = flags i; tag = tag i; value = value i }
  where
    sent_flags : get_u64 (codes "flags") (extra_json (Types.caa e)) ≡ some e.flags
    sent_flags = unfold get_u64 get_field text_eq in refl

    sent_tag : get_str (codes "tag") (extra_json (Types.caa e)) ≡ some e.tag
    sent_tag = unfold get_str get_field text_eq in refl

    sent_value : get_str (codes "value") (extra_json (Types.caa e)) ≡ some e.value
    sent_value = unfold get_str get_field text_eq in refl

    flags : d.flags ≡ e.flags
    flags = ground (arith, sent_flags)

    tag : d.tag ≡ e.tag
    tag = ground (arith, sent_tag)

    value : d.value ≡ e.value
    value = ground (arith, sent_value)

-- The record that the provider holds was sent for other data than the row asks for now.
pub record IsStale (r : Record) (value : Text) (current : DnsRecord) : Type 0 where
  pub caa : r.record_type ≡ codes "CAA"
  pub own : r.value ≡ some value
  pub before : CaaData
  pub after : CaaData
  pub held : current.extra ≡ some (extra_json (Types.caa before))
  pub asked : caa_data value ≡ some after
  pub differ : after ≢ before

pub identity_matches-IsStale :
    (r : Record) (value : Text) (current : DnsRecord)
    → IsStale r value current
    → identity_matches r current ≡ some false
unfolding identity_matches kind_of
identity_matches-IsStale r value current stale =
    elim (Bool-cases (caa_equal stale.after (extra_json (Types.caa stale.before)))) [
      | inl same ↦ absurd (stale.differ (caa_equal-eq-true stale.after stale.before same))
      | inr other ↦ ground (arith, stale.caa, stale.own, stale.held, stale.asked)
    ]

-- If a linked CAA row asks for other data than its record holds, its reconciliation fails and
-- changes nothing, whatever the provider does: the edit of the row is never pushed.
pub reconcile-IsStale :
    (C : Client) (V : Ipv6) (r : Record) (zone value id : Text) (listing : Listing)
    (current : DnsRecord) (w : World C)
    → r.provider_record_id ≡ some id
    → r.zone_id ≡ some zone
    → find (has_remote_id id) listing ≡ some current
    → IsStale r value current
    → reconcile C V r zone listing value w ≡ failed (codes "provider record identity changed") w
unfolding reconcile refresh
reconcile-IsStale C V r zone value id listing current w linked there at stale =
    ground (arith, identity_matches-IsStale r value current stale)
