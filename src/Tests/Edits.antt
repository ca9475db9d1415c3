-- ===== src/Tests/Edits.antt =====
-- An SRV row that was edited after its record was pushed.
use vercel_ddns.Base.{◌≡◌, refl, codes, some, none, [], ◌∷◌, text_eq, arith}
use vercel_ddns.Base.Int.{pos, int_eq}
use vercel_ddns.Base.Outcome.{failed, returned}
use vercel_ddns.Storage
use vercel_ddns.Storage.{Record, Database}
use vercel_ddns.Cloudflare.Types
use vercel_ddns.Cloudflare.Types.{DnsRecord, SrvData}
use vercel_ddns.Sync.Matching
use vercel_ddns.Sync.Matching.Echo.{echo}
use vercel_ddns.Sync.World.{World}
use vercel_ddns.Sync.Reconcile.{reconcile}
use vercel_ddns.Sync.Delete.{delete_record}
use vercel_ddns.Sync.Edits.{IsStaleSrv, edited_srv, reconcile-Edited, asked_for}
use vercel_ddns.Tests.Fixtures.{Cloud, memory, loopback, host, database}

abbrev phone : Record
phone = record host {
  record_type = codes "SRV";
  value = some (codes "sip.b.c");
  priority = some (pos 5);
  weight = some (pos 1);
  port = some (pos 5060);
  zone_id = some (codes "z");
  provider_record_id = some (codes "m");
}

abbrev pushed : SrvData
pushed = record { priority = 4; weight = 1; port = 5060; target = codes "sip.b.c" }

abbrev held : DnsRecord
held = echo (codes "m") (Matching.body phone (codes "sip.b.c") none (some (Types.srv pushed)))

abbrev cloud : Cloud
cloud = record { records = held ∷ []; fresh = codes "n" }

abbrev here : World memory
here = record { db = database (phone ∷ []); cloud = cloud; calls = [] }

phone-IsStaleSrv : IsStaleSrv phone held
phone-IsStaleSrv = record {
  srv = refl;
  before = pushed;
  held = refl;
  small = (omega arith, omega arith, omega arith);
  differ = λ same. let e = same.0 in ground arith;
}

abbrev after_read : Database
after_read = record (database (phone ∷ [])) { turn = 1 }

phone_read : Storage.get here.db phone.id ≡ returned (some phone) after_read
unfolding Storage.get Storage.find_row int_eq
phone_read = refl

reconcile-Edited_example :
    (reconcile memory loopback phone (codes "z") (held ∷ []) (codes "sip.b.c") here
      ≡ failed (codes "provider record identity changed") here)
    × (delete_record memory phone.id here
        ≡ failed
            (codes "provider record identity changed; refusing deletion")
            (asked_for here after_read cloud (codes "z") (codes "m")))
reconcile-Edited_example =
    reconcile-Edited memory loopback phone (codes "z") (codes "sip.b.c") (codes "m") (held ∷ [])
      held here refl refl (unfold text_eq in refl) (edited_srv phone-IsStaleSrv) phone_read
      (unfold text_eq in refl)
