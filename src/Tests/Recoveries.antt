-- ===== src/Tests/Recoveries.antt =====
-- A created record whose ID cannot be stored, and the reconciliation after it.
use vercel_ddns.Base.{◌≡◌, refl, sym, codes, false, none, some, [], ◌∷◌, text_eq}
use vercel_ddns.Base.Int.{int_eq}
use vercel_ddns.Base.Outcome.{failed, returned, errored}
use vercel_ddns.Base.Strings
use vercel_ddns.Storage
use vercel_ddns.Storage.{Database, unavailable}
use vercel_ddns.Cloudflare.Types.{DnsRecord}
use vercel_ddns.Sync.Matching
use vercel_ddns.Sync.Matching.Echo.{echo}
use vercel_ddns.Sync.World
use vercel_ddns.Sync.World.{World}
use vercel_ddns.Sync.Reconcile.{reconcile, find_identity}
use vercel_ddns.Sync.Reconcile.Reflect.{Reflects}
use vercel_ddns.Sync.Reconcile.Recovery.{create_new_recovers, linking}
use vercel_ddns.Tests.Fixtures.{Cloud, loopback, host, database}
use vercel_ddns.Tests.Careful.{careful, careful-IsStore, careful-view}
use vercel_ddns.Tests.Reconciles.{home_text, host-IsSound, sent, desired-host}

abbrev other : DnsRecord
other = record (echo (codes "m") sent) { name = codes "d.b.c" }

abbrev made : DnsRecord
made = echo (codes "n") sent

abbrev before : Cloud
before = record { records = other ∷ []; fresh = codes "n" }

abbrev after : Cloud
after = record { records = made ∷ other ∷ []; fresh = codes "nn" }

abbrev down : Database
down = record (database (host ∷ [])) { turns = λ n. record { up = false; now = n } }

abbrev here : World careful
here = record { db = down; cloud = before; calls = [] }

abbrev later : World careful
later = record { db = database (host ∷ []); cloud = after; calls = [] }

creates : careful.create_record before (codes "z") sent ≡ returned made after
unfolding text_eq
creates = refl

before-Reflects : Reflects careful careful-IsStore (other ∷ []) before (codes "z")
unfolding text_eq
before-Reflects = record { unrepeated = (refl, tt); lookup = λ k. sym (careful-view before k) }

after-Reflects : Reflects careful careful-IsStore (made ∷ other ∷ []) after (codes "z")
unfolding text_eq
after-Reflects = record {
  unrepeated = (refl, (refl, tt));
  lookup = λ k. sym (careful-view after k);
}

absent : find_identity host (other ∷ []) ≡ some none
unfolding find_identity Matching.identity_matches Matching.same_name Strings.eq_ignore_ascii_case
    text_eq Strings.to_ascii_lowercase Strings.trim_end_matches Strings.lower
absent = refl

refused :
    Storage.set_provider_id down host.id (codes "z") made.id
    ≡ errored unavailable (record down { turn = 1 })
unfolding Storage.set_provider_id
refused = refl

create_new_recovers_example :
    (reconcile careful loopback host (codes "z") (other ∷ []) home_text here
      ≡ failed (codes "created record ID could not be saved") (record here {
        db = record down { turn = 1 };
        cloud = after;
        calls = World.create_record (codes "z") sent ∷ [];
      }))
    × (reconcile careful loopback host (codes "z") (made ∷ other ∷ []) home_text later
        ≡ linking
            (made ∷ other ∷ [])
            later
            (Storage.set_provider_id later.db host.id (codes "z") made.id))
create_new_recovers_example =
    create_new_recovers careful careful-IsStore loopback host (codes "z") home_text host-IsSound
      (other ∷ []) here desired-host creates (made ∷ other ∷ []) later refl before-Reflects absent
      refl refused after-Reflects (λ k. refl)
