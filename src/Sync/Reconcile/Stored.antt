-- ===== src/Sync/Reconcile/Stored.antt =====
-- What `reconcile` of src/sync.rs does to the provider's store when it succeeds.
use vercel_ddns.Base.{
  ◌≡◌, ◌∙◌, sym, ap, subst, Text, true, false, none, some, [], ◌∷◌, ◌++◌, arith, find, text_eq,
  option_eq, Option-cases, inl, inr,
}
use vercel_ddns.Base.Outcome.{done, Reply-cases}
use vercel_ddns.Net.Ipv6.{Ipv6}
use vercel_ddns.Storage
use vercel_ddns.Storage.{Record}
use vercel_ddns.Cloudflare.Types.{DnsRecord}
use vercel_ddns.Cloudflare.Client.{Client}
use vercel_ddns.Sync.Matching.{identity_matches, up_to_date}
use vercel_ddns.Sync.Matching.Sound.{IsSound}
use vercel_ddns.Sync.Matching.Echo.{desired-some}
use vercel_ddns.Sync.World.{World}
use vercel_ddns.Sync.Reconcile.{
  Label, Listing, create_new, refresh, adopt, reconcile, find_identity, has_remote_id,
  replace_first,
}
use vercel_ddns.Sync.Reconcile.Calls.{recreate-cleared, recreate_refused}
use vercel_ddns.Sync.Reconcile.Store.{IsStore}
use vercel_ddns.Sync.Reconcile.Reflect.{
  Reflects, IsStored, still-IsStored, created-IsStored, updated-IsStored,
}

module _ (C : Client) (store : IsStore C) (V : Ipv6) (r : Record) (zone value : Text)
    (sound : IsSound V r value) where
  moved :
      {before s s' : C.State} {changed listing : Listing}
      → s ≡ s'
      → changed ≡ listing
      → IsStored C store zone before s changed
      → IsStored C store zone before s' listing
  moved {before} {s} {s'} {changed} {listing} e f p =
      subst (λ x. IsStored C store zone before x listing) e
        (subst (IsStored C store zone before s) f p)

  create_new-IsStored :
      (existing : Listing) (w : World C) {label : Label} {listing : Listing} {w' : World C}
      → Reflects C store existing w.cloud zone
      → create_new C V r zone existing value w ≡ done (label, listing) w'
      → IsStored C store zone w.cloud w'.cloud listing
  unfolding create_new
  create_new-IsStored existing w {label} {listing} {w'} reflects h =
      let (sent, made) = desired-some V r value sound in
      elim (Reply-cases (C.create_record w.cloud zone sent)) [
        | inl (remote, s, e) ↦
            elim (Reply-cases (Storage.set_provider_id w.db r.id zone remote.id)) [
              | inl (u, db, set) ↦
                  let kept : s ≡ w'.cloud = ground arith in
                  let appended : existing ++ (remote ∷ []) ≡ listing = ground arith in
                  moved kept appended
                    (created-IsStored C store zone w.cloud existing sent reflects e)
              | inr (f, db, set) ↦ absurd (ground arith)
            ]
        | inr (f, s, e) ↦ absurd (ground arith)
      ]

  refresh-IsStored :
      (existing : Listing) (id : Text) (current : DnsRecord) (w : World C) {label : Label}
      {listing : Listing} {w' : World C}
      → Reflects C store existing w.cloud zone
      → refresh C V r zone existing value id current w ≡ done (label, listing) w'
      → IsStored C store zone w.cloud w'.cloud listing
  unfolding refresh
  refresh-IsStored existing id current w {label} {listing} {w'} reflects h =
      let (sent, made) = desired-some V r value sound in
      let mine : identity_matches r current ≡ some true = ground arith in
      elim (Option-cases (up_to_date V r value current)) [
        | inl gone ↦ absurd (ground arith)
        | inr (true, fresh) ↦
            let kept : w.cloud ≡ w'.cloud = ground arith in
            let same : existing ≡ listing = ground arith in
            moved kept same (still-IsStored C store zone w.cloud existing reflects)
        | inr (false, stale) ↦ elim (Reply-cases (C.update_record w.cloud zone id sent)) [
          | inl (remote, s, e) ↦ elim (Option-cases (replace_first id remote existing)) [
            | inl gone ↦ absurd (ground arith)
            | inr (changed, got) ↦
                let named : remote.id ≡ id = ground arith in
                let kept : s ≡ w'.cloud = ground arith in
                let same : changed ≡ listing = ground arith in
                moved kept same
                  (updated-IsStored C store zone id w.cloud existing sent reflects e named got)
          ]
          | inr (f, s, e) ↦ absurd (ground arith)
        ]
      ]

  adopt-IsStored :
      (existing : Listing) (remote : DnsRecord) (w : World C) {label : Label} {listing : Listing}
      {w' : World C}
      → Reflects C store existing w.cloud zone
      → adopt C V r zone existing value remote w ≡ done (label, listing) w'
      → IsStored C store zone w.cloud w'.cloud listing
  unfolding adopt
  adopt-IsStored existing remote w {label} {listing} {w'} reflects h =
      let (sent, made) = desired-some V r value sound in
      elim (Reply-cases (Storage.set_provider_id w.db r.id zone remote.id)) [
        | inl (u, db, set) ↦ elim (Option-cases (up_to_date V r value remote)) [
          | inl gone ↦ absurd (ground arith)
          | inr (true, fresh) ↦
              let kept : w.cloud ≡ w'.cloud = ground arith in
              let same : existing ≡ listing = ground arith in
              moved kept same (still-IsStored C store zone w.cloud existing reflects)
          | inr (false, stale) ↦ elim (Reply-cases (C.update_record w.cloud zone remote.id sent)) [
            | inl (answer, s, e) ↦ elim (Option-cases (replace_first answer.id answer existing)) [
              | inl gone ↦ absurd (ground arith)
              | inr (changed, got) ↦
                  let echoed = (store.updated w.cloud zone remote.id sent e).0 in
                  let named : answer.id ≡ remote.id = ap (λ (x : DnsRecord). x.id) echoed in
                  let at_id : replace_first remote.id answer existing ≡ some changed =
                    subst (λ i. replace_first i answer existing ≡ some changed) named got in
                  let kept : s ≡ w'.cloud = ground arith in
                  let same : changed ≡ listing = ground arith in
                  moved kept same (
                    updated-IsStored C store zone remote.id w.cloud existing sent reflects e named
                      at_id)
            ]
            | inr (f, s, e) ↦ absurd (ground arith)
          ]
        ]
        | inr (f, db, set) ↦ absurd (ground arith)
      ]

  -- A successful reconciliation against what the provider holds in the zone returns what it then
  -- holds there, and leaves other zones.
  pub reconcile-IsStored :
      (existing : Listing) (w : World C) {label : Label} {listing : Listing} {w' : World C}
      → Reflects C store existing w.cloud zone
      → reconcile C V r zone existing value w ≡ done (label, listing) w'
      → IsStored C store zone w.cloud w'.cloud listing
  unfolding reconcile
  reconcile-IsStored existing w {label} {listing} {w'} reflects h =
      elim (Option-cases r.provider_record_id) [
        | inl unlinked ↦ elim (Option-cases (find_identity r existing)) [
          | inl gone ↦ absurd (ground arith)
          | inr (none, absent) ↦
              create_new-IsStored existing w {label = label} {listing = listing} {w' = w'} reflects
                (ground arith)
          | inr (some remote, present) ↦
              adopt-IsStored existing remote w {label = label} {listing = listing} {w' = w'}
                reflects (ground arith)
        ]
        | inr (id, known) ↦ elim (Option-cases (find (has_remote_id id) existing)) [
          | inl gone ↦ elim (Reply-cases (Storage.clear_provider_id w.db r.id)) [
            | inl (u, db, cleared) ↦
                create_new-IsStored existing (record w { db = db }) {label = label}
                  {listing = listing} {w' = w'} reflects
                  (sym (recreate-cleared C V r zone value existing w cleared) ∙ ground arith)
            | inr (f, db, refused) ↦ absurd (
                recreate_refused C V r zone value existing w {out = (label, listing)} {w' = w'}
                  refused (ground arith))
          ]
          | inr (current, found) ↦
              refresh-IsStored existing id current w {label = label} {listing = listing} {w' = w'}
                reflects (ground arith)
        ]
      ]
