-- ===== src/Sync/Reconcile/Placed.antt =====
-- What `create_new`, `refresh` and `adopt` (the branches of `reconcile` of src/sync.rs) leave when
-- they succeed.
use vercel_ddns.Base.{
  ℕ, ◌≡◌, ◌∙◌, sym, ap, subst, Text, true, false, Option, none, some, [], ◌∷◌, ◌++◌, arith, find,
  text_eq, option_eq, Option-cases, inl, inr,
}
use vercel_ddns.Base.Outcome.{done, Reply-cases, returned}
use vercel_ddns.Net.Ipv6.{Ipv6}
use vercel_ddns.Storage
use vercel_ddns.Storage.{
  Record, Database, find_row, with_provider, without_provider, turn_of, DbError,
}
use vercel_ddns.Cloudflare.Types
use vercel_ddns.Cloudflare.Types.{DnsRecord}
use vercel_ddns.Cloudflare.Client.{Client}
use vercel_ddns.Sync.Matching.{identity_matches, desired, up_to_date}
use vercel_ddns.Sync.Matching.Sound.{IsSound}
use vercel_ddns.Sync.Matching.Echo.{echo, echo-up_to_date, desired-some}
use vercel_ddns.Sync.World.{World}
use vercel_ddns.Sync.Reconcile.{
  Label, Listing, create_new, refresh, adopt, has_remote_id, replace_first,
}
use vercel_ddns.Sync.Reconcile.Convergence.{
  IsFaithful, Settled, relinked, find-replace_first, find-replace_first_ne, find-append,
  find-append_some,
}
use vercel_ddns.Sync.Reconcile.Place.{IsPlaced, set-IsPlaced, linked-IsPlaced, moved}

module _ (C : Client) (V : Ipv6) (r : Record) (zone value : Text) (sound : IsSound V r value)
    (faithful : IsFaithful C) where
  -- A record that was just written is settled.
  echoed :
      (id : Text) (remote : DnsRecord) (listing : Listing) {sent : Types.Record}
      → desired r value ≡ some sent
      → remote ≡ echo id sent
      → find (has_remote_id id) listing ≡ some remote
      → Settled V r value listing id
  echoed id remote listing made same found =
      let (mine, current) = echo-up_to_date V r value id sound made in
      (
        remote,
        found,
        subst (λ x. identity_matches r x ≡ some true) (sym same) mine,
        subst (λ x. up_to_date V r value x ≡ some true) (sym same) current,
      )

  -- What an answered create has made is settled in the listing that it is appended to.
  pub create_new-IsPlaced :
      (existing : Listing) (z p : Option Text) (now : ℕ) (w : World C) {label : Label}
      {listing : Listing} {w' : World C}
      → ((sent : Types.Record) (remote : DnsRecord) (s : C.State)
          → C.create_record w.cloud zone sent ≡ returned remote s
          → find (has_remote_id remote.id) existing ≡ none)
      → find_row r.id w.db.rows ≡ some (relinked r z p now)
      → create_new C V r zone existing value w ≡ done (label, listing) w'
      → IsPlaced V r zone value w.db existing w'.db listing
  unfolding create_new
  create_new-IsPlaced existing z p now w {label} {listing} {w'} fresh at h =
      let (sent, made) = desired-some V r value sound in
      elim (Reply-cases (C.create_record w.cloud zone sent)) [
        | inl (remote, s, e) ↦
            elim (Reply-cases (Storage.set_provider_id w.db r.id zone remote.id)) [
              | inl (u, db, set) ↦
                  let settled =
                    echoed remote.id remote (existing ++ (remote ∷ [])) made
                      (faithful.create-echo w.cloud zone sent remote s e)
                      (find-append remote existing (fresh sent remote s e)) in
                  let ended : IsPlaced V r zone value w.db existing db (existing ++ (remote ∷ [])) =
                    set-IsPlaced V r zone value w.db db remote.id existing
                      (existing ++ (remote ∷ [])) z p now at set settled
                      (λ k x other. find-append_some k remote x existing) in
                  let db_same : db ≡ w'.db = ground arith in
                  let appended : existing ++ (remote ∷ []) ≡ listing = ground arith in
                  moved V r zone value db_same appended ended
              | inr (f, db, set) ↦ absurd (ground arith)
            ]
        | inr (f, s, e) ↦ absurd (ground arith)
      ]

  pub refresh-IsPlaced :
      (existing : Listing) (id : Text) (current : DnsRecord) (w : World C) {label : Label}
      {listing : Listing} {w' : World C}
      → r.provider_record_id ≡ some id
      → r.zone_id ≡ some zone
      → find (has_remote_id id) existing ≡ some current
      → find_row r.id w.db.rows ≡ some r
      → refresh C V r zone existing value id current w ≡ done (label, listing) w'
      → IsPlaced V r zone value w.db existing w'.db listing
  unfolding refresh
  refresh-IsPlaced existing id current w {label} {listing} {w'} known there found at h =
      let (sent, made) = desired-some V r value sound in
      let mine : identity_matches r current ≡ some true = ground arith in
      elim (Option-cases (up_to_date V r value current)) [
        | inl gone ↦ absurd (ground arith)
        | inr (true, fresh) ↦
            let db_same : w.db ≡ w'.db = ground arith in
            let kept : existing ≡ listing = ground arith in
            moved V r zone value db_same kept (
              linked-IsPlaced V r zone value existing existing id w.db known there at
                (current, found, mine, fresh) (λ k x other h. h))
        | inr (false, stale) ↦ elim (Reply-cases (C.update_record w.cloud zone id sent)) [
          | inl (remote, s, e) ↦ elim (Option-cases (replace_first id remote existing)) [
            | inl gone ↦ absurd (ground arith)
            | inr (changed, got) ↦
                let named : remote.id ≡ id = ground arith in
                let settled =
                  echoed id remote changed made
                    (faithful.update-echo w.cloud zone id sent remote s e)
                    (find-replace_first id remote existing named got) in
                let db_same : w.db ≡ w'.db = ground arith in
                let kept : changed ≡ listing = ground arith in
                moved V r zone value db_same kept (
                  linked-IsPlaced V r zone value existing changed id w.db known there at settled
                    (λ k x other h. find-replace_first_ne k id remote existing named other got ∙ h))
          ]
          | inr (f, s, e) ↦ absurd (ground arith)
        ]
      ]

  pub adopt-IsPlaced :
      (existing : Listing) (remote : DnsRecord) (w : World C) {label : Label} {listing : Listing}
      {w' : World C}
      → identity_matches r remote ≡ some true
      → find (has_remote_id remote.id) existing ≡ some remote
      → find_row r.id w.db.rows ≡ some r
      → adopt C V r zone existing value remote w ≡ done (label, listing) w'
      → IsPlaced V r zone value w.db existing w'.db listing
  unfolding adopt
  adopt-IsPlaced existing remote w {label} {listing} {w'} mine found at h =
      let (sent, made) = desired-some V r value sound in
      elim (Reply-cases (Storage.set_provider_id w.db r.id zone remote.id)) [
        | inl (u, db, set) ↦ elim (Option-cases (up_to_date V r value remote)) [
          | inl gone ↦ absurd (ground arith)
          | inr (true, fresh) ↦
              let db_same : db ≡ w'.db = ground arith in
              let kept : existing ≡ listing = ground arith in
              moved V r zone value db_same kept (
                set-IsPlaced V r zone value w.db db remote.id existing existing r.zone_id
                  r.provider_record_id r.updated_at at set (remote, found, mine, fresh)
                  (λ k x other h. h))
          | inr (false, stale) ↦ elim (Reply-cases (C.update_record w.cloud zone remote.id sent)) [
            | inl (answer, s, e) ↦ elim (Option-cases (replace_first answer.id answer existing)) [
              | inl gone ↦ absurd (ground arith)
              | inr (changed, got) ↦
                  let same = faithful.update-echo w.cloud zone remote.id sent answer s e in
                  let named : answer.id ≡ remote.id = ap (λ (x : DnsRecord). x.id) same in
                  let at_id : replace_first remote.id answer existing ≡ some changed =
                    subst (λ i. replace_first i answer existing ≡ some changed) named got in
                  let settled =
                    echoed remote.id answer changed made same
                      (find-replace_first remote.id answer existing named at_id) in
                  let db_same : db ≡ w'.db = ground arith in
                  let kept : changed ≡ listing = ground arith in
                  moved V r zone value db_same kept (
                    set-IsPlaced V r zone value w.db db remote.id existing changed r.zone_id
                      r.provider_record_id r.updated_at at set settled
                      (λ k x other h.
                        find-replace_first_ne k remote.id answer existing named other at_id ∙ h))
            ]
            | inr (f, s, e) ↦ absurd (ground arith)
          ]
        ]
        | inr (f, db, set) ↦ absurd (ground arith)
      ]
