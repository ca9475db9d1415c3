-- ===== src/Sync/Reconcile/Panics.antt =====
-- The `unwrap`s that `reconcile` of src/sync.rs meets.
use vercel_ddns.Base.{
  ◌≡◌, ◌≢◌, sym, subst, inl, inr, Text, none, some, [], ◌∷◌, arith, text_eq, find, Option-cases,
}
use vercel_ddns.Base.Outcome.{Ran, done, failed, panicked, Reply-cases, returned}
use vercel_ddns.Net.Ipv6.{Ipv6}
use vercel_ddns.Storage
use vercel_ddns.Storage.{Record, Database}
use vercel_ddns.Cloudflare.Types
use vercel_ddns.Cloudflare.Types.{DnsRecord}
use vercel_ddns.Cloudflare.Client.{Client}
use vercel_ddns.Sync.Matching.Sound.{IsSound, identity_matches-ne-none, up_to_date-ne-none}
use vercel_ddns.Sync.Matching.Echo.{desired-some}
use vercel_ddns.Sync.World.{World}
use vercel_ddns.Sync.Reconcile.{
  Listing, create_new, recreate, refresh, adopt, reconcile, find_identity, has_remote_id,
  replace_first,
}
use vercel_ddns.Sync.Reconcile.Calls.{recreate-cleared, find_identity-listed}

abbrev pub NoPanic {ℓ κ} : {W : Type ℓ} {A : Type κ} → Ran W A → Type 0
NoPanic (done _ _) = Unit
NoPanic (failed _ _) = Unit
NoPanic (panicked _) = ⊥

-- An answered update is of the record that was asked for.
abbrev pub KeepsIds : Client → Type 0
KeepsIds C =
    (s : C.State) (zone id : Text) (sent : Types.Record) (remote : DnsRecord) (s' : C.State)
    → C.update_record s zone id sent ≡ returned remote s'
    → remote.id ≡ id

replace_first-ne-none :
    (id : Text) (remote : DnsRecord) (existing : Listing) {found : DnsRecord}
    → find (has_remote_id id) existing ≡ some found
    → replace_first id remote existing ≢ none
unfolding replace_first
replace_first-ne-none id remote [] h = cc
replace_first-ne-none id remote (x ∷ existing) {found} h =
    ground (arith, replace_first-ne-none id remote existing {found = found})

module _ (C : Client) (V : Ipv6) (r : Record) (zone : Text) (value : Text)
    (sound : IsSound V r value) where
  find_identity-ne-none : (existing : Listing) → find_identity r existing ≢ none
  unfolding find_identity
  find_identity-ne-none [] = ground arith
  find_identity-ne-none (x ∷ existing) =
      ground (arith, find_identity-ne-none existing, identity_matches-ne-none V sound x)

  create_new-NoPanic :
      (existing : Listing) (w : World C) → NoPanic (create_new C V r zone existing value w)
  unfolding create_new
  create_new-NoPanic existing w =
      let (sent, made) = desired-some V r value sound in
      elim (Reply-cases (C.create_record w.cloud zone sent)) [
        | inl (remote, s, e) ↦ ground (arith, identity_matches-ne-none V sound remote)
        | inr (f, s, e) ↦ ground arith
      ]

  recreate-NoPanic :
      (existing : Listing) (w : World C) → NoPanic (recreate C V r zone existing value w)
  unfolding recreate
  recreate-NoPanic existing w = elim (Reply-cases (Storage.clear_provider_id w.db r.id)) [
    | inl (u, db, e) ↦
        subst NoPanic (sym (recreate-cleared C V r zone value existing w e))
          (create_new-NoPanic existing (record w { db = db }))
    | inr (f, db, e) ↦ ground arith
  ]

  module _ (keeps : KeepsIds C) where
    refresh-NoPanic :
        (existing : Listing) (id : Text) (current : DnsRecord) (w : World C)
        → find (has_remote_id id) existing ≡ some current
        → NoPanic (refresh C V r zone existing value id current w)
    unfolding refresh
    refresh-NoPanic existing id current w at =
        let (sent, made) = desired-some V r value sound in
        elim (Reply-cases (C.update_record w.cloud zone id sent)) [
          | inl (remote, s, e) ↦ ground (
            arith,
            identity_matches-ne-none V sound current,
            identity_matches-ne-none V sound remote,
            up_to_date-ne-none V sound current,
            replace_first-ne-none id remote existing at,
          )
          | inr (f, s, e) ↦
              ground (
                arith,
                identity_matches-ne-none V sound current,
                up_to_date-ne-none V sound current,
              )
        ]

    adopt-NoPanic :
        (existing : Listing) (found remote : DnsRecord) (w : World C)
        → find (has_remote_id remote.id) existing ≡ some found
        → NoPanic (adopt C V r zone existing value remote w)
    unfolding adopt
    adopt-NoPanic existing found remote w at =
        let (sent, made) = desired-some V r value sound in
        elim (Reply-cases (C.update_record w.cloud zone remote.id sent)) [
          | inl (answer, s, e) ↦
              let same = keeps w.cloud zone remote.id sent answer s e in
              let listed : find (has_remote_id answer.id) existing ≡ some found = rw same at in
              ground (
                arith,
                up_to_date-ne-none V sound remote,
                replace_first-ne-none answer.id answer existing listed,
              )
          | inr (f, s, e) ↦ ground (arith, up_to_date-ne-none V sound remote)
        ]

    -- A reconciliation of a sound row ends with a label or an error.
    pub reconcile-NoPanic :
        (existing : Listing) (w : World C) → NoPanic (reconcile C V r zone existing value w)
    unfolding reconcile
    reconcile-NoPanic existing w = elim (Option-cases r.provider_record_id) [
      | inl e ↦ unknown e
      | inr (id, e) ↦ elim (Option-cases (find (has_remote_id id) existing)) [
        | inl gone ↦ ground (arith, recreate-NoPanic existing w)
        | inr (current, at) ↦ ground (arith, refresh-NoPanic existing id current w at)
      ]
    ]
      where
        unknown : r.provider_record_id ≡ none → NoPanic (reconcile C V r zone existing value w)
        unknown e = elim (Option-cases (find_identity r existing)) [
          | inl panics ↦ absurd (find_identity-ne-none existing panics)
          | inr (none, absent) ↦ ground (arith, create_new-NoPanic existing w)
          | inr (some remote, present) ↦
              let (found, at) = find_identity-listed C V r zone value existing remote present in
              ground (arith, adopt-NoPanic existing found remote w at)
        ]
