-- ===== src/Sync/Reconcile/Recovery.antt =====
-- `create_new` of `reconcile` in src/sync.rs when the ID of the new record cannot be stored, and
-- the reconciliation after it, on a provider that is a store.
use vercel_ddns.Base.{
  ◌≡◌, ◌∙◌, refl, sym, subst, Text, codes, true, false, none, some, [], ◌∷◌, arith, find, text_eq,
  option_eq, Option-cases, Bool-cases, is_nil, inl, inr,
}
use vercel_ddns.Base.Outcome.{Ran, done, failed, Reply, returned, errored}
use vercel_ddns.Net.Ipv6.{Ipv6}
use vercel_ddns.Storage
use vercel_ddns.Storage.{Record, Database, DbError}
use vercel_ddns.Cloudflare.Types
use vercel_ddns.Cloudflare.Types.{DnsRecord}
use vercel_ddns.Cloudflare.Client.{Client}
use vercel_ddns.Sync.Matching.{identity_matches, desired, up_to_date}
use vercel_ddns.Sync.Matching.Sound.{IsSound, identity_matches-ne-none}
use vercel_ddns.Sync.Matching.Echo.{echo-up_to_date}
use vercel_ddns.Sync.World
use vercel_ddns.Sync.World.{World}
use vercel_ddns.Sync.Reconcile.{
  Label, unchanged, Listing, create_new, adopt, reconcile, find_identity, has_remote_id,
}
use vercel_ddns.Sync.Reconcile.Convergence.{Among}
use vercel_ddns.Sync.Reconcile.Store.{IsStore, Unrepeated-Indexed}
use vercel_ddns.Sync.Reconcile.Reflect.{Reflects}

-- If no record of a listing has the identity, none of them does.
find_identity-none :
    (r : Record) (x : DnsRecord) (listing : Listing)
    → find_identity r listing ≡ some none
    → Among x listing
    → identity_matches r x ≡ some false
unfolding find_identity
find_identity-none r x [] h m = absurd m
find_identity-none r x (y ∷ listing) h (inl e) = ground arith
find_identity-none r x (y ∷ listing) h (inr m) = ground (arith, find_identity-none r x listing)

-- The only record with the identity is found.
find_identity-only :
    (V : Ipv6) (r : Record) (value : Text) (remote : DnsRecord) (listing : Listing)
    → IsSound V r value
    → identity_matches r remote ≡ some true
    → Among remote listing
    → ((x : DnsRecord) → Among x listing → identity_matches r x ≡ some true → x ≡ remote)
    → find_identity r listing ≡ some (some remote)
unfolding find_identity
find_identity-only V r value remote [] sound mine m only = absurd m
find_identity-only V r value remote (y ∷ listing) sound mine m only =
    elim (Option-cases (identity_matches r y)) [
      | inl panics ↦ absurd (identity_matches-ne-none V sound y panics)
      | inr (true, hit) ↦ let same = only y (inl refl) hit in ground arith
      | inr (false, miss) ↦ elim m [
        | inl e ↦ absurd (ground arith)
        | inr later ↦
            let rest =
              find_identity-only V r value remote listing sound mine later
                (λ x among. only x (inr among)) in
            ground arith
      ]
    ]

Among-find :
    (k : Text) (x : DnsRecord) (listing : Listing)
    → find (has_remote_id k) listing ≡ some x
    → Among x listing × (x.id ≡ k)
Among-find k x [] h = cc
Among-find k x (y ∷ listing) h = elim (Bool-cases (has_remote_id k y)) [
  | inl hit ↦ (inl (ground arith), ground arith)
  | inr miss ↦ let (m, e) = Among-find k x listing (ground arith) in (inr m, e)
]

-- What the next reconciliation does: it links the row, if the database lets it.
abbrev pub linking :
    {C : Client}
    → Listing
    → World C
    → Reply Database DbError (Unit {0})
    → Ran (World C) (Label × Listing)
linking listing later (returned _ db) = done (unchanged, listing) (record later { db = db })
linking listing later (errored _ db) =
    failed (codes "provider record ID could not be saved") (record later { db = db })

module _ (C : Client) (store : IsStore C) (V : Ipv6) (r : Record) (zone value : Text)
    (sound : IsSound V r value) (existing : Listing) (w : World C) {sent : Types.Record}
    {remote : DnsRecord} {s : C.State} (made : desired r value ≡ some sent)
    (created : C.create_record w.cloud zone sent ≡ returned remote s) where
  own_identity : (identity_matches r remote ≡ some true) × (up_to_date V r value remote ≡ some true)
  own_identity =
      let same = (store.created w.cloud zone sent created).0 in
      let (mine, fresh) = echo-up_to_date V r value remote.id sound made in
      (
        subst (λ x. identity_matches r x ≡ some true) (sym same) mine,
        subst (λ x. up_to_date V r value x ≡ some true) (sym same) fresh,
      )

  -- Later the created record is the only one with the row's identity.
  created-find_identity :
      (listing : Listing) (later : C.State)
      → Reflects C store existing w.cloud zone
      → find_identity r existing ≡ some none
      → Reflects C store listing later zone
      → ((k : Text) → store.view later zone k ≡ store.view s zone k)
      → find_identity r listing ≡ some (some remote)
  created-find_identity listing later before absent now same =
      let (echoed, fresh, present, rest, elsewhere) = store.created w.cloud zone sent created in
      let (among, named) =
        Among-find remote.id remote listing (now.lookup remote.id ∙ same remote.id ∙ present) in
      find_identity-only V r value remote listing sound own_identity.0 among (λ x m mine.
        let held : store.view s zone x.id ≡ some x =
          sym (same x.id) ∙ sym (now.lookup x.id) ∙ Unrepeated-Indexed listing now.unrepeated x m in
        elim (text_eq.dec x.id remote.id) [
          | yes e ↦
              let at : store.view s zone x.id ≡ some remote =
                subst (λ k. store.view s zone k ≡ some remote) (sym e) present in
              ground (arith, held, at)
          | no other ↦
              let (old, _) =
                Among-find x.id x existing (before.lookup x.id ∙ sym (rest x.id other) ∙ held) in
              let not_mine = find_identity-none r x existing absent old in
              absurd (ground (arith, mine, not_mine))
        ])

  -- If a record has been created for an unlinked row, whose identity no record of the zone had, and
  -- its ID cannot be stored, the reconciliation fails; a later one, of the row against what the
  -- provider then lists of the same records, makes no call: all it does is link the row to the
  -- record that the first one created, which is up to date, if the database answers.
  -- (The row is sound, and the provider is a store and gives the record an ID.)
  pub create_new_recovers :
      {f : DbError} {db : Database} (listing : Listing) (later : World C)
      → r.provider_record_id ≡ none
      → Reflects C store existing w.cloud zone
      → find_identity r existing ≡ some none
      → is_nil remote.id ≡ false
      → Storage.set_provider_id w.db r.id zone remote.id ≡ errored f db
      → Reflects C store listing later.cloud zone
      → ((k : Text) → store.view later.cloud zone k ≡ store.view s zone k)
      → (reconcile C V r zone existing value w
          ≡ failed
              (codes "created record ID could not be saved")
              (record w { db = db; cloud = s; calls = World.create_record zone sent ∷ w.calls }))
        × (reconcile C V r zone listing value later
            ≡ linking listing later (Storage.set_provider_id later.db r.id zone remote.id))
  unfolding reconcile create_new adopt
  create_new_recovers {f} {db} listing later unlinked before absent given refused now same =
      let (mine, fresh) = own_identity in
      let again = created-find_identity listing later.cloud before absent now same in
      (ground (arith, mine, given, refused, created, made), ground (arith, again, fresh, unlinked))
