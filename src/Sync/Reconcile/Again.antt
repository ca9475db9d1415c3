-- ===== src/Sync/Reconcile/Again.antt =====
-- `reconcile` of src/sync.rs, called again after a success.
use vercel_ddns.Base.{
  ◌≡◌, ◌∙◌, refl, sym, Text, none, some, arith, find, text_eq, option_eq, Option-cases, inl, inr,
}
use vercel_ddns.Base.Outcome.{done, Reply-cases, returned}
use vercel_ddns.Net.Ipv6.{Ipv6}
use vercel_ddns.Storage
use vercel_ddns.Storage.{
  Record, Database, find_row, with_provider, without_provider, turn_of, DbError,
}
use vercel_ddns.Cloudflare.Types
use vercel_ddns.Cloudflare.Types.{DnsRecord}
use vercel_ddns.Cloudflare.Client.{Client}
use vercel_ddns.Sync.Matching.Sound.{IsSound}
use vercel_ddns.Sync.World.{World}
use vercel_ddns.Sync.Reconcile.{Label, unchanged, Listing, reconcile, find_identity, has_remote_id}
use vercel_ddns.Sync.Reconcile.Calls.{recreate-cleared, recreate_refused}
use vercel_ddns.Sync.Reconcile.Linking.{clear_provider_id-find_row, clear_provider_id-eq-returned}
use vercel_ddns.Sync.Reconcile.Place.{IsPlaced}
use vercel_ddns.Sync.Reconcile.Placed.{create_new-IsPlaced, refresh-IsPlaced, adopt-IsPlaced}
use vercel_ddns.Sync.Reconcile.Convergence.{
  IsFaithful, Indexed, relinked, find_identity-Among, reconcile-Settled, Settled-relinked,
}

module _ (C : Client) (V : Ipv6) (r : Record) (zone value : Text) (sound : IsSound V r value)
    (faithful : IsFaithful C) where
  -- The row as the database now holds it is left alone by the next reconciliation, in any world.
  abbrev pub Converged : Database → Listing → Type 0
  Converged db listing =
      (r' : Record) × (find_row r.id db.rows ≡ some r')
      × ((w : World C) → reconcile C V r' zone listing value w ≡ done (unchanged, listing) w)

  abbrev Placed : Database → Listing → Database → Listing → Type 0
  Placed = IsPlaced V r zone value

  pub reconcile-IsPlaced :
      (existing : Listing) (w : World C) {label : Label} {listing : Listing} {w' : World C}
      → Indexed existing
      → ((sent : Types.Record) (remote : DnsRecord) (s' : C.State)
          → C.create_record w.cloud zone sent ≡ returned remote s'
          → find (has_remote_id remote.id) existing ≡ none)
      → find_row r.id w.db.rows ≡ some r
      → reconcile C V r zone existing value w ≡ done (label, listing) w'
      → Placed w.db existing w'.db listing
  unfolding reconcile
  reconcile-IsPlaced existing w {label} {listing} {w'} indexed fresh at h =
      elim (Option-cases r.provider_record_id) [
        | inl unlinked ↦ elim (Option-cases (find_identity r existing)) [
          | inl gone ↦ absurd (ground arith)
          | inr (none, absent) ↦
              create_new-IsPlaced C V r zone value sound faithful existing r.zone_id
                r.provider_record_id r.updated_at w {label = label} {listing = listing} {w' = w'}
                fresh at (ground arith)
          | inr (some remote, present) ↦
              let (among, mine) = find_identity-Among r existing present in
              adopt-IsPlaced C V r zone value sound faithful existing remote w {label = label}
                {listing = listing} {w' = w'} mine (indexed remote among) at (ground arith)
        ]
        | inr (id, known) ↦ elim (Option-cases (find (has_remote_id id) existing)) [
          | inl gone ↦ elim (Reply-cases (Storage.clear_provider_id w.db r.id)) [
            | inl (u, db, cleared) ↦
                let placed =
                  create_new-IsPlaced C V r zone value sound faithful existing none none
                    (turn_of w.db).now (record w { db = db }) {label = label} {listing = listing}
                    {w' = w'} fresh (clear_provider_id-eq-returned w.db r.id at cleared)
                    (sym (recreate-cleared C V r zone value existing w cleared) ∙ ground arith) in
                record {
                  id = placed.id;
                  now = placed.now;
                  held = placed.held;
                  settled = placed.settled;
                  kept = placed.kept;
                  rows = λ k other.
                      placed.rows k other ∙ clear_provider_id-find_row w.db r.id at cleared k other;
                }
            | inr (f, db, refused) ↦ absurd (
                recreate_refused C V r zone value existing w {out = (label, listing)} {w' = w'}
                  refused (ground arith))
          ]
          | inr (current, found) ↦
              refresh-IsPlaced C V r zone value sound faithful existing id current w {label = label}
                {listing = listing} {w' = w'} known (ground arith) found at (ground arith)
        ]
      ]

  -- If a reconciliation of a sound row that is in the table succeeds, the next one, of the row that
  -- the database then holds against the listing that the first one left, calls nothing and changes
  -- nothing. (The provider keeps what it is sent, the listing holds no ID twice, and a record that
  -- the provider creates has an ID that is not in the listing.)
  pub reconcile_again :
      (existing : Listing) (w : World C) {label : Label} {listing : Listing} {w' : World C}
      → Indexed existing
      → ((sent : Types.Record) (remote : DnsRecord) (s' : C.State)
          → C.create_record w.cloud zone sent ≡ returned remote s'
          → find (has_remote_id remote.id) existing ≡ none)
      → find_row r.id w.db.rows ≡ some r
      → reconcile C V r zone existing value w ≡ done (label, listing) w'
      → Converged w'.db listing
  reconcile_again existing w {label} {listing} {w'} indexed fresh at h =
      let placed =
        reconcile-IsPlaced existing w {label = label} {listing = listing} {w' = w'} indexed fresh at
          h in
      let row = relinked r (some zone) (some placed.id) placed.now in
      (
        row,
        placed.held,
        λ later. reconcile-Settled C V row zone value placed.id listing later refl refl (
            Settled-relinked V r (some zone) (some placed.id) placed.now value placed.id listing
              placed.settled),
      )
