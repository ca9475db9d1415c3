-- ===== src/Sync/Reconcile/Calls.antt =====
-- The calls that `reconcile` makes to the provider.
use vercel_ddns.Base.{
  ◌≡◌, ◌≢◌, ◌⊎◌, sym, subst, inl, inr, Bool-cases, Text, none, some, List, [], ◌∷◌, arith, text_eq,
  find, Option-cases,
}
use vercel_ddns.Base.Outcome.{Ran, done, world, Reply-cases, returned, errored}
use vercel_ddns.Net.Ipv6.{Ipv6}
use vercel_ddns.Storage
use vercel_ddns.Storage.{Record, Database, DbError}
use vercel_ddns.Cloudflare.Types
use vercel_ddns.Cloudflare.Types.{DnsRecord}
use vercel_ddns.Cloudflare.Client.{Client}
use vercel_ddns.Sync.Matching.{desired}
use vercel_ddns.Sync.World.{World, Call, create_record, update_record}
use vercel_ddns.Sync.Reconcile.{
  Label, Listing, create_new, recreate, refresh, adopt, reconcile, find_identity, has_remote_id,
}

module _ (C : Client) (V : Ipv6) (r : Record) (zone : Text) (value : Text) where
  -- A create in the zone, or an update of a record of the listing, of what the row asks for.
  pub data Write (existing : Listing) : Call → Type 0 where
    creates :
        (sent : Types.Record)
        → desired r value ≡ some sent
        → Write existing (create_record zone sent)
    updates :
        (id : Text) (sent : Types.Record) (remote : DnsRecord)
        → find (has_remote_id id) existing ≡ some remote
        → desired r value ≡ some sent
        → Write existing (update_record zone id sent)

  -- At most one write has been added to the calls.
  abbrev pub OneWrite : Listing → List Call → List Call → Type 0
  OneWrite existing before after =
      (after ≡ before) ⊎ ((call : Call) × Write existing call × (after ≡ call ∷ before))

  OneWrite-of :
      {existing : Listing} {before after : List Call} {call : Call}
      → Write existing call
      → (after ≡ before) ⊎ (after ≡ call ∷ before)
      → OneWrite existing before after
  OneWrite-of wr (inl e) = inl e
  OneWrite-of {call} wr (inr e) = inr (call, wr, e)

  create_new-calls :
      (existing : Listing) (w : World C)
      → OneWrite existing w.calls (world (create_new C V r zone existing value w)).calls
  unfolding create_new
  create_new-calls existing w = elim (Option-cases (desired r value)) [
    | inl gone ↦ ground arith
    | inr (sent, made) ↦ OneWrite-of (creates sent made) (ground arith)
  ]

  abbrev Bounded : Listing → World C → Ran (World C) (Label × Listing) → Type 0
  Bounded existing w ran = OneWrite existing w.calls (world ran).calls

  pub recreate-cleared :
      (existing : Listing) (w : World C) {u : Unit {0}} {db : Database}
      → Storage.clear_provider_id w.db r.id ≡ returned u db
      → recreate C V r zone existing value w
        ≡ create_new C V r zone existing value (record w { db = db })
  unfolding recreate
  recreate-cleared existing w e = ground arith

  pub recreate_refused :
      (existing : Listing) (w : World C) {f : DbError} {db : Database} {out : Label × Listing}
      {w' : World C}
      → Storage.clear_provider_id w.db r.id ≡ errored f db
      → recreate C V r zone existing value w ≢ done out w'
  unfolding recreate
  recreate_refused existing w e = ground arith

  recreate-calls :
      (existing : Listing) (w : World C)
      → OneWrite existing w.calls (world (recreate C V r zone existing value w)).calls
  unfolding recreate
  recreate-calls existing w = elim (Reply-cases (Storage.clear_provider_id w.db r.id)) [
    | inl (u, db, e) ↦
        subst (Bounded existing w) (sym (recreate-cleared existing w e))
          (create_new-calls existing (record w { db = db }))
    | inr (f, db, e) ↦ inl (ground arith)
  ]

  refresh-calls :
      (existing : Listing) (id : Text) (current : DnsRecord) (w : World C)
      → find (has_remote_id id) existing ≡ some current
      → OneWrite existing w.calls (world (refresh C V r zone existing value id current w)).calls
  unfolding refresh
  refresh-calls existing id current w at = elim (Option-cases (desired r value)) [
    | inl gone ↦ ground arith
    | inr (sent, made) ↦ OneWrite-of (updates id sent current at made) (ground arith)
  ]

  adopt-calls :
      (existing : Listing) (remote found : DnsRecord) (w : World C)
      → find (has_remote_id remote.id) existing ≡ some found
      → OneWrite existing w.calls (world (adopt C V r zone existing value remote w)).calls
  unfolding adopt
  adopt-calls existing remote found w at = elim (Option-cases (desired r value)) [
    | inl gone ↦ ground arith
    | inr (sent, made) ↦ OneWrite-of (updates remote.id sent found at made) (ground arith)
  ]

  -- A record of the listing is found there by its ID.
  pub find_identity-listed :
      (existing : Listing) (remote : DnsRecord)
      → find_identity r existing ≡ some (some remote)
      → (found : DnsRecord) × (find (has_remote_id remote.id) existing ≡ some found)
  unfolding find_identity
  find_identity-listed [] remote h = cc
  find_identity-listed (x ∷ existing) remote h = elim (Bool-cases (has_remote_id remote.id x)) [
    | inl hit ↦ (x, ground arith)
    | inr miss ↦
        let (found, e) = find_identity-listed existing remote (ground arith) in
        (found, ground arith)
  ]

  known-calls :
      (existing : Listing) (w : World C) (id : Text)
      → r.provider_record_id ≡ some id
      → Bounded existing w (reconcile C V r zone existing value w)
  unfolding reconcile
  known-calls existing w id e = elim (Option-cases (find (has_remote_id id) existing)) [
    | inl gone ↦ ground (arith, recreate-calls existing w)
    | inr (current, at) ↦ ground (arith, refresh-calls existing id current w at)
  ]

  unknown-calls :
      (existing : Listing) (w : World C)
      → r.provider_record_id ≡ none
      → Bounded existing w (reconcile C V r zone existing value w)
  unfolding reconcile
  unknown-calls existing w e = elim (Option-cases (find_identity r existing)) [
    | inl panics ↦ ground arith
    | inr (none, absent) ↦ ground (arith, create_new-calls existing w)
    | inr (some remote, present) ↦
        let (found, at) = find_identity-listed existing remote present in
        ground (arith, adopt-calls existing remote found w at)
  ]

  -- One reconciliation makes at most one write, in the zone that it was given: it creates what the
  -- row asks for, or updates to that a record that the zone's listing holds. It deletes nothing.
  pub reconcile-calls :
      (existing : Listing) (w : World C)
      → OneWrite existing w.calls (world (reconcile C V r zone existing value w)).calls
  reconcile-calls existing w = elim (Option-cases r.provider_record_id) [
    | inl e ↦ unknown-calls existing w e
    | inr (id, e) ↦ known-calls existing w id e
  ]
