-- ===== src/Sync/Reconcile/Adoption.antt =====
-- The branch of `reconcile` that takes over a record of the listing.
use vercel_ddns.Base.{
  ℕ, ◌≡◌, refl, inl, inr, Text, codes, true, false, none, some, List, [], ◌∷◌, arith, ◌==◌, text_eq,
  option_eq, Option-cases,
}
use vercel_ddns.Base.Int.{ℤ, int_eq}
use vercel_ddns.Base.Outcome.{failed, errored, Reply-cases}
use vercel_ddns.Net.Ipv6.{Ipv6}
use vercel_ddns.Storage.{
  Record, Database, DbError, find_row, others, conflicts, clashes, write_row, set_provider_id,
  with_provider, turn_of,
}
use vercel_ddns.Cloudflare.Types.{DnsRecord}
use vercel_ddns.Cloudflare.Client.{Client}
use vercel_ddns.Sync.World.{World}
use vercel_ddns.Sync.Reconcile.{Listing, adopt, reconcile, find_identity}
use vercel_ddns.Storage.Finding.{find_row-id}

conflicts-others :
    (row s : Record) (id : ℤ) (rows : List Record)
    → find_row s.id rows ≡ some s
    → (s.id == id) ≡ false
    → clashes row s ≡ true
    → conflicts row (others id rows) ≡ true
unfolding find_row conflicts others
conflicts-others row s id [] at apart clash = cc
conflicts-others row s id (t ∷ rows) at apart clash = ground (arith, conflicts-others row s id rows)

-- The row `s` knows the provider's record already.
pub record IsTaken (db : Database) (id : ℤ) (zone provider_id : Text) (s : Record) : Type 0 where
  pub held : find_row s.id db.rows ≡ some s
  pub apart : (s.id == id) ≡ false
  pub in_zone : s.zone_id ≡ some zone
  pub knows : s.provider_record_id ≡ some provider_id

clashes-linked :
    (r s : Record) (now : ℕ) (zone id : Text)
    → s.zone_id ≡ some zone
    → s.provider_record_id ≡ some id
    → clashes (with_provider now zone id r) s ≡ true
unfolding clashes
clashes-linked r s now zone id z p = ground arith

set_provider_id-IsTaken :
    (db : Database) (id : ℤ) (zone provider_id : Text) (s : Record)
    → IsTaken db id zone provider_id s
    → (e : DbError) × (db' : Database) × (set_provider_id db id zone provider_id ≡ errored e db')
      × (db'.rows ≡ db.rows)
unfolding set_provider_id write_row
set_provider_id-IsTaken db id zone provider_id s taken =
    elim (Reply-cases (set_provider_id db id zone provider_id)) [
      | inr (e, db', got) ↦ (e, db', got, ground arith)
      | inl (u, db', got) ↦ elim (Option-cases (find_row id db.rows)) [
        | inl gone ↦ absurd (ground arith)
        | inr (r, at) ↦
            let row = with_provider (turn_of db).now zone provider_id r in
            let clash =
              clashes-linked r s (turn_of db).now zone provider_id taken.in_zone taken.knows in
            let named = find_row-id id db.rows at in
            let no = conflicts-others row s id db.rows taken.held taken.apart clash in
            absurd (ground arith)
      ]
    ]

module _ (C : Client) (V : Ipv6) (r : Record) (zone value : Text) where
  -- If the first record of the listing with the identity of an unlinked row is another row's, the
  -- row is never synced: its reconciliation makes no call, leaves every row as it is and fails.
  pub reconcile-IsTaken :
      (existing : Listing) (w : World C) (remote : DnsRecord) (s : Record)
      → r.provider_record_id ≡ none
      → find_identity r existing ≡ some (some remote)
      → IsTaken w.db r.id zone remote.id s
      → (w' : World C) × (reconcile C V r zone existing value w
          ≡ failed (codes "provider record ID could not be saved") w')
        × (w'.calls ≡ w.calls)
        × (w'.db.rows ≡ w.db.rows)
  unfolding reconcile adopt
  reconcile-IsTaken existing w remote s unlinked first taken =
      let (e, db, refused, same) = set_provider_id-IsTaken w.db r.id zone remote.id s taken in
      (record w { db = db }, ground arith, refl, same)
