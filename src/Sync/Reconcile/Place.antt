-- ===== src/Sync/Reconcile/Place.antt =====
-- What a successful `reconcile` of src/sync.rs leaves of the row and of the listing.
use vercel_ddns.Base.{
  ℕ, ◌≡◌, ◌≢◌, ◌∙◌, refl, ap, subst, Text, Option, some, arith, find, text_eq, option_eq,
}
use vercel_ddns.Base.Int.{ℤ}
use vercel_ddns.Base.Outcome.{returned}
use vercel_ddns.Net.Ipv6.{Ipv6}
use vercel_ddns.Storage
use vercel_ddns.Storage.{
  Record, Database, find_row, with_provider, without_provider, turn_of, DbError,
}
use vercel_ddns.Cloudflare.Types.{DnsRecord}
use vercel_ddns.Sync.Reconcile.{Listing, has_remote_id}
use vercel_ddns.Sync.Reconcile.Linking.{set_provider_id-find_row, set_provider_id-eq-returned}
use vercel_ddns.Sync.Reconcile.Convergence.{Settled, relinked}

module _ (V : Ipv6) (r : Record) (zone value : Text) where
  -- What a successful reconciliation leaves: the row is linked to a record of the listing that is
  -- up to date, and other rows and the records of other IDs are as they were.
  pub record IsPlaced (before : Database) (existing : Listing) (db : Database) (listing : Listing)
      : Type 0 where
    pub id : Text
    pub now : ℕ
    pub held : find_row r.id db.rows ≡ some (relinked r (some zone) (some id) now)
    pub settled : Settled V r value listing id
    pub rows : (k : ℤ) → k ≢ r.id → find_row k db.rows ≡ find_row k before.rows
    pub kept :
        (k : Text) (x : DnsRecord)
        → k ≢ id
        → find (has_remote_id k) existing ≡ some x
        → find (has_remote_id k) listing ≡ some x

  abbrev pub Kept : Text → Listing → Listing → Type 0
  Kept id existing listing =
      (k : Text) (x : DnsRecord)
      → k ≢ id
      → find (has_remote_id k) existing ≡ some x
      → find (has_remote_id k) listing ≡ some x

  pub set-IsPlaced :
      (db db' : Database) (id : Text) (existing listing : Listing) (z p : Option Text) (now : ℕ)
      {u : Unit {0}}
      → find_row r.id db.rows ≡ some (relinked r z p now)
      → Storage.set_provider_id db r.id zone id ≡ returned u db'
      → Settled V r value listing id
      → Kept id existing listing
      → IsPlaced db existing db' listing
  set-IsPlaced db db' id existing listing z p now at set settled kept =
      let (held, _) = set_provider_id-eq-returned db r.id zone id at set in
      record {
        id = id;
        now = (turn_of db).now;
        held = held;
        settled = settled;
        rows = set_provider_id-find_row db r.id zone id at set;
        kept = kept;
      }

  pub linked-IsPlaced :
      (existing listing : Listing) (id : Text) (db : Database)
      → r.provider_record_id ≡ some id
      → r.zone_id ≡ some zone
      → find_row r.id db.rows ≡ some r
      → Settled V r value listing id
      → Kept id existing listing
      → IsPlaced db existing db listing
  linked-IsPlaced existing listing id db known there at settled kept = record {
    id = id;
    now = r.updated_at;
    held = at ∙ ap some (ground (arith, known, there));
    settled = settled;
    rows = λ k other. refl;
    kept = kept;
  }

  pub moved :
      {before db db' : Database} {existing changed listing : Listing}
      → db ≡ db'
      → changed ≡ listing
      → IsPlaced before existing db changed
      → IsPlaced before existing db' listing
  moved {before} {db} {db'} {existing} {changed} {listing} e f p =
      subst (λ d. IsPlaced before existing d listing) e (subst (IsPlaced before existing db) f p)
