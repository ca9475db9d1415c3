-- ===== src/Sync/Reconcile/Convergence.antt =====
-- `reconcile` of src/sync.rs on a row whose record is in the listing and up to date.
use vercel_ddns.Base.{
  ℕ, ◌≡◌, ◌≢◌, ◌⊎◌, Text, true, Option, none, some, [], ◌∷◌, ◌++◌, arith, find, text_eq, option_eq,
  Option-cases, inl, inr,
}
use vercel_ddns.Base.Outcome.{done, returned}
use vercel_ddns.Net.Ipv6.{Ipv6}
use vercel_ddns.Storage.{Record}
use vercel_ddns.Cloudflare.Types
use vercel_ddns.Cloudflare.Types.{DnsRecord}
use vercel_ddns.Cloudflare.Client.{Client}
use vercel_ddns.Sync.Matching.{identity_matches, content_matches, up_to_date}
use vercel_ddns.Sync.Matching.Echo.{echo}
use vercel_ddns.Sync.World.{World}
use vercel_ddns.Sync.Reconcile.{
  unchanged, Listing, refresh, reconcile, find_identity, has_remote_id, replace_first,
}

-- A provider that keeps what it is sent: its answer to a write is the record as it was sent.
pub record IsFaithful (C : Client) : Type 0 where
  pub create-echo :
      (s : C.State) (zone : Text) (sent : Types.Record) (remote : DnsRecord) (s' : C.State)
      → C.create_record s zone sent ≡ returned remote s'
      → remote ≡ echo remote.id sent
  pub update-echo :
      (s : C.State) (zone id : Text) (sent : Types.Record) (remote : DnsRecord) (s' : C.State)
      → C.update_record s zone id sent ≡ returned remote s'
      → remote ≡ echo id sent

-- Every record of a listing is found by its ID: no two records share one.
abbrev pub Among : DnsRecord → Listing → Type 0
Among x [] = ⊥
Among x (y ∷ listing) = (x ≡ y) ⊎ Among x listing

abbrev pub Indexed : Listing → Type 0
Indexed listing = (x : DnsRecord) → Among x listing → find (has_remote_id x.id) listing ≡ some x

-- The listing holds the row's record, up to date, under this ID.
abbrev pub Settled : Ipv6 → Record → Text → Listing → Text → Type 0
Settled V r value listing id =
    (remote : DnsRecord) × (find (has_remote_id id) listing ≡ some remote)
    × (identity_matches r remote ≡ some true)
    × (up_to_date V r value remote ≡ some true)

pub find-replace_first :
    (id : Text) (remote : DnsRecord) (listing : Listing) {changed : Listing}
    → remote.id ≡ id
    → replace_first id remote listing ≡ some changed
    → find (has_remote_id id) changed ≡ some remote
unfolding replace_first
find-replace_first id remote [] e h = cc
find-replace_first id remote (x ∷ listing) {changed} e h =
    elim (Option-cases (replace_first id remote listing)) [
      | inl gone ↦ ground arith
      | inr (rest, got) ↦
          let ih = find-replace_first id remote listing {changed = rest} e got in ground arith
    ]

pub find-append :
    (remote : DnsRecord) (listing : Listing)
    → find (has_remote_id remote.id) listing ≡ none
    → find (has_remote_id remote.id) (listing ++ (remote ∷ [])) ≡ some remote
find-append remote [] h = ground arith
find-append remote (x ∷ listing) h = ground (arith, find-append remote listing)

-- A write to a listing leaves the records of other IDs.
pub find-replace_first_ne :
    (k id : Text) (remote : DnsRecord) (listing : Listing) {changed : Listing}
    → remote.id ≡ id
    → k ≢ id
    → replace_first id remote listing ≡ some changed
    → find (has_remote_id k) changed ≡ find (has_remote_id k) listing
unfolding replace_first
find-replace_first_ne k id remote [] e other h = cc
find-replace_first_ne k id remote (x ∷ listing) {changed} e other h =
    elim (Option-cases (replace_first id remote listing)) [
      | inl gone ↦ ground arith
      | inr (rest, got) ↦
          let ih = find-replace_first_ne k id remote listing {changed = rest} e other got in
          ground arith
    ]

pub find-append_some :
    (k : Text) (remote x : DnsRecord) (listing : Listing)
    → find (has_remote_id k) listing ≡ some x
    → find (has_remote_id k) (listing ++ (remote ∷ [])) ≡ some x
find-append_some k remote x [] h = cc
find-append_some k remote x (y ∷ listing) h = ground (arith, find-append_some k remote x listing)

pub find_identity-Among :
    (r : Record) (listing : Listing) {remote : DnsRecord}
    → find_identity r listing ≡ some (some remote)
    → Among remote listing × (identity_matches r remote ≡ some true)
unfolding find_identity
find_identity-Among r [] h = cc
find_identity-Among r (x ∷ listing) {remote} h =
    ground (arith, find_identity-Among r listing {remote = remote})

-- A settled row, linked to its record, is left alone, in any world.
pub reconcile-Settled :
    (C : Client) (V : Ipv6) (r : Record) (zone value id : Text) (listing : Listing) (w : World C)
    → r.provider_record_id ≡ some id
    → r.zone_id ≡ some zone
    → Settled V r value listing id
    → reconcile C V r zone listing value w ≡ done (unchanged, listing) w
unfolding reconcile refresh
reconcile-Settled C V r zone value id listing w linked there (remote, at, mine, fresh) =
    ground arith

-- What the database knows of the provider's record plays no part in the tests.
abbrev pub relinked : Record → Option Text → Option Text → ℕ → Record
relinked r zone id now = record r { zone_id = zone; provider_record_id = id; updated_at = now }

pub Settled-relinked :
    (V : Ipv6) (r : Record) (z p : Option Text) (now : ℕ) (value at : Text) (listing : Listing)
    → Settled V r value listing at
    → Settled V (relinked r z p now) value listing at
unfolding identity_matches up_to_date content_matches
Settled-relinked V r z p now value at listing (remote, found, mine, fresh) =
    (remote, found, mine, fresh)
