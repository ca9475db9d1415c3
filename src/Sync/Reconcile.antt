-- ===== src/Sync/Reconcile.antt =====
-- `reconcile` of src/sync.rs. The listing of the zone is passed in and, on success, returned: the
-- source changes it only as the last step of a branch.
pub mod Calls
pub mod Panics
pub mod Linking
pub mod Convergence
pub mod Place
pub mod Placed
pub mod Store
pub mod Reflect
pub mod Stored
pub mod Recovery
pub mod Again
pub mod Adoption
pub mod Edits
use vercel_ddns.Base.{
  Text, codes, Bool, true, false, ◌&&◌, ◌||◌, not, Option, none, some, List, [], ◌∷◌, ◌++◌, ◌==◌,
  ◌!=◌, text_eq, option_eq, if◌then◌else◌, find, is_nil,
}
use vercel_ddns.Base.Outcome.{Act, pure, fail, ◌>>=◌, ◌>>◌}
use vercel_ddns.Net.Ipv6.{Ipv6}
use vercel_ddns.Storage
use vercel_ddns.Storage.{Record}
use vercel_ddns.Cloudflare.Types.{DnsRecord}
use vercel_ddns.Cloudflare.Client.{Client}
use vercel_ddns.Sync.Matching.{identity_matches, desired, up_to_date}
use vercel_ddns.Sync.World.{World, create_record, update_record, stored, asked, unwrap}

pub data Label : Type 0 where
  created updated unchanged : Label

abbrev pub Listing : Type 0
Listing = List DnsRecord

abbrev pub has_remote_id : Text → DnsRecord → Bool
has_remote_id id remote = remote.id == id

-- `existing[existing.iter().position(|r| r.id == id).unwrap()] = remote`
unfoldable pub replace_first : Text → DnsRecord → Listing → Option Listing
replace_first id remote [] = none
replace_first id remote (r ∷ existing) =
    let rest = replace_first id remote existing in
    if r.id == id
    then some (remote ∷ existing)
    else elim rest [ none ↦ none | some rs ↦ some (r ∷ rs) ]

-- `existing.iter().find(|remote| identity_matches(record, remote))`
unfoldable pub find_identity : Record → Listing → Option (Option DnsRecord)
find_identity local [] = some none
find_identity local (remote ∷ existing) = elim (identity_matches local remote) [
  | none ↦ none
  | some true ↦ some (some remote)
  | some false ↦ find_identity local existing
]

module _ (C : Client) (V : Ipv6) where
  abbrev Step : Type 0
  Step = Act (World C) (Label × Listing)

  -- A new record at the provider, whose ID is then stored.
  unfoldable pub create_new : Record → Text → Listing → Text → Step
  create_new local zone existing value = do
    body ← unwrap (desired local value)
    remote ← asked (create_record zone body) (λ s. C.create_record s zone body)
    same ← unwrap (if is_nil remote.id then some false else identity_matches local remote)
    if same
        then (do
          stored (codes "created record ID could not be saved")
              (λ db. Storage.set_provider_id db local.id zone remote.id)
          pure (created, existing ++ (remote ∷ [])))
        else fail (codes "unexpected created record identity")

  -- The provider's record is gone: the stale ID is cleared and the record made again.
  unfoldable pub recreate : Record → Text → Listing → Text → Step
  recreate local zone existing value = do
    stored (codes "could not clear stale provider ID") (λ db. Storage.clear_provider_id db local.id)
    create_new local zone existing value

  -- The provider's record is at hand: it is changed unless it is up to date.
  unfoldable pub refresh : Record → Text → Listing → Text → Text → DnsRecord → Step
  refresh local zone existing value id current = do
    mine ← unwrap (identity_matches local current)
    if not mine then fail (codes "provider record identity changed") else (do
      fresh ← unwrap (up_to_date V local value current)
      if fresh then pure (unchanged, existing) else (do
        body ← unwrap (desired local value)
        remote ← asked (update_record zone id body) (λ s. C.update_record s zone id body)
        same ← unwrap (if remote.id != id then some false else identity_matches local remote)
        if same
            then (do changed ← unwrap (replace_first id remote existing); pure (updated, changed))
            else fail (codes "unexpected updated record identity")))

  -- A record of the same identity that the database does not know yet is taken over.
  unfoldable pub adopt : Record → Text → Listing → Text → DnsRecord → Step
  adopt local zone existing value remote = do
    stored (codes "provider record ID could not be saved")
        (λ db. Storage.set_provider_id db local.id zone remote.id)
    fresh ← unwrap (up_to_date V local value remote)
    if fresh then pure (unchanged, existing) else (do
      body ← unwrap (desired local value)
      answer ←
          asked (update_record zone remote.id body) (λ s. C.update_record s zone remote.id body)
      changed ← unwrap (replace_first answer.id answer existing)
      pure (updated, changed))

  unfoldable pub reconcile : Record → Text → Listing → Text → Step
  reconcile local zone existing value = elim local.provider_record_id [
    | some id ↦
        if local.zone_id != some zone
        then fail (codes "provider zone changed")
        else elim (find (has_remote_id id) existing) [
          | none ↦ recreate local zone existing value
          | some current ↦ refresh local zone existing value id current
        ]
    | none ↦ do
      found ← unwrap (find_identity local existing)
      elim found [
        | some remote ↦ adopt local zone existing value remote
        | none ↦ create_new local zone existing value
      ]
  ]
