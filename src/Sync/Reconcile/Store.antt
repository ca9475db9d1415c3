-- ===== src/Sync/Reconcile/Store.antt =====
-- A provider as a store of records under their zones and IDs, for `reconcile` of src/sync.rs.
use vercel_ddns.Base.{
  ◌≡◌, ◌≢◌, ◌∙◌, refl, sym, subst, Text, Option, none, some, List, [], ◌∷◌, ◌++◌, arith, find,
  text_eq, option_eq, Option-cases, inl, inr, ◌==◌, Bool-cases,
}
use vercel_ddns.Base.Outcome.{Reply, returned, errored}
use vercel_ddns.Cloudflare.Types
use vercel_ddns.Cloudflare.Types.{DnsRecord, Zone, CloudflareError}
use vercel_ddns.Cloudflare.Client.{Client}
use vercel_ddns.Sync.Matching.Echo.{echo}
use vercel_ddns.Sync.Reconcile.{Listing, has_remote_id, replace_first}
use vercel_ddns.Sync.Reconcile.Convergence.{IsFaithful, Among, Indexed, find-replace_first_ne}

-- The state that a call of the provider leaves.
abbrev pub left {ℓ} : {S : Type 0} {A : Type ℓ} → Reply S CloudflareError A → S
left (returned _ s) = s
left (errored _ s) = s

-- No two records of a listing share an ID.
abbrev pub Unrepeated : Listing → Type 0
Unrepeated [] = Unit
Unrepeated (x ∷ listing) = (find (has_remote_id x.id) listing ≡ none) × Unrepeated listing

-- A provider whose zones do not change, and which holds under a zone and an ID at most one record:
-- reads change nothing and report what it holds; an answered create adds what was sent, under an
-- ID that the zone did not have; an answered update puts what was sent under the ID.
pub record IsStore (C : Client) : Type 0 where
  pub zones : List Zone
  pub view : C.State → Text → Text → Option DnsRecord
  pub zoned :
      (s : C.State) {zs : List Zone} {s' : C.State} → C.list_zones s ≡ returned zs s' → zs ≡ zones
  pub zoned-view : (s : C.State) (z k : Text) → view (left (C.list_zones s)) z k ≡ view s z k
  pub listed :
      (s : C.State) (zone : Text) {listing : Listing} {s' : C.State}
      → C.list_records s zone ≡ returned listing s'
      → Unrepeated listing × ((k : Text) → find (has_remote_id k) listing ≡ view s zone k)
  pub listed-view :
      (s : C.State) (zone z k : Text) → view (left (C.list_records s zone)) z k ≡ view s z k
  pub created :
      (s : C.State) (zone : Text) (sent : Types.Record) {remote : DnsRecord} {s' : C.State}
      → C.create_record s zone sent ≡ returned remote s'
      → (remote ≡ echo remote.id sent)
        × (view s zone remote.id ≡ none)
        × (view s' zone remote.id ≡ some remote)
        × ((k : Text) → k ≢ remote.id → view s' zone k ≡ view s zone k)
        × ((z k : Text) → z ≢ zone → view s' z k ≡ view s z k)
  pub updated :
      (s : C.State) (zone id : Text) (sent : Types.Record) {remote : DnsRecord} {s' : C.State}
      → C.update_record s zone id sent ≡ returned remote s'
      → (remote ≡ echo id sent)
        × (view s' zone id ≡ some remote)
        × ((k : Text) → k ≢ id → view s' zone k ≡ view s zone k)
        × ((z k : Text) → z ≢ zone → view s' z k ≡ view s z k)

pub IsStore-IsFaithful : (C : Client) → IsStore C → IsFaithful C
IsStore-IsFaithful C store = record {
  create-echo = λ s zone sent remote s' h. (store.created s zone sent h).0;
  update-echo = λ s zone id sent remote s' h. (store.updated s zone id sent h).0;
}

find-Among :
    (x : DnsRecord) (k : Text) (listing : Listing)
    → Among x listing
    → find (has_remote_id k) listing ≡ none
    → x.id ≢ k
find-Among x k [] m h = absurd m
find-Among x k (y ∷ listing) (inl e) h = ground arith
find-Among x k (y ∷ listing) (inr m) h = ground (arith, find-Among x k listing m)

pub Unrepeated-Indexed : (listing : Listing) → Unrepeated listing → Indexed listing
Unrepeated-Indexed [] u x m = absurd m
Unrepeated-Indexed (y ∷ listing) (h, hs) x (inl e) = ground arith
Unrepeated-Indexed (y ∷ listing) (h, hs) x (inr m) =
    let ih = Unrepeated-Indexed listing hs x m in
    let other = find-Among x y.id listing m h in ground arith

pub find-append_ne :
    (k : Text) (remote : DnsRecord) (listing : Listing)
    → k ≢ remote.id
    → find (has_remote_id k) (listing ++ (remote ∷ [])) ≡ find (has_remote_id k) listing
find-append_ne k remote [] other = ground arith
find-append_ne k remote (x ∷ listing) other = ground (arith, find-append_ne k remote listing)

pub Unrepeated-append :
    (remote : DnsRecord) (listing : Listing)
    → find (has_remote_id remote.id) listing ≡ none
    → Unrepeated listing
    → Unrepeated (listing ++ (remote ∷ []))
Unrepeated-append remote [] h u = (refl, tt)
Unrepeated-append remote (x ∷ listing) h (hx, u) =
    let other : x.id ≢ remote.id = ground arith in
    (
      find-append_ne x.id remote listing other ∙ hx,
      Unrepeated-append remote listing (ground arith) u,
    )

pub Unrepeated-replace_first :
    (id : Text) (remote : DnsRecord) (listing : Listing) {changed : Listing}
    → remote.id ≡ id
    → replace_first id remote listing ≡ some changed
    → Unrepeated listing
    → Unrepeated changed
unfolding replace_first
Unrepeated-replace_first id remote [] e h u = cc
Unrepeated-replace_first id remote (x ∷ listing) {changed} e h (hx, u) =
    elim (Bool-cases (x.id == id)) [
      | inl hit ↦
          let front : remote ∷ listing ≡ changed = ground arith in
          let named : remote.id ≡ x.id = ground arith in
          subst Unrepeated front
            ((subst (λ k. find (has_remote_id k) listing ≡ none) (sym named) hx, u))
      | inr miss ↦ elim (Option-cases (replace_first id remote listing)) [
        | inl gone ↦ ground arith
        | inr (rest, got) ↦
            let front : x ∷ rest ≡ changed = ground arith in
            let other : x.id ≢ id = ground arith in
            subst Unrepeated front (
              find-replace_first_ne x.id id remote listing e other got ∙ hx,
              Unrepeated-replace_first id remote listing {changed = rest} e got u,
            )
      ]
    ]
