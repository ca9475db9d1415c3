-- ===== src/Tests/Careful.antt =====
-- A provider in memory with one zone that is a store in each of its states.
use vercel_ddns.Base.{
  ◌≡◌, ◌≢◌, refl, sym, ap, subst, Text, codes, Bool, true, false, ◌&&◌, Option, none, some, [], ◌∷◌,
  arith, find, ◌==◌, text_eq, option_eq, if◌then◌else◌, inl, inr, Bool-cases, Option-cases,
}
use vercel_ddns.Base.Outcome.{Reply, returned, errored}
use vercel_ddns.Cloudflare.Types
use vercel_ddns.Cloudflare.Types.{DnsRecord, CloudflareError}
use vercel_ddns.Cloudflare.Client.{Client}
use vercel_ddns.Sync.Matching.Echo.{echo}
use vercel_ddns.Sync.Reconcile.{Listing, has_remote_id, replace_first}
use vercel_ddns.Sync.Reconcile.Convergence.{find-replace_first, find-replace_first_ne}
use vercel_ddns.Sync.Reconcile.Store.{IsStore, Unrepeated}
use vercel_ddns.Tests.Fixtures.{Cloud, zone}

abbrev refuses : {A : Type 0} → Cloud → Reply Cloud CloudflareError A
refuses s = errored (Types.api 404 []) s

abbrev is_absent : Option DnsRecord → Bool
is_absent none = true
is_absent (some _) = false

abbrev unrepeated : Listing → Bool
unrepeated [] = true
unrepeated (x ∷ listing) = is_absent (find (has_remote_id x.id) listing) && unrepeated listing

abbrev put : Cloud → DnsRecord → Option Listing → Reply Cloud CloudflareError DnsRecord
put s remote none = refuses s
put s remote (some changed) = returned remote (record s { records = changed })

abbrev add : Cloud → Types.Record → Bool → Reply Cloud CloudflareError DnsRecord
add s sent false = refuses s
add s sent true =
    returned (echo s.fresh sent)
      (record s { records = echo s.fresh sent ∷ s.records; fresh = b'n' ∷ s.fresh })

-- It answers for its one zone, gives no ID twice, and updates what it has.
abbrev pub careful : Client
careful = record {
  State = Cloud;
  list_zones = λ s. returned (zone ∷ []) s;
  list_records =
      λ s z. if z == zone.id && unrepeated s.records then returned s.records s else refuses s;
  get_record = λ s z id. refuses s;
  create_record =
      λ s z sent. add s sent (z == zone.id && is_absent (find (has_remote_id s.fresh) s.records));
  update_record = λ s z id sent.
      if z == zone.id
      then put s (echo id sent) (replace_first id (echo id sent) s.records)
      else refuses s;
  delete_record = λ s z id. refuses s;
  to_text = λ e. codes "error";
}

abbrev view : Cloud → Text → Text → Option DnsRecord
view s z k = if z == zone.id then find (has_remote_id k) s.records else none

unrepeated_lem : (listing : Listing) → unrepeated listing ≡ true → Unrepeated listing
unrepeated_lem [] h = tt
unrepeated_lem (x ∷ listing) h = (ground arith, unrepeated_lem listing (ground arith))

careful-created :
    (s : Cloud) (z : Text) (sent : Types.Record) {remote : DnsRecord} {s' : Cloud}
    → careful.create_record s z sent ≡ returned remote s'
    → (remote ≡ echo remote.id sent)
      × (view s z remote.id ≡ none)
      × (view s' z remote.id ≡ some remote)
      × ((k : Text) → k ≢ remote.id → view s' z k ≡ view s z k)
      × ((y k : Text) → y ≢ z → view s' y k ≡ view s y k)
careful-created s z sent {remote} {s'} h =
    elim (Bool-cases (z == zone.id && is_absent (find (has_remote_id s.fresh) s.records))) [
      | inr taken ↦ absurd (ground arith)
      | inl free ↦
          let made : echo s.fresh sent ≡ remote = ground arith in
          let named : remote.id ≡ s.fresh = ap (λ (x : DnsRecord). x.id) (sym made) in
          let stored : remote ∷ s.records ≡ s'.records = ground arith in
          (
            subst (λ x. x ≡ echo x.id sent) made refl,
            ground (arith, named),
            ground (arith, stored),
            (λ k other. ground (arith, stored)),
            λ y k other. ground arith,
          )
    ]

careful-updated :
    (s : Cloud) (z id : Text) (sent : Types.Record) {remote : DnsRecord} {s' : Cloud}
    → careful.update_record s z id sent ≡ returned remote s'
    → (remote ≡ echo id sent)
      × (view s' z id ≡ some remote)
      × ((k : Text) → k ≢ id → view s' z k ≡ view s z k)
      × ((y k : Text) → y ≢ z → view s' y k ≡ view s y k)
careful-updated s z id sent {remote} {s'} h =
    elim (Option-cases (replace_first id (echo id sent) s.records)) [
      | inl gone ↦ absurd (ground arith)
      | inr (changed, got) ↦
          let at = find-replace_first id (echo id sent) s.records refl got in
          let rest = λ (k : Text) (other : k ≢ id).
            find-replace_first_ne k id (echo id sent) s.records refl other got in
          (
            ground arith,
            ground (arith, at),
            (λ k other. let same = rest k other in ground arith),
            λ y k other. ground arith,
          )
    ]

careful-listed :
    (s : Cloud) (z : Text) {listing : Listing} {s' : Cloud}
    → careful.list_records s z ≡ returned listing s'
    → Unrepeated listing × ((k : Text) → find (has_remote_id k) listing ≡ view s z k)
careful-listed s z {listing} h =
    let same : s.records ≡ listing = ground arith in
    (subst Unrepeated same (unrepeated_lem s.records (ground arith)), λ k. ground (arith, same))

pub careful-IsStore : IsStore careful
careful-IsStore = record {
  zones = zone ∷ [];
  view = view;
  zoned = λ s h. ground arith;
  zoned-view = λ s z k. refl;
  listed = λ s z h. careful-listed s z h;
  listed-view = λ s zone z k. ground arith;
  created = λ s z sent h. careful-created s z sent h;
  updated = λ s z id sent h. careful-updated s z id sent h;
}

pub careful-view :
    (s : Cloud) (k : Text) → careful-IsStore.view s (codes "z") k ≡ find (has_remote_id k) s.records
unfolding careful-IsStore text_eq
careful-view s k = refl
