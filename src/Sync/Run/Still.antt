-- ===== src/Sync/Run/Still.antt =====
-- `sync_record` of src/sync.rs on a row that is in place, on a provider that is a store.
use vercel_ddns.Base.{
  ◌≡◌, ◌≢◌, ◌∙◌, ◌⊎◌, refl, sym, ap, subst, Text, true, Option, some, List, [], ◌∷◌, ◌++◌, arith,
  text_eq, option_eq, Option-cases, inl, inr, All, All-append, append_assoc,
}
use vercel_ddns.Base.Outcome.{Result, ok, err, done, failed, panicked, Reply-cases, Ran-cases}
use vercel_ddns.Net.Ipv6.{Ipv6}
use vercel_ddns.Storage.{Record}
use vercel_ddns.Cloudflare.Types.{Zone, DnsRecord}
use vercel_ddns.Cloudflare.Client.{Client}
use vercel_ddns.Sync.Matching.{identity_matches, up_to_date}
use vercel_ddns.Sync.World
use vercel_ddns.Sync.World.{World, Call}
use vercel_ddns.Sync.Reconcile.{Label, unchanged, Listing}
use vercel_ddns.Sync.Reconcile.Convergence.{reconcile-Settled}
use vercel_ddns.Sync.Reconcile.Store.{IsStore, left}
use vercel_ddns.Sync.Run.{Cache, cached, fetch, choose_value, choose_zone, sync_record}
use vercel_ddns.Sync.Run.Settling.{Coherent, Coherent-push, Coherent-SameView, SameView}
use vercel_ddns.Sync.Run.Taken.{fetch-IsFetched}

abbrev pub IsRead : Call → Type 0
IsRead World.list_zones = Unit
IsRead (World.list_records zone) = Unit
IsRead (World.get_record zone id) = Unit
IsRead _ = ⊥

-- All that was added to the calls is reads.
abbrev pub OnlyReads : List Call → List Call → Type 0
OnlyReads before after = (reads : List Call) × All IsRead reads × (after ≡ reads ++ before)

pub OnlyReads-trans :
    {before between after : List Call}
    → OnlyReads before between
    → OnlyReads between after
    → OnlyReads before after
OnlyReads-trans {before} {between} {after} (reads, only, at) (more, too, then_at) = (
  more ++ reads,
  All-append IsRead more reads too only,
  then_at ∙ ap (λ (l : List Call). more ++ l) at ∙ sym (append_assoc more reads before),
)

module _ (C : Client) (V : Ipv6) where
  fetch-OnlyReads :
      (zone : Text) (cache : Cache) (w : World C) {listing : Listing} {cache' : Cache}
      {w' : World C}
      → fetch C V zone cache w ≡ done (listing, cache') w'
      → OnlyReads w.calls w'.calls
  unfolding fetch
  fetch-OnlyReads zone cache w got = elim (Option-cases (cached zone cache)) [
    | inr (found, at) ↦ ([], tt, ground arith)
    | inl absent ↦ elim (Reply-cases (C.list_records w.cloud zone)) [
      | inl (found, s, ask) ↦ (World.list_records zone ∷ [], (tt, tt), ground arith)
      | inr (f, s, ask) ↦ absurd (ground arith)
    ]
  ]

  fetch-ne-panicked :
      (zone : Text) (cache : Cache) (w : World C) {w' : World C}
      → fetch C V zone cache w ≢ panicked w'
  unfolding fetch
  fetch-ne-panicked zone cache w = ground arith

module _ (C : Client) (store : IsStore C) (V : Ipv6) (zones : List Zone) (ipv4 : Option Text) where
  -- The row, as the table holds it, is linked to a record that is up to date.
  pub record IsStill (r : Record) (s : C.State) : Type 0 where
    pub value : Text
    pub zone : Zone
    pub id : Text
    pub remote : DnsRecord
    pub has_value : choose_value ipv4 r ≡ some value
    pub in_zone : choose_zone zones r.fqdn ≡ some zone
    pub there : r.zone_id ≡ some zone.id
    pub known : r.provider_record_id ≡ some id
    pub present : store.view s zone.id id ≡ some remote
    pub mine : identity_matches r remote ≡ some true
    pub fresh : up_to_date V r value remote ≡ some true

  abbrev pub Idle : Result Text Label → Type 0
  Idle tried = (tried ≡ ok unchanged) ⊎ ((e : Text) × (tried ≡ err e))

  -- What a row in place leaves: nothing is written.
  pub record IsIdle (r : Record) (cache : Cache) (w : World C) : Type 0 where
    pub tried : Result Text Label
    pub cache' : Cache
    pub w' : World C
    pub ran : sync_record C V zones ipv4 r cache w ≡ done (tried, cache') w'
    pub idle : Idle tried
    pub same_db : w'.db ≡ w.db
    pub same_view : SameView C store w.cloud w'.cloud
    pub coherent : Coherent C store cache' w'.cloud
    pub reads : OnlyReads w.calls w'.calls

  IsIdle-failed :
      (r : Record) (cache : Cache) (w : World C) (p : IsStill r w.cloud) {e : Text} {w₁ : World C}
      → Coherent C store cache w.cloud
      → fetch C V p.zone.id cache w ≡ failed e w₁
      → IsIdle r cache w
  unfolding sync_record fetch
  IsIdle-failed r cache w p {e} {w₁} coherent got = elim (Option-cases (cached p.zone.id cache)) [
    | inr (found, at) ↦ absurd (ground arith)
    | inl absent ↦ elim (Reply-cases (C.list_records w.cloud p.zone.id)) [
      | inl (found, s, ask) ↦ absurd (ground arith)
      | inr (f, s, ask) ↦
          let view : SameView C store w.cloud s = λ z k.
            subst (λ r. store.view (left r) z k ≡ store.view w.cloud z k) ask
              (store.listed-view w.cloud p.zone.id z k) in
          let has_value = p.has_value in
          let in_zone = p.in_zone in
          record {
            tried = err (C.to_text f);
            cache' = cache;
            w' = record w { cloud = s; calls = World.list_records p.zone.id ∷ w.calls };
            ran = ground arith;
            idle = inr (C.to_text f, refl);
            same_db = refl;
            same_view = view;
            coherent = Coherent-SameView C store cache view coherent;
            reads = (World.list_records p.zone.id ∷ [], (tt, tt), refl);
          }
    ]
  ]

  IsIdle-fetched :
      (r : Record) (cache : Cache) (w : World C) (p : IsStill r w.cloud) {listing : Listing}
      {cache' : Cache} {w₁ : World C}
      → Coherent C store cache w.cloud
      → fetch C V p.zone.id cache w ≡ done (listing, cache') w₁
      → IsIdle r cache w
  unfolding sync_record fetch
  IsIdle-fetched r cache w p {listing} {cache'} {w₁} coherent got =
      let fetched = fetch-IsFetched C store V p.zone.id cache w coherent got in
      let present = fetched.same_view p.zone.id p.id ∙ p.present in
      let quiet =
        reconcile-Settled C V r p.zone.id p.value p.id listing w₁ p.known p.there
          (p.remote, fetched.reflects.lookup p.id ∙ present, p.mine, p.fresh) in
      let has_value = p.has_value in
      let in_zone = p.in_zone in
      record {
        tried = ok unchanged;
        cache' = (p.zone.id, listing) ∷ cache';
        w' = w₁;
        ran = ground arith;
        idle = inl refl;
        same_db = fetched.same_db;
        same_view = fetched.same_view;
        coherent =
            Coherent-push C store p.zone.id listing cache' w₁.cloud fetched.reflects
              (λ z l other at. fetched.coherent z l at);
        reads = fetch-OnlyReads C V p.zone.id cache w got;
      }

  pub sync_record-IsIdle :
      (r : Record) (cache : Cache) (w : World C)
      → IsStill r w.cloud
      → Coherent C store cache w.cloud
      → IsIdle r cache w
  sync_record-IsIdle r cache w p coherent = elim (Ran-cases (fetch C V p.zone.id cache w)) [
    | inl ((listing, cache'), w₁, got) ↦ IsIdle-fetched r cache w p coherent got
    | inr (inl (e, w₁, got)) ↦ IsIdle-failed r cache w p coherent got
    | inr (inr (w₁, got)) ↦ absurd (fetch-ne-panicked C V p.zone.id cache w got)
  ]

  pub IsStill-SameView :
      (r : Record) {before s : C.State} → SameView C store before s → IsStill r before → IsStill r s
  IsStill-SameView r same p = record {
    value = p.value;
    zone = p.zone;
    id = p.id;
    remote = p.remote;
    has_value = p.has_value;
    in_zone = p.in_zone;
    there = p.there;
    known = p.known;
    present = same p.zone.id p.id ∙ p.present;
    mine = p.mine;
    fresh = p.fresh;
  }
