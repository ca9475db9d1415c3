-- ===== src/Sync/Run/Taken.antt =====
-- `sync_record` and the loop of `run_sync` in src/sync.rs on a provider that is a store: what a run
-- with no error leaves.
use vercel_ddns.Base.{
  ◌≡◌, ◌∙◌, refl, sym, ap, subst, Text, Option, some, List, ◌∷◌, arith, text_eq, option_eq,
  Option-cases, inl, inr,
}
use vercel_ddns.Base.Outcome.{ok, Ran, done, Ran-cases, Reply-cases, world}
use vercel_ddns.Net.Ipv6.{Ipv6}
use vercel_ddns.Storage.{Record, Database, find_row}
use vercel_ddns.Storage.Constraints.{IsConsistent}
use vercel_ddns.Cloudflare.Types.{Zone}
use vercel_ddns.Cloudflare.Client.{Client}
use vercel_ddns.Sync.Matching.Sound.{IsSound}
use vercel_ddns.Sync.World.{World}
use vercel_ddns.Sync.Keeps.{reconcile-Keeps}
use vercel_ddns.Sync.Rows.{IsConsistent-IsClosed}
use vercel_ddns.Sync.Reconcile.{Label, Listing, reconcile}
use vercel_ddns.Sync.Reconcile.Again.{reconcile-IsPlaced}
use vercel_ddns.Sync.Reconcile.Store.{left, IsStore, IsStore-IsFaithful, Unrepeated-Indexed}
use vercel_ddns.Sync.Reconcile.Reflect.{Reflects}
use vercel_ddns.Sync.Reconcile.Stored.{reconcile-IsStored}
use vercel_ddns.Sync.Run.{Cache, cached, sync_record, fetch, choose_value, choose_zone}
use vercel_ddns.Sync.Run.Answers.{IsReady}
use vercel_ddns.Sync.Run.Settling.{
  Coherent, SameView, Coherent-SameView, Coherent-push, IsInPlace, IsInPlace-SameView, IsTaken,
  remains_lem,
}

module _ (C : Client) (store : IsStore C) (V : Ipv6) where
  -- What the fetch of a listing leaves.
  pub record IsFetched (zone : Text) (w : World C) (listing : Listing) (cache : Cache)
      (w' : World C) : Type 0 where
    pub same_db : w'.db ≡ w.db
    pub same_view : SameView C store w.cloud w'.cloud
    pub reflects : Reflects C store listing w'.cloud zone
    pub coherent : Coherent C store cache w'.cloud

  pub fetch-IsFetched :
      (zone : Text) (cache : Cache) (w : World C) {listing : Listing} {cache' : Cache}
      {w' : World C}
      → Coherent C store cache w.cloud
      → fetch C V zone cache w ≡ done (listing, cache') w'
      → IsFetched zone w listing cache' w'
  unfolding fetch
  fetch-IsFetched zone cache w {listing} {cache'} {w'} coherent h =
      elim (Option-cases (cached zone cache)) [
        | inr (found, at) ↦
            let same_list : found ≡ listing = ground arith in
            let same_cache : cache ≡ cache' = ground arith in
            let same : w ≡ w' = ground arith in
            subst (λ x. IsFetched zone w listing cache' x) same
              (record {
                same_db = refl;
                same_view = λ z k. refl;
                reflects = coherent zone listing (at ∙ ap some same_list);
                coherent = subst (λ c. Coherent C store c w.cloud) same_cache coherent;
              })
        | inl absent ↦ elim (Reply-cases (C.list_records w.cloud zone)) [
          | inl (found, s, e) ↦
              let view : SameView C store w.cloud s = λ z k.
                subst (λ r. store.view (left r) z k ≡ store.view w.cloud z k) e
                  (store.listed-view w.cloud zone z k) in
              let (unrepeated, lookup) = store.listed w.cloud zone e in
              let reflects : Reflects C store found s zone = record {
                unrepeated = unrepeated;
                lookup = λ k. lookup k ∙ sym (view zone k);
              } in
              let kept = Coherent-SameView C store cache view coherent in
              let pushed =
                Coherent-push C store zone found cache s reflects (λ z l other got. kept z l got) in
              let same_list : found ≡ listing = ground arith in
              let same_cache : (zone, found) ∷ cache ≡ cache' = ground arith in
              let same_cloud : s ≡ w'.cloud = ground arith in
              record {
                same_db = ground arith;
                same_view = subst (SameView C store w.cloud) same_cloud view;
                reflects =
                    subst (λ x. Reflects C store x w'.cloud zone) same_list
                      (subst (λ x. Reflects C store found x zone) same_cloud reflects);
                coherent =
                    subst (λ x. Coherent C store x w'.cloud) same_cache
                      (subst (λ x. Coherent C store ((zone, found) ∷ cache) x) same_cloud pushed);
              }
          | inr (f, s, e) ↦ absurd (ground arith)
        ]
      ]

  module _ (zones : List Zone) (ipv4 : Option Text) (r : Record) where
    reconcile-IsTaken :
        (zone : Zone) (value : Text) (existing : Listing) (cache : Cache) (w : World C)
        {label : Label} {listing : Listing} {w' : World C}
        → choose_value ipv4 r ≡ some value
        → choose_zone zones r.fqdn ≡ some zone
        → IsSound V r value
        → IsConsistent w.db
        → find_row r.id w.db.rows ≡ some r
        → Reflects C store existing w.cloud zone.id
        → Coherent C store cache w.cloud
        → reconcile C V r zone.id existing value w ≡ done (label, listing) w'
        → IsTaken C store V zones ipv4 r w ((zone.id, listing) ∷ cache) w'
    reconcile-IsTaken zone value existing cache w {label} {listing} {w'} v z sound consistent at
          reflects coherent h =
        let placed =
          reconcile-IsPlaced C V r zone.id value sound (IsStore-IsFaithful C store) existing w
            {label = label} {listing = listing} {w' = w'}
            (Unrepeated-Indexed existing reflects.unrepeated)
            (λ sent remote s' e.
              reflects.lookup remote.id ∙ (store.created w.cloud zone.id sent e).1)
            at h in
        let stored =
          reconcile-IsStored C store V r zone.id value sound existing w {label = label}
            {listing = listing} {w' = w'} reflects h in
        let kept =
          reconcile-Keeps C IsConsistent IsConsistent-IsClosed V r zone.id value existing w
            consistent in
        let consistent' : IsConsistent w'.db =
          subst (λ (x : Ran (World C) (Label × Listing)). IsConsistent (world x).db) h kept in
        let (remote, found, mine, fresh) = placed.settled in
        record {
          placed = record {
            value = value;
            zone = zone;
            id = placed.id;
            now = placed.now;
            remote = remote;
            has_value = v;
            in_zone = z;
            held = placed.held;
            present = sym (stored.reflects.lookup placed.id) ∙ found;
            mine = mine;
            fresh = fresh;
          };
          coherent =
              Coherent-push C store zone.id listing cache w'.cloud stored.reflects (λ k l other got.
                let seen = coherent k l got in
                record {
                  unrepeated = seen.unrepeated;
                  lookup = λ i. seen.lookup i ∙ sym (stored.elsewhere k i other);
                });
          rows = placed.rows;
          remains = λ s other.
              remains_lem C store V zones ipv4 r s zone.id value w w' existing listing other
                consistent' reflects placed stored;
        }

    fetched-IsTaken :
        (w w₁ : World C) {cache : Cache} {w' : World C}
        → w₁.db ≡ w.db
        → SameView C store w.cloud w₁.cloud
        → IsTaken C store V zones ipv4 r w₁ cache w'
        → IsTaken C store V zones ipv4 r w cache w'
    fetched-IsTaken w w₁ same view taken = record {
      placed = taken.placed;
      coherent = taken.coherent;
      rows = λ k other. taken.rows k other ∙ ap (λ (d : Database). find_row k d.rows) same;
      remains = λ s other p. taken.remains s other (
          subst (λ (d : Database). IsInPlace C store V zones ipv4 s d.rows w₁.cloud) (sym same)
            (IsInPlace-SameView C store V zones ipv4 s w.db.rows view p));
    }

    pub sync_record-IsTaken :
        (cache : Cache) (w : World C) {label : Label} {cache' : Cache} {w' : World C}
        → IsReady V ipv4 r
        → IsConsistent w.db
        → find_row r.id w.db.rows ≡ some r
        → Coherent C store cache w.cloud
        → sync_record C V zones ipv4 r cache w ≡ done (ok label, cache') w'
        → IsTaken C store V zones ipv4 r w cache' w'
    unfolding sync_record
    sync_record-IsTaken cache w {label} {cache'} {w'} ready consistent at coherent h =
        elim (Option-cases (choose_value ipv4 r)) [
          | inl valueless ↦ absurd (ground arith)
          | inr (value, v) ↦ elim (Option-cases (choose_zone zones r.fqdn)) [
            | inl nowhere ↦ absurd (ground arith)
            | inr (zone, z) ↦ elim (Ran-cases (fetch C V zone.id cache w)) [
              | inl ((existing, cache₁), w₁, got) ↦
                  let fetched = fetch-IsFetched zone.id cache w coherent got in
                  elim (Ran-cases (reconcile C V r zone.id existing value w₁)) [
                    | inl ((l, listing), w₂, ran) ↦
                        let taken =
                          reconcile-IsTaken zone value existing cache₁ w₁ {label = l}
                            {listing = listing} {w' = w₂} v z (ready value v)
                            (subst IsConsistent (sym fetched.same_db) consistent)
                            (ap (λ (d : Database). find_row r.id d.rows) fetched.same_db ∙ at)
                            fetched.reflects fetched.coherent ran in
                        let same : w₂ ≡ w' = ground arith in
                        let same_cache : (zone.id, listing) ∷ cache₁ ≡ cache' = ground arith in
                        subst (IsTaken C store V zones ipv4 r w cache') same (
                          subst (λ c. IsTaken C store V zones ipv4 r w c w₂) same_cache
                            (fetched-IsTaken w w₁ fetched.same_db fetched.same_view taken))
                    | inr (inl (f, w₂, ran)) ↦ absurd (ground arith)
                    | inr (inr (w₂, ran)) ↦ absurd (ground arith)
                  ]
              | inr (inl (f, w₁, got)) ↦ absurd (ground arith)
              | inr (inr (w₁, got)) ↦ absurd (ground arith)
            ]
          ]
        ]
