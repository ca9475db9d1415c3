-- ===== src/Sync/Run/Settling.antt =====
-- `sync_record` of src/sync.rs on a provider that is a store: what a success leaves.
use vercel_ddns.Base.{
  ℕ, ◌≡◌, ◌≢◌, ◌∙◌, refl, sym, ap, subst, Text, true, Option, some, List, ◌∷◌, arith, text_eq,
  option_eq,
}
use vercel_ddns.Base.Int.{ℤ}
use vercel_ddns.Net.Ipv6.{Ipv6}
use vercel_ddns.Storage.{Record, find_row}
use vercel_ddns.Storage.Constraints.{IsConsistent, linked_once}
use vercel_ddns.Cloudflare.Types.{Zone, DnsRecord}
use vercel_ddns.Cloudflare.Client.{Client}
use vercel_ddns.Sync.Matching.{identity_matches, up_to_date}
use vercel_ddns.Sync.World.{World}
use vercel_ddns.Sync.Reconcile.{Listing}
use vercel_ddns.Sync.Reconcile.Convergence.{relinked}
use vercel_ddns.Sync.Reconcile.Place.{IsPlaced}
use vercel_ddns.Sync.Reconcile.Store.{IsStore}
use vercel_ddns.Sync.Reconcile.Reflect.{Reflects, IsStored}
use vercel_ddns.Sync.Run.{Cache, cached, choose_value, choose_zone}

module _ (C : Client) (store : IsStore C) where
  -- The listings fetched so far are what the provider holds.
  abbrev pub Coherent : Cache → C.State → Type 0
  Coherent cache s =
      (zone : Text) (listing : Listing)
      → cached zone cache ≡ some listing
      → Reflects C store listing s zone

  abbrev pub SameView : C.State → C.State → Type 0
  SameView before s = (z k : Text) → store.view s z k ≡ store.view before z k

  pub Reflects-SameView :
      (listing : Listing) (zone : Text) {before s : C.State}
      → SameView before s
      → Reflects C store listing before zone
      → Reflects C store listing s zone
  Reflects-SameView listing zone same h = record {
    unrepeated = h.unrepeated;
    lookup = λ k. h.lookup k ∙ sym (same zone k);
  }

  pub Coherent-SameView :
      (cache : Cache) {before s : C.State}
      → SameView before s
      → Coherent cache before
      → Coherent cache s
  Coherent-SameView cache same h zone listing got =
      Reflects-SameView listing zone same (h zone listing got)

  pub Coherent-push :
      (zone : Text) (listing : Listing) (cache : Cache) (s : C.State)
      → Reflects C store listing s zone
      → ((z : Text) (l : Listing) → z ≢ zone → cached z cache ≡ some l → Reflects C store l s z)
      → Coherent ((zone, listing) ∷ cache) s
  unfolding cached
  Coherent-push zone listing cache s first rest z l h = elim (text_eq.dec z zone) [
    | yes e ↦
        let same : listing ≡ l = ground arith in
        subst (λ x. Reflects C store l s x) (sym e)
          (subst (λ x. Reflects C store x s zone) same first)
    | no other ↦ rest z l other (ground arith)
  ]

  module _ (V : Ipv6) (zones : List Zone) (ipv4 : Option Text) where
    -- The row is linked to the provider's record in its zone, which is up to date with the value
    -- that a sync chooses for the row.
    pub record IsInPlace (r : Record) (rows : List Record) (s : C.State) : Type 0 where
      pub value : Text
      pub zone : Zone
      pub id : Text
      pub now : ℕ
      pub remote : DnsRecord
      pub has_value : choose_value ipv4 r ≡ some value
      pub in_zone : choose_zone zones r.fqdn ≡ some zone
      pub held : find_row r.id rows ≡ some (relinked r (some zone.id) (some id) now)
      pub present : store.view s zone.id id ≡ some remote
      pub mine : identity_matches r remote ≡ some true
      pub fresh : up_to_date V r value remote ≡ some true

    pub IsInPlace-SameView :
        (r : Record) (rows : List Record) {before s : C.State}
        → SameView before s
        → IsInPlace r rows before
        → IsInPlace r rows s
    IsInPlace-SameView r rows same p = record {
      value = p.value;
      zone = p.zone;
      id = p.id;
      now = p.now;
      remote = p.remote;
      has_value = p.has_value;
      in_zone = p.in_zone;
      held = p.held;
      present = same p.zone.id p.id ∙ p.present;
      mine = p.mine;
      fresh = p.fresh;
    }

    -- What a row's success leaves: the row is in place, and the rows that were stay so.
    pub record IsTaken (r : Record) (w : World C) (cache : Cache) (w' : World C) : Type 0 where
      pub placed : IsInPlace r w'.db.rows w'.cloud
      pub coherent : Coherent cache w'.cloud
      pub rows : (k : ℤ) → k ≢ r.id → find_row k w'.db.rows ≡ find_row k w.db.rows
      pub remains :
          (s : Record)
          → s.id ≢ r.id
          → IsInPlace s w.db.rows w.cloud
          → IsInPlace s w'.db.rows w'.cloud

    -- A row in place stays so, if the row that was written is linked to another record.
    pub remains_lem :
        (r s : Record) (zone value : Text) (w w' : World C) (existing listing : Listing)
        → s.id ≢ r.id
        → IsConsistent w'.db
        → Reflects C store existing w.cloud zone
        → IsPlaced V r zone value w.db existing w'.db listing
        → IsStored C store zone w.cloud w'.cloud listing
        → IsInPlace s w.db.rows w.cloud
        → IsInPlace s w'.db.rows w'.cloud
    remains_lem r s zone value w w' existing listing other consistent reflects placed stored p =
        record {
          value = p.value;
          zone = p.zone;
          id = p.id;
          now = p.now;
          remote = p.remote;
          has_value = p.has_value;
          in_zone = p.in_zone;
          held = held;
          present = elim (text_eq.dec p.zone.id zone) [
            | no apart ↦ stored.elsewhere p.zone.id p.id apart ∙ p.present
            | yes e ↦
                let others : p.id ≢ placed.id = λ same.
                  linked_once r.id s.id w'.db.rows zone placed.id consistent.apart placed.held held
                    (λ x. other (sym x)) refl (ap some e) refl (ap some same) in
                let here : store.view w.cloud zone p.id ≡ some p.remote =
                  subst (λ z. store.view w.cloud z p.id ≡ some p.remote) e p.present in
                let listed = placed.kept p.id p.remote others (reflects.lookup p.id ∙ here) in
                subst (λ z. store.view w'.cloud z p.id ≡ some p.remote) (sym e)
                  (sym (stored.reflects.lookup p.id) ∙ listed)
          ];
          mine = p.mine;
          fresh = p.fresh;
        }
      where
        held : find_row s.id w'.db.rows ≡ some (relinked s (some p.zone.id) (some p.id) p.now)
        held = placed.rows s.id other ∙ p.held
