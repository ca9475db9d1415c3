-- ===== src/Sync/Reconcile/Reflect.antt =====
-- The listing that `reconcile` of src/sync.rs keeps, and the provider's store.
use vercel_ddns.Base.{
  ◌≡◌, ◌≢◌, ◌∙◌, refl, sym, subst, Text, some, [], ◌∷◌, ◌++◌, find, text_eq, option_eq,
}
use vercel_ddns.Base.Outcome.{returned}
use vercel_ddns.Cloudflare.Types
use vercel_ddns.Cloudflare.Types.{DnsRecord}
use vercel_ddns.Cloudflare.Client.{Client}
use vercel_ddns.Sync.Reconcile.{Listing, has_remote_id, replace_first}
use vercel_ddns.Sync.Reconcile.Convergence.{find-replace_first, find-replace_first_ne, find-append}
use vercel_ddns.Sync.Reconcile.Store.{
  IsStore, Unrepeated, find-append_ne, Unrepeated-append, Unrepeated-replace_first,
}

module _ (C : Client) (store : IsStore C) where
  -- The listing is what the provider holds in the zone.
  pub record Reflects (listing : Listing) (s : C.State) (zone : Text) : Type 0 where
    pub unrepeated : Unrepeated listing
    pub lookup : (k : Text) → find (has_remote_id k) listing ≡ store.view s zone k

  -- What a step leaves: its listing reflects the zone, and other zones are as they were.
  pub record IsStored (zone : Text) (before s : C.State) (listing : Listing) : Type 0 where
    pub reflects : Reflects listing s zone
    pub elsewhere : (z k : Text) → z ≢ zone → store.view s z k ≡ store.view before z k

  pub still-IsStored :
      (zone : Text) (s : C.State) (listing : Listing)
      → Reflects listing s zone
      → IsStored zone s s listing
  still-IsStored zone s listing reflects = record {
    reflects = reflects;
    elsewhere = λ z k other. refl;
  }

  pub created-IsStored :
      (zone : Text) (s : C.State) (existing : Listing) (sent : Types.Record) {remote : DnsRecord}
      {s' : C.State}
      → Reflects existing s zone
      → C.create_record s zone sent ≡ returned remote s'
      → IsStored zone s s' (existing ++ (remote ∷ []))
  created-IsStored zone s existing sent {remote} {s'} reflects e =
      let (same, absent, present, rest, elsewhere) = store.created s zone sent e in
      let fresh = reflects.lookup remote.id ∙ absent in
      record {
        reflects = record {
          unrepeated = Unrepeated-append remote existing fresh reflects.unrepeated;
          lookup = λ k. elim (text_eq.dec k remote.id) [
            | yes at ↦
                subst
                  (λ i. find (has_remote_id i) (existing ++ (remote ∷ [])) ≡ store.view s' zone i)
                  (sym at) (find-append remote existing fresh ∙ sym present)
            | no other ↦
                find-append_ne k remote existing other ∙ reflects.lookup k ∙ sym (rest k other)
          ];
        };
        elsewhere = elsewhere;
      }

  pub updated-IsStored :
      (zone id : Text) (s : C.State) (existing : Listing) (sent : Types.Record) {remote : DnsRecord}
      {s' : C.State} {changed : Listing}
      → Reflects existing s zone
      → C.update_record s zone id sent ≡ returned remote s'
      → remote.id ≡ id
      → replace_first id remote existing ≡ some changed
      → IsStored zone s s' changed
  updated-IsStored zone id s existing sent {remote} {s'} {changed} reflects e named got =
      let (same, present, rest, elsewhere) = store.updated s zone id sent e in
      record {
        reflects = record {
          unrepeated = Unrepeated-replace_first id remote existing named got reflects.unrepeated;
          lookup = λ k. elim (text_eq.dec k id) [
            | yes at ↦
                subst (λ i. find (has_remote_id i) changed ≡ store.view s' zone i) (sym at)
                  (find-replace_first id remote existing named got ∙ sym present)
            | no other ↦
                find-replace_first_ne k id remote existing named other got
                ∙ reflects.lookup k
                ∙ sym (rest k other)
          ];
        };
        elsewhere = elsewhere;
      }
