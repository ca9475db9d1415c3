-- ===== src/Sync/Run/Quiet.antt =====
-- The loop of `run_sync` in src/sync.rs over rows that are in place, on a provider that is a store.
use vercel_ddns.Base.{
  ◌≡◌, ◌∙◌, refl, Text, Option, List, [], ◌∷◌, ◌&&◌, not, arith, text_eq, option_eq, Bool-cases,
  inl, inr, All,
}
use vercel_ddns.Base.Outcome.{Result, done}
use vercel_ddns.Net.Ipv6.{Ipv6}
use vercel_ddns.Storage.{Record}
use vercel_ddns.Cloudflare.Types.{Zone}
use vercel_ddns.Cloudflare.Client.{Client}
use vercel_ddns.Sync.World.{World}
use vercel_ddns.Sync.Reconcile.{Label}
use vercel_ddns.Sync.Reconcile.Store.{IsStore}
use vercel_ddns.Sync.Run.{SyncOutcome, Cache, sync_records, count, bump, is_dynamic, is_periodic}
use vercel_ddns.Sync.Run.Writes.{Allowed, count-source, count-ipv4}
use vercel_ddns.Sync.Run.Settling.{Coherent, SameView}
use vercel_ddns.Sync.Run.Still.{
  OnlyReads, OnlyReads-trans, Idle, sync_record-IsIdle, IsStill, IsStill-SameView,
}

module _ (C : Client) (store : IsStore C) (V : Ipv6) (zones : List Zone) (ipv4 : Option Text) where
  abbrev pub AllStill : Text → List Record → C.State → Type 0
  AllStill source records s = All (λ r. Allowed source r → IsStill C store V zones ipv4 r s) records

  pub AllStill-SameView :
      (source : Text) (records : List Record) {before s : C.State}
      → SameView C store before s
      → AllStill source records before
      → AllStill source records s
  AllStill-SameView source [] same h = tt
  AllStill-SameView source (r ∷ records) same (p, h) = (
    λ allowed. IsStill-SameView C store V zones ipv4 r same (p allowed),
    AllStill-SameView source records same h,
  )

  -- What a run over rows in place leaves: it writes nothing and counts no write.
  pub record IsQuiet (records : List Record) (cache : Cache) (o : SyncOutcome) (w : World C)
      : Type 0 where
    pub o' : SyncOutcome
    pub w' : World C
    pub ran : sync_records C V zones records cache o w ≡ done o' w'
    pub created : o'.created ≡ o.created
    pub updated : o'.updated ≡ o.updated
    pub same_db : w'.db ≡ w.db
    pub same_view : SameView C store w.cloud w'.cloud
    pub reads : OnlyReads w.calls w'.calls

  count-Idle :
      (tried : Result Text Label) (o : SyncOutcome)
      → Idle C store V zones ipv4 tried
      → ((count tried o).created ≡ o.created) × ((count tried o).updated ≡ o.updated)
  count-Idle tried o h = ground arith

  pub sync_records-IsQuiet :
      (source : Text) (records : List Record) (cache : Cache) (o : SyncOutcome) (w : World C)
      → o.source ≡ source
      → o.ipv4 ≡ ipv4
      → AllStill source records w.cloud
      → Coherent C store cache w.cloud
      → IsQuiet records cache o w
  unfolding sync_records
  sync_records-IsQuiet source [] cache o w src ip h coherent = record {
    o' = o;
    w' = w;
    ran = refl;
    created = refl;
    updated = refl;
    same_db = refl;
    same_view = λ z k. refl;
    reads = ([], tt, refl);
  }
  sync_records-IsQuiet source (r ∷ records) cache o w src ip (p, h) coherent =
      elim (Bool-cases (is_periodic o.source && not (is_dynamic r))) [
        | inl skip ↦
            let rest =
              sync_records-IsQuiet source records cache (record o { unchanged = bump o.unchanged })
                w src ip h coherent in
            let ran = rest.ran in
            record {
              o' = rest.o';
              w' = rest.w';
              ran = ground arith;
              created = rest.created;
              updated = rest.updated;
              same_db = rest.same_db;
              same_view = rest.same_view;
              reads = rest.reads;
            }
        | inr act ↦
            let first =
              sync_record-IsIdle C store V zones ipv4 r cache w (p (ground arith)) coherent in
            let rest =
              sync_records-IsQuiet source records first.cache' (count first.tried o) first.w'
                (count-source first.tried o ∙ src) (count-ipv4 first.tried o ∙ ip)
                (AllStill-SameView source records first.same_view h) first.coherent in
            let (created, updated) = count-Idle first.tried o first.idle in
            let one = first.ran in
            let more = rest.ran in
            record {
              o' = rest.o';
              w' = rest.w';
              ran = ground arith;
              created = rest.created ∙ created;
              updated = rest.updated ∙ updated;
              same_db = rest.same_db ∙ first.same_db;
              same_view = λ z k. rest.same_view z k ∙ first.same_view z k;
              reads = OnlyReads-trans first.reads rest.reads;
            }
      ]
