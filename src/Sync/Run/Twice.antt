-- ===== src/Sync/Run/Twice.antt =====
-- `run_sync` of src/sync.rs on a provider that is a store: the run after one with no error.
use vercel_ddns.Base.{
  ◌≡◌, ◌∙◌, refl, sym, ap, subst, codes, some, List, [], ◌∷◌, arith, text_eq, option_eq, inl, inr,
}
use vercel_ddns.Base.Outcome.{done, Reply-cases, returned, errored}
use vercel_ddns.Net.Ipv6.{Ipv6}
use vercel_ddns.Storage
use vercel_ddns.Storage.{Record, Database, find_row, order_rows, spend}
use vercel_ddns.Cloudflare.Client.{Client}
use vercel_ddns.Sync.World
use vercel_ddns.Sync.World.{World}
use vercel_ddns.Sync.Reconcile.Store.{IsStore, left}
use vercel_ddns.Sync.Run.{
  SyncOutcome, SyncRequest, Surroundings, sync_records, sync_all, sync_body, run_sync, with_ipv4,
  start,
}
use vercel_ddns.Sync.Run.Totals.{list-eq-returned}
use vercel_ddns.Sync.Run.Effects.{address, with_ipv4-source}
use vercel_ddns.Sync.Run.Settling.{SameView}
use vercel_ddns.Sync.Run.Still.{OnlyReads, OnlyReads-trans}
use vercel_ddns.Sync.Run.Quiet.{AllStill, AllStill-SameView, sync_records-IsQuiet}
use vercel_ddns.Sync.Run.Placing.{list-rows, first, at_loop, none_cached}

list_refused :
    (db : Database) {f : Storage.DbError} {db' : Database}
    → Storage.list db ≡ errored f db'
    → db' ≡ spend db
unfolding Storage.list
list_refused db e = ground arith

module _ (C : Client) (store : IsStore C) (V : Ipv6) (request : SyncRequest) (around : Surroundings)
    (w : World C) where
  -- A run that writes nothing: it creates and updates no record, adds only reads to the calls, and
  -- leaves the rows and what the provider holds.
  pub record IsIdleRun : Type 0 where
    pub o : SyncOutcome
    pub w' : World C
    pub ran : run_sync C V request around w ≡ done o w'
    pub created : o.created ≡ 0
    pub updated : o.updated ≡ 0
    pub same_rows : w'.db.rows ≡ w.db.rows
    pub same_view : SameView C store w.cloud w'.cloud
    pub reads : OnlyReads w.calls w'.calls

  with_ipv4-counts :
      (records : List Record) (o : SyncOutcome)
      → ((with_ipv4 C V request around records o).created ≡ o.created)
        × ((with_ipv4 C V request around records o).updated ≡ o.updated)
  unfolding with_ipv4
  with_ipv4-counts records o = ground arith

  abbrev Stills : List Record → Type 0
  Stills records =
      AllStill C store V store.zones (address C V request around w) request.source records w.cloud

  loop-IsIdleRun :
      (r : Record) (records : List Record)
      → Storage.list w.db ≡ returned (r ∷ records) (spend w.db)
      → (first C V request around w (r ∷ records)).ipv4 ≡ address C V request around w
      → Stills (r ∷ records)
      → IsIdleRun
  unfolding run_sync sync_body sync_all
  loop-IsIdleRun r records got ip stills = elim (Reply-cases (C.list_zones w.cloud)) [
    | inr (f, s, ask) ↦
        let view : SameView C store w.cloud s = λ z k.
          subst (λ x. store.view (left x) z k ≡ store.view w.cloud z k) ask
            (store.zoned-view w.cloud z k) in
        let o₁ = first C V request around w (r ∷ records) in
        let (created, updated) = with_ipv4-counts (r ∷ records) (start C V request around) in
        record {
          o = record o₁ { error = some (C.to_text f); finished_at = around.finished };
          w' = at_loop C V request around w (spend w.db) s;
          ran = ground arith;
          created = created;
          updated = updated;
          same_rows = refl;
          same_view = view;
          reads = (World.list_zones ∷ [], (tt, tt), refl);
        }
    | inl (zones, s, ask) ↦
        let view : SameView C store w.cloud s = λ z k.
          subst (λ x. store.view (left x) z k ≡ store.view w.cloud z k) ask
            (store.zoned-view w.cloud z k) in
        let o₁ = first C V request around w (r ∷ records) in
        let w₁ = at_loop C V request around w (spend w.db) s in
        let (created, updated) = with_ipv4-counts (r ∷ records) (start C V request around) in
        let quiet =
          sync_records-IsQuiet C store V store.zones (address C V request around w) request.source
            (r ∷ records) [] o₁ w₁
            (with_ipv4-source C V request around w (r ∷ records) (start C V request around)) ip
            (AllStill-SameView C store V store.zones (address C V request around w) request.source
              (r ∷ records) view stills)
            (none_cached C V request around w store s) in
        let ran =
          subst (λ zs. sync_records C V zs (r ∷ records) [] o₁ w₁ ≡ done quiet.o' quiet.w')
            (sym (store.zoned w.cloud ask)) quiet.ran in
        record {
          o = record quiet.o' { finished_at = around.finished };
          w' = quiet.w';
          ran = ground arith;
          created = quiet.created ∙ created;
          updated = quiet.updated ∙ updated;
          same_rows = ap (λ (d : Database). d.rows) quiet.same_db;
          same_view = λ z k. quiet.same_view z k ∙ view z k;
          reads =
              OnlyReads-trans {before = w.calls} {between = w₁.calls} {after = quiet.w'.calls}
                (World.list_zones ∷ [], (tt, tt), refl) quiet.reads;
        }
  ]

  pub run_sync-IsIdleRun : Stills (order_rows w.db.collate w.db.rows) → IsIdleRun
  unfolding run_sync sync_body
  run_sync-IsIdleRun stills = elim (Reply-cases (Storage.list w.db)) [
    | inr (f, db, got) ↦
        let spent = list_refused w.db got in
        record {
          o = record (start C V request around) {
            error = some (codes "database read failed");
            finished_at = around.finished;
          };
          w' = record w { db = spend w.db };
          ran = ground arith;
          created = refl;
          updated = refl;
          same_rows = refl;
          same_view = λ z k. refl;
          reads = ([], tt, refl);
        }
    | inl ([], db, got) ↦
        let spent = list-rows w.db got in
        record {
          o = record (start C V request around) { finished_at = around.finished };
          w' = record w { db = spend w.db };
          ran = ground arith;
          created = refl;
          updated = refl;
          same_rows = refl;
          same_view = λ z k. refl;
          reads = ([], tt, refl);
        }
    | inl (r ∷ records, db, got) ↦
        let rows = list-eq-returned w.db got in
        let spent = list-rows w.db got in
        loop-IsIdleRun r records (got ∙ ap (λ (d : Database). returned (r ∷ records) d) spent)
          (ap (λ rs. (first C V request around w rs).ipv4) rows) (subst Stills (sym rows) stills)
  ]
