-- ===== src/Sync/Run/Settled.antt =====
-- The loop of `run_sync` in src/sync.rs on a provider that is a store: where a run with no error
-- leaves the rows.
use vercel_ddns.Base.{
  ◌≡◌, ◌≢◌, ◌∙◌, refl, sym, ap, subst, Text, Option, none, some, List, [], ◌∷◌, ◌&&◌, not, arith,
  text_eq, option_eq, Bool-cases, inl, inr, All,
}
use vercel_ddns.Base.Int.{ℤ}
use vercel_ddns.Base.Outcome.{Result, ok, err, Ran, done, Ran-cases, world}
use vercel_ddns.Net.Ipv6.{Ipv6}
use vercel_ddns.Storage.{Record, find_row}
use vercel_ddns.Storage.Constraints.{IsConsistent}
use vercel_ddns.Cloudflare.Types.{Zone}
use vercel_ddns.Cloudflare.Client.{Client}
use vercel_ddns.Sync.World.{World}
use vercel_ddns.Sync.Keeps.{sync_record-Keeps}
use vercel_ddns.Sync.Rows.{IsConsistent-IsClosed}
use vercel_ddns.Sync.Reconcile.{Label}
use vercel_ddns.Sync.Reconcile.Store.{IsStore}
use vercel_ddns.Sync.Run.{
  SyncOutcome, Cache, Tried, sync_record, sync_records, count, bump, is_dynamic, is_periodic,
}
use vercel_ddns.Sync.Run.Answers.{IsReady}
use vercel_ddns.Sync.Run.Writes.{Allowed, count-source, count-ipv4}
use vercel_ddns.Sync.Run.Settling.{Coherent, IsInPlace}
use vercel_ddns.Sync.Run.Taken.{sync_record-IsTaken}

-- No row shares its ID with one of these.
abbrev pub Away : Record → List Record → Type 0
Away r records = All (λ (s : Record). r.id ≢ s.id) records

abbrev pub Distinct : List Record → Type 0
Distinct [] = Unit
Distinct (r ∷ records) = Away r records × Distinct records

abbrev pub HeldIn : List Record → List Record → Type 0
HeldIn rows records = All (λ (r : Record). find_row r.id rows ≡ some r) records

HeldIn-rewritten :
    (r : Record) (before after records : List Record)
    → ((k : ℤ) → k ≢ r.id → find_row k after ≡ find_row k before)
    → Away r records
    → HeldIn before records
    → HeldIn after records
HeldIn-rewritten r before after [] same away h = tt
HeldIn-rewritten r before after (s ∷ records) same (other, away) (at, h) =
    (same s.id (λ e. other (sym e)) ∙ at, HeldIn-rewritten r before after records same away h)

-- An error that a run has met is not forgotten.
count-error :
    (tried : Result Text Label) (o : SyncOutcome)
    → (count tried o).error ≡ none
    → ((l : Label) × (tried ≡ ok l)) × (o.error ≡ none)
count-error (ok l) o h = ((l, refl), ground arith)
count-error (err e) o h = absurd (ground arith)

module _ (C : Client) (V : Ipv6) (zones : List Zone) where
  sync_records-error :
      (records : List Record) (cache : Cache) (o : SyncOutcome) (w : World C) {o' : SyncOutcome}
      {w' : World C}
      → sync_records C V zones records cache o w ≡ done o' w'
      → o'.error ≡ none
      → o.error ≡ none
  unfolding sync_records
  sync_records-error [] cache o w h e = ground arith
  sync_records-error (r ∷ records) cache o w {o'} {w'} h e =
      elim (Bool-cases (is_periodic o.source && not (is_dynamic r))) [
        | inl skip ↦
            let ih =
              sync_records-error records cache (record o { unchanged = bump o.unchanged }) w
                {o' = o'} {w' = w'} (ground arith) e in
            ih
        | inr act ↦ elim (Ran-cases (sync_record C V zones o.ipv4 r cache w)) [
          | inl ((tried, cache'), w₁, got) ↦
              let ih =
                sync_records-error records cache' (count tried o) w₁ {o' = o'} {w' = w'}
                  (ground arith) e in
              (count-error tried o ih).1
          | inr (inl (f, w₁, got)) ↦ absurd (ground arith)
          | inr (inr (w₁, got)) ↦ absurd (ground arith)
        ]
      ]

module _ (C : Client) (store : IsStore C) (V : Ipv6) (zones : List Zone) (source : Text)
    (ipv4 : Option Text) where
  abbrev Here : Record → World C → Type 0
  Here r w = IsInPlace C store V zones ipv4 r w.db.rows w.cloud

  -- The rows that the run may write for are in place, and those that were stay so.
  abbrev pub Ends : List Record → World C → World C → Type 0
  Ends records w w' =
      All (λ r. Allowed source r → Here r w') records
      × ((s : Record) → Away s records → Here s w → Here s w')

  pub sync_records-Ends :
      (records : List Record) (cache : Cache) (o : SyncOutcome) (w : World C) {o' : SyncOutcome}
      {w' : World C}
      → o.source ≡ source
      → o.ipv4 ≡ ipv4
      → All (IsReady V ipv4) records
      → Distinct records
      → HeldIn w.db.rows records
      → IsConsistent w.db
      → Coherent C store cache w.cloud
      → sync_records C V zones records cache o w ≡ done o' w'
      → o'.error ≡ none
      → Ends records w w'
  unfolding sync_records
  sync_records-Ends [] cache o w {o'} {w'} src ip ready distinct held consistent coherent h e =
      let same : w ≡ w' = ground arith in (tt, λ s away p. subst (Here s) same p)
  sync_records-Ends (r ∷ records) cache o w {o'} {w'} src ip (ready, readies) (away, distinct)
        (at, held) consistent coherent h e =
      elim (Bool-cases (is_periodic o.source && not (is_dynamic r))) [
        | inl skip ↦
            let (all, rest) =
              sync_records-Ends records cache (record o { unchanged = bump o.unchanged }) w
                {o' = o'} {w' = w'} src ip readies distinct held consistent coherent (ground arith)
                e in
            ((λ allowed. absurd (ground arith), all), λ s far p. rest s far.1 p)
        | inr act ↦ elim (Ran-cases (sync_record C V zones ipv4 r cache w)) [
          | inl ((tried, cache'), w₁, got) ↦
              let go : sync_records C V zones records cache' (count tried o) w₁ ≡ done o' w' =
                ground arith in
              let cleared =
                sync_records-error C V zones records cache' (count tried o) w₁ {o' = o'} {w' = w'}
                  go e in
              let ((l, fine), _) = count-error tried o cleared in
              let taken =
                sync_record-IsTaken C store V zones ipv4 r cache w {label = l} {cache' = cache'}
                  {w' = w₁} ready consistent at coherent
                  (got ∙ ap (λ (t : Result Text Label). done (t, cache') w₁) fine) in
              let kept =
                sync_record-Keeps C IsConsistent IsConsistent-IsClosed V zones ipv4 r cache w
                  consistent in
              let consistent' : IsConsistent w₁.db =
                subst (λ (x : Ran (World C) (Tried C V)). IsConsistent (world x).db) got kept in
              let (all, rest) =
                sync_records-Ends records cache' (count tried o) w₁ {o' = o'} {w' = w'}
                  (count-source tried o ∙ src) (count-ipv4 tried o ∙ ip) readies distinct
                  (HeldIn-rewritten r w.db.rows w₁.db.rows records taken.rows away held) consistent'
                  taken.coherent go e in
              (
                (λ allowed. rest r away taken.placed, all),
                λ s far p. rest s far.1 (taken.remains s far.0 p),
              )
          | inr (inl (f, w₁, got)) ↦ absurd (ground arith)
          | inr (inr (w₁, got)) ↦ absurd (ground arith)
        ]
      ]
