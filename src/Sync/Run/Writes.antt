-- ===== src/Sync/Run/Writes.antt =====
-- The writes that the loop of `run_sync` in src/sync.rs makes.
use vercel_ddns.Base.{
  ◌≡◌, ◌⊎◌, refl, sym, subst, inl, inr, Text, false, ◌&&◌, not, Option, some, List, [], ◌∷◌, arith,
  text_eq, Bool-cases, Option-cases, All, ◌∙◌,
}
use vercel_ddns.Base.Outcome.{Result, Ran, done, failed, panicked, Ran-cases, world, ◌>>=◌}
use vercel_ddns.Net.Ipv6.{Ipv6}
use vercel_ddns.Storage.{Record}
use vercel_ddns.Cloudflare.Types
use vercel_ddns.Cloudflare.Types.{Zone, CloudflareError, DnsRecord}
use vercel_ddns.Cloudflare.Client.{Client}
use vercel_ddns.Sync.Matching.{desired}
use vercel_ddns.Sync.World
use vercel_ddns.Sync.World.{World, Call}
use vercel_ddns.Sync.Reconcile.{Label, Listing, reconcile}
use vercel_ddns.Sync.Reconcile.Calls.{OneWrite, Write, creates, updates, reconcile-calls}
use vercel_ddns.Sync.Run.{
  SyncOutcome, Cache, count, bump, sync_record, sync_records, fetch, choose_value, choose_zone,
  is_dynamic, is_periodic, then_reconcile, caught,
}

-- Membership by recursion, which the tactics read.
abbrev pub In : Record → List Record → Type 0
In r [] = ⊥
In r (s ∷ rows) = (r ≡ s) ⊎ In r rows

-- What a periodic sync may write for.
abbrev pub Allowed : Text → Record → Type 0
Allowed source r = (is_periodic source && not (is_dynamic r)) ≡ false

module _ (source : Text) (ipv4 : Option Text) (zones : List Zone) (rows : List Record) where
  -- A row of the table asks for this content in the longest zone that its name belongs to.
  pub record Asked (zone : Text) (sent : Types.Record) : Type 0 where
    pub row : Record
    pub value : Text
    pub chosen : Zone
    pub listed : In row rows
    pub allowed : Allowed source row
    pub has_value : choose_value ipv4 row ≡ some value
    pub in_zone : choose_zone zones row.fqdn ≡ some chosen
    pub zone_id : chosen.id ≡ zone
    pub body : desired row value ≡ some sent

  -- A read, or a write that a row asks for. A sync deletes nothing.
  abbrev pub Justified : Call → Type 0
  Justified (World.create_record zone sent) = Asked zone sent
  Justified (World.update_record zone id sent) = Asked zone sent
  Justified (World.delete_record zone id) = ⊥
  Justified _ = Unit

pub count-source : (tried : Result Text Label) (o : SyncOutcome) → (count tried o).source ≡ o.source
count-source tried o = ground arith

pub count-ipv4 : (tried : Result Text Label) (o : SyncOutcome) → (count tried o).ipv4 ≡ o.ipv4
count-ipv4 tried o = ground arith

module _ (C : Client) (V : Ipv6) (source : Text) (ipv4 : Option Text) (zones : List Zone)
    (rows : List Record) where
  abbrev pub Fair : World C → Type 0
  Fair w = All (Justified source ipv4 zones rows) w.calls

  Justified-Write :
      (r : Record) (value : Text) (zone : Zone) (existing : Listing) (call : Call)
      → In r rows
      → Allowed source r
      → choose_value ipv4 r ≡ some value
      → choose_zone zones r.fqdn ≡ some zone
      → Write C V r zone.id value existing call
      → Justified source ipv4 zones rows call
  Justified-Write r value zone existing _ listed allowed v z (creates sent made) = record {
    row = r;
    value = value;
    chosen = zone;
    listed = listed;
    allowed = allowed;
    has_value = v;
    in_zone = z;
    zone_id = refl;
    body = made;
  }
  Justified-Write r value zone existing _ listed allowed v z (updates id sent remote at made) =
      record {
        row = r;
        value = value;
        chosen = zone;
        listed = listed;
        allowed = allowed;
        has_value = v;
        in_zone = z;
        zone_id = refl;
        body = made;
      }

  Fair-fetch :
      (zone : Text) (cache : Cache) (w : World C) → Fair w → Fair (world (fetch C V zone cache w))
  unfolding fetch
  Fair-fetch zone cache w h = ground arith

  Fair-OneWrite :
      (before after : List Call) (existing : Listing) (r : Record) (zone : Zone) (value : Text)
      → OneWrite C V r zone.id value existing before after
      → ((call : Call)
          → Write C V r zone.id value existing call
          → Justified source ipv4 zones rows call)
      → All (Justified source ipv4 zones rows) before
      → All (Justified source ipv4 zones rows) after
  Fair-OneWrite before after existing r zone value (inl e) fair h =
      subst (All (Justified source ipv4 zones rows)) (sym e) h
  Fair-OneWrite before after existing r zone value (inr (call, wr, e)) fair h =
      subst (All (Justified source ipv4 zones rows)) (sym e) (fair call wr, h)

  Fair-caught :
      (zone : Text) (cache : Cache) (ran : Ran (World C) (Label × Listing))
      → Fair (world ran)
      → Fair (world (caught C V zone cache ran))
  Fair-caught zone cache (done (label, listing) w) h = h
  Fair-caught zone cache (failed e w) h = h
  Fair-caught zone cache (panicked w) h = h

  Fair-then_reconcile :
      (r : Record) (value : Text) (zone : Zone) (cache : Cache)
      (fetched : Ran (World C) (Listing × Cache))
      → In r rows
      → Allowed source r
      → choose_value ipv4 r ≡ some value
      → choose_zone zones r.fqdn ≡ some zone
      → Fair (world fetched)
      → Fair (world (then_reconcile C V r zone.id value cache fetched))
  Fair-then_reconcile r value zone cache (done (listing, cache') w) listed allowed v z h =
      let ran = reconcile C V r zone.id listing value w in
      Fair-caught zone.id cache' ran (
        Fair-OneWrite w.calls (world ran).calls listing r zone value
          (reconcile-calls C V r zone.id value listing w)
          (λ call wr. Justified-Write r value zone listing call listed allowed v z wr) h)
  Fair-then_reconcile r value zone cache (failed e w) listed allowed v z h = h
  Fair-then_reconcile r value zone cache (panicked w) listed allowed v z h = h

  -- One record of the loop.
  Fair-sync_record :
      (r : Record) (cache : Cache) (w : World C)
      → In r rows
      → Allowed source r
      → Fair w
      → Fair (world (sync_record C V zones ipv4 r cache w))
  unfolding sync_record
  Fair-sync_record r cache w listed allowed h = elim (Option-cases (choose_value ipv4 r)) [
    | inl valueless ↦ ground arith
    | inr (value, v) ↦ elim (Option-cases (choose_zone zones r.fqdn)) [
      | inl nowhere ↦ ground arith
      | inr (zone, z) ↦ ground (
        arith,
        Fair-then_reconcile r value zone cache (fetch C V zone.id cache w) listed allowed v z
            (Fair-fetch zone.id cache w h),
      )
    ]
  ]

  -- A record that is counted, and the rest of the loop after it.
  Fair-counted :
      (r : Record) (records : List Record) (cache : Cache) (o : SyncOutcome) (w : World C)
      → ((cache' : Cache) (o' : SyncOutcome) (w' : World C)
          → o'.source ≡ source
          → o'.ipv4 ≡ ipv4
          → Fair w'
          → Fair (world (sync_records C V zones records cache' o' w')))
      → o.source ≡ source
      → o.ipv4 ≡ ipv4
      → Fair (world (sync_record C V zones o.ipv4 r cache w))
      → Fair (
          world (
            (sync_record C V zones o.ipv4 r cache >>= λ tried.
            sync_records C V zones records tried.1 (count tried.0 o))
              w))
  Fair-counted r records cache o w rest src ip h =
      elim (Ran-cases (sync_record C V zones o.ipv4 r cache w)) [
        | inl ((tried, cache'), w₁, got) ↦
            let before : Fair w₁ = subst (λ ran. Fair (world ran)) got h in
            let after =
              rest cache' (count tried o) w₁ (count-source tried o ∙ src) (count-ipv4 tried o ∙ ip)
                before in
            ground (arith, after)
        | inr (inl (f, w₁, got)) ↦ ground arith
        | inr (inr (w₁, got)) ↦ ground arith
      ]

  -- The loop, over rows of the table.
  pub Fair-sync_records :
      (records : List Record) (cache : Cache) (o : SyncOutcome) (w : World C)
      → All (λ r. In r rows) records
      → o.source ≡ source
      → o.ipv4 ≡ ipv4
      → Fair w
      → Fair (world (sync_records C V zones records cache o w))
  unfolding sync_records
  Fair-sync_records [] cache o w listed src ip h = h
  Fair-sync_records (r ∷ records) cache o w (hr, hrs) src ip h =
      elim (Bool-cases (is_periodic source && not (is_dynamic r))) [
        | inl skip ↦ ground (
          arith,
          Fair-sync_records records cache (record o { unchanged = bump o.unchanged }) w hrs src ip
              h,
        )
        | inr allowed ↦ ground (
          arith,
          Fair-counted r records cache o w
              (λ cache' o' w₁ s i f. Fair-sync_records records cache' o' w₁ hrs s i f) src ip
              (subst (λ i. Fair (world (sync_record C V zones i r cache w))) (sym ip)
                (Fair-sync_record r cache w hr allowed h)),
        )
      ]
