-- ===== src/Service/Addresses.antt =====
-- The addresses that a run of `run_sync` meets, and the runs over a well-formed table.
use vercel_ddns.Base.{
  ◌<◌, ◌≡◌, sym, subst, inl, inr, Option, none, some, List, [], ◌∷◌, arith, All, ◌==◌, Option-cases,
  Bool-cases, text_eq,
}
use vercel_ddns.Base.Outcome.{Ran, done, world}
use vercel_ddns.Net.Ipv4
use vercel_ddns.Net.Ipv4.{Ipv4Addr}
use vercel_ddns.Net.Ipv4.RoundTrip
use vercel_ddns.Net.Ipv6.{Ipv6, IsLawful}
use vercel_ddns.Storage.{Record}
use vercel_ddns.Cloudflare.Client.{Client}
use vercel_ddns.Ip.{IpAddr, v4, v6, ipaddr_eq, resolve_ipv4, consensus_addr}
use vercel_ddns.Ip.Votes.{votes_for, consensus_addr-eq-some}
use vercel_ddns.Sync.World.{World}
use vercel_ddns.Sync.Reconcile.Panics.{KeepsIds}
use vercel_ddns.Sync.Run.{Surroundings, SyncOutcome, SyncRequest, run_sync, with_ipv4}
use vercel_ddns.Sync.Run.Writes.{In}
use vercel_ddns.Sync.Run.Effects.{address}
use vercel_ddns.Sync.Run.Answers.{run_sync-IsDone}
use vercel_ddns.Sync.Keeps.{run_sync-Keeps}
use vercel_ddns.Api.Validate.Rows.{IsValidated, Readable, IsReady-IsValidated}
use vercel_ddns.Api.Handlers.Tables.{IsWellFormed, IsWellFormed-IsClosed}
use vercel_ddns.Service.{IsIpAddr, IsSane}

-- A named address is one of the answers.
votes_for-All :
    (P : IpAddr → Type 0) (a : IpAddr) (answers : List IpAddr)
    → All P answers
    → 0 < votes_for a answers
    → P a
unfolding votes_for
votes_for-All P a [] h lt = absurd (omega arith)
votes_for-All P a (b ∷ answers) (hb, h) lt = elim (Bool-cases (a == b)) [
  | inl same ↦ let e : b ≡ a = ground arith in subst P e hb
  | inr other ↦ votes_for-All P a answers h (ground arith)
]

abbrev pub HintIsAddr : Option Ipv4Addr → Type 0
HintIsAddr hint = (ip : Ipv4Addr) → hint ≡ some ip → Ipv4.IsAddr ip

resolve_ipv4-IsAddr :
    (around : Surroundings) (hint : Option Ipv4Addr)
    → IsSane around
    → HintIsAddr hint
    → HintIsAddr (resolve_ipv4 around.order around.answers hint)
unfolding resolve_ipv4
resolve_ipv4-IsAddr around (some given) sane h ip e = h ip e
resolve_ipv4-IsAddr around none sane h ip e =
    elim (Option-cases (consensus_addr around.order around.answers)) [
      | inl none_won ↦ absurd (ground arith)
      | inr (v6 n, won) ↦ absurd (ground arith)
      | inr (v4 winner, won) ↦
          let (two, _) = consensus_addr-eq-some around.order around.answers sane.order won in
          let fits =
            votes_for-All IsIpAddr (v4 winner) around.answers sane.addresses (omega arith) in
          let same : winner ≡ ip = ground arith in subst Ipv4.IsAddr same fits
    ]

module _ (C : Client) (V : Ipv6) (L : IsLawful V) where
  -- The address that a run finds is the text of an address.
  pub address-Readable :
      (r : Record) (request : SyncRequest) (around : Surroundings) (w : World C)
      → IsSane around
      → HintIsAddr request.myip
      → Readable V L r (address C V request around w)
  unfolding with_ipv4
  address-Readable r request around w sane h s e =
      elim (Option-cases (resolve_ipv4 around.order around.answers request.myip)) [
        | inl nothing ↦ absurd (ground arith)
        | inr (ip, found) ↦
            let fits = resolve_ipv4-IsAddr around request.myip sane h ip found in
            let same : Ipv4.display ip ≡ s = ground arith in
            (ip, subst (λ t. Ipv4.parse t ≡ some ip) same (RoundTrip.parse-display ip fits))
      ]

  pub In-All :
      (P : Record → Type 0) (rows : List Record) → All P rows → (r : Record) → In r rows → P r
  In-All P [] h r m = absurd m
  In-All P (x ∷ rows) (hx, h) r (inl e) = subst P (sym e) hx
  In-All P (x ∷ rows) (hx, h) r (inr m) = In-All P rows h r m

  -- A run over a well-formed table returns an outcome and leaves a well-formed table.
  pub run_sync-IsWellFormed :
      KeepsIds C
      → (request : SyncRequest) (around : Surroundings) (w : World C) → IsSane around
      → HintIsAddr request.myip
      → IsWellFormed V w.db
      → (o : SyncOutcome) × (w' : World C) × (run_sync C V request around w ≡ done o w')
        × IsWellFormed V w'.db
  run_sync-IsWellFormed keeps request around w sane hint h =
      let (o, w', e) = run_sync-IsDone C V request around keeps w (λ r m.
        IsReady-IsValidated V L r (address C V request around w)
          (address-Readable r request around w sane hint)
          (In-All (IsValidated V) w.db.rows h.valid r m)) in
      let kept = run_sync-Keeps C (IsWellFormed V) (IsWellFormed-IsClosed V) V request around w h in
      (o, w', e, subst (λ (x : Ran (World C) SyncOutcome). IsWellFormed V (world x).db) e kept)
