-- ===== src/Webhook/Answers.antt =====
-- What an answer of `nic_update` of src/webhook.rs says about the run behind it.
use vercel_ddns.Base.{
  ◌+◌, ◌^◌, ◌<◌, ◌≡◌, inl, inr, true, ◌&&◌, some, arith, length, Bool-cases, ◌==◌, nat_eq,
}
use vercel_ddns.Base.Outcome.{done}
use vercel_ddns.Net.Ipv6.{Ipv6}
use vercel_ddns.Storage.{is_none}
use vercel_ddns.Cloudflare.Client.{Client}
use vercel_ddns.Sync.World.{World}
use vercel_ddns.Sync.Run.{SyncOutcome, SyncRequest, Surroundings, run_sync, is_ok}
use vercel_ddns.Sync.Run.Totals.{run_sync-Accounted}
use vercel_ddns.Webhook.{reply}

reply-ok :
    (o : SyncOutcome) → (reply (some o)).status ≡ 200 → (o.failed ≡ 0) × (is_none o.error ≡ true)
unfolding reply is_ok
reply-ok o h = elim (Bool-cases (o.failed == 0 && is_none o.error)) [
  | inl fine ↦ (ground arith, ground arith)
  | inr bad ↦ absurd (ground arith)
]

-- The router is answered with 200 only if the run behind the answer has stored no error and has
-- counted every row of the table, of which there are fewer than 2^32, as created, updated or
-- unchanged.
pub reply-run_sync :
    (C : Client) (V : Ipv6) (request : SyncRequest) (around : Surroundings) (w : World C)
    {o : SyncOutcome} {w' : World C}
    → length w.db.rows < 2 ^ 32
    → run_sync C V request around w ≡ done o w'
    → (reply (some o)).status ≡ 200
    → (is_none o.error ≡ true) × (o.created + o.updated + o.unchanged ≡ length w.db.rows)
reply-run_sync C V request around w {o} {w'} few ran good =
    let (none_failed, no_error) = reply-ok o good in
    elim (run_sync-Accounted C V request around w {o = o} {w' = w'} few ran) [
      | inl all ↦ (no_error, omega (arith, all, none_failed))
      | inr (_, error) ↦ absurd (ground arith)
    ]
