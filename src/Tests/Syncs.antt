-- ===== src/Tests/Syncs.antt =====
-- Runs of a sync against the provider in memory.
use vercel_ddns.Base.{
  ℕ, ◌+◌, true, Text, codes, some, [], ◌∷◌, ◌≡◌, refl, arith, All, inl, inr, sym, subst, text_eq,
  nat_eq, option_eq, List, max_by_key,
}
use vercel_ddns.Base.Int.{int_eq, as_unsigned}
use vercel_ddns.Base.Outcome.{Ran, done, world}
use vercel_ddns.Base.Strings
use vercel_ddns.Net.Ipv4
use vercel_ddns.Net.Numbers
use vercel_ddns.Ip
use vercel_ddns.Storage
use vercel_ddns.Storage.{Record, is_none}
use vercel_ddns.Sync.Matching
use vercel_ddns.Sync.World.{World}
use vercel_ddns.Sync.Reconcile
use vercel_ddns.Sync.Run
use vercel_ddns.Sync.Run.{SyncRequest, Surroundings, SyncOutcome}
use vercel_ddns.Sync.Run.Totals.{Accounted, run_sync-Accounted}
use vercel_ddns.Sync.Matching.Sound.{IsSound}
use vercel_ddns.Sync.Run.Writes.{In}
use vercel_ddns.Sync.Run.Effects.{JustifiedHere, run_sync-JustifiedHere, address}
use vercel_ddns.Sync.Run.Answers.{IsReady, IsDone, run_sync-IsDone}
use vercel_ddns.Webhook.{reply}
use vercel_ddns.Webhook.Answers.{reply-run_sync}
use vercel_ddns.Tests.Reconciles.{home_text, host-IsSound, memory-KeepsIds}
use vercel_ddns.Tests.Fixtures.{memory, loopback, host, mail, start_world}

abbrev request : SyncRequest
request = record { source = codes "timer"; myip = some (record { a = 9; b = 8; c = 7; d = 6 }) }

abbrev around : Surroundings
around = record { started = 5; finished = 6; answers = []; order = λ v. v }

run : World memory → Ran (World memory) SyncOutcome
unfolding Run.run_sync Run.sync_body Run.sync_all Run.sync_records Run.sync_record Run.choose_value
    Run.choose_zone Run.fetch Run.cached Run.with_ipv4 Storage.list Storage.order_rows
    Storage.insert_row Storage.precedes Storage.int_le Storage.set_provider_id Storage.find_row
    Storage.write_row Storage.row_check Storage.conflicts Storage.clashes Storage.others
    Storage.replace_row Ip.resolve_ipv4 Ipv4.display Numbers.print_octet Matching.belongs_to
    Matching.same_name Matching.kind_of Matching.identity_matches Matching.desired
    Matching.content_matches Matching.up_to_date Reconcile.reconcile Reconcile.create_new
    Reconcile.find_identity Reconcile.adopt Strings.ends_with Strings.eq_ignore_ascii_case
    Strings.to_ascii_lowercase Strings.lower Strings.trim_end_matches Strings.len max_by_key text_eq
    nat_eq option_eq int_eq as_unsigned
run = Run.run_sync memory loopback request around

abbrev counts : Ran (World memory) SyncOutcome → List ℕ
counts (done o w) = o.created ∷ o.updated ∷ o.unchanged ∷ o.failed ∷ []
counts _ = []

-- A timer run creates the dynamic record and passes over the static one.
run_creates : counts (run (start_world (mail ∷ host ∷ []))) ≡ 1 ∷ 0 ∷ 1 ∷ 0 ∷ []
unfolding run
run_creates = refl

abbrev both : World memory
both = start_world (mail ∷ host ∷ [])

abbrev outcome_of : Ran (World memory) SyncOutcome → SyncOutcome
outcome_of (done o w) = o
outcome_of _ = Run.start memory loopback request around

run-both :
    Run.run_sync memory loopback request around both
    ≡ done (outcome_of (run both)) (world (run both))
unfolding run
run-both = refl

run_sync-Accounted_example : Accounted memory loopback request around 2 (outcome_of (run both))
run_sync-Accounted_example =
    run_sync-Accounted memory loopback request around both {o = outcome_of (run both)}
      {w' = world (run both)} (omega arith) run-both

run_sync-JustifiedHere_example :
    All
      (JustifiedHere memory loopback request around both)
      (world (Run.run_sync memory loopback request around both)).calls
run_sync-JustifiedHere_example = run_sync-JustifiedHere memory loopback request around both tt

found_address : address memory loopback request around both ≡ some home_text
unfolding Run.with_ipv4 Storage.order_rows Storage.insert_row Storage.precedes text_eq
    Ip.resolve_ipv4 Ipv4.display Numbers.print_octet
found_address = refl

choice_host :
    (value : Text) → Run.choose_value (some home_text) host ≡ some value → home_text ≡ value
unfolding Run.choose_value
choice_host value h = ground arith

mail-IsSound : (value : Text) → IsSound loopback mail value
unfolding Matching.kind_of text_eq
mail-IsSound value = record { ttl = (60, refl, omega arith); fits = tt }

both-IsReady :
    (r : Record)
    → In r both.db.rows
    → IsReady loopback (address memory loopback request around both) r
both-IsReady r (inl e) value c = subst (λ x. IsSound loopback x value) (sym e) (mail-IsSound value)
both-IsReady r (inr (inl e)) value c =
    subst (λ x. IsSound loopback x value) (sym e)
      (subst (IsSound loopback host)
        (choice_host value (
          subst (λ o. Run.choose_value o host ≡ some value) found_address
            (subst
              (λ x. Run.choose_value (address memory loopback request around both) x ≡ some value) e
              c)))
        host-IsSound)
both-IsReady r (inr (inr e)) value c = absurd e

run_sync-IsDone_example : IsDone (Run.run_sync memory loopback request around both)
run_sync-IsDone_example =
    run_sync-IsDone memory loopback request around memory-KeepsIds both both-IsReady

answered-both : (reply (some (outcome_of (run both)))).status ≡ 200
unfolding run reply Run.is_ok nat_eq Run.is_changed Strings.trim_end_matches Strings.is_whitespace
answered-both = refl

reply-run_sync_example :
    (is_none (outcome_of (run both)).error ≡ true)
    × ((outcome_of (run both)).created
          + (outcome_of (run both)).updated
          + (outcome_of (run both)).unchanged
        ≡ 2)
reply-run_sync_example =
    reply-run_sync memory loopback request around both {o = outcome_of (run both)}
      {w' = world (run both)} (omega arith) run-both answered-both
