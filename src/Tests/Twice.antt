-- ===== src/Tests/Twice.antt =====
-- Two runs of a sync against a provider that is a store.
use vercel_ddns.Base.{
  ℕ, codes, some, none, [], ◌∷◌, ◌≡◌, refl, arith, inl, inr, text_eq, nat_eq, option_eq, List,
  max_by_key,
}
use vercel_ddns.Base.Int.{int_eq, as_unsigned}
use vercel_ddns.Base.Outcome.{Ran, done, world}
use vercel_ddns.Base.Strings
use vercel_ddns.Net.Ipv4
use vercel_ddns.Net.Numbers
use vercel_ddns.Ip
use vercel_ddns.Storage
use vercel_ddns.Storage.{Record, Database}
use vercel_ddns.Sync.Matching
use vercel_ddns.Sync.World.{World}
use vercel_ddns.Sync.Reconcile
use vercel_ddns.Sync.Run
use vercel_ddns.Sync.Run.{SyncRequest, Surroundings, SyncOutcome}
use vercel_ddns.Sync.Run.Writes.{Allowed}
use vercel_ddns.Sync.Run.Effects.{address}
use vercel_ddns.Sync.Run.Settling.{IsInPlace}
use vercel_ddns.Sync.Run.Twice.{IsIdleRun}
use vercel_ddns.Api.Validate
use vercel_ddns.Api.Handlers.Tables.{IsWellFormed}
use vercel_ddns.Service.{IsSane}
use vercel_ddns.Service.Addresses.{HintIsAddr}
use vercel_ddns.Service.Twice.{run_sync_places, run_sync_settles}
use vercel_ddns.Tests.Fixtures.{loopback, host, mail, database}
use vercel_ddns.Tests.Inputs.{loopback-IsLawful}
use vercel_ddns.Tests.Careful.{careful, careful-IsStore}

abbrev request : SyncRequest
request = record { source = codes "manual"; myip = some (record { a = 9; b = 8; c = 7; d = 6 }) }

abbrev around : Surroundings
around = record { started = 5; finished = 6; answers = []; order = λ v. v }

abbrev here : World careful
here = record {
  db = database (mail ∷ host ∷ []);
  cloud = record { records = []; fresh = codes "n" };
  calls = [];
}

run : World careful → Ran (World careful) SyncOutcome
unfolding Run.run_sync Run.sync_body Run.sync_all Run.sync_records Run.sync_record Run.choose_value
    Run.choose_zone Run.fetch Run.cached Run.with_ipv4 Storage.list Storage.order_rows
    Storage.insert_row Storage.precedes Storage.int_le Storage.set_provider_id Storage.find_row
    Storage.write_row Storage.row_check Storage.conflicts Storage.clashes Storage.others
    Storage.replace_row Ip.resolve_ipv4 Ipv4.display Numbers.print_octet Matching.belongs_to
    Matching.same_name Matching.kind_of Matching.identity_matches Matching.desired
    Matching.content_matches Matching.up_to_date Reconcile.reconcile Reconcile.create_new
    Reconcile.find_identity Reconcile.adopt Reconcile.replace_first Reconcile.refresh
    Strings.ends_with Strings.eq_ignore_ascii_case Strings.to_ascii_lowercase Strings.lower
    Strings.trim_end_matches Strings.len max_by_key text_eq nat_eq option_eq int_eq as_unsigned
run = Run.run_sync careful loopback request around

abbrev outcome_of : Ran (World careful) SyncOutcome → SyncOutcome
outcome_of (done o w) = o
outcome_of _ = Run.start careful loopback request around

abbrev counts : SyncOutcome → List ℕ
counts o = o.created ∷ o.updated ∷ o.unchanged ∷ o.failed ∷ []

first_creates : counts (outcome_of (run here)) ≡ 2 ∷ 0 ∷ 0 ∷ 0 ∷ []
unfolding run
first_creates = refl

run-here :
    Run.run_sync careful loopback request around here
    ≡ done (outcome_of (run here)) (world (run here))
unfolding run
run-here = refl

clear : (outcome_of (run here)).error ≡ none
unfolding run
clear = refl

here-IsWellFormed : IsWellFormed loopback here.db
unfolding Storage.row_check Storage.conflicts Storage.clashes int_eq text_eq option_eq
    Validate.check_input Validate.valid_name Strings.split Strings.len Validate.valid_label
    Strings.ends_with_char Matching.kind_of Validate.normalize_value Strings.contains_char
here-IsWellFormed = record {
  consistent = record {
    checked = (refl, (refl, tt));
    apart = (refl, (refl, tt));
    issued = ((2, refl, omega arith), ((1, refl, omega arith), tt));
  };
  valid = (refl, (refl, tt));
}

sane : IsSane around
sane = record { addresses = tt; order = λ a n votes. (λ e. e, λ e. e) }

hint : HintIsAddr request.myip
hint ip e = ground arith

host-Allowed : Allowed request.source host
unfolding text_eq
host-Allowed = refl

run_sync_places_example :
    IsInPlace careful careful-IsStore loopback careful-IsStore.zones
      (address careful loopback request around here)
      host
      (world (run here)).db.rows
      (world (run here)).cloud
run_sync_places_example =
    run_sync_places careful careful-IsStore loopback loopback-IsLawful request around here sane hint
      here-IsWellFormed {o = outcome_of (run here)} {w' = world (run here)} run-here clear host
      (inr (inl refl)) host-Allowed

same_address :
    address careful loopback request around (world (run here))
    ≡ address careful loopback request around here
unfolding Run.with_ipv4 Storage.order_rows Storage.insert_row Storage.precedes text_eq
    Ip.resolve_ipv4 Ipv4.display Numbers.print_octet run
same_address = refl

run_sync_settles_example :
    IsIdleRun careful careful-IsStore loopback request around (world (run here))
run_sync_settles_example =
    run_sync_settles careful careful-IsStore loopback loopback-IsLawful request around here sane
      hint here-IsWellFormed {o = outcome_of (run here)} {w' = world (run here)} run-here clear
      request around (λ h. h) same_address
