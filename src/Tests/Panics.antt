-- ===== src/Tests/Panics.antt =====
-- A provider that gives a record another ID when it is updated.
use vercel_ddns.Base.{◌≡◌, refl, codes, some, none, [], ◌∷◌, text_eq, nat_eq, option_eq, max_by_key}
use vercel_ddns.Base.Int.{int_eq, as_unsigned}
use vercel_ddns.Base.Outcome.{Ran, panicked, world, returned}
use vercel_ddns.Base.Strings
use vercel_ddns.Net.Ipv4
use vercel_ddns.Net.Numbers
use vercel_ddns.Ip
use vercel_ddns.Storage
use vercel_ddns.Cloudflare.Client.{Client}
use vercel_ddns.Sync.Matching
use vercel_ddns.Sync.Matching.Echo.{echo}
use vercel_ddns.Sync.World.{World}
use vercel_ddns.Sync.Reconcile
use vercel_ddns.Sync.Run
use vercel_ddns.Sync.Run.{SyncRequest, Surroundings, SyncOutcome}
use vercel_ddns.Sync.Worker.{Syncer, Job, receiving, gone, serve}
use vercel_ddns.Metrics.{no_runs}
use vercel_ddns.Service.{here}
use vercel_ddns.Service.Lost.{serve-panicked}
use vercel_ddns.Tests.Addresses.{plain, secrets}
use vercel_ddns.Tests.Fixtures.{memory, loopback, host, database}

abbrev fickle : Client
fickle = record memory { update_record = λ s z id sent. returned (echo (codes "other") sent) s }

abbrev job : Job
job = record {
  request = record { source = codes "manual"; myip = some (record { a = 9; b = 8; c = 7; d = 6 }) };
  respond = some 0;
}

abbrev around : Surroundings
around = record { started = 5; finished = 6; answers = []; order = λ v. v }

-- The zone holds a record of the row's name and type with another address.
abbrev before : World fickle
before = record {
  db = database (host ∷ []);
  cloud = record {
    records = echo (codes "m") (Matching.body host (codes "1.2.3.4") none none) ∷ [];
    fresh = codes "n";
  };
  calls = [];
}

run : World fickle → Ran (World fickle) SyncOutcome
unfolding Run.run_sync Run.sync_body Run.sync_all Run.sync_records Run.sync_record Run.choose_value
    Run.choose_zone Run.fetch Run.cached Run.with_ipv4 Storage.list Storage.order_rows
    Storage.insert_row Storage.precedes Storage.int_le Storage.set_provider_id Storage.find_row
    Storage.write_row Storage.row_check Storage.conflicts Storage.clashes Storage.others
    Storage.replace_row Ip.resolve_ipv4 Ipv4.display Numbers.print_octet Matching.belongs_to
    Matching.same_name Matching.kind_of Matching.identity_matches Matching.desired
    Matching.content_matches Matching.up_to_date Reconcile.reconcile Reconcile.create_new
    Reconcile.find_identity Reconcile.adopt Strings.ends_with Strings.eq_ignore_ascii_case
    Strings.to_ascii_lowercase Strings.lower Strings.trim_end_matches Strings.len max_by_key text_eq
    nat_eq option_eq int_eq as_unsigned
run = Run.run_sync fickle loopback job.request around

run_panics : Run.run_sync fickle loopback job.request around before ≡ panicked (world (run before))
unfolding run Ipv4.parse Strings.split Ipv4.parse_octet Numbers.digits Ipv4.ipv4_eq
    Reconcile.replace_first
run_panics = refl

abbrev busy : Syncer fickle
busy = record {
  world = before;
  waiting = [];
  queue = job ∷ [];
  phase = receiving;
  last = none;
  metrics = no_runs;
  sent_back = [];
  next_ticket = 1;
}

abbrev after : Syncer fickle
after = serve loopback around busy

serve-panicked_example : (after.phase ≡ gone) × (after.sent_back ≡ [])
serve-panicked_example =
    serve-panicked fickle loopback plain secrets 60 busy around job [] (world (run before))
      {t = after} refl refl run_panics here
