-- ===== src/Tests/Fixtures.antt =====
-- A provider in memory, a server that always answers, and the rows and records of the tests.
use vercel_ddns.Base.{
  ℕ, Text, codes, true, Option, none, some, List, [], ◌∷◌, refl, ◌==◌, text_eq, if◌then◌else◌,
}
use vercel_ddns.Base.Int.{pos}
use vercel_ddns.Base.Outcome.{Reply, returned, errored}
use vercel_ddns.Net.Ipv6.{Ipv6}
use vercel_ddns.Storage.{Record, Database, Turn}
use vercel_ddns.Cloudflare.Types
use vercel_ddns.Cloudflare.Types.{DnsRecord, Zone, CloudflareError}
use vercel_ddns.Cloudflare.Client.{Client}
use vercel_ddns.Sync.Matching.Echo.{echo}
use vercel_ddns.Sync.World.{World}

-- Its records, and the ID that a new one gets: a letter more each time.
pub record Cloud : Type 0 where
  pub records : List DnsRecord
  pub fresh : Text

abbrev put_back : Text → DnsRecord → List DnsRecord → List DnsRecord
put_back id remote [] = []
put_back id remote (r ∷ rs) = (if r.id == id then remote else r) ∷ put_back id remote rs

abbrev lookup : Text → Cloud → List DnsRecord → Reply Cloud CloudflareError DnsRecord
lookup id s [] = errored (Types.api 404 []) s
lookup id s (r ∷ rs) = if r.id == id then returned r s else lookup id s rs

abbrev pub zone : Zone
zone = record { id = codes "z"; name = codes "b.c" }

-- A provider that keeps what it is sent.
abbrev pub memory : Client
memory = record {
  State = Cloud;
  list_zones = λ s. returned (zone ∷ []) s;
  list_records = λ s z. returned s.records s;
  get_record = λ s z id. lookup id s s.records;
  create_record = λ s z sent.
      returned (echo s.fresh sent)
        (record s { records = echo s.fresh sent ∷ s.records; fresh = b'n' ∷ s.fresh });
  update_record = λ s z id sent.
      returned (echo id sent) (record s { records = put_back id (echo id sent) s.records });
  delete_record = λ s z id. returned tt s;
  to_text = λ e. codes "error";
}

-- IPv6 addresses that are their own text, of which there is one.
abbrev only : Text → Option (Unit {0})
only t = some tt

abbrev pub loopback : Ipv6
loopback = record {
  Addr = Unit {0};
  eq = record { dec = λ a b. yes refl };
  parse = λ s. some tt;
  display = λ a. codes "::1";
}

abbrev pub host : Record
host = record {
  id = pos 1;
  fqdn = codes "a.b.c";
  record_type = codes "A";
  value = none;
  ttl = pos 60;
  priority = none;
  weight = none;
  port = none;
  zone_id = none;
  provider_record_id = none;
  created_at = 0;
  updated_at = 0;
}

abbrev pub mail : Record
mail = record host { id = pos 2; record_type = codes "TXT"; value = some (codes "x") }

abbrev pub always : ℕ → Turn
always n = record { up = true; now = n }

abbrev pub database : List Record → Database
database rows = record {
  rows = rows;
  runs = [];
  next_id = 3;
  turn = 0;
  turns = always;
  collate = λ s t. true;
}

abbrev pub start_world : List Record → World memory
start_world rows = record {
  db = database rows;
  cloud = record { records = []; fresh = codes "n" };
  calls = [];
}
