-- ===== src/Tests/Starts.antt =====
-- A start of the service.
use vercel_ddns.Base.{◌≡◌, ◌≢◌, ◌↔◌, refl, arith, Text, codes, ◌++◌, none, true, [], text_eq}
use vercel_ddns.Base.Outcome.{ok, returned}
use vercel_ddns.Base.Strings.{trim_end_matches}
use vercel_ddns.Startup
use vercel_ddns.Service.{init}
use vercel_ddns.Startup.{Args, Machine, Started, embedded, is_slash, main}
use vercel_ddns.Startup.Urls.{KeepsText, main-cookie_secure}
use vercel_ddns.Tests.Fixtures.{memory, loopback, database}
use vercel_ddns.Tests.Addresses.{plain}
use vercel_ddns.Tests.Signing.{trusting}

abbrev args : Args
args = record {
  port = 8080;
  bind = codes "0.0.0.0";
  metrics_port = 9091;
  metrics_bind = codes "0.0.0.0";
  log_level = codes "info";
  database_url = codes "postgres://d";
  cloudflare_token = codes "t";
  webhook_username = codes "u";
  webhook_password = codes "p";
  sync_interval = 3600;
  oidc_issuer = codes "https://i";
  oidc_client_id = codes "c";
  oidc_client_secret = codes "s";
  public_url = codes "https://d.e/";
  admin_claim = codes "groups";
  admin_group = none;
  session_secret = codes "0123456789abcdef0123456789abcdef";
  dev_forward = none;
}

abbrev machine : Machine memory trusting
machine = record {
  connect = λ url. ok (database []);
  cloudflare = λ token. ok (record { records = []; fresh = codes "n" });
  issuer_url = λ url. ok url;
  http_client = ok tt;
  discover_async = λ issuer idp. returned tt idp;
  redirect_url = λ url. ok url;
  derive_from = λ secret. ok secret;
  listen = λ address. ok tt;
}

keeps : KeepsText memory trusting machine
keeps url kept h = ground arith

abbrev serving : Started memory trusting
serving = record {
  syncer =
      init memory loopback plain
        (record { webhook_username = codes "u"; webhook_password = codes "p" }) 3600
        (record {
          db = database [];
          cloud = record { records = []; fresh = codes "n" };
          calls = [];
        });
  oidc = record {
    client = tt;
    metadata = tt;
    client_id = codes "c";
    client_secret = codes "s";
    redirect = codes "https://d.e/auth/callback";
    last_refresh = 0;
  };
  idp = tt;
  app = record { admin_claim = codes "groups"; admin_group = none; cookie_secure = true };
  secrets = record { webhook_username = codes "u"; webhook_password = codes "p" };
  key = codes "0123456789abcdef0123456789abcdef";
  sync_interval = 3600;
  fallback = embedded;
  metrics_address = codes "0.0.0.0:9091";
  address = codes "0.0.0.0:8080";
}

starts : main machine loopback plain args tt ≡ ok serving
unfolding main Startup.discover trim_end_matches Startup.print_digits Startup.fallback_of
starts = refl

more_than_scheme : trim_end_matches is_slash args.public_url ≢ codes "https:"
unfolding trim_end_matches
more_than_scheme h = ground arith

main-cookie_secure_example :
    (serving.app.cookie_secure ≡ true)
    ↔ ((rest : Text) × (serving.oidc.redirect ≡ codes "https://" ++ rest))
main-cookie_secure_example =
    main-cookie_secure memory trusting machine loopback plain args tt {started = serving} keeps
      more_than_scheme starts
