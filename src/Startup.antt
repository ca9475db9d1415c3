-- ===== src/Startup.antt =====
-- src/main.rs from the arguments to the listeners, and `discover` of src/auth.rs. What start-up
-- calls of libraries and of the machine are parameters; a failure of each ends it with an error.
pub mod Urls
pub mod Ports
use vercel_ddns.Base.{
  ℕ, ◌+◌, ◌/◌, ◌%◌, zero, suc, Text, codes, Bool, Option, none, some, [], ◌∷◌, ◌++◌, if◌then◌else◌,
  eqb, ltb, is_nil,
}
use vercel_ddns.Base.Outcome.{Result, ok, err, Reply, returned, errored}
use vercel_ddns.Base.Strings.{starts_with, trim_end_matches}
use vercel_ddns.Storage.{Database}
use vercel_ddns.Cloudflare.Client.{Client}
use vercel_ddns.Sync.Worker.{Syncer}
use vercel_ddns.Auth.{Provider, Oidc, Settings}
use vercel_ddns.Webhook.{Secrets, Codecs}
use vercel_ddns.Net.Ipv6.{Ipv6}
use vercel_ddns.Service.{init}

-- The arguments, once clap has read them and filled in the defaults.
pub record Args : Type 0 where
  pub port : ℕ
  pub bind : Text
  pub metrics_port : ℕ
  pub metrics_bind : Text
  pub log_level : Text
  pub database_url : Text
  pub cloudflare_token : Text
  pub webhook_username : Text
  pub webhook_password : Text
  pub sync_interval : ℕ
  pub oidc_issuer : Text
  pub oidc_client_id : Text
  pub oidc_client_secret : Text
  pub public_url : Text
  pub admin_claim : Text
  pub admin_group : Option Text
  pub session_secret : Text
  pub dev_forward : Option Text

-- sqlx, reqwest, openidconnect and the sockets of the machine. `connect` gives the database once
-- the migrations have run, and the two URL types the text of a URL that they accept. `derive_from`
-- panics on a secret that is too short, which ends start-up too.
pub record Machine (C : Client) (P : Provider) : Type 0 where
  pub connect : Text → Result Text Database
  pub cloudflare : Text → Result Text C.State
  pub issuer_url : Text → Result Text Text
  pub http_client : Result Text (Unit {0})
  pub discover_async : Text → P.State → Reply P.State Text P.Metadata
  pub redirect_url : Text → Result Text Text
  pub derive_from : Text → Result Text Text
  pub listen : Text → Result Text (Unit {0})

-- `?`
infixl 5 ◌>>=◌
abbrev ◌>>=◌ {ℓ κ} : {A : Type ℓ} {B : Type κ} → Result Text A → (A → Result Text B) → Result Text B
ok a >>= f = f a
err e >>= f = err e

abbrev answer {ℓ} : {S : Type 0} {A : Type ℓ} → Reply S Text A → Result Text (A × S)
answer (returned a s) = ok (a, s)
answer (errored e s) = err e

-- `Display` of a number; a `u16` has at most five digits.
unfoldable pub print_digits : ℕ → ℕ → Text
print_digits zero n = []
print_digits (suc fuel) n =
    let rest = print_digits fuel (n / 10) in
    if ltb n 10 then (b'0' + n) ∷ [] else rest ++ ((b'0' + n % 10) ∷ [])

abbrev pub address_of : Text → ℕ → Text
address_of host port = host ++ (b':' ∷ print_digits 5 port)

abbrev pub is_slash : ℕ → Bool
is_slash c = eqb c b'/'

-- Where the provider sends the browser back to.
abbrev pub callback_url : Text → Text
callback_url public_url = trim_end_matches is_slash public_url ++ codes "/auth/callback"

abbrev pub is_https : Text → Bool
is_https url = starts_with (codes "https://") url

-- What answers the paths that no route has: the files of the binary, or another server.
pub data Fallback : Type 0 where
  embedded : Fallback
  proxy : Text → Fallback

unfoldable pub fallback_of : Option Text → Fallback
fallback_of none = embedded
fallback_of (some url) = if is_nil url then embedded else proxy url

-- The service when it serves its first request.
pub record Started (C : Client) (P : Provider) : Type 0 where
  pub syncer : Syncer C
  pub oidc : Oidc P
  pub idp : P.State
  pub app : Settings
  pub secrets : Secrets
  pub key : Text
  pub sync_interval : ℕ
  pub fallback : Fallback
  pub metrics_address : Text
  pub address : Text

module _ {C : Client} {P : Provider} (m : Machine C P) where
  unfoldable pub discover : Text → Text → Text → Text → P.State → Result Text (Oidc P × P.State)
  discover issuer client_id client_secret public_url idp = do
    issuer_url ← m.issuer_url issuer
    http ← m.http_client
    found ← answer (m.discover_async issuer_url idp)
    redirect ← m.redirect_url (callback_url public_url)
    ok (
      record {
        client = P.build_client found.0 client_id client_secret redirect;
        metadata = found.0;
        client_id = client_id;
        client_secret = client_secret;
        redirect = redirect;
        last_refresh = 0;
      },
      found.1,
    )

  -- `Syncer::spawn` is `init`, and the state is that in which both sockets listen.
  module _ (V : Ipv6) (B : Codecs) where
    abbrev secrets_of : Args → Secrets
    secrets_of args = record {
      webhook_username = args.webhook_username;
      webhook_password = args.webhook_password;
    }

    unfoldable pub main : Args → P.State → Result Text (Started C P)
    main args idp = do
      db ← m.connect args.database_url
      cloud ← m.cloudflare args.cloudflare_token
      oidc ←
          discover args.oidc_issuer args.oidc_client_id args.oidc_client_secret args.public_url idp
      metrics ← m.listen (address_of args.metrics_bind args.metrics_port)
      key ← m.derive_from args.session_secret
      served ← m.listen (address_of args.bind args.port)
      ok (record {
        syncer =
            init C V B (secrets_of args) args.sync_interval
              (record { db = db; cloud = cloud; calls = [] });
        oidc = oidc.0;
        idp = oidc.1;
        app = record {
          admin_claim = args.admin_claim;
          admin_group = args.admin_group;
          cookie_secure = is_https args.public_url;
        };
        secrets = secrets_of args;
        key = key;
        sync_interval = args.sync_interval;
        fallback = fallback_of args.dev_forward;
        metrics_address = address_of args.metrics_bind args.metrics_port;
        address = address_of args.bind args.port;
      })
