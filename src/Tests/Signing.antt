-- ===== src/Tests/Signing.antt =====
-- A login, its callback, requests of the API and a logout, with a provider that accepts one code.
use vercel_ddns.Base.{
  ℕ, zero, suc, ◌≡◌, ◌⊎◌, refl, arith, inl, Text, codes, Bool, true, false, ◌+◌, ◌&&◌, Option, none,
  some, [], ◌∷◌, ◌==◌, text_eq, nat_eq, if◌then◌else◌,
}
use vercel_ddns.Base.Outcome.{ok, err, returned}
use vercel_ddns.Base.Strings
use vercel_ddns.Base.Json.{end}
use vercel_ddns.Sync.Worker.{Syncer}
use vercel_ddns.Auth
use vercel_ddns.Auth.{
  Cookie, FlowState, Session, Claims, Provider, Oidc, Settings, CallbackQuery, authenticate,
  no_matching_key,
}
use vercel_ddns.Auth.Granting.{IsGranted, authenticate-IsGranted}
use vercel_ddns.Auth.Refreshing.{
  Refreshes, Caller, IsCaller, start, next, Step, Spaced, Reach-Spaced, load, exchange,
}
use vercel_ddns.Auth.Sessions
use vercel_ddns.Auth.Sessions.{Change, put, drop, Cookies, redirect, refused, login, callback}
use vercel_ddns.Auth.Sessions.Browsers.{Visit, Held, sent_value, accepts, replaces, Browser}
use vercel_ddns.Service
use vercel_ddns.Service.{init}
use vercel_ddns.Service.Routes.{Request, api, records, receive, IsAuthorised, receive-IsAuthorised}
use vercel_ddns.Tests.Addresses.{plain, secrets}
use vercel_ddns.Tests.Fixtures.{memory, loopback, start_world}

-- Texts one after the other: each but the last is ended by a 0.
abbrev frame : Text → Text → Text
frame [] rest = 0 ∷ rest
frame (c ∷ s) rest = suc c ∷ frame s rest

abbrev unframe : Text → Text × Text
unframe [] = ([], [])
unframe (zero ∷ rest) = ([], rest)
unframe (suc c ∷ rest) = (c ∷ (unframe rest).0, (unframe rest).1)

abbrev write_flow : FlowState → Text
write_flow flow = frame flow.csrf (frame flow.nonce flow.verifier)

abbrev flow_of : Text → FlowState
flow_of s = record {
  csrf = (unframe s).0;
  nonce = (unframe (unframe s).1).0;
  verifier = (unframe (unframe s).1).1;
}

abbrev write_email : Option Text → Text
write_email none = []
write_email (some e) = 0 ∷ e

abbrev email_of : Text → Option Text
email_of [] = none
email_of (_ ∷ e) = some e

abbrev write_session : Session → Text
write_session s = s.exp ∷ frame s.sub (write_email s.email)

abbrev session_of : Text → Option Session
session_of [] = none
session_of (exp ∷ s) =
    some (record { sub = (unframe s).0; email = email_of (unframe s).1; exp = exp })

-- What a request brought, and what its response changes.
record Jar : Type 0 where
  brought : Text → Option Text
  told : Text → Option Change

abbrev removed : Cookie → Option Text → Option Change
removed c none = none
removed c (some value) = some (drop c)

abbrev jars : Cookies
jars = record {
  PrivateCookieJar = Jar;
  get = λ name jar. jar.brought name;
  add = λ c jar. record {
    brought = λ name. if name == c.name then some c.value else jar.brought name;
    told = λ name. if name == c.name then some (put c) else jar.told name;
  };
  remove = λ c jar. record {
    brought = λ name. if name == c.name then none else jar.brought name;
    told = λ name. if name == c.name then removed c (jar.brought name) else jar.told name;
  };
  changed = λ name jar. jar.told name;
  flow_to_string = write_flow;
  flow_from_str = λ s. some (flow_of s);
  session_to_string = write_session;
  session_from_str = session_of;
}

abbrev build_flow : Text → Text × Text → FlowState
build_flow csrf p = record { csrf = csrf; nonce = p.0; verifier = p.1 }

abbrev build_session : Text → Option Text → ℕ → Option Session
build_session sub email exp = some (record { sub = sub; email = email; exp = exp })

abbrev applied : ℕ → Visit → Option Held → Option Change → Option Held
applied now v held none = held
applied now v held (some (put c)) = if accepts v c && replaces v c held then some (c, now) else held
applied now v held (some (drop c)) = if accepts v c && replaces v c held then none else held

abbrev browser : Browser jars
browser = record {
  State = Text → Option Held;
  holds = λ b name. b name;
  request = λ v b. record { brought = λ name. sent_value v (b name); told = λ name. none };
  receive = λ now v jar b name. applied now v (b name) (jar.told name);
  get-request = λ name v b. refl;
  changed-request = λ name v b. refl;
  receive-none = λ name now v jar b untold. ground (arith, untold);
  receive-put =
      λ name now v jar b c told accepted replaced. ground (arith, told, accepted, replaced);
  receive-drop =
      λ name now v jar b c told accepted replaced. ground (arith, told, accepted, replaced);
}

-- Every code is exchanged for a token of that text, and every token is verified.
abbrev pub trusting : Provider
trusting = record {
  State = Unit {0};
  OidcClient = Unit {0};
  Metadata = Unit {0};
  KeySet = Unit {0};
  TokenRequest = Text;
  IdToken = Text;
  build_client = λ m id secret to. tt;
  set_jwks = λ keys m. m;
  fetch_jwks = λ m s. returned tt s;
  exchange_code = λ c code. some code;
  request = λ r verifier s. returned (some r) s;
  claims = λ c nonce token. ok (record { sub = codes "s"; email = none; additional = end });
}

abbrev oidc : Oidc trusting
oidc = record {
  client = tt;
  metadata = tt;
  client_id = [];
  client_secret = [];
  redirect = [];
  last_refresh = 0;
}

abbrev app : Settings
app = record { admin_claim = codes "groups"; admin_group = none; cookie_secure = true }

abbrev flow : FlowState
flow = record { csrf = codes "c"; nonce = codes "n"; verifier = codes "v" }

abbrev query : CallbackQuery
query = record { code = codes "k"; state = codes "c" }

abbrev session : Session
session = record { sub = codes "s"; email = none; exp = 3701 }

abbrev empty : browser.State
empty name = none

abbrev visit : ℕ → Text → Visit
visit at path = record { at = at; https = true; path = path }

abbrev to_login : Visit
to_login = visit 50 (codes "/auth/login")

abbrev to_callback : Visit
to_callback = visit 99 (codes "/auth/callback")

abbrev to_api : Visit
to_api = visit 200 (codes "/api/records")

grants : (authenticate app 100 101 oidc tt flow query).result ≡ ok session
unfolding authenticate Auth.verify Auth.is_authorized text_eq
grants = refl

authenticate-IsGranted_example : IsGranted app 100 101 oidc tt flow query session
authenticate-IsGranted_example =
    authenticate-IsGranted app 100 101 oidc tt flow query session grants

abbrev jar_of : Sessions.Response jars → Jar
jar_of (redirect to jar) = jar
jar_of (refused e jar) = jar

abbrev at_login : browser.State
at_login =
    browser.receive 60 to_login
      (jar_of (login jars app (codes "u") flow (browser.request to_login empty))) empty

abbrev granted : Jar
granted = jar_of (callback jars app 100 101 oidc tt query (browser.request to_callback at_login)).0

abbrev signed_in : browser.State
signed_in = browser.receive 102 to_callback granted at_login

abbrev to_logout : Visit
to_logout = visit 150 (codes "/auth/logout")

-- Two callers load at once, and the second exchange fails.
abbrev first_load : Refreshes
first_load = load 100 (record { last_refresh = 0; callers = []; readings = [] })

abbrev caller : Caller
caller = record { now = 100; last = 0 }

caller_known : IsCaller caller first_load.callers
unfolding load
caller_known = inl refl

Reach-Spaced_example : Spaced (exchange caller first_load).readings
Reach-Spaced_example =
    Reach-Spaced {s = exchange caller first_load}
      (next (next start (Step.loads 100)) (Step.exchanges caller caller_known))

abbrev request : Request jars
request = api (browser.request to_api signed_in) records

abbrev service : Syncer memory
service = init memory loopback plain secrets 60 (start_world [])

receive-IsAuthorised_example :
    (receive memory loopback plain secrets 60 jars app 200 request service ≡ service)
    ⊎ (IsAuthorised memory loopback plain secrets 60 jars app 200 request
        × Service.Step memory loopback plain secrets 60 service
            (receive memory loopback plain secrets 60 jars app 200 request service))
receive-IsAuthorised_example =
    receive-IsAuthorised memory loopback plain secrets 60 jars app 200 request service

-- A provider whose client knows a token once it is built from the second keys.
abbrev rotating : Provider
rotating = record {
  State = ℕ;
  OidcClient = Bool;
  Metadata = Bool;
  KeySet = Bool;
  TokenRequest = Text;
  IdToken = Text;
  build_client = λ m id secret to. m;
  set_jwks = λ keys m. keys;
  fetch_jwks = λ m s. returned true (s + 1);
  exchange_code = λ c code. some code;
  request = λ r verifier s. returned (some r) s;
  claims = λ c nonce token.
      if c
      then ok (record { sub = codes "s"; email = none; additional = end })
      else err no_matching_key;
}

abbrev stale : Oidc rotating
stale = record {
  client = false;
  metadata = false;
  client_id = [];
  client_secret = [];
  redirect = [];
  last_refresh = 0;
}
