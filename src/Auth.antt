-- ===== src/Auth.antt =====
-- src/auth.rs: signing in with an OpenID provider, and the session that the API asks for. Times
-- are seconds, read by `now_secs`.
pub mod Sessions
pub mod Admins
pub mod Granting
pub mod Refreshing
pub mod Rotation
use vercel_ddns.Base.{
  ℕ, ◌+◌, ◌-◌, ◌*◌, Text, codes, Bool, true, false, ◌&&◌, ◌||◌, not, Option, none, some, List, [],
  ◌∷◌, ◌==◌, ◌!=◌, text_eq, nat_eq, if◌then◌else◌, ltb, any,
}
use vercel_ddns.Base.Json.{Value, array, string, Items, nil, cons, Fields, get_field}
use vercel_ddns.Base.Outcome.{Result, ok, err, Reply, returned, errored}

abbrev pub session_ttl_secs : ℕ
session_ttl_secs = 60 * 60

abbrev pub flow_ttl_secs : ℕ
flow_ttl_secs = 10 * 60

unfoldable pub flow_cookie_name : Bool → Text
flow_cookie_name secure = if secure then codes "__Host-oidc_flow" else codes "oidc_flow"

unfoldable pub session_cookie_name : Bool → Text
session_cookie_name secure = if secure then codes "__Host-session" else codes "session"

-- The attributes that the source sets; `same_site` is whether it is `Lax`.
pub record Cookie : Type 0 where
  pub name : Text
  pub value : Text
  pub http_only : Bool
  pub secure : Bool
  pub same_site : Bool
  pub path : Text
  pub max_age : Option ℕ

abbrev pub removal_cookie : Text → Bool → Cookie
removal_cookie name secure = record {
  name = name;
  value = [];
  http_only = true;
  secure = secure;
  same_site = false;
  path = codes "/";
  max_age = none;
}

abbrev pub cookie : Text → Text → Bool → ℕ → Cookie
cookie name value secure ttl_secs = record {
  name = name;
  value = value;
  http_only = true;
  secure = secure;
  same_site = true;
  path = codes "/";
  max_age = some ttl_secs;
}

abbrev pub any_string : Text → Items → Bool
any_string required nil = false
any_string required (cons (string s) items) = s == required || any_string required items
any_string required (cons _ items) = any_string required items

abbrev pub claim_has : Text → Option Value → Bool
claim_has required (some (array items)) = any_string required items
claim_has required (some (string s)) = s == required
claim_has required _ = false

unfoldable pub claim_contains : Fields → Text → Text → Bool
claim_contains claims key required = claim_has required (get_field key claims)

pub record FlowState : Type 0 where
  pub csrf : Text
  pub nonce : Text
  pub verifier : Text

pub record Session : Type 0 where
  pub sub : Text
  pub email : Option Text
  pub exp : ℕ

-- What the source reads of the claims of an ID token.
pub record Claims : Type 0 where
  pub sub : Text
  pub email : Option Text
  pub additional : Fields

pub data ClaimsError : Type 0 where
  no_matching_key : ClaimsError
  other_error : ClaimsError

-- openidconnect, and the provider behind it: `exchange_code` is the request for a token, if the
-- provider names an endpoint for it; `request` sends it with the PKCE verifier and answers with the
-- ID token, if there is one.
pub record Provider : Type 1 where
  pub State : Type 0
  pub OidcClient : Type 0
  pub Metadata : Type 0
  pub KeySet : Type 0
  pub TokenRequest : Type 0
  pub IdToken : Type 0
  pub build_client : Metadata → Text → Text → Text → OidcClient
  pub set_jwks : KeySet → Metadata → Metadata
  pub fetch_jwks : Metadata → State → Reply State Text KeySet
  pub exchange_code : OidcClient → Text → Option TokenRequest
  pub request : TokenRequest → Text → State → Reply State Text (Option IdToken)
  pub claims : OidcClient → Text → IdToken → Result ClaimsError Claims

pub record Oidc (P : Provider) : Type 0 where
  pub client : P.OidcClient
  pub metadata : P.Metadata
  pub client_id : Text
  pub client_secret : Text
  pub redirect : Text
  pub last_refresh : ℕ

abbrev pub jwks_refresh_min_interval_secs : ℕ
jwks_refresh_min_interval_secs = 60

-- `now.saturating_sub(last) < JWKS_REFRESH_MIN_INTERVAL_SECS`
abbrev pub is_early : ℕ → ℕ → Bool
is_early now last = ltb (now - last) jwks_refresh_min_interval_secs

-- `compare_exchange` on the atomic: the new value, or none if it is not the one that was loaded.
abbrev pub compare_exchange : ℕ → ℕ → ℕ → Option ℕ
compare_exchange last now current = if current == last then some now else none

-- The fields of the application's state that the handlers read.
pub record Settings : Type 0 where
  pub admin_claim : Text
  pub admin_group : Option Text
  pub cookie_secure : Bool

pub record AuthError : Type 0 where
  pub status : ℕ
  pub message : Text

abbrev bad_request : Text → AuthError
bad_request message = record { status = 400; message = message }

abbrev unauthorized : Text → AuthError
unauthorized message = record { status = 401; message = message }

-- `state.admin_group.as_ref().is_none_or(…)`
unfoldable pub is_authorized : Settings → Claims → Bool
is_authorized app claims = elim (app.admin_group) [
  | none ↦ true
  | some required ↦ claim_contains claims.additional app.admin_claim required
]

pub record CallbackQuery : Type 0 where
  pub code : Text
  pub state : Text

-- From verified claims on; `issued_at` is when the session starts.
abbrev pub admitted : Settings → ℕ → Claims → Result AuthError Session
admitted app issued_at claims =
    if not (is_authorized app claims)
    then err (record { status = 403; message = codes "not an admin" })
    else ok (record { sub = claims.sub; email = claims.email; exp = issued_at + session_ttl_secs })

abbrev verified : Settings → ℕ → Result ClaimsError Claims → Result AuthError Session
verified app issued_at (ok claims) = admitted app issued_at claims
verified app issued_at (err _) = err (unauthorized (codes "invalid ID token"))

-- What a handler leaves of the keys and the provider, and its result.
pub record Authenticated (P : Provider) : Type 0 where
  pub result : Result AuthError Session
  pub oidc : Oidc P
  pub idp : P.State

module _ {P : Provider} where
  abbrev with_keys : Oidc P → Reply P.State Text P.KeySet → Oidc P × P.State
  with_keys oidc (returned jwks idp) = (
    record oidc {
      client =
          P.build_client (P.set_jwks jwks oidc.metadata) oidc.client_id oidc.client_secret
            oidc.redirect;
    },
    idp,
  )
  with_keys oidc (errored _ idp) = (oidc, idp)

  -- With no other caller between the load and the exchange.
  unfoldable pub refresh_keys : ℕ → Oidc P → P.State → Oidc P × P.State
  refresh_keys now oidc idp =
      if is_early now oidc.last_refresh
      then (oidc, idp)
      else with_keys (record oidc { last_refresh = now }) (P.fetch_jwks oidc.metadata idp)

  -- `id_token.claims(…)`, once more after a refresh if the key is not known.
  unfoldable pub verify : Settings → ℕ → ℕ → Oidc P → P.State → Text → P.IdToken → Authenticated P
  verify app now issued_at oidc idp nonce token = elim (P.claims oidc.client nonce token) [
    | ok claims ↦ record { result = admitted app issued_at claims; oidc = oidc; idp = idp }
    | err no_matching_key ↦
        let (oidc', idp') = refresh_keys now oidc idp in
        record {
          result = verified app issued_at (P.claims oidc'.client nonce token);
          oidc = oidc';
          idp = idp';
        }
    | err other_error ↦ record {
      result = err (unauthorized (codes "invalid ID token"));
      oidc = oidc;
      idp = idp;
    }
  ]

  abbrev exchanged :
      Settings
      → ℕ
      → ℕ
      → FlowState
      → Oidc P
      → Reply P.State Text (Option P.IdToken)
      → Authenticated P
  exchanged app now issued_at flow oidc (errored _ idp) = record {
    result = err (unauthorized (codes "code exchange failed"));
    oidc = oidc;
    idp = idp;
  }
  exchanged app now issued_at flow oidc (returned none idp) = record {
    result = err (unauthorized (codes "no ID token in response"));
    oidc = oidc;
    idp = idp;
  }
  exchanged app now issued_at flow oidc (returned (some token) idp) =
      verify app now issued_at oidc idp flow.nonce token

  -- `now` is when the keys may be refreshed.
  unfoldable pub authenticate :
      Settings → ℕ → ℕ → Oidc P → P.State → FlowState → CallbackQuery → Authenticated P
  authenticate app now issued_at oidc idp flow query =
      if flow.csrf != query.state
      then record { result = err (bad_request (codes "state mismatch")); oidc = oidc; idp = idp }
      else elim (P.exchange_code oidc.client query.code) [
        | none ↦ record {
          result = err (record { status = 500; message = codes "internal error" });
          oidc = oidc;
          idp = idp;
        }
        | some token_request ↦
            exchanged app now issued_at flow oidc (P.request token_request flow.verifier idp)
      ]
