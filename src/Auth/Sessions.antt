-- ===== src/Auth/Sessions.antt =====
-- The handlers of src/auth.rs on the cookies of a browser: `login`, `callback`, `logout`, and
-- `require_session`, the middleware in front of the API.
pub mod Browsers
pub mod Lasting
use vercel_ddns.Base.{ℕ, Text, codes, Bool, Option, none, some, if◌then◌else◌, ltb}
use vercel_ddns.Base.Outcome.{Result, ok, err}
use vercel_ddns.Auth.{
  session_ttl_secs, flow_ttl_secs, flow_cookie_name, session_cookie_name, Cookie, cookie,
  removal_cookie, FlowState, Session, Provider, Oidc, Settings, AuthError, CallbackQuery,
  Authenticated, authenticate,
}

-- What a response tells the browser about a name: to hold a cookie, or to drop the one that it
-- holds, with the attributes of another.
pub data Change : Type 0 where
  put : Cookie → Change
  drop : Cookie → Change

-- The encrypted cookies of axum-extra, and how serde_json writes what they hold. `changed` is what
-- a jar puts into the response about a name.
pub record Cookies : Type 1 where
  pub PrivateCookieJar : Type 0
  pub get : Text → PrivateCookieJar → Option Text
  pub add : Cookie → PrivateCookieJar → PrivateCookieJar
  pub remove : Cookie → PrivateCookieJar → PrivateCookieJar
  pub changed : Text → PrivateCookieJar → Option Change
  pub flow_to_string : FlowState → Text
  pub flow_from_str : Text → Option FlowState
  pub session_to_string : Session → Text
  pub session_from_str : Text → Option Session

-- A redirection or an error, with the cookies that go with it.
pub data Response (K : Cookies) : Type 0 where
  redirect : Text → K.PrivateCookieJar → Response K
  refused : AuthError → K.PrivateCookieJar → Response K

abbrev and_then {ℓ κ} : {A : Type ℓ} {B : Type κ} → Option A → (A → Option B) → Option B
and_then none f = none
and_then (some a) f = f a

module _ (K : Cookies) (app : Settings) where
  -- The address of the provider's page and the flow's secrets, which openidconnect draws.
  unfoldable pub login : Text → FlowState → K.PrivateCookieJar → Response K
  login auth_url flow jar = redirect auth_url (
      K.add
        (cookie (flow_cookie_name app.cookie_secure) (K.flow_to_string flow) app.cookie_secure
          flow_ttl_secs)
        jar)

  unfoldable pub read_flow : K.PrivateCookieJar → Option FlowState
  read_flow jar = and_then (K.get (flow_cookie_name app.cookie_secure) jar) K.flow_from_str

  abbrev pub answered : K.PrivateCookieJar → Result AuthError Session → Response K
  answered jar (ok session) = redirect (codes "/") (
      K.add
        (cookie (session_cookie_name app.cookie_secure) (K.session_to_string session)
          app.cookie_secure session_ttl_secs)
        jar)
  answered jar (err e) = refused e jar

  abbrev filter_live : ℕ → Option Session → Option Session
  filter_live now none = none
  filter_live now (some s) = if ltb now s.exp then some s else none

  -- The session with which the request goes on, or none for a response with status 401.
  unfoldable pub require_session : ℕ → K.PrivateCookieJar → Option Session
  require_session now jar =
      filter_live now
        (and_then (K.get (session_cookie_name app.cookie_secure) jar) K.session_from_str)

  unfoldable pub logout : K.PrivateCookieJar → K.PrivateCookieJar
  logout jar =
      K.remove (removal_cookie (session_cookie_name app.cookie_secure) app.cookie_secure) jar

  module _ {P : Provider} where
    -- The response, and what is left of the keys and the provider.
    unfoldable pub callback :
        ℕ
        → ℕ
        → Oidc P
        → P.State
        → CallbackQuery
        → K.PrivateCookieJar
        → Response K × Oidc P × P.State
    callback now issued_at oidc idp query jar = elim (read_flow jar) [
      | none ↦ (
        refused (record { status = 400; message = codes "missing or invalid flow cookie" }) jar,
        oidc,
        idp,
      )
      | some flow ↦
          let jar' =
            K.remove (removal_cookie (flow_cookie_name app.cookie_secure) app.cookie_secure) jar in
          let end = authenticate app now issued_at oidc idp flow query in
          (answered jar' end.result, end.oidc, end.idp)
    ]
