-- ===== src/Auth/Sessions/Lasting.antt =====
-- What `login`, `callback` and `logout` of src/auth.rs leave in a browser, and how long
-- `require_session` and `callback` then find it.
use vercel_ddns.Base.{
  ℕ, ◌<◌, ◌≡◌, subst, inl, inr, Text, some, ltb, Option-cases, Bool-cases, arith,
}
use vercel_ddns.Auth.{
  flow_cookie_name, session_cookie_name, Cookie, cookie, removal_cookie, FlowState, Session,
  Settings, session_ttl_secs, flow_ttl_secs,
}
use vercel_ddns.Auth.Sessions.{Cookies, require_session}
use vercel_ddns.Auth.Sessions.Browsers.{IsLawful, Browser}

-- A session that passes has not ended.
pub require_session-exp :
    (K : Cookies) (app : Settings) (now : ℕ) (jar : K.PrivateCookieJar) (session : Session)
    → require_session K app now jar ≡ some session
    → now < session.exp
unfolding require_session
require_session-exp K app now jar session h =
    elim (Option-cases (K.get (session_cookie_name app.cookie_secure) jar)) [
      | inl none_held ↦ absurd (ground arith)
      | inr (text, held) ↦ elim (Option-cases (K.session_from_str text)) [
        | inl broken ↦ absurd (ground arith)
        | inr (found, reads) ↦ elim (Bool-cases (ltb now found.exp)) [
          | inl live ↦
              let same : found ≡ session = ground arith in
              subst (λ (x : Session). now < x.exp) same (ground arith)
          | inr over ↦ absurd (ground arith)
        ]
      ]
    ]

module _ (K : Cookies) (lawful : IsLawful K) (B : Browser K) (app : Settings) where
  abbrev flow_name : Text
  flow_name = flow_cookie_name app.cookie_secure

  abbrev session_name : Text
  session_name = session_cookie_name app.cookie_secure

  abbrev flow_removal : Cookie
  flow_removal = removal_cookie flow_name app.cookie_secure

  abbrev session_removal : Cookie
  session_removal = removal_cookie session_name app.cookie_secure

  abbrev flow_cookie : FlowState → Cookie
  flow_cookie flow = cookie flow_name (K.flow_to_string flow) app.cookie_secure flow_ttl_secs

  abbrev session_cookie : Session → Cookie
  session_cookie session =
      cookie session_name (K.session_to_string session) app.cookie_secure session_ttl_secs
