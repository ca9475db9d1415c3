-- ===== src/Auth/Granting.antt =====
-- Who is given a session by `authenticate` of src/auth.rs.
use vercel_ddns.Base.{
  ℕ, ◌+◌, ◌≡◌, ◌⊎◌, ◌∙◌, refl, sym, ap, inl, inr, Text, none, some, ◌!=◌, text_eq, Bool-cases,
  Option-cases, arith,
}
use vercel_ddns.Base.Outcome.{ok, err, Result-cases, returned, Reply-cases}
use vercel_ddns.Auth.{
  session_ttl_secs, FlowState, Session, Claims, ClaimsError, no_matching_key, other_error, Provider,
  Oidc, Settings, is_authorized, CallbackQuery, admitted, refresh_keys, verify, authenticate,
}
use vercel_ddns.Auth.Admins.{IsAdmin, is_authorized-IsAdmin}

module _ {P : Provider} (app : Settings) (now issued_at : ℕ) (oidc : Oidc P) where
  -- The keys that verify a token: the ones at hand, or new ones if none of those has signed it.
  pub data IsVerified (idp : P.State) (nonce : Text) (token : P.IdToken) (claims : Claims)
      : Type 0 where
    at_once : P.claims oidc.client nonce token ≡ ok claims → IsVerified idp nonce token claims
    refreshed :
        P.claims oidc.client nonce token ≡ err no_matching_key
        → P.claims (refresh_keys now oidc idp).0.client nonce token ≡ ok claims
        → IsVerified idp nonce token claims

  pub record IsAdmitted (claims : Claims) (session : Session) : Type 0 where
    pub admin : IsAdmin app claims
    pub sub : session.sub ≡ claims.sub
    pub email : session.email ≡ claims.email
    pub exp : session.exp ≡ issued_at + 3600

  pub record IsGranted (idp : P.State) (flow : FlowState) (query : CallbackQuery)
      (session : Session) : Type 0 where
    pub csrf : flow.csrf ≡ query.state
    pub token_request : P.TokenRequest
    pub exchange : P.exchange_code oidc.client query.code ≡ some token_request
    pub token : P.IdToken
    pub idp' : P.State
    pub issued : P.request token_request flow.verifier idp ≡ returned (some token) idp'
    pub claims : Claims
    pub verified : IsVerified idp' flow.nonce token claims
    pub admission : IsAdmitted claims session

  admitted-ok :
      (claims : Claims) (session : Session)
      → admitted app issued_at claims ≡ ok session
      → IsAdmitted claims session
  admitted-ok claims session h = elim (Bool-cases (is_authorized app claims)) [
    | inr no_admin ↦ absurd (ground arith)
    | inl admin ↦
        let e : (record {
          sub = claims.sub;
          email = claims.email;
          exp = issued_at + session_ttl_secs;
        })
            ≡ session =
          ground arith in
        record {
          admin = is_authorized-IsAdmin app claims admin;
          sub = sym (ap (λ (x : Session). x.sub) e);
          email = sym (ap (λ (x : Session). x.email) e);
          exp = sym (ap (λ (x : Session). x.exp) e);
        }
  ]

  ClaimsError-cases : (e : ClaimsError) → (e ≡ no_matching_key) ⊎ (e ≡ other_error)
  ClaimsError-cases no_matching_key = inl refl
  ClaimsError-cases other_error = inr refl

  verify-ok :
      (idp : P.State) (nonce : Text) (token : P.IdToken) (session : Session)
      → (verify app now issued_at oidc idp nonce token).result ≡ ok session
      → (claims : Claims) × IsVerified idp nonce token claims × IsAdmitted claims session
  unfolding verify
  verify-ok idp nonce token session h = elim (Result-cases (P.claims oidc.client nonce token)) [
    | inl (claims, good) ↦ (claims, at_once good, admitted-ok claims session (ground arith))
    | inr (e, bad) ↦ elim (ClaimsError-cases e) [
      | inr other ↦ absurd (ground arith)
      | inl unknown ↦
          elim (Result-cases (P.claims (refresh_keys now oidc idp).0.client nonce token)) [
            | inl (claims, good) ↦ (
              claims,
              refreshed (bad ∙ ap err unknown) good,
              admitted-ok claims session (ground arith),
            )
            | inr (e', worse) ↦ absurd (ground arith)
          ]
    ]
  ]

  -- A session is given only to a caller that brings back the state of its own flow, whose code the
  -- provider exchanges, with the flow's verifier, for an ID token; the token's claims are verified
  -- with the flow's nonce, by the keys at hand or, if none of them has signed it, by those after a
  -- refresh; and the claims name the admin group, if one is required. The session holds the
  -- claims' subject and address and lasts an hour.
  pub authenticate-IsGranted :
      (idp : P.State) (flow : FlowState) (query : CallbackQuery) (session : Session)
      → (authenticate app now issued_at oidc idp flow query).result ≡ ok session
      → IsGranted idp flow query session
  unfolding authenticate
  authenticate-IsGranted idp flow query session h = elim (Bool-cases (flow.csrf != query.state)) [
    | inl differs ↦ absurd (ground arith)
    | inr same ↦ elim (Option-cases (P.exchange_code oidc.client query.code)) [
      | inl no_endpoint ↦ absurd (ground arith)
      | inr (token_request, exchange) ↦
          elim (Reply-cases (P.request token_request flow.verifier idp)) [
            | inr (e, idp', failed) ↦ absurd (ground arith)
            | inl (none, idp', empty) ↦ absurd (ground arith)
            | inl (some token, idp', issued) ↦
                let (claims, verified, admission) =
                  verify-ok idp' flow.nonce token session (ground arith) in
                record {
                  csrf = ground arith;
                  token_request = token_request;
                  exchange = exchange;
                  token = token;
                  idp' = idp';
                  issued = issued;
                  claims = claims;
                  verified = verified;
                  admission = admission;
                }
          ]
    ]
  ]
