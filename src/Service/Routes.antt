-- ===== src/Service/Routes.antt =====
-- The routes of src/main.rs that change the service's state: the API behind the session check, and
-- the router's webhook.
use vercel_ddns.Base.{
  ℕ, ◌≡◌, ◌<◌, ◌⊎◌, ◌∙◌, refl, sym, ap, subst, inl, inr, Text, codes, Option, none, some,
  Option-cases, arith,
}
use vercel_ddns.Base.Int.{ℤ}
use vercel_ddns.Net.Ipv6.{Ipv6}
use vercel_ddns.Storage.{RecordInput}
use vercel_ddns.Cloudflare.Client.{Client}
use vercel_ddns.Sync.Worker.{Syncer, ask}
use vercel_ddns.Api.Handlers.{list_records, status, create_record, update_record, delete_record}
use vercel_ddns.Webhook.{
  Codecs, Secrets, Credentials, NicUpdateQuery, Decision, rejected, sync_with, credentials, decide,
}
use vercel_ddns.Webhook.Access.{decide-cases}
use vercel_ddns.Auth.{Settings, Session}
use vercel_ddns.Auth.Sessions.{Cookies, require_session}
use vercel_ddns.Auth.Sessions.Lasting.{require_session-exp}
use vercel_ddns.Service.{handled, Step}

-- The routes under /api.
pub data ApiCall : Type 0 where
  me : ApiCall
  records : ApiCall
  create : RecordInput → ApiCall
  update : ℤ → RecordInput → ApiCall
  delete : ℤ → ApiCall
  sync : ApiCall
  last_status : ApiCall

pub data Request (K : Cookies) : Type 0 where
  api : K.PrivateCookieJar → ApiCall → Request K
  nic_update : Option Text → NicUpdateQuery → Request K

module _ (C : Client) (V : Ipv6) (B : Codecs) (secrets : Secrets) (interval : ℕ) where
  unfoldable pub dispatch : ApiCall → Syncer C → Syncer C
  dispatch me s = s
  dispatch records s = handled s (list_records C s.world)
  dispatch (create raw) s = handled s (create_record C V raw s.world)
  dispatch (update id raw) s = handled s (update_record C V id raw s.world)
  dispatch (delete id) s = handled s (delete_record C id s.world)
  dispatch sync s = ask (codes "manual") none s
  dispatch last_status s = handled s (status C interval s.world)

  abbrev decided : Decision → Syncer C → Syncer C
  decided (rejected _) s = s
  decided (sync_with hint) s = ask (codes "webhook") hint s

  module _ (K : Cookies) (app : Settings) where
    abbrev behind_session : Option Session → ApiCall → Syncer C → Syncer C
    behind_session none call s = s
    behind_session (some _) call s = dispatch call s

    -- What a request that arrives at a time does to the state.
    unfoldable pub receive : ℕ → Request K → Syncer C → Syncer C
    receive now (api jar call) s = behind_session (require_session K app now jar) call s
    receive now (nic_update header query) s = decided (decide B secrets header query) s

    -- Who may change the state.
    pub data IsAuthorised (now : ℕ) : Request K → Type 0 where
      by_session :
          (jar : K.PrivateCookieJar) (call : ApiCall) (session : Session)
          → require_session K app now jar ≡ some session
          → now < session.exp
          → IsAuthorised now (api jar call)
      by_secret :
          (header : Option Text) (query : NicUpdateQuery) (c : Credentials)
          → credentials B header query ≡ some c
          → c.user ≡ secrets.webhook_username
          → c.pass ≡ secrets.webhook_password
          → IsAuthorised now (nic_update header query)

    abbrev Steps : Syncer C → Syncer C → Type 0
    Steps = Step C V B secrets interval

    dispatch-Step :
        (call : ApiCall) (s : Syncer C) → (dispatch call s ≡ s) ⊎ Steps s (dispatch call s)
    unfolding dispatch
    dispatch-Step me s = inl refl
    dispatch-Step records s = inr Step.calls_list
    dispatch-Step (create raw) s = inr (Step.calls_create raw)
    dispatch-Step (update id raw) s = inr (Step.calls_update id raw)
    dispatch-Step (delete id) s = inr (Step.calls_delete id)
    dispatch-Step sync s = inr Step.calls_sync
    dispatch-Step last_status s = inr Step.calls_status

    -- A request leaves the state as it is, or it takes one step of the service, and then it brings
    -- a session that has not ended or the webhook's user and password.
    pub receive-IsAuthorised :
        (now : ℕ) (request : Request K) (s : Syncer C)
        → (receive now request s ≡ s) ⊎ (IsAuthorised now request × Steps s (receive now request s))
    unfolding receive
    receive-IsAuthorised now (api jar call) s =
        elim (Option-cases (require_session K app now jar)) [
          | inl unknown ↦ inl (ground arith)
          | inr (session, known) ↦
              let e : behind_session (require_session K app now jar) call s ≡ dispatch call s =
                ap (λ o. behind_session o call s) known in
              elim (dispatch-Step call s) [
                | inl same ↦ inl (e ∙ same)
                | inr st ↦ inr (
                  by_session jar call session known
                      (require_session-exp K app now jar session known),
                  subst (Steps s) (sym e) st,
                )
              ]
        ]
    receive-IsAuthorised now (nic_update header query) s =
        elim (decide-cases B secrets header query) [
          | inl wrong ↦ inl (ap (λ d. decided d s) wrong)
          | inr (c, hint, e, got, user, pass, _) ↦ inr (
            by_secret header query c got user pass,
            subst (Steps s) (sym (ap (λ d. decided d s) e))
                (Step.calls_webhook header query hint e),
          )
        ]
