-- ===== src/Webhook/Access.antt =====
-- Who may ask for a sync through the webhook, with which address, and what the answer says.
use vercel_ddns.Base.{
  ◌≡◌, ◌⊎◌, inl, inr, Text, true, ◌||◌, Option, none, some, arith, ◌!=◌, text_eq, Option-cases,
  Bool-cases,
}
use vercel_ddns.Net.Ipv4
use vercel_ddns.Net.Ipv4.{Ipv4Addr}
use vercel_ddns.Ip.{is_public_ipv4}
use vercel_ddns.Ip.Public.{parse_myip-eq-some}
use vercel_ddns.Webhook.{
  NicUpdateQuery, Credentials, Codecs, credentials, rejected, sync_with, Secrets, decide, badauth,
  parse_hint,
}

parse_hint-eq-some :
    (myip : Option Text) {ip : Ipv4Addr}
    → parse_hint myip ≡ some ip
    → (is_public_ipv4 ip ≡ true) × Ipv4.IsAddr ip
parse_hint-eq-some none h = cc
parse_hint-eq-some (some raw) h =
    let (public, range, _) = parse_myip-eq-some raw h in (public, range)

-- A request is either answered with 401 and no sync, or it has the user and the password of the
-- application; the address with which it then asks for a sync, if it gives one, is public.
pub decide-cases :
    (B : Codecs) (app : Secrets) (header : Option Text) (query : NicUpdateQuery)
    → (decide B app header query ≡ rejected badauth)
      ⊎ ((c : Credentials) × (hint : Option Ipv4Addr) × (decide B app header query ≡ sync_with hint)
          × (credentials B header query ≡ some c)
          × (c.user ≡ app.webhook_username)
          × (c.pass ≡ app.webhook_password)
          × ((ip : Ipv4Addr) → hint ≡ some ip → (is_public_ipv4 ip ≡ true) × Ipv4.IsAddr ip))
unfolding decide
decide-cases B app header query = elim (Option-cases (credentials B header query)) [
  | inl gone ↦ inl (ground arith)
  | inr (c, got) ↦
      elim (Bool-cases (c.user != app.webhook_username || c.pass != app.webhook_password)) [
        | inl wrong ↦ inl (ground arith)
        | inr right ↦ inr (
          c,
          parse_hint query.myip,
          ground arith,
          got,
          ground arith,
          ground arith,
          λ ip e. parse_hint-eq-some query.myip e,
        )
      ]
]

-- The address with which a request asks for a sync is in range.
pub sync_with-IsAddr :
    (B : Codecs) (app : Secrets) (header : Option Text) (query : NicUpdateQuery)
    {hint : Option Ipv4Addr}
    → decide B app header query ≡ sync_with hint
    → (ip : Ipv4Addr) → hint ≡ some ip
    → Ipv4.IsAddr ip
sync_with-IsAddr B app header query {hint} h ip e = elim (decide-cases B app header query) [
  | inl rejects ↦ absurd (ground arith)
  | inr (c, found, got, _, _, _, public) ↦ (public ip (ground arith)).1
]
