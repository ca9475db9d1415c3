-- ===== src/Startup/Urls.antt =====
-- The URLs of `discover` of src/auth.rs and `cookie_secure` of src/main.rs.
use vercel_ddns.Base.{
  ℕ, ◌≡◌, ◌≢◌, ◌↔◌, ◌∙◌, refl, sym, ap, Text, codes, true, false, ◌&&◌, [], ◌∷◌, ◌++◌, arith, All,
  is_nil, Bool-cases, inl, inr,
}
use vercel_ddns.Base.Outcome.{ok, Result-cases, Reply-cases}
use vercel_ddns.Base.Strings.{starts_with, trim_end_matches, ends_with_char}
use vercel_ddns.Net.Ipv6.{Ipv6}
use vercel_ddns.Cloudflare.Client.{Client}
use vercel_ddns.Auth.{Provider, Oidc}
use vercel_ddns.Webhook.{Codecs}
use vercel_ddns.Startup.{Args, Machine, Started, is_slash, is_https, callback_url, discover, main}

abbrev trimmed : Text → Text
trimmed = trim_end_matches is_slash

abbrev Slashes : Text → Type 0
Slashes s = All (λ c. is_slash c ≡ true) s

-- What is trimmed off is slashes.
trimmed-append : (s : Text) → (slashes : Text) × Slashes slashes × (s ≡ trimmed s ++ slashes)
unfolding trim_end_matches
trimmed-append [] = ([], tt, refl)
trimmed-append (c ∷ s) =
    let (slashes, only, e) = trimmed-append s in
    elim (Bool-cases (is_nil (trimmed s) && is_slash c)) [
      | inl off ↦ (c ∷ slashes, (ground arith, only), ground arith)
      | inr kept ↦ (slashes, only, ground arith)
    ]

trimmed-ends_with_char : (s : Text) → ends_with_char b'/' (trimmed s) ≡ false
unfolding trim_end_matches ends_with_char
trimmed-ends_with_char [] = refl
trimmed-ends_with_char (c ∷ s) = ground (arith, trimmed-ends_with_char s)

starts_with-split : (p s : Text) → starts_with p s ≡ true → (rest : Text) × (s ≡ p ++ rest)
starts_with-split [] s h = (s, refl)
starts_with-split (c ∷ p) [] h = absurd (ground arith)
starts_with-split (c ∷ p) (d ∷ s) h =
    let (rest, e) = starts_with-split p s (ground arith) in (rest, ground (arith, e))

starts_with-append : (p rest : Text) → starts_with p (p ++ rest) ≡ true
starts_with-append [] rest = refl
starts_with-append (c ∷ p) rest = ground (arith, starts_with-append p rest)

-- Slashes do not start with anything else.
starts_with-Slashes :
    (c : ℕ) (p slashes : Text)
    → is_slash c ≡ false
    → Slashes slashes
    → starts_with (c ∷ p) slashes ≡ false
starts_with-Slashes c p [] other h = refl
starts_with-Slashes c p (d ∷ slashes) other (hd, h) = ground arith

-- The first eight characters decide.
is_https-append :
    (t slashes : Text)
    → ends_with_char b'/' t ≡ false
    → t ≢ codes "https:"
    → Slashes slashes
    → is_https (t ++ codes "/auth/callback") ≡ is_https (t ++ slashes)
unfolding ends_with_char
is_https-append [] slashes e other h =
    sym (starts_with-Slashes b'h' (codes "ttps://") slashes refl h)
is_https-append (a ∷ []) slashes e other h =
    ground (arith, starts_with-Slashes b't' (codes "tps://") slashes refl h)
is_https-append (a ∷ b ∷ []) slashes e other h =
    ground (arith, starts_with-Slashes b't' (codes "ps://") slashes refl h)
is_https-append (a ∷ b ∷ c ∷ []) slashes e other h =
    ground (arith, starts_with-Slashes b'p' (codes "s://") slashes refl h)
is_https-append (a ∷ b ∷ c ∷ d ∷ []) slashes e other h =
    ground (arith, starts_with-Slashes b's' (codes "://") slashes refl h)
is_https-append (a ∷ b ∷ c ∷ d ∷ x ∷ []) slashes e other h =
    ground (arith, starts_with-Slashes b':' (codes "//") slashes refl h)
is_https-append (a ∷ b ∷ c ∷ d ∷ x ∷ f ∷ []) slashes e other h = ground arith
is_https-append (a ∷ b ∷ c ∷ d ∷ x ∷ f ∷ g ∷ []) slashes e other h = ground arith
is_https-append (a ∷ b ∷ c ∷ d ∷ x ∷ f ∷ g ∷ h ∷ t) slashes e other only = refl

-- The URL of the callback is as secure as the public one, unless that one is all scheme.
is_https-callback_url :
    (public_url : Text)
    → trimmed public_url ≢ codes "https:"
    → is_https (callback_url public_url) ≡ is_https public_url
is_https-callback_url public_url other =
    let (slashes, only, e) = trimmed-append public_url in
    is_https-append (trimmed public_url) slashes (trimmed-ends_with_char public_url) other only
    ∙ ap is_https (sym e)

-- `RedirectUrl` of openidconnect keeps the text of a URL that it accepts.
abbrev pub KeepsText : (C : Client) (P : Provider) → Machine C P → Type 0
KeepsText C P m = (url kept : Text) → m.redirect_url url ≡ ok kept → kept ≡ url

module _ (C : Client) (P : Provider) (m : Machine C P) where
  discover-redirect :
      (issuer client_id client_secret public_url : Text) (idp : P.State) {oidc : Oidc P}
      {idp' : P.State}
      → KeepsText C P m
      → discover m issuer client_id client_secret public_url idp ≡ ok (oidc, idp')
      → oidc.redirect ≡ callback_url public_url
  unfolding discover
  discover-redirect issuer client_id client_secret public_url idp {oidc} {idp'} keeps h =
      elim (Result-cases (m.issuer_url issuer)) [
        | inr (e, failed) ↦ absurd (ground arith)
        | inl (url, accepted) ↦ elim (Result-cases m.http_client) [
          | inr (e, failed) ↦ absurd (ground arith)
          | inl (u, built) ↦ elim (Reply-cases (m.discover_async url idp)) [
            | inr (e, s, failed) ↦ absurd (ground arith)
            | inl (metadata, s, found) ↦
                elim (Result-cases (m.redirect_url (callback_url public_url))) [
                  | inr (e, failed) ↦ absurd (ground arith)
                  | inl (redirect, given) ↦
                      let same : redirect ≡ oidc.redirect = ground arith in
                      sym same ∙ keeps (callback_url public_url) redirect given
                ]
          ]
        ]
      ]

  main-is_https :
      (V : Ipv6) (B : Codecs) (args : Args) (idp : P.State) {started : Started C P}
      → KeepsText C P m
      → trim_end_matches is_slash args.public_url ≢ codes "https:"
      → main m V B args idp ≡ ok started
      → started.app.cookie_secure ≡ is_https started.oidc.redirect
  unfolding main
  main-is_https V B args idp {started} keeps other h =
      elim (Result-cases (m.connect args.database_url)) [
        | inr (e, failed) ↦ absurd (ground arith)
        | inl (db, connected) ↦ elim (Result-cases (m.cloudflare args.cloudflare_token)) [
          | inr (e, failed) ↦ absurd (ground arith)
          | inl (cloud, built) ↦
              let ask =
                discover m args.oidc_issuer args.oidc_client_id args.oidc_client_secret
                  args.public_url idp in
              elim (Result-cases ask) [
                | inr (e, failed) ↦ absurd (ground arith)
                | inl ((oidc, idp'), found) ↦
                    let redirect =
                      discover-redirect args.oidc_issuer args.oidc_client_id args.oidc_client_secret
                        args.public_url idp keeps found in
                    let same : oidc ≡ started.oidc = ground arith in
                    let flag : is_https args.public_url ≡ started.app.cookie_secure =
                      ground arith in
                    sym flag
                    ∙ sym (is_https-callback_url args.public_url other)
                    ∙ ap is_https (sym redirect ∙ ap (λ (o : Oidc P). o.redirect) same)
              ]
        ]
      ]

  -- Once the service has started, its cookies are Secure exactly if the URL to which the provider
  -- sends the browser back starts with `https://` in lower case. (`RedirectUrl` keeps its text, and
  -- the public URL without its slashes at the end is not `https:`.)
  pub main-cookie_secure :
      (V : Ipv6) (B : Codecs) (args : Args) (idp : P.State) {started : Started C P}
      → KeepsText C P m
      → trim_end_matches is_slash args.public_url ≢ codes "https:"
      → main m V B args idp ≡ ok started
      → (started.app.cookie_secure ≡ true)
        ↔ ((rest : Text) × (started.oidc.redirect ≡ codes "https://" ++ rest))
  main-cookie_secure V B args idp {started} keeps other h =
      let flag = main-is_https V B args idp {started = started} keeps other h in
      (
        (λ secure. starts_with-split (codes "https://") started.oidc.redirect (sym flag ∙ secure)),
        (λ (rest, e). flag ∙ ap is_https e ∙ starts_with-append (codes "https://") rest),
      )
