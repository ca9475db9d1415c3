-- ===== src/Auth/Sessions/Browsers.antt =====
-- What a browser does with the cookies of src/auth.rs, after RFC 6265bis: which it accepts, which it
-- replaces or drops, and which it sends. The browser itself is a parameter.
use vercel_ddns.Base.{
  ℕ, ◌+◌, ◌≤◌, ◌≡◌, ◌≢◌, ◌∙◌, refl, sym, ap, [], ◌∷◌, Text, codes, Bool, true, ◌&&◌, ◌||◌, not,
  Option, none, some, ◌++◌, ◌==◌, text_eq, if◌then◌else◌, ltb, arith, Option-cases, inl, inr,
}
use vercel_ddns.Base.Strings.{starts_with, starts_with_char, ends_with_char}
use vercel_ddns.Auth.{Cookie, FlowState, Session, Settings}
use vercel_ddns.Auth.Sessions.{put, drop, Cookies}

-- axum-extra: a jar tells of what is put into it, and of the removal of a cookie that the request
-- brought; serde_json reads back what it writes.
pub record IsLawful (K : Cookies) : Type 0 where
  pub changed-add :
      (c : Cookie) (jar : K.PrivateCookieJar) → K.changed c.name (K.add c jar) ≡ some (put c)
  pub changed-add_other :
      (name : Text) (c : Cookie) (jar : K.PrivateCookieJar)
      → name ≢ c.name
      → K.changed name (K.add c jar) ≡ K.changed name jar
  pub changed-remove :
      (c : Cookie) (jar : K.PrivateCookieJar) (value : Text)
      → K.get c.name jar ≡ some value
      → K.changed c.name jar ≡ none
      → K.changed c.name (K.remove c jar) ≡ some (drop c)
  pub changed-remove_absent :
      (c : Cookie) (jar : K.PrivateCookieJar)
      → K.get c.name jar ≡ none
      → K.changed c.name jar ≡ none
      → K.changed c.name (K.remove c jar) ≡ none
  pub flow_from_str-flow_to_string :
      (flow : FlowState) → K.flow_from_str (K.flow_to_string flow) ≡ some flow
  pub session_from_str-session_to_string :
      (s : Session) → K.session_from_str (K.session_to_string s) ≡ some s

-- A request to the service: when it leaves, whether over https, and its path. It is a top-level
-- navigation or comes from the service's own pages, with which `SameSite=Lax` cookies go.
pub record Visit : Type 0 where
  pub at : ℕ
  pub https : Bool
  pub path : Text

-- A cookie and when it arrived.
abbrev pub Held : Type 0
Held = Cookie × ℕ

-- `Max-Age`
abbrev lives : ℕ → ℕ → Option ℕ → Bool
lives at since none = true
lives at since (some age) = ltb at (since + age)

-- Section 5.1.4: the path of a cookie and the path of a request.
abbrev path_matches : Text → Text → Bool
path_matches own path =
    own == path
    || (starts_with own path && ends_with_char b'/' own)
    || starts_with (own ++ codes "/") path

-- The value that goes with a request.
abbrev pub sent_value : Visit → Option Held → Option Text
sent_value v none = none
sent_value v (some (c, since)) =
    if lives v.at since c.max_age && (not c.secure || v.https) && path_matches c.path v.path
    then some c.value
    else none

-- Whether a cookie of a response is accepted: `Secure` ones only over https, and those with the
-- prefix only with `Secure` and `Path=/`. (The service's cookies have no `Domain`.)
abbrev pub accepts : Visit → Cookie → Bool
accepts v c =
    (not c.secure || v.https)
    && (not (starts_with (codes "__Host-") c.name) || (c.secure && c.path == codes "/"))

-- Whether it takes the place of the one that is held under its name: that one has the same path,
-- and is not a `Secure` one that plain http would overwrite.
abbrev pub replaces : Visit → Cookie → Option Held → Bool
replaces v c none = true
replaces v c (some (d, since)) = d.path == c.path && (not d.secure || c.secure || v.https)

-- A browser, as far as it holds cookies under the service's key: `request` is the jar of a request
-- that it makes, and `receive` takes in the response to it at a time. A browser that holds several
-- cookies of a name, under different paths, is told of only through one of them.
pub record Browser (K : Cookies) : Type 1 where
  pub State : Type 0
  pub holds : State → Text → Option Held
  pub request : Visit → State → K.PrivateCookieJar
  pub receive : ℕ → Visit → K.PrivateCookieJar → State → State
  pub get-request :
      (name : Text) (v : Visit) (b : State) → K.get name (request v b) ≡ sent_value v (holds b name)
  pub changed-request : (name : Text) (v : Visit) (b : State) → K.changed name (request v b) ≡ none
  pub receive-none :
      (name : Text) (now : ℕ) (v : Visit) (jar : K.PrivateCookieJar) (b : State)
      → K.changed name jar ≡ none
      → holds (receive now v jar b) name ≡ holds b name
  pub receive-put :
      (name : Text) (now : ℕ) (v : Visit) (jar : K.PrivateCookieJar) (b : State) (c : Cookie)
      → K.changed name jar ≡ some (put c)
      → accepts v c ≡ true
      → replaces v c (holds b name) ≡ true
      → holds (receive now v jar b) name ≡ some (c, now)
  pub receive-drop :
      (name : Text) (now : ℕ) (v : Visit) (jar : K.PrivateCookieJar) (b : State) (c : Cookie)
      → K.changed name jar ≡ some (drop c)
      → accepts v c ≡ true
      → replaces v c (holds b name) ≡ true
      → holds (receive now v jar b) name ≡ none

module _ (app : Settings) where
  -- A request under the service's root, over https if its cookies are `Secure`.
  pub record Reaches (v : Visit) : Type 0 where
    pub secured : app.cookie_secure ≡ true → v.https ≡ true
    pub rooted : starts_with_char b'/' v.path ≡ true

  -- The attributes that all cookies of the service share.
  abbrev pub IsOwn : Cookie → Type 0
  IsOwn c = (c.path ≡ codes "/") × (c.secure ≡ app.cookie_secure)

  -- What is held under a name is the service's.
  abbrev pub HoldsOwn : Option Held → Type 0
  HoldsOwn none = Unit
  HoldsOwn (some (c, since)) = IsOwn c

  path_matches-root :
      (path : Text) → starts_with_char b'/' path ≡ true → path_matches (codes "/") path ≡ true
  unfolding ends_with_char text_eq
  path_matches-root [] h = absurd (ground arith)
  path_matches-root (c ∷ path) h = ground arith

  -- A cookie of the service goes with each request until its `Max-Age` is over.
  pub sent-own :
      (v : Visit) (c : Cookie) (since : ℕ)
      → Reaches v
      → IsOwn c
      → sent_value v (some (c, since)) ≡ (if lives v.at since c.max_age then some c.value else none)
  sent-own v c since reaches (path, secure) =
      let matches = path_matches-root v.path reaches.rooted in
      let root : path_matches c.path v.path ≡ true =
        ap (λ p. path_matches p v.path) path ∙ matches in
      ground (arith, root, secure, reaches.secured)

  pub accepts-own :
      (v : Visit) (c : Cookie)
      → Reaches v
      → IsOwn c
      → starts_with (codes "__Host-") c.name ≡ app.cookie_secure
      → accepts v c ≡ true
  accepts-own v c reaches (path, secure) named =
      ground (arith, path, secure, named, reaches.secured)

  pub replaces-own :
      (v : Visit) (c : Cookie) (held : Option Held)
      → IsOwn c
      → HoldsOwn held
      → replaces v c held ≡ true
  replaces-own v c none own ours = refl
  replaces-own v c (some (d, since)) own ours =
      let (path, secure) = own in
      let (path', secure') = ours in ground (arith, path ∙ sym path', secure ∙ sym secure')

  -- A cookie of the service that does not go with a request does not go with a later one.
  pub sent_over :
      (v w : Visit) (held : Option Held)
      → Reaches v
      → Reaches w
      → v.at ≤ w.at
      → HoldsOwn held
      → sent_value v held ≡ none
      → sent_value w held ≡ none
  sent_over v w none reaches again later ours h = refl
  sent_over v w (some (c, since)) reaches again later ours h =
      let first = sent-own v c since reaches ours in
      let second = sent-own w c since again ours in
      elim (Option-cases c.max_age) [
        | inl none_set ↦ absurd (ground (arith, first, h))
        | inr (age, given) ↦ ground (arith, first, second, h)
      ]
