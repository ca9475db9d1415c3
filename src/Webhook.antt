-- ===== src/Webhook.antt =====
-- src/webhook.rs: the credentials of a call, and the answer to the router.
pub mod Access
pub mod Answers
use vercel_ddns.Base.{
  ℕ, Text, codes, Bool, true, false, ◌&&◌, ◌||◌, not, Option, none, some, List, [], ◌∷◌, ◌++◌, ◌==◌,
  ◌!=◌, text_eq, if◌then◌else◌, eqb, all, leb,
}
use vercel_ddns.Base.Strings.{starts_with, split_once, trim_end_matches, is_whitespace}
use vercel_ddns.Ip.{parse_myip}
use vercel_ddns.Net.Ipv4.{Ipv4Addr}
use vercel_ddns.Sync.Run.{SyncOutcome, is_ok, is_changed}

-- The `Authorization` header, if the request has one, as its bytes.
pub record NicUpdateQuery : Type 0 where
  pub hostname : Option Text
  pub myip : Option Text
  pub user : Option Text
  pub username : Option Text
  pub pass : Option Text
  pub password : Option Text

pub record Credentials : Type 0 where
  pub user : Text
  pub pass : Text
  pub via : Text

-- The crates http and base64: the text of a header, and the text that an encoded text stands for,
-- if the decoded bytes are UTF-8.
pub record Codecs : Type 0 where
  pub to_str : Text → Option Text
  pub decode : Text → Option Text

abbrev drop_prefix : Text → Text → Option Text
drop_prefix [] s = some s
drop_prefix (_ ∷ _) [] = none
drop_prefix (c ∷ p) (d ∷ s) = if eqb c d then drop_prefix p s else none

abbrev or_else : Option Text → Option Text → Option Text
or_else (some a) _ = some a
or_else none b = b

abbrev pair_up : Option (Text × Text) → Option Credentials
pair_up none = none
pair_up (some (user, pass)) = some (record { user = user; pass = pass; via = codes "basic-auth" })

abbrev from_query : Option Text → Option Text → Option Credentials
from_query (some user) (some pass) =
    some (record { user = user; pass = pass; via = codes "query-params" })
from_query _ _ = none

module _ (B : Codecs) where
  unfoldable pub basic_credentials : Text → Option Credentials
  basic_credentials header = elim (B.to_str header) [
    | none ↦ none
    | some shown ↦ elim (drop_prefix (codes "Basic ") shown) [
      | none ↦ none
      | some encoded ↦ elim (B.decode encoded) [
        | none ↦ none
        | some text ↦ pair_up (split_once (eqb b':') text)
      ]
    ]
  ]

  -- A header, also one that cannot be read, leaves the query parameters aside.
  unfoldable pub credentials : Option Text → NicUpdateQuery → Option Credentials
  credentials (some header) query = basic_credentials header
  credentials none query =
      from_query (or_else query.user query.username) (or_else query.pass query.password)

pub record Answer : Type 0 where
  pub status : ℕ
  pub body : Text

abbrev pub badauth : Answer
badauth = record { status = 401; body = codes "badauth" }

abbrev pub failure : Answer
failure = record { status = 500; body = codes "911" }

-- The secrets of the application's state that the handler reads.
pub record Secrets : Type 0 where
  pub webhook_username : Text
  pub webhook_password : Text

abbrev or_empty : Option Text → Text
or_empty none = []
or_empty (some s) = s

-- The answer to an outcome; none means that the sync worker has gone.
unfoldable pub reply : Option SyncOutcome → Answer
reply none = failure
reply (some o) = if not (is_ok o) then failure else record {
  status = 200;
  body =
      trim_end_matches is_whitespace
        ((if is_changed o then codes "good" else codes "nochg") ++ (b' ' ∷ or_empty o.ipv4));
}

abbrev pub parse_hint : Option Text → Option Ipv4Addr
parse_hint none = none
parse_hint (some raw) = parse_myip raw

-- The handler: an answer at once, or the address with which a sync is asked for.
pub data Decision : Type 0 where
  rejected : Answer → Decision
  sync_with : Option Ipv4Addr → Decision

module _ (B : Codecs) (app : Secrets) where
  unfoldable pub decide : Option Text → NicUpdateQuery → Decision
  decide header query = elim (credentials B header query) [
    | none ↦ rejected badauth
    | some c ↦
        if c.user != app.webhook_username || c.pass != app.webhook_password
        then rejected badauth
        else sync_with (parse_hint query.myip)
  ]
