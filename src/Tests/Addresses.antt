-- ===== src/Tests/Addresses.antt =====
-- Votes, the router's parameter, and calls of the webhook.
use Prim.Native.Nat.{◌≤◌}
use vercel_ddns.Base.{
  ◌≡◌, ◌⊎◌, refl, Text, some, none, codes, [], ◌∷◌, true, List, Option, max_by_key,
}
use vercel_ddns.Base.Strings
use vercel_ddns.Base.Strings.{split, trim}
use vercel_ddns.Net.Numbers
use vercel_ddns.Net.Ipv4
use vercel_ddns.Net.Ipv4.{Ipv4Addr, IsAddr, parse}
use vercel_ddns.Ip
use vercel_ddns.Ip.{IpAddr, v4, Votes, consensus_addr, parse_myip, is_public_ipv4, ipaddr_eq}
use vercel_ddns.Ip.Votes.{votes_for, consensus_addr-eq-some, IsListing}
use vercel_ddns.Ip.Public.{parse_myip-eq-some, In}
use vercel_ddns.Webhook.{
  Codecs, Secrets, NicUpdateQuery, Credentials, credentials, decide, rejected, sync_with, badauth,
}
use vercel_ddns.Webhook.Access.{decide-cases}

abbrev home : Ipv4Addr
home = record { a = 9; b = 8; c = 7; d = 6 }

abbrev away : Ipv4Addr
away = record { a = 1; b = 2; c = 3; d = 4 }

abbrev answers : List IpAddr
answers = v4 home ∷ v4 away ∷ v4 home ∷ []

abbrev as_listed : Votes → Votes
as_listed votes = votes

as_listed-IsListing : IsListing as_listed
as_listed-IsListing a n votes = (λ e. e, λ e. e)

home_wins : consensus_addr as_listed answers ≡ some (v4 home)
unfolding consensus_addr Ip.tally Ip.add_vote ipaddr_eq max_by_key
home_wins = refl

consensus_addr-eq-some_example :
    (2 ≤ votes_for (v4 home) answers)
    × ((b : IpAddr) → votes_for b answers ≤ votes_for (v4 home) answers)
consensus_addr-eq-some_example =
    consensus_addr-eq-some as_listed answers as_listed-IsListing home_wins

abbrev router_says : Text
router_says = codes "192.168.1.1, 9.8.7.6"

home_found : parse_myip router_says ≡ some home
unfolding parse_myip split Ip.parse_parts parse trim Strings.trim_end_matches
    Strings.trim_start_matches Strings.is_whitespace Ipv4.parse_octet Numbers.digits is_public_ipv4
    Ipv4.is_private
home_found = refl

parse_myip-eq-some_example :
    (is_public_ipv4 home ≡ true)
    × IsAddr home
    × ((part : Text) × In part (split b',' router_says) × (parse (trim part) ≡ some home))
parse_myip-eq-some_example = parse_myip-eq-some router_says home_found

abbrev pub plain : Codecs
plain = record { to_str = λ s. some s; decode = λ s. some s }

abbrev pub secrets : Secrets
secrets = record { webhook_username = codes "u"; webhook_password = codes "p" }

abbrev call : NicUpdateQuery
call = record {
  hostname = none;
  myip = some router_says;
  user = none;
  username = none;
  pass = none;
  password = none;
}

abbrev header : Option Text
header = some (codes "Basic u:p")

decide-cases_example :
    (decide plain secrets header call ≡ rejected badauth)
    ⊎ ((c : Credentials) × (hint : Option Ipv4Addr) × (decide plain secrets header call
          ≡ sync_with hint)
        × (credentials plain header call ≡ some c)
        × (c.user ≡ codes "u")
        × (c.pass ≡ codes "p")
        × ((ip : Ipv4Addr) → hint ≡ some ip → (is_public_ipv4 ip ≡ true) × IsAddr ip))
decide-cases_example = decide-cases plain secrets header call
