-- ===== src/Ip.antt =====
-- src/ip.rs: which addresses are public, the dyndns2 `myip` parameter, and the vote of resolvers.
pub mod Public
pub mod Votes
use Prim.Native.Nat.{ℕ, ◌+◌}
use native.Mathlib.Decide.{ℕ_discrete}
use vercel_ddns.Base.{
  Text, Bool, true, false, ◌&&◌, ◌||◌, not, Option, none, some, List, [], ◌∷◌, ltb, leb, eqb,
  if◌then◌else◌, Eq, ◌==◌, max_by_key, find,
}
use vercel_ddns.Base.Strings.{split, trim}
use vercel_ddns.Net.Ipv4.{
  Ipv4Addr, ipv4_eq, is_private, is_loopback, is_link_local, is_broadcast, is_documentation,
  is_unspecified,
}
use vercel_ddns.Net.Ipv4

-- `cgnat`: 100.64.0.0/10
abbrev pub is_cgnat : Ipv4Addr → Bool
is_cgnat ip = eqb ip.a 100 && leb 64 ip.b && ltb ip.b 128

unfoldable pub is_public_ipv4 : Ipv4Addr → Bool
is_public_ipv4 ip = not (
    is_private ip
    || is_loopback ip
    || is_link_local ip
    || is_broadcast ip
    || is_documentation ip
    || is_unspecified ip
    || is_cgnat ip)

-- `filter_map(|part| part.trim().parse().ok())`
unfoldable pub parse_parts : List Text → List Ipv4Addr
parse_parts [] = []
parse_parts (part ∷ parts) = elim (Ipv4.parse (trim part)) [
  | none ↦ parse_parts parts
  | some ip ↦ ip ∷ parse_parts parts
]

unfoldable pub parse_myip : Text → Option Ipv4Addr
parse_myip raw = find is_public_ipv4 (parse_parts (split b',' raw))

pub data IpAddr : Type 0 where
  v4 : Ipv4Addr → IpAddr
  v6 : ℕ → IpAddr

IpAddr-discrete : Discrete IpAddr
IpAddr-discrete = hlevel ℕ_discrete

instance unfoldable pub ipaddr_eq : Eq IpAddr
unfolding IpAddr-discrete ℕ_discrete
ipaddr_eq = record { dec = IpAddr-discrete }

abbrev pub Votes : Type 0
Votes = List (IpAddr × ℕ)

-- `*votes.entry(addr).or_default() += 1`
unfoldable pub add_vote : IpAddr → Votes → Votes
add_vote a [] = (a, 1) ∷ []
add_vote a ((b, n) ∷ votes) = if a == b then (b, n + 1) ∷ votes else (b, n) ∷ add_vote a votes

unfoldable pub tally : List IpAddr → Votes → Votes
tally [] votes = votes
tally (a ∷ answers) votes = tally answers (add_vote a votes)

abbrev pub count_of : IpAddr × ℕ → ℕ
count_of (_, n) = n

abbrev quorum : Option (IpAddr × ℕ) → Option IpAddr
quorum none = none
quorum (some (a, n)) = if ltb n 2 then none else some a

-- `order` is the order in which the hash map happens to list its entries.
unfoldable pub consensus_addr : (Votes → Votes) → List IpAddr → Option IpAddr
consensus_addr order answers = quorum (max_by_key count_of (order (tally answers [])))

abbrev ipv4_only : Option IpAddr → Option Ipv4Addr
ipv4_only (some (v4 ip)) = some ip
ipv4_only (some (v6 _)) = none
ipv4_only none = none

unfoldable pub resolve_ipv4 : (Votes → Votes) → List IpAddr → Option Ipv4Addr → Option Ipv4Addr
resolve_ipv4 order answers (some hint) = some hint
resolve_ipv4 order answers none = ipv4_only (consensus_addr order answers)
