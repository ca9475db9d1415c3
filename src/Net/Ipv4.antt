-- ===== src/Net/Ipv4.antt =====
-- `std::net::Ipv4Addr`: `FromStr`, `Display` and the tests on its octets.
pub mod RoundTrip
pub mod Parsing
use Prim.Native.Nat.{ℕ, ◌+◌, ◌<◌}
use native.Mathlib.Decide.{ℕ_discrete}
use vercel_ddns.Base.{
  Text, Bool, true, false, ◌&&◌, ◌||◌, Option, none, some, List, [], ◌∷◌, ◌++◌, ltb, leb, eqb,
  if◌then◌else◌, is_nil, Eq, length,
}
use vercel_ddns.Base.Strings.{split, starts_with_char, is_ascii_digit}
use vercel_ddns.Net.Numbers.{digits, print_octet}

pub record Ipv4Addr : Type 0 where
  pub a : ℕ
  pub b : ℕ
  pub c : ℕ
  pub d : ℕ

-- The octets are bytes.
abbrev pub IsAddr : Ipv4Addr → Type 0
IsAddr ip = (ip.a < 256) × (ip.b < 256) × (ip.c < 256) × (ip.d < 256)

Ipv4Addr-discrete : Discrete Ipv4Addr
Ipv4Addr-discrete = hlevel ℕ_discrete

instance unfoldable pub ipv4_eq : Eq Ipv4Addr
unfolding Ipv4Addr-discrete ℕ_discrete
ipv4_eq = record { dec = Ipv4Addr-discrete }

-- One to three digits, no zero in front of another digit, at most 255.
unfoldable pub parse_octet : Text → Option ℕ
parse_octet [] = none
parse_octet (c ∷ s) =
    if ltb 3 (length (c ∷ s)) || (eqb c b'0' && ltb 0 (length s))
    then none
    else digits 255 (c ∷ s) 0

abbrev pub octets : List Text → Option Ipv4Addr
octets (p ∷ q ∷ r ∷ s ∷ []) = elim (parse_octet p) [
  | none ↦ none
  | some a ↦ elim (parse_octet q) [
    | none ↦ none
    | some b ↦ elim (parse_octet r) [
      | none ↦ none
      | some c ↦ elim (parse_octet s) [
        | none ↦ none
        | some d ↦ some (record { a = a; b = b; c = c; d = d })
      ]
    ]
  ]
]
octets _ = none

-- `s.parse::<Ipv4Addr>()`: four octets between dots.
unfoldable pub parse : Text → Option Ipv4Addr
parse s = octets (split b'.' s)

-- `to_string`
unfoldable pub display : Ipv4Addr → Text
display ip =
    print_octet ip.a
    ++ (b'.' ∷ (print_octet ip.b ++ (b'.' ∷ (print_octet ip.c ++ (b'.' ∷ print_octet ip.d)))))

-- The ranges of the stable tests.
unfoldable pub is_private : Ipv4Addr → Bool
is_private ip =
    eqb ip.a 10 || (eqb ip.a 172 && leb 16 ip.b && leb ip.b 31) || (eqb ip.a 192 && eqb ip.b 168)

abbrev pub is_loopback : Ipv4Addr → Bool
is_loopback ip = eqb ip.a 127

abbrev pub is_link_local : Ipv4Addr → Bool
is_link_local ip = eqb ip.a 169 && eqb ip.b 254

abbrev pub is_broadcast : Ipv4Addr → Bool
is_broadcast ip = eqb ip.a 255 && eqb ip.b 255 && eqb ip.c 255 && eqb ip.d 255

abbrev pub is_documentation : Ipv4Addr → Bool
is_documentation ip =
    (eqb ip.a 192 && eqb ip.b 0 && eqb ip.c 2)
    || (eqb ip.a 198 && eqb ip.b 51 && eqb ip.c 100)
    || (eqb ip.a 203 && eqb ip.b 0 && eqb ip.c 113)

abbrev pub is_unspecified : Ipv4Addr → Bool
is_unspecified ip = eqb ip.a 0 && eqb ip.b 0 && eqb ip.c 0 && eqb ip.d 0
