-- ===== src/Net/Ipv6.antt =====
-- `std::net::Ipv6Addr`, of which the source uses `FromStr`, `Display` and `==`.
use vercel_ddns.Base.{Text, Option, some, ◌≡◌, Eq}
use vercel_ddns.Base.Strings.{trim}

pub record Ipv6 : Type 1 where
  pub Addr : Type 0
  pub eq : Eq Addr
  pub parse : Text → Option Addr
  pub display : Addr → Text

-- What the standard library documents: an address is read back from its text, which holds no
-- whitespace.
pub record IsLawful (V : Ipv6) : Type 0 where
  pub parse-display : (a : V.Addr) → V.parse (V.display a) ≡ some a
  pub trim-display : (a : V.Addr) → trim (V.display a) ≡ V.display a
