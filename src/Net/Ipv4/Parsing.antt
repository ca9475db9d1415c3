-- ===== src/Net/Ipv4/Parsing.antt =====
-- What `FromStr` of `Ipv4Addr` returns and what `Display` prints.
use vercel_ddns.Base.{
  ℕ, ◌+◌, ◌-◌, ◌*◌, ◌≤◌, ◌<◌, ◌≡◌, refl, false, some, List, [], ◌∷◌, ◌++◌, arith, All, All-append,
  Text,
}
use vercel_ddns.Base.Strings.{split, trim, is_whitespace}
use vercel_ddns.Base.Strings.Trimming.{trim_of_fails}
use vercel_ddns.Net.Numbers.{print_octet, digits}
use vercel_ddns.Net.Ipv4.{Ipv4Addr, IsAddr, parse_octet, octets, parse, display}

digits-le : (limit : ℕ) (s : Text) (n m : ℕ) → n ≤ limit → digits limit s n ≡ some m → m ≤ limit
unfolding digits
digits-le limit [] n m h e = ground arith
digits-le limit (c ∷ s) n m h e = ground (arith, digits-le limit s (n * 10 + (c - b'0')) m)

parse_octet-lt : (s : Text) (m : ℕ) → parse_octet s ≡ some m → m < 256
unfolding parse_octet
parse_octet-lt [] m e = cc
parse_octet-lt (c ∷ s) m e = ground (arith, digits-le 255 (c ∷ s) 0 m)

octets-IsAddr : (ss : List Text) {ip : Ipv4Addr} → octets ss ≡ some ip → IsAddr ip
octets-IsAddr [] e = cc
octets-IsAddr (p ∷ []) e = cc
octets-IsAddr (p ∷ q ∷ []) e = cc
octets-IsAddr (p ∷ q ∷ r ∷ []) e = cc
octets-IsAddr (p ∷ q ∷ r ∷ s ∷ t ∷ ss) e = cc
octets-IsAddr (p ∷ q ∷ r ∷ s ∷ []) {ip} e = ground (
  arith,
  parse_octet-lt p ip.a,
  parse_octet-lt q ip.b,
  parse_octet-lt r ip.c,
  parse_octet-lt s ip.d,
)

-- A parsed address has bytes for octets.
pub parse-IsAddr : (s : Text) {ip : Ipv4Addr} → parse s ≡ some ip → IsAddr ip
unfolding parse
parse-IsAddr s e = octets-IsAddr (split b'.' s) e

abbrev Dark : Text → Type 0
Dark = All (λ c. is_whitespace c ≡ false)

print_octet-Dark : (n : ℕ) → n < 256 → Dark (print_octet n)
unfolding print_octet is_whitespace
print_octet-Dark n h = ground arith

dot_dark : is_whitespace b'.' ≡ false
unfolding is_whitespace
dot_dark = refl

dotted-Dark : (s t : Text) → Dark s → Dark t → Dark (s ++ (b'.' ∷ t))
dotted-Dark s t hs ht = All-append _ s (b'.' ∷ t) hs (dot_dark, ht)

pub trim-display : (ip : Ipv4Addr) → IsAddr ip → trim (display ip) ≡ display ip
unfolding display
trim-display ip (ha, hb, hc, hd) = trim_of_fails _ (
    dotted-Dark (print_octet ip.a) _ (print_octet-Dark ip.a ha) (
      dotted-Dark (print_octet ip.b) _ (print_octet-Dark ip.b hb)
        (dotted-Dark (print_octet ip.c) _ (print_octet-Dark ip.c hc) (print_octet-Dark ip.d hd))))
