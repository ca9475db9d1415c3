-- ===== src/Net/Ipv4/RoundTrip.antt =====
-- `Display` and `FromStr` of `Ipv4Addr`.
use vercel_ddns.Base.{
  ℕ, zero, suc, ◌<◌, ◌≡◌, refl, Bool, true, ◌&&◌, some, arith, ◌==◌, option_eq, nat_eq,
}
use vercel_ddns.Base.Strings.Splitting.{Lacks, split-append, split-lacking}
use vercel_ddns.Net.Numbers.{print_octet, digits}
use vercel_ddns.Net.Ipv4.{Ipv4Addr, IsAddr, parse_octet, octets, parse, display}

abbrev reads_back : ℕ → Bool
reads_back n = parse_octet (print_octet n) == some n

-- Whether every octet below a bound is read back.
octets_read_back : ℕ → Bool
octets_read_back zero = true
octets_read_back (suc bound) = octets_read_back bound && reads_back bound

reads_back-octets_read_back :
    (bound n : ℕ) → n < bound → octets_read_back bound ≡ true → reads_back n ≡ true
unfolding octets_read_back
reads_back-octets_read_back zero n below _ = absurd (omega arith)
reads_back-octets_read_back (suc bound) n below table =
    ground (arith, reads_back-octets_read_back bound n)

octet_table : octets_read_back 256 ≡ true
unfolding octets_read_back parse_octet print_octet digits option_eq nat_eq
octet_table = refl

parse_octet-print_octet : (n : ℕ) → n < 256 → parse_octet (print_octet n) ≡ some n
parse_octet-print_octet n h = ground (arith, reads_back-octets_read_back 256 n h octet_table)

print_octet-has_no_dot : (n : ℕ) → Lacks b'.' (print_octet n)
unfolding print_octet
print_octet-has_no_dot n = ground arith

-- Every address whose octets are bytes is parsed from its own text.
pub parse-display : (ip : Ipv4Addr) → IsAddr ip → parse (display ip) ≡ some ip
unfolding parse display
parse-display ip (ha, hb, hc, hd) = rw (
  split-append b'.' _ _ (print_octet-has_no_dot ip.a),
  split-append b'.' _ _ (print_octet-has_no_dot ip.b),
  split-append b'.' _ _ (print_octet-has_no_dot ip.c),
  split-lacking b'.' _ (print_octet-has_no_dot ip.d),
  octets,
  parse_octet-print_octet ip.a ha,
  parse_octet-print_octet ip.b hb,
  parse_octet-print_octet ip.c hc,
  parse_octet-print_octet ip.d hd,
)
