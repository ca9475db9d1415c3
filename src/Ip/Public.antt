-- ===== src/Ip/Public.antt =====
-- `parse_myip` of src/ip.rs.
use vercel_ddns.Base.{
  ◌≡◌, ◌⊎◌, refl, Text, true, some, List, [], ◌∷◌, arith, find, Option-cases, Bool-cases, inl, inr,
}
use vercel_ddns.Base.Strings.{split, trim}
use vercel_ddns.Net.Ipv4
use vercel_ddns.Net.Ipv4.{Ipv4Addr}
use vercel_ddns.Net.Ipv4.Parsing
use vercel_ddns.Ip.{parse_parts, parse_myip, is_public_ipv4, ipaddr_eq}

abbrev pub In : Text → List Text → Type 0
In x [] = ⊥
In x (y ∷ ys) = (x ≡ y) ⊎ In x ys

-- An address found in a list of parts is the first public one that a part holds.
parse_parts_lem :
    (parts : List Text) {ip : Ipv4Addr}
    → find is_public_ipv4 (parse_parts parts) ≡ some ip
    → (part : Text) × In part parts
      × (Ipv4.parse (trim part) ≡ some ip)
      × (is_public_ipv4 ip ≡ true)
unfolding parse_parts
parse_parts_lem [] h = cc
parse_parts_lem (p ∷ parts) {ip} h = elim (Option-cases (Ipv4.parse (trim p))) [
  | inl none_here ↦
      let (part, at, got, public) = parse_parts_lem parts {ip = ip} (ground arith) in
      (part, inr at, got, public)
  | inr (addr, got) ↦ elim (Bool-cases (is_public_ipv4 addr)) [
    | inl here ↦ (p, inl refl, ground arith, ground arith)
    | inr skipped ↦
        let (part, at, got, public) = parse_parts_lem parts {ip = ip} (ground arith) in
        (part, inr at, got, public)
  ]
]

-- The address that a router's parameter yields is public, is in range, and stands between two
-- commas of the parameter.
pub parse_myip-eq-some :
    (raw : Text) {ip : Ipv4Addr}
    → parse_myip raw ≡ some ip
    → (is_public_ipv4 ip ≡ true)
      × Ipv4.IsAddr ip
      × ((part : Text) × In part (split b',' raw) × (Ipv4.parse (trim part) ≡ some ip))
unfolding parse_myip
parse_myip-eq-some raw {ip} h =
    let (part, at, got, ok) = parse_parts_lem (split b',' raw) {ip = ip} h in
    (ok, Parsing.parse-IsAddr (trim part) got, (part, at, got))
