-- ===== src/Startup/Ports.antt =====
-- The ports in the addresses that src/main.rs listens on, printed by `Display` of `u16`.
use vercel_ddns.Base.{
  ℕ, zero, suc, ◌+◌, ◌-◌, false, ◌*◌, ◌/◌, ◌%◌, ◌<◌, ◌≤◌, ◌≡◌, ◌∙◌, sym, ap, Text, some, [], ◌∷◌,
  ◌++◌, append_assoc, append-nil, arith, ltb, Bool-cases, inl, inr,
}
use vercel_ddns.Net.Numbers.{digits}
use vercel_ddns.Startup.{print_digits}

-- The numbers of at most so many digits are below this.
abbrev cap : ℕ → ℕ
cap zero = 1
cap (suc k) = 10 * cap k

-- Reading the digits of a number on is reading on from the number.
digits-last :
    (limit n : ℕ) (rest : Text)
    → n ≤ limit
    → digits limit ((b'0' + n % 10) ∷ rest) (n / 10) ≡ digits limit rest n
unfolding digits
digits-last limit n rest le =
    let same : n / 10 * 10 + (b'0' + n % 10 - b'0') ≡ n = omega arith in
    let low : n % 10 < 10 = omega arith in ground (arith, same, low)

print_digits-suc :
    (fuel n : ℕ)
    → ltb n 10 ≡ false
    → print_digits (suc fuel) n ≡ print_digits fuel (n / 10) ++ ((b'0' + n % 10) ∷ [])
unfolding print_digits
print_digits-suc fuel n more = ground arith

digits-print_digits :
    (limit fuel n : ℕ) (rest : Text)
    → n < cap fuel
    → n ≤ limit
    → digits limit (print_digits fuel n ++ rest) 0 ≡ digits limit rest n
unfolding digits print_digits
digits-print_digits limit zero n rest h le = let e : 0 ≡ n = omega arith in ap (digits limit rest) e
digits-print_digits limit (suc fuel) n rest h le = elim (Bool-cases (ltb n 10)) [
  | inl one ↦ ground arith
  | inr more ↦
      let d = (b'0' + n % 10) ∷ [] in
      let first = print_digits-suc fuel n more in
      let front = append_assoc (print_digits fuel (n / 10)) d rest in
      let ih =
        digits-print_digits limit fuel (n / 10) ((b'0' + n % 10) ∷ rest) (ground arith)
          (ground arith) in
      ap (λ (t : Text). digits limit (t ++ rest) 0) first
      ∙ ap (λ (t : Text). digits limit t 0) front
      ∙ ih
      ∙ digits-last limit n rest le
]

-- A port is read back from its digits: five of them are enough.
pub parse-print_digits :
    (port : ℕ) → port < 65536 → digits 65535 (print_digits 5 port) 0 ≡ some port
unfolding digits
parse-print_digits port h =
    ap (λ (t : Text). digits 65535 t 0) (sym (append-nil (print_digits 5 port)))
    ∙ digits-print_digits 65535 5 port [] (omega arith) (omega arith)
