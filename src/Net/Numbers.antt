-- ===== src/Net/Numbers.antt =====
-- `str::parse` for unsigned integers, and their `Display`.
use Prim.Native.Nat.{ℕ, ◌+◌, ◌-◌, ◌*◌, ◌/◌, ◌%◌}
use vercel_ddns.Base.{Text, Option, none, some, [], ◌∷◌, ltb, eqb, if◌then◌else◌, is_nil}
use vercel_ddns.Base.Strings.{is_ascii_digit}

-- Digits behind the number read so far; a value above the limit is an overflow.
unfoldable pub digits : ℕ → Text → ℕ → Option ℕ
digits limit [] n = some n
digits limit (c ∷ s) n =
    let m = n * 10 + (c - b'0') in
    let rest = digits limit s m in
    if is_ascii_digit c then (if ltb limit m then none else rest) else none

-- `s.parse::<uN>()`: an optional `+`, then at least one digit.
unfoldable pub parse_unsigned : ℕ → Text → Option ℕ
parse_unsigned limit [] = none
parse_unsigned limit (c ∷ s) =
    if eqb c b'+' then (if is_nil s then none else digits limit s 0) else digits limit (c ∷ s) 0

abbrev pub parse_u8 : Text → Option ℕ
parse_u8 = parse_unsigned 255

-- Decimal digits of a number below 1000, without leading zeros.
unfoldable pub print_octet : ℕ → Text
print_octet n =
    if ltb n 10
    then (b'0' + n) ∷ []
    else if ltb n 100
    then (b'0' + n / 10) ∷ (b'0' + n % 10) ∷ []
    else (b'0' + n / 100) ∷ (b'0' + n / 10 % 10) ∷ (b'0' + n % 10) ∷ []
