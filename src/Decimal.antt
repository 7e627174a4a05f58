-- ===== src/Decimal.antt =====
-- Decimal numbers: what FMT("{}", n) prints, and strtoull in base 10 as the callers use it.
pub mod RoundTrip
use ccache.Prelude.{
  ℕ, zero, suc, ◌+◌, ◌-◌, ◌*◌, ◌/◌, ◌%◌, ◌^◌, Bool, true, false, Bytes, [], ◌∷◌, Option, none, some,
  min, ltb, leb, ◌==◌, ◌&&◌, ◌||◌, if◌then◌else◌,
}

-- The digits of `n` in front of `out`; a number has no more digits than its value plus one.
unfoldable pub print_digits : ℕ → ℕ → Bytes → Bytes
print_digits zero n out = out
print_digits (suc fuel) n out =
    let longer = print_digits fuel (n / 10) ((b'0' + n % 10) ∷ out) in
    if ltb n 10 then (b'0' + n) ∷ out else longer

unfoldable pub print_decimal : ℕ → Bytes
unfolding print_digits
print_decimal n = print_digits (suc n) n []

-- isspace, in the C locale.
unfoldable pub is_space : ℕ → Bool
is_space c = (c == b' ') || (leb 9 c && leb c 13)

unfoldable pub is_digit : ℕ → Bool
is_digit c = leb b'0' c && leb c b'9'

unfoldable pub skip_spaces : Bytes → Bytes
unfolding is_space
skip_spaces [] = []
skip_spaces (c ∷ s) = let rest = skip_spaces s in if is_space c then rest else c ∷ s

-- The value of the digits at the front behind `n`, and what follows them.
unfoldable pub scan_digits : ℕ → Bytes → ℕ × Bytes
unfolding is_digit
scan_digits n [] = (n, [])
scan_digits n (c ∷ s) =
    let rest = scan_digits (n * 10 + (c - b'0')) s in if is_digit c then rest else (n, c ∷ s)

-- A number that does not fit is ULLONG_MAX; a minus sign negates the number that fits.
unfoldable pub clamp : Bool → ℕ → ℕ
clamp negative n =
    if ltb (2 ^ 64 - 1) n then 2 ^ 64 - 1 else if negative then (2 ^ 64 - n) % 2 ^ 64 else n

-- `none` where there is no digit: then `end` is the text itself.
unfoldable pub strtoull_digits : Bool → Bytes → Option (ℕ × Bytes)
unfolding clamp scan_digits
strtoull_digits negative [] = none
strtoull_digits negative (c ∷ s) =
    let r = scan_digits 0 (c ∷ s) in if is_digit c then some (clamp negative r.0, r.1) else none

unfoldable pub strtoull_sign : Bytes → Option (ℕ × Bytes)
unfolding strtoull_digits
strtoull_sign [] = none
strtoull_sign (c ∷ s) =
    if c == b'-'
    then strtoull_digits true s
    else if c == b'+'
    then strtoull_digits false s
    else strtoull_digits false (c ∷ s)

unfoldable pub strtoull : Bytes → Option (ℕ × Bytes)
unfolding skip_spaces strtoull_sign
strtoull s = strtoull_sign (skip_spaces s)
