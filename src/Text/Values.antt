-- ===== src/Text/Values.antt =====
-- Values read from a text (src/util/string.cpp, and expected of src/util/expected.hpp).
pub mod RoundTrip
pub mod Limits
use ccache.Prelude.{
  ℕ, zero, suc, ◌+◌, ◌-◌, ◌*◌, ◌/◌, ◌%◌, ◌^◌, Bool, true, false, Bytes, List, [], ◌∷◌, ◌++◌, Option,
  none, some, length, ltb, leb, ◌==◌, ◌&&◌, ◌||◌, not, if◌then◌else◌,
}
use ccache.Decimal.{is_space, is_digit, skip_spaces, print_decimal}

-- The messages of tl::unexpected, with what they show; the wording is not kept.
pub data ValueError : Type 0 where
  invalid_integer : Bytes → ValueError
  invalid_unsigned_integer : ℕ → Bytes → ValueError
  not_between : ValueError
  invalid_size : Bytes → ValueError
  missing_brace : Bytes → ValueError
  variable_not_set : Bytes → ValueError

pub data Expected {ℓ} (A : Type ℓ) : Type ℓ where
  unexpected : ValueError → Expected A
  expected : A → Expected A

pub data ℤ : Type 0 where
  pos negsuc : ℕ → ℤ

unfoldable pub put_unless_space : ℕ → Bytes → Bytes
unfolding is_space
put_unless_space c [] = if is_space c then [] else c ∷ []
put_unless_space c (d ∷ s) = c ∷ d ∷ s

-- A text without the spaces at its end.
unfoldable pub skip_last_spaces : Bytes → Bytes
unfolding put_unless_space
skip_last_spaces [] = []
skip_last_spaces (c ∷ s) = put_unless_space c (skip_last_spaces s)

unfoldable pub strip_whitespace : Bytes → Bytes
unfolding skip_last_spaces skip_spaces
strip_whitespace string = skip_last_spaces (skip_spaces string)

-- std::tolower in the C locale.
unfoldable pub to_lower : ℕ → ℕ
to_lower c = if leb b'A' c && leb c b'Z' then c + 32 else c

unfoldable pub to_lowercase : Bytes → Bytes
unfolding to_lower
to_lowercase [] = []
to_lowercase (c ∷ string) = to_lower c ∷ to_lowercase string

-- The value of the digits behind `n`; `none` where another character follows.
unfoldable pub all_digits : ℕ → ℕ → Bytes → Option ℕ
all_digits base n [] = some n
all_digits base n (c ∷ s) =
    let rest = all_digits base (n * base + (c - b'0')) s in
    if leb b'0' c && ltb c (b'0' + base) then rest else none

unfoldable pub digits_at_least_one : ℕ → Bytes → Option ℕ
unfolding all_digits
digits_at_least_one base [] = none
digits_at_least_one base (c ∷ s) = all_digits base 0 (c ∷ s)

-- The whole of a text as a magnitude behind an optional plus sign.
unfoldable pub plus_magnitude : ℕ → Bytes → Option ℕ
unfolding digits_at_least_one
plus_magnitude base [] = none
plus_magnitude base (c ∷ s) =
    let signed = digits_at_least_one base s in
    let plain = digits_at_least_one base (c ∷ s) in if c == b'+' then signed else plain

unfoldable pub between : ℕ → ℕ → ℕ → Expected ℕ
between low high n = if ltb n low || ltb high n then unexpected not_between else expected n

-- The result of std::stoull, which throws where there is no number or none of 64 bits.
unfoldable pub unsigned_result : Bytes → ℕ → ℕ → ℕ → Option ℕ → Expected ℕ
unfolding between
unsigned_result stripped_value low high base none =
    unexpected (invalid_unsigned_integer base stripped_value)
unsigned_result stripped_value low high base (some n) =
    if ltb (2 ^ 64 - 1) n
    then unexpected (invalid_unsigned_integer base stripped_value)
    else between low high n

unfoldable pub parse_stripped_unsigned : ℕ → ℕ → ℕ → Bytes → Expected ℕ
unfolding unsigned_result plus_magnitude
parse_stripped_unsigned low high base [] = unexpected (invalid_unsigned_integer base [])
parse_stripped_unsigned low high base (c ∷ s) =
    if c == b'-'
    then unexpected (invalid_unsigned_integer base (c ∷ s))
    else unsigned_result (c ∷ s) low high base (plus_magnitude base (c ∷ s))

-- An absent limit is 0 or 2 ^ 64 - 1.
unfoldable pub parse_unsigned : Bytes → ℕ → ℕ → ℕ → Expected ℕ
unfolding parse_stripped_unsigned
parse_unsigned value min_value max_value base =
    parse_stripped_unsigned min_value max_value base (strip_whitespace value)

unfoldable pub parse_umask : Bytes → Expected ℕ
parse_umask value = parse_unsigned value 0 511 8

unfoldable pub negated : ℕ → ℤ
negated zero = pos 0
negated (suc n) = negsuc n

unfoldable pub leq : ℤ → ℤ → Bool
leq (pos a) (pos b) = leb a b
leq (pos a) (negsuc b) = false
leq (negsuc a) (pos b) = true
leq (negsuc a) (negsuc b) = leb b a

unfoldable pub between_signed : ℤ → ℤ → ℤ → Expected ℤ
unfolding leq
between_signed low high n =
    if not (leq low n) || not (leq n high) then unexpected not_between else expected n

-- The result of std::stoll; it throws for a number outside 64 bits.
unfoldable pub signed_result : Bytes → ℤ → ℤ → Bool → Option ℕ → Expected ℤ
unfolding between_signed negated
signed_result stripped_value low high negative none = unexpected (invalid_integer stripped_value)
signed_result stripped_value low high false (some n) =
    if ltb (2 ^ 63 - 1) n
    then unexpected (invalid_integer stripped_value)
    else between_signed low high (pos n)
signed_result stripped_value low high true (some n) =
    if ltb (2 ^ 63) n
    then unexpected (invalid_integer stripped_value)
    else between_signed low high (negated n)

unfoldable pub parse_stripped_signed : ℤ → ℤ → Bytes → Expected ℤ
unfolding signed_result plus_magnitude digits_at_least_one
parse_stripped_signed low high [] = unexpected (invalid_integer [])
parse_stripped_signed low high (c ∷ s) =
    if c == b'-'
    then signed_result (c ∷ s) low high true (digits_at_least_one 10 s)
    else signed_result (c ∷ s) low high false (plus_magnitude 10 (c ∷ s))

unfoldable pub parse_signed : Bytes → ℤ → ℤ → Expected ℤ
unfolding parse_stripped_signed
parse_signed value min_value max_value =
    parse_stripped_signed min_value max_value (strip_whitespace value)

-- What FMT("{}", n) prints.
unfoldable pub print_signed : ℤ → Bytes
print_signed (pos n) = print_decimal n
print_signed (negsuc n) = b'-' ∷ print_decimal (n + 1)
