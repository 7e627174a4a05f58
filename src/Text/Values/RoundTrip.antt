-- ===== src/Text/Values/RoundTrip.antt =====
-- Numbers that are printed and read again (src/util/string.cpp).
use ccache.Prelude.{
  ℕ, zero, suc, ◌+◌, ◌-◌, ◌*◌, ◌/◌, ◌%◌, ◌^◌, ◌≤◌, ◌<◌, ◌≡◌, refl, sym, ap, ◌∙◌, inl, inr, true,
  false, Bool-cases, ◌&&◌, ◌||◌, Bytes, [], ◌∷◌, none, some, ltb, leb, ◌==◌, arith,
}
use ccache.Decimal.{is_space, skip_spaces, print_digits, print_decimal}
use ccache.Decimal.RoundTrip.{print_digits-BeginsWithDigit}
use ccache.Text.Values.{
  expected, put_unless_space, skip_last_spaces, strip_whitespace, all_digits, digits_at_least_one,
  plus_magnitude, between, unsigned_result, parse_stripped_unsigned, parse_unsigned, ℤ, pos, negsuc,
  negated, leq, between_signed, signed_result, parse_stripped_signed, parse_signed, print_signed,
}

-- A text that is a number in a base, and nothing else.
pub record IsNumeral (base n : ℕ) (s : Bytes) : Type 0 where
  pub first : ℕ
  pub others : Bytes
  pub split : s ≡ first ∷ others
  pub digits : all_digits base 0 s ≡ some n

first_digit :
    (base m n c : ℕ) (s : Bytes)
    → all_digits base m (c ∷ s) ≡ some n
    → (leb b'0' c && ltb c (b'0' + base)) ≡ true
unfolding all_digits
first_digit base m n c s h = elim (Bool-cases (leb b'0' c && ltb c (b'0' + base))) [
  | inl e ↦ e
  | inr e ↦ (let f : none ≡ some n = rw e at h in cc)
]

all_digits-rest :
    (base m n c : ℕ) (s : Bytes)
    → all_digits base m (c ∷ s) ≡ some n
    → all_digits base (m * base + (c - b'0')) s ≡ some n
unfolding all_digits
all_digits-rest base m n c s h = rw (first_digit base m n c s h) at h

pub all_digits-digit :
    (base m d : ℕ) (out : Bytes)
    → d < base
    → all_digits base m ((b'0' + d) ∷ out) ≡ all_digits base (m * base + d) out
unfolding all_digits
all_digits-digit base m d out h =
    let e : (leb b'0' (b'0' + d) && ltb (b'0' + d) (b'0' + base)) ≡ true = ground arith in
    let f : b'0' + d - b'0' ≡ d = omega arith in rw (e, f) refl

not_space :
    (base c : ℕ)
    → (leb b'0' c && ltb c (b'0' + base)) ≡ true
    → base ≤ 10
    → (is_space c ≡ false) × ((c == b'-') ≡ false) × ((c == b'+') ≡ false)
unfolding is_space
not_space base c h small = (ground arith, ground arith, ground arith)

all_digits-skip_last_spaces :
    (base m n : ℕ) (s : Bytes) → base ≤ 10 → all_digits base m s ≡ some n → skip_last_spaces s ≡ s
unfolding skip_last_spaces put_unless_space
all_digits-skip_last_spaces base m n [] small h = refl
all_digits-skip_last_spaces base m n (c ∷ []) small h =
    rw ((not_space base c (first_digit base m n c [] h) small).0) refl
all_digits-skip_last_spaces base m n (c ∷ d ∷ s) small h = ap (put_unless_space c) (
    all_digits-skip_last_spaces base (m * base + (c - b'0')) n (d ∷ s) small
      (all_digits-rest base m n c (d ∷ s) h))

strip_whitespace-digits :
    (base n c : ℕ) (s : Bytes)
    → base ≤ 10
    → all_digits base 0 (c ∷ s) ≡ some n
    → strip_whitespace (c ∷ s) ≡ c ∷ s
unfolding strip_whitespace skip_spaces
strip_whitespace-digits base n c s small h =
    rw ((not_space base c (first_digit base 0 n c s h) small).0)
      (all_digits-skip_last_spaces base 0 n (c ∷ s) small h)

parse_unsigned-digits :
    (base n c : ℕ) (s : Bytes) (low high : ℕ)
    → base ≤ 10
    → all_digits base 0 (c ∷ s) ≡ some n
    → low ≤ n
    → n ≤ high
    → n < 2 ^ 64
    → parse_unsigned (c ∷ s) low high base ≡ expected n
unfolding parse_unsigned parse_stripped_unsigned plus_magnitude digits_at_least_one unsigned_result
    between
parse_unsigned-digits base n c s low high small h above below fits =
    let fact = not_space base c (first_digit base 0 n c s h) small in
    let e : ltb (2 ^ 64 - 1) n ≡ false = ground arith in
    let f : (ltb n low || ltb high n) ≡ false = ground arith in
    rw (strip_whitespace-digits base n c s small h, fact.1, fact.2, h, e, f) refl

-- A number in a base up to ten that is within the limits is read as that number.
pub parse_unsigned-IsNumeral :
    (base n : ℕ) (s : Bytes) (low high : ℕ)
    → base ≤ 10
    → IsNumeral base n s
    → low ≤ n
    → n ≤ high
    → n < 2 ^ 64
    → parse_unsigned s low high base ≡ expected n
parse_unsigned-IsNumeral base n s low high small numeral above below fits =
    ap (λ (t : Bytes). parse_unsigned t low high base) numeral.split
    ∙ parse_unsigned-digits base n numeral.first numeral.others low high small
        (ap (all_digits base 0) (sym numeral.split) ∙ numeral.digits) above below fits

all_digits-print_digits :
    (fuel n : ℕ) (out : Bytes)
    → n < fuel
    → all_digits 10 0 (print_digits fuel n out) ≡ all_digits 10 n out
unfolding print_digits
all_digits-print_digits zero n out h = absurd (omega arith)
all_digits-print_digits (suc fuel) n out h = elim (Bool-cases (ltb n 10)) [
  | inl small ↦ rw small (
      all_digits-digit 10 0 n out (ground arith)
      ∙ ap (λ (k : ℕ). all_digits 10 k out) (omega arith))
  | inr large ↦ rw large (
      all_digits-print_digits fuel (n / 10) ((b'0' + n % 10) ∷ out) (ground arith)
      ∙ (all_digits-digit 10 (n / 10) (n % 10) out (omega arith)
          ∙ ap (λ (k : ℕ). all_digits 10 k out) (omega arith)))
]

pub print_decimal-IsNumeral : (n : ℕ) → IsNumeral 10 n (print_decimal n)
unfolding print_decimal all_digits
print_decimal-IsNumeral n =
    let b = print_digits-BeginsWithDigit (suc n) n [] (omega arith) in
    record {
      first = b.first;
      others = b.others;
      split = b.split;
      digits = all_digits-print_digits (suc n) n [] (omega arith);
    }

parse_signed-digits :
    (n c : ℕ) (s : Bytes) (low high : ℤ)
    → all_digits 10 0 (c ∷ s) ≡ some n
    → n < 2 ^ 63
    → leq low (pos n) ≡ true
    → leq (pos n) high ≡ true
    → parse_signed (c ∷ s) low high ≡ expected (pos n)
unfolding parse_signed parse_stripped_signed signed_result plus_magnitude digits_at_least_one
    between_signed
parse_signed-digits n c s low high h fits above below =
    let fact = not_space 10 c (first_digit 10 0 n c s h) (omega arith) in
    let e : ltb (2 ^ 63 - 1) n ≡ false = ground arith in
    rw (strip_whitespace-digits 10 n c s (omega arith) h, fact.1, fact.2, h, e, above, below) refl

strip_whitespace-negative :
    (n c : ℕ) (s : Bytes)
    → all_digits 10 0 (c ∷ s) ≡ some n
    → strip_whitespace (b'-' ∷ c ∷ s) ≡ b'-' ∷ c ∷ s
unfolding strip_whitespace skip_spaces skip_last_spaces put_unless_space is_space
strip_whitespace-negative n c s h =
    ap (put_unless_space b'-') (all_digits-skip_last_spaces 10 0 n (c ∷ s) (omega arith) h)

negated-add_one : (n : ℕ) → negated (n + 1) ≡ negsuc n
unfolding negated
negated-add_one n = let e : n + 1 ≡ suc n = omega arith in rw e refl

parse_signed-negative :
    (n c : ℕ) (s : Bytes) (low high : ℤ)
    → all_digits 10 0 (c ∷ s) ≡ some (n + 1)
    → n < 2 ^ 63
    → leq low (negsuc n) ≡ true
    → leq (negsuc n) high ≡ true
    → parse_signed (b'-' ∷ c ∷ s) low high ≡ expected (negsuc n)
unfolding parse_signed parse_stripped_signed signed_result digits_at_least_one between_signed
parse_signed-negative n c s low high h fits above below =
    let e : ltb (2 ^ 63) (n + 1) ≡ false = ground arith in
    rw (strip_whitespace-negative (n + 1) c s h, h, e, negated-add_one n, above, below) refl

-- A printed number of 64 bits that is within the limits is read back.
pub parse_signed-print_signed :
    (n low high : ℤ)
    → leq (negsuc (2 ^ 63 - 1)) n ≡ true
    → leq n (pos (2 ^ 63 - 1)) ≡ true
    → leq low n ≡ true
    → leq n high ≡ true
    → parse_signed (print_signed n) low high ≡ expected n
unfolding print_signed leq
parse_signed-print_signed (pos n) low high least most above below =
    let d = print_decimal-IsNumeral n in
    ap (λ (t : Bytes). parse_signed t low high) d.split
    ∙ parse_signed-digits n d.first d.others low high
        (ap (all_digits 10 0) (sym d.split) ∙ d.digits) (ground arith) above below
parse_signed-print_signed (negsuc n) low high least most above below =
    let d = print_decimal-IsNumeral (n + 1) in
    ap (λ (t : Bytes). parse_signed (b'-' ∷ t) low high) d.split
    ∙ parse_signed-negative n d.first d.others low high
        (ap (all_digits 10 0) (sym d.split) ∙ d.digits) (ground arith) above below
