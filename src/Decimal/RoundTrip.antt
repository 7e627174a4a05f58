-- ===== src/Decimal/RoundTrip.antt =====
-- About strtoull on a printed number.
use mathlib.Core.Path.{subst}
use ccache.Prelude.{
  ℕ, zero, suc, ◌+◌, ◌-◌, ◌*◌, ◌/◌, ◌%◌, ◌^◌, ◌<◌, ◌≡◌, refl, sym, ap, ◌∙◌, true, false, Bytes, [],
  ◌∷◌, ◌++◌, some, ltb, ◌==◌, arith, Bool-cases, inl, inr,
}
use ccache.Decimal.{
  print_digits, print_decimal, is_space, is_digit, skip_spaces, scan_digits, clamp, strtoull_digits,
  strtoull_sign, strtoull,
}

is_digit_of : (d : ℕ) → d < 10 → is_digit (b'0' + d) ≡ true
unfolding is_digit
is_digit_of d h = ground arith

scan_digit :
    (m d : ℕ) (out : Bytes)
    → d < 10
    → scan_digits m ((b'0' + d) ∷ out) ≡ scan_digits (m * 10 + d) out
unfolding scan_digits
scan_digit m d out h =
    let e : m * 10 + (b'0' + d - b'0') ≡ m * 10 + d = omega arith in rw (is_digit_of d h) (rw e)

-- Reading printed digits goes on behind the number.
scan-print_digits :
    (fuel n : ℕ) (out : Bytes)
    → n < fuel
    → scan_digits 0 (print_digits fuel n out) ≡ scan_digits n out
unfolding print_digits
scan-print_digits zero n out h = absurd (omega arith)
scan-print_digits (suc fuel) n out h = elim (Bool-cases (ltb n 10)) [
  | inl small ↦
      rw small (scan_digit 0 n out (ground arith) ∙ ap (λ (k : ℕ). scan_digits k out) (omega arith))
  | inr large ↦ rw large (
      scan-print_digits fuel (n / 10) ((b'0' + n % 10) ∷ out) (ground arith)
      ∙ (scan_digit (n / 10) (n % 10) out (omega arith)
          ∙ ap (λ (k : ℕ). scan_digits k out) (omega arith)))
]

-- A text that begins with a digit.
pub record BeginsWithDigit (s : Bytes) : Type 0 where
  pub first : ℕ
  pub others : Bytes
  pub split : s ≡ first ∷ others
  pub digit : is_digit first ≡ true

pub print_digits-BeginsWithDigit :
    (fuel n : ℕ) (out : Bytes) → n < fuel → BeginsWithDigit (print_digits fuel n out)
unfolding print_digits
print_digits-BeginsWithDigit zero n out h = absurd (omega arith)
print_digits-BeginsWithDigit (suc fuel) n out h = elim (Bool-cases (ltb n 10)) [
  | inl small ↦ record {
    first = b'0' + n;
    others = out;
    split = rw small;
    digit = is_digit_of n (ground arith);
  }
  | inr large ↦
      rw large (print_digits-BeginsWithDigit fuel (n / 10) ((b'0' + n % 10) ∷ out) (ground arith))
]

print_digits-append :
    (fuel n : ℕ) (out rest : Bytes)
    → print_digits fuel n out ++ rest ≡ print_digits fuel n (out ++ rest)
unfolding print_digits
print_digits-append zero n out rest = refl
print_digits-append (suc fuel) n out rest = elim (Bool-cases (ltb n 10)) [
  | inl small ↦ rw small
  | inr large ↦ rw large (print_digits-append fuel (n / 10) ((b'0' + n % 10) ∷ out) rest)
]

not_space : (c : ℕ) → is_digit c ≡ true → is_space c ≡ false
unfolding is_digit is_space
not_space c h = ground arith

no_sign : (c : ℕ) → is_digit c ≡ true → ((c == b'-') ≡ false) × ((c == b'+') ≡ false)
unfolding is_digit
no_sign c h = (ground arith, ground arith)

strtoull_at_digit :
    (s : Bytes)
    → BeginsWithDigit s
    → strtoull s ≡ some (clamp false (scan_digits 0 s).0, (scan_digits 0 s).1)
strtoull_at_digit s b =
    subst (λ t. strtoull t ≡ some (clamp false (scan_digits 0 t).0, (scan_digits 0 t).1))
      (sym b.split) (at_first b.first b.others b.digit)
  where
    at_first :
        (c : ℕ) (t : Bytes)
        → is_digit c ≡ true
        → strtoull (c ∷ t) ≡ some (clamp false (scan_digits 0 (c ∷ t)).0, (scan_digits 0 (c ∷ t)).1)
    at_first c t d =
        let (minus, plus) = no_sign c d in
        unfold strtoull skip_spaces strtoull_sign strtoull_digits in
        rw (not_space c d, minus, plus, d)

-- Nothing that follows is taken for a digit.
abbrev pub Stops : Bytes → Type 0
Stops [] = Unit
Stops (c ∷ s) = is_digit c ≡ false

scan-Stops : (n : ℕ) (rest : Bytes) → Stops rest → scan_digits n rest ≡ (n, rest)
unfolding scan_digits
scan-Stops n [] h = refl
scan-Stops n (c ∷ s) h = rw h

clamp_fits : (n : ℕ) → n < 2 ^ 64 → clamp false n ≡ n
unfolding clamp
clamp_fits n h = ground arith

-- strtoull reads a printed number of 64 bits back, and stops behind it.
pub strtoull-print_decimal :
    (n : ℕ) (rest : Bytes)
    → n < 2 ^ 64
    → Stops rest
    → strtoull (print_decimal n ++ rest) ≡ some (n, rest)
unfolding print_decimal
strtoull-print_decimal n rest h stops = rw (print_digits-append (suc n) n [] rest) (
    strtoull_at_digit _ (print_digits-BeginsWithDigit (suc n) n rest (omega arith))
    ∙ (rw
        (scan-print_digits (suc n) n rest (omega arith), scan-Stops n rest stops, clamp_fits n h)))
