-- ===== src/Counters/File/RoundTrip.antt =====
-- About the loop of StatsFile::read (src/storage/local/StatsFile.cpp).
use ccache.Prelude.{
  ℕ, zero, suc, ◌+◌, ◌-◌, ◌*◌, ◌^◌, ◌≤◌, ◌<◌, ◌≡◌, refl, ap, ◌∙◌, Bool, true, false, inl, inr,
  Option-cases, Bytes, [], ◌∷◌, ◌++◌, none, some, length, length-append, All, arith,
}
use ccache.Decimal.{
  print_decimal, strtoull, skip_spaces, strtoull_sign, strtoull_digits, scan_digits, is_digit,
  is_space,
}
use ccache.Decimal.RoundTrip.{strtoull-print_decimal}
use ccache.Counters.{Counters, new, set_raw}
use ccache.Counters.File.{next_number, read_loop, read_text, format_text}

-- Every number that is read makes the text shorter.
scan_digits-le : (s : Bytes) (n : ℕ) → length (scan_digits n s).1 ≤ length s
unfolding scan_digits
scan_digits-le [] n = omega arith
scan_digits-le (c ∷ s) n = ground (arith, scan_digits-le s (n * 10 + (c - b'0')))

skip_spaces-le : (s : Bytes) → length (skip_spaces s) ≤ length s
unfolding skip_spaces
skip_spaces-le [] = omega arith
skip_spaces-le (c ∷ s) = ground (arith, skip_spaces-le s)

digits_shorter :
    (negative : Bool) (s : Bytes) (v : ℕ) (rest : Bytes)
    → strtoull_digits negative s ≡ some (v, rest)
    → length rest < length s
unfolding strtoull_digits scan_digits
digits_shorter negative [] v rest h = absurd (cc h)
digits_shorter negative (c ∷ s) v rest h = ground (arith, scan_digits-le s (0 * 10 + (c - b'0')))

sign_shorter :
    (s : Bytes) (v : ℕ) (rest : Bytes) → strtoull_sign s ≡ some (v, rest) → length rest < length s
unfolding strtoull_sign
sign_shorter [] v rest h = absurd (cc h)
sign_shorter (c ∷ s) v rest h = ground (
  arith,
  digits_shorter true s v rest,
  digits_shorter false s v rest,
  digits_shorter false (c ∷ s) v rest,
)

strtoull_shorter :
    (s : Bytes) (v : ℕ) (rest : Bytes) → strtoull s ≡ some (v, rest) → length rest < length s
unfolding strtoull
strtoull_shorter s v rest h = omega (arith, skip_spaces-le s, sign_shorter (skip_spaces s) v rest h)

read_loop_total :
    (fuel i : ℕ) (s : Bytes) (cs : Counters)
    → length s < fuel
    → (cs' : Counters) × (read_loop fuel i s cs ≡ some cs')
unfolding read_loop next_number
read_loop_total zero i s cs h = absurd (omega arith)
read_loop_total (suc fuel) i s cs h = elim (Option-cases (strtoull s)) [
  | inl stops ↦ (cs, rw (stops, next_number))
  | inr ((v, rest), more) ↦
      let (cs', e) =
        read_loop_total fuel (i + 1) rest (set_raw i v cs)
          (omega (arith, strtoull_shorter s v rest more)) in
      (cs', rw (more, next_number) e)
]

-- Reading a stats file ends with counters, whatever its text, in one round more than the text
-- has characters.
pub read_text_total : (text : Bytes) → (cs : Counters) × (read_text text ≡ some cs)
unfolding read_text
read_text_total text = read_loop_total (suc (length text)) 0 text new (omega arith)

-- Counters written over a vector, from index `i` on.
unfoldable pub put_all : ℕ → Counters → Counters → Counters
put_all i [] cs = cs
put_all i (v ∷ vs) cs = put_all (i + 1) vs (set_raw i v cs)

-- A newline in front of the next number is skipped.
skip_newline : (s : Bytes) → strtoull (10 ∷ s) ≡ strtoull s
unfolding strtoull skip_spaces is_space
skip_newline s = refl

stop_at_end : strtoull [] ≡ none
unfolding strtoull skip_spaces strtoull_sign
stop_at_end = refl

newline_stops : is_digit 10 ≡ false
unfolding is_digit
newline_stops = refl

pub read_loop-format_text :
    (vs : Counters) (fuel i : ℕ) (s : Bytes) (cs : Counters)
    → strtoull s ≡ strtoull (format_text vs)
    → length (format_text vs) < fuel
    → All (λ v. v < 2 ^ 64) vs
    → read_loop fuel i s cs ≡ some (put_all i vs cs)
unfolding read_loop format_text put_all
read_loop-format_text vs zero i s cs same h small = absurd (omega arith)
read_loop-format_text [] (suc fuel) i s cs same h small =
    ap (next_number (read_loop fuel) i cs) (same ∙ stop_at_end) ∙ (unfold next_number in refl)
read_loop-format_text (v ∷ vs) (suc fuel) i s cs same h (small, all_small) =
    ap (next_number (read_loop fuel) i cs)
      (same ∙ strtoull-print_decimal v (10 ∷ format_text vs) small newline_stops)
    ∙ (unfold next_number in
        read_loop-format_text vs fuel (i + 1) (10 ∷ format_text vs) (set_raw i v cs)
          (skip_newline (format_text vs)) (shorter h) all_small)
  where
    shorter :
        length (print_decimal v ++ (10 ∷ format_text vs)) < suc fuel
        → length (format_text vs) < fuel
    shorter h = omega (arith, h, length-append (print_decimal v) (10 ∷ format_text vs))
