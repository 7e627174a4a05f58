-- ===== src/Text/Values/Limits.antt =====
-- About the limits of the numbers that are read (src/util/string.cpp).
use ccache.Prelude.{
  ℕ, ◌-◌, ◌^◌, ◌≤◌, ◌≡◌, sym, ap, ◌∙◌, inl, inr, Bool, true, false, Bool-cases, ◌||◌, Bytes, [],
  ◌∷◌, Option, none, some, ltb, ◌==◌, arith,
}
use ccache.Text.Values.{
  ℤ, pos, leq, unexpected, expected, parse_unsigned, parse_stripped_unsigned, unsigned_result,
  between, plus_magnitude, parse_signed, parse_stripped_signed, signed_result, between_signed,
  negated, digits_at_least_one, strip_whitespace,
}

expected-inj : {A : Type 0} {a b : A} → expected a ≡ expected b → a ≡ b
expected-inj e = cc

between-most : (low high n m : ℕ) → between low high n ≡ expected m → m ≤ high
unfolding between
between-most low high n m h = elim (Bool-cases (ltb n low || ltb high n)) [
  | inl e ↦ (let f : unexpected _ ≡ expected m = rw e at h in cc)
  | inr e ↦ (let f : n ≡ m = expected-inj (rw e at h) in rw (sym f) (ground arith))
]

unsigned_result-most :
    (s : Bytes) (low high base m : ℕ) (o : Option ℕ)
    → unsigned_result s low high base o ≡ expected m
    → m ≤ high
unfolding unsigned_result
unsigned_result-most s low high base m none h = cc
unsigned_result-most s low high base m (some n) h = elim (Bool-cases (ltb (2 ^ 64 - 1) n)) [
  | inl e ↦ (let f : unexpected _ ≡ expected m = rw e at h in cc)
  | inr e ↦ between-most low high n m (rw e at h)
]

parse_stripped_unsigned-most :
    (s : Bytes) (low high base m : ℕ)
    → parse_stripped_unsigned low high base s ≡ expected m
    → m ≤ high
unfolding parse_stripped_unsigned
parse_stripped_unsigned-most [] low high base m h = cc
parse_stripped_unsigned-most (c ∷ s) low high base m h = elim (Bool-cases (c == b'-')) [
  | inl e ↦ (let f : unexpected _ ≡ expected m = rw e at h in cc)
  | inr e ↦ unsigned_result-most (c ∷ s) low high base m (plus_magnitude base (c ∷ s)) (rw e at h)
]

-- A number that is read is at most the limit.
pub parse_unsigned-most :
    (value : Bytes) (low high base m : ℕ)
    → parse_unsigned value low high base ≡ expected m
    → m ≤ high
unfolding parse_unsigned
parse_unsigned-most value low high base m h =
    parse_stripped_unsigned-most (strip_whitespace value) low high base m h

module _ (low high m : ℤ) where
  Between : Type 0
  Between = (leq low m ≡ true) × (leq m high ≡ true)

  between_signed-Between : (n : ℤ) → between_signed low high n ≡ expected m → Between
  unfolding between_signed Between
  between_signed-Between n h = elim (Bool-cases (leq low n)) [
    | inr e ↦ (let f : unexpected _ ≡ expected m = rw e at h in cc)
    | inl e ↦ elim (Bool-cases (leq n high)) [
      | inr e' ↦ (let f : unexpected _ ≡ expected m = rw (e, e') at h in cc)
      | inl e' ↦
          (let f : n ≡ m = expected-inj (rw (e, e') at h) in
            (ap (leq low) (sym f) ∙ e, ap (λ (k : ℤ). leq k high) (sym f) ∙ e'))
    ]
  ]

  signed_result-Between :
      (s : Bytes) (negative : Bool) (o : Option ℕ)
      → signed_result s low high negative o ≡ expected m
      → Between
  unfolding signed_result
  signed_result-Between s negative none h = cc
  signed_result-Between s false (some n) h = elim (Bool-cases (ltb (2 ^ 63 - 1) n)) [
    | inl e ↦ (let f : unexpected _ ≡ expected m = rw e at h in cc)
    | inr e ↦ between_signed-Between (pos n) (rw e at h)
  ]
  signed_result-Between s true (some n) h = elim (Bool-cases (ltb (2 ^ 63) n)) [
    | inl e ↦ (let f : unexpected _ ≡ expected m = rw e at h in cc)
    | inr e ↦ between_signed-Between (negated n) (rw e at h)
  ]

  parse_stripped_signed-Between :
      (s : Bytes) → parse_stripped_signed low high s ≡ expected m → Between
  unfolding parse_stripped_signed
  parse_stripped_signed-Between [] h = cc
  parse_stripped_signed-Between (c ∷ s) h = elim (Bool-cases (c == b'-')) [
    | inl e ↦ signed_result-Between (c ∷ s) true (digits_at_least_one 10 s) (rw e at h)
    | inr e ↦ signed_result-Between (c ∷ s) false (plus_magnitude 10 (c ∷ s)) (rw e at h)
  ]

-- A number that is read is between the limits.
pub parse_signed-between :
    (value : Bytes) (low high m : ℤ)
    → parse_signed value low high ≡ expected m
    → (leq low m ≡ true) × (leq m high ≡ true)
unfolding parse_signed Between
parse_signed-between value low high m h =
    parse_stripped_signed-Between low high m (strip_whitespace value) h
