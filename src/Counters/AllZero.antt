-- ===== src/Counters/AllZero.antt =====
-- About counters that pass for 0 (src/core/StatisticsCounters.cpp, StatisticsCounters::all_zero).
use ccache.Prelude.{
  ℕ, zero, suc, ◌+◌, ◌*◌, ◌%◌, ◌^◌, ◌<◌, ◌≡◌, refl, ◌∙◌, true, Bool-cases, inl, inr, [], ◌∷◌, ◌++◌,
  length, set, replicate, leb, ◌==◌, if◌then◌else◌, arith, and_true,
}
use ccache.Counters.{Counters, resize, grow_to, add_clamped, increment, all_zero}
use ccache.Counters.Laws.{value, value-grow_to, value-increment}

all_zero-set :
    (cs : Counters) (i v : ℕ) → all_zero cs ≡ true → v % 2 ^ 32 ≡ 0 → all_zero (set cs i v) ≡ true
unfolding all_zero
all_zero-set [] i v h z = refl
all_zero-set (c ∷ cs) zero v h z =
    let (_, rest) = and_true (c % 2 ^ 32 == 0) (all_zero cs) h in rw z rest
all_zero-set (c ∷ cs) (suc i) v h z =
    let (first, rest) = and_true (c % 2 ^ 32 == 0) (all_zero cs) h in
    rw first (all_zero-set cs i v rest z)

all_zero-replicate : (n : ℕ) → all_zero (replicate n 0) ≡ true
unfolding all_zero
all_zero-replicate zero = refl
all_zero-replicate (suc n) = all_zero-replicate n

all_zero-append : (cs : Counters) (n : ℕ) → all_zero (cs ++ replicate n 0) ≡ all_zero cs
unfolding all_zero
all_zero-append [] n = all_zero-replicate n
all_zero-append (c ∷ cs) n = rw (all_zero-append cs n) refl

all_zero-grow_to : (i : ℕ) (cs : Counters) → all_zero (grow_to i cs) ≡ all_zero cs
unfolding grow_to resize
all_zero-grow_to i cs = elim (Bool-cases (leb (length cs) i)) [
  | inl grows ↦ rw grows (all_zero-append cs _)
  | inr fits ↦ rw fits refl
]

value-all_zero : (cs : Counters) (i : ℕ) → all_zero cs ≡ true → value cs i % 2 ^ 32 ≡ 0
unfolding all_zero
value-all_zero [] i h = omega arith
value-all_zero (c ∷ cs) zero h =
    let (first, _) = and_true (c % 2 ^ 32 == 0) (all_zero cs) h in ground arith
value-all_zero (c ∷ cs) (suc i) h =
    let (_, rest) = and_true (c % 2 ^ 32 == 0) (all_zero cs) h in value-all_zero cs i rest

all_zero-increment_sum :
    (i n : ℕ) (cs : Counters)
    → all_zero cs ≡ true
    → add_clamped (value cs i) (n * 2 ^ 32) ≡ value cs i + n * 2 ^ 32
    → all_zero (increment i (n * 2 ^ 32) cs) ≡ true
unfolding increment
all_zero-increment_sum i n cs h sum = elim (Bool-cases (n * 2 ^ 32 == 0)) [
  | inl nothing ↦ rw nothing h
  | inr some_amount ↦ rw some_amount (
      all_zero-set (grow_to i cs) i _ (all_zero-grow_to i cs ∙ h)
        (rw (value-grow_to i cs i, sum) (omega (arith, value-all_zero cs i h))))
]

is_same : (i a b : ℕ) → (if i == i then a else b) ≡ a
is_same i a b = ground arith

-- Where all_zero says that all counters are 0, it still says so after any one of them has been
-- incremented by a multiple of 2 ^ 32, although that counter then holds the sum, which must be
-- less than 2 ^ 63.
pub all_zero-increment :
    (i n : ℕ) (cs : Counters)
    → all_zero cs ≡ true
    → value cs i + n * 2 ^ 32 < 2 ^ 63
    → (value (increment i (n * 2 ^ 32) cs) i ≡ value cs i + n * 2 ^ 32)
      × (all_zero (increment i (n * 2 ^ 32) cs) ≡ true)
all_zero-increment i n cs h fits =
    let sum : add_clamped (value cs i) (n * 2 ^ 32) ≡ value cs i + n * 2 ^ 32 =
      unfold add_clamped in ground arith in
    (
      value-increment i (n * 2 ^ 32) cs i (omega arith) ∙ is_same i _ _ ∙ sum,
      all_zero-increment_sum i n cs h sum,
    )
