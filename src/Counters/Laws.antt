-- ===== src/Counters/Laws.antt =====
-- About each operation's effect on each counter (src/core/StatisticsCounters.cpp).
use ccache.Prelude.{
  ◌↔◌, ℕ, zero, suc, ◌+◌, ◌-◌, ◌%◌, ◌^◌, ◌≤◌, ◌<◌, ◌≡◌, refl, ap, ◌∙◌, true, Bool-cases, inl, inr,
  [], ◌∷◌, ◌++◌, length, length-append, get_or, set, replicate, ltb, leb, max, ◌==◌, if◌then◌else◌,
  All, arith, and_true,
}
use ccache.Counters.{
  Counters, resize, grow_to, set_raw, add_clamped, increment, add_each, increment_all, all_zero,
}

-- A counter that is not stored counts as 0.
abbrev pub value : Counters → ℕ → ℕ
value cs index = get_or cs index 0

pub value-replicate : (n i : ℕ) → value (replicate n 0) i ≡ 0
value-replicate zero i = refl
value-replicate (suc n) zero = refl
value-replicate (suc n) (suc i) = value-replicate n i

value-append : (cs : Counters) (n i : ℕ) → value (cs ++ replicate n 0) i ≡ value cs i
value-append [] n i = value-replicate n i
value-append (c ∷ cs) n zero = refl
value-append (c ∷ cs) n (suc i) = value-append cs n i

pub value-grow_to : (index : ℕ) (cs : Counters) (i : ℕ) → value (grow_to index cs) i ≡ value cs i
unfolding grow_to resize
value-grow_to index cs i = elim (Bool-cases (leb (length cs) index)) [
  | inl grows ↦ rw grows (value-append cs _ i)
  | inr fits ↦ rw fits
]

length-replicate : (n : ℕ) → length {A = ℕ} (replicate n 0) ≡ n
length-replicate zero = refl
length-replicate (suc n) = ap suc (length-replicate n)

length-resize : (n : ℕ) (cs : Counters) → length cs ≤ n → length (resize n cs) ≡ n
unfolding resize
length-resize n cs h =
    omega (arith, length-append cs (replicate (n - length cs) 0), length-replicate (n - length cs))

pub lt-length-grow_to : (index : ℕ) (cs : Counters) → index < length (grow_to index cs)
unfolding grow_to
lt-length-grow_to index cs = elim (Bool-cases (leb (length cs) index)) [
  | inl grows ↦ rw grows (omega (arith, length-resize (index + 1) cs (ground arith)))
  | inr fits ↦ rw fits (ground arith)
]

value-resize : (n : ℕ) (cs : Counters) (i : ℕ) → value (resize n cs) i ≡ value cs i
unfolding resize
value-resize n cs i = value-append cs (n - length cs) i

pub value-set :
    (cs : Counters) (index i v : ℕ)
    → index < length cs
    → value (set cs index v) i ≡ (if index == i then v else value cs i)
value-set [] index i v h = absurd (omega arith)
value-set (c ∷ cs) zero zero v h = refl
value-set (c ∷ cs) zero (suc i) v h = ground arith
value-set (c ∷ cs) (suc index) zero v h = ground arith
value-set (c ∷ cs) (suc index) (suc i) v h = value-set cs index i v (omega arith) ∙ ground arith

-- set_raw changes the counter at the index, wherever it lies, and no other.
pub value-set_raw :
    (index v : ℕ) (cs : Counters) (i : ℕ)
    → value (set_raw index v cs) i ≡ (if index == i then v else value cs i)
unfolding set_raw
value-set_raw index v cs i =
    value-set (grow_to index cs) index i v (lt-length-grow_to index cs)
    ∙ ap (λ (n : ℕ). if index == i then v else n) (value-grow_to index cs i)

clamped_zero : (c : ℕ) → c < 2 ^ 63 → add_clamped c 0 ≡ c
unfolding add_clamped
clamped_zero c h = ground arith

-- Where the counter is below 2 ^ 63, increment adds to it with add_clamped, growing the vector
-- if needed, and changes no other counter.
pub value-increment :
    (index v : ℕ) (cs : Counters) (i : ℕ)
    → value cs index < 2 ^ 63
    → value (increment index v cs) i
      ≡ (if index == i then add_clamped (value cs index) v else value cs i)
unfolding increment
value-increment index v cs i small = elim (Bool-cases (v == 0)) [
  | inl nothing ↦
      let e : v ≡ 0 = ground arith in
      rw nothing (rw (e, clamped_zero (value cs index) small) (same_or index i cs))
  | inr some_amount ↦ rw some_amount (
      value-set (grow_to index cs) index i _ (lt-length-grow_to index cs)
      ∙ rw (value-grow_to index cs i, value-grow_to index cs index))
]
  where
    same_or :
        (index i : ℕ) (cs : Counters)
        → value cs i ≡ (if index == i then value cs index else value cs i)
    same_or index i cs = elim (Bool-cases (index == i)) [
      | inl same ↦ let e : index ≡ i = ground arith in rw (same, e)
      | inr other ↦ rw other
    ]

-- For a counter below 2 ^ 63 and an amount of at most 2 ^ 63: adding the amount gives the sum,
-- or 0 where that is no int64_t, and adding its negation gives the difference, or 0 where that
-- is negative.
pub add_clamped_lem :
    (counter amount : ℕ)
    → counter < 2 ^ 63
    → amount ≤ 2 ^ 63
    → (add_clamped counter amount
        ≡ (if ltb (counter + amount) (2 ^ 63) then counter + amount else 0))
      × (add_clamped counter ((2 ^ 64 - amount) % 2 ^ 64) ≡ counter - amount)
unfolding add_clamped
add_clamped_lem counter amount h p = (ground arith, ground arith)

value-add_each :
    (cs other : Counters) (i : ℕ)
    → length other ≤ length cs
    → value (add_each cs other) i
      ≡ (if ltb i (length other) then add_clamped (value cs i) (value other i) else value cs i)
unfolding add_each
value-add_each cs [] i h = ground arith
value-add_each [] (o ∷ other) i h = absurd (omega arith)
value-add_each (c ∷ cs) (o ∷ other) zero h = ground arith
value-add_each (c ∷ cs) (o ∷ other) (suc i) h =
    value-add_each cs other i (omega arith) ∙ ground arith

-- Adding counters to counters adds each to the one of the same index with add_clamped, and
-- changes no other.
pub value-increment_all :
    (cs other : Counters) (i : ℕ)
    → value (increment_all other cs) i
      ≡ (if ltb i (length other) then add_clamped (value cs i) (value other i) else value cs i)
unfolding increment_all
value-increment_all cs other i =
    value-add_each (resize (max (length cs) (length other)) cs) other i
      (omega (arith, length-resize (max (length cs) (length other)) cs (omega arith)))
    ∙ rw (value-resize (max (length cs) (length other)) cs i)

low_zero : (c : ℕ) → c < 2 ^ 32 → (c % 2 ^ 32 == 0) ≡ true → c ≡ 0
low_zero c h p = ground arith

-- For counters below 2 ^ 32, all_zero says whether every counter is 0.
pub all_zero_lem :
    (cs : Counters) → All (λ c. c < 2 ^ 32) cs → ((all_zero cs ≡ true) ↔ All (λ c. c ≡ 0) cs)
unfolding all_zero
all_zero_lem [] h = (λ _. tt, λ _. refl)
all_zero_lem (c ∷ cs) (h, hs) =
    let (to, back) = all_zero_lem cs hs in
    (
      λ e. let (p, q) = and_true (c % 2 ^ 32 == 0) (all_zero cs) e in (low_zero c h p, to q),
      λ z. ground (arith, back z.1),
    )
