-- ===== src/LocalStorage/Totals/Zeroed.antt =====
-- About the statistics after they are zeroed (src/storage/local/LocalStorage.cpp).
use ccache.Prelude.{
  ℕ, zero, suc, ◌≡◌, refl, sym, ap, ◌∙◌, Bool, true, false, Bool-cases, inl, inr, List, [], ◌∷◌,
  length, length-set, set, ltb, ◌==◌, ◌||◌, if◌then◌else◌, arith,
}
use ccache.Counters.{Counters, statistic_end, new, increment_all, add_clamped}
use ccache.Counters.Laws.{value, value-increment_all, value-replicate}
use ccache.LocalStorage.Totals.{
  stats_zeroed_timestamp, get_zeroable_fields, zero_fields, zero_counters, zero_all_statistics,
  add_stats_files, get_all_statistics,
}

unfoldable pub is_among : ℕ → List ℕ → Bool
is_among k [] = false
is_among k (statistic ∷ fields) = (statistic == k) || is_among k fields

value-set_other : (cs : Counters) (i k v : ℕ) → (i == k) ≡ false → value (set cs i v) k ≡ value cs k
value-set_other [] i k v h = refl
value-set_other (c ∷ cs) zero zero v h = absurd (ground arith)
value-set_other (c ∷ cs) zero (suc k) v h = refl
value-set_other (c ∷ cs) (suc i) zero v h = refl
value-set_other (c ∷ cs) (suc i) (suc k) v h = value-set_other cs i k v (ground arith)

length-zero_fields : (fields : List ℕ) (cs : Counters) → length (zero_fields fields cs) ≡ length cs
unfolding zero_fields
length-zero_fields [] cs = refl
length-zero_fields (statistic ∷ fields) cs =
    length-zero_fields fields (set cs statistic 0) ∙ length-set cs statistic 0

zero_at : (cs : Counters) (i k : ℕ) → (i == k) ≡ true → value (set cs i 0) k ≡ 0
zero_at [] i k h = refl
zero_at (c ∷ cs) zero zero h = refl
zero_at (c ∷ cs) zero (suc k) h = absurd (ground arith)
zero_at (c ∷ cs) (suc i) zero h = absurd (ground arith)
zero_at (c ∷ cs) (suc i) (suc k) h = zero_at cs i k (ground arith)

stays_zero :
    (fields : List ℕ) (cs : Counters) (k : ℕ) → value cs k ≡ 0 → value (zero_fields fields cs) k ≡ 0
unfolding zero_fields
stays_zero [] cs k h = h
stays_zero (statistic ∷ fields) cs k h =
    stays_zero fields (set cs statistic 0) k (elim (Bool-cases (statistic == k)) [
      | inl e ↦ zero_at cs statistic k e
      | inr e ↦ value-set_other cs statistic k 0 e ∙ h
    ])

value-zero_fields :
    (fields : List ℕ) (cs : Counters) (k : ℕ)
    → value (zero_fields fields cs) k ≡ (if is_among k fields then 0 else value cs k)
unfolding zero_fields is_among
value-zero_fields [] cs k = refl
value-zero_fields (statistic ∷ fields) cs k = elim (Bool-cases (statistic == k)) [
  | inl e ↦ rw e (stays_zero fields (set cs statistic 0) k (zero_at cs statistic k e))
  | inr e ↦ rw e (
      value-zero_fields fields (set cs statistic 0) k
      ∙ ap (λ (n : ℕ). if is_among k fields then 0 else n) (value-set_other cs statistic k 0 e))
]

-- The sum of one counter.
sum_of : ℕ → ℕ → List Counters → ℕ
sum_of k sum [] = sum
sum_of k sum (cs ∷ files) =
    sum_of k (if ltb k (length cs) then add_clamped sum (value cs k) else sum) files

add_nothing : (b : Bool) → (if b then add_clamped 0 0 else 0) ≡ 0
unfolding add_clamped
add_nothing true = refl
add_nothing false = refl

module _ (k : ℕ) (other : (stats_zeroed_timestamp == k) ≡ false) where
  value-add_stats_files :
      (counters : Counters) (time : ℕ) (files : List Counters)
      → value (add_stats_files counters time files).0 k ≡ sum_of k (value counters k) files
  unfolding add_stats_files sum_of
  value-add_stats_files counters time [] = refl
  value-add_stats_files counters time (cs ∷ files) =
      value-add_stats_files (increment_all cs (set counters stats_zeroed_timestamp 0)) _ files
      ∙ ap (λ (n : ℕ). sum_of k n files)
          (value-increment_all (set counters stats_zeroed_timestamp 0) cs k
            ∙ ap (λ (n : ℕ). if ltb k (length cs) then add_clamped n (value cs k) else n)
                (value-set_other counters stats_zeroed_timestamp k 0 other))

  value-zero_counters :
      (now : ℕ) (cs : Counters)
      → value (zero_counters now cs) k ≡ (if is_among k get_zeroable_fields then 0 else value cs k)
  unfolding zero_counters
  value-zero_counters now cs =
      value-set_other (zero_fields get_zeroable_fields cs) stats_zeroed_timestamp k now other
      ∙ value-zero_fields get_zeroable_fields cs k

  length-zero_counters : (now : ℕ) (cs : Counters) → length (zero_counters now cs) ≡ length cs
  unfolding zero_counters
  length-zero_counters now cs =
      length-set (zero_fields get_zeroable_fields cs) stats_zeroed_timestamp now
      ∙ length-zero_fields get_zeroable_fields cs

  nothing :
      (now : ℕ) (cs : Counters)
      → is_among k get_zeroable_fields ≡ true
      → (if ltb k (length (zero_counters now cs))
          then add_clamped 0 (value (zero_counters now cs) k)
          else 0)
        ≡ 0
  nothing now cs h =
      rw (value-zero_counters now cs, h) (add_nothing (ltb k (length (zero_counters now cs))))

  sum_of-zeros :
      (now : ℕ) (files : List Counters)
      → is_among k get_zeroable_fields ≡ true
      → sum_of k 0 (zero_all_statistics now files) ≡ 0
  unfolding sum_of zero_all_statistics
  sum_of-zeros now [] h = refl
  sum_of-zeros now (cs ∷ files) h =
      ap (λ (n : ℕ). sum_of k n (zero_all_statistics now files)) (nothing now cs h)
      ∙ sum_of-zeros now files h

  same_sum :
      (now sum : ℕ) (cs : Counters)
      → is_among k get_zeroable_fields ≡ false
      → (if ltb k (length (zero_counters now cs))
          then add_clamped sum (value (zero_counters now cs) k)
          else sum)
        ≡ (if ltb k (length cs) then add_clamped sum (value cs k) else sum)
  same_sum now sum cs h = rw (value-zero_counters now cs, length-zero_counters now cs, h) refl

  sum_of-same :
      (now sum : ℕ) (files : List Counters)
      → is_among k get_zeroable_fields ≡ false
      → sum_of k sum (zero_all_statistics now files) ≡ sum_of k sum files
  unfolding sum_of zero_all_statistics
  sum_of-same now sum [] h = refl
  sum_of-same now sum (cs ∷ files) h =
      ap (λ (n : ℕ). sum_of k n (zero_all_statistics now files)) (same_sum now sum cs h)
      ∙ sum_of-same now (if ltb k (length cs) then add_clamped sum (value cs k) else sum) files h

  value-get_all_statistics :
      (files : List Counters) → value (get_all_statistics files) k ≡ sum_of k 0 files
  unfolding get_all_statistics new
  value-get_all_statistics files =
      value-set_other (add_stats_files new 0 files).0 stats_zeroed_timestamp k _ other
      ∙ (value-add_stats_files new 0 files
          ∙ ap (λ (n : ℕ). sum_of k n files) (value-replicate statistic_end k))

  -- After zero_all_statistics, get_all_statistics gives 0 for each statistic but the timestamp
  -- of zeroing that is among the zeroable fields, and what it gave before for any other.
  pub get_all-zero_all_statistics :
      (now : ℕ) (files : List Counters)
      → value (get_all_statistics (zero_all_statistics now files)) k
        ≡ (if is_among k get_zeroable_fields then 0 else value (get_all_statistics files) k)
  get_all-zero_all_statistics now files = elim (Bool-cases (is_among k get_zeroable_fields)) [
    | inl e ↦
        rw e (value-get_all_statistics (zero_all_statistics now files) ∙ sum_of-zeros now files e)
    | inr e ↦ rw e (
        value-get_all_statistics (zero_all_statistics now files)
        ∙ (sum_of-same now 0 files e ∙ sym (value-get_all_statistics files)))
  ]
