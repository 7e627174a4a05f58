-- ===== src/LocalStorage/Subdirs/Changed.antt =====
-- About the counters after a change of one subdirectory (src/storage/local/LocalStorage.cpp).
use ccache.Prelude.{
  ℕ, ◌+◌, ◌-◌, ◌%◌, ◌^◌, ◌≤◌, ◌<◌, ◌≡◌, refl, ap, ◌∙◌, ◌==◌, eq_self, if◌then◌else◌, arith,
}
use ccache.Counters.{Counters, add_clamped, increment}
use ccache.Counters.Laws.{value, value-increment, add_clamped_lem}
use ccache.LocalStorage.Subdirs.{
  files_in_cache, cache_size_kibibyte, subdir_files_base, subdir_size_kibibyte_base, subdir_count,
  increment_files_and_size_counters,
}
use ccache.LocalStorage.Subdirs.Sums.{up_to-member, up_to-changed}
use ccache.LocalStorage.Subdirs.Consistent.{Agrees}

-- The change `d`, the bit pattern of an int64_t, takes the sum out of no counter's range: it adds to
-- the sum `whole`, or takes no more than there is from the subdirectory's `part`.
pub data Applies (d whole part : ℕ) : Type 0 where
  adds : whole + d < 2 ^ 63 → Applies d whole part
  takes : (amount : ℕ) → d ≡ (2 ^ 64 - amount) % 2 ^ 64 → amount ≤ part → Applies d whole part

add_clamped-Applies :
    (d whole part : ℕ)
    → whole < 2 ^ 63
    → part ≤ whole
    → Applies d whole part
    → (add_clamped whole d + part ≡ add_clamped part d + whole) × (add_clamped whole d < 2 ^ 63)
add_clamped-Applies d whole part h p (adds fits) =
    rw (added d whole h fits, added d part (omega arith) (omega arith)) (omega arith, omega arith)
  where
    added : (d n : ℕ) → n < 2 ^ 63 → n + d < 2 ^ 63 → add_clamped n d ≡ n + d
    added d n h fits = (add_clamped_lem n d h (omega arith)).0 ∙ ground arith
add_clamped-Applies d whole part h p (takes amount e q) =
    rw
      (
        e,
        (add_clamped_lem whole amount h (omega arith)).1,
        (add_clamped_lem part amount (omega arith) (omega arith)).1,
      )
      (omega arith, omega arith)

pub small :
    (cs : Counters)
    → Agrees cs
    → (k : ℕ) → k < subdir_count
    → (value cs (subdir_files_base + k) ≤ value cs files_in_cache)
      × (value cs (subdir_size_kibibyte_base + k) ≤ value cs cache_size_kibibyte)
small cs a k h = (
  omega (arith, a.files, up_to-member (λ i. value cs (subdir_files_base + i)) subdir_count k h),
  omega (
    arith,
    a.size,
    up_to-member (λ i. value cs (subdir_size_kibibyte_base + i)) subdir_count k h,
  ),
)

module _ (l2_index files size : ℕ) (cs : Counters) (inside : l2_index < subdir_count)
    (agrees : Agrees cs) where
  abbrev pub first : Counters
  first = increment files_in_cache files cs

  abbrev pub second : Counters
  second = increment cache_size_kibibyte size first

  abbrev pub third : Counters
  third = increment (subdir_files_base + l2_index) files second

  abbrev pub fourth : Counters
  fourth = increment (subdir_size_kibibyte_base + l2_index) size third

  parts :
      (value cs (subdir_files_base + l2_index) ≤ value cs files_in_cache)
      × (value cs (subdir_size_kibibyte_base + l2_index) ≤ value cs cache_size_kibibyte)
  parts = small cs agrees l2_index inside

  pub value-first :
      (k : ℕ)
      → value first k
        ≡ (if files_in_cache == k then add_clamped (value cs files_in_cache) files else value cs k)
  value-first k = value-increment files_in_cache files cs k agrees.files_fit

  pub value-second :
      (k : ℕ)
      → value second k ≡ (
          if cache_size_kibibyte == k
          then add_clamped (value cs cache_size_kibibyte) size
          else value first k)
  value-second k =
      value-increment cache_size_kibibyte size first k
        (rw (value-first cache_size_kibibyte) agrees.size_fits)
      ∙ ap (λ (n : ℕ). if cache_size_kibibyte == k then add_clamped n size else value first k)
          (value-first cache_size_kibibyte)

  -- Beyond the counters of the directory itself, nothing has changed yet.
  value-second-other : (k : ℕ) → subdir_files_base ≤ k → value second k ≡ value cs k
  value-second-other k h =
      value-second k
      ∙ (ap
            (λ (n : ℕ).
              if cache_size_kibibyte == k
              then add_clamped (value cs cache_size_kibibyte) size
              else n)
            (value-first k)
          ∙ ground arith)

  pub value-third :
      (k : ℕ)
      → value third k ≡ (
          if subdir_files_base + l2_index == k
          then add_clamped (value cs (subdir_files_base + l2_index)) files
          else value second k)
  value-third k =
      let e = value-second-other (subdir_files_base + l2_index) (omega arith) in
      value-increment (subdir_files_base + l2_index) files second k
        (omega (arith, e, parts.0, agrees.files_fit))
      ∙ ap
          (λ (n : ℕ).
            if subdir_files_base + l2_index == k then add_clamped n files else value second k)
          e

  value-third-size :
      value third (subdir_size_kibibyte_base + l2_index)
      ≡ value cs (subdir_size_kibibyte_base + l2_index)
  value-third-size =
      value-third (subdir_size_kibibyte_base + l2_index)
      ∙ (rw (value-second-other (subdir_size_kibibyte_base + l2_index) (omega arith))
          (ground arith))

  pub value-fourth :
      (k : ℕ)
      → value fourth k ≡ (
          if subdir_size_kibibyte_base + l2_index == k
          then add_clamped (value cs (subdir_size_kibibyte_base + l2_index)) size
          else value third k)
  value-fourth k =
      value-increment (subdir_size_kibibyte_base + l2_index) size third k
        (omega (arith, value-third-size, parts.1, agrees.size_fits))
      ∙ ap
          (λ (n : ℕ).
            if subdir_size_kibibyte_base + l2_index == k then add_clamped n size else value third k)
          value-third-size

  at_files : value fourth files_in_cache ≡ add_clamped (value cs files_in_cache) files
  at_files =
      value-fourth files_in_cache
      ∙ rw (value-third files_in_cache, value-second files_in_cache, value-first files_in_cache)
          (ground arith)

  at_size : value fourth cache_size_kibibyte ≡ add_clamped (value cs cache_size_kibibyte) size
  at_size =
      value-fourth cache_size_kibibyte
      ∙ rw (value-third cache_size_kibibyte, value-second cache_size_kibibyte) (ground arith)

  at_subdir_files :
      (j : ℕ)
      → j < subdir_count
      → value fourth (subdir_files_base + j) ≡ (
          if l2_index == j
          then add_clamped (value cs (subdir_files_base + l2_index)) files
          else value cs (subdir_files_base + j))
  at_subdir_files j h =
      value-fourth (subdir_files_base + j)
      ∙ rw
          (
            value-third (subdir_files_base + j),
            value-second-other (subdir_files_base + j) (omega arith),
          )
          (ground arith)

  at_subdir_size :
      (j : ℕ)
      → value fourth (subdir_size_kibibyte_base + j) ≡ (
          if l2_index == j
          then add_clamped (value cs (subdir_size_kibibyte_base + l2_index)) size
          else value cs (subdir_size_kibibyte_base + j))
  at_subdir_size j =
      value-fourth (subdir_size_kibibyte_base + j)
      ∙ rw
          (
            value-third (subdir_size_kibibyte_base + j),
            value-second-other (subdir_size_kibibyte_base + j) (omega arith),
          )
          (ground arith)

  -- Where the counters of a level 1 directory are the sums of those of its subdirectories, and
  -- less than 2 ^ 63, they are so after increment_files_and_size_counters for one of the sixteen
  -- subdirectories, if each change adds to a sum that stays less than 2 ^ 63 or takes no more
  -- than the subdirectory has.
  pub increment_files_and_size_counters-Agrees :
      Applies files (value cs files_in_cache) (value cs (subdir_files_base + l2_index))
      → Applies size
          (value cs cache_size_kibibyte)
          (value cs (subdir_size_kibibyte_base + l2_index))
      → Agrees (increment_files_and_size_counters l2_index files size cs)
  unfolding increment_files_and_size_counters
  increment_files_and_size_counters-Agrees f s =
      let (both_files, files_fit) = add_clamped-Applies files _ _ agrees.files_fit parts.0 f in
      let (both_size, size_fits) = add_clamped-Applies size _ _ agrees.size_fits parts.1 s in
      record {
        files = omega (
          arith,
          up_to-changed (λ i. value cs (subdir_files_base + i))
              (λ i. value fourth (subdir_files_base + i)) subdir_count l2_index inside
              (λ j p other. at_subdir_files j p ∙ rw other refl),
          rw (eq_self l2_index) at (at_subdir_files l2_index inside),
          at_files,
          both_files,
          agrees.files,
        );
        size = omega (
          arith,
          up_to-changed (λ i. value cs (subdir_size_kibibyte_base + i))
              (λ i. value fourth (subdir_size_kibibyte_base + i)) subdir_count l2_index inside
              (λ j p other. at_subdir_size j ∙ rw other refl),
          rw (eq_self l2_index) at (at_subdir_size l2_index),
          at_size,
          both_size,
          agrees.size,
        );
        files_fit = omega (arith, at_files, files_fit);
        size_fits = omega (arith, at_size, size_fits);
      }
