-- ===== src/LocalStorage/Automatic/Needed.antt =====
-- About the decision to clean up (src/storage/local/LocalStorage.cpp).
use ccache.Prelude.{
  ℕ, zero, suc, ◌+◌, ◌*◌, ◌%◌, ◌^◌, ◌<◌, ◌≡◌, ◌↔◌, inl, inr, refl, ◌∙◌, Bool, true, false,
  Bool-cases, and_true, List, none, some, ltb, leb, ◌==◌, ◌&&◌, ◌||◌, if◌then◌else◌, arith,
}
use ccache.Counters.{Counters}
use ccache.Counters.Laws.{value}
use ccache.LocalStorage.Subdirs.{
  subdir_files_base, files_in_cache, cache_size_kibibyte, subdir_count, has_consistent_counters,
}
use ccache.LocalStorage.Subdirs.Sums.{up_to}
use ccache.LocalStorage.Cleaning.Cleaned.{IsWithin}
use ccache.LocalStorage.Automatic.{
  Evaluation, evaluate_subdirs, evaluate_totals, mark_inconsistent, evaluate_dir, at, evaluate_dirs,
  evaluate_cleanup,
}

-- The inner loop and the mark leave the sums alone.
evaluate_subdirs-totals :
    (i : ℕ) (counters : Counters) (count : ℕ) (s : Evaluation)
    → ((evaluate_subdirs i counters count s).total_files ≡ s.total_files)
      × ((evaluate_subdirs i counters count s).total_size ≡ s.total_size)
unfolding evaluate_subdirs
evaluate_subdirs-totals i counters zero s = (refl, refl)
evaluate_subdirs-totals i counters (suc j) s =
    elim (Bool-cases (
      ltb (evaluate_subdirs i counters j s).largest_l2_dir_files
        (value counters (subdir_files_base + j)))) [
          | inl e ↦ rw e (evaluate_subdirs-totals i counters j s)
          | inr e ↦ rw e (evaluate_subdirs-totals i counters j s)
        ]

evaluate_dir-totals :
    (i : ℕ) (counters : Counters) (s : Evaluation)
    → ((evaluate_dir i counters s).total_files
        ≡ (s.total_files + value counters files_in_cache) % 2 ^ 64)
      × ((evaluate_dir i counters s).total_size
          ≡ (s.total_size + 1024 * value counters cache_size_kibibyte % 2 ^ 64) % 2 ^ 64)
unfolding evaluate_dir evaluate_totals mark_inconsistent
evaluate_dir-totals i counters s =
    elim (Bool-cases (s.l2_counters_consistent && has_consistent_counters counters)) [
      | inl e ↦
          rw e (evaluate_subdirs-totals i counters subdir_count (evaluate_totals i counters s))
      | inr e ↦ rw e (refl, refl)
    ]

abbrev pub all_files : List Counters → ℕ → ℕ
all_files counters count = up_to (λ i. value (at counters i) files_in_cache) count

abbrev pub all_kibibytes : List Counters → ℕ → ℕ
all_kibibytes counters count = up_to (λ i. value (at counters i) cache_size_kibibyte) count

evaluate_dirs-totals :
    (counters : List Counters) (count : ℕ)
    → all_files counters count < 2 ^ 64
    → 1024 * all_kibibytes counters count < 2 ^ 64
    → ((evaluate_dirs counters count).total_files ≡ all_files counters count)
      × ((evaluate_dirs counters count).total_size ≡ 1024 * all_kibibytes counters count)
unfolding evaluate_dirs up_to
evaluate_dirs-totals counters zero h p = (refl, omega arith)
evaluate_dirs-totals counters (suc count) h p =
    let (files, size) = evaluate_dirs-totals counters count (omega arith) (omega arith) in
    let (more_files, more_size) =
      evaluate_dir-totals count (at counters count) (evaluate_dirs counters count) in
    (more_files ∙ omega (arith, files), more_size ∙ omega (arith, size))

none_if {ℓ} : {A : Type ℓ} (b : Bool) (a : A) → (if b then none else some a) ≡ none → b ≡ true
none_if true a h = refl
none_if false a h = ground arith

is_within : (limit n : ℕ) → (((limit == 0) || leb n limit) ≡ true) ↔ IsWithin limit n
unfolding IsWithin
is_within limit n = ground arith

-- Where the total size in bytes and the total number of files fit 64 bits, evaluate_cleanup asks
-- for no cleanup exactly if each is within its limit or the limit is 0.
evaluate_cleanup_lem :
    (max_size max_files : ℕ) (counters : List Counters)
    → all_files counters subdir_count < 2 ^ 64
    → 1024 * all_kibibytes counters subdir_count < 2 ^ 64
    → (evaluate_cleanup max_size max_files counters ≡ none) ↔ (
        IsWithin max_size (1024 * all_kibibytes counters subdir_count)
        × IsWithin max_files (all_files counters subdir_count))
unfolding evaluate_cleanup
evaluate_cleanup_lem max_size max_files counters h p =
    let (files, size) = evaluate_dirs-totals counters subdir_count h p in
    let (size_to, size_from) = is_within max_size (1024 * all_kibibytes counters subdir_count) in
    let (files_to, files_from) = is_within max_files (all_files counters subdir_count) in
    rw (files, size)
      (
        (λ e. let (a, b) = and_true _ _ (none_if _ _ e) in (size_to a, files_to b)),
        (λ w. rw (size_from w.0, files_from w.1) refl),
      )
