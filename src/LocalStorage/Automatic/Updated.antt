-- ===== src/LocalStorage/Automatic/Updated.antt =====
-- About the counters after an automatic cleanup (src/storage/local/LocalStorage.cpp).
use ccache.Prelude.{
  ℕ, ◌+◌, ◌-◌, ◌/◌, ◌%◌, ◌^◌, ◌≤◌, ◌<◌, ◌≡◌, inl, inr, refl, sym, ap, ◌∙◌, true, false, Bool-cases,
  leb, ◌==◌, if◌then◌else◌, arith,
}
use ccache.Counters.{Counters, add_clamped, set_offsetted}
use ccache.Counters.Laws.{value, value-set_raw, value-increment}
use ccache.LocalStorage.Subdirs.{
  files_in_cache, cache_size_kibibyte, cleanups_performed, subdir_files_base,
  subdir_size_kibibyte_base, subdir_count, increment_files_and_size_counters,
  has_consistent_counters,
}
use ccache.LocalStorage.Subdirs.Sums.{up_to-ext}
use ccache.LocalStorage.Subdirs.Consistent.{Agrees, Agrees-consistent}
use ccache.LocalStorage.Subdirs.Changed.{
  Applies, adds, takes, small, second, value-first, value-second, value-third, value-fourth,
  increment_files_and_size_counters-Agrees,
}
use ccache.LocalStorage.Cleaning.{CleanDirResult}
use ccache.LocalStorage.Automatic.{apply_clean_result}

-- Counters that agree where the directory's own and the subdirectories' are.
Agrees-same :
    (cs other : Counters)
    → Agrees cs
    → ((k : ℕ) → (cleanups_performed == k) ≡ false → value other k ≡ value cs k)
    → Agrees other
Agrees-same cs other agrees same = record {
  files =
      up_to-ext _ _ subdir_count (λ i p. same (subdir_files_base + i) (ground arith))
      ∙ (agrees.files ∙ sym (same files_in_cache refl));
  size =
      up_to-ext _ _ subdir_count (λ i p. same (subdir_size_kibibyte_base + i) (ground arith))
      ∙ (agrees.size ∙ sym (same cache_size_kibibyte refl));
  files_fit = omega (arith, same files_in_cache refl, agrees.files_fit);
  size_fits = omega (arith, same cache_size_kibibyte refl, agrees.size_fits);
}

-- The difference of two counters, as the bit pattern of an int64_t.
abbrev difference : ℕ → ℕ → ℕ
difference new old = (new + 2 ^ 64 - old) % 2 ^ 64

add_clamped-difference :
    (new old : ℕ) → new < 2 ^ 63 → old < 2 ^ 63 → add_clamped old (difference new old) ≡ new
unfolding add_clamped
add_clamped-difference new old h p =
    let e : (old + difference new old) % 2 ^ 64 ≡ new = omega arith in rw e (ground arith)

difference-Applies :
    (new old whole : ℕ)
    → old ≤ whole
    → whole < 2 ^ 63
    → whole + new < 2 ^ 63 + old
    → Applies (difference new old) whole old
difference-Applies new old whole h p q = elim (Bool-cases (leb old new)) [
  | inl e ↦ let le : old ≤ new = ground arith in adds (omega (arith, le))
  | inr e ↦
      let lt : new < old = ground arith in takes (old - new) (omega (arith, lt)) (omega (arith, lt))
]

module _ (l2_index : ℕ) (result : CleanDirResult) (cs : Counters) (inside : l2_index < subdir_count)
    (agrees : Agrees cs) where
  abbrev old_files : ℕ
  old_files = value cs (subdir_files_base + l2_index)

  abbrev old_size : ℕ
  old_size = value cs (subdir_size_kibibyte_base + l2_index)

  abbrev by_increments : Counters
  by_increments =
      increment_files_and_size_counters l2_index (difference result.after.files old_files)
        (difference (result.after.size / 1024) old_size) cs

  -- The counters that both functions compute first.
  abbrev both : Counters
  both =
      second l2_index (difference result.after.files old_files)
        (difference (result.after.size / 1024) old_size) cs inside agrees

  abbrev replaced : ℕ → ℕ
  replaced k =
      if subdir_size_kibibyte_base + l2_index == k
      then result.after.size / 1024
      else if subdir_files_base + l2_index == k
      then result.after.files
      else value both k

  value-by_increments :
      result.after.files < 2 ^ 63
      → result.after.size < 2 ^ 63
      → (k : ℕ) → value by_increments k ≡ replaced k
  unfolding increment_files_and_size_counters
  value-by_increments f s k =
      let parts = small cs agrees l2_index inside in
      let files =
        add_clamped-difference result.after.files old_files f
          (omega (arith, parts.0, agrees.files_fit)) in
      let size =
        add_clamped-difference (result.after.size / 1024) old_size (omega arith)
          (omega (arith, parts.1, agrees.size_fits)) in
      value-fourth l2_index _ _ cs inside agrees k
      ∙ rw
          (
            value-third l2_index (difference result.after.files old_files)
                (difference (result.after.size / 1024) old_size) cs inside agrees k,
            files,
            size,
          )
          refl

  abbrev with_sets : Counters
  with_sets =
      set_offsetted subdir_size_kibibyte_base l2_index (result.after.size / 1024)
        (set_offsetted subdir_files_base l2_index result.after.files both)

  value-with_sets : (k : ℕ) → value with_sets k ≡ replaced k
  unfolding set_offsetted
  value-with_sets k =
      value-set_raw (subdir_size_kibibyte_base + l2_index) (result.after.size / 1024) _ k
      ∙ ap
          (λ (n : ℕ).
            if subdir_size_kibibyte_base + l2_index == k then result.after.size / 1024 else n)
          (value-set_raw (subdir_files_base + l2_index) result.after.files both k)

  cleanups_kept : value with_sets cleanups_performed ≡ value cs cleanups_performed
  cleanups_kept =
      let files = difference result.after.files old_files in
      let size = difference (result.after.size / 1024) old_size in
      let kept : value both cleanups_performed ≡ value cs cleanups_performed =
        value-second l2_index files size cs inside agrees cleanups_performed
        ∙ value-first l2_index files size cs inside agrees cleanups_performed in
      value-with_sets cleanups_performed
      ∙ (elsewhere l2_index (value both cleanups_performed) ∙ kept)
    where
      elsewhere :
          (l2_index n : ℕ)
          → (if subdir_size_kibibyte_base + l2_index == cleanups_performed
              then result.after.size / 1024
              else if subdir_files_base + l2_index == cleanups_performed
              then result.after.files
              else n)
            ≡ n
      elsewhere l2_index n = ground arith

  same_values :
      result.after.files < 2 ^ 63
      → result.after.size < 2 ^ 63
      → value cs cleanups_performed < 2 ^ 63
      → (k : ℕ) → (cleanups_performed == k) ≡ false
      → value (apply_clean_result l2_index result cs) k ≡ value by_increments k
  unfolding apply_clean_result
  same_values f s c k e =
      value-increment cleanups_performed _ with_sets k (omega (arith, cleanups_kept))
      ∙ (rw e (value-with_sets k) ∙ sym (value-by_increments f s k))

  -- Where the counters of a level 1 directory are the sums of those of its subdirectories, and
  -- less than 2 ^ 63, they are consistent after the update at the end of
  -- perform_automatic_cleanup, if the new sums are less than 2 ^ 63, and the number of cleanups
  -- too.
  has_consistent_counters-apply_clean_result :
      result.after.files < 2 ^ 63
      → result.after.size < 2 ^ 63
      → value cs files_in_cache + result.after.files < 2 ^ 63 + old_files
      → value cs cache_size_kibibyte + result.after.size / 1024 < 2 ^ 63 + old_size
      → value cs cleanups_performed < 2 ^ 63
      → has_consistent_counters (apply_clean_result l2_index result cs) ≡ true
  has_consistent_counters-apply_clean_result f s fit_files fit_size c =
      let parts = small cs agrees l2_index inside in
      Agrees-consistent _ (
        Agrees-same by_increments _
          (increment_files_and_size_counters-Agrees l2_index _ _ cs inside agrees
            (difference-Applies result.after.files old_files _ parts.0 agrees.files_fit fit_files)
            (difference-Applies (result.after.size / 1024) old_size _ parts.1 agrees.size_fits
              fit_size))
          (same_values f s c))
