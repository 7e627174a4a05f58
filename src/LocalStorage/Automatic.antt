-- ===== src/LocalStorage/Automatic.antt =====
-- Automatic cleanup (src/storage/local/LocalStorage.cpp: evaluate_cleanup,
-- perform_automatic_cleanup).
pub mod Needed
pub mod Chosen
pub mod Updated
use ccache.Prelude.{
  ℕ, zero, suc, ◌+◌, ◌-◌, ◌*◌, ◌/◌, ◌%◌, ◌^◌, Bool, true, false, List, [], ◌∷◌, Option, none, some,
  get_or, map, ltb, leb, ◌==◌, ◌&&◌, ◌||◌, if◌then◌else◌,
}
use ccache.Counters.{Counters, increment, set_offsetted}
use ccache.Counters.Laws.{value}
use ccache.LocalStorage.Subdirs.{
  files_in_cache, cache_size_kibibyte, cleanups_performed, subdir_files_base,
  subdir_size_kibibyte_base, subdir_count, has_consistent_counters, get_largest_level_2_index,
  recount_level_1_dir,
}
use ccache.LocalStorage.Cleaning.{DirEntry, Host, CleanDirResult, clean_dir}

-- The variables of evaluate_cleanup.
pub record Evaluation : Type 0 where
  pub largest_l1_dir_files : ℕ
  pub largest_l2_dir_files : ℕ
  pub largest_l1_dir : ℕ
  pub l1_dir_with_largest_l2 : ℕ
  pub largest_l2_dir : ℕ
  pub l2_counters_consistent : Bool
  pub total_files : ℕ
  pub total_size : ℕ

-- The inner loop over the first `count` subdirectories of directory `i`.
unfoldable pub evaluate_subdirs : ℕ → Counters → ℕ → Evaluation → Evaluation
evaluate_subdirs i counters zero s = s
evaluate_subdirs i counters (suc j) s =
    let s = evaluate_subdirs i counters j s in
    let l2_files = value counters (subdir_files_base + j) in
    if ltb s.largest_l2_dir_files l2_files
    then record {
      largest_l1_dir_files = s.largest_l1_dir_files;
      largest_l2_dir_files = l2_files;
      largest_l1_dir = s.largest_l1_dir;
      l1_dir_with_largest_l2 = i;
      largest_l2_dir = j;
      l2_counters_consistent = s.l2_counters_consistent;
      total_files = s.total_files;
      total_size = s.total_size;
    }
    else s

-- The part of a round before the test of the counters.
unfoldable pub evaluate_totals : ℕ → Counters → Evaluation → Evaluation
evaluate_totals i counters s =
    let l1_files = value counters files_in_cache in
    let l1_size = 1024 * value counters cache_size_kibibyte % 2 ^ 64 in
    let larger = ltb s.largest_l1_dir_files l1_files in
    record {
      largest_l1_dir_files = if larger then l1_files else s.largest_l1_dir_files;
      largest_l2_dir_files = s.largest_l2_dir_files;
      largest_l1_dir = if larger then i else s.largest_l1_dir;
      l1_dir_with_largest_l2 = s.l1_dir_with_largest_l2;
      largest_l2_dir = s.largest_l2_dir;
      l2_counters_consistent = s.l2_counters_consistent;
      total_files = (s.total_files + l1_files) % 2 ^ 64;
      total_size = (s.total_size + l1_size) % 2 ^ 64;
    }

unfoldable pub mark_inconsistent : Evaluation → Evaluation
mark_inconsistent s = record {
  largest_l1_dir_files = s.largest_l1_dir_files;
  largest_l2_dir_files = s.largest_l2_dir_files;
  largest_l1_dir = s.largest_l1_dir;
  l1_dir_with_largest_l2 = s.l1_dir_with_largest_l2;
  largest_l2_dir = s.largest_l2_dir;
  l2_counters_consistent = false;
  total_files = s.total_files;
  total_size = s.total_size;
}

unfoldable pub evaluate_dir : ℕ → Counters → Evaluation → Evaluation
evaluate_dir i counters s =
    let s = evaluate_totals i counters s in
    if s.l2_counters_consistent && has_consistent_counters counters
    then evaluate_subdirs i counters subdir_count s
    else mark_inconsistent s

abbrev pub at : List Counters → ℕ → Counters
at counters i = get_or counters i []

-- The outer loop over the first `count` directories.
unfoldable pub evaluate_dirs : List Counters → ℕ → Evaluation
unfolding evaluate_dir
evaluate_dirs counters zero = record {
  largest_l1_dir_files = 0;
  largest_l2_dir_files = 0;
  largest_l1_dir = 0;
  l1_dir_with_largest_l2 = 0;
  largest_l2_dir = 0;
  l2_counters_consistent = true;
  total_files = 0;
  total_size = 0;
}
evaluate_dirs counters (suc i) = evaluate_dir i (at counters i) (evaluate_dirs counters i)

pub record EvaluateCleanupResult : Type 0 where
  pub l1_index : ℕ
  pub l1_counters : Counters
  pub total_files : ℕ

-- evaluate_cleanup, for the configured limits and the counters of the sixteen directories.
unfoldable pub evaluate_cleanup : ℕ → ℕ → List Counters → Option EvaluateCleanupResult
unfolding evaluate_dirs
evaluate_cleanup max_size max_files counters =
    let s = evaluate_dirs counters subdir_count in
    let chosen_l1_dir =
      if s.l2_counters_consistent then s.l1_dir_with_largest_l2 else s.largest_l1_dir in
    if (max_size == 0 || leb s.total_size max_size)
      && (max_files == 0 || leb s.total_files max_files)
    then none
    else some (record {
      l1_index = chosen_l1_dir;
      l1_counters = at counters chosen_l1_dir;
      total_files = s.total_files;
    })

-- The function that perform_automatic_cleanup hands to StatsFile::update. The differences are
-- bit patterns of int64_t.
unfoldable pub apply_clean_result : ℕ → CleanDirResult → Counters → Counters
apply_clean_result largest_level_2_index result cs =
    let old_files = value cs (subdir_files_base + largest_level_2_index) in
    let old_size_kibibyte = value cs (subdir_size_kibibyte_base + largest_level_2_index) in
    let new_files = result.after.files in
    let new_size_kibibyte = result.after.size / 1024 in
    let cleanups = if result.after.size == result.before.size then 0 else 1 in
    let cs = increment files_in_cache ((new_files + 2 ^ 64 - old_files) % 2 ^ 64) cs in
    let cs =
      increment cache_size_kibibyte ((new_size_kibibyte + 2 ^ 64 - old_size_kibibyte) % 2 ^ 64)
        cs in
    let cs = set_offsetted subdir_files_base largest_level_2_index new_files cs in
    let cs = set_offsetted subdir_size_kibibyte_base largest_level_2_index new_size_kibibyte cs in
    increment cleanups_performed cleanups cs

-- The sizes on disk in the subdirectories from `l2_index` on.
unfoldable pub subdir_sizes : (ℕ → List DirEntry) → ℕ → ℕ → List (List ℕ)
subdir_sizes files zero l2_index = []
subdir_sizes files (suc rounds) l2_index =
    map (λ f. f.size_on_disk) (files l2_index) ∷ subdir_sizes files rounds (l2_index + 1)

-- The counters that are used: those of a recount, where they were not consistent.
unfoldable pub trusted_counters : (ℕ → List DirEntry) → Counters → Counters
unfolding subdir_sizes
trusted_counters files l1_counters =
    if has_consistent_counters l1_counters
    then l1_counters
    else recount_level_1_dir (subdir_sizes files subdir_count 0) l1_counters

-- The cleanup of the chosen directory once its counters are trusted.
unfoldable pub clean_largest_subdir : (ℕ → ℕ) → Host → (ℕ → List DirEntry) → ℕ → Counters → Counters
unfolding apply_clean_result
clean_largest_subdir target_files host files total_files counters =
    let largest_level_2_index = get_largest_level_2_index counters in
    let result =
      clean_dir host
        (record {
          max_size = 0;
          max_files = target_files total_files;
          max_age = none;
          namespace_ = none;
        })
        (files largest_level_2_index) in
    if has_consistent_counters counters
    then apply_clean_result largest_level_2_index result counters
    else counters

-- perform_automatic_cleanup with all locks acquired, where no other process changes the chosen
-- directory meanwhile: that directory and the counters it gets. `files` are those of each
-- subdirectory, and `target_files` is 0.9 * total_files / 256, in floating point.
unfoldable pub perform_automatic_cleanup :
    (ℕ → ℕ) → Host → ℕ → ℕ → (ℕ → ℕ → List DirEntry) → List Counters → Option (ℕ × Counters)
unfolding evaluate_cleanup trusted_counters clean_largest_subdir
perform_automatic_cleanup target_files host max_size max_files files counters =
    elim (evaluate_cleanup max_size max_files counters) [
      | none ↦ none
      | some evaluation ↦
          let files_there = files evaluation.l1_index in
          some (
            evaluation.l1_index,
            clean_largest_subdir target_files host files_there evaluation.total_files
                (trusted_counters files_there evaluation.l1_counters),
          )
    ]
