-- ===== src/Examples/Storage.antt =====
-- A small local storage whose files are stored, counted and cleaned up.
use ccache.Prelude.{
  ℕ, zero, suc, ◌+◌, ◌-◌, ◌^◌, ◌≤◌, ◌<◌, ◌≡◌, refl, true, false, List, [], ◌∷◌, none, some, set,
  get_or, replicate, codes, eq_bytes, All, map, if◌then◌else◌, arith,
}
use ccache.Counters.{Counters, statistic_end}
use ccache.Counters.Laws.{value}
use ccache.LocalStorage.Levels.{
  calculate_wanted_cache_level, get_path_in_cache, look_up_cache_file, look_up_loop,
}
use ccache.LocalStorage.Put.{Store, Outcome, put, look_up-put}
use ccache.LocalStorage.Subdirs.{
  files_in_cache, cache_size_kibibyte, subdir_files_base, subdir_size_kibibyte_base,
  likely_size_on_disk, sum_subdirs, has_consistent_counters, get_largest_level_2_index, total_size,
  recount, recount_level_1_dir,
}
use ccache.LocalStorage.Subdirs.Sums.{total}
use ccache.LocalStorage.Subdirs.Consistent.{HasRoom}
use ccache.LocalStorage.Subdirs.Recount.{has_consistent_counters-recount_level_1_dir}
use ccache.LocalStorage.Cleaning.{
  regular, DirEntry, Host, Limits, filename, filename_from, contains, is_tmp_file, is_old_tmp_file,
  clean_dir,
}
use ccache.LocalStorage.Cleaning.Evicted.{sizes}
use ccache.LocalStorage.Cleaning.Cleaned.{
  IsOrdinary, Evicts, IsWithin, clean_dir-Evicts, clean_dir-IsWithin,
}
use ccache.LocalStorage.Cleaning.OldTmp.{clean_dir_old_tmp_file}
use ccache.LocalStorage.CleanAll.{
  Level2Dir, Level1Dir, clean_level_1_dir, cleaned_level_1_dir, clean_all,
}
use ccache.LocalStorage.Totals.{get_zeroable_fields, zero_all_statistics, get_all_statistics}
use ccache.LocalStorage.Totals.Zeroed.{is_among, get_all-zero_all_statistics}
use ccache.LocalStorage.CleanAll.SmallLimits.{listed, IsTidy, listed-clean_all}
use ccache.LocalStorage.CleanAll.Exact.{IsFine, has_consistent_counters-cleaned_level_1_dir}
use ccache.LocalStorage.Automatic.Chosen.{evaluate_cleanup_chooses}
use ccache.LocalStorage.Automatic.{
  at, evaluate_dirs, evaluate_dir, evaluate_totals, evaluate_subdirs, mark_inconsistent,
  evaluate_cleanup,
}

abbrev host : Host
host = record {
  current_time = 10 ^ 13;
  removes = λ path. true;
  size_of_path = λ path. 4096;
  namespace_of = λ path. none;
}

abbrev old_file : DirEntry
old_file = record { path = codes "/c/aR"; kind = regular; mtime = 1; size_on_disk = 4096 }

abbrev new_file : DirEntry
new_file = record { path = codes "/c/bR"; kind = regular; mtime = 2; size_on_disk = 8192 }

abbrev two_files : List DirEntry
two_files = new_file ∷ old_file ∷ []

abbrev one_file_limit : Limits
one_file_limit = record { max_size = 0; max_files = 1; max_age = none; namespace_ = none }

two_files-IsOrdinary : IsOrdinary host two_files
unfolding sizes total is_old_tmp_file is_tmp_file contains filename filename_from eq_bytes
two_files-IsOrdinary = record {
  plain = (
    record { kind = refl; kept = refl; goes = refl },
    (record { kind = refl; kept = refl; goes = refl }, tt),
  );
  size_fits = omega arith;
  count_fits = omega arith;
}

eviction_example :
    (k : ℕ) × Evicts host one_file_limit two_files (clean_dir host one_file_limit two_files) k
eviction_example = clean_dir-Evicts host one_file_limit refl two_files two_files-IsOrdinary

limits_kept_example :
    IsWithin 0 (clean_dir host one_file_limit two_files).after.size
    × IsWithin 1 (clean_dir host one_file_limit two_files).after.files
limits_kept_example = clean_dir-IsWithin host one_file_limit refl two_files two_files-IsOrdinary

abbrev tmp_file : DirEntry
tmp_file = record { path = codes "/c/a.tmp.b"; kind = regular; mtime = 1; size_on_disk = 4096 }

old_tmp_file_example :
    ((clean_dir host
        (record { max_size = 0; max_files = 0; max_age = some 60; namespace_ = none })
        (tmp_file ∷ [])).before
      ≡ record { files = 0; size = 0 })
    × ((clean_dir host
          (record { max_size = 0; max_files = 0; max_age = some 60; namespace_ = none })
          (tmp_file ∷ [])).after
        ≡ record { files = 2 ^ 64 - 1; size = 2 ^ 64 - 4096 })
unfolding is_old_tmp_file is_tmp_file contains filename filename_from eq_bytes
old_tmp_file_example =
    clean_dir_old_tmp_file host 60 tmp_file refl refl refl (omega arith) (omega arith) (omega arith)

abbrev no_counters : Counters
no_counters = replicate statistic_end 0

abbrev one_dir : Level2Dir
one_dir = record { files = two_files; stats_file = no_counters }

-- Far more files are counted than there may be.
abbrev crowded : Level1Dir
crowded = record {
  subdirs = one_dir ∷ one_dir ∷ [];
  stats_file = set no_counters files_in_cache 5000;
}

two_files-IsTidy : IsTidy host one_dir
unfolding is_old_tmp_file is_tmp_file contains filename filename_from eq_bytes
two_files-IsTidy = (refl, (refl, tt))

small_limits_example : map listed (clean_all host 0 1 (crowded ∷ [])) ≡ map listed (crowded ∷ [])
small_limits_example =
    listed-clean_all host 0 1 (omega arith) (omega arith) (crowded ∷ [])
      ((two_files-IsTidy, (two_files-IsTidy, tt)), tt)

All-replicate : {A : Type 0} (P : A → Type 0) (n : ℕ) (a : A) → P a → All P (replicate n a)
All-replicate P zero a h = tt
All-replicate P (suc n) a h = (h, All-replicate P n a h)

no_counters-HasRoom : HasRoom no_counters
no_counters-HasRoom = record { room = omega arith; cleanups = omega arith }

one_dir-IsFine : IsFine host one_dir
one_dir-IsFine = record { ordinary = two_files-IsOrdinary; whole = (refl, (refl, tt)) }

abbrev full_dir : Level1Dir
full_dir = record { subdirs = replicate 16 one_dir; stats_file = no_counters }

cleaned_example :
    has_consistent_counters
      (cleaned_level_1_dir
        (clean_level_1_dir host one_file_limit 1000000 32 full_dir)
        no_counters).stats_file
    ≡ true
unfolding total sizes
cleaned_example =
    has_consistent_counters-cleaned_level_1_dir host one_file_limit refl 1000000 32 full_dir refl
      (All-replicate (IsFine host) 16 one_dir one_dir-IsFine) (omega arith) (omega arith)
      no_counters-HasRoom

recounted_example :
    has_consistent_counters (
      recount_level_1_dir
        (map (map likely_size_on_disk) (replicate 16 (1000 ∷ 5000 ∷ [])))
        no_counters)
    ≡ true
unfolding total recount total_size likely_size_on_disk
recounted_example =
    has_consistent_counters-recount_level_1_dir (replicate 16 (1000 ∷ 5000 ∷ [])) no_counters refl
      (omega arith) (omega arith) no_counters-HasRoom

-- Two files of eight kibibytes in all in subdirectory 3.
abbrev some_counters : Counters
some_counters =
    set
      (set (set (set no_counters files_in_cache 2) cache_size_kibibyte 8) (subdir_files_base + 3) 2)
      (subdir_size_kibibyte_base + 3) 8

abbrev all_counters : List Counters
all_counters = some_counters ∷ replicate 15 no_counters

abbrev good_outcome : Outcome
good_outcome = record {
  written = true;
  locked = true;
  updated = true;
  old_size = 0;
  new_size = 4096;
}

abbrev new_store : Store
new_store = record { files = λ p. false; counters = some_counters; stored_data = false }

abbrev stored : Store
stored = put true true good_outcome (codes "/c") (codes "0123456789R") 3 new_store

stored_example :
    let level = calculate_wanted_cache_level (value stored.counters files_in_cache) in
    (look_up_cache_file stored.files (codes "/c") (codes "0123456789R") ≡ record {
      path = get_path_in_cache (codes "/c") level (codes "0123456789R");
      is_regular_file = true;
      level = level;
    })
    × (stored.stored_data ≡ true)
unfolding look_up_cache_file look_up_loop
stored_example =
    look_up-put true good_outcome (codes "/c") (codes "0123456789R") 3 new_store (omega arith)
      (record { two_three = refl; two_four = refl; three_four = refl }) refl refl refl refl

get_or-replicate :
    {A : Type 0} (P : A → Type 0) (n : ℕ) (a d : A)
    → P a
    → P d
    → (i : ℕ) → P (get_or (replicate n a) i d)
get_or-replicate P zero a d h p i = p
get_or-replicate P (suc n) a d h p zero = h
get_or-replicate P (suc n) a d h p (suc i) = get_or-replicate P n a d h p i

value-All : (cs : Counters) → All (λ v. v < 2 ^ 54) cs → (k : ℕ) → value cs k < 2 ^ 54
value-All [] h k = omega arith
value-All (c ∷ cs) (p, h) zero = p
value-All (c ∷ cs) (p, h) (suc k) = value-All cs h k

all-consistent : (i : ℕ) → has_consistent_counters (at all_counters i) ≡ true
unfolding has_consistent_counters sum_subdirs
all-consistent zero = refl
all-consistent (suc i) =
    get_or-replicate (λ cs. has_consistent_counters cs ≡ true) 15 no_counters [] refl refl i

All-set :
    {A : Type 0} (P : A → Type 0) (xs : List A) (i : ℕ) (v : A)
    → P v
    → All P xs
    → All P (set xs i v)
All-set P [] i v h hs = tt
All-set P (x ∷ xs) zero v h (p, hs) = (h, hs)
All-set P (x ∷ xs) (suc i) v h (p, hs) = (p, All-set P xs i v h hs)

abbrev IsSmall : ℕ → Type 0
IsSmall v = v < 2 ^ 54

zeros-IsSmall : All IsSmall no_counters
zeros-IsSmall = All-replicate IsSmall statistic_end 0 (omega arith)

some_counters-IsSmall : All IsSmall some_counters
some_counters-IsSmall =
    All-set IsSmall
      (set (set (set no_counters files_in_cache 2) cache_size_kibibyte 8) (subdir_files_base + 3) 2)
      (subdir_size_kibibyte_base + 3) 8 (omega arith)
      (All-set IsSmall (set (set no_counters files_in_cache 2) cache_size_kibibyte 8)
        (subdir_files_base + 3) 2 (omega arith)
        (All-set IsSmall (set no_counters files_in_cache 2) cache_size_kibibyte 8 (omega arith)
          (All-set IsSmall no_counters files_in_cache 2 (omega arith) zeros-IsSmall)))

all-small : (i : ℕ) → All (λ v. v < 2 ^ 54) (at all_counters i)
all-small zero = some_counters-IsSmall
all-small (suc i) = get_or-replicate (All (λ v. v < 2 ^ 54)) 15 no_counters [] zeros-IsSmall tt i

chosen_example :
    value (at all_counters 3) (subdir_files_base + 2)
    ≤ value some_counters (subdir_files_base + get_largest_level_2_index some_counters)
unfolding evaluate_cleanup evaluate_dirs evaluate_dir evaluate_totals evaluate_subdirs
    mark_inconsistent has_consistent_counters sum_subdirs
chosen_example =
    evaluate_cleanup_chooses all_counters 0 1
      (record { l1_index = 0; l1_counters = some_counters; total_files = 2 })
      (λ i p. all-consistent i)
      (λ i j p q. value-All (at all_counters i) (all-small i) (subdir_files_base + j)) refl 3 2
      (omega arith) (omega arith)

zeroed_example : value (get_all_statistics (zero_all_statistics 1000 (some_counters ∷ []))) 4 ≡ (
    if is_among 4 get_zeroable_fields then 0 else value (get_all_statistics (some_counters ∷ [])) 4)
zeroed_example = get_all-zero_all_statistics 4 refl 1000 (some_counters ∷ [])
