-- ===== src/LocalStorage/Subdirs.antt =====
-- The counters of the sixteen subdirectories of a level 1 directory
-- (src/storage/local/LocalStorage.cpp: Level1Counters, set_counters, has_consistent_counters,
-- increment_files_and_size_counters, get_largest_level_2_index, recount_level_1_dir).
pub mod Sums
pub mod Consistent
pub mod Largest
pub mod Recount
pub mod Changed
use ccache.Prelude.{
  ℕ, zero, suc, ◌+◌, ◌-◌, ◌*◌, ◌/◌, ◌%◌, ◌^◌, Bool, true, false, List, [], ◌∷◌, ◌++◌, length, set,
  ltb, ◌==◌, ◌&&◌, if◌then◌else◌,
}
use ccache.Counters.{Counters, increment}
use ccache.Counters.Laws.{value}

abbrev pub files_in_cache : ℕ
files_in_cache = 11

abbrev pub cache_size_kibibyte : ℕ
cache_size_kibibyte = 12

abbrev pub cleanups_performed : ℕ
cleanups_performed = 29

abbrev pub subdir_files_base : ℕ
subdir_files_base = 49

abbrev pub subdir_size_kibibyte_base : ℕ
subdir_size_kibibyte_base = 65

-- for_each_cache_subdir
abbrev pub subdir_count : ℕ
subdir_count = 16

pub record Level2Counters : Type 0 where
  pub files : ℕ
  pub size : ℕ

-- `level_2_counters` has sixteen elements.
pub record Level1Counters : Type 0 where
  pub level_2_counters : List Level2Counters
  pub cleanups : ℕ

-- util::likely_size_on_disk; `size` is a uint64_t, and the mask clears its low 12 bits.
unfoldable pub likely_size_on_disk : ℕ → ℕ
likely_size_on_disk size = (size + 4095) % 2 ^ 64 / 4096 * 4096

-- kibibyte_size_diff of two sizes on disk: the bit pattern of an int64_t. The division truncates
-- toward zero, and the sizes are less than 2 ^ 63.
unfoldable pub kibibyte_size_diff : ℕ → ℕ → ℕ
kibibyte_size_diff old_size new_size =
    if ltb new_size old_size
    then (2 ^ 64 - (old_size - new_size) / 1024) % 2 ^ 64
    else (new_size - old_size) / 1024

-- Level1Counters::files and Level1Counters::size
unfoldable pub sum_with : (Level2Counters → ℕ) → ℕ → List Level2Counters → ℕ
sum_with field sum [] = sum
sum_with field sum (cs ∷ level_2_counters) =
    sum_with field ((sum + field cs) % 2 ^ 64) level_2_counters

unfoldable pub files_of : Level1Counters → ℕ
unfolding sum_with
files_of cs = sum_with (λ c. c.files) 0 cs.level_2_counters

unfoldable pub size_of : Level1Counters → ℕ
unfolding sum_with
size_of cs = sum_with (λ c. c.size) 0 cs.level_2_counters

-- The loop of set_counters. The statistics are known ones, so that the checks of
-- StatisticsCounters::set hold, and the vector has room for all of them.
unfoldable pub set_subdirs : ℕ → List Level2Counters → Counters → Counters
set_subdirs i [] cs = cs
set_subdirs i (c ∷ level_2_counters) cs =
    set_subdirs (i + 1) level_2_counters
      (set (set cs (subdir_files_base + i) c.files) (subdir_size_kibibyte_base + i) (c.size / 1024))

-- The function that set_counters hands to StatsFile::update.
unfoldable pub set_counters : Level1Counters → Counters → Counters
unfolding files_of size_of set_subdirs
set_counters level_1_cs cs =
    let cs = set cs files_in_cache (files_of level_1_cs) in
    let cs = set cs cache_size_kibibyte (size_of level_1_cs / 1024) in
    let cs = set_subdirs 0 level_1_cs.level_2_counters cs in
    increment cleanups_performed level_1_cs.cleanups cs

-- The function that increment_files_and_size_counters hands to StatsFile::update; the changes are
-- bit patterns of int64_t.
unfoldable pub increment_files_and_size_counters : ℕ → ℕ → ℕ → Counters → Counters
increment_files_and_size_counters l2_index files size_kibibyte cs =
    let cs = increment files_in_cache files cs in
    let cs = increment cache_size_kibibyte size_kibibyte cs in
    let cs = increment (subdir_files_base + l2_index) files cs in
    increment (subdir_size_kibibyte_base + l2_index) size_kibibyte cs

-- The sum of the loop over the first `count` subdirectories.
unfoldable pub sum_subdirs : Counters → ℕ → ℕ → ℕ
sum_subdirs counters base zero = 0
sum_subdirs counters base (suc count) =
    (sum_subdirs counters base count + value counters (base + count)) % 2 ^ 64

unfoldable pub has_consistent_counters : Counters → Bool
unfolding sum_subdirs
has_consistent_counters counters =
    (sum_subdirs counters subdir_files_base subdir_count == value counters files_in_cache)
    && (sum_subdirs counters subdir_size_kibibyte_base subdir_count
        == value counters cache_size_kibibyte)

-- The loop of get_largest_level_2_index over the first `count` subdirectories: the largest number
-- times 1024, which wraps, and its index.
unfoldable pub largest_loop : Counters → ℕ → ℕ × ℕ
largest_loop counters zero = (0, 0)
largest_loop counters (suc i) =
    let largest = largest_loop counters i in
    let l2_files = 1024 * value counters (subdir_files_base + i) % 2 ^ 64 in
    if ltb largest.0 l2_files then (l2_files, i) else largest

unfoldable pub get_largest_level_2_index : Counters → ℕ
unfolding largest_loop
get_largest_level_2_index counters = (largest_loop counters subdir_count).1

-- recount_level_1_dir, for the sizes on disk of the files in each subdirectory.
unfoldable pub total_size : ℕ → List ℕ → ℕ
total_size sum [] = sum
total_size sum (size ∷ files) = total_size ((sum + size) % 2 ^ 64) files

unfoldable pub recount : List (List ℕ) → List Level2Counters
unfolding total_size
recount [] = []
recount (files ∷ subdirs) =
    record { files = length files; size = total_size 0 files } ∷ recount subdirs

unfoldable pub recount_level_1_dir : List (List ℕ) → Counters → Counters
unfolding recount set_counters
recount_level_1_dir subdirs cs =
    set_counters (record { level_2_counters = recount subdirs; cleanups = 0 }) cs
