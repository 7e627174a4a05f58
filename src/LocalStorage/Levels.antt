-- ===== src/LocalStorage/Levels.antt =====
-- Where a cache file lies (src/storage/local/LocalStorage.cpp: calculate_wanted_cache_level,
-- get_path_in_cache, look_up_cache_file, get_raw_file_path, src/storage/local/util.cpp).
pub mod Moved
use ccache.Prelude.{
  ℕ, zero, suc, ◌+◌, ◌-◌, ◌*◌, ◌/◌, ◌^◌, ◌≤◌, ◌<◌, ◌≡◌, Bool, true, false, Bytes, List, [], ◌∷◌,
  ◌++◌, Option, none, some, length, take, drop, get_or, ltb, leb, ◌==◌, ◌&&◌, ◌||◌, not, eq_bytes,
  if◌then◌else◌, codes, arith,
}
use ccache.Decimal.{print_decimal}
use ccache.CacheEntry.Types.{CacheEntryType, result, manifest}

abbrev pub k_max_cache_files_per_directory : ℕ
k_max_cache_files_per_directory = 2000

abbrev pub k_min_cache_levels : ℕ
k_min_cache_levels = 2

abbrev pub k_max_cache_levels : ℕ
k_max_cache_levels = 4

-- The loop of calculate_wanted_cache_level, `rounds` before its end.
unfoldable pub wanted_level_loop : ℕ → ℕ → ℕ → ℕ
wanted_level_loop zero i files_per_directory = k_max_cache_levels
wanted_level_loop (suc rounds) i files_per_directory =
    let deeper = wanted_level_loop rounds (i + 1) (files_per_directory / 16) in
    if ltb files_per_directory k_max_cache_files_per_directory then i else deeper

unfoldable pub calculate_wanted_cache_level : ℕ → ℕ
unfolding wanted_level_loop
calculate_wanted_cache_level files_in_level_1 =
    wanted_level_loop (k_max_cache_levels + 1 - k_min_cache_levels) k_min_cache_levels
      (files_in_level_1 / 16)

-- The wanted level is 2 for less than 16 times the greatest number of files per directory, 3 for
-- less than 16 times that, and 4 for more.
pub calculate_wanted_cache_level_lem :
    (files : ℕ)
    → calculate_wanted_cache_level files ≡ (
        if ltb files (16 * k_max_cache_files_per_directory)
        then 2
        else if ltb files (16 ^ 2 * k_max_cache_files_per_directory)
        then 3
        else 4)
unfolding calculate_wanted_cache_level wanted_level_loop
calculate_wanted_cache_level_lem files = ground arith

-- The path behind the cache directory: `level` characters of the name in directories of their own.
unfoldable pub path_tail : ℕ → Bytes → Bytes
path_tail zero name = b'/' ∷ name
path_tail (suc level) [] = []
path_tail (suc level) (c ∷ name) = b'/' ∷ c ∷ path_tail level name

unfoldable pub get_path_in_cache : Bytes → ℕ → Bytes → Bytes
unfolding path_tail
get_path_in_cache cache_dir level name = cache_dir ++ path_tail level name

unfoldable pub suffix_from_type : CacheEntryType → Bytes
suffix_from_type manifest = codes "M"
suffix_from_type result = codes "R"

-- LookUpCacheFileResult: whether `dir_entry` is a regular file stands for the entry.
pub record LookUpCacheFileResult : Type 0 where
  pub path : Bytes
  pub is_regular_file : Bool
  pub level : ℕ

-- Which paths are regular files.
abbrev pub Files : Type 0
Files = Bytes → Bool

-- The loop of look_up_cache_file, `rounds` before its end.
unfoldable pub look_up_loop : Files → Bytes → Bytes → ℕ → ℕ → LookUpCacheFileResult
unfolding get_path_in_cache
look_up_loop files cache_dir key_string zero level = record {
  path = get_path_in_cache cache_dir k_min_cache_levels key_string;
  is_regular_file = false;
  level = k_min_cache_levels;
}
look_up_loop files cache_dir key_string (suc rounds) level =
    let path = get_path_in_cache cache_dir level key_string in
    let deeper = look_up_loop files cache_dir key_string rounds (level + 1) in
    if files path then record { path = path; is_regular_file = true; level = level } else deeper

unfoldable pub look_up_cache_file : Files → Bytes → Bytes → LookUpCacheFileResult
unfolding look_up_loop
look_up_cache_file files cache_dir key_string =
    look_up_loop files cache_dir key_string (k_max_cache_levels + 1 - k_min_cache_levels)
      k_min_cache_levels

-- AtomicFile::commit makes a regular file.
unfoldable pub commit : Bytes → Files → Files
commit path files p = eq_bytes p path || files p

-- A rename that succeeds; the target is replaced.
unfoldable pub rename : Bytes → Bytes → Files → Files
rename from to files p = if eq_bytes p to then files from else not (eq_bytes p from) && files p

-- move_to_wanted_cache_level; raw files, which lie beside the result, are moved likewise.
unfoldable pub move_to_wanted_cache_level : ℕ → Bytes → Bytes → Bytes → Files → Files
unfolding calculate_wanted_cache_level get_path_in_cache rename
move_to_wanted_cache_level files_in_cache cache_dir key_string cache_file_path files =
    let wanted_path =
      get_path_in_cache cache_dir (calculate_wanted_cache_level files_in_cache) key_string in
    if eq_bytes cache_file_path wanted_path then files else rename cache_file_path wanted_path files

-- The files that LocalStorage::put leaves where it succeeds.
unfoldable pub put_file : ℕ → Bytes → Bytes → Files → Files
unfolding look_up_cache_file commit move_to_wanted_cache_level
put_file files_in_cache cache_dir key_string files =
    let path = (look_up_cache_file files cache_dir key_string).path in
    move_to_wanted_cache_level files_in_cache cache_dir key_string path (commit path files)

-- LocalStorage::get_raw_file_path; `none` is the error that the number is too high.
unfoldable pub get_raw_file_path : Bytes → ℕ → Option Bytes
get_raw_file_path result_path file_number =
    if leb 10 file_number
    then none
    else some
        (take (length result_path - 1) result_path ++ (print_decimal file_number ++ codes "W"))
