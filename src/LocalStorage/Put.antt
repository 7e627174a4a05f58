-- ===== src/LocalStorage/Put.antt =====
-- Storing and removing a cache file (src/storage/local/LocalStorage.cpp: put, remove).
use ccache.Prelude.{
  ℕ, ◌-◌, ◌/◌, ◌%◌, ◌^◌, ◌≤◌, ◌≡◌, refl, Bool, true, false, Bytes, length, ◌&&◌, not, eq_bytes,
  if◌then◌else◌,
}
use ccache.Counters.{Counters}
use ccache.Counters.Laws.{value}
use ccache.LocalStorage.Levels.{
  k_max_cache_levels, Files, get_path_in_cache, calculate_wanted_cache_level, look_up_cache_file,
  commit, move_to_wanted_cache_level, put_file,
}
use ccache.LocalStorage.Levels.Moved.{AtMostOne, look_up-put_file}
use ccache.LocalStorage.Subdirs.{
  files_in_cache, kibibyte_size_diff, increment_files_and_size_counters,
}

-- The cache directory's files, the counters of the level 1 directory of the key, and m_stored_data.
pub record Store : Type 0 where
  pub files : Files
  pub counters : Counters
  pub stored_data : Bool

-- What happens outside during a call.
pub record Outcome : Type 0 where
  -- Whether the new file is written.
  pub written : Bool
  -- Whether the content lock is acquired.
  pub locked : Bool
  -- Whether the stats file is updated.
  pub updated : Bool
  -- The sizes on disk of the file before and after; 0 where there is none.
  pub old_size : ℕ
  pub new_size : ℕ

-- LocalStorage::put for a key in subdirectory `l2_index`, where the file that was committed is
-- still there when its size is asked for.
unfoldable pub put : Bool → Bool → Outcome → Bytes → Bytes → ℕ → Store → Store
put stats only_if_missing outcome cache_dir key_string l2_index s =
    let cache_file = look_up_cache_file s.files cache_dir key_string in
    let stored = commit cache_file.path s.files in
    let files_change = if cache_file.is_regular_file then 0 else 1 in
    let size_change_kibibyte = kibibyte_size_diff outcome.old_size outcome.new_size in
    let counters =
      increment_files_and_size_counters l2_index files_change size_change_kibibyte s.counters in
    if only_if_missing && cache_file.is_regular_file
    then s
    else if not (outcome.written && outcome.locked)
    then s
    else if not (stats && outcome.updated)
    then record { files = stored; counters = s.counters; stored_data = true }
    else record {
      files =
          move_to_wanted_cache_level (value counters files_in_cache) cache_dir key_string
            cache_file.path stored;
      counters = counters;
      stored_data = true;
    }

unfoldable pub remove_path : Bytes → Files → Files
remove_path path files p = not (eq_bytes p path) && files p

-- LocalStorage::remove, where the file can be removed; a failure to lock is logged only. A size of
-- the file is less than 2 ^ 63.
unfoldable pub remove : Outcome → Bytes → Bytes → ℕ → Store → Store
unfolding remove_path
remove outcome cache_dir key_string l2_index s =
    let cache_file = look_up_cache_file s.files cache_dir key_string in
    let counters =
      increment_files_and_size_counters l2_index (2 ^ 64 - 1)
        ((2 ^ 64 - outcome.old_size / 1024) % 2 ^ 64) s.counters in
    if not cache_file.is_regular_file then s else record {
      files = remove_path cache_file.path s.files;
      counters = if outcome.updated then counters else s.counters;
      stored_data = s.stored_data;
    }

-- A cache file that was at one of the levels at most is, once put succeeds in all its steps with
-- statistics enabled, found by a look-up at the level that the updated counters ask for, and
-- m_stored_data is set. The file's name has at least four characters, and put does not skip the
-- file for being there already.
pub look_up-put :
    (only_if_missing : Bool) (outcome : Outcome) (cache_dir key_string : Bytes) (l2_index : ℕ)
    (s : Store) (long : k_max_cache_levels ≤ length key_string)
    → AtMostOne cache_dir key_string long s.files
    → (only_if_missing && (look_up_cache_file s.files cache_dir key_string).is_regular_file) ≡ false
    → outcome.written ≡ true
    → outcome.locked ≡ true
    → outcome.updated ≡ true
    → let after = put true only_if_missing outcome cache_dir key_string l2_index s in
      let level = calculate_wanted_cache_level (value after.counters files_in_cache) in
      (look_up_cache_file after.files cache_dir key_string ≡ record {
        path = get_path_in_cache cache_dir level key_string;
        is_regular_file = true;
        level = level;
      })
      × (after.stored_data ≡ true)
unfolding put put_file
look_up-put only_if_missing outcome cache_dir key_string l2_index s long one missing w l u =
    let found = (look_up_cache_file s.files cache_dir key_string).is_regular_file in
    let counters =
      increment_files_and_size_counters l2_index (if found then 0 else 1)
        (kibibyte_size_diff outcome.old_size outcome.new_size) s.counters in
    rw (missing, w, l, u)
      (look_up-put_file cache_dir key_string long s.files (value counters files_in_cache) one, refl)
