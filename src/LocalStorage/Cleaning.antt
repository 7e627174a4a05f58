-- ===== src/LocalStorage/Cleaning.antt =====
-- The cleanup of one cache directory (src/storage/local/LocalStorage.cpp: clean_dir, delete_file,
-- file_type_from_path; src/util/TemporaryFile.cpp: is_tmp_file).
pub mod Sorted
pub mod Evicted
pub mod Cleaned
pub mod OldTmp
use ccache.Prelude.{
  ℕ, zero, suc, ◌+◌, ◌-◌, ◌*◌, ◌%◌, ◌^◌, Bool, true, false, Bytes, List, [], ◌∷◌, ◌++◌, Option,
  none, some, length, take, drop, ltb, leb, ◌==◌, ◌&&◌, ◌||◌, not, eq_bytes, if◌then◌else◌, codes,
}
use ccache.LocalStorage.Subdirs.{Level2Counters}

-- What a DirEntry has cached when the first pass is over; `missing` is a failed lstat.
pub data FileKind : Type 0 where
  missing regular directory other : FileKind

pub record DirEntry : Type 0 where
  pub path : Bytes
  pub kind : FileKind
  -- Nanoseconds.
  pub mtime : ℕ
  pub size_on_disk : ℕ

unfoldable pub is_regular_file : DirEntry → Bool
is_regular_file file = elim file.kind [ regular ↦ true | _ ↦ false ]

unfoldable pub is_directory : DirEntry → Bool
is_directory file = elim file.kind [ directory ↦ true | _ ↦ false ]

unfoldable pub is_there : DirEntry → Bool
is_there file = elim file.kind [ missing ↦ false | _ ↦ true ]

-- What the clock and the file system answer during the cleanup.
pub record Host : Type 0 where
  -- Nanoseconds.
  pub current_time : ℕ
  -- Whether the removal of the path succeeds, or fails since there is no such file.
  pub removes : Bytes → Bool
  -- The size on disk that a path has by then.
  pub size_of_path : Bytes → ℕ
  -- The namespace in the header of a cache entry; `none` where the header cannot be read.
  pub namespace_of : Bytes → Option Bytes

pub record Limits : Type 0 where
  pub max_size : ℕ
  pub max_files : ℕ
  -- Seconds.
  pub max_age : Option ℕ
  pub namespace_ : Option Bytes

pub data FileType : Type 0 where
  result manifest raw unknown : FileType

-- The part behind the last slash.
unfoldable pub filename_from : Bytes → Bytes → Bytes
filename_from name [] = name
filename_from name (c ∷ path) =
    let inner = filename_from path path in
    let same = filename_from name path in if c == b'/' then inner else same

unfoldable pub filename : Bytes → Bytes
unfolding filename_from
filename path = filename_from path path

unfoldable pub ends_with : Bytes → Bytes → Bool
ends_with string suffix =
    leb (length suffix) (length string)
    && eq_bytes (drop (length string - length suffix) string) suffix

-- std::string::find, as a test.
unfoldable pub contains : Bytes → Bytes → Bool
contains [] infix_ = eq_bytes [] infix_
contains (c ∷ string) infix_ =
    eq_bytes (take (length infix_) (c ∷ string)) infix_ || contains string infix_

unfoldable pub is_tmp_file : Bytes → Bool
unfolding contains filename
is_tmp_file path = contains (filename path) (codes ".tmp.")

unfoldable pub file_type_from_path : Bytes → FileType
unfolding ends_with filename
file_type_from_path path =
    let filename = filename path in
    if ends_with filename (codes "M")
    then manifest
    else if ends_with filename (codes "R")
    then result
    else if ends_with filename (codes "W")
    then raw
    else unknown

unfoldable pub is_raw : FileType → Bool
is_raw raw = true
is_raw _ = false

unfoldable pub is_result : FileType → Bool
is_result result = true
is_result _ = false

unfoldable pub has_value {ℓ} : {A : Type ℓ} → Option A → Bool
has_value none = false
has_value (some a) = true

-- The variables of clean_dir, and the paths that were removed.
pub record CleanState : Type 0 where
  pub cache_size : ℕ
  pub files_in_cache : ℕ
  -- Pairs of a result file and a raw file that belongs to it.
  pub raw_files_map : List (Bytes × Bytes)
  pub removed : List Bytes

unfoldable pub mark_removed : Host → Bytes → List Bytes → List Bytes
mark_removed host path removed = if host.removes path then removed ++ (path ∷ []) else removed

-- delete_file: the counters are of type uint64_t.
unfoldable pub delete_file : Host → Bytes → ℕ → CleanState → CleanState
delete_file host path size_on_disk s =
    if host.removes path
    then record {
      cache_size = (s.cache_size + 2 ^ 64 - size_on_disk) % 2 ^ 64;
      files_in_cache = (s.files_in_cache + 2 ^ 64 - 1) % 2 ^ 64;
      raw_files_map = s.raw_files_map;
      removed = s.removed ++ (path ∷ []);
    }
    else s

-- Temporary files that are more than an hour old.
unfoldable pub is_old_tmp_file : Host → DirEntry → Bool
unfolding is_tmp_file
is_old_tmp_file host file =
    ltb (file.mtime + 3600 * 10 ^ 9) host.current_time && is_tmp_file file.path

-- The entry of raw_files_map for a raw file.
unfoldable pub note_raw_file : Option Bytes → Bytes → List (Bytes × Bytes) → List (Bytes × Bytes)
unfolding file_type_from_path is_raw has_value
note_raw_file namespace_ path map =
    if has_value namespace_ && is_raw (file_type_from_path path)
    then map ++ ((take (length path - 2) path ++ codes "R", path) ∷ [])
    else map

unfoldable pub count_file : Option Bytes → DirEntry → CleanState → CleanState
unfolding note_raw_file
count_file namespace_ file s = record {
  cache_size = (s.cache_size + file.size_on_disk) % 2 ^ 64;
  files_in_cache = (s.files_in_cache + 1) % 2 ^ 64;
  raw_files_map = note_raw_file namespace_ file.path s.raw_files_map;
  removed = s.removed;
}

-- One round of the first loop.
unfoldable pub scan_file : Host → Option Bytes → DirEntry → CleanState → CleanState
unfolding is_regular_file is_old_tmp_file mark_removed count_file
scan_file host namespace_ file s =
    if not (is_regular_file file)
    then s
    else if is_old_tmp_file host file
    then record {
      cache_size = s.cache_size;
      files_in_cache = s.files_in_cache;
      raw_files_map = s.raw_files_map;
      removed = mark_removed host file.path s.removed;
    }
    else count_file namespace_ file s

unfoldable pub scan_files : Host → Option Bytes → List DirEntry → CleanState → CleanState
unfolding scan_file
scan_files host namespace_ [] s = s
scan_files host namespace_ (file ∷ files) s =
    scan_files host namespace_ files (scan_file host namespace_ file s)

-- std::sort by modification time. It may leave files of the same time in another order.
unfoldable pub insert_by_mtime : DirEntry → List DirEntry → List DirEntry
insert_by_mtime file [] = file ∷ []
insert_by_mtime file (f ∷ files) =
    let rest = insert_by_mtime file files in
    if leb file.mtime f.mtime then file ∷ f ∷ files else f ∷ rest

unfoldable pub sort_by_mtime : List DirEntry → List DirEntry
unfolding insert_by_mtime
sort_by_mtime [] = []
sort_by_mtime (file ∷ files) = insert_by_mtime file (sort_by_mtime files)

-- Whether the file is younger than the limit; times are small enough that no sum overflows.
unfoldable pub is_young : Host → Option ℕ → DirEntry → Bool
is_young host none file = true
is_young host (some max_age) file = ltb host.current_time (file.mtime + max_age * 10 ^ 9)

-- The test at which the second loop stops.
unfoldable pub is_enough : Host → Limits → DirEntry → ℕ → ℕ → Bool
unfolding is_young has_value
is_enough host limits file cache_size files_in_cache =
    (limits.max_size == 0 || leb cache_size limits.max_size)
    && ((limits.max_files == 0 || leb files_in_cache limits.max_files)
        && (is_young host limits.max_age file
            && (not (has_value limits.namespace_) || has_value limits.max_age)))

unfoldable pub delete_raw_files : Host → Bytes → List (Bytes × Bytes) → CleanState → CleanState
unfolding delete_file
delete_raw_files host path [] s = s
delete_raw_files host path ((result_filename, raw_file) ∷ map) s = delete_raw_files host path map (
    if eq_bytes result_filename path
    then delete_file host raw_file (host.size_of_path raw_file) s
    else s)

unfoldable pub is_removed : Bytes → List Bytes → Bool
is_removed path [] = false
is_removed path (p ∷ removed) = eq_bytes path p || is_removed path removed

-- The namespace in the header of a file that may be removed by now.
unfoldable pub header_namespace : Host → Bytes → CleanState → Option Bytes
unfolding is_removed
header_namespace host path s = if is_removed path s.removed then none else host.namespace_of path

unfoldable pub is_in_namespace : Bytes → Option Bytes → Bool
is_in_namespace namespace_ none = false
is_in_namespace namespace_ (some n) = eq_bytes n namespace_

-- The part of the second loop behind the test that stops it.
unfoldable pub evict_file : Host → Option Bytes → DirEntry → CleanState → CleanState
unfolding delete_file header_namespace is_in_namespace file_type_from_path is_result
    delete_raw_files
evict_file host none file s = delete_file host file.path file.size_on_disk s
evict_file host (some namespace_) file s =
    if is_in_namespace namespace_ (header_namespace host file.path s)
    then delete_file host file.path file.size_on_disk (
        if is_result (file_type_from_path file.path)
        then delete_raw_files host file.path s.raw_files_map s
        else s)
    else s

-- The second loop.
unfoldable pub evict_files : Host → Limits → List DirEntry → CleanState → CleanState
unfolding is_there is_directory is_enough evict_file
evict_files host limits [] s = s
evict_files host limits (file ∷ files) s =
    let skipped = evict_files host limits files s in
    let evicted = evict_files host limits files (evict_file host limits.namespace_ file s) in
    if not (is_there file) || is_directory file
    then skipped
    else if is_enough host limits file s.cache_size s.files_in_cache
    then s
    else evicted

pub record CleanDirResult : Type 0 where
  pub before : Level2Counters
  pub after : Level2Counters
  pub removed : List Bytes

unfoldable pub counters_of : CleanState → Level2Counters
counters_of s = record { files = s.files_in_cache; size = s.cache_size }

unfoldable pub scanned : Host → Option Bytes → List DirEntry → CleanState
unfolding scan_files
scanned host namespace_ files =
    scan_files host namespace_ files
      (record { cache_size = 0; files_in_cache = 0; raw_files_map = []; removed = [] })

unfoldable pub clean_dir : Host → Limits → List DirEntry → CleanDirResult
unfolding scanned sort_by_mtime evict_files counters_of
clean_dir host limits files =
    let s = scanned host limits.namespace_ files in
    let t = evict_files host limits (sort_by_mtime files) s in
    record { before = counters_of s; after = counters_of t; removed = t.removed }
