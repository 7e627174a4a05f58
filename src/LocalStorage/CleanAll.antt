-- ===== src/LocalStorage/CleanAll.antt =====
-- The cleanup of the whole cache (src/storage/local/LocalStorage.cpp: do_clean_all, evict, clean_all,
-- wipe_all).
pub mod Exact
pub mod SmallLimits
use ccache.Prelude.{
  ℕ, zero, suc, ◌+◌, ◌-◌, ◌*◌, ◌/◌, ◌%◌, ◌^◌, min, Bool, true, false, Bytes, List, [], ◌∷◌, ◌++◌,
  Option, none, some, set, ltb, ◌==◌, ◌||◌, not, if◌then◌else◌,
}
use ccache.Counters.{Counters}
use ccache.Counters.Laws.{value}
use ccache.LocalStorage.Subdirs.{
  files_in_cache, cache_size_kibibyte, Level2Counters, Level1Counters, set_counters,
}
use ccache.LocalStorage.Cleaning.{DirEntry, Host, Limits, is_removed, CleanDirResult, clean_dir}

pub record Level2Dir : Type 0 where
  pub files : List DirEntry
  pub stats_file : Counters

pub record Level1Dir : Type 0 where
  pub subdirs : List Level2Dir
  pub stats_file : Counters

-- The variables of the loops of do_clean_all.
pub record CleanAllState : Type 0 where
  pub current_size : ℕ
  pub current_files : ℕ
  pub level_1_counters : Level1Counters
  pub subdirs : List Level2Dir

unfoldable pub remaining : List Bytes → List DirEntry → List DirEntry
remaining removed [] = []
remaining removed (file ∷ files) =
    let rest = remaining removed files in if is_removed file.path removed then rest else file ∷ rest

-- The limits for one subdirectory of the 256.
unfoldable pub level_2_max : ℕ → ℕ → ℕ
level_2_max current max = if ltb max current then max / 256 else 0

unfoldable pub level_2_limits : Limits → CleanAllState → Limits
unfolding level_2_max
level_2_limits limits s = record {
  max_size = level_2_max s.current_size limits.max_size;
  max_files = level_2_max s.current_files limits.max_files;
  max_age = limits.max_age;
  namespace_ = limits.namespace_;
}

-- The statistics file of a subdirectory counts no files.
unfoldable pub reset_level_2 : Counters → Counters
reset_level_2 cs = set (set cs cache_size_kibibyte 0) files_in_cache 0

-- What is done with the result for a subdirectory. The removed size and number wrap.
unfoldable pub note_result : Level2Dir → CleanDirResult → CleanAllState → CleanAllState
unfolding remaining reset_level_2
note_result dir result s =
    let removed_size = (result.before.size + 2 ^ 64 - result.after.size) % 2 ^ 64 in
    let removed_files = (result.before.files + 2 ^ 64 - result.after.files) % 2 ^ 64 in
    let cleanups = s.level_1_counters.cleanups in
    record {
      current_size = s.current_size - min removed_size s.current_size;
      current_files = s.current_files - min removed_files s.current_files;
      level_1_counters = record {
        level_2_counters = s.level_1_counters.level_2_counters ++ (result.after ∷ []);
        cleanups =
            if result.after.files == result.before.files then cleanups else (cleanups + 1) % 2 ^ 64;
      };
      subdirs =
          s.subdirs
          ++ (record {
            files = remaining result.removed dir.files;
            stats_file = reset_level_2 dir.stats_file;
          }
              ∷ []);
    }

unfoldable pub clean_subdir : Host → Limits → Level2Dir → CleanAllState → CleanAllState
unfolding level_2_limits note_result
clean_subdir host limits dir s =
    note_result dir (clean_dir host (level_2_limits limits s) dir.files) s

unfoldable pub clean_subdirs : Host → Limits → List Level2Dir → CleanAllState → CleanAllState
unfolding clean_subdir
clean_subdirs host limits [] s = s
clean_subdirs host limits (dir ∷ subdirs) s =
    clean_subdirs host limits subdirs (clean_subdir host limits dir s)

-- A level 1 directory, with what is left of the sizes; all content locks are held.
unfoldable pub clean_level_1_dir : Host → Limits → ℕ → ℕ → Level1Dir → CleanAllState
unfolding clean_subdirs
clean_level_1_dir host limits current_size current_files dir =
    clean_subdirs host limits dir.subdirs (record {
      current_size = current_size;
      current_files = current_files;
      level_1_counters = record { level_2_counters = []; cleanups = 0 };
      subdirs = [];
    })

unfoldable pub cleaned_level_1_dir : CleanAllState → Counters → Level1Dir
cleaned_level_1_dir s stats_file = record {
  subdirs = s.subdirs;
  stats_file = set_counters s.level_1_counters stats_file;
}

unfoldable pub clean_level_1_dirs : Host → Limits → ℕ → ℕ → List Level1Dir → List Level1Dir
unfolding clean_level_1_dir cleaned_level_1_dir
clean_level_1_dirs host limits current_size current_files [] = []
clean_level_1_dirs host limits current_size current_files (dir ∷ dirs) =
    let s = clean_level_1_dir host limits current_size current_files dir in
    cleaned_level_1_dir s dir.stats_file
    ∷ clean_level_1_dirs host limits s.current_size s.current_files dirs

-- The sum over the statistics files of level 1.
unfoldable pub sum_dirs : (Counters → ℕ) → ℕ → List Level1Dir → ℕ
sum_dirs field sum [] = sum
sum_dirs field sum (dir ∷ dirs) = sum_dirs field ((sum + field dir.stats_file) % 2 ^ 64) dirs

unfoldable pub do_clean_all : Host → Limits → List Level1Dir → List Level1Dir
unfolding sum_dirs clean_level_1_dirs
do_clean_all host limits dirs =
    let has_limit = ltb 0 limits.max_size || ltb 0 limits.max_files in
    let current_size =
      if has_limit
      then sum_dirs (λ cs. 1024 * value cs cache_size_kibibyte % 2 ^ 64) 0 dirs
      else 0 in
    let current_files = if has_limit then sum_dirs (λ cs. value cs files_in_cache) 0 dirs else 0 in
    clean_level_1_dirs host limits current_size current_files dirs

unfoldable pub evict : Host → Option ℕ → Option Bytes → List Level1Dir → List Level1Dir
unfolding do_clean_all
evict host max_age namespace_ dirs =
    do_clean_all host
      (record { max_size = 0; max_files = 0; max_age = max_age; namespace_ = namespace_ }) dirs

-- clean_all, for the configured limits.
unfoldable pub clean_all : Host → ℕ → ℕ → List Level1Dir → List Level1Dir
unfolding do_clean_all
clean_all host max_size max_files dirs =
    do_clean_all host
      (record { max_size = max_size; max_files = max_files; max_age = none; namespace_ = none })
      dirs

-- wipe_all: the files of each subdirectory that cannot be removed stay, but are not counted.
unfoldable pub unremovable : Host → List DirEntry → List DirEntry
unremovable host [] = []
unremovable host (file ∷ files) =
    let rest = unremovable host files in if host.removes file.path then rest else file ∷ rest

unfoldable pub is_empty : List DirEntry → Bool
is_empty [] = true
is_empty (file ∷ files) = false

unfoldable pub wipe_subdirs : Host → List Level2Dir → List Level2Dir
unfolding unremovable
wipe_subdirs host [] = []
wipe_subdirs host (dir ∷ subdirs) =
    record { files = unremovable host dir.files; stats_file = dir.stats_file }
    ∷ wipe_subdirs host subdirs

unfoldable pub count_wiped : List Level2Dir → ℕ
unfolding is_empty
count_wiped [] = 0
count_wiped (dir ∷ subdirs) = (if is_empty dir.files then 0 else 1) + count_wiped subdirs

unfoldable pub no_level_2_counters : List Level2Dir → List Level2Counters
no_level_2_counters [] = []
no_level_2_counters (dir ∷ subdirs) = record { files = 0; size = 0 } ∷ no_level_2_counters subdirs

unfoldable pub wipe_all : Host → List Level1Dir → List Level1Dir
unfolding wipe_subdirs count_wiped no_level_2_counters
wipe_all host [] = []
wipe_all host (dir ∷ dirs) =
    record {
      subdirs = wipe_subdirs host dir.subdirs;
      stats_file =
          set_counters
            (record {
              level_2_counters = no_level_2_counters dir.subdirs;
              cleanups = count_wiped dir.subdirs;
            })
            dir.stats_file;
    }
    ∷ wipe_all host dirs
