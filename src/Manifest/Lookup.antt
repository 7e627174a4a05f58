-- ===== src/Manifest/Lookup.antt =====
-- Manifest::look_up_result_digest and Manifest::result_matches (src/core/Manifest.cpp). The file
-- system and hash_source_code_file are parameters; a call of them gives the same answer each time.
-- The answer `none` of the look-up is an index past a table's end.
pub mod Cached
pub mod Newest
use mathlib.Core.List.{reverse}
use ccache.Prelude.{
  ℕ, Bool, true, false, Bytes, List, [], ◌∷◌, Option, none, some, get_elem?, ◌==◌, ◌&&◌, ◌||◌, not,
  eq_bytes, if◌then◌else◌,
}
use ccache.Manifest.Types.{FileStats, FileInfo, ResultEntry, Manifest}

-- What hash_source_code_file reports and the digest that it computes.
pub record HashOutcome : Type 0 where
  pub error : Bool
  pub found_time : Bool
  pub digest : Bytes

pub data CompilerType : Type 0 where
  auto_guess clang clang_cl gcc icl msvc nvcc other : CompilerType

pub record Context : Type 0 where
  pub compiler_type : CompilerType
  pub output_is_precompiled_header : Bool
  pub fno_pch_timestamp : Bool
  pub file_stat_matches : Bool
  pub file_stat_matches_ctime : Bool
  pub stat : Bytes → Option FileStats
  pub hash_source_code_file : Bytes → ℕ → HashOutcome

-- `stated_files` and `hashed_files`
pub record Caches : Type 0 where
  pub stated_files : List (Bytes × FileStats)
  pub hashed_files : List (Bytes × Bytes)

unfoldable pub find {ℓ} : {A : Type ℓ} → Bytes → List (Bytes × A) → Option A
find path [] = none
find path ((p, a) ∷ entries) = if eq_bytes p path then some a else find path entries

abbrev is_clang_or_other : CompilerType → Bool
is_clang_or_other clang = true
is_clang_or_other other = true
is_clang_or_other _ = false

-- Whether a precompiled header's recorded mtime must be the file's.
unfoldable pub needs_same_mtime : Context → Bool
needs_same_mtime ctx =
    is_clang_or_other ctx.compiler_type
    && ctx.output_is_precompiled_header
    && not ctx.fno_pch_timestamp

-- The `continue` for file_stat_matches.
unfoldable pub stat_hit : Context → FileInfo → FileStats → Bool
stat_hit ctx fi fs =
    if ctx.file_stat_matches
    then (if not ctx.file_stat_matches_ctime
        then (fi.mtime == fs.mtime) && (fi.ctime == fs.ctime)
        else fi.mtime == fs.mtime)
    else false

unfoldable pub stat_cached : Context → Bytes → Option FileStats → Caches → Option FileStats × Caches
stat_cached ctx path (some fs) caches = (some fs, caches)
stat_cached ctx path none caches = elim (ctx.stat path) [
  | none ↦ (none, caches)
  | some st ↦ (some st, record caches { stated_files = (path, st) ∷ caches.stated_files })
]

unfoldable pub hash_cached :
    Context → FileInfo → Bytes → FileStats → Option Bytes → Caches → Bool × Caches
hash_cached ctx fi path fs (some digest) caches = (eq_bytes fi.digest digest, caches)
hash_cached ctx fi path fs none caches =
    let ret = ctx.hash_source_code_file path fs.size in
    if ret.error then (false, caches) else if ret.found_time then (false, caches) else (
      eq_bytes fi.digest ret.digest,
      record caches { hashed_files = (path, ret.digest) ∷ caches.hashed_files },
    )

-- What follows once the file's statistics are known.
unfoldable pub compare_file : Context → FileInfo → Bytes → Option FileStats × Caches → Bool × Caches
unfolding needs_same_mtime stat_hit hash_cached find
compare_file ctx fi path (none, caches) = (false, caches)
compare_file ctx fi path (some fs, caches) =
    if not (fi.fsize == fs.size)
    then (false, caches)
    else if needs_same_mtime ctx && not (fi.mtime == fs.mtime)
    then (false, caches)
    else if stat_hit ctx fi fs
    then (true, caches)
    else hash_cached ctx fi path fs (find path caches.hashed_files) caches

-- One round of the loop of result_matches: `false` is `return false`.
unfoldable pub file_matches : Context → FileInfo → Bytes → Caches → Bool × Caches
unfolding compare_file stat_cached
file_matches ctx fi path caches =
    compare_file ctx fi path (stat_cached ctx path (find path caches.stated_files) caches)

unfoldable pub go_on {ℓ} :
    {A : Type ℓ} → (Caches → Option (A × Caches)) → A → Bool × Caches → Option (A × Caches)
go_on rest stop (true, caches) = rest caches
go_on rest stop (false, caches) = some (stop, caches)

unfoldable pub at_path :
    Context
    → (Caches → Option (Bool × Caches))
    → FileInfo
    → Caches
    → Option Bytes
    → Option (Bool × Caches)
unfolding go_on file_matches
at_path ctx rest fi caches none = none
at_path ctx rest fi caches (some path) = go_on rest false (file_matches ctx fi path caches)

unfoldable pub at_info :
    Context
    → Manifest
    → (Caches → Option (Bool × Caches))
    → Caches
    → Option FileInfo
    → Option (Bool × Caches)
unfolding at_path
at_info ctx m rest caches none = none
at_info ctx m rest caches (some fi) = at_path ctx rest fi caches (get_elem? m.files fi.index)

unfoldable pub result_matches : Context → Manifest → List ℕ → Caches → Option (Bool × Caches)
unfolding at_info
result_matches ctx m [] caches = some (true, caches)
result_matches ctx m (index ∷ indexes) caches =
    at_info ctx m (result_matches ctx m indexes) caches (get_elem? m.file_infos index)

unfoldable pub if_matched :
    (Caches → Option (Option Bytes)) → Bytes → Option (Bool × Caches) → Option (Option Bytes)
if_matched next key none = none
if_matched next key (some (true, caches)) = some (some key)
if_matched next key (some (false, caches)) = next caches

-- The loop of look_up_result_digest, over the results from the newest on.
unfoldable pub look_up : Context → Manifest → List ResultEntry → Caches → Option (Option Bytes)
unfolding result_matches if_matched
look_up ctx m [] caches = some none
look_up ctx m (result ∷ older) caches =
    if_matched (look_up ctx m older) result.key
      (result_matches ctx m result.file_info_indexes caches)

unfoldable pub look_up_result_digest : Context → Manifest → Option (Option Bytes)
unfolding look_up
look_up_result_digest ctx m =
    look_up ctx m (reverse m.results) (record { stated_files = []; hashed_files = [] })
