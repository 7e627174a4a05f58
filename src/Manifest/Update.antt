-- ===== src/Manifest/Update.antt =====
-- Adding results to a manifest (src/core/Manifest.cpp: add_result, get_file_info_index, read).
-- An unordered_map is a list of its entries in the order in which it is iterated.
pub mod Tables
pub mod Added
pub mod Recorded
pub mod Kept
use ccache.Prelude.{
  ℕ, suc, ◌+◌, ◌-◌, ◌%◌, ◌^◌, Bool, true, false, Bytes, List, [], ◌∷◌, ◌++◌, length, ltb, eq_bytes,
  Option, none, some, get_elem?, if◌then◌else◌, map,
}
use ccache.Fallible.{Result, ok, err, out_of_bounds, ◌>>=◌}
use ccache.Manifest.Types.{
  FileStats, FileInfo, ResultEntry, Manifest, eq_file_info, eq_result_entry, empty,
}
use ccache.Manifest.Format.{read_tables}

abbrev pub k_max_manifest_entries : ℕ
k_max_manifest_entries = 100

abbrev pub k_max_manifest_file_info_entries : ℕ
k_max_manifest_file_info_entries = 10000

-- A map from each element of a vector to its index, filled by `emplace`: the first index stays.
unfoldable pub index_of {ℓ} : {A : Type ℓ} → (A → A → Bool) → A → List A → Option ℕ
index_of eq a [] = none
index_of eq a (x ∷ xs) =
    let later = index_of eq a xs in
    if eq a x then some 0 else elim later [ none ↦ none | some i ↦ some (i + 1) ]

-- push_back unless the vector has more than UINT32_MAX elements; the new element's index.
unfoldable pub push {ℓ} : {A : Type ℓ} → A → List A → Option (ℕ × List A)
push a xs = if ltb (2 ^ 32 - 1) (length xs) then none else some (length xs % 2 ^ 32, xs ++ a ∷ [])

-- The index that the map gives, or that of a new element.
unfoldable pub find_or_push {ℓ} :
    {A : Type ℓ} → (A → A → Bool) → A → List A → List A → Option (ℕ × List A)
unfolding index_of push
find_or_push eq a snapshot xs = elim (index_of eq a snapshot) [
  | some i ↦ some (i, xs)
  | none ↦ push a xs
]

unfoldable pub make_info : ℕ → Bytes → FileStats → FileInfo
make_info index digest stats = record {
  index = index;
  digest = digest;
  fsize = stats.size;
  mtime = stats.mtime;
  ctime = stats.ctime;
}

unfoldable pub with_info : Manifest → List Bytes → Option (ℕ × List FileInfo) → Option ℕ × Manifest
with_info m files none = (none, record m { files = files })
with_info m files (some (i, file_infos)) =
    (some i, record m { files = files; file_infos = file_infos })

unfoldable pub with_file :
    Manifest
    → (Bytes → FileStats)
    → Bytes
    → Bytes
    → Manifest
    → Option (ℕ × List Bytes)
    → Option ℕ × Manifest
unfolding with_info find_or_push make_info
with_file snapshot file_stater path digest m none = (none, m)
with_file snapshot file_stater path digest m (some (index, files)) = with_info m files (
    find_or_push eq_file_info (make_info index digest (file_stater path)) snapshot.file_infos
      m.file_infos)

-- Manifest::get_file_info_index. The maps are `mf_files` and `mf_file_infos`, made of the tables
-- of `snapshot`; the tables that grow are those of `m`.
unfoldable pub get_file_info_index :
    Manifest → (Bytes → FileStats) → Bytes → Bytes → Manifest → Option ℕ × Manifest
unfolding with_file
get_file_info_index snapshot file_stater path digest m =
    with_file snapshot file_stater path digest m (find_or_push eq_bytes path snapshot.files m.files)

-- The loop of add_result over the included files.
unfoldable pub cons_index : ℕ → Option (List ℕ) × Manifest → Option (List ℕ) × Manifest
cons_index index (none, m) = (none, m)
cons_index index (some indexes, m) = (some (index ∷ indexes), m)

unfoldable pub and_then :
    (Manifest → Option (List ℕ) × Manifest) → Option ℕ × Manifest → Option (List ℕ) × Manifest
unfolding cons_index
and_then rest (none, m) = (none, m)
and_then rest (some index, m) = cons_index index (rest m)

unfoldable pub get_indexes :
    Manifest → (Bytes → FileStats) → List (Bytes × Bytes) → Manifest → Option (List ℕ) × Manifest
unfolding get_file_info_index and_then
get_indexes snapshot file_stater [] m = (some [], m)
get_indexes snapshot file_stater ((path, digest) ∷ included_files) m =
    and_then (get_indexes snapshot file_stater included_files)
      (get_file_info_index snapshot file_stater path digest m)

unfoldable pub contains : ResultEntry → List ResultEntry → Bool
contains entry [] = false
contains entry (x ∷ results) = if eq_result_entry x entry then true else contains entry results

unfoldable pub push_result : ResultEntry → Manifest → Manifest × Bool
unfolding contains
push_result entry m =
    if contains entry m.results
    then (m, false)
    else (record m { results = m.results ++ entry ∷ [] }, true)

-- What is done to a manifest with too many entries.
unfoldable pub discard_if_large : Manifest → Manifest
discard_if_large m =
    if ltb k_max_manifest_entries (length m.results)
    then empty
    else if ltb k_max_manifest_file_info_entries (length m.file_infos)
    then empty
    else m

unfoldable pub finish : Bytes → Option (List ℕ) × Manifest → Manifest × Bool
unfolding push_result
finish result_key (none, m) = (m, false)
finish result_key (some indexes, m) =
    push_result (record { file_info_indexes = indexes; key = result_key }) m

-- Manifest::add_result
unfoldable pub add_result :
    Bytes → List (Bytes × Bytes) → (Bytes → FileStats) → Manifest → Manifest × Bool
unfolding get_indexes finish discard_if_large
add_result result_key included_files stat_file_function m =
    let start = discard_if_large m in
    finish result_key (get_indexes start stat_file_function included_files start)

-- What the tables say of the file of one index; `none` is an index past a table's end.
abbrev pub Description : Type 0
Description = Bytes × Bytes × FileStats

unfoldable pub describe : FileInfo → Option Bytes → Option Description
describe info none = none
describe info (some path) =
    some (path, info.digest, record { size = info.fsize; mtime = info.mtime; ctime = info.ctime })

unfoldable pub describe_at : List Bytes → Option FileInfo → Option Description
unfolding describe
describe_at files none = none
describe_at files (some info) = describe info (get_elem? files info.index)

unfoldable pub described_file : Manifest → ℕ → Option Description
unfolding describe_at
described_file m i = describe_at m.files (get_elem? m.file_infos i)
