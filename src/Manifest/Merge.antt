-- ===== src/Manifest/Merge.antt =====
-- Manifest::read (src/core/Manifest.cpp): the tables that are read replace an empty manifest, and
-- are merged into any other result by result.
use ccache.Prelude.{
  ℕ, ◌≡◌, sym, ◌∙◌, ap, Bytes, List, [], ◌∷◌, append-nil, Option, none, some, eq_bytes,
  if◌then◌else◌,
}
use ccache.Fallible.{Result, ok, err, out_of_bounds, ◌>>=◌}
use ccache.Manifest.Types.{FileStats, ResultEntry, Manifest, empty}
use ccache.Manifest.Format.{read_tables, serialize}
use ccache.Manifest.Format.RoundTrip.{IsStorable, read_tables-serialize}
use ccache.Manifest.Update.{Description, described_file, add_result}

-- unordered_map::emplace: a key that is there keeps its value.
unfoldable pub emplace : Description → List Description → List Description
emplace d [] = d ∷ []
emplace d (e ∷ entries) = if eq_bytes e.0 d.0 then e ∷ entries else e ∷ emplace d entries

unfoldable pub emplace_at : List Description → Option Description → Result (List Description)
unfolding emplace
emplace_at entries none = err out_of_bounds
emplace_at entries (some d) = ok (emplace d entries)

-- `included_files` and `included_files_stats`, which have the same keys, as one map.
unfoldable pub collect : Manifest → List ℕ → List Description → Result (List Description)
unfolding emplace_at
collect tables [] entries = ok entries
collect tables (index ∷ indexes) entries = do
  entries ← emplace_at entries (described_file tables index)
  collect tables indexes entries

-- included_files_stats[path]; every path that is asked for is there.
unfoldable pub stats_of : List Description → Bytes → FileStats
stats_of [] path = record { size = 0; mtime = 0; ctime = 0 }
stats_of (d ∷ entries) path = if eq_bytes d.0 path then d.2 else stats_of entries path

abbrev pub digests : List Description → List (Bytes × Bytes)
digests [] = []
digests (d ∷ entries) = (d.0, d.1) ∷ digests entries

-- An unordered_map's entries come in some order, which `iterate` gives.
unfoldable pub merge :
    (List (Bytes × Bytes) → List (Bytes × Bytes))
    → Manifest
    → List ResultEntry
    → Manifest
    → Result Manifest
unfolding collect stats_of
merge iterate tables [] m = ok m
merge iterate tables (result ∷ results) m = do
  entries ← collect tables result.file_info_indexes []
  merge iterate tables results
      (add_result result.key (iterate (digests entries)) (stats_of entries) m).0

unfoldable pub adopt :
    (List (Bytes × Bytes) → List (Bytes × Bytes)) → Manifest → Manifest → Result Manifest
unfolding merge
adopt iterate tables m = elim m.results [
  | [] ↦ ok tables
  | _ ∷ _ ↦ merge iterate tables tables.results m
]

unfoldable pub read :
    (List (Bytes × Bytes) → List (Bytes × Bytes)) → Bytes → Manifest → Result Manifest
unfolding adopt
read iterate input m = do parsed ← read_tables input; adopt iterate parsed.0 m

-- A manifest whose numbers and names fit the format is read back from its serialized form into
-- an empty manifest as it was.
pub read-serialize :
    (iterate : List (Bytes × Bytes) → List (Bytes × Bytes)) (m : Manifest)
    → IsStorable m
    → read iterate (serialize m []) empty ≡ ok m
unfolding read adopt
read-serialize iterate m s =
    ap (λ r. r >>= λ parsed. adopt iterate parsed.0 empty)
      (ap read_tables (sym (append-nil (serialize m []))) ∙ read_tables-serialize m [] s)
