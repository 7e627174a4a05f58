-- ===== src/Manifest/Update/Recorded.antt =====
-- About the entry that add_result makes (src/core/Manifest.cpp).
use ccache.Prelude.{
  ℕ, suc, ◌+◌, ◌^◌, ◌≤◌, ◌≡◌, refl, ap, ◌∙◌, Bool, true, Bool-cases, inl, inr, Bytes, List, [], ◌∷◌,
  length, eq_bytes→eq, Option, some, get_elem?, map, arith,
}
use ccache.Manifest.Types.{FileStats, ResultEntry, Manifest, eq_result_entry}
use ccache.Manifest.Update.{
  describe_at, Description, get_indexes, contains, push_result, discard_if_large, finish,
  add_result, described_file, k_max_manifest_entries, k_max_manifest_file_info_entries,
}
use ccache.Manifest.Update.Tables.{get_elem?-last}
use ccache.Manifest.Update.Added.{Extends-refl, LeadTo, get_indexes_lem}

eq_result_entry→eq : (a b : ResultEntry) → eq_result_entry a b ≡ true → a ≡ b
unfolding eq_result_entry
eq_result_entry→eq a b h =
    ground (arith, eq_bytes→eq a.file_info_indexes b.file_info_indexes, eq_bytes→eq a.key b.key)

contains_lem :
    (entry : ResultEntry) (results : List ResultEntry)
    → contains entry results ≡ true
    → (k : ℕ) × (get_elem? results k ≡ some entry)
unfolding contains
contains_lem entry [] h = absurd (cc h)
contains_lem entry (x ∷ results) h = elim (Bool-cases (eq_result_entry x entry)) [
  | inl same ↦ (0, ap (λ (t : ResultEntry). some t) (eq_result_entry→eq x entry same))
  | inr other ↦ let (k, p) = contains_lem entry results (rw other at h) in (suc k, p)
]

-- Whether it was there or is added, the entry is in the manifest afterwards.
push_result_lem :
    (entry : ResultEntry) (m : Manifest)
    → (k : ℕ) × (get_elem? (push_result entry m).0.results k ≡ some entry)
      × ((push_result entry m).0.files ≡ m.files)
      × ((push_result entry m).0.file_infos ≡ m.file_infos)
unfolding push_result
push_result_lem entry m = elim (Bool-cases (contains entry m.results)) [
  | inl old ↦ let (k, p) = contains_lem entry m.results old in (k, rw old p, rw old, rw old)
  | inr new ↦ (length m.results, rw new (get_elem?-last m.results entry), rw new, rw new)
]

described_same :
    (m m' : Manifest)
    → m'.files ≡ m.files
    → m'.file_infos ≡ m.file_infos
    → described_file m' ≡ described_file m
unfolding described_file
described_same m m' p q = λ t i. describe_at (p t) (get_elem? (q t) i)

discard_bounds :
    (m : Manifest)
    → (length (discard_if_large m).files ≤ length m.files)
      × (length (discard_if_large m).file_infos ≤ k_max_manifest_file_info_entries)
      × (length (discard_if_large m).results ≤ k_max_manifest_entries)
unfolding discard_if_large
discard_bounds m = ground arith

-- While the tables have room for 32-bit indexes, a manifest after add_result has an entry with
-- the key that is given, and the entry's indexes lead, file by file, to the included files with
-- their digests and file statistics.
pub add_result_lem :
    (key : Bytes) (included : List (Bytes × Bytes)) (stater : Bytes → FileStats) (m : Manifest)
    → length m.files + length included ≤ 2 ^ 32
    → k_max_manifest_file_info_entries + length included ≤ 2 ^ 32
    → (k : ℕ) × (entry : ResultEntry) × (get_elem? (add_result key included stater m).0.results k
        ≡ some entry)
      × (entry.key ≡ key)
      × LeadTo (add_result key included stater m).0 entry.file_info_indexes stater included
unfolding add_result
add_result_lem key included stater m hf hi =
    let start = discard_if_large m in
    let (small_files, small_infos, small_results) = discard_bounds m in
    let (indexes, m', p, lead, grown) =
      get_indexes_lem start stater included start (Extends-refl start) (omega arith)
        (omega arith) in
    let entry : ResultEntry = record { file_info_indexes = indexes; key = key } in
    let (k, there, files, infos) = push_result_lem entry m' in
    let e : finish key (get_indexes start stater included start) ≡ push_result entry m' =
      ap (finish key) p ∙ (unfold finish in refl) in
    (
      k,
      entry,
      ap (λ (r : Manifest × Bool). get_elem? r.0.results k) e ∙ there,
      refl,
      ap (λ (d : ℕ → Option Description). map d indexes)
            (ap (λ (r : Manifest × Bool). described_file r.0) e
              ∙ described_same m' (push_result entry m').0 files infos)
          ∙ lead,
    )
