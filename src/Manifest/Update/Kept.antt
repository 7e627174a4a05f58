-- ===== src/Manifest/Update/Kept.antt =====
-- About the entries that a manifest has before add_result (src/core/Manifest.cpp).
use mathlib.Core.Path.{subst}
use ccache.Prelude.{
  ℕ, ◌+◌, ◌≤◌, ◌≡◌, refl, sym, ap, ◌∙◌, Bool-cases, inl, inr, Bytes, List, [], ◌∷◌, ◌++◌,
  append-nil, length, length-append, eq_bytes, Option, none, some, get_elem?, arith, le→not_ltb,
}
use ccache.Manifest.Types.{FileStats, FileInfo, ResultEntry, Manifest, eq_file_info}
use ccache.Manifest.Update.{
  with_info, with_file, and_then, cons_index, get_file_info_index, Description, get_indexes,
  contains, push_result, discard_if_large, finish, add_result, described_file,
  k_max_manifest_entries, k_max_manifest_file_info_entries,
}
use ccache.Manifest.Update.Tables.{get_elem?-append, find_or_push_more}
use ccache.Manifest.Update.Added.{Extends, Extends-refl, Extends-trans, described_file-Extends}

small_results : (m : Manifest) → length (discard_if_large m).results ≤ k_max_manifest_entries
unfolding discard_if_large
small_results m = ground arith

kept :
    (m : Manifest)
    → length m.results ≤ k_max_manifest_entries
    → length m.file_infos ≤ k_max_manifest_file_info_entries
    → discard_if_large m ≡ m
unfolding discard_if_large
kept m hr hi = rw (le→not_ltb _ _ hr, le→not_ltb _ _ hi)

manifest-cons_index : (i : ℕ) (r : Option (List ℕ) × Manifest) → (cons_index i r).1 ≡ r.1
unfolding cons_index
manifest-cons_index i (none, m) = refl
manifest-cons_index i (some indexes, m) = refl

and_then-Extends :
    (m : Manifest) (rest : Manifest → Option (List ℕ) × Manifest) (r : Option ℕ × Manifest)
    → Extends m r.1
    → ((m' : Manifest) → Extends m' (rest m').1)
    → Extends m (and_then rest r).1
unfolding and_then
and_then-Extends m rest (none, m') e k = e
and_then-Extends m rest (some i, m') e k =
    rw (manifest-cons_index i (rest m')) (Extends-trans e (k m'))

with_info-Extends :
    (m : Manifest) (files more : List Bytes) (found : Option (ℕ × List FileInfo))
    → files ≡ m.files ++ more
    → ((i : ℕ) (infos : List FileInfo)
        → found ≡ some (i, infos)
        → (more : List FileInfo) × (infos ≡ m.file_infos ++ more))
    → Extends m (with_info m files found).1
unfolding with_info
with_info-Extends m files more none e k = record {
  more_files = more;
  files = e;
  more_infos = [];
  file_infos = sym (append-nil m.file_infos);
  results = refl;
}
with_info-Extends m files more (some (i, infos)) e k =
    let (more_infos, e') = k i infos refl in
    record {
      more_files = more;
      files = e;
      more_infos = more_infos;
      file_infos = e';
      results = refl;
    }

with_file-Extends :
    (snapshot : Manifest) (stater : Bytes → FileStats) (path digest : Bytes) (m : Manifest)
    (found : Option (ℕ × List Bytes))
    → ((i : ℕ) (files : List Bytes)
        → found ≡ some (i, files)
        → (more : List Bytes) × (files ≡ m.files ++ more))
    → Extends m (with_file snapshot stater path digest m found).1
unfolding with_file
with_file-Extends snapshot stater path digest m none k = Extends-refl m
with_file-Extends snapshot stater path digest m (some (i, files)) k =
    let (more, e) = k i files refl in
    with_info-Extends m files more _ e (λ j infos found.
      find_or_push_more eq_file_info _ snapshot.file_infos m.file_infos j infos found)

get_indexes-Extends :
    (snapshot : Manifest) (stater : Bytes → FileStats) (included : List (Bytes × Bytes))
    (m : Manifest)
    → Extends m (get_indexes snapshot stater included m).1
unfolding get_indexes get_file_info_index
get_indexes-Extends snapshot stater [] m = Extends-refl m
get_indexes-Extends snapshot stater ((path, digest) ∷ included) m =
    and_then-Extends m (get_indexes snapshot stater included)
      (with_file snapshot stater path digest m _)
      (with_file-Extends snapshot stater path digest m _
        (λ i files found. find_or_push_more eq_bytes path snapshot.files m.files i files found))
      (get_indexes-Extends snapshot stater included)

-- What finishing adds to the results.
record Finished (m m' : Manifest) : Type 0 where
  more : List ResultEntry
  results : m'.results ≡ m.results ++ more
  at_most_one : length more ≤ 1
  same : described_file m' ≡ described_file m

push_result-Finished : (entry : ResultEntry) (m : Manifest) → Finished m (push_result entry m).0
unfolding push_result described_file
push_result-Finished entry m = elim (Bool-cases (contains entry m.results)) [
  | inl old ↦ record {
    more = [];
    results = rw old (sym (append-nil m.results));
    at_most_one = omega arith;
    same = rw old;
  }
  | inr new ↦ record {
    more = entry ∷ [];
    results = rw new;
    at_most_one = omega arith;
    same = rw new;
  }
]

finish-Finished : (key : Bytes) (r : Option (List ℕ) × Manifest) → Finished r.1 (finish key r).0
unfolding finish
finish-Finished key (none, m) = record {
  more = [];
  results = sym (append-nil m.results);
  at_most_one = omega arith;
  same = refl;
}
finish-Finished key (some indexes, m) = push_result-Finished _ m

-- Unless the manifest is so large that all is discarded, each result keeps its place, its key
-- and its indexes when a result is added, and each index that described a file describes it
-- still.
pub add_result_keeps :
    (key : Bytes) (included : List (Bytes × Bytes)) (stater : Bytes → FileStats) (m : Manifest)
    (j i : ℕ) {entry : ResultEntry} {d : Description}
    → length m.results ≤ k_max_manifest_entries
    → length m.file_infos ≤ k_max_manifest_file_info_entries
    → get_elem? m.results j ≡ some entry
    → described_file m i ≡ some d
    → (get_elem? (add_result key included stater m).0.results j ≡ some entry)
      × (described_file (add_result key included stater m).0 i ≡ some d)
unfolding add_result
add_result_keeps key included stater m j i hr hi h described =
    let r = get_indexes (discard_if_large m) stater included (discard_if_large m) in
    let grown : Extends m r.1 =
      subst (λ s. Extends s r.1) (kept m hr hi)
        (get_indexes-Extends (discard_if_large m) stater included (discard_if_large m)) in
    let fin = finish-Finished key r in
    (
      rw (fin.results, grown.results) (get_elem?-append m.results fin.more j h),
      rw fin.same (described_file-Extends m r.1 i grown described),
    )

-- A manifest after add_result has at most one result more than the limit above which results are
-- discarded.
pub add_result_bound :
    (key : Bytes) (included : List (Bytes × Bytes)) (stater : Bytes → FileStats) (m : Manifest)
    → length (add_result key included stater m).0.results ≤ k_max_manifest_entries + 1
unfolding add_result
add_result_bound key included stater m =
    let start = discard_if_large m in
    let grown = get_indexes-Extends start stater included start in
    let fin = finish-Finished key (get_indexes start stater included start) in
    let e : (finish key (get_indexes start stater included start)).0.results
        ≡ start.results ++ fin.more =
      fin.results ∙ ap (λ (rs : List ResultEntry). rs ++ fin.more) grown.results in
    rw e (omega (arith, length-append start.results fin.more, fin.at_most_one, small_results m))
