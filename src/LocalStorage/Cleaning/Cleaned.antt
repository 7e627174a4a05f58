-- ===== src/LocalStorage/Cleaning/Cleaned.antt =====
-- About the outcome of the cleanup of a cache directory (src/storage/local/LocalStorage.cpp).
use ccache.Prelude.{
  ℕ, ◌^◌, ◌≤◌, ◌<◌, ◌≡◌, ◌⊎◌, ap, ap₂, ◌∙◌, true, false, inr, and_true, Bytes, List, [], ◌∷◌, ◌++◌,
  none, length, take, drop, leb, ◌==◌, ◌||◌, arith, All, map,
}
use mathlib.Core.List.{Perm}
use ccache.LocalStorage.Subdirs.{Level2Counters}
use ccache.LocalStorage.Subdirs.Sums.{total}
use ccache.LocalStorage.Cleaning.{
  DirEntry, Host, Limits, scanned, sort_by_mtime, is_enough, CleanDirResult, counters_of, clean_dir,
}
use ccache.LocalStorage.Cleaning.Sorted.{
  IsSorted, sort_by_mtime-Perm, All-sort_by_mtime, sort_by_mtime_lem, All-take-drop,
  length-sort_by_mtime, total-sort_by_mtime,
}
use ccache.LocalStorage.Cleaning.Evicted.{
  IsPlain, sizes, stops, Counts, Scans, start, scan_files-Scans, evict_files-Removes,
}

-- A directory whose files are plain and whose size fits 64 bits.
pub record IsOrdinary (host : Host) (files : List DirEntry) : Type 0 where
  pub plain : All (IsPlain host) files
  pub size_fits : sizes files < 2 ^ 64
  pub count_fits : length files < 2 ^ 64

-- What the cleanup leaves after the first `k` of the files are removed, in an order that has each
-- of them and in which none is older than one before it: it had to remove each of the `k`, and may
-- stop there.
pub record Evicts (host : Host) (limits : Limits) (files : List DirEntry) (result : CleanDirResult)
    (k : ℕ) : Type 0 where
  pub order : List DirEntry
  pub same_files : Perm order files
  pub oldest_first : IsSorted order
  pub before : result.before ≡ record { files = length files; size = sizes files }
  pub removed : result.removed ≡ map (λ f. f.path) (take k order)
  pub after : result.after ≡ record { files = length (drop k order); size = sizes (drop k order) }
  pub enough : stops host limits (drop k order) ≡ true
  pub needed : (j : ℕ) → j < k → stops host limits (drop j order) ≡ false

-- Zero stands for no limit.
unfoldable pub IsWithin : ℕ → ℕ → Type 0
IsWithin limit n = (limit ≡ 0) ⊎ (n ≤ limit)

is_within : (limit n : ℕ) → ((limit == 0) || leb n limit) ≡ true → IsWithin limit n
unfolding IsWithin
is_within limit n h = ground arith

zero-IsWithin : (limit : ℕ) → IsWithin limit 0
unfolding IsWithin
zero-IsWithin limit = inr (omega arith)

module _ (host : Host) (limits : Limits) (no_namespace : limits.namespace_ ≡ none)
    (files : List DirEntry) (ordinary : IsOrdinary host files) where
  after_scan :
      Scans host limits no_namespace files
        (start host limits no_namespace)
        (scanned host limits.namespace_ files)
  unfolding scanned
  after_scan =
      scan_files-Scans host limits no_namespace files (start host limits no_namespace)
        ordinary.plain (omega (arith, ordinary.size_fits)) (omega (arith, ordinary.count_fits))

  counted : Counts (sort_by_mtime files) (scanned host limits.namespace_ files)
  unfolding sizes
  counted =
      let t = after_scan in
      let e = total-sort_by_mtime (λ f. f.size_on_disk) files in
      let l = length-sort_by_mtime files in
      record {
        size = omega (arith, t.size, e);
        count = omega (arith, t.count, l);
        size_fits = omega (arith, e, ordinary.size_fits);
        count_fits = omega (arith, l, ordinary.count_fits);
      }

  -- What is left is the end of the sorted files.
  pub clean_dir_leaves :
      (k : ℕ) × ((clean_dir host limits files).after ≡ record {
        files = length (drop k (sort_by_mtime files));
        size = sizes (drop k (sort_by_mtime files));
      })
  unfolding clean_dir counters_of
  clean_dir_leaves =
      let (k, r) =
        evict_files-Removes host limits no_namespace (sort_by_mtime files)
          (scanned host limits.namespace_ files)
          (All-sort_by_mtime (IsPlain host) files ordinary.plain) counted in
      (k, ap₂ (λ (n m : ℕ). record { files = n; size = m }) r.count r.size)

  -- Without a namespace, for a directory of regular files that can be removed, none of them an
  -- old temporary file, whose size fits 64 bits: there is an order that has each of the files,
  -- in which none is older than one before it, such that clean_dir counts all files first,
  -- removes a number of the files that are first in the order, and no others, ends with the
  -- number and the size of those that are left, may stop by its own test there, and could not
  -- have stopped before.
  pub clean_dir-Evicts : (k : ℕ) × Evicts host limits files (clean_dir host limits files) k
  unfolding clean_dir counters_of sizes
  clean_dir-Evicts =
      let (k, r) =
        evict_files-Removes host limits no_namespace (sort_by_mtime files)
          (scanned host limits.namespace_ files)
          (All-sort_by_mtime (IsPlain host) files ordinary.plain) counted in
      (
        k,
        record {
          order = sort_by_mtime files;
          same_files = sort_by_mtime-Perm files;
          oldest_first = (sort_by_mtime_lem files).0;
          before =
              ap₂ (λ (n m : ℕ). record { files = n; size = m })
                (counted.count ∙ length-sort_by_mtime files)
                (counted.size ∙ total-sort_by_mtime (λ f. f.size_on_disk) files);
          removed =
              r.removed
              ∙ ap (λ (p : List Bytes). p ++ map (λ f. f.path) (take k (sort_by_mtime files)))
                  after_scan.removed;
          after = ap₂ (λ (n m : ℕ). record { files = n; size = m }) r.count r.size;
          enough = r.enough;
          needed = r.needed;
        },
      )

  -- Without a namespace, for a directory of regular files that can be removed, none of them an
  -- old temporary file, whose size fits 64 bits: no file that clean_dir removes is newer than
  -- one that is left.
  clean_dir_oldest_first :
      (k : ℕ) × (order : List DirEntry) × ((clean_dir host limits files).removed
        ≡ map (λ f. f.path) (take k order))
      × ((clean_dir host limits files).after.files ≡ length (drop k order))
      × All (λ f. All (λ g. f.mtime ≤ g.mtime) (drop k order)) (take k order)
  clean_dir_oldest_first =
      let (k, e) = clean_dir-Evicts in
      (
        k,
        e.order,
        e.removed,
        ap (λ (c : Level2Counters). c.files) e.after,
        All-take-drop k e.order e.oldest_first,
      )

  within :
      (rest : List DirEntry)
      → stops host limits rest ≡ true
      → IsWithin limits.max_size (sizes rest) × IsWithin limits.max_files (length rest)
  unfolding stops is_enough sizes total
  within [] h = (zero-IsWithin limits.max_size, zero-IsWithin limits.max_files)
  within (file ∷ rest) h =
      let (size, more) = and_true _ _ h in
      let (count, more) = and_true _ _ more in
      (is_within limits.max_size _ size, is_within limits.max_files _ count)

  -- Without a namespace, for a directory of regular files that can be removed, none of them an
  -- old temporary file, whose size fits 64 bits: the size and the number that clean_dir ends
  -- with are within the limits, those that are not 0, whatever the maximum age.
  pub clean_dir-IsWithin :
      IsWithin limits.max_size (clean_dir host limits files).after.size
      × IsWithin limits.max_files (clean_dir host limits files).after.files
  clean_dir-IsWithin =
      let (k, e) = clean_dir-Evicts in rw e.after (within (drop k e.order) e.enough)
