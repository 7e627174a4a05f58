-- ===== src/LocalStorage/CleanAll/Exact.antt =====
-- About the counters of a level 1 directory after its cleanup
-- (src/storage/local/LocalStorage.cpp).
use ccache.Prelude.{
  ℕ, zero, suc, ◌%◌, ◌^◌, ◌≤◌, ◌<◌, ◌≡◌, refl, sym, ap, ◌∙◌, true, List, [], ◌∷◌, ◌++◌,
  append_assoc, append-nil, none, length, length-drop, drop, arith, All, map,
}
use ccache.LocalStorage.Subdirs.{
  Level2Counters, Level1Counters, subdir_count, set_counters, has_consistent_counters,
}
use ccache.LocalStorage.Subdirs.Sums.{total}
use ccache.LocalStorage.Subdirs.Consistent.{
  Agrees-consistent, IsExact, HasRoom, set_counters-Agrees,
}
use ccache.LocalStorage.Cleaning.{DirEntry, Host, Limits, clean_dir, sort_by_mtime}
use ccache.LocalStorage.Cleaning.Sorted.{
  All-sort_by_mtime, length-sort_by_mtime, total-sort_by_mtime,
}
use ccache.LocalStorage.Cleaning.Evicted.{sizes}
use ccache.LocalStorage.Cleaning.Cleaned.{IsOrdinary, clean_dir_leaves}
use ccache.LocalStorage.CleanAll.{
  Level2Dir, Level1Dir, CleanAllState, level_2_limits, note_result, clean_subdir, clean_subdirs,
  clean_level_1_dir, cleaned_level_1_dir,
}

-- Plain files whose sizes on disk are multiples of a kibibyte.
pub record IsFine (host : Host) (dir : Level2Dir) : Type 0 where
  pub ordinary : IsOrdinary host dir.files
  pub whole : All (λ f. f.size_on_disk % 1024 ≡ 0) dir.files

sizes-drop_whole :
    (k : ℕ) (files : List DirEntry)
    → All (λ f. f.size_on_disk % 1024 ≡ 0) files
    → sizes (drop k files) % 1024 ≡ 0
unfolding sizes total
sizes-drop_whole zero [] h = refl
sizes-drop_whole zero (f ∷ files) (p, h) = omega (arith, sizes-drop_whole zero files h, p)
sizes-drop_whole (suc k) [] h = refl
sizes-drop_whole (suc k) (f ∷ files) (p, h) = sizes-drop_whole k files h

sizes-drop : (k : ℕ) (files : List DirEntry) → sizes (drop k files) ≤ sizes files
unfolding sizes total
sizes-drop zero files = omega arith
sizes-drop (suc k) [] = omega arith
sizes-drop (suc k) (f ∷ files) = omega (arith, sizes-drop k files)

-- Counters that are exact and count no more than was there.
record Fits (dirs : List Level2Dir) (news : List Level2Counters) : Type 0 where
  count : length news ≡ length dirs
  whole : All (λ c. c.size % 1024 ≡ 0) news
  files : total (map (λ c. c.files) news) ≤ total (map (λ d. length d.files) dirs)
  size : total (map (λ c. c.size) news) ≤ total (map (λ d. sizes d.files) dirs)

Fits-none : Fits [] []
unfolding total
Fits-none = record { count = refl; whole = tt; files = omega arith; size = omega arith }

-- The counters of one subdirectory.
record IsLeft (dir : Level2Dir) (c : Level2Counters) : Type 0 where
  whole : c.size % 1024 ≡ 0
  files : c.files ≤ length dir.files
  size : c.size ≤ sizes dir.files

Fits-more :
    (dir : Level2Dir) (c : Level2Counters) (dirs : List Level2Dir) (news : List Level2Counters)
    → IsLeft dir c
    → Fits dirs news
    → Fits (dir ∷ dirs) (c ∷ news)
unfolding total
Fits-more dir c dirs news left fits = record {
  count = ap suc fits.count;
  whole = (left.whole, fits.whole);
  files = omega (arith, left.files, fits.files);
  size = omega (arith, left.size, fits.size);
}

Fits-IsExact :
    (l1 : Level1Counters) (dirs : List Level2Dir) (news : List Level2Counters)
    → l1.level_2_counters ≡ news
    → Fits dirs news
    → length dirs ≡ subdir_count
    → total (map (λ d. length d.files) dirs) < 2 ^ 63
    → total (map (λ d. sizes d.files) dirs) < 2 ^ 63
    → IsExact l1
Fits-IsExact l1 dirs news e fits count files size = record {
  count = rw e (fits.count ∙ count);
  sizes = rw e fits.whole;
  files_fit = rw e (omega (arith, fits.files));
  sizes_fit = rw e (omega (arith, fits.size));
}

sizes-sort_by_mtime : (files : List DirEntry) → sizes (sort_by_mtime files) ≡ sizes files
unfolding sizes
sizes-sort_by_mtime files = total-sort_by_mtime (λ f. f.size_on_disk) files

module _ (host : Host) (limits : Limits) (no_namespace : limits.namespace_ ≡ none) where
  clean_subdir-IsLeft :
      (dir : Level2Dir) (s : CleanAllState)
      → IsFine host dir
      → IsLeft dir (clean_dir host (level_2_limits limits s) dir.files).after
  unfolding level_2_limits
  clean_subdir-IsLeft dir s fine =
      let (k, e) =
        clean_dir_leaves host (level_2_limits limits s) no_namespace dir.files fine.ordinary in
      let sorted = sort_by_mtime dir.files in
      rw e record {
        whole =
            sizes-drop_whole k sorted
              (All-sort_by_mtime (λ f. f.size_on_disk % 1024 ≡ 0) dir.files fine.whole);
        files = omega (arith, length-drop k sorted, length-sort_by_mtime dir.files);
        size = omega (arith, sizes-drop k sorted, sizes-sort_by_mtime dir.files);
      }

  clean_subdirs-Fits :
      (dirs : List Level2Dir) (s : CleanAllState)
      → All (IsFine host) dirs
      → (news : List Level2Counters) × ((clean_subdirs host limits dirs
            s).level_1_counters.level_2_counters
          ≡ s.level_1_counters.level_2_counters ++ news)
        × Fits dirs news
  unfolding clean_subdirs clean_subdir note_result
  clean_subdirs-Fits [] s h = ([], sym (append-nil _), Fits-none)
  clean_subdirs-Fits (dir ∷ dirs) s (fine, h) =
      let left = clean_subdir-IsLeft dir s fine in
      let c = (clean_dir host (level_2_limits limits s) dir.files).after in
      let (news, e, fits) = clean_subdirs-Fits dirs (clean_subdir host limits dir s) h in
      (
        c ∷ news,
        e ∙ append_assoc s.level_1_counters.level_2_counters (c ∷ []) news,
        Fits-more dir c dirs news left fits,
      )

  -- Without a namespace, a level 1 directory of sixteen subdirectories with regular files that
  -- can be removed, none of them an old temporary file, whose sizes on disk are multiples of a
  -- kibibyte and add up to less than 2 ^ 63: when do_clean_all has processed the directory,
  -- whatever the limits, its counters are the sums of those of its subdirectories. The vector of
  -- counters has room for all statistics, and the number of cleanups is less than 2 ^ 63.
  pub has_consistent_counters-cleaned_level_1_dir :
      (current_size current_files : ℕ) (dir : Level1Dir)
      → length dir.subdirs ≡ subdir_count
      → All (IsFine host) dir.subdirs
      → total (map (λ d. length d.files) dir.subdirs) < 2 ^ 63
      → total (map (λ d. sizes d.files) dir.subdirs) < 2 ^ 63
      → HasRoom dir.stats_file
      → has_consistent_counters
          (cleaned_level_1_dir
            (clean_level_1_dir host limits current_size current_files dir)
            dir.stats_file).stats_file
        ≡ true
  unfolding cleaned_level_1_dir clean_level_1_dir
  has_consistent_counters-cleaned_level_1_dir current_size current_files dir count fine files size
        room =
      let s = clean_level_1_dir host limits current_size current_files dir in
      let (news, e, fits) = clean_subdirs-Fits dir.subdirs _ fine in
      Agrees-consistent (set_counters s.level_1_counters dir.stats_file) (
        set_counters-Agrees s.level_1_counters
          (Fits-IsExact s.level_1_counters dir.subdirs news e fits count files size) dir.stats_file
          room)
