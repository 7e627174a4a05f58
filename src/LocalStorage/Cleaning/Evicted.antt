-- ===== src/LocalStorage/Cleaning/Evicted.antt =====
-- About the files that the cleanup of a cache directory removes
-- (src/storage/local/LocalStorage.cpp).
use ccache.Prelude.{
  ℕ, zero, suc, ◌+◌, ◌-◌, ◌%◌, ◌^◌, ◌≤◌, ◌<◌, ◌≡◌, refl, sym, ◌∙◌, Bool, true, false, Bool-cases,
  inl, inr, Bytes, List, [], ◌∷◌, ◌++◌, none, length, take, drop, if◌then◌else◌, arith, All, map,
  append_assoc, append-nil,
}
use ccache.LocalStorage.Subdirs.Sums.{total}
use ccache.LocalStorage.Cleaning.{
  regular, DirEntry, is_regular_file, is_directory, is_there, Host, Limits, CleanState, delete_file,
  is_old_tmp_file, note_raw_file, count_file, scan_file, scan_files, is_enough, evict_file,
  evict_files,
}

-- A regular file that is no left-over temporary file and that can be removed.
pub record IsPlain (host : Host) (file : DirEntry) : Type 0 where
  pub kind : file.kind ≡ regular
  pub kept : is_old_tmp_file host file ≡ false
  pub goes : host.removes file.path ≡ true

unfoldable pub sizes : List DirEntry → ℕ
sizes files = total (map (λ f. f.size_on_disk) files)

-- Whether the cleanup may stop where these files are left, the oldest first.
unfoldable pub stops : Host → Limits → List DirEntry → Bool
stops host limits [] = true
stops host limits (file ∷ files) =
    is_enough host limits file (sizes (file ∷ files)) (length (file ∷ files))

-- The first `k` files are removed, and no fewer would do.
pub record Removes (host : Host) (limits : Limits) (files : List DirEntry) (before : List Bytes)
    (after : CleanState) (k : ℕ) : Type 0 where
  pub removed : after.removed ≡ before ++ map (λ f. f.path) (take k files)
  pub size : after.cache_size ≡ sizes (drop k files)
  pub count : after.files_in_cache ≡ length (drop k files)
  pub inside : k ≤ length files
  pub enough : stops host limits (drop k files) ≡ true
  pub needed : (j : ℕ) → j < k → stops host limits (drop j files) ≡ false

-- The counters are those of the files.
pub record Counts (files : List DirEntry) (s : CleanState) : Type 0 where
  pub size : s.cache_size ≡ sizes files
  pub count : s.files_in_cache ≡ length files
  pub size_fits : sizes files < 2 ^ 64
  pub count_fits : length files < 2 ^ 64

pub is_there_lem : (file : DirEntry) → file.kind ≡ regular → is_there file ≡ true
unfolding is_there
is_there_lem file h = rw h refl

pub is_directory_lem : (file : DirEntry) → file.kind ≡ regular → is_directory file ≡ false
unfolding is_directory
is_directory_lem file h = rw h refl

pub is_regular_file_lem : (file : DirEntry) → file.kind ≡ regular → is_regular_file file ≡ true
unfolding is_regular_file
is_regular_file_lem file h = rw h refl

module _ (host : Host) (limits : Limits) (no_namespace : limits.namespace_ ≡ none) where
  -- The state when the file is removed.
  abbrev without : DirEntry → CleanState → CleanState
  without file s = record {
    cache_size = (s.cache_size + 2 ^ 64 - file.size_on_disk) % 2 ^ 64;
    files_in_cache = (s.files_in_cache + 2 ^ 64 - 1) % 2 ^ 64;
    raw_files_map = s.raw_files_map;
    removed = s.removed ++ (file.path ∷ []);
  }

  evict_file-without :
      (file : DirEntry) (s : CleanState)
      → IsPlain host file
      → evict_file host limits.namespace_ file s ≡ without file s
  unfolding evict_file delete_file
  evict_file-without file s p = rw (no_namespace, p.goes) refl

  evict_files-step :
      (file : DirEntry) (files : List DirEntry) (s : CleanState)
      → IsPlain host file
      → Counts (file ∷ files) s
      → evict_files host limits (file ∷ files) s ≡ (
          if stops host limits (file ∷ files)
          then s
          else evict_files host limits files (without file s))
  unfolding evict_files is_there is_directory stops
  evict_files-step file files s p c =
      rw
        (
          is_there_lem file p.kind,
          is_directory_lem file p.kind,
          evict_file-without file s p,
          c.size,
          c.count,
        )
        refl

  Counts-without :
      (file : DirEntry) (files : List DirEntry) (s : CleanState)
      → Counts (file ∷ files) s
      → Counts files (without file s)
  unfolding sizes total
  Counts-without file files s c = record {
    size = omega (arith, c.size, c.size_fits);
    count = omega (arith, c.count, c.count_fits);
    size_fits = omega (arith, c.size_fits);
    count_fits = omega (arith, c.count_fits);
  }

  Removes-more :
      (file : DirEntry) (files : List DirEntry) (s after : CleanState) (k : ℕ)
      → stops host limits (file ∷ files) ≡ false
      → Removes host limits files (without file s).removed after k
      → Removes host limits (file ∷ files) s.removed after (suc k)
  Removes-more file files s after k e r = record {
    removed = r.removed ∙ append_assoc s.removed (file.path ∷ []) _;
    size = r.size;
    count = r.count;
    inside = omega (arith, r.inside);
    enough = r.enough;
    needed = needed e r.needed;
  }
    where
      needed :
          stops host limits (file ∷ files) ≡ false
          → ((j : ℕ) → j < k → stops host limits (drop j files) ≡ false)
          → (j : ℕ) → j < suc k
          → stops host limits (drop j (file ∷ files)) ≡ false
      needed e h zero p = e
      needed e h (suc j) p = h j (omega arith)

  Removes-none :
      (files : List DirEntry) (s : CleanState)
      → Counts files s
      → stops host limits files ≡ true
      → Removes host limits files s.removed s 0
  Removes-none files s c e = record {
    removed = sym (append-nil s.removed);
    size = c.size;
    count = c.count;
    inside = omega arith;
    enough = e;
    needed = λ j p. absurd (omega arith);
  }

  pub evict_files-Removes :
      (files : List DirEntry) (s : CleanState)
      → All (IsPlain host) files
      → Counts files s
      → (k : ℕ) × Removes host limits files s.removed (evict_files host limits files s) k
  unfolding evict_files stops
  evict_files-Removes [] s h c = (0, Removes-none [] s c refl)
  evict_files-Removes (file ∷ files) s (p, h) c =
      elim (Bool-cases (stops host limits (file ∷ files))) [
        | inl e ↦ (0, rw (evict_files-step file files s p c, e) (Removes-none (file ∷ files) s c e))
        | inr e ↦
            let (k, r) =
              evict_files-Removes files (without file s) h (Counts-without file files s c) in
            (suc k, rw (evict_files-step file files s p c, e) (Removes-more file files s _ k e r))
      ]

  -- The first pass counts the files.
  abbrev with : DirEntry → CleanState → CleanState
  with file s = record {
    cache_size = (s.cache_size + file.size_on_disk) % 2 ^ 64;
    files_in_cache = (s.files_in_cache + 1) % 2 ^ 64;
    raw_files_map = s.raw_files_map;
    removed = s.removed;
  }

  scan_file-with :
      (file : DirEntry) (s : CleanState)
      → IsPlain host file
      → scan_file host limits.namespace_ file s ≡ with file s
  unfolding scan_file count_file note_raw_file
  scan_file-with file s p = rw (no_namespace, is_regular_file_lem file p.kind, p.kept) refl

  abbrev pub start : CleanState
  start = record { cache_size = 0; files_in_cache = 0; raw_files_map = []; removed = [] }

  -- The counters of what is still to be scanned are added to those of `s`.
  pub record Scans (files : List DirEntry) (s t : CleanState) : Type 0 where
    pub size : t.cache_size ≡ s.cache_size + sizes files
    pub count : t.files_in_cache ≡ s.files_in_cache + length files
    pub removed : t.removed ≡ s.removed

  pub scan_files-Scans :
      (files : List DirEntry) (s : CleanState)
      → All (IsPlain host) files
      → s.cache_size + sizes files < 2 ^ 64
      → s.files_in_cache + length files < 2 ^ 64
      → Scans files s (scan_files host limits.namespace_ files s)
  unfolding scan_files sizes total
  scan_files-Scans [] s h p q = record { size = omega arith; count = omega arith; removed = refl }
  scan_files-Scans (file ∷ files) s (plain, h) p q =
      let t : Scans files (with file s) (scan_files host limits.namespace_ files (with file s)) =
        scan_files-Scans files (with file s) h (omega arith) (omega arith) in
      rw (scan_file-with file s plain)
        record { size = omega (arith, t.size); count = omega (arith, t.count); removed = t.removed }
