-- ===== src/LocalStorage/CleanAll/SmallLimits.antt =====
-- About limits that are too small to be divided among the subdirectories
-- (src/storage/local/LocalStorage.cpp).
use ccache.Prelude.{
  ℕ, ◌<◌, ◌≡◌, refl, sym, ap, ap₂, ◌∙◌, Bool-cases, inl, inr, false, List, [], ◌∷◌, ◌++◌,
  append_assoc, append-nil, none, ◌||◌, not, arith, All, map,
}
use ccache.LocalStorage.Cleaning.{
  DirEntry, Host, Limits, CleanState, is_there, is_directory, is_regular_file, is_young, has_value,
  is_enough, is_old_tmp_file, is_removed, count_file, scan_file, scan_files, evict_files,
  sort_by_mtime, scanned, clean_dir,
}
use ccache.LocalStorage.CleanAll.{
  Level2Dir, Level1Dir, CleanAllState, remaining, level_2_max, level_2_limits, note_result,
  clean_subdir, clean_subdirs, clean_level_1_dir, cleaned_level_1_dir, clean_level_1_dirs,
  do_clean_all, clean_all,
}

evict_files-none :
    (host : Host) (files : List DirEntry) (s : CleanState)
    → evict_files host
        (record { max_size = 0; max_files = 0; max_age = none; namespace_ = none })
        files
        s
      ≡ s
unfolding evict_files is_enough is_young has_value
evict_files-none host [] s = refl
evict_files-none host (file ∷ files) s =
    elim (Bool-cases (not (is_there file) || is_directory file)) [
      | inl e ↦ rw e (evict_files-none host files s)
      | inr e ↦ rw e refl
    ]

level_2_max-small : (current max : ℕ) → max < 256 → level_2_max current max ≡ 0
unfolding level_2_max
level_2_max-small current max h = ground arith

-- The files of each subdirectory.
abbrev pub listed : Level1Dir → List (List DirEntry)
listed dir = map (λ (d : Level2Dir). d.files) dir.subdirs

-- No file is an old temporary file.
abbrev pub IsTidy : Host → Level2Dir → Type 0
IsTidy host dir = All (λ (f : DirEntry). is_old_tmp_file host f ≡ false) dir.files

scan_file-removed :
    (host : Host) (file : DirEntry) (s : CleanState)
    → is_old_tmp_file host file ≡ false
    → (scan_file host none file s).removed ≡ s.removed
unfolding scan_file count_file
scan_file-removed host file s h = elim (Bool-cases (not (is_regular_file file))) [
  | inl e ↦ rw e refl
  | inr e ↦ rw (e, h) refl
]

scan_files-removed :
    (host : Host) (files : List DirEntry) (s : CleanState)
    → All (λ (f : DirEntry). is_old_tmp_file host f ≡ false) files
    → (scan_files host none files s).removed ≡ s.removed
unfolding scan_files
scan_files-removed host [] s h = refl
scan_files-removed host (file ∷ files) s (p, h) =
    scan_files-removed host files (scan_file host none file s) h ∙ scan_file-removed host file s p

remaining-none : (files : List DirEntry) → remaining [] files ≡ files
unfolding remaining is_removed
remaining-none [] = refl
remaining-none (file ∷ files) = ap (λ (rest : List DirEntry). file ∷ rest) (remaining-none files)

files-append :
    (dirs : List Level2Dir) (dir : Level2Dir)
    → map (λ (d : Level2Dir). d.files) (dirs ++ (dir ∷ []))
      ≡ map (λ (d : Level2Dir). d.files) dirs ++ (dir.files ∷ [])
files-append [] dir = refl
files-append (d ∷ dirs) dir = ap (λ (t : List (List DirEntry)). d.files ∷ t) (files-append dirs dir)

module _ (host : Host) (max_size max_files : ℕ) (small_size : max_size < 256)
    (small_files : max_files < 256) where
  abbrev limits : Limits
  limits = record { max_size = max_size; max_files = max_files; max_age = none; namespace_ = none }

  clean_dir-removed :
      (dir : Level2Dir) (s : CleanAllState)
      → IsTidy host dir
      → (clean_dir host (level_2_limits limits s) dir.files).removed ≡ []
  unfolding level_2_limits clean_dir scanned
  clean_dir-removed dir s h =
      rw
        (
          level_2_max-small s.current_size max_size small_size,
          level_2_max-small s.current_files max_files small_files,
          evict_files-none host (sort_by_mtime dir.files) (scanned host none dir.files),
        )
        (scan_files-removed host dir.files _ h)

  clean_subdir-files :
      (dir : Level2Dir) (s : CleanAllState)
      → IsTidy host dir
      → map (λ (d : Level2Dir). d.files) (clean_subdir host limits dir s).subdirs
        ≡ map (λ (d : Level2Dir). d.files) s.subdirs ++ (dir.files ∷ [])
  unfolding clean_subdir note_result
  clean_subdir-files dir s h =
      files-append s.subdirs _ ∙ rw (clean_dir-removed dir s h, remaining-none dir.files) refl

  clean_subdirs-files :
      (dirs : List Level2Dir) (s : CleanAllState)
      → All (IsTidy host) dirs
      → map (λ (d : Level2Dir). d.files) (clean_subdirs host limits dirs s).subdirs
        ≡ map (λ (d : Level2Dir). d.files) s.subdirs ++ map (λ (d : Level2Dir). d.files) dirs
  unfolding clean_subdirs
  clean_subdirs-files [] s h = sym (append-nil _)
  clean_subdirs-files (dir ∷ dirs) s (p, h) =
      clean_subdirs-files dirs (clean_subdir host limits dir s) h
      ∙ (ap (λ (t : List (List DirEntry)). t ++ map (λ (d : Level2Dir). d.files) dirs)
            (clean_subdir-files dir s p)
          ∙ append_assoc _ (dir.files ∷ []) (map (λ (d : Level2Dir). d.files) dirs))

  listed-clean_level_1_dirs :
      (size files : ℕ) (dirs : List Level1Dir)
      → All (λ (d : Level1Dir). All (IsTidy host) d.subdirs) dirs
      → map listed (clean_level_1_dirs host limits size files dirs) ≡ map listed dirs
  unfolding clean_level_1_dirs clean_level_1_dir cleaned_level_1_dir
  listed-clean_level_1_dirs size files [] h = refl
  listed-clean_level_1_dirs size files (dir ∷ dirs) (p, h) =
      let s = clean_level_1_dir host limits size files dir in
      ap₂ (λ (a : List (List DirEntry)) (b : List (List (List DirEntry))). a ∷ b)
        (clean_subdirs-files dir.subdirs _ p)
        (listed-clean_level_1_dirs s.current_size s.current_files dirs h)

  -- With limits of less than 256 bytes and less than 256 files, and no old temporary file in the
  -- cache, clean_all removes no file of any subdirectory, however far above the limits the cache
  -- is.
  pub listed-clean_all :
      (dirs : List Level1Dir)
      → All (λ (d : Level1Dir). All (IsTidy host) d.subdirs) dirs
      → map listed (clean_all host max_size max_files dirs) ≡ map listed dirs
  unfolding clean_all do_clean_all
  listed-clean_all dirs h = listed-clean_level_1_dirs _ _ dirs h
