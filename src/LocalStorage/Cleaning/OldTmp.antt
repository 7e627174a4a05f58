-- ===== src/LocalStorage/Cleaning/OldTmp.antt =====
-- About a left-over temporary file in a directory that is cleaned up
-- (src/storage/local/LocalStorage.cpp).
use ccache.Prelude.{
  ℕ, ◌+◌, ◌-◌, ◌*◌, ◌^◌, ◌≤◌, ◌<◌, ◌≡◌, refl, ap, true, false, [], ◌∷◌, none, some, le→not_ltb,
  arith,
}
use ccache.LocalStorage.Subdirs.{Level2Counters}
use ccache.LocalStorage.Cleaning.{
  regular, DirEntry, Host, Limits, mark_removed, delete_file, is_old_tmp_file, scan_file,
  scan_files, scanned, insert_by_mtime, sort_by_mtime, has_value, is_young, is_enough, evict_file,
  evict_files, counters_of, clean_dir,
}
use ccache.LocalStorage.Cleaning.Evicted.{is_there_lem, is_directory_lem, is_regular_file_lem}

module _ (host : Host) (max_age : ℕ) (file : DirEntry) (kind : file.kind ≡ regular)
    (old : is_old_tmp_file host file ≡ true) (goes : host.removes file.path ≡ true)
    (expired : file.mtime + max_age * 10 ^ 9 ≤ host.current_time) where
  abbrev limits : Limits
  limits = record { max_size = 0; max_files = 0; max_age = some max_age; namespace_ = none }

  young : is_young host (some max_age) file ≡ false
  unfolding is_young
  young = le→not_ltb host.current_time (file.mtime + max_age * 10 ^ 9) expired

  -- For a directory with nothing but an old temporary file that has passed the maximum age,
  -- clean_dir counts no file first, and ends with a number of 2 ^ 64 - 1 files and a size that
  -- has wrapped likewise.
  pub clean_dir_old_tmp_file :
      0 < file.size_on_disk
      → file.size_on_disk < 2 ^ 64
      → ((clean_dir host limits (file ∷ [])).before ≡ record { files = 0; size = 0 })
        × ((clean_dir host limits (file ∷ [])).after
            ≡ record { files = 2 ^ 64 - 1; size = 2 ^ 64 - file.size_on_disk })
  unfolding clean_dir scanned scan_files scan_file sort_by_mtime insert_by_mtime evict_files
      evict_file delete_file is_enough counters_of mark_removed has_value
  clean_dir_old_tmp_file p q =
      rw
        (
          is_regular_file_lem file kind,
          old,
          is_there_lem file kind,
          is_directory_lem file kind,
          young,
          goes,
        )
        (
          refl,
          ap {A = ℕ} {B = Level2Counters} (λ (n : ℕ). record { files = 2 ^ 64 - 1; size = n })
              (omega arith),
        )
