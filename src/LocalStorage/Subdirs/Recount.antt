-- ===== src/LocalStorage/Subdirs/Recount.antt =====
-- About the counters after a recount of a level 1 directory (src/storage/local/LocalStorage.cpp).
use ccache.Prelude.{
  ℕ, suc, ◌+◌, ◌%◌, ◌^◌, ◌<◌, ◌≡◌, refl, ap, ◌∙◌, true, List, [], ◌∷◌, length, arith, All, map,
}
use ccache.Counters.{Counters}
use ccache.LocalStorage.Subdirs.{
  subdir_count, Level2Counters, Level1Counters, likely_size_on_disk, set_counters,
  has_consistent_counters, total_size, recount, recount_level_1_dir,
}
use ccache.LocalStorage.Subdirs.Sums.{total}
use ccache.LocalStorage.Subdirs.Consistent.{
  Agrees-consistent, IsExact, HasRoom, set_counters-Agrees,
}

length-recount : (subdirs : List (List ℕ)) → length (recount subdirs) ≡ length subdirs
unfolding recount
length-recount [] = refl
length-recount (files ∷ subdirs) = ap suc (length-recount subdirs)

-- Sizes on disk are multiples of four kibibytes.
whole_kibibytes :
    (sum : ℕ) (files : List ℕ)
    → sum % 1024 ≡ 0
    → total_size sum (map likely_size_on_disk files) % 1024 ≡ 0
unfolding total_size likely_size_on_disk
whole_kibibytes sum [] h = h
whole_kibibytes sum (size ∷ files) h =
    whole_kibibytes ((sum + likely_size_on_disk size) % 2 ^ 64) files (omega arith)

-- The level 2 counters of subdirectories with files of these sizes.
abbrev pub counted : List (List ℕ) → List Level2Counters
counted subdirs = recount (map (map likely_size_on_disk) subdirs)

counted-whole : (subdirs : List (List ℕ)) → All (λ c. c.size % 1024 ≡ 0) (counted subdirs)
unfolding recount
counted-whole [] = tt
counted-whole (files ∷ subdirs) = (whole_kibibytes 0 files refl, counted-whole subdirs)

length-map :
    (subdirs : List (List ℕ)) → length (map (map likely_size_on_disk) subdirs) ≡ length subdirs
length-map [] = refl
length-map (files ∷ subdirs) = ap suc (length-map subdirs)

-- After recount_level_1_dir the counters are consistent, whatever the sizes of the files in the
-- sixteen subdirectories, if their number and their sizes on disk add up to less than 2 ^ 63,
-- the vector of counters has room for all statistics, and the number of cleanups is less than 2
-- ^ 63.
pub has_consistent_counters-recount_level_1_dir :
    (subdirs : List (List ℕ)) (cs : Counters)
    → length subdirs ≡ subdir_count
    → total (map (λ c. c.files) (counted subdirs)) < 2 ^ 63
    → total (map (λ c. c.size) (counted subdirs)) < 2 ^ 63
    → HasRoom cs
    → has_consistent_counters (recount_level_1_dir (map (map likely_size_on_disk) subdirs) cs)
      ≡ true
unfolding recount_level_1_dir
has_consistent_counters-recount_level_1_dir subdirs cs count files_fit sizes_fit room =
    let l1 : Level1Counters = record { level_2_counters = counted subdirs; cleanups = 0 } in
    let exact : IsExact l1 = record {
      count = length-recount (map (map likely_size_on_disk) subdirs) ∙ (length-map subdirs ∙ count);
      sizes = counted-whole subdirs;
      files_fit = files_fit;
      sizes_fit = sizes_fit;
    } in
    Agrees-consistent (set_counters l1 cs) (set_counters-Agrees l1 exact cs room)
