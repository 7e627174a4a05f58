-- ===== src/LocalStorage/Subdirs/Consistent.antt =====
-- About the agreement of a level 1 directory's counters with those of its subdirectories
-- (src/storage/local/LocalStorage.cpp).
use ccache.Prelude.{
  ℕ, suc, ◌+◌, ◌*◌, ◌/◌, ◌%◌, ◌^◌, ◌≤◌, ◌<◌, ◌≡◌, refl, sym, ap, ◌∙◌, true, false, List, [], ◌∷◌,
  length, length-set, set, get_or, ◌==◌, if◌then◌else◌, arith, All, map, eq_self,
}
use ccache.Counters.{Counters, statistic_end}
use ccache.Counters.Laws.{value, value-set, value-increment}
use ccache.LocalStorage.Subdirs.{
  files_in_cache, cache_size_kibibyte, cleanups_performed, subdir_files_base,
  subdir_size_kibibyte_base, subdir_count, Level2Counters, Level1Counters, files_of, size_of,
  set_subdirs, set_counters, has_consistent_counters,
}
use ccache.LocalStorage.Subdirs.Sums.{
  total, up_to, up_to-get_or, up_to-ext, sum_subdirs-up_to, sum_with-total,
  value-set_subdirs_outside, value-set_subdirs_files, value-set_subdirs_size,
}

-- The sums that has_consistent_counters compares, with no wrap-around.
abbrev files_up_to : Counters → ℕ
files_up_to cs = up_to (λ i. value cs (subdir_files_base + i)) subdir_count

abbrev size_up_to : Counters → ℕ
size_up_to cs = up_to (λ i. value cs (subdir_size_kibibyte_base + i)) subdir_count

-- The counters of the directory are the sums of those of its subdirectories, and fit 64 bits.
pub record Agrees (cs : Counters) : Type 0 where
  pub files : files_up_to cs ≡ value cs files_in_cache
  pub size : size_up_to cs ≡ value cs cache_size_kibibyte
  pub files_fit : value cs files_in_cache < 2 ^ 63
  pub size_fits : value cs cache_size_kibibyte < 2 ^ 63

pub Agrees-consistent : (cs : Counters) → Agrees cs → has_consistent_counters cs ≡ true
unfolding has_consistent_counters
Agrees-consistent cs a =
    rw
      (
        sum_subdirs-up_to cs subdir_files_base subdir_count (omega (arith, a.files, a.files_fit))
            ∙ a.files,
        sum_subdirs-up_to cs subdir_size_kibibyte_base subdir_count
              (omega (arith, a.size, a.size_fits))
            ∙ a.size,
        eq_self (value cs files_in_cache),
        eq_self (value cs cache_size_kibibyte),
      )
      refl

-- Sixteen sizes that are multiples of a kibibyte.
pub record IsExact (l1 : Level1Counters) : Type 0 where
  pub count : length l1.level_2_counters ≡ subdir_count
  pub sizes : All (λ c. c.size % 1024 ≡ 0) l1.level_2_counters
  pub files_fit : total (map (λ c. c.files) l1.level_2_counters) < 2 ^ 63
  pub sizes_fit : total (map (λ c. c.size) l1.level_2_counters) < 2 ^ 63

total-kibibytes :
    (l2 : List Level2Counters)
    → All (λ c. c.size % 1024 ≡ 0) l2
    → total (map (λ c. c.size / 1024) l2) * 1024 ≡ total (map (λ c. c.size) l2)
unfolding total
total-kibibytes [] h = refl
total-kibibytes (c ∷ l2) (h, hs) = omega (arith, total-kibibytes l2 hs, h)

length-map : (f : Level2Counters → ℕ) (l2 : List Level2Counters) → length (map f l2) ≡ length l2
length-map f [] = refl
length-map f (c ∷ l2) = ap suc (length-map f l2)

-- A vector with room for all statistics, in which the number of cleanups is no negative number.
pub record HasRoom (cs : Counters) : Type 0 where
  pub room : statistic_end ≤ length cs
  pub cleanups : value cs cleanups_performed < 2 ^ 63

module _ (l1 : Level1Counters) (exact : IsExact l1) (cs : Counters) (has : HasRoom cs) where
  abbrev l2 : List Level2Counters
  l2 = l1.level_2_counters

  abbrev with_files : Counters
  with_files = set cs files_in_cache (files_of l1)

  abbrev with_size : Counters
  with_size = set with_files cache_size_kibibyte (size_of l1 / 1024)

  room_for : subdir_size_kibibyte_base + 0 + length l2 ≤ length with_size
  room_for = omega (
    arith,
    exact.count,
    has.room,
    length-set with_files cache_size_kibibyte (size_of l1 / 1024),
    length-set cs files_in_cache (files_of l1),
  )

  value-with_size :
      (k : ℕ)
      → value with_size k ≡ (
          if cache_size_kibibyte == k
          then size_of l1 / 1024
          else if files_in_cache == k
          then files_of l1
          else value cs k)
  value-with_size k =
      value-set with_files cache_size_kibibyte k (size_of l1 / 1024)
        (omega (arith, has.room, length-set cs files_in_cache (files_of l1)))
      ∙ ap (λ (v : ℕ). if cache_size_kibibyte == k then size_of l1 / 1024 else v)
          (value-set cs files_in_cache k (files_of l1) (omega (arith, has.room)))

  value-set_counters :
      (k : ℕ)
      → (cleanups_performed == k) ≡ false
      → value (set_counters l1 cs) k ≡ value (set_subdirs 0 l2 with_size) k
  unfolding set_counters
  value-set_counters k h =
      value-increment cleanups_performed l1.cleanups (set_subdirs 0 l2 with_size) k (
        omega (
          arith,
          has.cleanups,
          value-set_subdirs_outside 0 l2 with_size cleanups_performed room_for (omega arith),
          value-with_size cleanups_performed,
        ))
      ∙ (rw h refl)

  files_there :
      (j : ℕ)
      → j < subdir_count
      → value (set_counters l1 cs) (subdir_files_base + j) ≡ get_or (map (λ c. c.files) l2) j 0
  files_there j h =
      value-set_counters (subdir_files_base + j) (ground arith)
      ∙ value-set_subdirs_files 0 l2 with_size j room_for (omega (arith, exact.count))
          (omega (arith, exact.count))

  size_there :
      (j : ℕ)
      → j < subdir_count
      → value (set_counters l1 cs) (subdir_size_kibibyte_base + j)
        ≡ get_or (map (λ c. c.size / 1024) l2) j 0
  size_there j h =
      value-set_counters (subdir_size_kibibyte_base + j) (ground arith)
      ∙ value-set_subdirs_size 0 l2 with_size j room_for (omega (arith, exact.count))
          (omega (arith, exact.count))

  sum_there :
      (base : ℕ) (field : Level2Counters → ℕ)
      → ((j : ℕ)
          → j < subdir_count
          → value (set_counters l1 cs) (base + j) ≡ get_or (map field l2) j 0)
      → up_to (λ i. value (set_counters l1 cs) (base + i)) subdir_count ≡ total (map field l2)
  sum_there base field h =
      up_to-ext (λ i. value (set_counters l1 cs) (base + i)) (λ i. get_or (map field l2) i 0)
        subdir_count h
      ∙ (ap (up_to (λ i. get_or (map field l2) i 0)) (sym (length-map field l2 ∙ exact.count))
          ∙ up_to-get_or (map field l2))

  files_whole : value (set_counters l1 cs) files_in_cache ≡ total (map (λ c. c.files) l2)
  unfolding files_of
  files_whole =
      value-set_counters files_in_cache refl
      ∙ (value-set_subdirs_outside 0 l2 with_size files_in_cache room_for (omega arith)
          ∙ (value-with_size files_in_cache
              ∙ sum_with-total (λ c. c.files) 0 l2 (omega (arith, exact.files_fit))
              ∙ omega arith))

  size_whole : value (set_counters l1 cs) cache_size_kibibyte ≡ total (map (λ c. c.size) l2) / 1024
  unfolding size_of
  size_whole =
      value-set_counters cache_size_kibibyte refl
      ∙ (value-set_subdirs_outside 0 l2 with_size cache_size_kibibyte room_for (omega arith)
          ∙ (value-with_size cache_size_kibibyte
              ∙ ap (λ (n : ℕ). n / 1024)
                  (sum_with-total (λ c. c.size) 0 l2 (omega (arith, exact.sizes_fit))
                    ∙ omega arith)))

  -- set_counters with exact counters of sixteen subdirectories makes the sums agree.
  pub set_counters-Agrees : Agrees (set_counters l1 cs)
  set_counters-Agrees = record {
    files = sum_there subdir_files_base (λ c. c.files) files_there ∙ sym files_whole;
    size =
        sum_there subdir_size_kibibyte_base (λ c. c.size / 1024) size_there
        ∙ (omega (arith, total-kibibytes l2 exact.sizes) ∙ sym size_whole);
    files_fit = omega (arith, files_whole, exact.files_fit);
    size_fits = omega (arith, size_whole, exact.sizes_fit);
  }
