-- ===== src/LocalStorage/Subdirs/Largest.antt =====
-- About the subdirectory that is cleaned up (src/storage/local/LocalStorage.cpp).
use ccache.Prelude.{
  ℕ, zero, suc, ◌+◌, ◌-◌, ◌*◌, ◌%◌, ◌^◌, ◌≤◌, ◌<◌, ◌≡◌, true, false, Bool-cases, inl, inr, ltb,
  ◌==◌, if◌then◌else◌, arith, ==_iff,
}
use ccache.Counters.{Counters}
use ccache.Counters.Laws.{value}
use ccache.LocalStorage.Subdirs.{
  subdir_files_base, subdir_count, largest_loop, get_largest_level_2_index,
}

-- What the loop keeps after `count` subdirectories with `f` files.
record IsLargest (f : ℕ → ℕ) (count : ℕ) (best : ℕ × ℕ) : Type 0 where
  inside : best.1 ≤ count - 1
  attained : best.0 ≤ 1024 * f best.1
  largest : (j : ℕ) → j < count → 1024 * f j ≤ best.0
  first : (j : ℕ) → j < best.1 → 1024 * f j < best.0

module _ (counters : Counters)
    (small : (i : ℕ) → i < subdir_count → value counters (subdir_files_base + i) < 2 ^ 54) where
  abbrev files : ℕ → ℕ
  files i = value counters (subdir_files_base + i)

  no_wrap : (i : ℕ) → i < subdir_count → 1024 * files i % 2 ^ 64 ≡ 1024 * files i
  no_wrap i h = omega (arith, small i h)

  -- The state after one more subdirectory.
  abbrev next : ℕ → ℕ × ℕ → ℕ × ℕ
  next count best = if ltb best.0 (1024 * files count) then (1024 * files count, count) else best

  below :
      (count : ℕ) (best : ℕ × ℕ) (limit : ℕ)
      → IsLargest files count best
      → best.0 ≤ limit
      → 1024 * files count ≤ limit
      → (j : ℕ) → j < suc count
      → 1024 * files j ≤ limit
  below count best limit is h here j p = elim (Bool-cases (j == count)) [
    | inl e ↦ let same : j ≡ count = (==_iff j count).0 e in rw same here
    | inr e ↦ omega (arith, is.largest j (other j count p e))
  ]
    where
      other : (j count : ℕ) → j < suc count → (j == count) ≡ false → j < count
      other j count p e = ground arith

  longer :
      (count : ℕ) (best : ℕ × ℕ)
      → IsLargest files count best
      → IsLargest files (suc count) (next count best)
  longer count best is = elim (Bool-cases (ltb best.0 (1024 * files count))) [
    | inl e ↦ rw e record {
      inside = omega arith;
      attained = omega arith;
      largest = below count best (1024 * files count) is (ground arith) (omega arith);
      first = λ j p. first_of j p (is.largest j p) e;
    }
    | inr e ↦ rw e record {
      inside = omega (arith, is.inside);
      attained = is.attained;
      largest = below count best best.0 is (omega arith) (ground arith);
      first = is.first;
    }
  ]
    where
      first_of :
          (j : ℕ)
          → j < count
          → 1024 * files j ≤ best.0
          → ltb best.0 (1024 * files count) ≡ true
          → 1024 * files j < 1024 * files count
      first_of j p h e = ground arith

  largest_loop-IsLargest :
      (count : ℕ) → count ≤ subdir_count → IsLargest files count (largest_loop counters count)
  unfolding largest_loop
  largest_loop-IsLargest zero h = record {
    inside = omega arith;
    attained = omega arith;
    largest = λ j p. absurd (omega arith);
    first = λ j p. absurd (omega arith);
  }
  largest_loop-IsLargest (suc count) h =
      rw (no_wrap count (omega arith))
        (longer count (largest_loop counters count) (largest_loop-IsLargest count (omega arith)))

  -- Where no subdirectory has 2 ^ 54 files or more, the index is the first of those with the most files.
  pub get_largest_level_2_index_lem :
      get_largest_level_2_index counters < subdir_count
      × ((j : ℕ) → j < subdir_count → files j ≤ files (get_largest_level_2_index counters))
      × ((j : ℕ)
          → j < get_largest_level_2_index counters
          → files j < files (get_largest_level_2_index counters))
  unfolding get_largest_level_2_index
  get_largest_level_2_index_lem =
      let is = largest_loop-IsLargest subdir_count (omega arith) in
      (
        omega (arith, is.inside),
        λ j p. omega (arith, is.largest j p, is.attained),
        λ j p. omega (arith, is.first j p, is.attained),
      )
