-- ===== src/LocalStorage/Automatic/Chosen.antt =====
-- About the directory that is chosen for an automatic cleanup
-- (src/storage/local/LocalStorage.cpp).
use ccache.Prelude.{
  ℕ, zero, suc, ◌+◌, ◌^◌, ◌≤◌, ◌<◌, ◌≡◌, inl, inr, refl, ap, ◌∙◌, Bool, true, false, Bool-cases,
  List, none, some, ltb, ◌==◌, ==_iff, if◌then◌else◌, arith,
}
use ccache.Counters.{Counters}
use ccache.Counters.Laws.{value}
use ccache.LocalStorage.Subdirs.{
  subdir_files_base, subdir_count, has_consistent_counters, get_largest_level_2_index,
}
use ccache.LocalStorage.Subdirs.Largest.{get_largest_level_2_index_lem}
use ccache.LocalStorage.Automatic.{
  Evaluation, evaluate_subdirs, evaluate_totals, evaluate_dir, at, evaluate_dirs,
  EvaluateCleanupResult, evaluate_cleanup,
}

module _ (counters : List Counters) where
  abbrev files : ℕ → ℕ → ℕ
  files i j = value (at counters i) (subdir_files_base + j)

  -- The state after the first `i` directories and the first `count` subdirectories of the next.
  record Seen (i count : ℕ) (s : Evaluation) : Type 0 where
    consistent : s.l2_counters_consistent ≡ true
    attained : s.largest_l2_dir_files ≤ files s.l1_dir_with_largest_l2 s.largest_l2_dir
    dir_inside : s.l1_dir_with_largest_l2 < subdir_count
    subdir_inside : s.largest_l2_dir < subdir_count
    dirs : (k j : ℕ) → k < i → j < subdir_count → files k j ≤ s.largest_l2_dir_files
    subdirs : (j : ℕ) → j < count → files i j ≤ s.largest_l2_dir_files

  Seen-next_dir : (i : ℕ) (s : Evaluation) → Seen i subdir_count s → Seen (suc i) 0 s
  Seen-next_dir i s seen = record {
    consistent = seen.consistent;
    attained = seen.attained;
    dir_inside = seen.dir_inside;
    subdir_inside = seen.subdir_inside;
    dirs = λ k j p q. elim (Bool-cases (k == i)) [
      | inl e ↦ let here : k ≡ i = (==_iff k i).0 e in rw here (seen.subdirs j q)
      | inr e ↦ seen.dirs k j (ground arith) q
    ];
    subdirs = λ j p. absurd (omega arith);
  }

  below :
      (i j : ℕ) (limit : ℕ)
      → ((k : ℕ) → k < j → files i k ≤ limit)
      → files i j ≤ limit
      → (k : ℕ) → k < suc j
      → files i k ≤ limit
  below i j limit before here k p = elim (Bool-cases (k == j)) [
    | inl e ↦ let same : k ≡ j = (==_iff k j).0 e in rw same here
    | inr e ↦ before k (ground arith)
  ]

  evaluate_subdirs-Seen :
      (i count : ℕ) (s : Evaluation)
      → i < subdir_count
      → count ≤ subdir_count
      → Seen i 0 s
      → Seen i count (evaluate_subdirs i (at counters i) count s)
  unfolding evaluate_subdirs
  evaluate_subdirs-Seen i zero s p q seen = seen
  evaluate_subdirs-Seen i (suc j) s p q seen =
      let t = evaluate_subdirs i (at counters i) j s in
      let before : Seen i j t = evaluate_subdirs-Seen i j s p (omega arith) seen in
      elim (Bool-cases (ltb t.largest_l2_dir_files (files i j))) [
        | inl e ↦
            let less : t.largest_l2_dir_files ≤ files i j = ground arith in
            rw e record {
              consistent = before.consistent;
              attained = omega arith;
              dir_inside = p;
              subdir_inside = omega arith;
              dirs = λ k j h r. omega (arith, less, before.dirs k j h r);
              subdirs =
                  below i j (files i j) (λ k h. omega (arith, less, before.subdirs k h))
                    (omega arith);
            }
        | inr e ↦ rw e record {
          consistent = before.consistent;
          attained = before.attained;
          dir_inside = before.dir_inside;
          subdir_inside = before.subdir_inside;
          dirs = before.dirs;
          subdirs = below i j t.largest_l2_dir_files before.subdirs (ground arith);
        }
      ]

  evaluate_totals-Seen :
      (k i count : ℕ) (s : Evaluation)
      → Seen i count s
      → Seen i count (evaluate_totals k (at counters k) s)
  unfolding evaluate_totals
  evaluate_totals-Seen k i count s seen = record {
    consistent = seen.consistent;
    attained = seen.attained;
    dir_inside = seen.dir_inside;
    subdir_inside = seen.subdir_inside;
    dirs = seen.dirs;
    subdirs = seen.subdirs;
  }

  totals_consistent :
      (i : ℕ) (s : Evaluation)
      → (evaluate_totals i (at counters i) s).l2_counters_consistent ≡ s.l2_counters_consistent
  unfolding evaluate_totals
  totals_consistent i s = refl

  evaluate_dir-consistent :
      (i : ℕ) (s : Evaluation)
      → s.l2_counters_consistent ≡ true
      → has_consistent_counters (at counters i) ≡ true
      → evaluate_dir i (at counters i) s
        ≡ evaluate_subdirs i (at counters i) subdir_count (evaluate_totals i (at counters i) s)
  unfolding evaluate_dir
  evaluate_dir-consistent i s h p = rw (totals_consistent i s ∙ h, p) refl

  evaluate_dirs-Seen :
      (count : ℕ)
      → count ≤ subdir_count
      → ((i : ℕ) → i < count → has_consistent_counters (at counters i) ≡ true)
      → Seen count 0 (evaluate_dirs counters count)
  unfolding evaluate_dirs
  evaluate_dirs-Seen zero h all = record {
    consistent = refl;
    attained = omega arith;
    dir_inside = omega arith;
    subdir_inside = omega arith;
    dirs = λ k j p q. absurd (omega arith);
    subdirs = λ j p. absurd (omega arith);
  }
  evaluate_dirs-Seen (suc i) h all =
      let s = evaluate_totals i (at counters i) (evaluate_dirs counters i) in
      let before = evaluate_dirs-Seen i (omega arith) (λ k p. all k (omega arith)) in
      let now = evaluate_totals-Seen i i 0 (evaluate_dirs counters i) before in
      rw
        (evaluate_dir-consistent i (evaluate_dirs counters i) before.consistent
          (all i (omega arith)))
        (Seen-next_dir i _ (evaluate_subdirs-Seen i subdir_count s (omega arith) (omega arith) now))

  result_of {ℓ} : {A : Type ℓ} (b : Bool) (a r : A) → (if b then none else some a) ≡ some r → a ≡ r
  result_of true a r h = absurd (ground arith)
  result_of false a r h = cc

  -- Where the counters of all sixteen directories are consistent and no subdirectory has 2 ^ 54
  -- files or more, the subdirectory that an automatic cleanup takes in the directory that
  -- evaluate_cleanup chooses has at least as many files as any of the 256.
  pub evaluate_cleanup_chooses :
      (max_size max_files : ℕ) (r : EvaluateCleanupResult)
      → ((i : ℕ) → i < subdir_count → has_consistent_counters (at counters i) ≡ true)
      → ((i j : ℕ) → i < subdir_count → j < subdir_count → files i j < 2 ^ 54)
      → evaluate_cleanup max_size max_files counters ≡ some r
      → (i j : ℕ) → i < subdir_count
      → j < subdir_count
      → files i j
        ≤ value r.l1_counters (subdir_files_base + get_largest_level_2_index r.l1_counters)
  unfolding evaluate_cleanup
  evaluate_cleanup_chooses max_size max_files r all small h i j p q =
      let seen = evaluate_dirs-Seen subdir_count (omega arith) all in
      let s = evaluate_dirs counters subdir_count in
      let chosen = at counters s.l1_dir_with_largest_l2 in
      let (inside, largest, first) =
        get_largest_level_2_index_lem chosen
          (λ k. small s.l1_dir_with_largest_l2 k seen.dir_inside) in
      let best : files i j ≤ value chosen (subdir_files_base + get_largest_level_2_index chosen) =
        omega
          (arith, seen.dirs i j p q, seen.attained, largest s.largest_l2_dir seen.subdir_inside) in
      let same : at counters
            (if s.l2_counters_consistent then s.l1_dir_with_largest_l2 else s.largest_l1_dir)
          ≡ r.l1_counters =
        ap (λ (t : EvaluateCleanupResult). t.l1_counters) (result_of _ _ r h) in
      rw (rw seen.consistent at same) at best
