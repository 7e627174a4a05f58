-- ===== src/LocalStorage/Levels/Moved.antt =====
-- About a cache file that is stored and moved to another level
-- (src/storage/local/LocalStorage.cpp).
use ccache.Prelude.{
  ℕ, zero, suc, ◌+◌, ◌≤◌, ◌≡◌, ◌⊎◌, inl, inr, refl, sym, ap, ap₂, ◌∙◌, Bool, true, false,
  Bool-cases, Bytes, [], ◌∷◌, length, length-append, eq_bytes, eq_bytes_self, eq_bytes→eq, eq_self,
  ◌==◌, ◌&&◌, ◌||◌, not, if◌then◌else◌, arith,
}
use ccache.LocalStorage.Levels.{
  k_max_cache_levels, calculate_wanted_cache_level, calculate_wanted_cache_level_lem, path_tail,
  get_path_in_cache, LookUpCacheFileResult, Files, look_up_loop, look_up_cache_file, commit, rename,
  move_to_wanted_cache_level, put_file,
}

length-path_tail :
    (level : ℕ) (name : Bytes)
    → level ≤ length name
    → length (path_tail level name) ≡ length name + level + 1
unfolding path_tail
length-path_tail zero name h = omega arith
length-path_tail (suc level) [] h = absurd (omega arith)
length-path_tail (suc level) (c ∷ name) h = omega (arith, length-path_tail level name (omega arith))

length-get_path_in_cache :
    (dir : Bytes) (level : ℕ) (name : Bytes)
    → level ≤ length name
    → length (get_path_in_cache dir level name) ≡ length dir + length name + level + 1
unfolding get_path_in_cache
length-get_path_in_cache dir level name h =
    omega (arith, length-append dir (path_tail level name), length-path_tail level name h)

other_length : (p q : Bytes) → (length p ≡ length q → ⊥) → eq_bytes p q ≡ false
other_length p q h = elim (Bool-cases (eq_bytes p q)) [
  | inl same ↦ absurd (h (ap length (eq_bytes→eq p q same)))
  | inr other ↦ other
]

module _ (dir name : Bytes) (long : k_max_cache_levels ≤ length name) where
  abbrev at : ℕ → Bytes
  at level = get_path_in_cache dir level name

  apart :
      (l m : ℕ)
      → l ≤ k_max_cache_levels
      → m ≤ k_max_cache_levels
      → (l ≡ m → ⊥)
      → eq_bytes (at l) (at m) ≡ false
  apart l m hl hm d = other_length (at l) (at m) (λ e. d (
      omega (
        arith,
        e,
        length-get_path_in_cache dir l name (omega arith),
        length-get_path_in_cache dir m name (omega arith),
      )))

  -- The file is at one level at most.
  pub record AtMostOne (files : Files) : Type 0 where
    pub two_three : (files (at 2) && files (at 3)) ≡ false
    pub two_four : (files (at 2) && files (at 4)) ≡ false
    pub three_four : (files (at 3) && files (at 4)) ≡ false

  abbrev found_at : ℕ → LookUpCacheFileResult
  found_at level = record { path = at level; is_regular_file = true; level = level }

  at_levels :
      (l m : ℕ)
      → l ≤ k_max_cache_levels
      → m ≤ k_max_cache_levels
      → eq_bytes (at l) (at m) ≡ (l == m)
  at_levels l m hl hm = elim (Bool-cases (l == m)) [
    | inl same ↦ let e : l ≡ m = ground arith in rw e (eq_bytes_self (at m) ∙ sym (eq_self m))
    | inr other ↦ apart l m hl hm (λ e. differ l m other e) ∙ sym other
  ]
    where
      differ : (l m : ℕ) → (l == m) ≡ false → l ≡ m → ⊥
      differ l m other e = ground arith

  -- Whether the file is at level `m` once it is stored at `l` and moved to `w`.
  abbrev moved : ℕ → ℕ → ℕ → Bool → Bool
  moved l w m there =
      if l == w
      then (m == l) || there
      else if m == w
      then true
      else not (m == l) && ((m == l) || there)

  moved_lem :
      (files : Files) (n l m : ℕ)
      → l ≤ k_max_cache_levels
      → m ≤ k_max_cache_levels
      → calculate_wanted_cache_level n ≤ k_max_cache_levels
      → move_to_wanted_cache_level n dir name (at l) (commit (at l) files) (at m)
        ≡ moved l (calculate_wanted_cache_level n) m (files (at m))
  unfolding move_to_wanted_cache_level rename commit
  moved_lem files n l m hl hm hw =
      let w = calculate_wanted_cache_level n in
      elim (Bool-cases (l == w)) [
        | inl same ↦ rw (at_levels l w hl hw, same, at_levels m l hm hl) refl
        | inr other ↦
            rw
              (
                at_levels l w hl hw,
                other,
                at_levels m w hm hw,
                at_levels m l hm hl,
                at_levels l l hl hl,
                eq_self l,
              )
              refl
      ]

  look_up-eq :
      (files : Files)
      → look_up_cache_file files dir name ≡ (
          if files (at 2)
          then found_at 2
          else if files (at 3)
          then found_at 3
          else if files (at 4)
          then found_at 4
          else record { path = at 2; is_regular_file = false; level = 2 })
  unfolding look_up_cache_file look_up_loop
  look_up-eq files = refl

  -- The level at which the file is, or at which it is stored at first.
  abbrev first_level : Bool → Bool → Bool → ℕ
  first_level two three four = if two then 2 else if three then 3 else if four then 4 else 2

  path_of_first :
      (files : Files)
      → (look_up_cache_file files dir name).path
        ≡ at (first_level (files (at 2)) (files (at 3)) (files (at 4)))
  path_of_first files =
      rw (look_up-eq files) (by_cases (files (at 2)) (files (at 3)) (files (at 4)))
    where
      by_cases :
          (two three four : Bool)
          → (if two
              then found_at 2
              else if three
              then found_at 3
              else if four
              then found_at 4
              else record { path = at 2; is_regular_file = false; level = 2 }).path
            ≡ at (first_level two three four)
      by_cases true three four = refl
      by_cases false true four = refl
      by_cases false false true = refl
      by_cases false false false = refl

  abbrev chosen : Bool → Bool → Bool → LookUpCacheFileResult
  chosen two three four =
      if two
      then found_at 2
      else if three
      then found_at 3
      else if four
      then found_at 4
      else record { path = at 2; is_regular_file = false; level = 2 }

  chosen-moved :
      (two three four : Bool) (w : ℕ)
      → (two && three) ≡ false
      → (two && four) ≡ false
      → (three && four) ≡ false
      → (w ≡ 2) ⊎ ((w ≡ 3) ⊎ (w ≡ 4))
      → let l = first_level two three four in
        chosen (moved l w 2 two) (moved l w 3 three) (moved l w 4 four) ≡ found_at w
  chosen-moved true true four w p q r c = cc
  chosen-moved true false true w p q r c = cc
  chosen-moved false true true w p q r c = cc
  chosen-moved true false false w p q r (inl e) = rw e refl
  chosen-moved true false false w p q r (inr (inl e)) = rw e refl
  chosen-moved true false false w p q r (inr (inr e)) = rw e refl
  chosen-moved false true false w p q r (inl e) = rw e refl
  chosen-moved false true false w p q r (inr (inl e)) = rw e refl
  chosen-moved false true false w p q r (inr (inr e)) = rw e refl
  chosen-moved false false true w p q r (inl e) = rw e refl
  chosen-moved false false true w p q r (inr (inl e)) = rw e refl
  chosen-moved false false true w p q r (inr (inr e)) = rw e refl
  chosen-moved false false false w p q r (inl e) = rw e refl
  chosen-moved false false false w p q r (inr (inl e)) = rw e refl
  chosen-moved false false false w p q r (inr (inr e)) = rw e refl

  first_level-le : (two three four : Bool) → first_level two three four ≤ k_max_cache_levels
  first_level-le two three four = ground arith

  -- A stored file is found at the level that the number of files asks for.
  pub look_up-put_file :
      (files : Files) (files_in_cache : ℕ)
      → AtMostOne files
      → look_up_cache_file (put_file files_in_cache dir name files) dir name ≡ record {
        path = get_path_in_cache dir (calculate_wanted_cache_level files_in_cache) name;
        is_regular_file = true;
        level = calculate_wanted_cache_level files_in_cache;
      }
  unfolding put_file
  look_up-put_file files n one =
      let w = calculate_wanted_cache_level n in
      let l = first_level (files (at 2)) (files (at 3)) (files (at 4)) in
      let hl = first_level-le (files (at 2)) (files (at 3)) (files (at 4)) in
      let after = λ (p : Bytes). move_to_wanted_cache_level n dir name p (commit p files) in
      ap (λ (p : Bytes). look_up_cache_file (after p) dir name) (path_of_first files)
      ∙ (look_up-eq (after (at l))
          ∙ (ap₂ (λ (a : Bool) (bc : Bool × Bool). chosen a bc.0 bc.1)
                (moved_lem files n l 2 hl (omega arith) (wanted_le n))
                (ap₂ (λ (b c : Bool). (b, c)) (moved_lem files n l 3 hl (omega arith) (wanted_le n))
                  (moved_lem files n l 4 hl (omega arith) (wanted_le n)))
              ∙ chosen-moved (files (at 2)) (files (at 3)) (files (at 4)) w one.two_three
                  one.two_four one.three_four (wanted_cases n)))
    where
      wanted_cases :
          (n : ℕ)
          → (calculate_wanted_cache_level n ≡ 2)
            ⊎ ((calculate_wanted_cache_level n ≡ 3) ⊎ (calculate_wanted_cache_level n ≡ 4))
      wanted_cases n = ground (arith, calculate_wanted_cache_level_lem n)

      wanted_le : (n : ℕ) → calculate_wanted_cache_level n ≤ k_max_cache_levels
      wanted_le n = ground (arith, calculate_wanted_cache_level_lem n)
