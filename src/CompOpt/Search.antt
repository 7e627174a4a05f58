-- ===== src/CompOpt/Search.antt =====
-- About the binary search in the table of compiler options (src/compopt.cpp).
use ccache.Prelude.{
  ℕ, zero, suc, ◌+◌, ◌/◌, ◌≤◌, ◌<◌, ◌≡◌, ◌⊎◌, inl, inr, refl, sym, Bool-cases, List, [], ◌∷◌,
  Option, none, some, length, get_elem?, ltb, arith, ltb→lt, not_ltb→le,
}
use ccache.CompOpt.{Comparison, less, equal, greater, bsearch_loop, bsearch}

pub nothing_below : (i : ℕ) → i < 0 → ⊥
nothing_below i h = omega arith

module _ {ℓ} {A : Type ℓ} (compare_key : A → Comparison) where
  -- The first entry that compares equal.
  unfoldable pub search : List A → Option A
  search [] = none
  search (x ∷ xs) = elim (compare_key x) [ equal ↦ some x | _ ↦ search xs ]

  -- The key is behind the first of any two entries or in front of the second.
  unfoldable pub IsPartitioned : List A → Type ℓ
  IsPartitioned base =
      (i j : ℕ) (x y : A)
      → i < j
      → get_elem? base i ≡ some x
      → get_elem? base j ≡ some y
      → (compare_key x ≡ greater) ⊎ (compare_key y ≡ less)

  search-none :
      (base : List A)
      → ((i : ℕ) (x : A) → get_elem? base i ≡ some x → compare_key x ≡ equal → ⊥)
      → search base ≡ none
  unfolding search
  search-none [] h = refl
  search-none (x ∷ xs) h = by_case (compare_key x) refl (search-none xs (λ i y. h (suc i) y))
    where
      by_case :
          (c : Comparison)
          → compare_key x ≡ c
          → search xs ≡ none
          → (elim c [ equal ↦ some x | _ ↦ search xs ]) ≡ none
      by_case less e r = r
      by_case greater e r = r
      by_case equal e r = absurd (h zero x refl e)

  search-some :
      (base : List A) (m : ℕ) (x : A)
      → get_elem? base m ≡ some x
      → compare_key x ≡ equal
      → ((i : ℕ) (y : A) → i < m → get_elem? base i ≡ some y → compare_key y ≡ equal → ⊥)
      → search base ≡ some x
  unfolding search
  search-some [] m x g e h = cc
  search-some (y ∷ ys) zero x g e h = by_case (compare_key y) refl
    where
      y-equal : compare_key y ≡ equal
      y-equal = cc

      by_case :
          (c : Comparison)
          → compare_key y ≡ c
          → (elim c [ equal ↦ some y | _ ↦ search ys ]) ≡ some x
      by_case less f = cc
      by_case greater f = cc
      by_case equal f = g
  search-some (y ∷ ys) (suc m) x g e h =
      by_case (compare_key y) refl
        (search-some ys m x g e (λ i z before. h (suc i) z (omega arith)))
    where
      by_case :
          (c : Comparison)
          → compare_key y ≡ c
          → search ys ≡ some x
          → (elim c [ equal ↦ some y | _ ↦ search ys ]) ≡ some x
      by_case less f r = r
      by_case greater f r = r
      by_case equal f r = absurd (h zero y (omega arith) refl f)

  -- One probe: each of the outcomes leads to the same result.
  probe :
      (entry left right result : Option A)
      → (entry ≡ none → ⊥)
      → ((x : A) → entry ≡ some x → compare_key x ≡ less → left ≡ result)
      → ((x : A) → entry ≡ some x → compare_key x ≡ equal → some x ≡ result)
      → ((x : A) → entry ≡ some x → compare_key x ≡ greater → right ≡ result)
      → (elim entry [
        | none ↦ none
        | some x ↦ elim (compare_key x) [ less ↦ left | equal ↦ some x | greater ↦ right ]
      ])
        ≡ result
  probe none left right result missing a b c = absurd (missing refl)
  probe (some x) left right result missing a b c = by_case (compare_key x) refl
    where
      by_case :
          (o : Comparison)
          → compare_key x ≡ o
          → (elim o [ less ↦ left | equal ↦ some x | greater ↦ right ]) ≡ result
      by_case less e = a x refl e
      by_case equal e = b x refl e
      by_case greater e = c x refl e

  le_or_lt : (a b : ℕ) → (a ≤ b) ⊎ (b < a)
  le_or_lt a b = elim (Bool-cases (ltb b a)) [
    | inl e ↦ inr (ltb→lt b a e)
    | inr e ↦ inl (not_ltb→le b a e)
  ]

  get_elem-in_range : (xs : List A) (i : ℕ) → i < length xs → get_elem? xs i ≡ none → ⊥
  get_elem-in_range [] i h e = omega arith
  get_elem-in_range (x ∷ xs) zero h e = cc
  get_elem-in_range (x ∷ xs) (suc i) h e = get_elem-in_range xs i (omega arith) e

  get_elem-out_of_range :
      (xs : List A) (i : ℕ) (x : A) → get_elem? xs i ≡ some x → length xs ≤ i → ⊥
  get_elem-out_of_range [] i x e h = cc
  get_elem-out_of_range (y ∷ ys) zero x e h = omega arith
  get_elem-out_of_range (y ∷ ys) (suc i) x e h = get_elem-out_of_range ys i x e (omega arith)

  module _ (base : List A) (partitioned : IsPartitioned base) where
    -- What is left of `l` is too small and what is right of `u` too large.
    record Between (l u : ℕ) : Type ℓ where
      inside : u ≤ length base
      left : (i : ℕ) (x : A) → i < l → get_elem? base i ≡ some x → compare_key x ≡ greater
      right : (i : ℕ) (x : A) → u ≤ i → get_elem? base i ≡ some x → compare_key x ≡ less

    Between-none : (l u : ℕ) → u ≤ l → Between l u → search base ≡ none
    Between-none l u crossed b = search-none base outside
      where
        outside : (i : ℕ) (x : A) → get_elem? base i ≡ some x → compare_key x ≡ equal → ⊥
        outside i x g e = elim (le_or_lt l i) [
          | inl h ↦ (let f : compare_key x ≡ less = b.right i x (omega arith) g in cc)
          | inr h ↦ (let f : compare_key x ≡ greater = b.left i x h g in cc)
        ]

    narrow_left :
        (l u m : ℕ) (x : A)
        → m < u
        → get_elem? base m ≡ some x
        → compare_key x ≡ less
        → Between l u
        → Between l m
    unfolding IsPartitioned
    narrow_left l u m x below g e b = record {
      inside = (let h : u ≤ length base = b.inside in omega arith);
      left = b.left;
      right = λ i y h p. elim (le_or_lt i m) [
        | inl h' ↦ (let same : i ≡ m = omega arith in cc)
        | inr h' ↦ elim (partitioned m i x y h' g p) [ inl f ↦ cc | inr f ↦ f ]
      ];
    }

    narrow_right :
        (l u m : ℕ) (x : A)
        → m < u
        → get_elem? base m ≡ some x
        → compare_key x ≡ greater
        → Between l u
        → Between (m + 1) u
    unfolding IsPartitioned
    narrow_right l u m x below g e b = record {
      inside = b.inside;
      left = λ i y h p. elim (le_or_lt m i) [
        | inl h' ↦ (let same : i ≡ m = omega arith in cc)
        | inr h' ↦ elim (partitioned i m y x h' p g) [ inl f ↦ f | inr f ↦ cc ]
      ];
      right = b.right;
    }

    bsearch_loop-search :
        (rounds l u : ℕ)
        → u < rounds + l
        → Between l u
        → bsearch_loop compare_key base rounds l u ≡ search base
    unfolding bsearch_loop IsPartitioned
    bsearch_loop-search zero l u h b = sym (Between-none l u (omega arith) b)
    bsearch_loop-search (suc rounds) l u h b = elim (Bool-cases (ltb l u)) [
      | inr e ↦ rw e (sym (Between-none l u (not_ltb→le l u e) b))
      | inl e ↦
          (let below : l < u = ltb→lt l u e in
            let first : l ≤ (l + u) / 2 = omega arith in
            let last : (l + u) / 2 < u = omega arith in
            let inside : u ≤ length base = b.inside in
            rw e (
              probe (get_elem? base ((l + u) / 2)) _ _ (search base)
                (get_elem-in_range base ((l + u) / 2) (omega arith))
                (λ x g f.
                  bsearch_loop-search rounds l ((l + u) / 2) (omega arith)
                    (narrow_left l u ((l + u) / 2) x last g f b))
                (λ x g f. sym (
                  search-some base ((l + u) / 2) x g f (λ i y h' p q.
                    elim (partitioned i ((l + u) / 2) y x h' p g) [ inl r ↦ cc | inr r ↦ cc ])))
                (λ x g f.
                  bsearch_loop-search rounds ((l + u) / 2 + 1) u (omega arith)
                    (narrow_right l u ((l + u) / 2) x last g f b))))
    ]

    pub bsearch-search : bsearch compare_key base ≡ search base
    unfolding bsearch
    bsearch-search = bsearch_loop-search (length base + 1) 0 (length base) (omega arith) (record {
      inside = omega arith;
      left = λ i x h p. absurd (nothing_below i h);
      right = λ i x h p. absurd (get_elem-out_of_range base i x p h);
    })
