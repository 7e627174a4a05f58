-- ===== src/Manifest/Update/Tables.antt =====
-- About the tables of a manifest that grow (src/core/Manifest.cpp: get_file_info_index).
use ccache.Prelude.{
  ℕ, zero, suc, ◌+◌, ◌-◌, ◌%◌, ◌^◌, ◌≤◌, ◌<◌, ◌≡◌, refl, sym, ◌∙◌, Bool, true, Bool-cases,
  Option-cases, inl, inr, List, [], ◌∷◌, ◌++◌, append-nil, length, length-append, ltb, Option, some,
  get_elem?, arith, not_ltb→le, le→not_ltb,
}
use ccache.Manifest.Update.{index_of, push, find_or_push}

some_pair {ℓ κ} :
    {A : Type ℓ} {B : Type κ} {a c : A} {b d : B}
    → ◌≡◌ {A = Option (A × B)} (some (a, b)) (some (c, d))
    → (a ≡ c) × (b ≡ d)
some_pair h = (cc, cc)

module _ {ℓ} {A : Type ℓ} where
  pub get_elem?-append :
      (xs ys : List A) (i : ℕ) {x : A} → get_elem? xs i ≡ some x → get_elem? (xs ++ ys) i ≡ some x
  get_elem?-append [] ys i h = cc
  get_elem?-append (x ∷ xs) ys zero h = h
  get_elem?-append (x ∷ xs) ys (suc i) h = get_elem?-append xs ys i h

  pub get_elem?-last : (xs : List A) (a : A) → get_elem? (xs ++ a ∷ []) (length xs) ≡ some a
  get_elem?-last [] a = refl
  get_elem?-last (x ∷ xs) a = get_elem?-last xs a

  -- A test that implies equality.
  abbrev pub IsSoundTest : (A → A → Bool) → Type ℓ
  IsSoundTest eq = (a b : A) → eq a b ≡ true → a ≡ b

  pub get_elem?-index_of :
      (eq : A → A → Bool)
      → IsSoundTest eq
      → (a : A) (xs : List A) (i : ℕ) → index_of eq a xs ≡ some i
      → get_elem? xs i ≡ some a
  unfolding index_of
  get_elem?-index_of eq sound a [] i h = cc
  get_elem?-index_of eq sound a (x ∷ xs) zero h = ground (arith, sound a x)
  get_elem?-index_of eq sound a (x ∷ xs) (suc i) h =
      ground (arith, get_elem?-index_of eq sound a xs i)

  pub push_lem :
      (a : A) (xs : List A) (i : ℕ) (xs' : List A)
      → push a xs ≡ some (i, xs')
      → (i ≡ length xs) × (xs' ≡ xs ++ a ∷ [])
  unfolding push
  push_lem a xs i xs' h = elim (Bool-cases (ltb (2 ^ 32 - 1) (length xs))) [
    | inl full ↦ absurd (cc (rw full at h))
    | inr room ↦
        let (p, q) = some_pair (rw (room, push) at h) in
        let fits : length xs ≤ 2 ^ 32 - 1 = not_ltb→le _ _ room in
        let same : length xs % 2 ^ 32 ≡ length xs = omega arith in (sym p ∙ same, sym q)
  ]

  -- What is found, or pushed, stands at the index that is returned.
  pub find_or_push_lem :
      (eq : A → A → Bool)
      → IsSoundTest eq
      → (a : A) (snapshot grown xs : List A) (i : ℕ) (xs' : List A) → xs ≡ snapshot ++ grown
      → find_or_push eq a snapshot xs ≡ some (i, xs')
      → (get_elem? xs' i ≡ some a) × ((more : List A) × (xs' ≡ xs ++ more))
  unfolding find_or_push
  find_or_push_lem eq sound a snapshot grown xs i xs' e h =
      elim (Option-cases (index_of eq a snapshot)) [
        | inl fresh ↦
            let (p, q) = push_lem a xs i xs' (rw (fresh, find_or_push) at h) in
            (rw (p, q) (get_elem?-last xs a), (a ∷ [], q))
        | inr (j, old) ↦
            let (pi, px) = some_pair (rw (old, find_or_push) at h) in
            (
              rw (← px, ← pi, e)
                  (get_elem?-append snapshot grown j
                    (get_elem?-index_of eq sound a snapshot j old)),
              ([], sym px ∙ sym (append-nil xs)),
            )
      ]

  -- The vector only grows.
  pub find_or_push_more :
      (eq : A → A → Bool) (a : A) (snapshot xs : List A) (i : ℕ) (xs' : List A)
      → find_or_push eq a snapshot xs ≡ some (i, xs')
      → (more : List A) × (xs' ≡ xs ++ more)
  unfolding find_or_push
  find_or_push_more eq a snapshot xs i xs' h = elim (Option-cases (index_of eq a snapshot)) [
    | inl fresh ↦ (a ∷ [], (push_lem a xs i xs' (rw (fresh, find_or_push) at h)).1)
    | inr (j, old) ↦ ([], sym (some_pair (rw (old, find_or_push) at h)).1 ∙ sym (append-nil xs))
  ]

  -- With room left in the vector there is an index.
  pub find_or_push_total :
      (eq : A → A → Bool) (a : A) (snapshot xs : List A)
      → length xs < 2 ^ 32
      → (i : ℕ) × (xs' : List A) × (find_or_push eq a snapshot xs ≡ some (i, xs'))
        × (length xs' ≤ length xs + 1)
  unfolding find_or_push push
  find_or_push_total eq a snapshot xs h = elim (Option-cases (index_of eq a snapshot)) [
    | inl fresh ↦ (
      length xs % 2 ^ 32,
      xs ++ a ∷ [],
      rw (fresh, find_or_push) (rw (le→not_ltb (2 ^ 32 - 1) (length xs) (omega arith))),
      omega (arith, length-append xs (a ∷ [])),
    )
    | inr (j, old) ↦ (j, xs, rw (old, find_or_push), omega arith)
  ]
