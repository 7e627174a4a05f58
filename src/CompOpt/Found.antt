-- ===== src/CompOpt/Found.antt =====
-- About the table of compiler options and what the look-ups find in it (src/compopt.cpp).
use mathlib.Core.Path.{subst}
use ccache.Prelude.{
  ℕ, zero, suc, ◌+◌, ◌≡◌, ◌⊎◌, inl, inr, refl, true, false, and_true, Bytes, List, [], ◌∷◌, Option,
  none, some, get_elem?, ltb, if◌then◌else◌, arith, codes, ◌++◌,
}
use ccache.CompOpt.{
  Comparison, less, equal, greater, CompOpt, compare, compare_compopts, compare_prefix_compopts,
  compopts, bsearch_loop, bsearch, find, find_prefix, is_less, verify_from,
  compopt_verify_sortedness_and_flags, has_flag, has_type, takes_concat_arg, takes_arg, takes_path,
  affects_cpp, compopt_prefix_affects_cpp_output, compopt_affects_cpp_output,
  compopt_takes_concat_arg,
}
use ccache.CompOpt.Search.{search, IsPartitioned, bsearch-search, nothing_below}

-- What `compare` makes of two first characters and the comparison of the rest.
first_character :
    (z x y : ℕ) (ab ka kb : Comparison)
    → (ab ≡ less → (ka ≡ greater) ⊎ (kb ≡ less))
    → (if ltb x y then less else if ltb y x then greater else ab) ≡ less
    → ((if ltb z x then less else if ltb x z then greater else ka) ≡ greater)
      ⊎ ((if ltb z y then less else if ltb y z then greater else kb) ≡ less)
first_character z x y ab ka kb rest h = ground arith

-- A string is behind the smaller one of two strings or in front of the greater one.
pub compare-less :
    (a b k : Bytes) → compare a b ≡ less → (compare k a ≡ greater) ⊎ (compare k b ≡ less)
unfolding compare
compare-less [] [] k h = cc
compare-less [] (y ∷ ys) [] h = inr refl
compare-less [] (y ∷ ys) (z ∷ zs) h = inl refl
compare-less (x ∷ xs) [] k h = cc
compare-less (x ∷ xs) (y ∷ ys) [] h = inr refl
compare-less (x ∷ xs) (y ∷ ys) (z ∷ zs) h =
    first_character z x y (compare xs ys) (compare zs xs) (compare zs ys) (compare-less xs ys zs) h

less_trans : (a b c : Bytes) → compare a b ≡ less → compare b c ≡ less → compare a c ≡ less
less_trans a b c h h' = elim (compare-less b c a h') [ inl e ↦ cc | inr e ↦ e ]

is_less-less : (c : Comparison) → is_less c ≡ true → c ≡ less
unfolding is_less
is_less-less less h = refl
is_less-less equal h = cc
is_less-less greater h = cc

verify_from-rest :
    (before : Option Bytes) (x : CompOpt) (xs : List CompOpt)
    → verify_from before (x ∷ xs) ≡ true
    → verify_from (some x.name) xs ≡ true
unfolding verify_from
verify_from-rest none x xs h = (and_true _ _ h).1
verify_from-rest (some name) x xs h = (and_true _ _ (and_true _ _ h).1).1

verify_from-first :
    (name : Bytes) (x : CompOpt) (xs : List CompOpt)
    → verify_from (some name) (x ∷ xs) ≡ true
    → compare name x.name ≡ less
unfolding verify_from
verify_from-first name x xs h =
    is_less-less (compare name x.name) (and_true _ _ (and_true _ _ h).1).0

some-inj : {A : Type 0} {a b : A} → some a ≡ some b → a ≡ b
some-inj e = cc

verify_from-less :
    (name : Bytes) (entries : List CompOpt) (j : ℕ) (y : CompOpt)
    → verify_from (some name) entries ≡ true
    → get_elem? entries j ≡ some y
    → compare name y.name ≡ less
unfolding verify_from
verify_from-less name [] j y h g = cc
verify_from-less name (x ∷ xs) zero y h g =
    subst (λ e. compare name e.name ≡ less) (some-inj g) (verify_from-first name x xs h)
verify_from-less name (x ∷ xs) (suc j) y h g =
    less_trans name x.name y.name (verify_from-first name x xs h)
      (verify_from-less x.name xs j y (verify_from-rest (some name) x xs h) g)

verify_from-IsPartitioned :
    (option : Bytes) (before : Option Bytes) (entries : List CompOpt)
    → verify_from before entries ≡ true
    → IsPartitioned (compare_compopts option) entries
unfolding IsPartitioned compare_compopts
verify_from-IsPartitioned option before [] h i j x y below p q = cc
verify_from-IsPartitioned option before (e ∷ es) h zero zero x y below p q =
    absurd (nothing_below zero below)
verify_from-IsPartitioned option before (e ∷ es) h (suc i) zero x y below p q =
    absurd (nothing_below (suc i) below)
verify_from-IsPartitioned option before (e ∷ es) h zero (suc j) x y below p q =
    subst (λ e. (compare option e.name ≡ greater) ⊎ (compare option y.name ≡ less)) (some-inj p)
      (compare-less e.name y.name option
        (verify_from-less e.name es j y (verify_from-rest before e es h) q))
verify_from-IsPartitioned option before (e ∷ es) h (suc i) (suc j) x y below p q =
    verify_from-IsPartitioned option (some e.name) es (verify_from-rest before e es h) i j x y
      (omega arith) p q

verified : compopt_verify_sortedness_and_flags ≡ true
unfolding compopt_verify_sortedness_and_flags verify_from compare has_flag is_less
verified = refl

-- For every option, the binary search in the table of compiler options gives the first entry
-- whose name is the option's, or none if there is none: the same as a search of the whole table.
pub find-search : (option : Bytes) → find option ≡ search (compare_compopts option) compopts
unfolding find compopt_verify_sortedness_and_flags
find-search option =
    bsearch-search (compare_compopts option) compopts
      (verify_from-IsPartitioned option none compopts verified)

find_prefix-framework : (directory : Bytes) → find_prefix (codes "-Fm" ++ directory) ≡ none
unfolding find_prefix bsearch bsearch_loop compare_prefix_compopts compare
find_prefix-framework directory = refl

find-framework :
    find (codes "-F")
    ≡ some (record {
      name = codes "-F";
      type = affects_cpp + takes_arg + takes_concat_arg + takes_path;
    })
unfolding find bsearch bsearch_loop compare_compopts compare
find-framework = refl

-- Whatever follows -Fm, no prefix of the option is found to affect the preprocessor, though -F
-- is in the table as an option that does and that takes a concatenated argument.
pub compopt_prefix_affects_cpp_output-framework :
    (directory : Bytes)
    → (compopt_prefix_affects_cpp_output (codes "-Fm" ++ directory) ≡ false)
      × (compopt_affects_cpp_output (codes "-F") ≡ true)
      × (compopt_takes_concat_arg (codes "-F") ≡ true)
unfolding compopt_prefix_affects_cpp_output compopt_affects_cpp_output compopt_takes_concat_arg
    has_type has_flag
compopt_prefix_affects_cpp_output-framework directory =
    (rw (find_prefix-framework directory) refl, rw find-framework refl, rw find-framework refl)
