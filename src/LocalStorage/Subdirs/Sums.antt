-- ===== src/LocalStorage/Subdirs/Sums.antt =====
-- About the loops that add up the counters of the subdirectories
-- (src/storage/local/LocalStorage.cpp).
use ccache.Prelude.{
  ℕ, zero, suc, ◌+◌, ◌/◌, ◌%◌, ◌^◌, ◌≤◌, ◌<◌, ◌≡◌, refl, ap, ◌∙◌, List, [], ◌∷◌, length, length-set,
  set, get_or, ◌==◌, if◌then◌else◌, arith, map, ==_iff, Bool-cases, false, inl, inr,
}
use ccache.Counters.{Counters}
use ccache.Counters.Laws.{value, value-set}
use ccache.LocalStorage.Subdirs.{
  subdir_files_base, subdir_size_kibibyte_base, Level2Counters, sum_with, set_subdirs, sum_subdirs,
}

-- Sums that do not wrap.
unfoldable pub total : List ℕ → ℕ
total [] = 0
total (n ∷ ns) = n + total ns

unfoldable pub up_to : (ℕ → ℕ) → ℕ → ℕ
up_to f zero = 0
up_to f (suc count) = up_to f count + f count

up_to-suc : (f : ℕ → ℕ) (count : ℕ) → up_to f (suc count) ≡ f 0 + up_to (λ i. f (suc i)) count
unfolding up_to
up_to-suc f zero = omega arith
up_to-suc f (suc count) = omega (arith, up_to-suc f count)

pub up_to-get_or : (ns : List ℕ) → up_to (λ i. get_or ns i 0) (length ns) ≡ total ns
unfolding total up_to
up_to-get_or [] = refl
up_to-get_or (n ∷ ns) =
    up_to-suc (λ i. get_or (n ∷ ns) i 0) (length ns) ∙ omega (arith, up_to-get_or ns)

pub up_to-ext :
    (f g : ℕ → ℕ) (count : ℕ) → ((i : ℕ) → i < count → f i ≡ g i) → up_to f count ≡ up_to g count
unfolding up_to
up_to-ext f g zero h = refl
up_to-ext f g (suc count) h =
    omega (arith, up_to-ext f g count (λ i p. h i (omega arith)), h count (omega arith))

pub up_to-member : (f : ℕ → ℕ) (count i : ℕ) → i < count → f i ≤ up_to f count
unfolding up_to
up_to-member f zero i h = absurd (omega arith)
up_to-member f (suc count) i h = elim (Bool-cases (i == count)) [
  | inl e ↦ let same : i ≡ count = (==_iff i count).0 e in rw same (omega arith)
  | inr e ↦ omega (arith, up_to-member f count i (ground arith))
]

up_to-same :
    (f g : ℕ → ℕ) (count i : ℕ)
    → count ≤ i
    → ((j : ℕ) → j < count → (i == j) ≡ false → g j ≡ f j)
    → up_to g count ≡ up_to f count
unfolding up_to
up_to-same f g zero i h same = refl
up_to-same f g (suc count) i h same = omega (
  arith,
  up_to-same f g count i (omega arith) (λ j p. same j (omega arith)),
  same count (omega arith) (ground arith),
)

-- A sum in which one summand changes.
pub up_to-changed :
    (f g : ℕ → ℕ) (count i : ℕ)
    → i < count
    → ((j : ℕ) → j < count → (i == j) ≡ false → g j ≡ f j)
    → up_to g count + f i ≡ up_to f count + g i
unfolding up_to
up_to-changed f g zero i h same = absurd (omega arith)
up_to-changed f g (suc count) i h same = elim (Bool-cases (i == count)) [
  | inl e ↦
      let here : i ≡ count = (==_iff i count).0 e in
      rw here (omega (arith, up_to-same f g count i (omega arith) (λ j p. same j (omega arith))))
  | inr e ↦ omega (
    arith,
    up_to-changed f g count i (ground arith) (λ j p. same j (omega arith)),
    same count (omega arith) e,
  )
]

-- The loops wrap only where the sum does not fit 64 bits.
pub sum_subdirs-up_to :
    (counters : Counters) (base count : ℕ)
    → up_to (λ i. value counters (base + i)) count < 2 ^ 64
    → sum_subdirs counters base count ≡ up_to (λ i. value counters (base + i)) count
unfolding sum_subdirs up_to
sum_subdirs-up_to counters base zero h = refl
sum_subdirs-up_to counters base (suc count) h =
    omega (arith, sum_subdirs-up_to counters base count (omega arith))

pub sum_with-total :
    (field : Level2Counters → ℕ) (sum : ℕ) (l2 : List Level2Counters)
    → sum + total (map field l2) < 2 ^ 64
    → sum_with field sum l2 ≡ sum + total (map field l2)
unfolding sum_with total
sum_with-total field sum [] h = omega arith
sum_with-total field sum (c ∷ l2) h =
    let e : (sum + field c) % 2 ^ 64 ≡ sum + field c = omega arith in
    rw e (sum_with-total field (sum + field c) l2 (omega arith) ∙ omega arith)

-- The counters outside of the range that the loop of set_counters writes.
pub length-set_subdirs :
    (i : ℕ) (l2 : List Level2Counters) (cs : Counters) → length (set_subdirs i l2 cs) ≡ length cs
unfolding set_subdirs
length-set_subdirs i [] cs = refl
length-set_subdirs i (c ∷ l2) cs =
    length-set_subdirs (i + 1) l2 _ ∙ (length-set _ _ _ ∙ length-set _ _ _)

set_both :
    (cs : Counters) (i k f s : ℕ)
    → subdir_size_kibibyte_base + i < length cs
    → value (set (set cs (subdir_files_base + i) f) (subdir_size_kibibyte_base + i) s) k ≡ (
        if subdir_size_kibibyte_base + i == k
        then s
        else if subdir_files_base + i == k
        then f
        else value cs k)
set_both cs i k f s h =
    value-set (set cs (subdir_files_base + i) f) (subdir_size_kibibyte_base + i) k s
      (omega (arith, length-set cs (subdir_files_base + i) f))
    ∙ ap (λ (v : ℕ). if subdir_size_kibibyte_base + i == k then s else v)
        (value-set cs (subdir_files_base + i) k f (omega arith))

pub value-set_subdirs_outside :
    (i : ℕ) (l2 : List Level2Counters) (cs : Counters) (k : ℕ)
    → subdir_size_kibibyte_base + i + length l2 ≤ length cs
    → k < subdir_files_base + i
    → value (set_subdirs i l2 cs) k ≡ value cs k
unfolding set_subdirs
value-set_subdirs_outside i [] cs k h p = refl
value-set_subdirs_outside i (c ∷ l2) cs k h p =
    value-set_subdirs_outside (i + 1) l2 _ k
      (omega (
        arith,
        length-set (set cs (subdir_files_base + i) c.files) (subdir_size_kibibyte_base + i)
            (c.size / 1024),
        length-set cs (subdir_files_base + i) c.files,
      ))
      (omega arith)
    ∙ (set_both cs i k c.files (c.size / 1024) (omega arith) ∙ ground arith)

room_left :
    (c : Level2Counters) (cs : Counters) (i n : ℕ)
    → subdir_size_kibibyte_base + i + suc n ≤ length cs
    → subdir_size_kibibyte_base + (i + 1) + n
      ≤ length (
          set
            (set cs (subdir_files_base + i) c.files)
            (subdir_size_kibibyte_base + i)
            (c.size / 1024))
room_left c cs i n h = omega (
  arith,
  length-set (set cs (subdir_files_base + i) c.files) (subdir_size_kibibyte_base + i)
      (c.size / 1024),
  length-set cs (subdir_files_base + i) c.files,
)

pub value-set_subdirs_between :
    (i : ℕ) (l2 : List Level2Counters) (cs : Counters) (k : ℕ)
    → subdir_size_kibibyte_base + i + length l2 ≤ length cs
    → subdir_files_base + i + length l2 ≤ k
    → k < subdir_size_kibibyte_base + i
    → value (set_subdirs i l2 cs) k ≡ value cs k
unfolding set_subdirs
value-set_subdirs_between i [] cs k h p q = refl
value-set_subdirs_between i (c ∷ l2) cs k h p q =
    value-set_subdirs_between (i + 1) l2 _ k (room_left c cs i (length l2) h) (omega arith)
      (omega arith)
    ∙ (set_both cs i k c.files (c.size / 1024) (omega arith) ∙ ground arith)

pub value-set_subdirs_files :
    (i : ℕ) (l2 : List Level2Counters) (cs : Counters) (j : ℕ)
    → subdir_size_kibibyte_base + i + length l2 ≤ length cs
    → i + length l2 ≤ 16
    → j < length l2
    → value (set_subdirs i l2 cs) (subdir_files_base + i + j) ≡ get_or (map (λ c. c.files) l2) j 0
unfolding set_subdirs
value-set_subdirs_files i [] cs j h few p = absurd (omega arith)
value-set_subdirs_files i (c ∷ l2) cs zero h few p =
    value-set_subdirs_outside (i + 1) l2 _ (subdir_files_base + i + 0)
      (room_left c cs i (length l2) h) (omega arith)
    ∙ (set_both cs i (subdir_files_base + i + 0) c.files (c.size / 1024) (omega arith)
        ∙ ground arith)
value-set_subdirs_files i (c ∷ l2) cs (suc j) h few p =
    ap (value (set_subdirs (i + 1) l2 _)) (next i j)
    ∙ value-set_subdirs_files (i + 1) l2 _ j (room_left c cs i (length l2) h) (omega arith)
        (omega arith)
  where
    next : (i j : ℕ) → subdir_files_base + i + suc j ≡ subdir_files_base + (i + 1) + j
    next i j = omega arith

pub value-set_subdirs_size :
    (i : ℕ) (l2 : List Level2Counters) (cs : Counters) (j : ℕ)
    → subdir_size_kibibyte_base + i + length l2 ≤ length cs
    → i + length l2 ≤ 16
    → j < length l2
    → value (set_subdirs i l2 cs) (subdir_size_kibibyte_base + i + j)
      ≡ get_or (map (λ c. c.size / 1024) l2) j 0
unfolding set_subdirs
value-set_subdirs_size i [] cs j h few p = absurd (omega arith)
value-set_subdirs_size i (c ∷ l2) cs zero h few p =
    value-set_subdirs_between (i + 1) l2 _ (subdir_size_kibibyte_base + i + 0)
      (room_left c cs i (length l2) h) (omega arith) (omega arith)
    ∙ (set_both cs i (subdir_size_kibibyte_base + i + 0) c.files (c.size / 1024) (omega arith)
        ∙ ground arith)
value-set_subdirs_size i (c ∷ l2) cs (suc j) h few p =
    ap (value (set_subdirs (i + 1) l2 _)) (next i j)
    ∙ value-set_subdirs_size (i + 1) l2 _ j (room_left c cs i (length l2) h) (omega arith)
        (omega arith)
  where
    next :
        (i j : ℕ) → subdir_size_kibibyte_base + i + suc j ≡ subdir_size_kibibyte_base + (i + 1) + j
    next i j = omega arith
