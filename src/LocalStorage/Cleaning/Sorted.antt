-- ===== src/LocalStorage/Cleaning/Sorted.antt =====
-- About the order in which clean_dir visits the files (src/storage/local/LocalStorage.cpp).
use ccache.Prelude.{
  ℕ, zero, suc, ◌+◌, ◌≤◌, ◌≡◌, refl, ap, ◌∙◌, Bool-cases, inl, inr, List, [], ◌∷◌, length, take,
  drop, leb, arith, All, map,
}
use mathlib.Core.List.{Perm}
use mathlib.Core.List.Perm
use ccache.LocalStorage.Subdirs.Sums.{total}
use ccache.LocalStorage.Cleaning.{DirEntry, insert_by_mtime, sort_by_mtime}

-- No file is older than one before it.
unfoldable pub IsSorted : List DirEntry → Type 0
IsSorted [] = Unit
IsSorted (file ∷ files) = All (λ f. file.mtime ≤ f.mtime) files × IsSorted files

module _ (P : DirEntry → Type 0) where
  All-insert_by_mtime :
      (file : DirEntry) (files : List DirEntry)
      → P file
      → All P files
      → All P (insert_by_mtime file files)
  unfolding insert_by_mtime
  All-insert_by_mtime file [] p h = (p, tt)
  All-insert_by_mtime file (f ∷ files) p (q, h) = elim (Bool-cases (leb file.mtime f.mtime)) [
    | inl e ↦ rw e (p, (q, h))
    | inr e ↦ rw e (q, All-insert_by_mtime file files p h)
  ]

  pub All-sort_by_mtime : (files : List DirEntry) → All P files → All P (sort_by_mtime files)
  unfolding sort_by_mtime
  All-sort_by_mtime [] h = tt
  All-sort_by_mtime (file ∷ files) (p, h) =
      All-insert_by_mtime file (sort_by_mtime files) p (All-sort_by_mtime files h)

total-insert_by_mtime :
    (f : DirEntry → ℕ) (file : DirEntry) (files : List DirEntry)
    → total (map f (insert_by_mtime file files)) ≡ f file + total (map f files)
unfolding insert_by_mtime total
total-insert_by_mtime f file [] = refl
total-insert_by_mtime f file (g ∷ files) = elim (Bool-cases (leb file.mtime g.mtime)) [
  | inl e ↦ rw e refl
  | inr e ↦ rw e (omega (arith, total-insert_by_mtime f file files))
]

pub total-sort_by_mtime :
    (f : DirEntry → ℕ) (files : List DirEntry)
    → total (map f (sort_by_mtime files)) ≡ total (map f files)
unfolding sort_by_mtime total
total-sort_by_mtime f [] = refl
total-sort_by_mtime f (file ∷ files) =
    total-insert_by_mtime f file (sort_by_mtime files) ∙ omega (arith, total-sort_by_mtime f files)

length-insert_by_mtime :
    (file : DirEntry) (files : List DirEntry)
    → length (insert_by_mtime file files) ≡ suc (length files)
unfolding insert_by_mtime
length-insert_by_mtime file [] = refl
length-insert_by_mtime file (g ∷ files) = elim (Bool-cases (leb file.mtime g.mtime)) [
  | inl e ↦ rw e refl
  | inr e ↦ rw e (ap suc (length-insert_by_mtime file files))
]

pub length-sort_by_mtime : (files : List DirEntry) → length (sort_by_mtime files) ≡ length files
unfolding sort_by_mtime
length-sort_by_mtime [] = refl
length-sort_by_mtime (file ∷ files) =
    length-insert_by_mtime file (sort_by_mtime files) ∙ ap suc (length-sort_by_mtime files)

insert_by_mtime-Perm :
    (file : DirEntry) (files : List DirEntry) → Perm (insert_by_mtime file files) (file ∷ files)
unfolding insert_by_mtime
insert_by_mtime-Perm file [] = Perm.rfl
insert_by_mtime-Perm file (f ∷ files) = elim (Bool-cases (leb file.mtime f.mtime)) [
  | inl e ↦ rw e Perm.rfl
  | inr e ↦
      rw e (Perm.trans (Perm.cons f (insert_by_mtime-Perm file files)) (Perm.swap file f files))
]

pub sort_by_mtime-Perm : (files : List DirEntry) → Perm (sort_by_mtime files) files
unfolding sort_by_mtime
sort_by_mtime-Perm [] = Perm.rfl
sort_by_mtime-Perm (file ∷ files) =
    Perm.trans (insert_by_mtime-Perm file (sort_by_mtime files))
      (Perm.cons file (sort_by_mtime-Perm files))

older_still :
    (a b : ℕ) (files : List DirEntry)
    → a ≤ b
    → All (λ f. b ≤ f.mtime) files
    → All (λ f. a ≤ f.mtime) files
older_still a b [] h hs = tt
older_still a b (f ∷ files) h (p, hs) = (omega arith, older_still a b files h hs)

insert_by_mtime-IsSorted :
    (file : DirEntry) (files : List DirEntry)
    → IsSorted files
    → IsSorted (insert_by_mtime file files)
unfolding insert_by_mtime IsSorted
insert_by_mtime-IsSorted file [] h = (tt, tt)
insert_by_mtime-IsSorted file (f ∷ files) (p, h) = elim (Bool-cases (leb file.mtime f.mtime)) [
  | inl e ↦ rw e (((ground arith), older_still file.mtime f.mtime files (ground arith) p), (p, h))
  | inr e ↦ rw e (
    All-insert_by_mtime (λ g. f.mtime ≤ g.mtime) file files (ground arith) p,
    insert_by_mtime-IsSorted file files h,
  )
]

-- The files are sorted, and every sum over them stays as it is.
pub sort_by_mtime_lem :
    (files : List DirEntry)
    → IsSorted (sort_by_mtime files)
      × ((f : DirEntry → ℕ) → total (map f (sort_by_mtime files)) ≡ total (map f files))
unfolding sort_by_mtime IsSorted
sort_by_mtime_lem [] = (tt, λ f. refl)
sort_by_mtime_lem (file ∷ files) = (
  insert_by_mtime-IsSorted file (sort_by_mtime files) (sort_by_mtime_lem files).0,
  λ f. total-sort_by_mtime f (file ∷ files),
)

-- Each of the first `k` files is as old as each of the others.
pub All-take-drop :
    (k : ℕ) (files : List DirEntry)
    → IsSorted files
    → All (λ f. All (λ g. f.mtime ≤ g.mtime) (drop k files)) (take k files)
unfolding IsSorted
All-take-drop zero files h = tt
All-take-drop (suc k) [] h = tt
All-take-drop (suc k) (f ∷ files) (p, h) = (All-drop f.mtime k files p, All-take-drop k files h)
  where
    All-drop :
        (a k : ℕ) (files : List DirEntry)
        → All (λ g. a ≤ g.mtime) files
        → All (λ g. a ≤ g.mtime) (drop k files)
    All-drop a zero files h = h
    All-drop a (suc k) [] h = tt
    All-drop a (suc k) (g ∷ files) (p, h) = All-drop a k files h
