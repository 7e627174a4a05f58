-- ===== src/Manifest/Lookup/Newest.antt =====
-- About the order and the answer of look_up_result_digest (src/core/Manifest.cpp).
use mathlib.Core.List.{reverse, reverse-append}
use mathlib.Core.Path.{subst}
use ccache.Prelude.{
  ℕ, ◌≡◌, refl, sym, ap, ◌∙◌, Bool, true, false, Bytes, List, [], ◌∷◌, ◌++◌, Option, none, some,
  All, All-append, Bool-cases, inl, inr, get_elem?, ◌&&◌, if◌then◌else◌,
}
use ccache.Manifest.Types.{FileInfo, ResultEntry, Manifest}
use ccache.Manifest.Lookup.{
  Context, Caches, find, go_on, at_path, at_info, result_matches, if_matched, look_up,
  look_up_result_digest, file_matches,
}
use ccache.Manifest.Lookup.Cached.{unchanged, IsConsistent, Judged, file_matches_lem}

-- Every index of the result is one of a file that the tables know.
pub data IsKnown (m : Manifest) : List ℕ → Type 0 where
  nil : IsKnown m []
  cons :
      (index : ℕ) (indexes : List ℕ) (fi : FileInfo) (path : Bytes)
      → get_elem? m.file_infos index ≡ some fi
      → get_elem? m.files fi.index ≡ some path
      → IsKnown m indexes
      → IsKnown m (index ∷ indexes)

-- All files of a result are unchanged.
unchanged_path : Context → FileInfo → Option Bytes → Bool
unchanged_path ctx fi none = false
unchanged_path ctx fi (some path) = unchanged ctx fi path

unchanged_at : Context → Manifest → Option FileInfo → Bool
unfolding unchanged_path
unchanged_at ctx m none = false
unchanged_at ctx m (some fi) = unchanged_path ctx fi (get_elem? m.files fi.index)

unfoldable pub all_unchanged : Context → Manifest → List ℕ → Bool
unfolding unchanged_at
all_unchanged ctx m [] = true
all_unchanged ctx m (index ∷ indexes) =
    unchanged_at ctx m (get_elem? m.file_infos index) && all_unchanged ctx m indexes

-- The key of the last result in the list that passes the test.
abbrev or_this : (List ℕ → Bool) → ResultEntry → Option Bytes → Option Bytes
or_this test result (some key) = some key
or_this test result none = if test result.file_info_indexes then some result.key else none

unfoldable pub newest : (List ℕ → Bool) → List ResultEntry → Option Bytes
newest test [] = none
newest test (result ∷ newer) = or_this test result (newest test newer)

-- What a call returns, in these terms.
record Returns (ctx : Context) (verdict : Bool) (r : Option (Bool × Caches)) : Type 0 where
  answer : Bool
  caches : Caches
  returned : r ≡ some (answer, caches)
  right : answer ≡ verdict
  consistent : IsConsistent ctx caches

go_on_lem :
    (ctx : Context) (rest : Caches → Option (Bool × Caches)) (r : Bool × Caches) (v w : Bool)
    → Judged ctx v r
    → ((caches : Caches) → IsConsistent ctx caches → Returns ctx w (rest caches))
    → Returns ctx (v && w) (go_on rest false r)
unfolding go_on
go_on_lem ctx rest (true, caches) v w (e, c) k = rw (← e) (k caches c)
go_on_lem ctx rest (false, caches) v w (e, c) k =
    rw (← e)
      (record { answer = false; caches = caches; returned = refl; right = refl; consistent = c })

result_matches_lem :
    (ctx : Context) (m : Manifest) (indexes : List ℕ)
    → IsKnown m indexes
    → (caches : Caches) → IsConsistent ctx caches
    → Returns ctx (all_unchanged ctx m indexes) (result_matches ctx m indexes caches)
unfolding result_matches all_unchanged
result_matches_lem ctx m _ nil caches c = record {
  answer = true;
  caches = caches;
  returned = refl;
  right = refl;
  consistent = c;
}
result_matches_lem ctx m _ (cons index indexes fi path p q known) caches c =
    rw (p, at_info, unchanged_at)
      (rw (q, at_path, unchanged_path)
        (go_on_lem ctx (result_matches ctx m indexes) (file_matches ctx fi path caches)
          (unchanged ctx fi path) (all_unchanged ctx m indexes)
          (file_matches_lem ctx fi path caches c) (result_matches_lem ctx m indexes known)))

first : (List ℕ → Bool) → List ResultEntry → Option Bytes
first test [] = none
first test (result ∷ rest) =
    if test result.file_info_indexes then some result.key else first test rest

if_matched_lem :
    (ctx : Context) (next : Caches → Option (Option Bytes)) (key : Bytes) (v : Bool)
    (after : Option Bytes) (r : Option (Bool × Caches))
    → Returns ctx v r
    → ((caches : Caches) → IsConsistent ctx caches → next caches ≡ some after)
    → if_matched next key r ≡ some (if v then some key else after)
unfolding if_matched
if_matched_lem ctx next key v after r h k =
    ap (if_matched next key) h.returned ∙ decide h.answer v h.right
  where
    decide :
        (b w : Bool)
        → b ≡ w
        → if_matched next key (some (b, h.caches)) ≡ some (if w then some key else after)
    decide true true e = refl
    decide true false e = cc
    decide false true e = cc
    decide false false e = k h.caches h.consistent

look_up_lem :
    (ctx : Context) (m : Manifest) (results : List ResultEntry) (caches : Caches)
    → All (λ (r : ResultEntry). IsKnown m r.file_info_indexes) results
    → IsConsistent ctx caches
    → look_up ctx m results caches ≡ some (first (all_unchanged ctx m) results)
unfolding look_up first
look_up_lem ctx m [] caches known c = refl
look_up_lem ctx m (result ∷ older) caches (known, all_known) c =
    if_matched_lem ctx (look_up ctx m older) result.key _ _ _
      (result_matches_lem ctx m result.file_info_indexes known caches c)
      (λ caches' c'. look_up_lem ctx m older caches' all_known c')

first-append :
    (test : List ℕ → Bool) (xs : List ResultEntry) (x : ResultEntry)
    → first test (xs ++ x ∷ []) ≡ or_this test x (first test xs)
unfolding first
first-append test [] x = refl
first-append test (y ∷ xs) x = elim (Bool-cases (test y.file_info_indexes)) [
  | inl passes ↦ rw passes
  | inr fails ↦ rw fails (first-append test xs x)
]

first-reverse :
    (test : List ℕ → Bool) (results : List ResultEntry)
    → first test (reverse results) ≡ newest test results
unfolding newest first
first-reverse test [] = refl
first-reverse test (x ∷ results) =
    ap (first test) (reverse-append (x ∷ []) results)
    ∙ (first-append test (reverse results) x ∙ ap (or_this test x) (first-reverse test results))

All-reverse :
    (m : Manifest) (results : List ResultEntry)
    → All (λ (r : ResultEntry). IsKnown m r.file_info_indexes) results
    → All (λ (r : ResultEntry). IsKnown m r.file_info_indexes) (reverse results)
All-reverse m [] h = h
All-reverse m (x ∷ results) (hx, hs) =
    subst (All (λ (r : ResultEntry). IsKnown m r.file_info_indexes))
      (sym (reverse-append (x ∷ []) results))
      (All-append _ (reverse results) (x ∷ []) (All-reverse m results hs) (hx, tt))

-- In a manifest whose indexes are all within the tables, a look-up ends, and gives the key of
-- the newest result all of whose files are unchanged, or no key if there is none: the order of
-- the search and the caches of file statistics and digests do not change the answer.
pub look_up_result_digest_lem :
    (ctx : Context) (m : Manifest)
    → All (λ (r : ResultEntry). IsKnown m r.file_info_indexes) m.results
    → look_up_result_digest ctx m ≡ some (newest (all_unchanged ctx m) m.results)
unfolding look_up_result_digest find
look_up_result_digest_lem ctx m known =
    look_up_lem ctx m (reverse m.results) _ (All-reverse m m.results known)
      (record { stated = λ path fs h. absurd (cc h); hashed = λ path digest h. absurd (cc h) })
    ∙ ap (λ (r : Option Bytes). some r) (first-reverse (all_unchanged ctx m) m.results)
