-- ===== src/Counters/File/Update.antt =====
-- About StatsFile::update and the next read (src/storage/local/StatsFile.cpp).
use ccache.Prelude.{
  ℕ, suc, ◌+◌, ◌-◌, ◌^◌, ◌≤◌, ◌<◌, ◌≡◌, refl, sym, ap, ◌∙◌, Bool, true, false, Bool-cases, inl, inr,
  Bytes, [], ◌∷◌, ◌++◌, append_assoc, append-nil, Option, some, length, length-append, set, drop,
  replicate, eq_bytes_self, All, arith, leb, le→leb,
}
use ccache.Counters.{Counters, new, set_raw, grow_to, resize, statistic_end}
use ccache.Counters.File.{read_text, format_text, read_file, write_back, update_with, update}
use ccache.Counters.File.RoundTrip.{put_all, read_loop-format_text}

set-append :
    (pre old : Counters) (o v : ℕ) → set (pre ++ (o ∷ old)) (length pre) v ≡ pre ++ (v ∷ old)
set-append [] old o v = refl
set-append (p ∷ pre) old o v = ap (λ (t : Counters). p ∷ t) (set-append pre old o v)

-- set_raw at the end of a prefix replaces what follows it, or adds to it.
set_raw-append :
    (pre old : Counters) (v : ℕ) → set_raw (length pre) v (pre ++ old) ≡ pre ++ (v ∷ drop 1 old)
unfolding set_raw grow_to resize
set_raw-append pre [] v =
    let one : length pre + 1 - length (pre ++ []) ≡ 1 = omega (arith, length-append pre []) in
    let grows : leb (length (pre ++ [])) (length pre) ≡ true =
      le→leb _ _ (omega (arith, length-append pre [])) in
    rw (grows, one) (rw (append-nil pre) (set-append pre [] 0 v))
set_raw-append pre (o ∷ old) v =
    let fits : leb (length (pre ++ (o ∷ old))) (length pre) ≡ false =
      ground (arith, length-append pre (o ∷ old)) in
    rw fits (set-append pre old o v)

put_all-append :
    (vs pre old : Counters)
    → length old ≤ length vs
    → put_all (length pre) vs (pre ++ old) ≡ pre ++ vs
unfolding put_all
put_all-append [] pre [] h = refl
put_all-append [] pre (o ∷ old) h = absurd (omega arith)
put_all-append (v ∷ vs) pre old h =
    ap (put_all (length pre + 1) vs)
      (set_raw-append pre old v ∙ sym (append_assoc pre (v ∷ []) (drop 1 old)))
    ∙ (ap (λ (n : ℕ). put_all n vs ((pre ++ (v ∷ [])) ++ drop 1 old))
          (sym (length-append pre (v ∷ [])))
        ∙ (put_all-append vs (pre ++ (v ∷ [])) (drop 1 old) (shorter old h)
            ∙ append_assoc pre (v ∷ []) vs))
  where
    shorter :
        (old : Counters) → length old ≤ suc (length vs) → length (drop {A = ℕ} 1 old) ≤ length vs
    shorter [] h = omega arith
    shorter (o ∷ old) h = omega arith

-- Counters that a stats file can hold: at least as many as there are statistics, and of 64 bits.
pub record IsComplete (cs : Counters) : Type 0 where
  pub enough : statistic_end ≤ length cs
  pub small : All (λ c. c < 2 ^ 64) cs

-- Counters of 64 bits, at least as many as there are statistics, are read back from the lines
-- that they are written as.
read_text-format_text : (cs : Counters) → IsComplete cs → read_text (format_text cs) ≡ some cs
unfolding read_text new
read_text-format_text cs c =
    read_loop-format_text cs (suc (length (format_text cs))) 0 (format_text cs)
      (replicate statistic_end 0) refl (omega arith) c.small
    ∙ ap some (put_all-append cs [] (replicate statistic_end 0) c.enough)

-- An update of a stats file that is locked and committed gives the function of the counters that
-- were read, writes them, and the next reader of the file gets them. They must be at least as
-- many as there are statistics, each of 64 bits.
pub update_lem :
    (function : Counters → Counters) (content : Option Bytes) (cs : Counters)
    → read_file content ≡ some cs
    → IsComplete (function cs)
    → (update function false true true content
        ≡ (some (function cs), some (format_text (function cs))))
      × (read_file (some (format_text (function cs))) ≡ some (function cs))
unfolding update update_with write_back read_file
update_lem function content cs read complete = (
  ap (update_with function false true content) read,
  read_text-format_text (function cs) complete,
)

-- An update only if changed leaves the file as it is where the function gives the counters that
-- were read, whether or not the lock is acquired.
pub update_if_changed :
    (function : Counters → Counters) (acquired commits : Bool) (content : Option Bytes)
    (cs : Counters)
    → read_file content ≡ some cs
    → function cs ≡ cs
    → (update function true acquired commits content).1 ≡ content
unfolding update update_with write_back
update_if_changed function acquired commits content cs read same = elim (Bool-cases acquired) [
  | inl locked ↦ rw (locked, read, update_with) (rw (same, eq_bytes_self cs) refl)
  | inr failed ↦ rw failed refl
]
