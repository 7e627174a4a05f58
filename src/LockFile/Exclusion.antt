-- ===== src/LockFile/Exclusion.antt =====
-- About the mutual exclusion of processes (src/util/LockFile.cpp).
use ccache.Prelude.{
  ℕ, ◌≡◌, inl, inr, refl, sym, Bool, false, Bool-cases, ◌==◌, ==_iff, eq_self, arith,
}
use ccache.LockFile.{not_permitted, Answer, Moved, act, System, move_to, step, Turn, unlocked}
use ccache.LockFile.Owner.{IsOwner, IsBreaking, IsMine, Fits, one_maker, Fits-Changes, act-Acts}

-- Reached in steps in which no process finds a stale lock, where symbolic links are supported.
pub data Reach : System → Type 0 where
  start : Reach unlocked
  turn :
      (s : System) (t : Turn)
      → Reach s
      → (t.answer.link ≡ not_permitted → ⊥)
      → (IsBreaking ((step t.blocking t.process t.answer s).places t.process) → ⊥)
      → Reach (step t.blocking t.process t.answer s)

module _ (blocking : Bool) (p : ℕ) (answer : Answer) (s : System) where
  abbrev moved : Moved
  moved = act blocking p answer (s.places p) s.files

  places_self : (step blocking p answer s).places p ≡ moved.place
  unfolding step move_to
  places_self = rw (eq_self p) refl

  places_other : (q : ℕ) → (p == q) ≡ false → (step blocking p answer s).places q ≡ s.places q
  unfolding step move_to
  places_other q e = rw e refl

  lock_file-step : (step blocking p answer s).files.lock_file ≡ moved.files.lock_file
  unfolding step
  lock_file-step = refl

  -- The step keeps the invariant, for the process itself and for any other.
  Fits-step :
      ((q : ℕ) → Fits q (s.places q) s.files.lock_file)
      → (answer.link ≡ not_permitted → ⊥)
      → (IsBreaking ((step blocking p answer s).places p) → ⊥)
      → (q : ℕ)
      → Fits q ((step blocking p answer s).places q) (step blocking p answer s).files.lock_file
  Fits-step fits supported calm q =
      let acts = act-Acts blocking p answer (s.places p) s.files (fits p) supported in
      elim (Bool-cases (p == q)) [
        | inl same ↦
            let e : q ≡ p = sym ((==_iff p q).0 same) in
            rw (e, places_self, lock_file-step)
              record { calm = rw places_self at calm; mine = acts.mine; made = acts.owns }
        | inr other ↦
            rw (places_other q other, lock_file-step)
              (Fits-Changes p q (s.places q) s.files.lock_file moved.files.lock_file
                (λ e. differ p q other e) acts.change (fits q))
      ]
    where
      differ : (p q : ℕ) → (p == q) ≡ false → p ≡ q → ⊥
      differ p q other e = ground arith

-- In every reachable state, each process fits the lock file.
Reach-Fits : (s : System) → Reach s → (q : ℕ) → Fits q (s.places q) s.files.lock_file
unfolding IsOwner IsMine IsBreaking
Reach-Fits s start q = record { calm = λ o. o; mine = tt; made = λ o. absurd o }
Reach-Fits s (turn before t reach supported calm) q =
    Fits-step t.blocking t.process t.answer before (Reach-Fits before reach) supported calm q

-- In every state that processes reach from an unlocked one, in any order of their file system
-- operations, lost NFS replies and failed operations included, at most one process owns the
-- lock, provided that no process has found a stale lock and that symbolic links are supported.
pub mutual_exclusion :
    (s : System) (p q : ℕ) → Reach s → IsOwner (s.places p) → IsOwner (s.places q) → p ≡ q
mutual_exclusion s p q reach o r =
    one_maker p q s.files.lock_file ((Reach-Fits s reach p).made o) ((Reach-Fits s reach q).made r)
