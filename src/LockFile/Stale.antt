-- ===== src/LockFile/Stale.antt =====
-- About a lock file that a dead process has left (src/util/LockFile.cpp).
use ccache.Prelude.{
  ℕ, ◌+◌, ◌-◌, ◌≤◌, ◌≡◌, refl, true, false, List, [], ◌∷◌, Option, none, some, ltb, le→not_ltb,
  ◌==◌, eq_self, arith,
}
use ccache.LockFile.{
  k_staleness_limit, Content, same_content, idle, acquired, Created, created, exists, begin, create,
  value_or, read, is_newer, last_activity, check, act, System, move_to, step, Turn, run,
}

-- A step of process `p` at a time, where each operation succeeds.
abbrev pub turn_at : ℕ → ℕ → Created → Turn
turn_at p now link = record {
  process = p;
  blocking = true;
  answer = record { now = now; link = link; ok = true; finished = false };
}

-- `p` calls acquire at one time, finds the lock file, and looks for a sign of life at another.
abbrev pub finds_stale : ℕ → ℕ → ℕ → List Turn → List Turn
finds_stale p before now turns =
    turn_at p before exists
    ∷ turn_at p before exists
    ∷ turn_at p before exists
    ∷ turn_at p now exists
    ∷ turns

-- It removes both files, sleeps, and makes a lock file of its own.
abbrev pub breaks_lock : ℕ → ℕ → List Turn → List Turn
breaks_lock p now turns =
    turn_at p now exists
    ∷ turn_at p now exists
    ∷ turn_at p now exists
    ∷ turn_at p now created
    ∷ turns

-- No process is active, and the lock file is there, maybe with an alive file.
abbrev pub left_behind : Content → Option ℕ → System
left_behind content alive = record {
  places = λ p. idle;
  files = record { lock_file = some content; alive_file = alive };
}

-- The last sign of life that a process sees that starts at a time.
abbrev pub seen_by : ℕ → Option ℕ → ℕ
seen_by before none = before
seen_by before (some time) = time

-- A process that calls acquire while a lock file of another process is left behind, with or
-- without an alive file, and that looks again at least the staleness limit after the last sign
-- of life, breaks the lock and acquires it, where no other process acts and its operations
-- succeed.
pub acquire_stale :
    (content : Content) (alive : Option ℕ) (p before now : ℕ)
    → (content.process == p) ≡ false
    → seen_by before alive + k_staleness_limit ≤ now
    → (run (finds_stale p before now (breaks_lock p now [])) (left_behind content alive)).places p
      ≡ acquired
unfolding run step act begin create read check value_or same_content is_newer last_activity move_to
acquire_stale content none p before now other late =
    let old : ltb (now - before) k_staleness_limit ≡ false =
      le→not_ltb (now - before) k_staleness_limit (omega arith) in
    rw (eq_self p, other, old, eq_self content.process, eq_self content.time) refl
acquire_stale content (some time) p before now other late =
    let old : ltb (now - time) k_staleness_limit ≡ false =
      le→not_ltb (now - time) k_staleness_limit (omega arith) in
    rw
      (
        eq_self p,
        other,
        le→not_ltb time time (omega arith),
        old,
        eq_self content.process,
        eq_self content.time,
      )
      refl

-- Two processes find the lock stale before the first of them breaks it.
abbrev pub race : ℕ → ℕ → ℕ → ℕ → List Turn
race p q before now =
    finds_stale p before now (finds_stale q before now (breaks_lock p now (breaks_lock q now [])))

-- Without the provision that no process finds a stale lock there is no mutual exclusion: any two
-- processes that both find the lock of a third stale before one of them breaks it can both
-- acquire it.
pub race_for_stale_lock :
    (content : Content) (p q before now : ℕ)
    → (p == q) ≡ false
    → (content.process == p) ≡ false
    → (content.process == q) ≡ false
    → before + k_staleness_limit ≤ now
    → let after = run (race p q before now) (left_behind content none) in
      (after.places p ≡ acquired) × (after.places q ≡ acquired)
unfolding run step act begin create read check value_or same_content is_newer last_activity move_to
race_for_stale_lock content p q before now apart other_p other_q late =
    let old : ltb (now - before) k_staleness_limit ≡ false =
      le→not_ltb (now - before) k_staleness_limit (omega arith) in
    let apart' : (q == p) ≡ false = ground arith in
    rw
      (
        eq_self p,
        eq_self q,
        apart,
        apart',
        other_p,
        other_q,
        old,
        eq_self content.process,
        eq_self content.time,
      )
      (refl, refl)
