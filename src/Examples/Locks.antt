-- ===== src/Examples/Locks.antt =====
-- Processes that take a lock, and that find a stale one.
use ccache.Prelude.{ℕ, ◌+◌, ◌≡◌, refl, true, false, [], none, some, arith}
use ccache.LockFile.{
  k_staleness_limit, Content, acquired, created, not_permitted, begin, create, act, System, Turn,
  move_to, step, run, unlocked,
}
use ccache.LockFile.Owner.{IsOwner, IsBreaking}
use ccache.LockFile.Exclusion.{start, turn, mutual_exclusion}
use ccache.LockFile.Stale.{
  left_behind, finds_stale, breaks_lock, race, acquire_stale, race_for_stale_lock,
}

abbrev turn_of_one : Turn
turn_of_one = record {
  process = 1;
  blocking = true;
  answer = record { now = 5; link = created; ok = true; finished = false };
}

abbrev begun : System
begun = step true 1 turn_of_one.answer unlocked

abbrev taken : System
taken = step true 1 turn_of_one.answer begun

permitted : created ≡ not_permitted → ⊥
permitted e = cc

mutual_exclusion_example : ◌≡◌ {A = ℕ} 1 1
unfolding IsOwner IsBreaking step move_to act begin create
mutual_exclusion_example =
    mutual_exclusion taken 1 1
      (turn begun turn_of_one (turn unlocked turn_of_one start permitted (λ b. b)) permitted
        (λ b. b))
      tt tt

abbrev stale : Content
stale = record { process = 7; time = 1 }

acquire_stale_example :
    (run
        (finds_stale 1 5 (5 + k_staleness_limit) (breaks_lock 1 (5 + k_staleness_limit) []))
        (left_behind stale (some 3))).places
      1
    ≡ acquired
acquire_stale_example = acquire_stale stale (some 3) 1 5 (5 + k_staleness_limit) refl (omega arith)

race_example :
    let after = run (race 1 2 5 (5 + k_staleness_limit)) (left_behind stale none) in
    (after.places 1 ≡ acquired) × (after.places 2 ≡ acquired)
race_example = race_for_stale_lock stale 1 2 5 (5 + k_staleness_limit) refl refl refl (omega arith)
