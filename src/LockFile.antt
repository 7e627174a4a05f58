-- ===== src/LockFile.antt =====
-- Lock files that several processes compete for (src/util/LockFile.cpp, where symbolic links are
-- used: do_acquire, acquire, release). Each step of a process is one file system operation
-- with what the code does up to the next one.
pub mod Owner
pub mod Exclusion
pub mod Stale
use ccache.Prelude.{
  ℕ, zero, suc, ◌+◌, ◌-◌, ◌*◌, ◌^◌, Bool, true, false, List, [], ◌∷◌, Option, none, some, ltb, ◌==◌,
  ◌&&◌, ◌||◌, not, if◌then◌else◌,
}

-- Nanoseconds.
abbrev pub k_staleness_limit : ℕ
k_staleness_limit = 2 * 10 ^ 9

-- What the symbolic link of a lock file says: who made it, and when.
pub record Content : Type 0 where
  pub process : ℕ
  pub time : ℕ

unfoldable pub same_content : Content → Content → Bool
same_content c d = c.process == d.process && c.time == d.time

-- The two files of a lock: the content of the lock file and the modification time of the alive
-- file, where they exist.
pub record Files : Type 0 where
  pub lock_file : Option Content
  pub alive_file : Option ℕ

-- Where a process is, with the variables of do_acquire that it still needs.
pub data Place : Type 0 where
  -- No lock is acquired and no call is active.
  idle : Place
  -- Before the call of create_symlink.
  trying : (last_seen_activity : ℕ) → (initial_content : Option Content) → Place
  -- Before the call of read_symlink.
  reading :
      (my_content : Content) → (last_seen_activity : ℕ) → (initial_content : Option Content) → Place
  -- Before the second call of get_last_lock_update.
  checking : (content : Content) → (last_seen_activity : ℕ) → (initial_content : Content) → Place
  -- Before the removal of the alive file and of the lock file of a stale lock.
  breaking : (last_seen_activity : ℕ) → (initial_content : Content) → Place
  breaking_lock : (last_seen_activity : ℕ) → (initial_content : Content) → Place
  sleeping : (last_seen_activity : ℕ) → (initial_content : Content) → Place
  -- do_acquire has returned true; before the alive file is written.
  acquired : Place
  holding : Place
  -- Before release removes the lock file.
  releasing : Place

-- What create_symlink answers: a link was made although an NFS server's reply, that it was, is
-- lost (EEXIST); the parent directory was missing and could be created.
pub data Created : Type 0 where
  created lost_reply exists made_directory not_permitted other_error : Created

-- The answers of the operating system to one step, of which the step uses some.
pub record Answer : Type 0 where
  pub now : ℕ
  pub link : Created
  -- Whether another operation succeeds.
  pub ok : Bool
  -- Whether the holder goes on to release the lock, or another thread touches the alive file.
  pub finished : Bool

pub record Moved : Type 0 where
  pub place : Place
  pub files : Files

-- The first call of get_last_lock_update.
unfoldable pub begin : Answer → Files → Moved
begin answer files = record {
  place = trying (elim files.alive_file [ none ↦ answer.now | some time ↦ time ]) none;
  files = files;
}

abbrev pub my_content : ℕ → Answer → Content
my_content p answer = record { process = p; time = answer.now }

abbrev pub with_lock : Option Content → Files → Files
with_lock lock files = record { lock_file = lock; alive_file = files.alive_file }

abbrev pub with_alive : Option ℕ → Files → Files
with_alive alive files = record { lock_file = files.lock_file; alive_file = alive }

-- create_symlink makes no link where there is one, and finds one only where there is.
unfoldable pub create : ℕ → Answer → ℕ → Option Content → Files → Created → Option Content → Moved
create p answer last initial files created none = record {
  place = acquired;
  files = with_lock (some (my_content p answer)) files;
}
create p answer last initial files lost_reply none = record {
  place = reading (my_content p answer) last initial;
  files = with_lock (some (my_content p answer)) files;
}
create p answer last initial files exists (some content) = record {
  place = reading (my_content p answer) last initial;
  files = files;
}
create p answer last initial files made_directory lock = record {
  place = trying last initial;
  files = files;
}
create p answer last initial files not_permitted lock = record { place = acquired; files = files }
create p answer last initial files other_error lock = record { place = idle; files = files }
create p answer last initial files created (some content) = record {
  place = trying last initial;
  files = files;
}
create p answer last initial files lost_reply (some content) = record {
  place = trying last initial;
  files = files;
}
create p answer last initial files exists none = record {
  place = trying last initial;
  files = files;
}

unfoldable pub value_or : Option Content → Content → Content
value_or none content = content
value_or (some initial) content = initial

unfoldable pub read : Answer → Content → ℕ → Option Content → Files → Option Content → Moved
unfolding same_content value_or
read answer mine last initial files none = record {
  place = if answer.ok then trying last initial else idle;
  files = files;
}
read answer mine last initial files (some content) = record {
  place =
      if not answer.ok
      then idle
      else if same_content content mine
      then acquired
      else checking content last (value_or initial content);
  files = files;
}

-- Whether the alive file was touched after `last`, and the later of the two times.
unfoldable pub is_newer : Option ℕ → ℕ → Bool
is_newer none last = false
is_newer (some time) last = ltb last time

unfoldable pub last_activity : Option ℕ → ℕ → ℕ
last_activity none last = last
last_activity (some time) last = if ltb last time then time else last

unfoldable pub check : Bool → Answer → Content → ℕ → Content → Files → Place
unfolding is_newer last_activity same_content
check blocking answer content last initial files =
    let newer = is_newer files.alive_file last in
    let last = last_activity files.alive_file last in
    if newer && not blocking
    then idle
    else if ltb (answer.now - last) k_staleness_limit
    then sleeping last initial
    else if same_content content initial
    then breaking last initial
    else if not blocking
    then idle
    else sleeping last content

-- One step of process `p`; `blocking` tells acquire from try_acquire.
unfoldable pub act : Bool → ℕ → Answer → Place → Files → Moved
unfolding begin create read check
act blocking p answer idle files = begin answer files
act blocking p answer (trying last initial) files =
    create p answer last initial files answer.link files.lock_file
act blocking p answer (reading mine last initial) files =
    read answer mine last initial files files.lock_file
act blocking p answer (checking content last initial) files = record {
  place = check blocking answer content last initial files;
  files = files;
}
act blocking p answer (breaking last initial) files =
    if answer.ok
    then record { place = breaking_lock last initial; files = with_alive none files }
    else record { place = idle; files = files }
act blocking p answer (breaking_lock last initial) files =
    if answer.ok
    then record { place = sleeping last initial; files = with_lock none files }
    else record { place = idle; files = files }
act blocking p answer (sleeping last initial) files = record {
  place = trying last (some initial);
  files = files;
}
act blocking p answer acquired files = record {
  place = holding;
  files = with_alive (if answer.ok then some answer.now else files.alive_file) files;
}
act blocking p answer holding files =
    if answer.finished
    then record { place = releasing; files = with_alive none files }
    else record { place = holding; files = with_alive (some answer.now) files }
act blocking p answer releasing files = record { place = idle; files = with_lock none files }

-- The processes and the files they share.
pub record System : Type 0 where
  pub places : ℕ → Place
  pub files : Files

unfoldable pub move_to : ℕ → Place → (ℕ → Place) → ℕ → Place
move_to p place places q = if p == q then place else places q

unfoldable pub step : Bool → ℕ → Answer → System → System
unfolding act move_to
step blocking p answer s =
    let moved = act blocking p answer (s.places p) s.files in
    record { places = move_to p moved.place s.places; files = moved.files }

pub record Turn : Type 0 where
  pub process : ℕ
  pub blocking : Bool
  pub answer : Answer

-- The steps in the order in which they happen.
unfoldable pub run : List Turn → System → System
unfolding step
run [] s = s
run (turn ∷ turns) s = run turns (step turn.blocking turn.process turn.answer s)

abbrev pub unlocked : System
unlocked = record { places = λ p. idle; files = record { lock_file = none; alive_file = none } }
