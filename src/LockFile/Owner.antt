-- ===== src/LockFile/Owner.antt =====
-- What one step of a process does to a lock that it owns or waits for (src/util/LockFile.cpp).
use ccache.Prelude.{
  ℕ, ◌≡◌, inl, inr, refl, sym, ap, ◌∙◌, Bool, true, false, Bool-cases, and_true, Option, none, some,
  ==_iff, if◌then◌else◌,
}
use ccache.LockFile.{
  Content, same_content, Files, Place, idle, trying, reading, checking, breaking, breaking_lock,
  sleeping, acquired, holding, releasing, Created, created, lost_reply, exists, made_directory,
  not_permitted, other_error, Answer, Moved, begin, create, value_or, read, last_activity, check,
  act,
}

-- Between the call that acquires the lock and the one that gives it away.
unfoldable pub IsOwner : Place → Type 0
IsOwner acquired = Unit
IsOwner holding = Unit
IsOwner releasing = Unit
IsOwner _ = ⊥

-- A process that has found a stale lock.
unfoldable pub IsBreaking : Place → Type 0
IsBreaking (breaking last initial) = Unit
IsBreaking (breaking_lock last initial) = Unit
IsBreaking _ = ⊥

abbrev pub IsMade : ℕ → Option Content → Type 0
IsMade p lock = (time : ℕ) × (lock ≡ some (record { process = p; time = time }))

-- The link that a process compares with is one of its own.
unfoldable pub IsMine : ℕ → Place → Type 0
IsMine p (reading mine last initial) = mine.process ≡ p
IsMine p _ = Unit

-- A process that owns the lock has made the lock file.
pub record Fits (p : ℕ) (place : Place) (lock : Option Content) : Type 0 where
  pub calm : IsBreaking place → ⊥
  pub mine : IsMine p place
  pub made : IsOwner place → IsMade p lock

-- What a step of process `p` does to the lock file.
pub data Changes (p : ℕ) (before after : Option Content) : Type 0 where
  keeps : after ≡ before → Changes p before after
  makes : before ≡ none → Changes p before after
  removes : IsMade p before → Changes p before after

some_process : Option Content → ℕ
some_process none = 0
some_process (some content) = content.process

pub one_maker : (p q : ℕ) (lock : Option Content) → IsMade p lock → IsMade q lock → p ≡ q
unfolding some_process
one_maker p q lock (t, e) (u, f) = ap some_process (sym e ∙ f)

none_made : (p : ℕ) (lock : Option Content) → lock ≡ none → IsMade p lock → ⊥
none_made p lock e (t, f) = cc

pub Fits-Changes :
    (p q : ℕ) (place : Place) (before after : Option Content)
    → (p ≡ q → ⊥)
    → Changes p before after
    → Fits q place before
    → Fits q place after
Fits-Changes p q place before after d (keeps e) h = rw e h
Fits-Changes p q place before after d (makes e) h = record {
  calm = h.calm;
  mine = h.mine;
  made = λ o. absurd (none_made q before e (h.made o));
}
Fits-Changes p q place before after d (removes m) h = record {
  calm = h.calm;
  mine = h.mine;
  made = λ o. absurd (d (one_maker p q before m (h.made o)));
}

-- What a step of a calm process does.
pub record Acts (p : ℕ) (before : Option Content) (moved : Moved) : Type 0 where
  pub mine : IsMine p moved.place
  pub owns : IsOwner moved.place → IsMade p moved.files.lock_file
  pub change : Changes p before moved.files.lock_file

waits :
    (p : ℕ) (files : Files) (place : Place)
    → IsMine p place
    → (IsOwner place → ⊥)
    → Acts p files.lock_file (record { place = place; files = files })
waits p files place m w = record { mine = m; owns = λ o. absurd (w o); change = keeps refl }

create-Acts :
    (p : ℕ) (answer : Answer) (last : ℕ) (initial : Option Content) (files : Files) (link : Created)
    (lock : Option Content)
    → (link ≡ not_permitted → ⊥)
    → files.lock_file ≡ lock
    → Acts p lock (create p answer last initial files link lock)
unfolding create IsOwner IsMine
create-Acts p answer last initial files created none n e = record {
  mine = tt;
  owns = λ o. (answer.now, refl);
  change = makes refl;
}
create-Acts p answer last initial files lost_reply none n e = record {
  mine = refl;
  owns = λ o. absurd o;
  change = makes refl;
}
create-Acts p answer last initial files exists (some content) n e = record {
  mine = refl;
  owns = λ o. absurd o;
  change = keeps e;
}
create-Acts p answer last initial files made_directory lock n e = record {
  mine = tt;
  owns = λ o. absurd o;
  change = keeps e;
}
create-Acts p answer last initial files not_permitted lock n e = absurd (n refl)
create-Acts p answer last initial files other_error lock n e = record {
  mine = tt;
  owns = λ o. absurd o;
  change = keeps e;
}
create-Acts p answer last initial files created (some content) n e = record {
  mine = tt;
  owns = λ o. absurd o;
  change = keeps e;
}
create-Acts p answer last initial files lost_reply (some content) n e = record {
  mine = tt;
  owns = λ o. absurd o;
  change = keeps e;
}
create-Acts p answer last initial files exists none n e = record {
  mine = tt;
  owns = λ o. absurd o;
  change = keeps e;
}

made_by :
    {p : ℕ} (content mine : Content)
    → mine.process ≡ p
    → same_content content mine ≡ true
    → some content ≡ some (record { process = p; time = content.time })
unfolding same_content
made_by content mine m same =
    let (process, time) = and_true _ _ same in
    ap (λ (q : ℕ). some (record { process = q; time = content.time })) ((==_iff _ _).0 process ∙ m)

if-Acts :
    (p : ℕ) (files : Files) (b : Bool) (place other : Place)
    → Acts p files.lock_file (record { place = place; files = files })
    → Acts p files.lock_file (record { place = other; files = files })
    → Acts p files.lock_file (record { place = if b then place else other; files = files })
if-Acts p files true place other h k = h
if-Acts p files false place other h k = k

read-Acts :
    (p : ℕ) (answer : Answer) (mine : Content) (last : ℕ) (initial : Option Content) (files : Files)
    (lock : Option Content)
    → mine.process ≡ p
    → files.lock_file ≡ lock
    → Acts p files.lock_file (read answer mine last initial files lock)
unfolding read IsOwner IsMine
read-Acts p answer mine last initial files none m e = elim (Bool-cases answer.ok) [
  | inl ok ↦ rw ok (waits p files (trying last initial) tt (λ o. absurd o))
  | inr failed ↦ rw failed (waits p files idle tt (λ o. absurd o))
]
read-Acts p answer mine last initial files (some content) m e = elim (Bool-cases answer.ok) [
  | inr failed ↦ rw failed (waits p files idle tt (λ o. absurd o))
  | inl ok ↦ elim (Bool-cases (same_content content mine)) [
    | inr other ↦
        rw (ok, other)
          (waits p files (checking content last (value_or initial content)) tt (λ o. absurd o))
    | inl same ↦
        rw (ok, same)
          record {
            mine = tt;
            owns = λ o. (content.time, e ∙ made_by content mine m same);
            change = keeps refl;
          }
  ]
]

check-Acts :
    (p : ℕ) (blocking : Bool) (answer : Answer) (content : Content) (last : ℕ) (initial : Content)
    (files : Files)
    → Acts p files.lock_file
        (record { place = check blocking answer content last initial files; files = files })
unfolding check IsOwner IsMine
check-Acts p blocking answer content last initial files =
    let last = last_activity files.alive_file last in
    let stays : Acts p files.lock_file (record { place = sleeping last initial; files = files }) =
      waits p files (sleeping last initial) tt (λ o. absurd o) in
    let gives_up : Acts p files.lock_file (record { place = idle; files = files }) =
      waits p files idle tt (λ o. absurd o) in
    if-Acts p files _ idle _ gives_up (
      if-Acts p files _ (sleeping last initial) _ stays (
        if-Acts p files _ (breaking last initial) _
          (waits p files (breaking last initial) tt (λ o. absurd o))
          (if-Acts p files _ idle (sleeping last content) gives_up
            (waits p files (sleeping last content) tt (λ o. absurd o)))))

pub act-Acts :
    (blocking : Bool) (p : ℕ) (answer : Answer) (place : Place) (files : Files)
    → Fits p place files.lock_file
    → (answer.link ≡ not_permitted → ⊥)
    → Acts p files.lock_file (act blocking p answer place files)
unfolding act begin IsOwner IsMine IsBreaking
act-Acts blocking p answer idle files h n = waits p files _ tt (λ o. absurd o)
act-Acts blocking p answer (trying last initial) files h n =
    create-Acts p answer last initial files answer.link files.lock_file n refl
act-Acts blocking p answer (reading mine last initial) files h n =
    read-Acts p answer mine last initial files files.lock_file h.mine refl
act-Acts blocking p answer (checking content last initial) files h n =
    check-Acts p blocking answer content last initial files
act-Acts blocking p answer (breaking last initial) files h n = absurd (h.calm tt)
act-Acts blocking p answer (breaking_lock last initial) files h n = absurd (h.calm tt)
act-Acts blocking p answer (sleeping last initial) files h n = waits p files _ tt (λ o. absurd o)
act-Acts blocking p answer acquired files h n = record {
  mine = tt;
  owns = λ o. h.made tt;
  change = keeps refl;
}
act-Acts blocking p answer holding files h n = elim (Bool-cases answer.finished) [
  | inl done ↦ rw done record { mine = tt; owns = λ o. h.made tt; change = keeps refl }
  | inr more ↦ rw more record { mine = tt; owns = λ o. h.made tt; change = keeps refl }
]
act-Acts blocking p answer releasing files h n = record {
  mine = tt;
  owns = λ o. absurd o;
  change = removes (h.made tt);
}
