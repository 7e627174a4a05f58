-- ===== src/Counters.antt =====
-- The statistics counters (src/core/StatisticsCounters.cpp) and the file that they are kept in
-- (src/storage/local/StatsFile.cpp). A counter is a uint64_t; an int64_t that is added is held as its bit
-- pattern, so that the sum is one of bit patterns.
pub mod Laws
pub mod AllZero
pub mod File
use ccache.Prelude.{
  ℕ, zero, suc, ◌+◌, ◌-◌, ◌%◌, ◌^◌, ◌≤◌, ◌<◌, Bool, true, false, List, [], ◌∷◌, ◌++◌, Option, none,
  some, length, get_or, set, replicate, ltb, leb, max, ◌==◌, ◌&&◌, if◌then◌else◌,
}

-- Statistic::END and the statistics that are used by name (src/core/Statistic.hpp).
abbrev pub statistic_end : ℕ
statistic_end = 84

abbrev pub Counters : Type 0
Counters = List ℕ

-- StatisticsCounters()
unfoldable pub new : Counters
new = replicate statistic_end 0

-- std::vector::resize to a size that is not smaller.
unfoldable pub resize : ℕ → Counters → Counters
resize n cs = cs ++ replicate (n - length cs) 0

-- A failed ASSERT ends the process: `none`.
unfoldable pub get : Counters → ℕ → Option ℕ
get cs statistic =
    if ltb statistic statistic_end
    then some (if ltb statistic (length cs) then get_or cs statistic 0 else 0)
    else none

unfoldable pub get_raw : Counters → ℕ → Option ℕ
get_raw cs index = if ltb index (length cs) then some (get_or cs index 0) else none

unfoldable pub get_offsetted : Counters → ℕ → ℕ → Option ℕ
unfolding get_raw
get_offsetted cs statistic offset = get_raw cs (statistic + offset)

-- `m_counters[index] = value`, with no check of the vector's size.
unfoldable pub set_statistic : ℕ → ℕ → Counters → Option Counters
set_statistic statistic value cs =
    if ltb statistic statistic_end then some (set cs statistic value) else none

unfoldable pub grow_to : ℕ → Counters → Counters
unfolding resize
grow_to index cs = if leb (length cs) index then resize (index + 1) cs else cs

unfoldable pub set_raw : ℕ → ℕ → Counters → Counters
unfolding grow_to
set_raw index value cs = set (grow_to index cs) index value

unfoldable pub set_offsetted : ℕ → ℕ → ℕ → Counters → Counters
unfolding set_raw
set_offsetted statistic offset value cs = set_raw (statistic + offset) value cs

-- std::max(int64_t(0), int64_t(counter + value)): the sum wraps, and counts as 0 if its sign bit
-- is set.
unfoldable pub add_clamped : ℕ → ℕ → ℕ
add_clamped counter value =
    let sum = (counter + value) % 2 ^ 64 in if ltb sum (2 ^ 63) then sum else 0

unfoldable pub increment : ℕ → ℕ → Counters → Counters
unfolding grow_to add_clamped
increment statistic value cs =
    let cs' = grow_to statistic cs in
    if value == 0 then cs else set cs' statistic (add_clamped (get_or cs' statistic 0) value)

unfoldable pub increment_offsetted : ℕ → ℕ → ℕ → Counters → Counters
unfolding increment
increment_offsetted statistic offset value cs = increment (statistic + offset) value cs

-- The loop of increment over the counters of `other`; `cs` is already as long.
unfoldable pub add_each : Counters → Counters → Counters
unfolding add_clamped
add_each cs [] = cs
add_each [] (o ∷ other) = []
add_each (c ∷ cs) (o ∷ other) = add_clamped c o ∷ add_each cs other

unfoldable pub increment_all : Counters → Counters → Counters
unfolding resize add_each
increment_all other cs = add_each (resize (max (length cs) (length other)) cs) other

-- The lambda takes an `unsigned`, which keeps the low 32 bits of a counter.
unfoldable pub all_zero : Counters → Bool
all_zero [] = true
all_zero (c ∷ cs) = (c % 2 ^ 32 == 0) && all_zero cs
