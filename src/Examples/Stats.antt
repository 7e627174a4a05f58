-- ===== src/Examples/Stats.antt =====
-- Counters and the file that they are kept in (src/core/StatisticsCounters.cpp,
-- src/storage/local/StatsFile.cpp).
use ccache.Prelude.{
  ℕ, zero, suc, ◌*◌, ◌^◌, ◌<◌, ◌≡◌, refl, true, false, [], ◌∷◌, none, some, replicate, arith, codes,
  All,
}
use ccache.Counters.{Counters, new, grow_to, add_clamped, increment, all_zero}
use ccache.Counters.Laws.{value}
use ccache.Counters.AllZero.{all_zero-increment}
use ccache.Counters.File.{read_text, read_file, format_text, update}
use ccache.Counters.File.RoundTrip.{read_text_total}
use ccache.Counters.File.Update.{IsComplete, update_lem}

zeros : all_zero (0 ∷ 0 ∷ []) ≡ true
unfolding all_zero
zeros = refl

wraps_example :
    (value (increment 2 (3 * 2 ^ 32) (0 ∷ 0 ∷ [])) 2 ≡ 3 * 2 ^ 32)
    × (all_zero (increment 2 (3 * 2 ^ 32) (0 ∷ 0 ∷ [])) ≡ true)
wraps_example = all_zero-increment 2 3 (0 ∷ 0 ∷ []) zeros (omega arith)

-- Text that is no number ends the reading.
total_example : (cs : Counters) × (read_text (codes "12 x") ≡ some cs)
total_example = read_text_total (codes "12 x")

small_replicate : (n : ℕ) → All (λ c. c < 2 ^ 64) (replicate n 0)
small_replicate zero = tt
small_replicate (suc n) = (omega arith, small_replicate n)

abbrev next : Counters → Counters
next cs = increment 2 1 cs

next-IsComplete : IsComplete (next new)
unfolding increment new grow_to add_clamped
next-IsComplete = record {
  enough = omega arith;
  small = (omega arith, (omega arith, (omega arith, small_replicate 81)));
}

nothing_read : read_file none ≡ some new
unfolding read_file
nothing_read = refl

update_example :
    (update next false true true none ≡ (some (next new), some (format_text (next new))))
    × (read_file (some (format_text (next new))) ≡ some (next new))
update_example = update_lem next none new nothing_read next-IsComplete
