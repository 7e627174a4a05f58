-- ===== src/LocalStorage/Totals.antt =====
-- The statistics of all directories (src/storage/local/LocalStorage.cpp: zero_all_statistics,
-- get_all_statistics; src/core/Statistics.cpp: k_statistics_fields, get_zeroable_fields).
pub mod Zeroed
use ccache.Prelude.{
  ℕ, ◌+◌, ◌*◌, ◌%◌, ◌^◌, max, Bool, true, false, List, [], ◌∷◌, map, set, ◌==◌, ◌||◌, if◌then◌else◌,
}
use ccache.Counters.{Counters, new, increment_all}
use ccache.Counters.Laws.{value}

abbrev pub stats_zeroed_timestamp : ℕ
stats_zeroed_timestamp = 31

-- Each statistic with its flags: 1 is FLAG_NOZERO, 2 FLAG_NEVER, 4 FLAG_ERROR and 8
-- FLAG_UNCACHEABLE.
abbrev pub k_statistics_fields : List (ℕ × ℕ)
k_statistics_fields =
    (19, 8)
    ∷ (9, 8)
    ∷ (82, 4)
    ∷ (16, 4)
    ∷ (4, 0)
    ∷ (12, 1)
    ∷ (10, 8)
    ∷ (28, 8)
    ∷ (29, 0)
    ∷ (2, 8)
    ∷ (26, 4)
    ∷ (23, 8)
    ∷ (24, 8)
    ∷ (1, 8)
    ∷ (6, 4)
    ∷ (32, 8)
    ∷ (27, 8)
    ∷ (22, 0)
    ∷ (33, 0)
    ∷ (81, 8)
    ∷ (25, 4)
    ∷ (11, 1)
    ∷ (3, 4)
    ∷ (44, 0)
    ∷ (45, 0)
    ∷ (35, 0)
    ∷ (36, 0)
    ∷ (43, 0)
    ∷ (7, 4)
    ∷ (83, 4)
    ∷ (18, 8)
    ∷ (17, 8)
    ∷ (13, 3)
    ∷ (14, 3)
    ∷ (21, 8)
    ∷ (8, 0)
    ∷ (34, 0)
    ∷ (5, 8)
    ∷ (41, 8)
    ∷ (39, 0)
    ∷ (47, 0)
    ∷ (48, 0)
    ∷ (37, 0)
    ∷ (38, 0)
    ∷ (46, 0)
    ∷ (40, 0)
    ∷ (31, 0)
    ∷ (30, 8)
    ∷ (20, 8)
    ∷ (42, 8)
    ∷ (15, 8)
    ∷ []

unfoldable pub zeroable : List (ℕ × ℕ) → List ℕ
zeroable [] = []
zeroable ((statistic, flags) ∷ fields) =
    let rest = zeroable fields in if flags % 2 == 0 then statistic ∷ rest else rest

unfoldable pub get_zeroable_fields : List ℕ
unfolding zeroable
get_zeroable_fields = zeroable k_statistics_fields

unfoldable pub zero_fields : List ℕ → Counters → Counters
zero_fields [] cs = cs
zero_fields (statistic ∷ fields) cs = zero_fields fields (set cs statistic 0)

-- The function that zero_all_statistics hands to StatsFile::update; `now` is in seconds. The
-- counters that are read have room for all statistics.
unfoldable pub zero_counters : ℕ → Counters → Counters
zero_counters now cs = set (zero_fields get_zeroable_fields cs) stats_zeroed_timestamp now

-- On the stats files of levels 1 and 2, each of which is updated.
unfoldable pub zero_all_statistics : ℕ → List Counters → List Counters
zero_all_statistics now stats_files = map (zero_counters now) stats_files

-- The counters and the timestamp of the loop of get_all_statistics.
unfoldable pub add_stats_files : Counters → ℕ → List Counters → Counters × ℕ
add_stats_files counters zero_timestamp [] = (counters, zero_timestamp)
add_stats_files counters zero_timestamp (stats_file ∷ stats_files) =
    let counters = increment_all stats_file (set counters stats_zeroed_timestamp 0) in
    add_stats_files counters (max (value counters stats_zeroed_timestamp) zero_timestamp)
      stats_files

-- The counters of get_all_statistics, without the time of the last update.
unfoldable pub get_all_statistics : List Counters → Counters
get_all_statistics stats_files =
    let (counters, zero_timestamp) = add_stats_files new 0 stats_files in
    set counters stats_zeroed_timestamp zero_timestamp
