-- ===== src/Counters/File.antt =====
-- A stats file: one decimal number to a line (src/storage/local/StatsFile.cpp).
pub mod RoundTrip
pub mod Update
use ccache.Prelude.{
  ℕ, zero, suc, ◌+◌, Bool, true, false, Bytes, List, [], ◌∷◌, ◌++◌, Option, none, some, length,
  eq_bytes, ◌||◌, not, if◌then◌else◌,
}
use ccache.Decimal.{print_decimal, strtoull}
use ccache.Counters.{Counters, new, set_raw}

-- The loop of StatsFile::read; the fuel bounds the rounds, and `none` is that it ran out.
unfoldable pub next_number :
    (ℕ → Bytes → Counters → Option Counters) → ℕ → Counters → Option (ℕ × Bytes) → Option Counters
next_number go i counters none = some counters
next_number go i counters (some (value, rest)) = go (i + 1) rest (set_raw i value counters)

unfoldable pub read_loop : ℕ → ℕ → Bytes → Counters → Option Counters
unfolding next_number
read_loop zero i str counters = none
read_loop (suc fuel) i str counters = next_number (read_loop fuel) i counters (strtoull str)

-- StatsFile::read of a file with this text; each round but the last reads a digit at least.
unfoldable pub read_text : Bytes → Option Counters
unfolding read_loop
read_text text = read_loop (suc (length text)) 0 text new

-- The lines that StatsFile::update writes.
unfoldable pub format_text : Counters → Bytes
format_text [] = []
format_text (c ∷ cs) = print_decimal c ++ (10 ∷ format_text cs)

-- StatsFile::read; `none` is a file that cannot be read.
unfoldable pub read_file : Option Bytes → Option Counters
unfolding read_text
read_file none = some new
read_file (some text) = read_text text

unfoldable pub write_back : Bool → Bool → Counters → Counters → Option Bytes → Option Bytes
write_back only_if_changed commits orig_counters counters content =
    if not only_if_changed || not (eq_bytes counters orig_counters)
    then (if commits then some (format_text counters) else content)
    else content

-- StatsFile::update: the counters that are returned, and the file afterwards. Whether the lock is
-- acquired and whether the new file is committed are inputs.
unfoldable pub update_with :
    (Counters → Counters)
    → Bool
    → Bool
    → Option Bytes
    → Option Counters
    → Option Counters × Option Bytes
unfolding write_back
update_with function only_if_changed commits content none = (none, content)
update_with function only_if_changed commits content (some counters) = (
  some (function counters),
  write_back only_if_changed commits counters (function counters) content,
)

unfoldable pub update :
    (Counters → Counters) → Bool → Bool → Bool → Option Bytes → Option Counters × Option Bytes
unfolding update_with read_file
update function only_if_changed acquired commits content =
    if acquired
    then update_with function only_if_changed commits content (read_file content)
    else (none, content)
