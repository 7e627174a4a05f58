-- ===== src/Config/Files.antt =====
-- Configuration files, settings on the command line and in the environment (src/Config.cpp).
pub mod Lines
pub mod Replaced
use ccache.Prelude.{
  ℕ, zero, suc, ◌+◌, ◌-◌, Bool, true, false, Bytes, List, [], ◌∷◌, ◌++◌, map, Option, none, some,
  length, take, drop, eq_bytes, ◌==◌, ◌&&◌, ◌||◌, not, if◌then◌else◌, codes,
}
use ccache.CompOpt.{compare, is_less}
use ccache.Text.Values.{strip_whitespace}
use ccache.Config.Tables.{
  ConfigKeyTableEntry, k_config_key_table, k_env_variable_table, find, insert_or_assign,
}
use ccache.Config.Settings.{Config, initial}
use ccache.Config.Values.{
  Outcome, thrown, returned, ◌>>=◌, rethrown, ConfigError, missing_equal_sign, in_line,
  in_command_line, in_variable, unknown_option, failed_to_open, assertion_failed,
}
use ccache.Config.Items.{System, set_item, item_string}

-- The text in front of the first `c` and the text behind it.
unfoldable pub split_at : ℕ → Bytes → Option (Bytes × Bytes)
split_at c [] = none
split_at c (d ∷ s) =
    let later = split_at c s in
    if d == c
    then some ([], s)
    else elim later [ none ↦ none | some parts ↦ some (d ∷ parts.0, parts.1) ]

unfoldable pub stripped_parts : Option (Bytes × Bytes) → Outcome (Bytes × Bytes)
stripped_parts none = thrown missing_equal_sign
stripped_parts (some parts) = returned (strip_whitespace parts.0, strip_whitespace parts.1)

unfoldable pub parse_stripped_line : Bytes → Outcome (Bytes × Bytes)
unfolding stripped_parts split_at
parse_stripped_line [] = returned ([], [])
parse_stripped_line (c ∷ s) =
    if c == b'#' then returned ([], []) else stripped_parts (split_at b'=' (c ∷ s))

-- parse_line: the key and the value, which are empty for a comment and a blank line.
unfoldable pub parse_line : Bytes → Outcome (Bytes × Bytes)
unfolding parse_stripped_line
parse_line line = parse_stripped_line (strip_whitespace line)

unfoldable pub put_first : ℕ → List Bytes → List Bytes
put_first c [] = (c ∷ []) ∷ []
put_first c (line ∷ rest) = (c ∷ line) ∷ rest

-- What std::getline gives one after the other; the last line needs no newline.
unfoldable pub lines_of : Bytes → List Bytes
unfolding put_first
lines_of [] = []
lines_of (c ∷ text) = let rest = lines_of text in if c == 10 then [] ∷ rest else put_first c rest

module _ {ℓ} {S : Type ℓ} (config_line_handler : Bytes → Bytes → Bytes → S → Outcome S) where
  unfoldable pub handle_line : Bytes → S → Outcome S
  handle_line line s = do setting ← parse_line line; config_line_handler line setting.0 setting.1 s

  -- The loop of parse_config_file over the lines; `s` is what the handler changes.
  unfoldable pub handle_lines : Bytes → ℕ → List Bytes → S → Outcome S
  handle_lines path line_number [] s = returned s
  handle_lines path line_number (line ∷ rest) s = do
    handled ← rethrown (in_line path (line_number + 1)) (handle_line line s)
    handle_lines path (line_number + 1) rest handled

  -- parse_config_file of a file with this text; false for a file that cannot be opened.
  unfoldable pub parse_config_file : Bytes → Option Bytes → S → Outcome (Bool × S)
  parse_config_file path none s = returned (false, s)
  parse_config_file path (some text) s = do
    handled ← handle_lines path 0 (lines_of text) s
    returned (true, handled)

unfoldable pub set_from_line : System → Bytes → Bytes → Bytes → Bytes → Config → Outcome Config
set_from_line sys path line key value c =
    if not (eq_bytes key []) then set_item sys key value none false path c else returned c

-- Config::update_from_file
unfoldable pub update_from_file : System → Bytes → Option Bytes → Config → Outcome (Bool × Config)
unfolding parse_config_file handle_lines handle_line set_from_line
update_from_file sys path text c = parse_config_file (set_from_line sys path) path text c

-- The loop of create_cmdline_settings_map; a setting without an equal sign fails the assertion.
unfoldable pub collect_settings : List Bytes → List (Bytes × Bytes) → Outcome (List (Bytes × Bytes))
collect_settings [] result = returned result
collect_settings (setting ∷ settings) result = do
  parsed ← rethrown (λ e. assertion_failed) (parse_line setting)
  collect_settings settings
      (if not (eq_bytes parsed.0 []) then insert_or_assign parsed.0 parsed.1 result else result)

unfoldable pub create_cmdline_settings_map : List Bytes → Outcome (List (Bytes × Bytes))
unfolding collect_settings
create_cmdline_settings_map settings = collect_settings settings []

-- Config::update_from_map; the rows are in the order in which the map gives them.
unfoldable pub update_from_map : System → List (Bytes × Bytes) → Config → Outcome Config
update_from_map sys [] c = returned c
update_from_map sys (row ∷ rows) c = do
  updated ←
      rethrown (in_command_line row.0)
        (set_item sys row.0 row.1 none false (codes "command line") c)
  update_from_map sys rows updated

unfoldable pub starts_with : Bytes → Bytes → Bool
starts_with string prefix = eq_bytes (take (length prefix) string) prefix

unfoldable pub set_from_variable :
    System → Option Bytes → Bytes → Bytes → Bool → Config → Outcome Config
set_from_variable sys none key value negate c = returned c
set_from_variable sys (some config_key) key value negate c =
    rethrown (in_variable negate key)
      (set_item sys config_key value (some key) negate (codes "environment") c)

-- The setting without its prefix, at the first equal sign.
unfoldable pub set_from_parts : System → Option (Bytes × Bytes) → Config → Outcome Config
unfolding set_from_variable starts_with
set_from_parts sys none c = returned c
set_from_parts sys (some parts) c =
    let negate = starts_with parts.0 (codes "NO") in
    let key = if negate then drop 2 parts.0 else parts.0 in
    set_from_variable sys (find key k_env_variable_table) key parts.1 negate c

-- The prefix holds no equal sign, so that the first one is behind it.
unfoldable pub set_from_setting : System → Bytes → Config → Outcome Config
unfolding set_from_parts starts_with split_at
set_from_setting sys setting c =
    if starts_with setting (codes "CCACHE_")
    then set_from_parts sys (split_at b'=' (drop 7 setting)) c
    else returned c

-- Config::update_from_environment
unfoldable pub update_from_environment : System → List Bytes → Config → Outcome Config
update_from_environment sys [] c = returned c
update_from_environment sys (setting ∷ env) c = do
  updated ← set_from_setting sys setting c
  update_from_environment sys env updated

unfoldable pub setting_line : Bytes → Bytes → Bytes
setting_line key value = key ++ (codes " = " ++ (value ++ (10 ∷ [])))

-- The handler of set_value_in_file: the output, and whether the key was found.
unfoldable pub copy_line :
    Bytes → Bytes → Bytes → Bytes → Bytes → Bytes × Bool → Outcome (Bytes × Bool)
unfolding setting_line
copy_line key value c_line c_key c_value s =
    if eq_bytes c_key key
    then returned (s.0 ++ setting_line key value, true)
    else returned (s.0 ++ (c_line ++ (10 ∷ [])), s.1)

unfoldable pub or_empty : Option Bytes → Bytes
or_empty none = []
or_empty (some text) = text

unfoldable pub write_setting : Bytes → Bytes → Bytes → Bool × (Bytes × Bool) → Outcome Bytes
unfolding setting_line
write_setting path key value result =
    if result.0
    then returned (if result.1.1 then result.1.0 else result.1.0 ++ setting_line key value)
    else thrown (failed_to_open path)

-- Whether find gives end().
unfoldable pub is_end : {A : Type 0} → Option A → Bool
is_end none = true
is_end (some a) = false

-- Config::set_value_in_file: the text of the file afterwards. A file that is not there is written
-- empty before; whether it can be opened is an input, and every write succeeds.
unfoldable pub set_value_in_file :
    System → Bool → Bytes → Bytes → Bytes → Option Bytes → Outcome Bytes
unfolding copy_line write_setting or_empty is_end
set_value_in_file sys opens path key value content =
    if is_end (find key k_config_key_table) then thrown (unknown_option key) else (do
      dummy_config ← set_item sys key value none false [] initial
      result ←
          parse_config_file (copy_line key value) path
            (if opens then some (or_empty content) else none) ([], false)
      write_setting path key value result)

unfoldable pub insert_key : Bytes → List Bytes → List Bytes
insert_key key [] = key ∷ []
insert_key key (k ∷ keys) =
    let later = insert_key key keys in if is_less (compare key k) then key ∷ k ∷ keys else k ∷ later

-- The keys that are no aliases, sorted.
unfoldable pub sorted_keys : List (Bytes × ConfigKeyTableEntry) → List Bytes
unfolding insert_key
sorted_keys [] = []
sorted_keys (row ∷ rows) =
    let keys = sorted_keys rows in
    elim row.1.alias [ none ↦ insert_key row.0 keys | some alias ↦ keys ]

unfoldable pub origin_of : Option Bytes → Bytes
origin_of none = codes "default"
origin_of (some origin) = origin

unfoldable pub visited :
    System → Config → Bytes → Option ConfigKeyTableEntry → Bytes × (Bytes × Bytes)
visited sys c key none = (key, ([], []))
visited sys c key (some entry) =
    (key, (item_string sys entry.item c, origin_of (find key c.origins)))

-- Config::visit_items: what is visited, one after the other.
unfoldable pub visit_items : System → Config → List (Bytes × (Bytes × Bytes))
unfolding sorted_keys visited origin_of
visit_items sys c =
    map (λ key. visited sys c key (find key k_config_key_table)) (sorted_keys k_config_key_table)

-- The loop of check_key_tables_consistency.
unfoldable pub check_rows : List (Bytes × Bytes) → Outcome {0} Unit
unfolding is_end
check_rows [] = returned tt
check_rows (row ∷ rows) =
    let rest = check_rows rows in
    if is_end (find row.1 k_config_key_table) then thrown (unknown_option row.1) else rest

-- Config::check_key_tables_consistency
unfoldable pub check_key_tables_consistency : Outcome {0} Unit
check_key_tables_consistency = check_rows k_env_variable_table
