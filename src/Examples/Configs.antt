-- ===== src/Examples/Configs.antt =====
-- Configurations (src/Config.cpp, src/util/environment.cpp).
use ccache.Prelude.{
  ◌≡◌, refl, true, false, Bytes, List, All, [], ◌∷◌, ◌++◌, Option, none, some, eq_bytes, codes,
  if◌then◌else◌,
}
use ccache.Decimal.{is_digit, is_space, skip_spaces}
use ccache.Text.Values.{
  expected, skip_last_spaces, put_unless_space, strip_whitespace, parse_unsigned,
  parse_stripped_unsigned, plus_magnitude, digits_at_least_one, all_digits, unsigned_result,
  between,
}
use ccache.Config.Tables.{ConfigItem, k_config_key_table, find, insert_or_assign}
use ccache.Config.Settings.{SizeUnitPrefixType, no_sloppiness, Config, initial}
use ccache.Config.Values.{returned, value_or_throw}
use ccache.Config.Sloppy.{parse_sloppiness, format_sloppiness}
use ccache.Config.Sloppy.RoundTrip.{parse_sloppiness-format_sloppiness}
use ccache.Config.Expand.{is_name_character, expand_environment_variables, expand_from, put_piece}
use ccache.Config.Expand.Escaped.{
  literal, reference, render, meaning, IsPart, IsVariable, escape, expand-render,
}
use ccache.Config.Items.{
  System, assign, item_string, set_item, set_entry, canonical_key, set_cache_dir,
  default_temporary_dir, get_string_value, entry_string,
}
use ccache.Config.Items.Shown.{is_plain, IsSized}
use ccache.Config.Items.SetShown.{set_item-get_string_value}
use ccache.Config.Files.{
  lines_of, put_first, parse_line, parse_stripped_line, stripped_parts, split_at, set_value_in_file,
  setting_line, update_from_environment, set_from_setting, set_from_parts, set_from_variable,
  starts_with, collect_settings, create_cmdline_settings_map, update_from_file, parse_config_file,
  handle_lines, handle_line, set_from_line, update_from_map,
}
use ccache.Config.Files.Lines.{IsStripped}
use ccache.Config.Files.Replaced.{settings_of, with_value, set_value_in_file-with_value}
use ccache.Config.Read.{
  Surroundings, read, home_directory, home_or_passwd, locate, read_main_file, set_default_cache_dir,
}
use ccache.Config.Read.CacheDir.{read-cache_dir}
use ccache.Config.Read.Sized.{read-IsSized, initial-IsSized}

abbrev variables : Bytes → Option Bytes
variables name =
    if eq_bytes name (codes "HOME")
    then some (codes "/h")
    else if eq_bytes name (codes "CCACHE_CONFIGPATH")
    then some (codes "/c")
    else none

abbrev system : System
system = record {
  getenv = variables;
  is_absolute = λ p. true;
  normalize_abstract_absolute_path = λ p. p;
  parse_size = λ s. expected (0, SizeUnitPrefixType.binary);
  format_human_readable_size = λ n p. codes "0";
  run_user_tmp_dir = [];
}

sloppiness_example :
    parse_sloppiness
      (format_sloppiness (record no_sloppiness { locale = true; time_macros = true }))
    ≡ record no_sloppiness { locale = true; time_macros = true }
sloppiness_example =
    parse_sloppiness-format_sloppiness (record no_sloppiness { locale = true; time_macros = true })

parts_lem : All IsPart (literal (codes "$5 ") ∷ reference (codes "HOME") ∷ [])
unfolding IsPart IsVariable is_name_character is_digit
parts_lem = (tt, ((refl, (refl, (refl, (refl, (refl, tt))))), tt))

-- Five dollars in HOME: $$5 ${HOME}.
render_example :
    expand_environment_variables variables
      (render (literal (codes "$5 ") ∷ reference (codes "HOME") ∷ []))
    ≡ meaning variables (literal (codes "$5 ") ∷ reference (codes "HOME") ∷ [])
render_example =
    expand-render variables (literal (codes "$5 ") ∷ reference (codes "HOME") ∷ []) parts_lem

abbrev logging : Config
logging = record initial { log_file = codes "/a$b" }

log_file_lem :
    (find (codes "log_file") k_config_key_table
      ≡ some (record { item = ConfigItem.log_file; alias = none }))
    × (is_plain ConfigItem.log_file ≡ true)
    × (get_string_value system (codes "log_file") logging ≡ returned (codes "/a$b"))
unfolding is_plain find eq_bytes get_string_value entry_string item_string
log_file_lem = (refl, refl, refl)

shown_example :
    set_item system (codes "log_file") (escape (codes "/a$b")) none false (codes "file") logging
    ≡ returned (record logging {
      origins = insert_or_assign (canonical_key (codes "log_file") none) (codes "file") [];
    })
shown_example =
    set_item-get_string_value system (codes "log_file") (codes "/a$b") (codes "file")
      (record { item = ConfigItem.log_file; alias = none }) logging log_file_lem.0 log_file_lem.1
      initial-IsSized log_file_lem.2

-- A comment and two settings.
abbrev old_text : Bytes
old_text = codes "# x" ++ (10 ∷ (codes "path = /p" ++ (10 ∷ (codes "compiler = cc" ++ (10 ∷ [])))))

abbrev old_settings : List (Bytes × Bytes)
old_settings = ([], []) ∷ (codes "path", codes "/p") ∷ (codes "compiler", codes "cc") ∷ []

old_settings_lem : settings_of (lines_of old_text) ≡ returned old_settings
unfolding settings_of lines_of put_first parse_line parse_stripped_line stripped_parts split_at
    strip_whitespace skip_spaces skip_last_spaces put_unless_space is_space
old_settings_lem = refl

gcc-IsStripped : IsStripped (codes "gcc")
unfolding skip_spaces skip_last_spaces put_unless_space is_space
gcc-IsStripped = record { front = refl; back = refl }

compiler_lem :
    set_item system (codes "compiler") (codes "gcc") none false [] initial
    ≡ returned (record initial { compiler = codes "gcc"; origins = (codes "compiler", []) ∷ [] })
unfolding set_item set_entry find eq_bytes assign canonical_key insert_or_assign value_or_throw
    expand_environment_variables expand_from put_piece
compiler_lem = refl

compiler_found :
    find (codes "compiler") k_config_key_table
    ≡ some (record { item = ConfigItem.compiler; alias = none })
unfolding find eq_bytes
compiler_found = refl

replaced_example :
    (text' : Bytes) × (set_value_in_file system true
        (codes "/c")
        (codes "compiler")
        (codes "gcc")
        (some old_text)
      ≡ returned text')
    × (settings_of (lines_of text')
        ≡ returned (with_value (codes "compiler") (codes "gcc") old_settings))
replaced_example =
    set_value_in_file-with_value system (codes "/c") (codes "compiler") (codes "gcc") old_text
      old_settings (record { item = ConfigItem.compiler; alias = none })
      (record initial { compiler = codes "gcc"; origins = (codes "compiler", []) ∷ [] })
      compiler_found compiler_lem gcc-IsStripped (refl, (refl, (refl, tt))) old_settings_lem

-- The main configuration file says cache_dir = /d, and the environment sets nothing else.
abbrev surroundings : Surroundings
surroundings = record {
  sys = system;
  environ = codes "HOME=/h" ∷ codes "CCACHE_CONFIGPATH=/c" ∷ [];
  pw_dir = none;
  sysconfdir = codes "/etc";
  has_directory = λ p. false;
  file_text = λ p. some (setting_line (codes "cache_dir") (codes "/d"));
  make_path = λ a b. a ++ b;
  arranged = λ rows. rows;
}

d-IsStripped : IsStripped (codes "/d")
unfolding skip_spaces skip_last_spaces put_unless_space is_space
d-IsStripped = record { front = refl; back = refl }

environment_lem :
    (c : Config)
    → update_from_environment system (codes "HOME=/h" ∷ codes "CCACHE_CONFIGPATH=/c" ∷ []) c
      ≡ returned c
unfolding update_from_environment set_from_setting set_from_parts set_from_variable starts_with
    split_at find eq_bytes
environment_lem c = refl

configured_lem :
    (variables (codes "CCACHE_CONFIGPATH") ≡ some (codes "/c"))
    × (variables (codes "HOME") ≡ some (codes "/h"))
    × (eq_bytes (codes "/d") [] ≡ false)
unfolding eq_bytes
configured_lem = (refl, refl, refl)

cache_dir_example :
    (after : Config) × (read surroundings [] initial ≡ returned after)
    × (after.cache_dir ≡ codes "/d")
cache_dir_example =
    read-cache_dir surroundings (codes "/c") (codes "/h") (codes "/d") initial configured_lem.0
      configured_lem.1 refl environment_lem refl configured_lem.2 (refl, (refl, tt)) d-IsStripped
      (refl, (refl, tt))

-- The file says cache_dir = /d, the environment CCACHE_DEBUGLEVEL=3, and the command line
-- max_files = 7.
abbrev settings : Surroundings
settings = record surroundings { environ = codes "HOME=/h" ∷ codes "CCACHE_DEBUGLEVEL=3" ∷ [] }

abbrev after_read : Config
after_read = record initial {
  config_path = codes "/c";
  cache_dir = codes "/d";
  temporary_dir = codes "/d/tmp";
  debug_level = 3;
  max_files = 7;
  origins =
      (codes "cache_dir", codes "/c")
      ∷ (codes "debug_level", codes "environment")
      ∷ (codes "max_files", codes "command line")
      ∷ [];
}

read_lem : read settings (codes "max_files = 7" ∷ []) initial ≡ returned after_read
unfolding read create_cmdline_settings_map collect_settings home_directory home_or_passwd locate
    read_main_file update_from_file parse_config_file handle_lines handle_line set_from_line
    update_from_map update_from_environment set_from_setting set_from_parts set_from_variable
    starts_with split_at find eq_bytes set_item set_entry assign canonical_key insert_or_assign
    value_or_throw expand_environment_variables expand_from put_piece lines_of put_first parse_line
    parse_stripped_line stripped_parts strip_whitespace skip_spaces skip_last_spaces
    put_unless_space is_space set_cache_dir default_temporary_dir set_default_cache_dir
    parse_unsigned parse_stripped_unsigned plus_magnitude digits_at_least_one all_digits
    unsigned_result between setting_line
read_lem = refl

sized_example : IsSized after_read
sized_example =
    read-IsSized settings (codes "max_files = 7" ∷ []) initial after_read initial-IsSized read_lem
