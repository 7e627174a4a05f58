-- ===== src/Config/Read/CacheDir.antt =====
-- About cache_dir in the main configuration file (src/Config.cpp, Config::read).
use ccache.Prelude.{◌≡◌, refl, true, false, Bytes, [], ◌∷◌, ◌++◌, none, some, eq_bytes, codes}
use ccache.Config.Tables.{find, insert_or_assign}
use ccache.Config.Settings.{Config}
use ccache.Config.Values.{returned, value_or_throw}
use ccache.Decimal.{is_digit}
use ccache.Config.Expand.{is_name_character}
use ccache.Config.Expand.Escaped.{expand-plain}
use ccache.Config.Items.{System, set_item, set_entry, assign, set_cache_dir, canonical_key}
use ccache.Config.Files.{
  create_cmdline_settings_map, collect_settings, update_from_file, update_from_map,
  update_from_environment, parse_config_file, handle_lines, handle_line, set_from_line, lines_of,
  setting_line,
}
use ccache.Config.Files.Lines.{
  HasNo, IsStripped, is_name, parse_line-setting, unlines, lines_of-unlines, setting-HasNo,
}
use ccache.Config.Read.{
  Surroundings, home_directory, home_or_passwd, locate, read_main_file, set_default_cache_dir, read,
}

-- What set_item makes of a cache_dir without variables.
pub set_item-cache_dir :
    (sys : System) (value origin : Bytes) (c : Config)
    → HasNo b'$' value
    → set_item sys (codes "cache_dir") value none false origin c
      ≡ returned (record (set_cache_dir sys value c) {
        origins = insert_or_assign (codes "cache_dir") origin c.origins;
      })
unfolding set_item set_entry find value_or_throw assign canonical_key eq_bytes set_cache_dir
set_item-cache_dir sys value origin c h = rw (expand-plain sys.getenv value h) refl

cache_dir_name : is_name (codes "cache_dir") ≡ true
unfolding is_name is_name_character is_digit
cache_dir_name = refl

cache_dir_line :
    (value : Bytes)
    → HasNo 10 value
    → lines_of (setting_line (codes "cache_dir") value)
      ≡ (codes "cache_dir" ++ (codes " = " ++ value)) ∷ []
unfolding setting_line unlines
cache_dir_line value single =
    lines_of-unlines ((codes "cache_dir" ++ (codes " = " ++ value)) ∷ [])
      (setting-HasNo (codes "cache_dir") value cache_dir_name single, tt)

update_from_file-cache_dir :
    (sys : System) (path value : Bytes) (c : Config)
    → HasNo b'$' value
    → IsStripped value
    → HasNo 10 value
    → update_from_file sys path (some (setting_line (codes "cache_dir") value)) c
      ≡ returned (
        true,
        record (set_cache_dir sys value c) {
          origins = insert_or_assign (codes "cache_dir") path c.origins;
        },
      )
unfolding update_from_file parse_config_file handle_lines handle_line set_from_line eq_bytes
update_from_file-cache_dir sys path value c plain stripped single =
    rw
      (
        cache_dir_line value single,
        parse_line-setting (codes "cache_dir") value cache_dir_name stripped,
        set_item-cache_dir sys value path c plain,
      )
      refl

-- The rest of read behind the main file, where the environment and the command line set nothing.
read_rest :
    (w : Surroundings) (home_dir : Bytes) (c : Config)
    → eq_bytes c.cache_dir [] ≡ false
    → set_default_cache_dir w home_dir c ≡ c
unfolding set_default_cache_dir
read_rest w home_dir c h = rw h refl

-- The configuration when a file has set cache_dir.
from_file : System → Bytes → Bytes → Config → Config
from_file sys path value c = record (set_cache_dir sys value c) {
  origins = insert_or_assign (codes "cache_dir") path c.origins;
}

module _ (w : Surroundings) (path home_dir value : Bytes) where
  -- With CCACHE_CONFIGPATH naming a file of the one line cache_dir = value, where the value is
  -- not empty, has no dollar sign, no line break and no spaces at its ends, and with an
  -- environment and a command line that set nothing else: read succeeds, and the cache directory
  -- is the value of the file.
  pub read-cache_dir :
      (c : Config)
      → w.sys.getenv (codes "CCACHE_CONFIGPATH") ≡ some path
      → w.sys.getenv (codes "HOME") ≡ some home_dir
      → w.file_text path ≡ some (setting_line (codes "cache_dir") value)
      → ((d : Config) → update_from_environment w.sys w.environ d ≡ returned d)
      → w.arranged [] ≡ []
      → eq_bytes value [] ≡ false
      → HasNo b'$' value
      → IsStripped value
      → HasNo 10 value
      → (after : Config) × (read w [] c ≡ returned after) × (after.cache_dir ≡ value)
  unfolding read create_cmdline_settings_map collect_settings home_directory home_or_passwd locate
      read_main_file update_from_map set_cache_dir from_file
  read-cache_dir c configured home text environment map_order filled plain stripped single =
      let main = from_file w.sys path value (record c { config_path = path }) in
      let after = set_cache_dir w.sys main.cache_dir main in
      (
        after,
        rw
            (
              home,
              configured,
              text,
              update_from_file-cache_dir w.sys path value (record c { config_path = path }) plain
                  stripped single,
              environment after,
              map_order,
              read_rest w home_dir after filled,
            )
            refl,
        refl,
      )
