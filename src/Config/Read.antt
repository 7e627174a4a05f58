-- ===== src/Config/Read.antt =====
-- Reading the configuration (src/Config.cpp, Config::read), not on Windows.
pub mod CacheDir
pub mod Sized
use ccache.Prelude.{
  Bool, true, false, Bytes, List, [], ◌∷◌, ◌++◌, Option, none, some, eq_bytes, ◌&&◌, not,
  if◌then◌else◌, codes,
}
use ccache.Config.Tables.{find}
use ccache.Config.Settings.{Config}
use ccache.Config.Values.{Outcome, thrown, returned, ◌>>=◌, ConfigError, no_home_directory}
use ccache.Config.Items.{System, set_cache_dir}
use ccache.Config.Files.{
  create_cmdline_settings_map, update_from_file, update_from_map, update_from_environment, is_end,
}

-- What read takes from its surroundings: the environment and the files, getpwuid, paths joined by
-- std::filesystem, and the order in which an unordered_map gives its rows.
pub record Surroundings : Type 0 where
  pub sys : System
  pub environ : List Bytes
  pub pw_dir : Option Bytes
  pub sysconfdir : Bytes
  pub has_directory : Bytes → Bool
  pub file_text : Bytes → Option Bytes
  pub make_path : Bytes → Bytes → Bytes
  pub arranged : List (Bytes × Bytes) → List (Bytes × Bytes)

unfoldable pub default_cache_dir : Bytes → Bytes
default_cache_dir home_dir = home_dir ++ codes "/.cache/ccache"

unfoldable pub default_config_dir : Bytes → Bytes
default_config_dir home_dir = home_dir ++ codes "/.config/ccache"

unfoldable pub home_or_passwd : Option Bytes → Option Bytes → Outcome Bytes
home_or_passwd (some p) pw_dir = returned p
home_or_passwd none (some pw_dir) = returned pw_dir
home_or_passwd none none = thrown no_home_directory

unfoldable pub home_directory : Surroundings → Outcome Bytes
unfolding home_or_passwd
home_directory w = home_or_passwd (w.sys.getenv (codes "HOME")) w.pw_dir

unfoldable pub legacy_ccache_dir : Surroundings → Bytes → Bytes
legacy_ccache_dir w home_dir = w.make_path home_dir (codes ".ccache")

-- The last three branches of the choice of a directory.
unfoldable pub fallback_dir : Surroundings → Bytes → Option Bytes → Bytes → Bytes
unfolding legacy_ccache_dir
fallback_dir w home_dir (some xdg) default_dir =
    if w.has_directory (legacy_ccache_dir w home_dir)
    then legacy_ccache_dir w home_dir
    else w.make_path xdg (codes "ccache")
fallback_dir w home_dir none default_dir =
    if w.has_directory (legacy_ccache_dir w home_dir)
    then legacy_ccache_dir w home_dir
    else default_dir

-- The directory of the configuration file: from the command line, from CCACHE_DIR, from the system
-- configuration.
unfoldable pub config_dir : Surroundings → Option Bytes → Option Bytes → Bytes → Bytes → Bytes
unfolding fallback_dir default_config_dir
config_dir w (some cmdline_cache_dir) env_ccache_dir cache_dir home_dir = cmdline_cache_dir
config_dir w none (some (c ∷ env_ccache_dir)) cache_dir home_dir = c ∷ env_ccache_dir
config_dir w none (some []) cache_dir home_dir =
    fallback_dir w home_dir (w.sys.getenv (codes "XDG_CONFIG_HOME")) (default_config_dir home_dir)
config_dir w none none [] home_dir =
    fallback_dir w home_dir (w.sys.getenv (codes "XDG_CONFIG_HOME")) (default_config_dir home_dir)
config_dir w none none (c ∷ cache_dir) home_dir = c ∷ cache_dir

unfoldable pub system_path : Surroundings → Option Bytes → Bytes
system_path w none = w.make_path w.sysconfdir (codes "ccache.conf")
system_path w (some env_ccache_configpath2) = env_ccache_configpath2

-- The branches of read on CCACHE_CONFIGPATH.
unfoldable pub locate :
    Surroundings → Option Bytes → List (Bytes × Bytes) → Bytes → Config → Outcome Config
unfolding config_dir system_path
locate w (some env_ccache_configpath) cmdline_settings_map home_dir c =
    returned (record c { config_path = env_ccache_configpath })
locate w none cmdline_settings_map home_dir c = do
  let path = system_path w (w.sys.getenv (codes "CCACHE_CONFIGPATH2"))
  updated ← update_from_file w.sys path (w.file_text path) (record c { system_config_path = path })
  let directory =
      config_dir w (find (codes "cache_dir") cmdline_settings_map)
        (w.sys.getenv (codes "CCACHE_DIR")) updated.1.cache_dir home_dir
  returned (record updated.1 { config_path = w.make_path directory (codes "ccache.conf") })

-- The lines from the one that names cache_dir_before_config_file_was_read to the call of
-- set_cache_dir. That name is a reference to the member, which the file's own cache_dir has
-- changed when the call is made.
unfoldable pub read_main_file : Surroundings → Config → Outcome Config
read_main_file w c = do
  updated ← update_from_file w.sys c.config_path (w.file_text c.config_path) c
  let cache_dir_before_config_file_was_read = updated.1.cache_dir
  returned (set_cache_dir w.sys cache_dir_before_config_file_was_read updated.1)

unfoldable pub set_default_cache_dir : Surroundings → Bytes → Config → Config
unfolding fallback_dir default_cache_dir
set_default_cache_dir w home_dir c =
    if eq_bytes c.cache_dir []
    then set_cache_dir w.sys
        (fallback_dir w home_dir (w.sys.getenv (codes "XDG_CACHE_HOME"))
          (default_cache_dir home_dir))
        c
    else c

-- Config::read
unfoldable pub read : Surroundings → List Bytes → Config → Outcome Config
unfolding read_main_file locate home_directory
read w cmdline_config_settings c = do
  cmdline_settings_map ← create_cmdline_settings_map cmdline_config_settings
  home_dir ← home_directory w
  located ← locate w (w.sys.getenv (codes "CCACHE_CONFIGPATH")) cmdline_settings_map home_dir c
  main ← read_main_file w located
  with_environment ← update_from_environment w.sys w.environ main
  with_map ← update_from_map w.sys (w.arranged cmdline_settings_map) with_environment
  returned (set_default_cache_dir w home_dir with_map)
