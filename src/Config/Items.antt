-- ===== src/Config/Items.antt =====
-- Setting and showing a configuration item (src/Config.cpp, Config::set_item and
-- Config::get_string_value).
pub mod Shown
pub mod SetShown
pub mod Sized
use ccache.Prelude.{
  ℕ, ◌-◌, ◌^◌, Bool, true, false, Bytes, List, [], ◌∷◌, ◌++◌, Option, none, some, length, take,
  drop, eq_bytes, ltb, ◌&&◌, not, if◌then◌else◌, codes,
}
use ccache.Decimal.{print_decimal}
use ccache.Text.Values.{
  ℤ, pos, negsuc, ValueError, Expected, parse_unsigned, parse_signed, parse_umask, print_signed,
}
use ccache.Config.Tables.{
  ConfigItem, ConfigKeyTableEntry, k_config_key_table, find, insert_or_assign,
}
use ccache.Config.Settings.{CompilerType, SizeUnitPrefixType, Config}
use ccache.Config.Values.{
  Outcome, thrown, returned, ◌>>=◌, ConfigError, not_absolute, unknown_option, value_or_throw,
  parse_bool, format_bool, parse_compiler_type, compiler_type_to_string, format_umask,
}
use ccache.Config.Sloppy.{parse_sloppiness, format_sloppiness}
use ccache.Config.Expand.{expand_environment_variables}

-- What a configuration takes from its surroundings: the environment, the C++ library's view of paths,
-- the conversions of sizes, which compute with floating point numbers, and the directory that
-- default_temporary_dir finds under $XDG_RUNTIME_DIR or an empty text.
pub record System : Type 0 where
  pub getenv : Bytes → Option Bytes
  pub is_absolute : Bytes → Bool
  pub normalize_abstract_absolute_path : Bytes → Bytes
  pub parse_size : Bytes → Expected (ℕ × SizeUnitPrefixType)
  pub format_human_readable_size : ℕ → SizeUnitPrefixType → Bytes
  pub run_user_tmp_dir : Bytes

-- Config::default_temporary_dir
unfoldable pub default_temporary_dir : System → Bytes → Bytes
default_temporary_dir sys cache_dir =
    if not (eq_bytes sys.run_user_tmp_dir [])
    then sys.run_user_tmp_dir
    else cache_dir ++ codes "/tmp"

-- Config::set_cache_dir
unfoldable pub set_cache_dir : System → Bytes → Config → Config
set_cache_dir sys value c = record c {
  cache_dir = value;
  temporary_dir =
      if c.temporary_dir_configured_explicitly
      then c.temporary_dir
      else default_temporary_dir sys value;
}

unfoldable pub checked_base_dir : System → Bytes → Outcome Bytes
checked_base_dir sys [] = returned []
checked_base_dir sys (d ∷ value) =
    if sys.is_absolute (d ∷ value)
    then returned (sys.normalize_abstract_absolute_path (d ∷ value))
    else thrown (not_absolute (d ∷ value))

-- The switch of set_item. The configuration is lost with an exception: no caller goes on with it.
unfoldable pub assign : System → ConfigItem → Bytes → Option Bytes → Bool → Config → Outcome Config
assign sys ConfigItem.absolute_paths_in_stderr value env_var_key negate c = do
  b ← parse_bool value env_var_key negate
  returned (record c { absolute_paths_in_stderr = b })
assign sys ConfigItem.base_dir value env_var_key negate c = do
  directory ← checked_base_dir sys value
  returned (record c { base_dir = directory })
assign sys ConfigItem.cache_dir value env_var_key negate c = returned (set_cache_dir sys value c)
assign sys ConfigItem.compiler value env_var_key negate c = returned (record c { compiler = value })
assign sys ConfigItem.compiler_check value env_var_key negate c =
    returned (record c { compiler_check = value })
assign sys ConfigItem.compiler_type value env_var_key negate c =
    returned (record c { compiler_type = parse_compiler_type value })
assign sys ConfigItem.compression value env_var_key negate c = do
  b ← parse_bool value env_var_key negate
  returned (record c { compression = b })
assign sys ConfigItem.compression_level value env_var_key negate c = do
  level ← value_or_throw (parse_signed value (negsuc 127) (pos 127))
  returned (record c { compression_level = level })
assign sys ConfigItem.cpp_extension value env_var_key negate c =
    returned (record c { cpp_extension = value })
assign sys ConfigItem.debug value env_var_key negate c = do
  b ← parse_bool value env_var_key negate
  returned (record c { debug = b })
assign sys ConfigItem.debug_dir value env_var_key negate c =
    returned (record c { debug_dir = value })
assign sys ConfigItem.debug_level value env_var_key negate c = do
  level ← value_or_throw (parse_unsigned value 0 255 10)
  returned (record c { debug_level = level })
assign sys ConfigItem.depend_mode value env_var_key negate c = do
  b ← parse_bool value env_var_key negate
  returned (record c { depend_mode = b })
assign sys ConfigItem.direct_mode value env_var_key negate c = do
  b ← parse_bool value env_var_key negate
  returned (record c { direct_mode = b })
assign sys ConfigItem.disable value env_var_key negate c = do
  b ← parse_bool value env_var_key negate
  returned (record c { disable = b })
assign sys ConfigItem.extra_files_to_hash value env_var_key negate c =
    returned (record c { extra_files_to_hash = value })
assign sys ConfigItem.file_clone value env_var_key negate c = do
  b ← parse_bool value env_var_key negate
  returned (record c { file_clone = b })
assign sys ConfigItem.hard_link value env_var_key negate c = do
  b ← parse_bool value env_var_key negate
  returned (record c { hard_link = b })
assign sys ConfigItem.hash_dir value env_var_key negate c = do
  b ← parse_bool value env_var_key negate
  returned (record c { hash_dir = b })
assign sys ConfigItem.ignore_headers_in_manifest value env_var_key negate c =
    returned (record c { ignore_headers_in_manifest = value })
assign sys ConfigItem.ignore_options value env_var_key negate c =
    returned (record c { ignore_options = value })
assign sys ConfigItem.inode_cache value env_var_key negate c = do
  b ← parse_bool value env_var_key negate
  returned (record c { inode_cache = b })
assign sys ConfigItem.keep_comments_cpp value env_var_key negate c = do
  b ← parse_bool value env_var_key negate
  returned (record c { keep_comments_cpp = b })
assign sys ConfigItem.log_file value env_var_key negate c = returned (record c { log_file = value })
assign sys ConfigItem.max_files value env_var_key negate c = do
  n ← value_or_throw (parse_unsigned value 0 (2 ^ 64 - 1) 10)
  returned (record c { max_files = n })
assign sys ConfigItem.max_size value env_var_key negate c = do
  size ← value_or_throw (sys.parse_size value)
  returned (record c { max_size = size.0; size_prefix_type = size.1 })
assign sys ConfigItem.msvc_dep_prefix value env_var_key negate c =
    returned (record c { msvc_dep_prefix = value })
assign sys ConfigItem.namespace_ value env_var_key negate c =
    returned (record c { namespace_ = value })
assign sys ConfigItem.path value env_var_key negate c = returned (record c { path = value })
assign sys ConfigItem.pch_external_checksum value env_var_key negate c = do
  b ← parse_bool value env_var_key negate
  returned (record c { pch_external_checksum = b })
assign sys ConfigItem.prefix_command value env_var_key negate c =
    returned (record c { prefix_command = value })
assign sys ConfigItem.prefix_command_cpp value env_var_key negate c =
    returned (record c { prefix_command_cpp = value })
assign sys ConfigItem.read_only value env_var_key negate c = do
  b ← parse_bool value env_var_key negate
  returned (record c { read_only = b })
assign sys ConfigItem.read_only_direct value env_var_key negate c = do
  b ← parse_bool value env_var_key negate
  returned (record c { read_only_direct = b })
assign sys ConfigItem.recache value env_var_key negate c = do
  b ← parse_bool value env_var_key negate
  returned (record c { recache = b })
assign sys ConfigItem.remote_only value env_var_key negate c = do
  b ← parse_bool value env_var_key negate
  returned (record c { remote_only = b })
assign sys ConfigItem.remote_storage value env_var_key negate c =
    returned (record c { remote_storage = value })
assign sys ConfigItem.reshare value env_var_key negate c = do
  b ← parse_bool value env_var_key negate
  returned (record c { reshare = b })
assign sys ConfigItem.run_second_cpp value env_var_key negate c = do
  b ← parse_bool value env_var_key negate
  returned (record c { run_second_cpp = b })
assign sys ConfigItem.sloppiness value env_var_key negate c =
    returned (record c { sloppiness = parse_sloppiness value })
assign sys ConfigItem.stats value env_var_key negate c = do
  b ← parse_bool value env_var_key negate
  returned (record c { stats = b })
assign sys ConfigItem.stats_log value env_var_key negate c =
    returned (record c { stats_log = value })
assign sys ConfigItem.temporary_dir value env_var_key negate c =
    returned (record c { temporary_dir = value; temporary_dir_configured_explicitly = true })
assign sys ConfigItem.umask [] env_var_key negate c = returned c
assign sys ConfigItem.umask (d ∷ value) env_var_key negate c = do
  mask ← value_or_throw (parse_umask (d ∷ value))
  returned (record c { umask = some mask })

unfoldable pub canonical_key : Bytes → Option Bytes → Bytes
canonical_key key none = key
canonical_key key (some alias) = alias

unfoldable pub set_entry :
    System
    → Option ConfigKeyTableEntry
    → Bytes
    → Bytes
    → Option Bytes
    → Bool
    → Bytes
    → Config
    → Outcome Config
set_entry sys none key unexpanded_value env_var_key negate origin c = returned c
set_entry sys (some entry) key unexpanded_value env_var_key negate origin c = do
  value ← value_or_throw (expand_environment_variables sys.getenv unexpanded_value)
  assigned ← assign sys entry.item value env_var_key negate c
  returned (record assigned {
    origins = insert_or_assign (canonical_key key entry.alias) origin assigned.origins;
  })

-- Config::set_item
unfoldable pub set_item :
    System → Bytes → Bytes → Option Bytes → Bool → Bytes → Config → Outcome Config
unfolding set_entry
set_item sys key unexpanded_value env_var_key negate origin c =
    set_entry sys (find key k_config_key_table) key unexpanded_value env_var_key negate origin c

-- The text without " bytes" at its end.
unfoldable pub drop_bytes : Bytes → Bytes
drop_bytes result =
    if ltb 5 (length result) && eq_bytes (drop (length result - 6) result) (codes " bytes")
    then take (length result - 6) result
    else result

-- The switch of get_string_value.
unfoldable pub item_string : System → ConfigItem → Config → Bytes
item_string sys ConfigItem.absolute_paths_in_stderr c = format_bool c.absolute_paths_in_stderr
item_string sys ConfigItem.base_dir c = c.base_dir
item_string sys ConfigItem.cache_dir c = c.cache_dir
item_string sys ConfigItem.compiler c = c.compiler
item_string sys ConfigItem.compiler_check c = c.compiler_check
item_string sys ConfigItem.compiler_type c = compiler_type_to_string c.compiler_type
item_string sys ConfigItem.compression c = format_bool c.compression
item_string sys ConfigItem.compression_level c = print_signed c.compression_level
item_string sys ConfigItem.cpp_extension c = c.cpp_extension
item_string sys ConfigItem.debug c = format_bool c.debug
item_string sys ConfigItem.debug_dir c = c.debug_dir
item_string sys ConfigItem.debug_level c = print_decimal c.debug_level
item_string sys ConfigItem.depend_mode c = format_bool c.depend_mode
item_string sys ConfigItem.direct_mode c = format_bool c.direct_mode
item_string sys ConfigItem.disable c = format_bool c.disable
item_string sys ConfigItem.extra_files_to_hash c = c.extra_files_to_hash
item_string sys ConfigItem.file_clone c = format_bool c.file_clone
item_string sys ConfigItem.hard_link c = format_bool c.hard_link
item_string sys ConfigItem.hash_dir c = format_bool c.hash_dir
item_string sys ConfigItem.ignore_headers_in_manifest c = c.ignore_headers_in_manifest
item_string sys ConfigItem.ignore_options c = c.ignore_options
item_string sys ConfigItem.inode_cache c = format_bool c.inode_cache
item_string sys ConfigItem.keep_comments_cpp c = format_bool c.keep_comments_cpp
item_string sys ConfigItem.log_file c = c.log_file
item_string sys ConfigItem.max_files c = print_decimal c.max_files
item_string sys ConfigItem.max_size c =
    drop_bytes (sys.format_human_readable_size c.max_size c.size_prefix_type)
item_string sys ConfigItem.msvc_dep_prefix c = c.msvc_dep_prefix
item_string sys ConfigItem.namespace_ c = c.namespace_
item_string sys ConfigItem.path c = c.path
item_string sys ConfigItem.pch_external_checksum c = format_bool c.pch_external_checksum
item_string sys ConfigItem.prefix_command c = c.prefix_command
item_string sys ConfigItem.prefix_command_cpp c = c.prefix_command_cpp
item_string sys ConfigItem.read_only c = format_bool c.read_only
item_string sys ConfigItem.read_only_direct c = format_bool c.read_only_direct
item_string sys ConfigItem.recache c = format_bool c.recache
item_string sys ConfigItem.remote_only c = format_bool c.remote_only
item_string sys ConfigItem.remote_storage c = c.remote_storage
item_string sys ConfigItem.reshare c = format_bool c.reshare
item_string sys ConfigItem.run_second_cpp c = format_bool c.run_second_cpp
item_string sys ConfigItem.sloppiness c = format_sloppiness c.sloppiness
item_string sys ConfigItem.stats c = format_bool c.stats
item_string sys ConfigItem.stats_log c = c.stats_log
item_string sys ConfigItem.temporary_dir c = c.temporary_dir
item_string sys ConfigItem.umask c = format_umask c.umask

unfoldable pub entry_string : System → Option ConfigKeyTableEntry → Bytes → Config → Outcome Bytes
entry_string sys none key c = thrown (unknown_option key)
entry_string sys (some entry) key c = returned (item_string sys entry.item c)

-- Config::get_string_value
unfoldable pub get_string_value : System → Bytes → Config → Outcome Bytes
unfolding entry_string
get_string_value sys key c = entry_string sys (find key k_config_key_table) key c
