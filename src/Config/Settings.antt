-- ===== src/Config/Settings.antt =====
-- What a configuration holds (src/Config.hpp and src/core/Sloppiness.hpp).
pub mod Setters
use ccache.Prelude.{ℕ, ◌*◌, Bool, true, false, Bytes, List, [], Option, none, codes}
use ccache.Text.Values.{ℤ, pos}

pub data CompilerType : Type 0 where
  auto_guess clang clang_cl gcc icl msvc nvcc other : CompilerType

pub data SizeUnitPrefixType : Type 0 where
  binary decimal : SizeUnitPrefixType

-- BitSet<Sloppy>: whether the bit of each enumerator is set.
pub record Sloppiness : Type 0 where
  pub include_file_mtime : Bool
  pub include_file_ctime : Bool
  pub time_macros : Bool
  pub pch_defines : Bool
  pub file_stat_matches : Bool
  pub system_headers : Bool
  pub file_stat_matches_ctime : Bool
  pub clang_index_store : Bool
  pub locale : Bool
  pub modules : Bool
  pub ivfsoverlay : Bool
  pub gcno_cwd : Bool
  pub random_seed : Bool

abbrev pub no_sloppiness : Sloppiness
no_sloppiness = record {
  include_file_mtime = false;
  include_file_ctime = false;
  time_macros = false;
  pch_defines = false;
  file_stat_matches = false;
  system_headers = false;
  file_stat_matches_ctime = false;
  clang_index_store = false;
  locale = false;
  modules = false;
  ivfsoverlay = false;
  gcno_cwd = false;
  random_seed = false;
}

-- The members, without their prefix; `origins` is the map as a list of rows.
pub record Config : Type 0 where
  pub config_path : Bytes
  pub system_config_path : Bytes
  pub absolute_paths_in_stderr : Bool
  pub base_dir : Bytes
  pub cache_dir : Bytes
  pub compiler : Bytes
  pub compiler_check : Bytes
  pub compiler_type : CompilerType
  pub compression : Bool
  pub compression_level : ℤ
  pub cpp_extension : Bytes
  pub debug : Bool
  pub debug_dir : Bytes
  pub debug_level : ℕ
  pub depend_mode : Bool
  pub direct_mode : Bool
  pub disable : Bool
  pub extra_files_to_hash : Bytes
  pub file_clone : Bool
  pub hard_link : Bool
  pub hash_dir : Bool
  pub ignore_headers_in_manifest : Bytes
  pub ignore_options : Bytes
  pub inode_cache : Bool
  pub keep_comments_cpp : Bool
  pub log_file : Bytes
  pub max_files : ℕ
  pub max_size : ℕ
  pub msvc_dep_prefix : Bytes
  pub path : Bytes
  pub pch_external_checksum : Bool
  pub prefix_command : Bytes
  pub prefix_command_cpp : Bytes
  pub read_only : Bool
  pub read_only_direct : Bool
  pub recache : Bool
  pub reshare : Bool
  pub run_second_cpp : Bool
  pub remote_only : Bool
  pub remote_storage : Bytes
  pub sloppiness : Sloppiness
  pub stats : Bool
  pub stats_log : Bytes
  pub namespace_ : Bytes
  pub temporary_dir : Bytes
  pub umask : Option ℕ
  pub temporary_dir_configured_explicitly : Bool
  pub size_prefix_type : SizeUnitPrefixType
  pub origins : List (Bytes × Bytes)

-- The initial values of the members, not on Windows.
abbrev pub initial : Config
initial = record {
  config_path = [];
  system_config_path = [];
  absolute_paths_in_stderr = false;
  base_dir = [];
  cache_dir = [];
  compiler = [];
  compiler_check = codes "mtime";
  compiler_type = CompilerType.auto_guess;
  compression = true;
  compression_level = pos 0;
  cpp_extension = [];
  debug = false;
  debug_dir = [];
  debug_level = 2;
  depend_mode = false;
  direct_mode = true;
  disable = false;
  extra_files_to_hash = [];
  file_clone = false;
  hard_link = false;
  hash_dir = true;
  ignore_headers_in_manifest = [];
  ignore_options = [];
  inode_cache = true;
  keep_comments_cpp = false;
  log_file = [];
  max_files = 0;
  max_size = 5 * 1024 * 1024 * 1024;
  msvc_dep_prefix = codes "Note: including file:";
  path = [];
  pch_external_checksum = false;
  prefix_command = [];
  prefix_command_cpp = [];
  read_only = false;
  read_only_direct = false;
  recache = false;
  reshare = false;
  run_second_cpp = true;
  remote_only = false;
  remote_storage = [];
  sloppiness = no_sloppiness;
  stats = true;
  stats_log = [];
  namespace_ = [];
  temporary_dir = [];
  umask = none;
  temporary_dir_configured_explicitly = false;
  size_prefix_type = SizeUnitPrefixType.binary;
  origins = [];
}
