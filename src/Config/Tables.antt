-- ===== src/Config/Tables.antt =====
-- The configuration items, their keys and their environment variables (src/Config.cpp).
use ccache.Prelude.{
  String, Bytes, List, [], ◌∷◌, Option, none, some, eq_bytes, if◌then◌else◌, codes,
}

pub data ConfigItem : Type 0 where
  absolute_paths_in_stderr base_dir cache_dir compiler compiler_check : ConfigItem
  compiler_type compression compression_level cpp_extension debug debug_dir : ConfigItem
  debug_level depend_mode direct_mode disable extra_files_to_hash file_clone : ConfigItem
  hard_link hash_dir ignore_headers_in_manifest ignore_options inode_cache : ConfigItem
  keep_comments_cpp log_file max_files max_size msvc_dep_prefix namespace_ path : ConfigItem
  pch_external_checksum prefix_command prefix_command_cpp read_only : ConfigItem
  read_only_direct recache remote_only remote_storage reshare run_second_cpp : ConfigItem
  sloppiness stats stats_log temporary_dir umask : ConfigItem

pub record ConfigKeyTableEntry : Type 0 where
  pub item : ConfigItem
  pub alias : Option Bytes

abbrev row : String → ConfigItem → Bytes × ConfigKeyTableEntry
row key item = (codes key, record { item = item; alias = none })

-- The rows in the order of the source; the keys are distinct.
abbrev pub k_config_key_table : List (Bytes × ConfigKeyTableEntry)
k_config_key_table =
    row "absolute_paths_in_stderr" ConfigItem.absolute_paths_in_stderr
    ∷ row "base_dir" ConfigItem.base_dir
    ∷ row "cache_dir" ConfigItem.cache_dir
    ∷ row "compiler" ConfigItem.compiler
    ∷ row "compiler_check" ConfigItem.compiler_check
    ∷ row "compiler_type" ConfigItem.compiler_type
    ∷ row "compression" ConfigItem.compression
    ∷ row "compression_level" ConfigItem.compression_level
    ∷ row "cpp_extension" ConfigItem.cpp_extension
    ∷ row "debug" ConfigItem.debug
    ∷ row "debug_dir" ConfigItem.debug_dir
    ∷ row "debug_level" ConfigItem.debug_level
    ∷ row "depend_mode" ConfigItem.depend_mode
    ∷ row "direct_mode" ConfigItem.direct_mode
    ∷ row "disable" ConfigItem.disable
    ∷ row "extra_files_to_hash" ConfigItem.extra_files_to_hash
    ∷ row "file_clone" ConfigItem.file_clone
    ∷ row "hard_link" ConfigItem.hard_link
    ∷ row "hash_dir" ConfigItem.hash_dir
    ∷ row "ignore_headers_in_manifest" ConfigItem.ignore_headers_in_manifest
    ∷ row "ignore_options" ConfigItem.ignore_options
    ∷ row "inode_cache" ConfigItem.inode_cache
    ∷ row "keep_comments_cpp" ConfigItem.keep_comments_cpp
    ∷ row "log_file" ConfigItem.log_file
    ∷ row "max_files" ConfigItem.max_files
    ∷ row "max_size" ConfigItem.max_size
    ∷ row "msvc_dep_prefix" ConfigItem.msvc_dep_prefix
    ∷ row "namespace" ConfigItem.namespace_
    ∷ row "path" ConfigItem.path
    ∷ row "pch_external_checksum" ConfigItem.pch_external_checksum
    ∷ row "prefix_command" ConfigItem.prefix_command
    ∷ row "prefix_command_cpp" ConfigItem.prefix_command_cpp
    ∷ row "read_only" ConfigItem.read_only
    ∷ row "read_only_direct" ConfigItem.read_only_direct
    ∷ row "recache" ConfigItem.recache
    ∷ row "remote_only" ConfigItem.remote_only
    ∷ row "remote_storage" ConfigItem.remote_storage
    ∷ row "reshare" ConfigItem.reshare
    ∷ row "run_second_cpp" ConfigItem.run_second_cpp
    ∷ (
      codes "secondary_storage",
      record { item = ConfigItem.remote_storage; alias = some (codes "remote_storage") },
    )
    ∷ row "sloppiness" ConfigItem.sloppiness
    ∷ row "stats" ConfigItem.stats
    ∷ row "stats_log" ConfigItem.stats_log
    ∷ row "temporary_dir" ConfigItem.temporary_dir
    ∷ row "umask" ConfigItem.umask
    ∷ []

abbrev variable : String → String → Bytes × Bytes
variable name key = (codes name, codes key)

abbrev pub k_env_variable_table : List (Bytes × Bytes)
k_env_variable_table =
    variable "ABSSTDERR" "absolute_paths_in_stderr"
    ∷ variable "BASEDIR" "base_dir"
    ∷ variable "CC" "compiler"
    ∷ variable "COMMENTS" "keep_comments_cpp"
    ∷ variable "COMPILER" "compiler"
    ∷ variable "COMPILERCHECK" "compiler_check"
    ∷ variable "COMPILERTYPE" "compiler_type"
    ∷ variable "COMPRESS" "compression"
    ∷ variable "COMPRESSLEVEL" "compression_level"
    ∷ variable "CPP2" "run_second_cpp"
    ∷ variable "DEBUG" "debug"
    ∷ variable "DEBUGDIR" "debug_dir"
    ∷ variable "DEBUGLEVEL" "debug_level"
    ∷ variable "DEPEND" "depend_mode"
    ∷ variable "DIR" "cache_dir"
    ∷ variable "DIRECT" "direct_mode"
    ∷ variable "DISABLE" "disable"
    ∷ variable "EXTENSION" "cpp_extension"
    ∷ variable "EXTRAFILES" "extra_files_to_hash"
    ∷ variable "FILECLONE" "file_clone"
    ∷ variable "HARDLINK" "hard_link"
    ∷ variable "HASHDIR" "hash_dir"
    ∷ variable "IGNOREHEADERS" "ignore_headers_in_manifest"
    ∷ variable "IGNOREOPTIONS" "ignore_options"
    ∷ variable "INODECACHE" "inode_cache"
    ∷ variable "LOGFILE" "log_file"
    ∷ variable "MAXFILES" "max_files"
    ∷ variable "MAXSIZE" "max_size"
    ∷ variable "MSVC_DEP_PREFIX" "msvc_dep_prefix"
    ∷ variable "NAMESPACE" "namespace"
    ∷ variable "PATH" "path"
    ∷ variable "PCH_EXTSUM" "pch_external_checksum"
    ∷ variable "PREFIX" "prefix_command"
    ∷ variable "PREFIX_CPP" "prefix_command_cpp"
    ∷ variable "READONLY" "read_only"
    ∷ variable "READONLY_DIRECT" "read_only_direct"
    ∷ variable "RECACHE" "recache"
    ∷ variable "REMOTE_ONLY" "remote_only"
    ∷ variable "REMOTE_STORAGE" "remote_storage"
    ∷ variable "RESHARE" "reshare"
    ∷ variable "SECONDARY_STORAGE" "remote_storage"
    ∷ variable "SLOPPINESS" "sloppiness"
    ∷ variable "STATS" "stats"
    ∷ variable "STATSLOG" "stats_log"
    ∷ variable "TEMPDIR" "temporary_dir"
    ∷ variable "UMASK" "umask"
    ∷ []

-- find of a map that is a list of rows.
module _ {ℓ} {A : Type ℓ} where
  unfoldable pub find : Bytes → List (Bytes × A) → Option A
  find key [] = none
  find key (row ∷ rows) =
      let later = find key rows in if eq_bytes key row.0 then some row.1 else later

  -- emplace, and an assignment where the key is there.
  unfoldable pub insert_or_assign : Bytes → A → List (Bytes × A) → List (Bytes × A)
  insert_or_assign key value [] = (key, value) ∷ []
  insert_or_assign key value (row ∷ rows) =
      let later = insert_or_assign key value rows in
      if eq_bytes key row.0 then (row.0, value) ∷ rows else row ∷ later
