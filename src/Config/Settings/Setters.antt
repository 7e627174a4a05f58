-- ===== src/Config/Settings/Setters.antt =====
-- The setters of one member (src/Config.hpp and src/Config.cpp).
use ccache.Prelude.{ℕ, Bool, Bytes}
use ccache.Config.Settings.{CompilerType, Config}

unfoldable pub set_base_dir : Bytes → Config → Config
set_base_dir value c = record c { base_dir = value }

unfoldable pub set_cpp_extension : Bytes → Config → Config
set_cpp_extension value c = record c { cpp_extension = value }

unfoldable pub set_compiler : Bytes → Config → Config
set_compiler value c = record c { compiler = value }

unfoldable pub set_compiler_type : CompilerType → Config → Config
set_compiler_type value c = record c { compiler_type = value }

unfoldable pub set_depend_mode : Bool → Config → Config
set_depend_mode value c = record c { depend_mode = value }

unfoldable pub set_debug : Bool → Config → Config
set_debug value c = record c { debug = value }

unfoldable pub set_direct_mode : Bool → Config → Config
set_direct_mode value c = record c { direct_mode = value }

unfoldable pub set_file_clone : Bool → Config → Config
set_file_clone value c = record c { file_clone = value }

unfoldable pub set_hard_link : Bool → Config → Config
set_hard_link value c = record c { hard_link = value }

unfoldable pub set_ignore_options : Bytes → Config → Config
set_ignore_options value c = record c { ignore_options = value }

unfoldable pub set_inode_cache : Bool → Config → Config
set_inode_cache value c = record c { inode_cache = value }

unfoldable pub set_max_files : ℕ → Config → Config
set_max_files value c = record c { max_files = value }

unfoldable pub set_msvc_dep_prefix : Bytes → Config → Config
set_msvc_dep_prefix value c = record c { msvc_dep_prefix = value }

unfoldable pub set_run_second_cpp : Bool → Config → Config
set_run_second_cpp value c = record c { run_second_cpp = value }

unfoldable pub set_temporary_dir : Bytes → Config → Config
set_temporary_dir value c = record c { temporary_dir = value }

unfoldable pub set_config_path : Bytes → Config → Config
set_config_path value c = record c { config_path = value }

unfoldable pub set_system_config_path : Bytes → Config → Config
set_system_config_path value c = record c { system_config_path = value }
