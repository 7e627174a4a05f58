-- ===== src/CacheEntry/Types.antt =====
-- The header of a cache entry and how a new one is filled in (src/core/CacheEntry.hpp,
-- src/core/CacheEntry.cpp, src/core/types.cpp).
use ccache.Prelude.{ℕ, Bool, true, false, Bytes, ◌==◌, ◌&&◌, ◌||◌, not, if◌then◌else◌}

abbrev pub k_ccache_magic : ℕ
k_ccache_magic = 0xccac

abbrev pub k_format_version : ℕ
k_format_version = 1

abbrev pub default_compression_level : ℕ
default_compression_level = 1

pub data CacheEntryType : Type 0 where
  result manifest : CacheEntryType

pub data CompressionType : Type 0 where
  uncompressed zstd : CompressionType

-- The values of the enumerations.
abbrev pub entry_type_to_int : CacheEntryType → ℕ
entry_type_to_int result = 0
entry_type_to_int manifest = 1

abbrev pub compression_type_to_int : CompressionType → ℕ
compression_type_to_int uncompressed = 0
compression_type_to_int zstd = 1

pub record Header : Type 0 where
  pub magic : ℕ
  pub entry_format_version : ℕ
  pub entry_type : CacheEntryType
  pub compression_type : CompressionType
  pub compression_level : ℕ
  pub self_contained : Bool
  pub creation_time : ℕ
  pub ccache_version : Bytes
  pub namespace_ : Bytes
  pub entry_size : ℕ

-- The settings that a new header depends on.
pub record Config : Type 0 where
  pub compression : Bool
  pub compression_level : ℕ
  pub file_clone : Bool
  pub hard_link : Bool
  pub namespace_ : Bytes

unfoldable pub compression_level_from_config : Config → ℕ
compression_level_from_config config = if config.compression then config.compression_level else 0

unfoldable pub compression_type_from_config : Config → CompressionType
compression_type_from_config config = if config.compression then zstd else uncompressed

-- Result::Serializer::use_raw_files
unfoldable pub use_raw_files : Config → Bool
use_raw_files config = config.file_clone || config.hard_link

abbrev is_result : CacheEntryType → Bool
is_result result = true
is_result manifest = false

abbrev pub is_zstd : CompressionType → Bool
is_zstd uncompressed = false
is_zstd zstd = true

-- CacheEntry::Header::Header(const Config&, CacheEntryType); the time and the version are inputs.
unfoldable pub new_header : Config → CacheEntryType → ℕ → Bytes → Header
unfolding compression_level_from_config compression_type_from_config use_raw_files
new_header config entry_type now version =
    let level = compression_level_from_config config in
    record {
      magic = k_ccache_magic;
      entry_format_version = k_format_version;
      entry_type = entry_type;
      compression_type = compression_type_from_config config;
      compression_level =
          if is_zstd (compression_type_from_config config) && level == 0
          then default_compression_level
          else level;
      self_contained = not (is_result entry_type) || not (use_raw_files config);
      creation_time = now;
      ccache_version = version;
      namespace_ = config.namespace_;
      entry_size = 0;
    }
