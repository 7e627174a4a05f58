-- ===== src/CacheEntry/Header.antt =====
-- CacheEntry::Header::parse and CacheEntry::Header::serialize (src/core/CacheEntry.cpp).
pub mod RoundTrip
pub mod Accepted
use ccache.Prelude.{
  ℕ, ◌+◌, ◌-◌, ◌%◌, ◌^◌, Bool, true, false, Bytes, length, ◌==◌, not, if◌then◌else◌,
}
use ccache.Fallible.{
  ok, err, bad_magic, unknown_format_version, unknown_entry_type, unknown_compression_type,
}
use ccache.Codec.{Reader, Writer, write_int, write_str, read_int, read_str, expect, ◌>>=◌, pure}
use ccache.CacheEntry.Types.{
  k_ccache_magic, k_format_version, CacheEntryType, result, manifest, CompressionType, uncompressed,
  zstd, entry_type_to_int, compression_type_to_int, Header,
}

unfoldable pub cache_entry_type_from_int : ℕ → Reader CacheEntryType
cache_entry_type_from_int n bytes =
    if n == 0
    then ok (result, bytes)
    else if n == 1
    then ok (manifest, bytes)
    else err (unknown_entry_type n)

unfoldable pub compression_type_from_int : ℕ → Reader CompressionType
compression_type_from_int n bytes =
    if n == 0
    then ok (uncompressed, bytes)
    else if n == 1
    then ok (zstd, bytes)
    else err (unknown_compression_type n)

unfoldable pub parse : Reader Header
unfolding cache_entry_type_from_int compression_type_from_int
parse = do
  magic ← read_int 2
  _ ← expect (magic == k_ccache_magic) (bad_magic magic)
  version ← read_int 1
  _ ← expect (version == k_format_version) (unknown_format_version version)
  entry_type_int ← read_int 1
  entry_type ← cache_entry_type_from_int entry_type_int
  compression_type_int ← read_int 1
  compression_type ← compression_type_from_int compression_type_int
  compression_level ← read_int 1
  self_contained ← read_int 1
  creation_time ← read_int 8
  version_length ← read_int 1
  ccache_version ← read_str version_length
  namespace_length ← read_int 1
  namespace_ ← read_str namespace_length
  entry_size ← read_int 8
  pure (record {
    magic = magic;
    entry_format_version = version;
    entry_type = entry_type;
    compression_type = compression_type;
    compression_level = compression_level;
    self_contained = not (self_contained == 0);
    creation_time = creation_time;
    ccache_version = ccache_version;
    namespace_ = namespace_;
    entry_size = entry_size;
  })

-- The fields of a fixed size, and the two length fields.
abbrev pub k_static_header_fields_size : ℕ
k_static_header_fields_size = 2 + 1 + 1 + 1 + 1 + 1 + 8 + 8 + 1 + 1

unfoldable pub serialized_size : Header → ℕ
serialized_size h = k_static_header_fields_size + length h.ccache_version + length h.namespace_

abbrev pub bool_to_int : Bool → ℕ
bool_to_int true = 1
bool_to_int false = 0

unfoldable pub serialize : Header → Writer
serialize h output =
    let output = write_int 2 h.magic output in
    let output = write_int 1 h.entry_format_version output in
    let output = write_int 1 (entry_type_to_int h.entry_type) output in
    let output = write_int 1 (compression_type_to_int h.compression_type) output in
    let output = write_int 1 h.compression_level output in
    let output = write_int 1 (bool_to_int h.self_contained) output in
    let output = write_int 8 h.creation_time output in
    let output = write_int 1 (length h.ccache_version % 2 ^ 8) output in
    let output = write_str h.ccache_version output in
    let output = write_int 1 (length h.namespace_ % 2 ^ 8) output in
    let output = write_str h.namespace_ output in write_int 8 h.entry_size output

abbrev pub k_epilogue_fields_size : ℕ
k_epilogue_fields_size = 8 + 8

-- The difference of size_t values wraps, and uint32_t keeps its low bits.
unfoldable pub uncompressed_payload_size : Header → ℕ
unfolding serialized_size
uncompressed_payload_size h =
    (h.entry_size + 2 ^ 64 - (serialized_size h + k_epilogue_fields_size)) % 2 ^ 32
