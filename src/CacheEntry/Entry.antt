-- ===== src/CacheEntry/Entry.antt =====
-- class CacheEntry (src/core/CacheEntry.cpp), and the calls of the compressor
-- (src/util/zstd.cpp). The hash, which the class feeds piece by piece, is a parameter: a function
-- of all the bytes fed so far. So are the compressor's functions.
pub mod RoundTrip
pub mod Serializers
use ccache.Prelude.{
  ℕ, ◌+◌, ◌-◌, ◌%◌, ◌^◌, ◌<◌, ◌≡◌, Bool, Bytes, [], ◌++◌, length, take, drop, ltb, leb, min, ◌&&◌,
  ◌||◌, ◌==◌, if◌then◌else◌, Option, none, some, eq_bytes,
}
use ccache.Fallible.{
  Result, ok, err, ◌>>=◌, entry_underflow, bad_checksum, decompression_error, compression_error,
}
use ccache.CacheEntry.Types.{Header, uncompressed, zstd, CompressionType}
use ccache.CacheEntry.Header
use ccache.CacheEntry.Header.{k_epilogue_fields_size}

-- Third-party code. `xxh3_128` gives the 16 bytes that XXH3_128::digest returns;
-- `zstd_compress input bound level` and `zstd_decompress input capacity` are `none` on an error.
pub record Library : Type 0 where
  pub xxh3_128 : Bytes → Bytes
  pub zstd_compress : Bytes → ℕ → ℕ → Option Bytes
  pub zstd_compress_bound : ℕ → ℕ
  pub zstd_decompress : Bytes → ℕ → Option Bytes
  pub zstd_version_number : ℕ
  pub zstd_max_level : ℕ

-- An int8_t as a bit pattern: 128 and above are the negative numbers. The level is the smaller
-- one, as signed numbers, of the wanted one and libzstd's maximum, which is from 1 to 127.
unfoldable pub zstd_supported_compression_level : Library → ℕ → ℕ
zstd_supported_compression_level lib wanted_level =
    if ltb lib.zstd_version_number 10304 && (wanted_level == 0 || leb 128 wanted_level)
    then 1
    else if ltb wanted_level 128
    then min wanted_level lib.zstd_max_level
    else wanted_level

-- util::zstd_compress appends to `output`.
unfoldable pub zstd_compress : Library → Bytes → Bytes → ℕ → Result Bytes
zstd_compress lib input output level =
    elim (lib.zstd_compress input (lib.zstd_compress_bound (length input)) level) [
      | none ↦ err compression_error
      | some compressed ↦ ok (output ++ compressed)
    ]

-- The interface core::Serializer; `serialize` appends to the buffer.
pub record Serializer : Type 0 where
  pub serialized_size : Result ℕ
  pub serialize : Bytes → Result Bytes

abbrev pub stored_level : Library → CompressionType → ℕ → ℕ
stored_level lib uncompressed level = level
stored_level lib zstd level = zstd_supported_compression_level lib level

-- The header that is written: its size, and a level that libzstd supports.
unfoldable pub stored_header : Library → Header → ℕ → Header
stored_header lib header serialized_payload_size = record header {
  entry_size =
      (Header.serialized_size header + k_epilogue_fields_size + serialized_payload_size) % 2 ^ 64;
  compression_level = stored_level lib header.compression_type header.compression_level;
}

unfoldable pub do_serialize : Library → Header → ℕ → (Bytes → Header → Result Bytes) → Result Bytes
unfolding stored_header
do_serialize lib header serialized_payload_size serialize_payload = do
  let hdr = stored_header lib header serialized_payload_size
  result ← serialize_payload (Header.serialize hdr []) hdr
  ok (result ++ lib.xxh3_128 result)

-- The callback for a payload that is at hand.
unfoldable pub append_payload : Library → Bytes → CompressionType → ℕ → Bytes → Result Bytes
unfolding zstd_compress
append_payload lib bytes uncompressed level result = ok (result ++ bytes)
append_payload lib bytes zstd level result = zstd_compress lib bytes result level

-- CacheEntry::serialize for a payload that is at hand.
unfoldable pub serialize_bytes : Library → Header → Bytes → Result Bytes
unfolding do_serialize
serialize_bytes lib header bytes =
    do_serialize lib header (length bytes)
      λ result hdr. append_payload lib bytes hdr.compression_type hdr.compression_level result

-- The callback for a payload that a serializer writes.
unfoldable pub write_payload : Library → Serializer → CompressionType → ℕ → Bytes → Result Bytes
unfolding zstd_compress
write_payload lib serializer uncompressed level result = serializer.serialize result
write_payload lib serializer zstd level result = do
  payload ← serializer.serialize []
  zstd_compress lib payload result level

-- CacheEntry::serialize for a payload that a serializer writes.
unfoldable pub serialize_with : Library → Header → Serializer → Result Bytes
unfolding do_serialize write_payload
serialize_with lib header serializer = do
  size ← serializer.serialized_size
  do_serialize lib header size
      λ result hdr. write_payload lib serializer hdr.compression_type hdr.compression_level result

pub record CacheEntry : Type 0 where
  pub header : Header
  pub stored_payload : Bytes
  pub checksum : Bytes
  pub uncompressed_payload : Bytes

-- util::zstd_decompress into an empty buffer of the capacity that the constructor reserves.
unfoldable pub uncompress : Library → CompressionType → ℕ → Bytes → Result Bytes
uncompress lib uncompressed capacity bytes = ok []
uncompress lib zstd capacity bytes = elim (lib.zstd_decompress bytes capacity) [
  | none ↦ err decompression_error
  | some b ↦ ok b
]

unfoldable pub after_header : Library → Bytes → Header → Result CacheEntry
unfolding uncompress
after_header lib input header =
    let header_size = Header.serialized_size header in
    let non_payload_size = header_size + k_epilogue_fields_size in
    let payload = take (length input - non_payload_size) (drop header_size input) in
    let opened = do
      bytes ←
          uncompress lib header.compression_type (Header.uncompressed_payload_size header) payload
      ok (record {
        header = header;
        stored_payload = payload;
        checksum = drop (length input - k_epilogue_fields_size) input;
        uncompressed_payload = bytes;
      })
    in if leb (length input) non_payload_size then err entry_underflow else opened

-- CacheEntry::CacheEntry
unfoldable pub open_entry : Library → Bytes → Result CacheEntry
unfolding after_header
open_entry lib input = do parsed ← Header.parse input; after_header lib input parsed.0

unfoldable pub verify_checksum : Library → CacheEntry → Result (Unit {0})
verify_checksum lib entry =
    let actual = lib.xxh3_128 (Header.serialize entry.header [] ++ entry.stored_payload) in
    if eq_bytes actual entry.checksum then ok tt else err bad_checksum

unfoldable pub payload : CacheEntry → Bytes
payload entry = elim entry.header.compression_type [
  | uncompressed ↦ entry.stored_payload
  | zstd ↦ entry.uncompressed_payload
]
