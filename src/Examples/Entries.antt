-- ===== src/Examples/Entries.antt =====
-- A cache entry that is stored and opened (src/core/CacheEntry.cpp).
use ccache.Prelude.{
  ℕ, ◌+◌, ◌<◌, ◌≡◌, refl, true, Bytes, [], ◌∷◌, ◌++◌, Option, none, some, replicate, length, arith,
  codes, IsBytes,
}
use ccache.Fallible.{ok}
use ccache.Codec.{big_endian_to_int, big_endian_to_int_loop, read_int, read_str, read_bytes}
use ccache.CacheEntry.Types.{k_ccache_magic, k_format_version, result, zstd, Header}
use ccache.CacheEntry.Header
use ccache.CacheEntry.Header.RoundTrip.{IsStorable, parse-serialize}
use ccache.CacheEntry.Header.Accepted.{IsLaidOut, parse_accepts}
use ccache.CacheEntry.Entry.{
  Library, serialize_bytes, stored_header, append_payload, zstd_compress, do_serialize,
  zstd_supported_compression_level,
}
use ccache.CacheEntry.Entry.{Serializer}
use ccache.CacheEntry.Entry.RoundTrip.{IsSound, Fits, Reopens, open-serialize_bytes}

-- A compressor that puts a byte in front, and a hash that is the same for all inputs.
abbrev compress : Bytes → ℕ → ℕ → Option Bytes
compress input bound level = some (level ∷ input)

abbrev decompress : Bytes → ℕ → Option Bytes
decompress [] capacity = none
decompress (level ∷ input) capacity = some input

abbrev library : Library
library = record {
  xxh3_128 = λ bytes. replicate 16 7;
  zstd_compress = compress;
  zstd_compress_bound = λ n. n + 1;
  zstd_decompress = decompress;
  zstd_version_number = 10500;
  zstd_max_level = 22;
}

library-IsSound : IsSound library
library-IsSound = record {
  digest_size = λ bytes. refl;
  max_level = omega arith;
  not_empty = λ input bound level output h. filled output (level ∷ input) h (omega arith);
  restores = λ input bound level output h. restored output level input h;
}
  where
    filled :
        (output t : Bytes)
        → ◌≡◌ {A = Option Bytes} (some t) (some output)
        → 0 < length t
        → 0 < length output
    filled output t h p = let e : t ≡ output = cc in rw e at p

    restored :
        (output : Bytes) (level : ℕ) (input : Bytes)
        → ◌≡◌ {A = Option Bytes} (some (level ∷ input)) (some output)
        → decompress output (length input) ≡ some input
    restored output level input h = let e : level ∷ input ≡ output = cc in rw (← e) refl

abbrev header : Header
header = record {
  magic = k_ccache_magic;
  entry_format_version = k_format_version;
  entry_type = result;
  compression_type = zstd;
  compression_level = 30;
  self_contained = true;
  creation_time = 1700000000;
  ccache_version = codes "4.9";
  namespace_ = codes "ns";
  entry_size = 0;
}

header-IsStorable : IsStorable header
header-IsStorable = record {
  magic = refl;
  version = refl;
  level = omega arith;
  time = omega arith;
  version_fits = omega arith;
  namespace_fits = omega arith;
  size = omega arith;
}

header_example : Header.parse (Header.serialize header [] ++ (1 ∷ [])) ≡ ok (header, 1 ∷ [])
header_example = parse-serialize header (1 ∷ []) header-IsStorable

abbrev header_input : Bytes
header_input =
    0xcc ∷ 0xac ∷ 1 ∷ 0 ∷ 1 ∷ 5 ∷ 3 ∷ 0 ∷ 0 ∷ 0 ∷ 0 ∷ 0 ∷ 0 ∷ 0 ∷ 9 ∷ 1 ∷ b'4' ∷ 0 ∷ 0 ∷ 0 ∷ 0 ∷ 0
    ∷ 0 ∷ 0 ∷ 0 ∷ 50 ∷ []

-- The byte of <self_contained> is 3.
abbrev header_read : Header
header_read = record {
  magic = k_ccache_magic;
  entry_format_version = k_format_version;
  entry_type = result;
  compression_type = zstd;
  compression_level = 5;
  self_contained = true;
  creation_time = 9;
  ccache_version = codes "4";
  namespace_ = [];
  entry_size = 50;
}

header_input-IsBytes : IsBytes header_input
header_input-IsBytes = ground arith

header_input_parses : Header.parse header_input ≡ ok (header_read, [])
unfolding Header.parse Header.cache_entry_type_from_int Header.compression_type_from_int read_int
    read_str read_bytes big_endian_to_int big_endian_to_int_loop
header_input_parses = refl

accepted_example : IsLaidOut header_input [] header_read
accepted_example =
    parse_accepts header_input header_read [] header_input-IsBytes header_input_parses

abbrev two_bytes : Bytes
two_bytes = 1 ∷ 2 ∷ []

abbrev entry_bytes : Bytes
entry_bytes =
    let start = Header.serialize (stored_header library header 2) [] in
    let body = start ++ (22 ∷ two_bytes) in body ++ replicate 16 7

-- The level 30 is above the library's maximum, which is stored in its place.
entry_serialized : serialize_bytes library header two_bytes ≡ ok entry_bytes
unfolding serialize_bytes do_serialize stored_header append_payload zstd_compress
    zstd_supported_compression_level
entry_serialized = refl

two_bytes-Fits : Fits header two_bytes
unfolding Header.serialized_size
two_bytes-Fits = (omega arith, omega arith, omega arith)

open_example : Reopens library header two_bytes entry_bytes
open_example =
    open-serialize_bytes library library-IsSound header header-IsStorable two_bytes two_bytes-Fits
      entry_bytes entry_serialized

-- A serializer of two bytes.
abbrev serializer : Serializer
serializer = record { serialized_size = ok 2; serialize = λ result. ok (result ++ two_bytes) }
