-- ===== src/CacheEntry/Entry/Serializers.antt =====
-- About CacheEntry::serialize with a Serializer and with a payload at hand
-- (src/core/CacheEntry.cpp).
use ccache.Prelude.{ℕ, ◌≡◌, ap, Bytes, [], ◌++◌, length}
use ccache.Fallible.{Result, ok, ◌>>=◌}
use ccache.CacheEntry.Types.{Header, uncompressed, zstd, CompressionType}
use ccache.CacheEntry.Header
use ccache.CacheEntry.Entry.{
  Library, Serializer, zstd_compress, stored_header, do_serialize, append_payload, write_payload,
  serialize_bytes, serialize_with,
}

-- A serializer that appends these bytes, and announces their number.
pub record Appends (serializer : Serializer) (bytes : Bytes) : Type 0 where
  pub size : serializer.serialized_size ≡ ok (length bytes)
  pub output : (result : Bytes) → serializer.serialize result ≡ ok (result ++ bytes)

write_payload-append_payload :
    (lib : Library) (serializer : Serializer) (bytes : Bytes)
    → Appends serializer bytes
    → (t : CompressionType) (level : ℕ) (result : Bytes)
    → write_payload lib serializer t level result ≡ append_payload lib bytes t level result
unfolding append_payload write_payload
write_payload-append_payload lib serializer bytes a uncompressed level result = a.output result
write_payload-append_payload lib serializer bytes a zstd level result =
    ap (λ (r : Result Bytes). r >>= λ payload. zstd_compress lib payload result level) (a.output [])

-- For a serializer that appends some bytes to whatever buffer it gets and announces their
-- number, the cache entry of the serializer is, for each compression type and errors included,
-- the one of the bytes.
serialize_with-serialize_bytes :
    (lib : Library) (header : Header) (serializer : Serializer) (bytes : Bytes)
    → Appends serializer bytes
    → serialize_with lib header serializer ≡ serialize_bytes lib header bytes
unfolding serialize_with serialize_bytes do_serialize
serialize_with-serialize_bytes lib header serializer bytes a =
    let hdr = stored_header lib header (length bytes) in
    rw a.size (
      ap (λ (r : Result Bytes). r >>= λ result. ok (result ++ lib.xxh3_128 result))
        (write_payload-append_payload lib serializer bytes a hdr.compression_type
          hdr.compression_level (Header.serialize hdr [])))
