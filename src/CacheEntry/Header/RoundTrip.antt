-- ===== src/CacheEntry/Header/RoundTrip.antt =====
-- About the pair serialize and parse of CacheEntry::Header (src/core/CacheEntry.cpp).
use ccache.Prelude.{
  ℕ, ◌+◌, ◌%◌, ◌^◌, ◌<◌, ◌≡◌, refl, ◌∙◌, ap, Bool, true, false, Bytes, [], ◌++◌, append_assoc,
  length, length-append, arith, not, ◌==◌, ==_iff,
}
use ccache.Fallible.{ok}
use ccache.Codec.{write_int, write_str, write_bytes, int_to_big_endian}
use ccache.Codec.Integers.{length-int_to_big_endian}
use ccache.Codec.RoundTrip.{step, read_int-append, read_str_of_length, expect-true}
use ccache.CacheEntry.Types.{
  k_ccache_magic, k_format_version, CacheEntryType, result, manifest, CompressionType, uncompressed,
  zstd, entry_type_to_int, compression_type_to_int, Header,
}
use ccache.CacheEntry.Header.{
  parse, serialize, serialized_size, cache_entry_type_from_int, compression_type_from_int,
  bool_to_int,
}

-- What the fields' C++ types and the format give: a header of this version whose strings fit
-- their length fields.
pub record IsStorable (h : Header) : Type 0 where
  pub magic : h.magic ≡ k_ccache_magic
  pub version : h.entry_format_version ≡ k_format_version
  pub level : h.compression_level < 2 ^ 8
  pub time : h.creation_time < 2 ^ 64
  pub version_fits : length h.ccache_version < 2 ^ 8
  pub namespace_fits : length h.namespace_ < 2 ^ 8
  pub size : h.entry_size < 2 ^ 64

-- The layout of a header, from the grammar in CacheEntry.hpp, nested to the right; `flag` is the
-- byte of <self_contained>.
abbrev pub header_layout : ℕ → Header → Bytes → Bytes
header_layout flag h rest =
    int_to_big_endian 2 h.magic
    ++ (int_to_big_endian 1 h.entry_format_version
        ++ (int_to_big_endian 1 (entry_type_to_int h.entry_type)
            ++ (int_to_big_endian 1 (compression_type_to_int h.compression_type)
                ++ (int_to_big_endian 1 h.compression_level
                    ++ (int_to_big_endian 1 flag
                        ++ (int_to_big_endian 8 h.creation_time
                            ++ (int_to_big_endian 1 (length h.ccache_version % 2 ^ 8)
                                ++ (h.ccache_version
                                    ++ (int_to_big_endian 1 (length h.namespace_ % 2 ^ 8)
                                        ++ (h.namespace_
                                            ++ (int_to_big_endian 8 h.entry_size ++ rest)))))))))))

abbrev pub header_bytes : Header → Bytes → Bytes
header_bytes h = header_layout (bool_to_int h.self_contained) h

pub serialize-header_bytes :
    (h : Header) (output rest : Bytes) → serialize h output ++ rest ≡ output ++ header_bytes h rest
unfolding serialize write_int write_str write_bytes
serialize-header_bytes h output rest = simp append_assoc

pub length-serialize :
    (h : Header) (output : Bytes) → length (serialize h output) ≡ length output + serialized_size h
unfolding serialize serialized_size write_int write_str write_bytes
length-serialize h output = simp (length-append, length-int_to_big_endian) (omega arith)

entry_type_back :
    (t : CacheEntryType) (rest : Bytes)
    → cache_entry_type_from_int (entry_type_to_int t) rest ≡ ok (t, rest)
unfolding cache_entry_type_from_int
entry_type_back result rest = refl
entry_type_back manifest rest = refl

compression_type_back :
    (t : CompressionType) (rest : Bytes)
    → compression_type_from_int (compression_type_to_int t) rest ≡ ok (t, rest)
unfolding compression_type_from_int
compression_type_back uncompressed rest = refl
compression_type_back zstd rest = refl

entry_type_lt : (t : CacheEntryType) → entry_type_to_int t < 256 ^ 1
entry_type_lt result = omega arith
entry_type_lt manifest = omega arith

compression_type_lt : (t : CompressionType) → compression_type_to_int t < 256 ^ 1
compression_type_lt uncompressed = omega arith
compression_type_lt zstd = omega arith

bool_lt : (b : Bool) → bool_to_int b < 256 ^ 1
bool_lt true = omega arith
bool_lt false = omega arith

bool_back : (b : Bool) → not (bool_to_int b == 0) ≡ b
bool_back true = refl
bool_back false = refl

parse-header_bytes :
    (h : Header) (rest : Bytes) → IsStorable h → parse (header_bytes h rest) ≡ ok (h, rest)
unfolding parse
parse-header_bytes h rest s =
    step _ (read_int-append 2 h.magic _ (omega (arith, s.magic)))
    ∙ (step _ (expect-true _ _ _ ((==_iff _ _).1 s.magic))
        ∙ (step _ (read_int-append 1 h.entry_format_version _ (omega (arith, s.version)))
            ∙ (step _ (expect-true _ _ _ ((==_iff _ _).1 s.version))
                ∙ (step _ (
                      read_int-append 1 (entry_type_to_int h.entry_type) _
                        (entry_type_lt h.entry_type))
                    ∙ (step _ (entry_type_back h.entry_type _)
                        ∙ (step _ (
                              read_int-append 1 (compression_type_to_int h.compression_type) _
                                (compression_type_lt h.compression_type))
                            ∙ (step _ (compression_type_back h.compression_type _)
                                ∙ (step _ (read_int-append 1 h.compression_level _ s.level)
                                    ∙ (step _ (
                                          read_int-append 1 (bool_to_int h.self_contained) _
                                            (bool_lt h.self_contained))
                                        ∙ (step _ (read_int-append 8 h.creation_time _ s.time)
                                            ∙ (step _ (
                                                  read_int-append 1
                                                    (length h.ccache_version % 2 ^ 8) _
                                                    (omega arith))
                                                ∙ (step _ (
                                                      read_str_of_length h.ccache_version _ _
                                                        (omega (arith, s.version_fits)))
                                                    ∙ (step _ (
                                                          read_int-append 1
                                                            (length h.namespace_ % 2 ^ 8) _
                                                            (omega arith))
                                                        ∙ (step _ (
                                                            read_str_of_length h.namespace_ _ _
                                                            (omega (arith, s.namespace_fits)))
                                                            ∙ (step _ (
                                                            read_int-append 8 h.entry_size rest
                                                            s.size)
                                                            ∙ ap
                                                            (λ (b : Bool).
                                                            ok
                                                            (record h { self_contained = b }, rest))
                                                            (bool_back
                                                            h.self_contained))))))))))))))))

-- A header of this version, whose strings are shorter than 256 bytes and whose numbers fit, is
-- parsed back from its serialized form, and what follows it is left.
pub parse-serialize :
    (h : Header) (rest : Bytes) → IsStorable h → parse (serialize h [] ++ rest) ≡ ok (h, rest)
parse-serialize h rest s = rw serialize-header_bytes (parse-header_bytes h rest s)
