-- ===== src/CacheEntry/Header/Accepted.antt =====
-- What CacheEntry::Header::parse accepts (src/core/CacheEntry.cpp).
use ccache.Prelude.{
  ℕ, ◌%◌, ◌^◌, ◌<◌, ◌≡◌, refl, ◌∙◌, ap, Bytes, ◌++◌, length, IsBytes, arith, not, ◌==◌, ==_iff,
  Bool-cases, inl, inr,
}
use ccache.Fallible.{ok}
use ccache.Codec.{Reader, int_to_big_endian, continue}
use ccache.Codec.RoundTrip.{Post, int_step, str_step, expect_step, pure_step}
use ccache.CacheEntry.Types.{
  CacheEntryType, result, manifest, CompressionType, uncompressed, zstd, entry_type_to_int,
  compression_type_to_int, Header,
}
use ccache.CacheEntry.Header.{parse, cache_entry_type_from_int, compression_type_from_int}
use ccache.CacheEntry.Header.RoundTrip.{IsStorable, header_layout}

entry_type_step {ℓ κ} :
    {B : Type ℓ} (P : B → Bytes → Type κ) (f : CacheEntryType → Reader B) (n : ℕ) (bytes : Bytes)
    → ((t : CacheEntryType) → n ≡ entry_type_to_int t → Post P (f t bytes))
    → Post P (continue f (cache_entry_type_from_int n bytes))
unfolding cache_entry_type_from_int
entry_type_step P f n bytes k b rest h = elim (Bool-cases (n == 0)) [
  | inl zero_case ↦ k result ((==_iff n 0).0 zero_case) b rest (rw zero_case at h)
  | inr other ↦ elim (Bool-cases (n == 1)) [
    | inl one_case ↦ k manifest ((==_iff n 1).0 one_case) b rest (rw (other, one_case) at h)
    | inr unknown ↦ absurd (cc (rw (other, unknown) at h))
  ]
]

compression_type_step {ℓ κ} :
    {B : Type ℓ} (P : B → Bytes → Type κ) (f : CompressionType → Reader B) (n : ℕ) (bytes : Bytes)
    → ((t : CompressionType) → n ≡ compression_type_to_int t → Post P (f t bytes))
    → Post P (continue f (compression_type_from_int n bytes))
unfolding compression_type_from_int
compression_type_step P f n bytes k b rest h = elim (Bool-cases (n == 0)) [
  | inl zero_case ↦ k uncompressed ((==_iff n 0).0 zero_case) b rest (rw zero_case at h)
  | inr other ↦ elim (Bool-cases (n == 1)) [
    | inl one_case ↦ k zstd ((==_iff n 1).0 one_case) b rest (rw (other, one_case) at h)
    | inr unknown ↦ absurd (cc (rw (other, unknown) at h))
  ]
]

-- A length field of one byte that has the string's length.
length_field : (len n : ℕ) → len ≡ n → n < 256 ^ 1 → (n ≡ len % 2 ^ 8) × (len < 2 ^ 8)
length_field len n e h = (omega arith, omega arith)

follow :
    (piece : Bytes) {bytes mid rest : Bytes}
    → bytes ≡ piece ++ mid
    → mid ≡ rest
    → bytes ≡ piece ++ rest
follow piece p q = p ∙ ap (λ t. piece ++ t) q

retag :
    (size : ℕ) {n m : ℕ} {bytes : Bytes} (mid : Bytes)
    → bytes ≡ int_to_big_endian size n ++ mid
    → n ≡ m
    → bytes ≡ int_to_big_endian size m ++ mid
retag size mid p q = p ∙ ap (λ k. int_to_big_endian size k ++ mid) q

laid_out :
    (h : Header) (flag : ℕ) (rest : Bytes) {input d1 d2 d3 d4 d5 d6 d7 d8 d9 d10 d11 : Bytes}
    → input ≡ int_to_big_endian 2 h.magic ++ d1
    → d1 ≡ int_to_big_endian 1 h.entry_format_version ++ d2
    → d2 ≡ int_to_big_endian 1 (entry_type_to_int h.entry_type) ++ d3
    → d3 ≡ int_to_big_endian 1 (compression_type_to_int h.compression_type) ++ d4
    → d4 ≡ int_to_big_endian 1 h.compression_level ++ d5
    → d5 ≡ int_to_big_endian 1 flag ++ d6
    → d6 ≡ int_to_big_endian 8 h.creation_time ++ d7
    → d7 ≡ int_to_big_endian 1 (length h.ccache_version % 2 ^ 8) ++ d8
    → d8 ≡ h.ccache_version ++ d9
    → d9 ≡ int_to_big_endian 1 (length h.namespace_ % 2 ^ 8) ++ d10
    → d10 ≡ h.namespace_ ++ d11
    → d11 ≡ int_to_big_endian 8 h.entry_size ++ rest
    → input ≡ header_layout flag h rest
laid_out h flag rest p1 p2 p3 p4 p5 p6 p7 p8 p9 p10 p11 p12 = follow _ p1 (
    follow _ p2 (
      follow _ p3 (
        follow _ p4 (
          follow _ p5 (
            follow _ p6
              (follow _ p7 (follow _ p8 (follow _ p9 (follow _ p10 (follow _ p11 p12))))))))))

-- An accepted header is storable, and its bytes are its layout, with some byte for the flag.
abbrev pub IsLaidOut : Bytes → Bytes → Header → Type 0
IsLaidOut input rest h =
    IsStorable h
    × ((flag : ℕ) × (flag < 256)
        × (h.self_contained ≡ not (flag == 0))
        × (input ≡ header_layout flag h rest))

-- Every byte string that parses as a header has this magic number and version, strings and
-- numbers that fit their fields, and is the header's layout for some byte of the self-contained
-- flag, followed by the rest.
pub parse_accepts :
    (input : Bytes) (h : Header) (rest : Bytes)
    → IsBytes input
    → parse input ≡ ok (h, rest)
    → IsLaidOut input rest h
unfolding parse
parse_accepts input h rest b0 =
    int_step P _ 2 input b0
      (λ magic d1 p1 m1 b1. expect_step P _ _ _ d1 (λ t1.
        int_step P _ 1 d1 b1 (λ version d2 p2 m2 b2. expect_step P _ _ _ d2 (λ t2.
          int_step P _ 1 d2 b2 (λ type_int d3 p3 m3 b3. entry_type_step P _ type_int d3 (λ type t3.
            int_step P _ 1 d3 b3 (λ compr_int d4 p4 m4 b4.
              compression_type_step P _ compr_int d4 (λ compr t4.
                int_step P _ 1 d4 b4 (λ level d5 p5 m5 b5. int_step P _ 1 d5 b5 (λ flag d6 p6 m6 b6.
                  int_step P _ 8 d6 b6 (λ time d7 p7 m7 b7. int_step P _ 1 d7 b7 (λ n8 d8 p8 m8 b8.
                    str_step P _ n8 d8 b8 (λ ccache_version d9 p9 m9 b9.
                      int_step P _ 1 d9 b9 (λ n10 d10 p10 m10 b10.
                        str_step P _ n10 d10 b10 (λ namespace d11 p11 m11 b11.
                          int_step P _ 8 d11 b11 (λ size d12 p12 m12 b12. pure_step P _ d12 (
                            let (q8, f8) = length_field (length ccache_version) n8 m9 m8 in
                            let (q10, f10) = length_field (length namespace) n10 m11 m10 in
                            (
                              record {
                                magic = (==_iff _ _).0 t1;
                                version = (==_iff _ _).0 t2;
                                level = m5;
                                time = m7;
                                version_fits = f8;
                                namespace_fits = f10;
                                size = m12;
                              },
                              (
                                flag,
                                m6,
                                refl,
                                laid_out
                                    (record {
                                      magic = magic;
                                      entry_format_version = version;
                                      entry_type = type;
                                      compression_type = compr;
                                      compression_level = level;
                                      self_contained = not (flag == 0);
                                      creation_time = time;
                                      ccache_version = ccache_version;
                                      namespace_ = namespace;
                                      entry_size = size;
                                    })
                                    flag d12 p1 p2 (retag 1 d3 p3 t3) (retag 1 d4 p4 t4) p5 p6 p7
                                    (retag 1 d8 p8 q8) p9 (retag 1 d10 p10 q10) p11 p12,
                              ),
                            ))))))))))))))))))
      h rest
  where
    P : Header → Bytes → Type 0
    P h rest = IsLaidOut input rest h
