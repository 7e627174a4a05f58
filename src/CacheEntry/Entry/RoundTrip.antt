-- ===== src/CacheEntry/Entry/RoundTrip.antt =====
-- About a CacheEntry that is made of what CacheEntry::serialize put out
-- (src/core/CacheEntry.cpp).
use mathlib.Core.Path.{subst}
use ccache.Prelude.{
  ℕ, ◌+◌, ◌-◌, ◌^◌, ◌<◌, ◌≡◌, refl, ◌⊎◌, inl, inr, Option-cases, ◌∙◌, ap, sym, false, Bytes, [],
  ◌++◌, append_assoc, length, length-append, take, drop, take_of_length, drop_of_length, arith, leb,
  eq_bytes_self, some,
}
use ccache.Fallible.{Result, ok, ◌>>=◌}
use ccache.CacheEntry.Types.{Header, uncompressed, zstd, CompressionType}
use ccache.CacheEntry.Header
use ccache.CacheEntry.Header.{k_epilogue_fields_size}
use ccache.CacheEntry.Header.RoundTrip.{IsStorable, parse-serialize, length-serialize}
use ccache.CacheEntry.Entry.{
  Library, zstd_supported_compression_level, stored_level, stored_header, serialize_bytes,
  CacheEntry, zstd_compress, append_payload, uncompress, after_header, open_entry, verify_checksum,
  payload,
}

-- What is relied on: a digest of 16 bytes, a maximum level that an int8_t holds, and a compressor
-- whose output is not empty and is decompressed to the input where that fits the capacity.
pub record IsSound (lib : Library) : Type 0 where
  pub digest_size : (bytes : Bytes) → length (lib.xxh3_128 bytes) ≡ k_epilogue_fields_size
  pub max_level : lib.zstd_max_level < 2 ^ 7
  pub not_empty :
      (input : Bytes) (bound level : ℕ) (output : Bytes)
      → lib.zstd_compress input bound level ≡ some output
      → 0 < length output
  pub restores :
      (input : Bytes) (bound level : ℕ) (output : Bytes)
      → lib.zstd_compress input bound level ≡ some output
      → lib.zstd_decompress output (length input) ≡ some input

ok_inversion : {a b : Bytes} → Result.ok a ≡ ok b → a ≡ b
ok_inversion h = cc

not_leb : (a b : ℕ) → b < a → leb a b ≡ false
not_leb a b h = ground arith

after_header_lem :
    (lib : Library) (input : Bytes) (h : Header) {body checksum bytes : Bytes}
    → Header.serialized_size h + k_epilogue_fields_size < length input
    → take
        (length input - (Header.serialized_size h + k_epilogue_fields_size))
        (drop (Header.serialized_size h) input)
      ≡ body
    → uncompress lib h.compression_type (Header.uncompressed_payload_size h) body ≡ ok bytes
    → drop (length input - k_epilogue_fields_size) input ≡ checksum
    → after_header lib input h
      ≡ ok (record {
        header = h;
        stored_payload = body;
        checksum = checksum;
        uncompressed_payload = bytes;
      })
unfolding after_header
after_header_lem lib input h enough p e q = rw (not_leb _ _ enough, p, e, q)

-- An entry of three pieces.
abbrev prefix : Header → Bytes → Bytes
prefix h body = Header.serialize h [] ++ body

abbrev whole : Library → Header → Bytes → Bytes
whole lib h body = prefix h body ++ lib.xxh3_128 (prefix h body)

-- The entry that is opened, given what the body uncompresses to.
abbrev opened : Library → Header → Bytes → Bytes → CacheEntry
opened lib h body bytes = record {
  header = h;
  stored_payload = body;
  checksum = lib.xxh3_128 (prefix h body);
  uncompressed_payload = bytes;
}

verify-opened :
    (lib : Library) (h : Header) (body bytes : Bytes)
    → verify_checksum lib (opened lib h body bytes) ≡ ok tt
unfolding verify_checksum
verify-opened lib h body bytes = rw eq_bytes_self

module _ (lib : Library) (sound : IsSound lib) (h : Header) (s : IsStorable h) (body : Bytes) where
  length-prefix : length (prefix h body) ≡ Header.serialized_size h + length body
  length-prefix = omega (arith, length-append (Header.serialize h []) body, length-serialize h [])

  length-whole :
      length (whole lib h body) ≡ Header.serialized_size h + k_epilogue_fields_size + length body
  length-whole = omega (
    arith,
    length-append (prefix h body) (lib.xxh3_128 (prefix h body)),
    length-prefix,
    sound.digest_size (prefix h body),
  )

  body_back :
      take
        (length (whole lib h body) - (Header.serialized_size h + k_epilogue_fields_size))
        (drop (Header.serialized_size h) (whole lib h body))
      ≡ body
  body_back =
      ap
        (λ (t : Bytes).
          take (length (whole lib h body) - (Header.serialized_size h + k_epilogue_fields_size)) t)
        (ap (drop (Header.serialized_size h)) (append_assoc (Header.serialize h []) body _)
          ∙ drop_of_length (Header.serialized_size h) (Header.serialize h []) _
              (omega (arith, length-serialize h [])))
      ∙ take_of_length _ body _ (omega (arith, length-whole))

  checksum_back :
      drop (length (whole lib h body) - k_epilogue_fields_size) (whole lib h body)
      ≡ lib.xxh3_128 (prefix h body)
  checksum_back =
      drop_of_length _ (prefix h body) (lib.xxh3_128 (prefix h body))
        (omega (arith, length-whole, length-prefix))

  open-whole :
      (bytes : Bytes)
      → 0 < length body
      → uncompress lib h.compression_type (Header.uncompressed_payload_size h) body ≡ ok bytes
      → open_entry lib (whole lib h body) ≡ ok (opened lib h body bytes)
  unfolding open_entry
  open-whole bytes filled e =
      ap (λ r. r >>= λ parsed. after_header lib (whole lib h body) parsed.0)
        (ap Header.parse (append_assoc (Header.serialize h []) body _)
          ∙ parse-serialize h (body ++ lib.xxh3_128 (prefix h body)) s)
      ∙ after_header_lem lib (whole lib h body) h (omega (arith, length-whole)) body_back e
          checksum_back

supported_level-lt :
    (lib : Library) (level : ℕ)
    → lib.zstd_max_level < 2 ^ 7
    → level < 2 ^ 8
    → zstd_supported_compression_level lib level < 2 ^ 8
unfolding zstd_supported_compression_level
supported_level-lt lib level m h = ground arith

stored_level-lt :
    (lib : Library) (t : CompressionType) (level : ℕ)
    → lib.zstd_max_level < 2 ^ 7
    → level < 2 ^ 8
    → stored_level lib t level < 2 ^ 8
stored_level-lt lib uncompressed level m h = h
stored_level-lt lib zstd level m h = supported_level-lt lib level m h

stored_header-IsStorable :
    (lib : Library) (h : Header) (n : ℕ)
    → lib.zstd_max_level < 2 ^ 7
    → IsStorable h
    → IsStorable (stored_header lib h n)
unfolding stored_header
stored_header-IsStorable lib h n m s = record {
  magic = s.magic;
  version = s.version;
  level = stored_level-lt lib h.compression_type h.compression_level m s.level;
  time = s.time;
  version_fits = s.version_fits;
  namespace_fits = s.namespace_fits;
  size = omega arith;
}

-- The payload and all that surrounds it fit the header's numbers.
abbrev pub Fits : Header → Bytes → Type 0
Fits h bytes =
    (0 < length bytes)
    × (length bytes < 2 ^ 32)
    × (Header.serialized_size h + k_epilogue_fields_size + length bytes < 2 ^ 64)

payload_size_back :
    (lib : Library) (h : Header) (bytes : Bytes)
    → Fits h bytes
    → Header.uncompressed_payload_size (stored_header lib h (length bytes)) ≡ length bytes
unfolding stored_header Header.uncompressed_payload_size Header.serialized_size
payload_size_back lib h bytes (filled, small, fits) = omega arith

-- What a reader of the output gets.
abbrev pub Reopens : Library → Header → Bytes → Bytes → Type 0
Reopens lib h bytes output =
    (entry : CacheEntry) × (open_entry lib output ≡ ok entry)
    × (verify_checksum lib entry ≡ ok tt)
    × (payload entry ≡ bytes)
    × (entry.header ≡ stored_header lib h (length bytes))

compression_cases : (t : CompressionType) → (t ≡ uncompressed) ⊎ (t ≡ zstd)
compression_cases uncompressed = inl refl
compression_cases zstd = inr refl

uncompress-zstd :
    (lib : Library) (t : CompressionType) (capacity : ℕ) (body : Bytes) {bytes : Bytes}
    → t ≡ zstd
    → lib.zstd_decompress body capacity ≡ some bytes
    → uncompress lib t capacity body ≡ ok bytes
unfolding uncompress
uncompress-zstd lib uncompressed capacity body e d = cc
uncompress-zstd lib zstd capacity body e d = rw (d, uncompress)

-- What a successful serialization has put out, for each of the compression types.
serialized :
    (lib : Library) (t : CompressionType) (bytes result output : Bytes) (level : ℕ)
    → (append_payload lib bytes t level result >>= λ r. ok (r ++ lib.xxh3_128 r)) ≡ ok output
    → (body : Bytes) × (output ≡ (result ++ body) ++ lib.xxh3_128 (result ++ body))
      × (((t ≡ uncompressed) × (body ≡ bytes))
          ⊎ ((t ≡ zstd)
              × (lib.zstd_compress bytes (lib.zstd_compress_bound (length bytes)) level
                  ≡ some body)))
unfolding append_payload zstd_compress
serialized lib uncompressed bytes result output level h = (bytes, cc, inl (refl, refl))
serialized lib zstd bytes result output level h =
    elim (Option-cases (lib.zstd_compress bytes (lib.zstd_compress_bound (length bytes)) level)) [
      | inl failed ↦ absurd (cc (rw (failed, append_payload, zstd_compress) at h))
      | inr (body, done) ↦ (
        body,
        ok_inversion (sym (rw (done, append_payload, zstd_compress) at h)),
        inr (refl, done),
      )
    ]

module _ (lib : Library) (sound : IsSound lib) (h : Header) (s : IsStorable h) (bytes : Bytes)
    (fits : Fits h bytes) where
  abbrev hdr : Header
  hdr = stored_header lib h (length bytes)

  hdr-IsStorable : IsStorable hdr
  hdr-IsStorable = stored_header-IsStorable lib h (length bytes) sound.max_level s

  reopens :
      (body output : Bytes)
      → 0 < length body
      → uncompress lib h.compression_type (Header.uncompressed_payload_size hdr) body ≡ ok output
      → payload (opened lib hdr body output) ≡ bytes
      → Reopens lib h bytes (whole lib hdr body)
  reopens body output filled e back = (
    opened lib hdr body output,
    open-whole lib sound hdr hdr-IsStorable body output filled (unfold stored_header in e),
    verify-opened lib hdr body output,
    back,
    refl,
  )

  plain-Reopens : h.compression_type ≡ uncompressed → Reopens lib h bytes (whole lib hdr bytes)
  plain-Reopens e =
      reopens bytes [] fits.0 (unfold uncompress in rw e) (unfold payload stored_header in rw e)

  zstd-Reopens :
      (body : Bytes) (bound level : ℕ)
      → h.compression_type ≡ zstd
      → lib.zstd_compress bytes bound level ≡ some body
      → Reopens lib h bytes (whole lib hdr body)
  zstd-Reopens body bound level e c =
      reopens body bytes (sound.not_empty bytes bound level body c)
        (uncompress-zstd lib _ _ body e
          (rw (payload_size_back lib h bytes fits) (sound.restores bytes bound level body c)))
        (unfold payload stored_header in rw e)

  -- With a hash of 16 bytes and a compressor whose output is not empty and is decompressed to
  -- its input, for a storable header and a payload that is not empty and fits the sizes: the
  -- bytes of every successful serialization of a cache entry open again, the checksum verifies,
  -- the payload is the one that was given, and the header is the one that was stored, with the
  -- size and the supported level filled in.
  pub open-serialize_bytes :
      (output : Bytes) → serialize_bytes lib h bytes ≡ ok output → Reopens lib h bytes output
  unfolding serialize_bytes
  open-serialize_bytes output done =
      let (body, e, cases) =
        serialized lib h.compression_type bytes (Header.serialize hdr []) output
          hdr.compression_level (unfold stored_header in done) in
      subst (Reopens lib h bytes) (sym e) (elim cases [
        | inl (plain, same) ↦ rw same (plain-Reopens plain)
        | inr (packed, c) ↦ zstd-Reopens body _ _ packed c
      ])
