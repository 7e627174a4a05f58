-- ===== src/CachedResult/Size.antt =====
-- About the size that the serializer of a result counts (src/core/Result.cpp).
use ccache.Prelude.{
  ℕ, ◌+◌, ◌%◌, ◌^◌, ◌<◌, ◌≡◌, refl, ◌∙◌, Bool, true, false, Bool-cases, inl, inr, Bytes, List, [],
  ◌∷◌, ◌++◌, length, length-append, arith, All, All-append,
}
use ccache.Fallible.{ok}
use ccache.Codec.{int_to_big_endian}
use ccache.Codec.Integers.{length-int_to_big_endian}
use ccache.Codec.RoundTrip.{concat_map}
use ccache.CacheEntry.Types.{Config}
use ccache.CachedResult.{
  FileType, FileSystem, in_memory, in_file, FileEntry, Serializer, new, should_store_raw_file,
  add_entry, add_data, add_file, give_up, store_raw, size_of, serialize, k_format_version,
}
use ccache.CachedResult.RoundTrip.{
  stored, result_bytes, IsReadable, IsStorable, payload_of, payload_size, raw_files_of,
  serialize_lem,
}

-- One call of add_data or add_file; a file that is refused ends the process of adding.
pub data Addition : Type 0 where
  data_of : FileType → Bytes → Addition
  file_of : FileType → Bytes → Addition

abbrev pub add_one : FileSystem → Addition → Serializer → Serializer
add_one fs (data_of file_type bytes) s = add_data file_type bytes s
add_one fs (file_of file_type path) s = (add_file fs file_type path s).1

abbrev pub add_all : FileSystem → List Addition → Serializer → Serializer
add_all fs [] s = s
add_all fs (a ∷ additions) s = add_all fs additions (add_one fs a s)

-- A file that is not stored as it is must be a regular one that can be read.
abbrev CanAdd : FileSystem → Bool → Bytes → Type 0
CanAdd fs true path = Unit
CanAdd fs false path = (fs.is_regular_file path ≡ true) × IsReadable fs false (in_file path)

abbrev pub AdditionFits : FileSystem → Config → Addition → Type 0
AdditionFits fs config (data_of file_type bytes) = (file_type < 2 ^ 8) × (length bytes < 2 ^ 64)
AdditionFits fs config (file_of file_type path) =
    (file_type < 2 ^ 8)
    × (fs.file_size path < 2 ^ 64)
    × CanAdd fs (should_store_raw_file config file_type) path

-- The entries can be stored, and their size has been counted in 64 bits.
record IsReady (fs : FileSystem) (s : Serializer) : Type 0 where
  storable : All (IsStorable fs s.config) s.file_entries
  sized : s.payload_size ≡ (2 + length (concat_map (stored fs s.config) s.file_entries)) % 2 ^ 64

length-snoc :
    (f : FileEntry → Bytes) (xs : List FileEntry) (y : FileEntry)
    → length (concat_map f (xs ++ (y ∷ []))) ≡ length (concat_map f xs) + length (f y)
length-snoc f [] y = omega (arith, length-append (f y) [])
length-snoc f (x ∷ xs) y = omega (
  arith,
  length-append (f x) (concat_map f (xs ++ (y ∷ []))),
  length-append (f x) (concat_map f xs),
  length-snoc f xs y,
)

length-three :
    (m t k : ℕ) (bytes : Bytes)
    → length (int_to_big_endian 1 m ++ (int_to_big_endian 1 t ++ (int_to_big_endian 8 k ++ bytes)))
      ≡ 10 + length bytes
length-three m t k bytes = omega (
  arith,
  length-append (int_to_big_endian 1 m) (int_to_big_endian 1 t ++ (int_to_big_endian 8 k ++ bytes)),
  length-append (int_to_big_endian 1 t) (int_to_big_endian 8 k ++ bytes),
  length-append (int_to_big_endian 8 k) bytes,
  length-int_to_big_endian 1 m,
  length-int_to_big_endian 1 t,
  length-int_to_big_endian 8 k,
)

length-stored :
    (fs : FileSystem) (config : Config) (entry : FileEntry)
    → length (stored fs config entry)
      ≡ 10 + length (payload_of fs (store_raw config entry) entry.content)
length-stored fs config entry = length-three _ _ _ _

add_entry-IsReady :
    (fs : FileSystem) (entry : FileEntry) (size : ℕ) (s : Serializer)
    → IsStorable fs s.config entry
    → length (payload_of fs (store_raw s.config entry) entry.content) ≡ size
    → IsReady fs s
    → IsReady fs (add_entry entry size s)
unfolding add_entry
add_entry-IsReady fs entry size s h e ready = record {
  storable = All-append (IsStorable fs s.config) s.file_entries (entry ∷ []) ready.storable (h, tt);
  sized = omega (
    arith,
    ready.sized,
    length-snoc (stored fs s.config) s.file_entries entry,
    length-stored fs s.config entry,
    e,
  );
}

add_data-IsReady :
    (fs : FileSystem) (file_type : FileType) (bytes : Bytes) (s : Serializer)
    → file_type < 2 ^ 8
    → length bytes < 2 ^ 64
    → IsReady fs s
    → IsReady fs (add_data file_type bytes s)
unfolding add_data store_raw size_of
add_data-IsReady fs file_type bytes s hf hs ready =
    add_entry-IsReady fs (record { file_type = file_type; content = in_memory bytes })
      (length bytes) s (record { file_type = hf; file_size = hs; content = tt }) refl ready

add_file-IsReady :
    (fs : FileSystem) (file_type : FileType) (path : Bytes) (s : Serializer)
    → AdditionFits fs s.config (file_of file_type path)
    → IsReady fs s
    → IsReady fs (add_file fs file_type path s).1
unfolding add_file store_raw size_of
add_file-IsReady fs file_type path s (hf, hs, can) ready =
    elim (Bool-cases (should_store_raw_file s.config file_type)) [
      | inl raw ↦ rw raw (
          add_entry-IsReady fs (record { file_type = file_type; content = in_file path }) 0 s
            (record { file_type = hf; file_size = hs; content = rw raw tt }) (rw raw refl) ready)
      | inr embedded ↦
          let (regular, readable) : CanAdd fs false path = rw embedded at can in
          rw (embedded, regular)
            (add_entry-IsReady fs (record { file_type = file_type; content = in_file path })
              (fs.file_size path) s
              (record { file_type = hf; file_size = hs; content = rw embedded readable })
              (rw embedded (payload_size fs (in_file path) readable)) ready)
    ]

config-add_one :
    (fs : FileSystem) (a : Addition) (s : Serializer) → (add_one fs a s).config ≡ s.config
unfolding add_data add_file add_entry give_up
config-add_one fs (data_of file_type bytes) s = refl
config-add_one fs (file_of file_type path) s = ground arith

add_one-IsReady :
    (fs : FileSystem) (a : Addition) (s : Serializer)
    → AdditionFits fs s.config a
    → IsReady fs s
    → IsReady fs (add_one fs a s)
add_one-IsReady fs (data_of file_type bytes) s (hf, hs) ready =
    add_data-IsReady fs file_type bytes s hf hs ready
add_one-IsReady fs (file_of file_type path) s fits ready =
    add_file-IsReady fs file_type path s fits ready

add_all-IsReady :
    (fs : FileSystem) (config : Config) (additions : List Addition) (s : Serializer)
    → s.config ≡ config
    → All (AdditionFits fs config) additions
    → IsReady fs s
    → IsReady fs (add_all fs additions s)
add_all-IsReady fs config [] s e fits ready = ready
add_all-IsReady fs config (a ∷ additions) s e (fit, fits) ready =
    add_all-IsReady fs config additions (add_one fs a s) (config-add_one fs a s ∙ e) fits
      (add_one-IsReady fs a s (rw e fit) ready)

length-result_bytes :
    (fs : FileSystem) (s : Serializer)
    → length (result_bytes fs s) ≡ 2 + length (concat_map (stored fs s.config) s.file_entries)
length-result_bytes fs s = omega (
  arith,
  length-append (int_to_big_endian 1 k_format_version) (
      int_to_big_endian 1 (length s.file_entries % 2 ^ 8)
      ++ concat_map (stored fs s.config) s.file_entries),
  length-append (int_to_big_endian 1 (length s.file_entries % 2 ^ 8))
      (concat_map (stored fs s.config) s.file_entries),
  length-int_to_big_endian 1 k_format_version,
  length-int_to_big_endian 1 (length s.file_entries % 2 ^ 8),
)

-- After any additions of data and of files that can be added, fewer than 256 entries in all,
-- with a payload of less than 2 ^ 64 bytes: the result is serialized, and the size that its
-- serializer has counted in 64 bits is the length of the payload.
pub payload_size-add_all :
    (fs : FileSystem) (config : Config) (additions : List Addition)
    → All (AdditionFits fs config) additions
    → let s = add_all fs additions (new config) in
      length s.file_entries < 2 ^ 8
      → length (result_bytes fs s) < 2 ^ 64
      → (serialize fs s []
          ≡ ok (s.raw_files ++ raw_files_of s.config 0 s.file_entries, result_bytes fs s))
        × (length (result_bytes fs s) ≡ s.payload_size)
unfolding new
payload_size-add_all fs config additions fits few bounded =
    let ready =
      add_all-IsReady fs config additions (new config) refl fits
        (record { storable = tt; sized = refl }) in
    (
      serialize_lem fs (add_all fs additions (new config)) [] few ready.storable,
      omega
          (arith, length-result_bytes fs (add_all fs additions (new config)), ready.sized, bounded),
    )
