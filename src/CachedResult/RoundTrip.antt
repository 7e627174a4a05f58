-- ===== src/CachedResult/RoundTrip.antt =====
-- About a visit of what the serializer of results put out (src/core/Result.cpp).
use ccache.Prelude.{
  ℕ, ◌+◌, ◌%◌, ◌^◌, ◌≤◌, ◌<◌, ◌≡◌, refl, sym, ap, ◌∙◌, Bool, true, false, Bytes, List, [], ◌∷◌,
  ◌++◌, append_assoc, append-nil, Option, none, some, length, leb, if◌then◌else◌, arith, All,
  le→leb,
}
use ccache.Fallible.{ok, too_many_files}
use ccache.Codec.{int_to_big_endian, write_int, write_bytes, read_int}
use ccache.Codec.RoundTrip.{step, concat_map, read_int-append, read_bytes-append}
use ccache.CacheEntry.Types.{Config}
use ccache.CachedResult.{
  k_format_version, k_embedded_file_marker, k_raw_file_marker, k_max_raw_file_entries, FileSystem,
  Content, in_memory, in_file, FileEntry, RawFile, Serializer, store_raw, size_of, append_file,
  write_content, write_entry, write_more, write_entries, serialize, Event, on_header,
  on_embedded_file, on_raw_file, read_content, read_entry, visit_more, visit_files, visit_counted,
  visit_versioned, Visit, visit,
}

-- The bytes of an entry that is embedded.
unfoldable pub contents : FileSystem → Content → Bytes
contents fs (in_memory bytes) = bytes
contents fs (in_file path) = read_or_nil (fs.read_file path)
  where
    read_or_nil : Option Bytes → Bytes
    read_or_nil none = []
    read_or_nil (some bytes) = bytes

-- An entry that can be stored: its numbers fit, and a file that is embedded can be read and has
-- the size that the file system says.
abbrev pub IsReadable : FileSystem → Bool → Content → Type 0
IsReadable fs true (in_memory bytes) = ⊥
IsReadable fs false (in_memory bytes) = Unit
IsReadable fs true (in_file path) = Unit
IsReadable fs false (in_file path) =
    (bytes : Bytes) × (fs.read_file path ≡ some bytes) × (fs.file_size path ≡ length bytes)

pub record IsStorable (fs : FileSystem) (config : Config) (entry : FileEntry) : Type 0 where
  pub file_type : entry.file_type < 2 ^ 8
  pub file_size : size_of fs entry.content < 2 ^ 64
  pub content : IsReadable fs (store_raw config entry) entry.content

-- What a visitor is told of an entry.
abbrev event_of : FileSystem → Bool → ℕ → FileEntry → Event
event_of fs raw file_number entry =
    if raw
    then on_raw_file file_number entry.file_type (size_of fs entry.content)
    else on_embedded_file file_number entry.file_type (contents fs entry.content)

abbrev pub events_of : FileSystem → Config → ℕ → List FileEntry → List Event
events_of fs config file_number [] = []
events_of fs config file_number (entry ∷ entries) =
    event_of fs (store_raw config entry) file_number entry
    ∷ events_of fs config (file_number + 1) entries

-- The raw files that an entry adds.
abbrev raw_of : Bool → ℕ → Content → List RawFile
raw_of true file_number (in_file path) = record { file_number = file_number; path = path } ∷ []
raw_of true file_number (in_memory bytes) = []
raw_of false file_number content = []

abbrev pub raw_files_of : Config → ℕ → List FileEntry → List RawFile
raw_files_of config file_number [] = []
raw_files_of config file_number (entry ∷ entries) =
    raw_of (store_raw config entry) file_number entry.content
    ++ raw_files_of config (file_number + 1) entries

-- The grammar of Result.cpp.
abbrev marker_of : Bool → ℕ
marker_of raw = if raw then k_raw_file_marker else k_embedded_file_marker

abbrev pub payload_of : FileSystem → Bool → Content → Bytes
payload_of fs raw (in_memory bytes) = bytes
payload_of fs true (in_file path) = []
payload_of fs false (in_file path) = contents fs (in_file path)

abbrev entry_bytes : FileSystem → Bool → FileEntry → Bytes
entry_bytes fs raw entry =
    int_to_big_endian 1 (marker_of raw)
    ++ (int_to_big_endian 1 entry.file_type
        ++ (int_to_big_endian 8 (size_of fs entry.content) ++ payload_of fs raw entry.content))

abbrev pub stored : FileSystem → Config → FileEntry → Bytes
stored fs config entry = entry_bytes fs (store_raw config entry) entry

write_content_lem :
    (fs : FileSystem) (raw : Bool) (k : ℕ) (content : Content) (raws : List RawFile)
    (output : Bytes)
    → IsReadable fs raw content
    → write_content fs raw k content raws output
      ≡ ok (raws ++ raw_of raw k content, output ++ payload_of fs raw content)
unfolding write_content append_file write_bytes contents
write_content_lem fs true k (in_memory bytes) raws output h = absurd h
write_content_lem fs false k (in_memory bytes) raws output h = rw append-nil
write_content_lem fs true k (in_file path) raws output h = rw (append-nil output)
write_content_lem fs false k (in_file path) raws output (bytes, read, size) =
    rw (append-nil raws, read, append_file)

append_four : (o a b c d : Bytes) → (((o ++ a) ++ b) ++ c) ++ d ≡ o ++ (a ++ (b ++ (c ++ d)))
append_four o a b c d =
    append_assoc ((o ++ a) ++ b) c d
    ∙ (append_assoc (o ++ a) b (c ++ d) ∙ append_assoc o a (b ++ (c ++ d)))

write_entry_lem :
    (fs : FileSystem) (config : Config) (k : ℕ) (entry : FileEntry) (raws : List RawFile)
    (output : Bytes)
    → IsStorable fs config entry
    → write_entry fs config k entry raws output
      ≡ ok (
        raws ++ raw_of (store_raw config entry) k entry.content,
        output ++ stored fs config entry,
      )
unfolding write_entry write_int write_bytes
write_entry_lem fs config k entry raws output h =
    write_content_lem fs (store_raw config entry) k entry.content raws _ h.content
    ∙ ap (λ (b : Bytes). ok (raws ++ raw_of (store_raw config entry) k entry.content, b))
        (append_four output _ _ _ _)

write_entries_lem :
    (fs : FileSystem) (config : Config) (k : ℕ) (entries : List FileEntry) (raws : List RawFile)
    (output : Bytes)
    → k + length entries < 2 ^ 8
    → All (IsStorable fs config) entries
    → write_entries fs config k entries raws output
      ≡ ok (raws ++ raw_files_of config k entries, output ++ concat_map (stored fs config) entries)
unfolding write_entries write_more
write_entries_lem fs config k [] raws output few h = rw (append-nil raws, append-nil output)
write_entries_lem fs config k (entry ∷ entries) raws output few (h, hs) =
    ap (write_more (write_entries fs config ((k + 1) % 2 ^ 8) entries))
      (write_entry_lem fs config k entry raws output h)
    ∙ (ap
          (λ (n : ℕ).
            write_entries fs config n entries
              (raws ++ raw_of (store_raw config entry) k entry.content)
              (output ++ stored fs config entry))
          (no_wrap few)
        ∙ (write_entries_lem fs config (k + 1) entries _ _ (omega arith) hs
            ∙ rw (append_assoc raws, append_assoc output) refl))
  where
    no_wrap : k + length (entry ∷ entries) < 2 ^ 8 → (k + 1) % 2 ^ 8 ≡ k + 1
    no_wrap few = omega arith

pub payload_size :
    (fs : FileSystem) (content : Content)
    → IsReadable fs false content
    → length (contents fs content) ≡ size_of fs content
unfolding contents size_of
payload_size fs (in_memory bytes) h = refl
payload_size fs (in_file path) (bytes, read, size) = rw (read, size) refl

-- Reading an entry back.
read_embedded :
    (fs : FileSystem) (k : ℕ) (entry : FileEntry) (rest : Bytes)
    → entry.file_type < 2 ^ 8
    → size_of fs entry.content < 2 ^ 64
    → length (contents fs entry.content) ≡ size_of fs entry.content
    → read_entry k (
        int_to_big_endian 1 k_embedded_file_marker
        ++ (int_to_big_endian 1 entry.file_type
            ++ (int_to_big_endian 8 (size_of fs entry.content)
                ++ (contents fs entry.content ++ rest))))
      ≡ ok (on_embedded_file k entry.file_type (contents fs entry.content), rest)
unfolding read_entry read_content
read_embedded fs k entry rest hf hs e =
    step _ (read_int-append 1 k_embedded_file_marker _ (omega arith))
    ∙ step _ (read_int-append 1 entry.file_type _ hf)
    ∙ step _ (read_int-append 8 (size_of fs entry.content) _ hs)
    ∙ step _ (read_bytes-append (contents fs entry.content) rest (size_of fs entry.content) e)

read_raw :
    (k file_type size : ℕ) (rest : Bytes)
    → file_type < 2 ^ 8
    → size < 2 ^ 64
    → read_entry k (
        int_to_big_endian 1 k_raw_file_marker
        ++ (int_to_big_endian 1 file_type ++ (int_to_big_endian 8 size ++ rest)))
      ≡ ok (on_raw_file k file_type size, rest)
unfolding read_entry read_content
read_raw k file_type size rest hf hs =
    step _ (read_int-append 1 k_raw_file_marker _ (omega arith))
    ∙ step _ (read_int-append 1 file_type _ hf)
    ∙ step _ (read_int-append 8 size _ hs)

append_inside :
    (a b c d rest : Bytes) → (a ++ (b ++ (c ++ d))) ++ rest ≡ a ++ (b ++ (c ++ (d ++ rest)))
append_inside a b c d rest =
    append_assoc a (b ++ (c ++ d)) rest
    ∙ ap (λ (t : Bytes). a ++ t)
        (append_assoc b (c ++ d) rest ∙ ap (λ (t : Bytes). b ++ t) (append_assoc c d rest))

read_entry_bytes :
    (fs : FileSystem) (raw : Bool) (k : ℕ) (file_type : ℕ) (content : Content) (rest : Bytes)
    → file_type < 2 ^ 8
    → size_of fs content < 2 ^ 64
    → IsReadable fs raw content
    → read_entry k
        (entry_bytes fs raw (record { file_type = file_type; content = content }) ++ rest)
      ≡ ok (event_of fs raw k (record { file_type = file_type; content = content }), rest)
unfolding contents size_of
read_entry_bytes fs true k file_type (in_memory bytes) rest hf hs r = absurd r
read_entry_bytes fs true k file_type (in_file path) rest hf hs r =
    ap (read_entry k) (
      append_inside (int_to_big_endian 1 k_raw_file_marker) (int_to_big_endian 1 file_type)
        (int_to_big_endian 8 (fs.file_size path)) [] rest)
    ∙ read_raw k file_type _ rest hf hs
read_entry_bytes fs false k file_type (in_memory bytes) rest hf hs r =
    ap (read_entry k) (
      append_inside (int_to_big_endian 1 k_embedded_file_marker) (int_to_big_endian 1 file_type)
        (int_to_big_endian 8 (length bytes)) bytes rest)
    ∙ read_embedded fs k (record { file_type = file_type; content = in_memory bytes }) rest hf hs
        refl
read_entry_bytes fs false k file_type (in_file path) rest hf hs r =
    ap (read_entry k) (
      append_inside (int_to_big_endian 1 k_embedded_file_marker) (int_to_big_endian 1 file_type)
        (int_to_big_endian 8 (fs.file_size path)) (contents fs (in_file path)) rest)
    ∙ read_embedded fs k (record { file_type = file_type; content = in_file path }) rest hf hs
        (payload_size fs (in_file path) r)

read_stored :
    (fs : FileSystem) (config : Config) (k : ℕ) (entry : FileEntry) (rest : Bytes)
    → IsStorable fs config entry
    → read_entry k (stored fs config entry ++ rest)
      ≡ ok (event_of fs (store_raw config entry) k entry, rest)
read_stored fs config k entry rest h =
    read_entry_bytes fs (store_raw config entry) k entry.file_type entry.content rest h.file_type
      h.file_size h.content

visit_files_lem :
    (fs : FileSystem) (config : Config) (k : ℕ) (entries : List FileEntry) (rest : Bytes)
    → All (IsStorable fs config) entries
    → visit_files (length entries) k (concat_map (stored fs config) entries ++ rest)
      ≡ (events_of fs config k entries, none)
unfolding visit_files visit_more
visit_files_lem fs config k [] rest h = refl
visit_files_lem fs config k (entry ∷ entries) rest (h, hs) =
    ap (λ (b : Bytes). visit_more (visit_files (length entries) (k + 1)) (read_entry k b))
      (append_assoc (stored fs config entry) (concat_map (stored fs config) entries) rest)
    ∙ (ap (visit_more (visit_files (length entries) (k + 1)))
          (read_stored fs config k entry (concat_map (stored fs config) entries ++ rest) h)
        ∙ ap (λ (v : Visit). (event_of fs (store_raw config entry) k entry ∷ v.0, v.1))
            (visit_files_lem fs config (k + 1) entries rest hs))

-- The payload of a serialized result.
abbrev pub result_bytes : FileSystem → Serializer → Bytes
result_bytes fs s =
    int_to_big_endian 1 k_format_version
    ++ (int_to_big_endian 1 (length s.file_entries % 2 ^ 8)
        ++ concat_map (stored fs s.config) s.file_entries)

append_three : (o a b c : Bytes) → ((o ++ a) ++ b) ++ c ≡ o ++ (a ++ (b ++ c))
append_three o a b c = append_assoc (o ++ a) b c ∙ append_assoc o a (b ++ c)

pub serialize_lem :
    (fs : FileSystem) (s : Serializer) (output : Bytes)
    → length s.file_entries < 2 ^ 8
    → All (IsStorable fs s.config) s.file_entries
    → serialize fs s output
      ≡ ok (s.raw_files ++ raw_files_of s.config 0 s.file_entries, output ++ result_bytes fs s)
unfolding serialize write_int write_bytes
serialize_lem fs s output few h =
    write_entries_lem fs s.config 0 s.file_entries s.raw_files _ (omega arith) h
    ∙ ap (λ (b : Bytes). ok (s.raw_files ++ raw_files_of s.config 0 s.file_entries, b))
        (append_three output _ _ _)

-- The visit of a payload up to the loop over its files.
visit-result_bytes :
    (fs : FileSystem) (s : Serializer)
    → length s.file_entries < 2 ^ 8
    → visit (result_bytes fs s)
      ≡ visit_counted (ok (length s.file_entries, concat_map (stored fs s.config) s.file_entries))
unfolding visit visit_versioned
visit-result_bytes fs s few =
    ap visit_versioned (read_int-append 1 k_format_version _ (omega arith))
    ∙ ap visit_counted (
        ap
          (λ (n : ℕ).
            read_int 1 (int_to_big_endian 1 n ++ concat_map (stored fs s.config) s.file_entries))
          (omega arith)
        ∙ read_int-append 1 (length s.file_entries) _ few)

-- A result of fewer than 10 entries that can be stored (numbers that fit, embedded files that
-- can be read and have the size that is announced) is serialized, and a visitor of the payload
-- is told the header and every entry in order: the content of an embedded one, the size of a raw
-- one; the raw files to be stored carry the entries' numbers.
pub visit-serialize :
    (fs : FileSystem) (s : Serializer)
    → length s.file_entries < k_max_raw_file_entries
    → All (IsStorable fs s.config) s.file_entries
    → (serialize fs s []
        ≡ ok (s.raw_files ++ raw_files_of s.config 0 s.file_entries, result_bytes fs s))
      × (visit (result_bytes fs s) ≡ (
        on_header k_format_version (length s.file_entries) ∷ events_of fs s.config 0 s.file_entries,
        none,
      ))
unfolding visit_counted
visit-serialize fs s few h = (
  serialize_lem fs s [] (omega arith) h,
  visit-result_bytes fs s (omega arith) ∙ (rw (not_many few) (told h)),
)
  where
    not_many :
        length s.file_entries < k_max_raw_file_entries
        → leb k_max_raw_file_entries (length s.file_entries) ≡ false
    not_many few = ground arith

    told :
        All (IsStorable fs s.config) s.file_entries
        → ◌≡◌ {A = Visit}
            (
              on_header k_format_version (length s.file_entries)
                  ∷ (visit_files
                      (length s.file_entries)
                      0
                      (concat_map (stored fs s.config) s.file_entries)).0,
              (visit_files
                  (length s.file_entries)
                  0
                  (concat_map (stored fs s.config) s.file_entries)).1,
            )
            (
              on_header k_format_version (length s.file_entries)
                  ∷ events_of fs s.config 0 s.file_entries,
              none,
            )
    told h =
        ap (λ (v : Visit). (on_header k_format_version (length s.file_entries) ∷ v.0, v.1))
          (ap (visit_files (length s.file_entries) 0) (sym (append-nil _))
            ∙ visit_files_lem fs s.config 0 s.file_entries [] h)

-- A result of 10 to 255 entries that can be stored is serialized, but a visitor of the payload
-- is told the header only and the visit fails.
pub visit_rejects_ten :
    (fs : FileSystem) (s : Serializer)
    → k_max_raw_file_entries ≤ length s.file_entries
    → length s.file_entries < 2 ^ 8
    → All (IsStorable fs s.config) s.file_entries
    → (serialize fs s []
        ≡ ok (s.raw_files ++ raw_files_of s.config 0 s.file_entries, result_bytes fs s))
      × (visit (result_bytes fs s) ≡ (
        on_header k_format_version (length s.file_entries) ∷ [],
        some (too_many_files (length s.file_entries)),
      ))
unfolding visit_counted
visit_rejects_ten fs s many few h =
    (serialize_lem fs s [] few h, visit-result_bytes fs s few ∙ rw (le→leb _ _ many) refl)
