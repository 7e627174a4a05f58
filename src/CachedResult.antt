-- ===== src/CachedResult.antt =====
-- Cached results: the files of a compilation in one payload (src/core/Result.hpp, Result.cpp).
-- The file system is a parameter: what DirEntry and util::read_file say of a path.
pub mod RoundTrip
pub mod Size
use ccache.Prelude.{
  ℕ, zero, suc, ◌+◌, ◌-◌, ◌%◌, ◌^◌, get_or, Bool, true, false, Bytes, List, [], ◌∷◌, ◌++◌, Option,
  none, some, length, leb, ltb, ◌==◌, ◌&&◌, ◌||◌, if◌then◌else◌, codes,
}
use ccache.Fallible.{
  Error, Result, ok, err, unknown_result_version, too_many_files, unknown_file_marker,
  result_too_large, unreadable_file,
}
use ccache.Codec.{Reader, write_int, write_bytes, read_int, read_bytes, expect, ◌>>=◌, pure}
use ccache.CacheEntry.Types.{Config, use_raw_files}

abbrev pub k_format_version : ℕ
k_format_version = 0

abbrev pub k_embedded_file_marker : ℕ
k_embedded_file_marker = 0

abbrev pub k_raw_file_marker : ℕ
k_raw_file_marker = 1

abbrev pub k_max_raw_file_entries : ℕ
k_max_raw_file_entries = 10

-- An enum over uint8_t, which the cast FileType(type) gives any value.
abbrev pub FileType : Type 0
FileType = ℕ

abbrev pub object : FileType
object = 0

-- The cases of the switch, in the order of the types' numbers.
abbrev file_type_names : List Bytes
file_type_names =
    codes ".o"
    ∷ codes ".d"
    ∷ codes "<stderr>"
    ∷ codes ".gcno-unmangled"
    ∷ codes ".su"
    ∷ codes ".dia"
    ∷ codes ".dwo"
    ∷ codes ".gcno-mangled"
    ∷ codes "<stdout>"
    ∷ codes ".al"
    ∷ codes ".pch"
    ∷ codes ".ci"
    ∷ []

unfoldable pub file_type_to_string : FileType → Bytes
file_type_to_string file_type = get_or file_type_names file_type (codes "<unknown type>")

-- What the serializer asks of the file system.
pub record FileSystem : Type 0 where
  pub is_regular_file : Bytes → Bool
  pub file_size : Bytes → ℕ
  pub read_file : Bytes → Option Bytes

pub data Content : Type 0 where
  in_memory : Bytes → Content
  in_file : Bytes → Content

pub record FileEntry : Type 0 where
  pub file_type : FileType
  pub content : Content

pub record RawFile : Type 0 where
  pub file_number : ℕ
  pub path : Bytes

pub record Serializer : Type 0 where
  pub config : Config
  pub payload_size : ℕ
  pub file_entries : List FileEntry
  pub raw_files : List RawFile

unfoldable pub should_store_raw_file : Config → FileType → Bool
should_store_raw_file config file_type = use_raw_files config && (file_type == object)

unfoldable pub new : Config → Serializer
new config = record { config = config; payload_size = 1 + 1; file_entries = []; raw_files = [] }

-- m_serialized_size is a uint64_t.
unfoldable pub add_entry : FileEntry → ℕ → Serializer → Serializer
add_entry entry size s = record {
  config = s.config;
  payload_size = (s.payload_size + (1 + 1 + 8) + size) % 2 ^ 64;
  file_entries = s.file_entries ++ (entry ∷ []);
  raw_files = s.raw_files;
}

unfoldable pub add_data : FileType → Bytes → Serializer → Serializer
unfolding add_entry
add_data file_type bytes s =
    add_entry (record { file_type = file_type; content = in_memory bytes }) (length bytes) s

-- The size has grown by then where the file is not a regular one.
unfoldable pub give_up : Serializer → Serializer
give_up s = record {
  config = s.config;
  payload_size = (s.payload_size + (1 + 1 + 8)) % 2 ^ 64;
  file_entries = s.file_entries;
  raw_files = s.raw_files;
}

unfoldable pub add_file : FileSystem → FileType → Bytes → Serializer → Bool × Serializer
unfolding add_entry give_up should_store_raw_file
add_file fs file_type path s =
    let entry : FileEntry = record { file_type = file_type; content = in_file path } in
    if should_store_raw_file s.config file_type
    then (true, add_entry entry 0 s)
    else if fs.is_regular_file path
    then (true, add_entry entry (fs.file_size path) s)
    else (false, give_up s)

unfoldable pub serialized_size : Serializer → Result ℕ
serialized_size s =
    if ltb (2 ^ 32 - 1) s.payload_size
    then err (result_too_large s.payload_size)
    else ok s.payload_size

unfoldable pub store_raw : Config → FileEntry → Bool
unfolding should_store_raw_file
store_raw config entry = is_file_entry entry.content && should_store_raw_file config entry.file_type
  where
    is_file_entry : Content → Bool
    is_file_entry (in_memory bytes) = false
    is_file_entry (in_file path) = true

unfoldable pub size_of : FileSystem → Content → ℕ
size_of fs (in_memory bytes) = length bytes
size_of fs (in_file path) = fs.file_size path

unfoldable pub append_file : Option Bytes → List RawFile → Bytes → Result (List RawFile × Bytes)
append_file none raw_files output = err unreadable_file
append_file (some bytes) raw_files output = ok (raw_files, write_bytes bytes output)

-- The last part of the loop's body; `raw` is `store_raw` of the entry.
unfoldable pub write_content :
    FileSystem → Bool → ℕ → Content → List RawFile → Bytes → Result (List RawFile × Bytes)
unfolding append_file
write_content fs raw file_number (in_memory bytes) raw_files output =
    ok (raw_files, write_bytes bytes output)
write_content fs true file_number (in_file path) raw_files output =
    ok (raw_files ++ (record { file_number = file_number; path = path } ∷ []), output)
write_content fs false file_number (in_file path) raw_files output =
    append_file (fs.read_file path) raw_files output

unfoldable pub write_entry :
    FileSystem → Config → ℕ → FileEntry → List RawFile → Bytes → Result (List RawFile × Bytes)
unfolding store_raw size_of write_content
write_entry fs config file_number entry raw_files output =
    let raw = store_raw config entry in
    let output = write_int 1 (if raw then k_raw_file_marker else k_embedded_file_marker) output in
    let output = write_int 1 entry.file_type output in
    let output = write_int 8 (size_of fs entry.content) output in
    write_content fs raw file_number entry.content raw_files output

unfoldable pub write_more :
    (List RawFile → Bytes → Result (List RawFile × Bytes))
    → Result (List RawFile × Bytes)
    → Result (List RawFile × Bytes)
write_more go (ok (raw_files, output)) = go raw_files output
write_more go (err e) = err e

-- The loop; `file_number` is a uint8_t.
unfoldable pub write_entries :
    FileSystem → Config → ℕ → List FileEntry → List RawFile → Bytes → Result (List RawFile × Bytes)
unfolding write_entry write_more
write_entries fs config file_number [] raw_files output = ok (raw_files, output)
write_entries fs config file_number (entry ∷ entries) raw_files output =
    write_more (write_entries fs config ((file_number + 1) % 2 ^ 8) entries)
      (write_entry fs config file_number entry raw_files output)

-- Serializer::serialize: the raw files that are to be stored, and the output.
unfoldable pub serialize : FileSystem → Serializer → Bytes → Result (List RawFile × Bytes)
unfolding write_entries
serialize fs s output =
    let output = write_int 1 k_format_version output in
    let output = write_int 1 (length s.file_entries % 2 ^ 8) output in
    write_entries fs s.config 0 s.file_entries s.raw_files output

-- A call of a Deserializer::Visitor.
pub data Event : Type 0 where
  on_header : ℕ → ℕ → Event
  on_embedded_file : ℕ → FileType → Bytes → Event
  on_raw_file : ℕ → FileType → ℕ → Event

unfoldable pub read_content : Bool → ℕ → FileType → ℕ → Reader Event
read_content true file_number file_type file_size = do
  bytes ← read_bytes file_size
  pure (on_embedded_file file_number file_type bytes)
read_content false file_number file_type file_size =
    pure (on_raw_file file_number file_type file_size)

unfoldable pub read_entry : ℕ → Reader Event
unfolding read_content
read_entry file_number = do
  marker ← read_int 1
  _ ←
      expect ((marker == k_embedded_file_marker) || (marker == k_raw_file_marker))
        (unknown_file_marker marker)
  file_type ← read_int 1
  file_size ← read_int 8
  read_content (marker == k_embedded_file_marker) file_number file_type file_size

-- The calls that are made, and the error that ends them.
abbrev pub Visit : Type 0
Visit = List Event × Option Error

unfoldable pub visit_more : (Bytes → Visit) → Result (Event × Bytes) → Visit
visit_more go (ok (event, rest)) = (event ∷ (go rest).0, (go rest).1)
visit_more go (err e) = ([], some e)

unfoldable pub visit_files : ℕ → ℕ → Bytes → Visit
unfolding read_entry visit_more
visit_files zero file_number bytes = ([], none)
visit_files (suc count) file_number bytes =
    visit_more (visit_files count (file_number + 1)) (read_entry file_number bytes)

unfoldable pub visit_counted : Result (ℕ × Bytes) → Visit
unfolding visit_files
visit_counted (err e) = ([], some e)
visit_counted (ok (n_files, rest)) =
    let v = visit_files n_files 0 rest in
    if leb k_max_raw_file_entries n_files
    then (on_header k_format_version n_files ∷ [], some (too_many_files n_files))
    else (on_header k_format_version n_files ∷ v.0, v.1)

unfoldable pub visit_versioned : Result (ℕ × Bytes) → Visit
unfolding visit_counted
visit_versioned (err e) = ([], some e)
visit_versioned (ok (version, rest)) =
    let v = visit_counted (read_int 1 rest) in
    if version == k_format_version
    then v
    else (on_header version 0 ∷ [], some (unknown_result_version version))

-- Deserializer::visit.
unfoldable pub visit : Bytes → Visit
unfolding visit_versioned
visit bytes = visit_versioned (read_int 1 bytes)
