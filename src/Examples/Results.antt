-- ===== src/Examples/Results.antt =====
-- A result of a raw object file and of text that was printed (src/core/Result.cpp).
use ccache.Prelude.{
  ◌^◌, ◌<◌, ◌≡◌, refl, true, false, List, [], ◌∷◌, ◌++◌, none, some, replicate, length, arith,
  codes, All,
}
use ccache.Fallible.{ok, too_many_files}
use ccache.Codec.{int_to_big_endian, int_to_big_endian_loop}
use ccache.CacheEntry.Types.{Config, use_raw_files}
use ccache.CachedResult.{
  FileSystem, in_memory, in_file, FileEntry, Serializer, new, add_data, add_file, add_entry,
  should_store_raw_file, store_raw, size_of, serialize, visit, on_header,
}
use ccache.CachedResult.RoundTrip.{
  IsStorable, contents, events_of, raw_files_of, result_bytes, visit-serialize, visit_rejects_ten,
}
use ccache.CachedResult.Size.{
  Addition, data_of, file_of, add_all, AdditionFits, payload_size-add_all,
}

abbrev file_system : FileSystem
file_system = record {
  is_regular_file = λ path. true;
  file_size = λ path. 3;
  read_file = λ path. some (1 ∷ 2 ∷ 3 ∷ []);
}

abbrev config : Config
config = record {
  compression = true;
  compression_level = 0;
  file_clone = false;
  hard_link = true;
  namespace_ = [];
}

abbrev object_entry : FileEntry
object_entry = record { file_type = 0; content = in_file (codes "a.o") }

abbrev dependency_entry : FileEntry
dependency_entry = record { file_type = 1; content = in_file (codes "a.d") }

abbrev stderr_entry : FileEntry
stderr_entry = record { file_type = 2; content = in_memory (codes "note") }

abbrev serializer : Serializer
serializer = record {
  config = config;
  payload_size = 39;
  file_entries = object_entry ∷ dependency_entry ∷ stderr_entry ∷ [];
  raw_files = [];
}

object-IsStorable : IsStorable file_system config object_entry
unfolding size_of store_raw should_store_raw_file use_raw_files
object-IsStorable = record { file_type = omega arith; file_size = omega arith; content = tt }

dependency-IsStorable : IsStorable file_system config dependency_entry
unfolding size_of store_raw should_store_raw_file use_raw_files
dependency-IsStorable = record {
  file_type = omega arith;
  file_size = omega arith;
  content = (1 ∷ 2 ∷ 3 ∷ [], refl, refl);
}

stderr-IsStorable : IsStorable file_system config stderr_entry
unfolding size_of store_raw should_store_raw_file use_raw_files
stderr-IsStorable = record { file_type = omega arith; file_size = omega arith; content = tt }

visit_example :
    (serialize file_system serializer []
      ≡ ok (raw_files_of config 0 serializer.file_entries, result_bytes file_system serializer))
    × (visit (result_bytes file_system serializer)
        ≡ (on_header 0 3 ∷ events_of file_system config 0 serializer.file_entries, none))
visit_example =
    visit-serialize file_system serializer (omega arith)
      (object-IsStorable, (dependency-IsStorable, (stderr-IsStorable, tt)))

abbrev large_serializer : Serializer
large_serializer = record {
  config = config;
  payload_size = 152;
  file_entries = replicate 11 stderr_entry;
  raw_files = [];
}

large-IsStorable : All (IsStorable file_system config) large_serializer.file_entries
large-IsStorable =
    let s = stderr-IsStorable in (s, (s, (s, (s, (s, (s, (s, (s, (s, (s, (s, tt)))))))))))

rejected_example :
    (serialize file_system large_serializer []
      ≡ ok (
        raw_files_of config 0 large_serializer.file_entries,
        result_bytes file_system large_serializer,
      ))
    × (visit (result_bytes file_system large_serializer)
        ≡ (on_header 0 11 ∷ [], some (too_many_files 11)))
rejected_example =
    visit_rejects_ten file_system large_serializer (omega arith) (omega arith) large-IsStorable

abbrev additions : List Addition
additions = file_of 0 (codes "a.o") ∷ file_of 1 (codes "a.d") ∷ data_of 2 (codes "note") ∷ []

additions-fit : All (AdditionFits file_system config) additions
unfolding should_store_raw_file use_raw_files
additions-fit = (
  (omega arith, omega arith, tt),
  (
    (omega arith, omega arith, (refl, (1 ∷ 2 ∷ 3 ∷ [], refl, refl))),
    ((omega arith, omega arith), tt),
  ),
)

abbrev filled : Serializer
filled = add_all file_system additions (new config)

size_example :
    (serialize file_system filled []
      ≡ ok (
        filled.raw_files ++ raw_files_of filled.config 0 filled.file_entries,
        result_bytes file_system filled,
      ))
    × (length (result_bytes file_system filled) ≡ filled.payload_size)
size_example = payload_size-add_all file_system config additions additions-fit few bounded
  where
    few : length filled.file_entries < 2 ^ 8
    few = unfold new add_file add_data add_entry should_store_raw_file use_raw_files in omega arith

    bounded : length (result_bytes file_system filled) < 2 ^ 64
    bounded =
        unfold new add_file add_data add_entry should_store_raw_file use_raw_files store_raw size_of
          contents int_to_big_endian int_to_big_endian_loop in
        omega arith
