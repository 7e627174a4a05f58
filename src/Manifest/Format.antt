-- ===== src/Manifest/Format.antt =====
-- The stored form of a manifest (src/core/Manifest.cpp: read, serialized_size, serialize).
pub mod RoundTrip
use ccache.Prelude.{
  ℕ, ◌+◌, ◌*◌, ◌%◌, ◌-◌, ◌^◌, Bytes, List, [], ◌∷◌, length, ltb, ◌==◌, if◌then◌else◌,
}
use ccache.Fallible.{Result, ok, err, unknown_manifest_version, manifest_too_large}
use ccache.Codec.{
  Reader, Writer, write_int, write_str, write_bytes, write_each, read_int, read_str, read_bytes,
  read_each, expect, ◌>>=◌, pure,
}
use ccache.Manifest.Types.{digest_size, FileInfo, ResultEntry, Manifest}

abbrev pub k_format_version : ℕ
k_format_version = 1

unfoldable pub read_file : Reader Bytes
read_file = do size ← read_int 2; read_str size

unfoldable pub read_file_info : Reader FileInfo
read_file_info = do
  index ← read_int 4
  digest ← read_bytes digest_size
  fsize ← read_int 8
  mtime ← read_int 8
  ctime ← read_int 8
  pure (record { index = index; digest = digest; fsize = fsize; mtime = mtime; ctime = ctime })

unfoldable pub read_result_entry : Reader ResultEntry
read_result_entry = do
  count ← read_int 4
  indexes ← read_each count (read_int 4)
  key ← read_bytes digest_size
  pure (record { file_info_indexes = indexes; key = key })

-- Manifest::read up to the point where the tables are read.
unfoldable pub read_tables : Reader Manifest
unfolding read_file read_file_info read_result_entry
read_tables = do
  version ← read_int 1
  _ ← expect (version == k_format_version) (unknown_manifest_version version)
  file_count ← read_int 4
  files ← read_each file_count read_file
  file_info_count ← read_int 4
  file_infos ← read_each file_info_count read_file_info
  result_count ← read_int 4
  results ← read_each result_count read_result_entry
  pure (record { files = files; file_infos = file_infos; results = results })

unfoldable pub write_file : Bytes → Writer
write_file file output =
    let output = write_int 2 (length file % 2 ^ 16) output in write_str file output

unfoldable pub write_file_info : FileInfo → Writer
write_file_info info output =
    let output = write_int 4 info.index output in
    let output = write_bytes info.digest output in
    let output = write_int 8 info.fsize output in
    let output = write_int 8 info.mtime output in write_int 8 info.ctime output

unfoldable pub write_result_entry : ResultEntry → Writer
write_result_entry entry output =
    let output = write_int 4 (length entry.file_info_indexes % 2 ^ 32) output in
    let output = write_each (write_int 4) entry.file_info_indexes output in
    write_bytes entry.key output

unfoldable pub serialize : Manifest → Writer
unfolding write_file write_file_info write_result_entry
serialize m output =
    let output = write_int 1 k_format_version output in
    let output = write_int 4 (length m.files % 2 ^ 32) output in
    let output = write_each write_file m.files output in
    let output = write_int 4 (length m.file_infos % 2 ^ 32) output in
    let output = write_each write_file_info m.file_infos output in
    let output = write_int 4 (length m.results % 2 ^ 32) output in
    write_each write_result_entry m.results output

unfoldable pub files_size : List Bytes → ℕ
files_size [] = 0
files_size (file ∷ files) = 2 + length file + files_size files

unfoldable pub results_size : List ResultEntry → ℕ
results_size [] = 0
results_size (entry ∷ results) =
    4 + length entry.file_info_indexes * 4 + digest_size + results_size results

-- The sum is a uint64_t, which no manifest in memory overflows.
unfoldable pub serialized_size : Manifest → Result ℕ
unfolding files_size results_size
serialized_size m =
    let size =
      1
      + 4
      + files_size m.files
      + 4
      + length m.file_infos * (4 + digest_size + 8 + 8 + 8)
      + 4
      + results_size m.results in
    if ltb (2 ^ 32 - 1) size then err (manifest_too_large size) else ok size
