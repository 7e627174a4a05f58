-- ===== src/Manifest/Format/RoundTrip.antt =====
-- About the pair serialize and read of a manifest, and the size that serialized_size announces
-- (src/core/Manifest.cpp).
use ccache.Prelude.{
  ℕ, ◌+◌, ◌*◌, ◌%◌, ◌-◌, ◌^◌, ◌<◌, ◌≡◌, refl, ◌∙◌, ap, Bytes, List, [], ◌∷◌, ◌++◌, append_assoc,
  length, length-append, ltb, if◌then◌else◌, All, arith,
}
use ccache.Fallible.{ok, err, manifest_too_large}
use ccache.Codec.{int_to_big_endian, write_int, write_str, write_bytes, read_int}
use ccache.Codec.Integers.{length-int_to_big_endian}
use ccache.Codec.RoundTrip.{
  step, concat_map, read_int-append, read_str_of_length, read_bytes-append, each_of_length,
  write_each-concat_map,
}
use ccache.Manifest.Types.{digest_size, FileInfo, ResultEntry, Manifest}
use ccache.Manifest.Format.{
  k_format_version, read_file, read_file_info, read_result_entry, read_tables, write_file,
  write_file_info, write_result_entry, serialize, files_size, results_size, serialized_size,
}

-- What the fields' C++ types and the format can hold.
abbrev pub FileFits : Bytes → Type 0
FileFits file = length file < 2 ^ 16

pub record InfoFits (i : FileInfo) : Type 0 where
  pub index : i.index < 2 ^ 32
  pub digest : length i.digest ≡ digest_size
  pub fsize : i.fsize < 2 ^ 64
  pub mtime : i.mtime < 2 ^ 64
  pub ctime : i.ctime < 2 ^ 64

pub record EntryFits (e : ResultEntry) : Type 0 where
  pub count : length e.file_info_indexes < 2 ^ 32
  pub indexes : All (λ i. i < 256 ^ 4) e.file_info_indexes
  pub key : length e.key ≡ digest_size

pub record IsStorable (m : Manifest) : Type 0 where
  pub files : All FileFits m.files
  pub file_infos : All InfoFits m.file_infos
  pub results : All EntryFits m.results
  pub file_count : length m.files < 2 ^ 32
  pub info_count : length m.file_infos < 2 ^ 32
  pub result_count : length m.results < 2 ^ 32

-- The grammar of Manifest.cpp.
abbrev file_bytes : Bytes → Bytes
file_bytes file = int_to_big_endian 2 (length file % 2 ^ 16) ++ file

abbrev info_bytes : FileInfo → Bytes
info_bytes i =
    int_to_big_endian 4 i.index
    ++ (i.digest
        ++ (int_to_big_endian 8 i.fsize
            ++ (int_to_big_endian 8 i.mtime ++ int_to_big_endian 8 i.ctime)))

abbrev entry_bytes : ResultEntry → Bytes
entry_bytes e =
    int_to_big_endian 4 (length e.file_info_indexes % 2 ^ 32)
    ++ (concat_map (int_to_big_endian 4) e.file_info_indexes ++ e.key)

abbrev manifest_bytes : Manifest → Bytes
manifest_bytes m =
    int_to_big_endian 1 k_format_version
    ++ (int_to_big_endian 4 (length m.files % 2 ^ 32)
        ++ (concat_map file_bytes m.files
            ++ (int_to_big_endian 4 (length m.file_infos % 2 ^ 32)
                ++ (concat_map info_bytes m.file_infos
                    ++ (int_to_big_endian 4 (length m.results % 2 ^ 32)
                        ++ concat_map entry_bytes m.results)))))

file-bytes : (file output : Bytes) → write_file file output ≡ output ++ file_bytes file
unfolding write_file write_int write_str write_bytes
file-bytes file output = simp append_assoc

info-bytes : (i : FileInfo) (output : Bytes) → write_file_info i output ≡ output ++ info_bytes i
unfolding write_file_info write_int write_bytes
info-bytes i output = simp append_assoc

int-bytes : (n : ℕ) (output : Bytes) → write_int 4 n output ≡ output ++ int_to_big_endian 4 n
unfolding write_int write_bytes
int-bytes n output = refl

entry-bytes :
    (e : ResultEntry) (output : Bytes) → write_result_entry e output ≡ output ++ entry_bytes e
unfolding write_result_entry write_bytes
entry-bytes e output =
    simp
      (write_each-concat_map (write_int 4) (int_to_big_endian 4) int-bytes, int-bytes, append_assoc)

pub serialize-manifest_bytes :
    (m : Manifest) (output : Bytes) → serialize m output ≡ output ++ manifest_bytes m
unfolding serialize write_int write_bytes
serialize-manifest_bytes m output = simp (
  write_each-concat_map write_file file_bytes file-bytes,
  write_each-concat_map write_file_info info_bytes info-bytes,
  write_each-concat_map write_result_entry entry_bytes entry-bytes,
  append_assoc,
)

file_back :
    (file rest : Bytes) → FileFits file → read_file (file_bytes file ++ rest) ≡ ok (file, rest)
unfolding read_file
file_back file rest h = rw append_assoc (
    step _ (read_int-append 2 (length file % 2 ^ 16) _ (omega arith))
    ∙ read_str_of_length file rest _ (omega arith))

info_back :
    (i : FileInfo) (rest : Bytes)
    → InfoFits i
    → read_file_info (info_bytes i ++ rest) ≡ ok (i, rest)
unfolding read_file_info
info_back i rest h = simp append_assoc (
    step _ (read_int-append 4 i.index _ h.index)
    ∙ (step _ (read_bytes-append i.digest _ digest_size h.digest)
        ∙ (step _ (read_int-append 8 i.fsize _ h.fsize)
            ∙ (step _ (read_int-append 8 i.mtime _ h.mtime)
                ∙ step _ (read_int-append 8 i.ctime rest h.ctime)))))

entry_back :
    (e : ResultEntry) (rest : Bytes)
    → EntryFits e
    → read_result_entry (entry_bytes e ++ rest) ≡ ok (e, rest)
unfolding read_result_entry
entry_back e rest h = simp append_assoc (
    step _ (read_int-append 4 (length e.file_info_indexes % 2 ^ 32) _ (omega arith))
    ∙ (step _ (
          each_of_length (λ i. i < 256 ^ 4) (int_to_big_endian 4) (read_int 4) (read_int-append 4)
            e.file_info_indexes _ _ (omega (arith, h.count)) h.indexes)
        ∙ step _ (read_bytes-append e.key rest digest_size h.key)))

-- Reading what was serialized gives the same tables, and leaves what follows them.
pub read_tables-serialize :
    (m : Manifest) (rest : Bytes)
    → IsStorable m
    → read_tables (serialize m [] ++ rest) ≡ ok (m, rest)
unfolding read_tables
read_tables-serialize m rest s = rw serialize-manifest_bytes (
    simp append_assoc (
      step _ (read_int-append 1 k_format_version _ (omega arith))
      ∙ (step _ (read_int-append 4 (length m.files % 2 ^ 32) _ (omega arith))
          ∙ (step _ (
                each_of_length FileFits file_bytes read_file file_back m.files _ _
                  (omega (arith, s.file_count)) s.files)
              ∙ (step _ (read_int-append 4 (length m.file_infos % 2 ^ 32) _ (omega arith))
                  ∙ (step _ (
                        each_of_length InfoFits info_bytes read_file_info info_back m.file_infos _ _
                          (omega (arith, s.info_count)) s.file_infos)
                      ∙ (step _ (read_int-append 4 (length m.results % 2 ^ 32) _ (omega arith))
                          ∙ step _ (
                              each_of_length EntryFits entry_bytes read_result_entry entry_back
                                m.results rest _ (omega (arith, s.result_count)) s.results))))))))

length-files : (files : List Bytes) → length (concat_map file_bytes files) ≡ files_size files
unfolding files_size
length-files [] = refl
length-files (f ∷ files) =
    simp (length-append, length-int_to_big_endian) (omega (arith, length-files files))

-- The digests have the size of Hash::Digest.
abbrev pub HasDigests : Manifest → Type 0
HasDigests m =
    All (λ (i : FileInfo). length i.digest ≡ digest_size) m.file_infos
    × All (λ (e : ResultEntry). length e.key ≡ digest_size) m.results

length-infos :
    (infos : List FileInfo)
    → All (λ (i : FileInfo). length i.digest ≡ digest_size) infos
    → length (concat_map info_bytes infos) ≡ length infos * (4 + digest_size + 8 + 8 + 8)
length-infos [] h = refl
length-infos (i ∷ infos) (h, hs) =
    simp (length-append, length-int_to_big_endian) (omega (arith, h, length-infos infos hs))

length-indexes :
    (indexes : List ℕ) → length (concat_map (int_to_big_endian 4) indexes) ≡ length indexes * 4
length-indexes [] = refl
length-indexes (i ∷ indexes) =
    simp (length-append, length-int_to_big_endian) (omega (arith, length-indexes indexes))

length-results :
    (results : List ResultEntry)
    → All (λ (e : ResultEntry). length e.key ≡ digest_size) results
    → length (concat_map entry_bytes results) ≡ results_size results
unfolding results_size
length-results [] h = refl
length-results (e ∷ results) (h, hs) =
    simp (length-append, length-int_to_big_endian, length-indexes)
      (omega (arith, h, length-results results hs))

-- Where all digests have 20 bytes, the size that a manifest announces is the length of its
-- serialized form, and it is an error exactly where that length does not fit 32 bits.
serialized_size-serialize :
    (m : Manifest)
    → HasDigests m
    → serialized_size m ≡ (
        if ltb (2 ^ 32 - 1) (length (serialize m []))
        then err (manifest_too_large (length (serialize m [])))
        else ok (length (serialize m [])))
unfolding serialized_size
serialized_size-serialize m (infos, results) =
    ap (λ (n : ℕ). if ltb (2 ^ 32 - 1) n then err (manifest_too_large n) else ok n)
      (rw serialize-manifest_bytes (
        simp (length-append, length-int_to_big_endian)
          (omega (
            arith,
            length-files m.files,
            length-infos m.file_infos infos,
            length-results m.results results,
          ))))
