-- ===== src/Manifest/Update/Added.antt =====
-- About the indexes that get_file_info_index gives to included files (src/core/Manifest.cpp).
use ccache.Prelude.{
  ℕ, ◌+◌, ◌^◌, ◌≤◌, ◌<◌, ◌≡◌, refl, sym, ap, ap₂, ◌∙◌, true, Bytes, List, [], ◌∷◌, ◌++◌,
  append_assoc, append-nil, length, eq_bytes, eq_bytes→eq, Option, none, some, get_elem?, map,
  arith,
}
use ccache.Manifest.Types.{FileStats, FileInfo, Manifest, eq_file_info}
use ccache.Manifest.Update.{
  make_info, with_info, with_file, Description, describe, describe_at, and_then, cons_index,
  get_file_info_index, get_indexes, described_file,
}
use ccache.Manifest.Update.Tables.{get_elem?-append, find_or_push_lem, find_or_push_total}

pub record Extends (m m' : Manifest) : Type 0 where
  pub more_files : List Bytes
  pub files : m'.files ≡ m.files ++ more_files
  pub more_infos : List FileInfo
  pub file_infos : m'.file_infos ≡ m.file_infos ++ more_infos
  pub results : m'.results ≡ m.results

pub Extends-refl : (m : Manifest) → Extends m m
Extends-refl m = record {
  more_files = [];
  files = sym (append-nil _);
  more_infos = [];
  file_infos = sym (append-nil _);
  results = refl;
}

pub Extends-trans : {m m' m'' : Manifest} → Extends m m' → Extends m' m'' → Extends m m''
Extends-trans {m} e f = record {
  more_files = e.more_files ++ f.more_files;
  files =
      f.files
      ∙ (ap (λ (t : List Bytes). t ++ f.more_files) e.files
          ∙ append_assoc m.files e.more_files f.more_files);
  more_infos = e.more_infos ++ f.more_infos;
  file_infos =
      f.file_infos
      ∙ (ap (λ (t : List FileInfo). t ++ f.more_infos) e.file_infos
          ∙ append_assoc m.file_infos e.more_infos f.more_infos);
  results = f.results ∙ e.results;
}

eq_file_info→eq : (a b : FileInfo) → eq_file_info a b ≡ true → a ≡ b
unfolding eq_file_info
eq_file_info→eq a b h = ground (arith, eq_bytes→eq a.digest b.digest)

-- The two look-ups that give an index its meaning.
described_lem :
    (m : Manifest) (i : ℕ) (info : FileInfo) (path : Bytes)
    → get_elem? m.file_infos i ≡ some info
    → get_elem? m.files info.index ≡ some path
    → described_file m i
      ≡ some
          (path, info.digest, record { size = info.fsize; mtime = info.mtime; ctime = info.ctime })
unfolding described_file describe_at describe
described_lem m i info path p q = ap (describe_at m.files) p ∙ ap (describe info) q

describe_inversion :
    (info : FileInfo) (found : Option Bytes) {d : Description}
    → describe info found ≡ some d
    → (path : Bytes) × (found ≡ some path)
unfolding describe
describe_inversion info none h = absurd (cc h)
describe_inversion info (some path) h = (path, refl)

describe_at_inversion :
    (files : List Bytes) (found : Option FileInfo) {d : Description}
    → describe_at files found ≡ some d
    → (info : FileInfo) × (path : Bytes) × (found ≡ some info)
      × (get_elem? files info.index ≡ some path)
unfolding describe_at
describe_at_inversion files none h = absurd (cc h)
describe_at_inversion files (some info) h =
    let (path, p) = describe_inversion info (get_elem? files info.index) h in (info, path, refl, p)

described_inversion :
    (m : Manifest) (i : ℕ) {d : Description}
    → described_file m i ≡ some d
    → (info : FileInfo) × (path : Bytes) × (get_elem? m.file_infos i ≡ some info)
      × (get_elem? m.files info.index ≡ some path)
unfolding described_file
described_inversion m i h = describe_at_inversion m.files (get_elem? m.file_infos i) h

pub described_file-Extends :
    (m m' : Manifest) (i : ℕ) {d : Description}
    → Extends m m'
    → described_file m i ≡ some d
    → described_file m' i ≡ some d
described_file-Extends m m' i e h =
    let (info, path, p, q) = described_inversion m i h in
    described_lem m' i info path (rw e.file_infos (get_elem?-append m.file_infos e.more_infos i p))
      (rw e.files (get_elem?-append m.files e.more_files info.index q))
    ∙ (sym (described_lem m i info path p q) ∙ h)

-- What get_file_info_index promises where the tables have room.
record Indexed (m : Manifest) (stats : FileStats) (path digest : Bytes) (i : ℕ) (m' : Manifest)
    : Type 0 where
  described : described_file m' i ≡ some (path, digest, stats)
  extends : Extends m m'
  files_grow : length m'.files ≤ length m.files + 1
  infos_grow : length m'.file_infos ≤ length m.file_infos + 1

indexed :
    (snapshot : Manifest) (file_stater : Bytes → FileStats) (path digest : Bytes) (m : Manifest)
    → Extends snapshot m
    → length m.files < 2 ^ 32
    → length m.file_infos < 2 ^ 32
    → (i : ℕ) × (m' : Manifest) × (get_file_info_index snapshot file_stater path digest m
        ≡ (some i, m'))
      × Indexed m (file_stater path) path digest i m'
unfolding get_file_info_index with_file with_info
indexed snapshot file_stater path digest m e hf hi =
    let (k, files, p, grow_f) = find_or_push_total eq_bytes path snapshot.files m.files hf in
    let info = make_info k digest (file_stater path) in
    let (i, infos, q, grow_i) =
      find_or_push_total eq_file_info info snapshot.file_infos m.file_infos hi in
    let (at_k, (new_files, files_eq)) =
      find_or_push_lem eq_bytes eq_bytes→eq path snapshot.files e.more_files m.files k files e.files
        p in
    let (at_i, (new_infos, infos_eq)) =
      find_or_push_lem eq_file_info eq_file_info→eq info snapshot.file_infos e.more_infos
        m.file_infos i infos e.file_infos q in
    let m' : Manifest = record m { files = files; file_infos = infos } in
    (
      i,
      m',
      ap (with_file snapshot file_stater path digest m) p ∙ ap (with_info m files) q,
      record {
        described = unfold make_info in described_lem m' i info path at_i at_k;
        extends = record {
          more_files = new_files;
          files = files_eq;
          more_infos = new_infos;
          file_infos = infos_eq;
          results = refl;
        };
        files_grow = grow_f;
        infos_grow = grow_i;
      },
    )

-- The indexes lead to these files, with these digests and with what the stat function says.
abbrev pub LeadTo : Manifest → List ℕ → (Bytes → FileStats) → List (Bytes × Bytes) → Type 0
LeadTo m indexes stater included =
    map (described_file m) indexes ≡ map (λ f. some (f.0, f.1, stater f.0)) included

-- Where the tables have room for all of the files, each gets an index.
pub get_indexes_lem :
    (snapshot : Manifest) (stater : Bytes → FileStats) (included : List (Bytes × Bytes))
    (m : Manifest)
    → Extends snapshot m
    → length m.files + length included ≤ 2 ^ 32
    → length m.file_infos + length included ≤ 2 ^ 32
    → (indexes : List ℕ) × (m' : Manifest) × (get_indexes snapshot stater included m
        ≡ (some indexes, m'))
      × LeadTo m' indexes stater included
      × Extends m m'
unfolding get_indexes
get_indexes_lem snapshot stater [] m e hf hi = ([], m, refl, refl, Extends-refl m)
get_indexes_lem snapshot stater ((path, digest) ∷ included) m e hf hi =
    let (i, m', p, one) = indexed snapshot stater path digest m e (omega arith) (omega arith) in
    let (indexes, m'', q, lead, grown) =
      get_indexes_lem snapshot stater included m' (Extends-trans e one.extends)
        (omega (arith, one.files_grow)) (omega (arith, one.infos_grow)) in
    (
      i ∷ indexes,
      m'',
      ap (and_then (get_indexes snapshot stater included)) p
          ∙ (unfold and_then in ap (cons_index i) q)
          ∙ (unfold cons_index in refl),
      ap₂ (λ (d : Option Description) (ds : List (Option Description)). d ∷ ds)
          (described_file-Extends m' m'' i grown one.described) lead,
      Extends-trans one.extends grown,
    )
