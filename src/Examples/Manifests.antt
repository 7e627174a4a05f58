-- ===== src/Examples/Manifests.antt =====
-- A manifest that is filled, stored, read and searched (src/core/Manifest.cpp).
use ccache.Prelude.{
  ℕ, ◌+◌, ◌≤◌, ◌≡◌, refl, false, Bytes, List, [], ◌∷◌, some, replicate, length, arith, codes,
  get_elem?,
}
use ccache.Fallible.{ok}
use ccache.Manifest.Types.{FileStats, FileInfo, ResultEntry, Manifest, empty}
use ccache.Manifest.Format.{serialize}
use ccache.Manifest.Format.RoundTrip.{IsStorable}
use ccache.Manifest.Merge.{read, read-serialize}
use ccache.Manifest.Update.{
  add_result, described_file, describe_at, describe, k_max_manifest_entries,
}
use ccache.Manifest.Update.Added.{LeadTo}
use ccache.Manifest.Update.Recorded.{add_result_lem}
use ccache.Manifest.Update.Kept.{add_result_keeps, add_result_bound}
use ccache.Manifest.Lookup.{
  Context, HashOutcome, gcc, Caches, find, look_up_result_digest, file_matches,
}
use ccache.Manifest.Lookup.Cached.{unchanged, IsConsistent, Judged, file_matches_lem}
use ccache.Manifest.Lookup.Newest.{IsKnown, all_unchanged, newest, look_up_result_digest_lem}

abbrev digest : ℕ → Bytes
digest b = replicate 20 b

abbrev stats : FileStats
stats = record { size = 10; mtime = 5; ctime = 6 }

abbrev info : FileInfo
info = record { index = 0; digest = digest 1; fsize = 10; mtime = 5; ctime = 6 }

abbrev other_info : FileInfo
other_info = record { index = 1; digest = digest 2; fsize = 10; mtime = 5; ctime = 6 }

abbrev first_entry : ResultEntry
first_entry = record { file_info_indexes = 0 ∷ []; key = digest 8 }

abbrev second_entry : ResultEntry
second_entry = record { file_info_indexes = 0 ∷ 1 ∷ []; key = digest 9 }

abbrev manifest : Manifest
manifest = record {
  files = codes "a.h" ∷ codes "b.h" ∷ [];
  file_infos = info ∷ other_info ∷ [];
  results = first_entry ∷ second_entry ∷ [];
}

manifest-IsStorable : IsStorable manifest
manifest-IsStorable = record {
  files = (omega arith, (omega arith, tt));
  file_infos = (
    record {
      index = omega arith;
      digest = refl;
      fsize = omega arith;
      mtime = omega arith;
      ctime = omega arith;
    },
    (
      record {
        index = omega arith;
        digest = refl;
        fsize = omega arith;
        mtime = omega arith;
        ctime = omega arith;
      },
      tt,
    ),
  );
  results = (
    record { count = omega arith; indexes = (omega arith, tt); key = refl },
    (record { count = omega arith; indexes = (omega arith, (omega arith, tt)); key = refl }, tt),
  );
  file_count = omega arith;
  info_count = omega arith;
  result_count = omega arith;
}

abbrev same_order : List (Bytes × Bytes) → List (Bytes × Bytes)
same_order entries = entries

read_example : read same_order (serialize manifest []) empty ≡ ok manifest
read_example = read-serialize same_order manifest manifest-IsStorable

abbrev stater : Bytes → FileStats
stater path = stats

abbrev included : List (Bytes × Bytes)
included = (codes "b.h", digest 3) ∷ (codes "c.h", digest 4) ∷ []

added_example :
    (k : ℕ) × (entry : ResultEntry) × (get_elem?
        (add_result (digest 7) included stater manifest).0.results
        k
      ≡ some entry)
    × (entry.key ≡ digest 7)
    × LeadTo
        (add_result (digest 7) included stater manifest).0
        entry.file_info_indexes
        stater
        included
added_example = add_result_lem (digest 7) included stater manifest (omega arith) (omega arith)

kept_example :
    (get_elem? (add_result (digest 7) included stater manifest).0.results 1 ≡ some second_entry)
    × (described_file (add_result (digest 7) included stater manifest).0 1
        ≡ some (codes "b.h", digest 2, stats))
kept_example =
    add_result_keeps (digest 7) included stater manifest 1 1 (omega arith) (omega arith) refl
      described
  where
    described : described_file manifest 1 ≡ some (codes "b.h", digest 2, stats)
    described = unfold described_file describe_at describe in refl

bound_example :
    length (add_result (digest 7) included stater manifest).0.results ≤ k_max_manifest_entries + 1
bound_example = add_result_bound (digest 7) included stater manifest

-- Both files are there; the second one has another digest than the manifest's.
abbrev hash_file : Bytes → ℕ → HashOutcome
hash_file path size = record { error = false; found_time = false; digest = digest 1 }

abbrev context : Context
context = record {
  compiler_type = gcc;
  output_is_precompiled_header = false;
  fno_pch_timestamp = false;
  file_stat_matches = false;
  file_stat_matches_ctime = false;
  stat = λ path. some stats;
  hash_source_code_file = hash_file;
}

abbrev no_caches : Caches
no_caches = record { stated_files = []; hashed_files = [] }

no_caches-IsConsistent : IsConsistent context no_caches
unfolding find
no_caches-IsConsistent = record {
  stated = λ path fs h. absurd (cc h);
  hashed = λ path d h. absurd (cc h);
}

matches_example :
    Judged context
      (unchanged context info (codes "a.h"))
      (file_matches context info (codes "a.h") no_caches)
matches_example = file_matches_lem context info (codes "a.h") no_caches no_caches-IsConsistent

found_example :
    look_up_result_digest context manifest
    ≡ some (newest (all_unchanged context manifest) manifest.results)
found_example = look_up_result_digest_lem context manifest (known_first, (known_second, tt))
  where
    known_first : IsKnown manifest (0 ∷ [])
    known_first = IsKnown.cons 0 [] info (codes "a.h") refl refl IsKnown.nil

    known_second : IsKnown manifest (0 ∷ 1 ∷ [])
    known_second =
        IsKnown.cons 0 (1 ∷ []) info (codes "a.h") refl refl
          (IsKnown.cons 1 [] other_info (codes "b.h") refl refl IsKnown.nil)
