-- ===== src/Manifest/Lookup/Cached.antt =====
-- About the caches of result_matches (src/core/Manifest.cpp).
use ccache.Prelude.{
  ◌≡◌, refl, ◌⊎◌, sym, Bool, true, false, Bool-cases, Option-cases, inl, inr, Bytes, List, ◌∷◌,
  Option, none, some, ◌==◌, ◌&&◌, ◌||◌, not, eq_bytes, eq_bytes→eq, if◌then◌else◌,
}
use ccache.Manifest.Types.{FileStats, FileInfo}
use ccache.Manifest.Lookup.{
  Context, Caches, find, needs_same_mtime, stat_hit, stat_cached, hash_cached, compare_file,
  file_matches,
}

-- The file has the recorded digest, and no __TIME__ that would make it useless.
abbrev pub same_digest : Context → FileInfo → Bytes → FileStats → Bool
same_digest ctx fi path fs =
    let ret = ctx.hash_source_code_file path fs.size in
    not ret.error && not ret.found_time && eq_bytes fi.digest ret.digest

abbrev pub unchanged_stat : Context → FileInfo → Bytes → FileStats → Bool
unchanged_stat ctx fi path fs =
    (fi.fsize == fs.size)
    && (not (needs_same_mtime ctx) || (fi.mtime == fs.mtime))
    && (stat_hit ctx fi fs || same_digest ctx fi path fs)

-- Whether the file at `path` is, as far as ccache is to know, the one that was recorded.
unfoldable pub unchanged : Context → FileInfo → Bytes → Bool
unchanged ctx fi path = elim (ctx.stat path) [
  | none ↦ false
  | some fs ↦ unchanged_stat ctx fi path fs
]

-- What the caches hold is what the calls would give.
pub record IsConsistent (ctx : Context) (caches : Caches) : Type 0 where
  pub stated :
      (path : Bytes) (fs : FileStats)
      → find path caches.stated_files ≡ some fs
      → ctx.stat path ≡ some fs
  pub hashed :
      (path digest : Bytes)
      → find path caches.hashed_files ≡ some digest
      → (fs : FileStats) → ctx.stat path ≡ some fs
      → ((ctx.hash_source_code_file path fs.size).error ≡ false)
        × ((ctx.hash_source_code_file path fs.size).found_time ≡ false)
        × ((ctx.hash_source_code_file path fs.size).digest ≡ digest)

find-cons {ℓ} :
    {A : Type ℓ} (path q : Bytes) (a b : A) (entries : List (Bytes × A))
    → find path ((q, a) ∷ entries) ≡ some b
    → ((q ≡ path) × (a ≡ b)) ⊎ (find path entries ≡ some b)
unfolding find
find-cons path q a b entries h = elim (Bool-cases (eq_bytes q path)) [
  | inl same ↦ inl (eq_bytes→eq q path same, cc (rw same at h))
  | inr other ↦ inr (rw other at h)
]

-- A round gives the verdict that the calls would give, and keeps the caches consistent.
abbrev pub Judged : Context → Bool → Bool × Caches → Type 0
Judged ctx verdict r = (r.0 ≡ verdict) × IsConsistent ctx r.1

same_stat :
    (ctx : Context) (path p : Bytes) (fs fs' : FileStats)
    → path ≡ p
    → ctx.stat path ≡ some fs
    → ctx.stat p ≡ some fs'
    → fs ≡ fs'
same_stat ctx path p fs fs' e s t = cc

fresh :
    (ctx : Context) (path p : Bytes) (fs fs' : FileStats) (d : Bytes)
    → path ≡ p
    → fs ≡ fs'
    → (ctx.hash_source_code_file path fs.size).error ≡ false
    → (ctx.hash_source_code_file path fs.size).found_time ≡ false
    → (ctx.hash_source_code_file path fs.size).digest ≡ d
    → ((ctx.hash_source_code_file p fs'.size).error ≡ false)
      × ((ctx.hash_source_code_file p fs'.size).found_time ≡ false)
      × ((ctx.hash_source_code_file p fs'.size).digest ≡ d)
fresh ctx path p fs fs' d e g h k l = (cc, cc, cc)

hash_cached_lem :
    (ctx : Context) (fi : FileInfo) (path : Bytes) (fs : FileStats) (found : Option Bytes)
    (caches : Caches)
    → IsConsistent ctx caches
    → ctx.stat path ≡ some fs
    → find path caches.hashed_files ≡ found
    → Judged ctx (same_digest ctx fi path fs) (hash_cached ctx fi path fs found caches)
unfolding hash_cached
hash_cached_lem ctx fi path fs (some digest) caches c s e =
    let (no_error, no_time, same) = c.hashed path digest e fs s in (rw (no_error, no_time, same), c)
hash_cached_lem ctx fi path fs none caches c s e =
    elim (Bool-cases (ctx.hash_source_code_file path fs.size).error) [
      | inl failed ↦ rw failed (refl, c)
      | inr fine ↦ elim (Bool-cases (ctx.hash_source_code_file path fs.size).found_time) [
        | inl time ↦ rw (fine, time) (refl, c)
        | inr no_time ↦
            rw (fine, no_time)
              (
                refl,
                record {
                  stated = c.stated;
                  hashed = λ p d found fs' stat'.
                      elim (find-cons p path _ d caches.hashed_files found) [
                        | inl (same_path, same) ↦
                            fresh ctx path p fs fs' d same_path
                              (same_stat ctx path p fs fs' same_path s stat') fine no_time same
                        | inr older ↦ c.hashed p d older fs' stat'
                      ];
                },
              )
      ]
    ]

-- The tests in the order of the code give the conjunction.
in_order :
    (ctx : Context) (caches : Caches) (same_size needed same_mtime hit verdict : Bool)
    (r : Bool × Caches)
    → IsConsistent ctx caches
    → Judged ctx verdict r
    → Judged ctx (same_size && (not needed || same_mtime) && (hit || verdict)) (
        if not same_size
        then (false, caches)
        else if needed && not same_mtime
        then (false, caches)
        else if hit
        then (true, caches)
        else r)
in_order ctx caches false needed same_mtime hit verdict r c j = (refl, c)
in_order ctx caches true true false hit verdict r c j = (refl, c)
in_order ctx caches true true true true verdict r c j = (refl, c)
in_order ctx caches true true true false verdict r c j = j
in_order ctx caches true false same_mtime true verdict r c j = (refl, c)
in_order ctx caches true false same_mtime false verdict r c j = j

compare_stat :
    (ctx : Context) (fi : FileInfo) (path : Bytes) (fs : FileStats) (caches : Caches)
    → ctx.stat path ≡ some fs
    → IsConsistent ctx caches
    → Judged ctx (unchanged_stat ctx fi path fs) (compare_file ctx fi path (some fs, caches))
unfolding compare_file
compare_stat ctx fi path fs caches s c =
    in_order ctx caches (fi.fsize == fs.size) (needs_same_mtime ctx) (fi.mtime == fs.mtime)
      (stat_hit ctx fi fs) (same_digest ctx fi path fs) _ c
      (hash_cached_lem ctx fi path fs _ caches c s refl)

-- The statistics are those of the file, and what is stated is kept consistent.
stat_cached_lem :
    (ctx : Context) (path : Bytes) (found : Option FileStats) (caches : Caches)
    → IsConsistent ctx caches
    → find path caches.stated_files ≡ found
    → ((stat_cached ctx path found caches).0 ≡ ctx.stat path)
      × IsConsistent ctx (stat_cached ctx path found caches).1
unfolding stat_cached
stat_cached_lem ctx path (some fs) caches c e = (sym (c.stated path fs e), c)
stat_cached_lem ctx path none caches c e = elim (Option-cases (ctx.stat path)) [
  | inl missing ↦ rw (missing, stat_cached) (refl, c)
  | inr (st, p) ↦
      rw (p, stat_cached)
        (
          refl,
          record {
            stated = λ q fs found. elim (find-cons q path st fs caches.stated_files found) [
              | inl (same_path, same) ↦ rw (← same_path, ← same) p
              | inr older ↦ c.stated q fs older
            ];
            hashed = c.hashed;
          },
        )
]

compare_file_lem :
    (ctx : Context) (fi : FileInfo) (path : Bytes) (r : Option FileStats × Caches)
    → r.0 ≡ ctx.stat path
    → IsConsistent ctx r.1
    → Judged ctx (unchanged ctx fi path) (compare_file ctx fi path r)
unfolding compare_file unchanged
compare_file_lem ctx fi path (none, caches) e c = rw (← e, unchanged) (refl, c)
compare_file_lem ctx fi path (some fs, caches) e c =
    rw (← e, unchanged) (compare_stat ctx fi path fs caches (sym e) c)

-- With caches that hold what the calls would give, the comparison of a file with its record
-- gives the verdict that is defined without caches, and leaves caches that hold what the calls
-- would give.
pub file_matches_lem :
    (ctx : Context) (fi : FileInfo) (path : Bytes) (caches : Caches)
    → IsConsistent ctx caches
    → Judged ctx (unchanged ctx fi path) (file_matches ctx fi path caches)
unfolding file_matches
file_matches_lem ctx fi path caches c =
    let (e, c') = stat_cached_lem ctx path (find path caches.stated_files) caches c refl in
    compare_file_lem ctx fi path _ e c'
