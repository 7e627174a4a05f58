-- ===== src/Config/Sloppy/Names.antt =====
-- The names of the kinds of sloppiness that are set (src/Config.cpp).
use ccache.Prelude.{
  ◌≡◌, refl, ap, ◌∙◌, Bool, true, false, Bytes, List, [], ◌∷◌, eq_bytes, codes, if◌then◌else◌,
}
use ccache.Config.Settings.{Sloppiness, no_sloppiness}
use ccache.Config.Sloppy.{insert_token, insert_tokens}

unfoldable pub chosen : Bool → Bytes → List Bytes → List Bytes
chosen b name rest = if b then name ∷ rest else rest

unfoldable pub names : Sloppiness → List Bytes
names s = chosen s.clang_index_store (codes "clang_index_store") (
    chosen s.file_stat_matches (codes "file_stat_matches") (
      chosen s.file_stat_matches_ctime (codes "file_stat_matches_ctime") (
        chosen s.gcno_cwd (codes "gcno_cwd") (
          chosen s.include_file_ctime (codes "include_file_ctime") (
            chosen s.include_file_mtime (codes "include_file_mtime") (
              chosen s.ivfsoverlay (codes "ivfsoverlay") (
                chosen s.locale (codes "locale") (
                  chosen s.modules (codes "modules") (
                    chosen s.pch_defines (codes "pch_defines") (
                      chosen s.random_seed (codes "random_seed") (
                        chosen s.system_headers (codes "system_headers")
                          (chosen s.time_macros (codes "time_macros") ([])))))))))))))

insert-clang_index_store :
    (b : Bool) (rest : List Bytes) (acc : Sloppiness)
    → acc.clang_index_store ≡ false
    → insert_tokens (chosen b (codes "clang_index_store") rest) acc
      ≡ insert_tokens rest (record acc { clang_index_store = b })
unfolding insert_tokens insert_token chosen eq_bytes
insert-clang_index_store true rest acc h = refl
insert-clang_index_store false rest acc h =
    ap (λ (v : Bool). insert_tokens rest (record acc { clang_index_store = v })) h

insert-file_stat_matches :
    (b : Bool) (rest : List Bytes) (acc : Sloppiness)
    → acc.file_stat_matches ≡ false
    → insert_tokens (chosen b (codes "file_stat_matches") rest) acc
      ≡ insert_tokens rest (record acc { file_stat_matches = b })
unfolding insert_tokens insert_token chosen eq_bytes
insert-file_stat_matches true rest acc h = refl
insert-file_stat_matches false rest acc h =
    ap (λ (v : Bool). insert_tokens rest (record acc { file_stat_matches = v })) h

insert-file_stat_matches_ctime :
    (b : Bool) (rest : List Bytes) (acc : Sloppiness)
    → acc.file_stat_matches_ctime ≡ false
    → insert_tokens (chosen b (codes "file_stat_matches_ctime") rest) acc
      ≡ insert_tokens rest (record acc { file_stat_matches_ctime = b })
unfolding insert_tokens insert_token chosen eq_bytes
insert-file_stat_matches_ctime true rest acc h = refl
insert-file_stat_matches_ctime false rest acc h =
    ap (λ (v : Bool). insert_tokens rest (record acc { file_stat_matches_ctime = v })) h

insert-gcno_cwd :
    (b : Bool) (rest : List Bytes) (acc : Sloppiness)
    → acc.gcno_cwd ≡ false
    → insert_tokens (chosen b (codes "gcno_cwd") rest) acc
      ≡ insert_tokens rest (record acc { gcno_cwd = b })
unfolding insert_tokens insert_token chosen eq_bytes
insert-gcno_cwd true rest acc h = refl
insert-gcno_cwd false rest acc h =
    ap (λ (v : Bool). insert_tokens rest (record acc { gcno_cwd = v })) h

insert-include_file_ctime :
    (b : Bool) (rest : List Bytes) (acc : Sloppiness)
    → acc.include_file_ctime ≡ false
    → insert_tokens (chosen b (codes "include_file_ctime") rest) acc
      ≡ insert_tokens rest (record acc { include_file_ctime = b })
unfolding insert_tokens insert_token chosen eq_bytes
insert-include_file_ctime true rest acc h = refl
insert-include_file_ctime false rest acc h =
    ap (λ (v : Bool). insert_tokens rest (record acc { include_file_ctime = v })) h

insert-include_file_mtime :
    (b : Bool) (rest : List Bytes) (acc : Sloppiness)
    → acc.include_file_mtime ≡ false
    → insert_tokens (chosen b (codes "include_file_mtime") rest) acc
      ≡ insert_tokens rest (record acc { include_file_mtime = b })
unfolding insert_tokens insert_token chosen eq_bytes
insert-include_file_mtime true rest acc h = refl
insert-include_file_mtime false rest acc h =
    ap (λ (v : Bool). insert_tokens rest (record acc { include_file_mtime = v })) h

insert-ivfsoverlay :
    (b : Bool) (rest : List Bytes) (acc : Sloppiness)
    → acc.ivfsoverlay ≡ false
    → insert_tokens (chosen b (codes "ivfsoverlay") rest) acc
      ≡ insert_tokens rest (record acc { ivfsoverlay = b })
unfolding insert_tokens insert_token chosen eq_bytes
insert-ivfsoverlay true rest acc h = refl
insert-ivfsoverlay false rest acc h =
    ap (λ (v : Bool). insert_tokens rest (record acc { ivfsoverlay = v })) h

insert-locale :
    (b : Bool) (rest : List Bytes) (acc : Sloppiness)
    → acc.locale ≡ false
    → insert_tokens (chosen b (codes "locale") rest) acc
      ≡ insert_tokens rest (record acc { locale = b })
unfolding insert_tokens insert_token chosen eq_bytes
insert-locale true rest acc h = refl
insert-locale false rest acc h = ap (λ (v : Bool). insert_tokens rest (record acc { locale = v })) h

insert-modules :
    (b : Bool) (rest : List Bytes) (acc : Sloppiness)
    → acc.modules ≡ false
    → insert_tokens (chosen b (codes "modules") rest) acc
      ≡ insert_tokens rest (record acc { modules = b })
unfolding insert_tokens insert_token chosen eq_bytes
insert-modules true rest acc h = refl
insert-modules false rest acc h =
    ap (λ (v : Bool). insert_tokens rest (record acc { modules = v })) h

insert-pch_defines :
    (b : Bool) (rest : List Bytes) (acc : Sloppiness)
    → acc.pch_defines ≡ false
    → insert_tokens (chosen b (codes "pch_defines") rest) acc
      ≡ insert_tokens rest (record acc { pch_defines = b })
unfolding insert_tokens insert_token chosen eq_bytes
insert-pch_defines true rest acc h = refl
insert-pch_defines false rest acc h =
    ap (λ (v : Bool). insert_tokens rest (record acc { pch_defines = v })) h

insert-random_seed :
    (b : Bool) (rest : List Bytes) (acc : Sloppiness)
    → acc.random_seed ≡ false
    → insert_tokens (chosen b (codes "random_seed") rest) acc
      ≡ insert_tokens rest (record acc { random_seed = b })
unfolding insert_tokens insert_token chosen eq_bytes
insert-random_seed true rest acc h = refl
insert-random_seed false rest acc h =
    ap (λ (v : Bool). insert_tokens rest (record acc { random_seed = v })) h

insert-system_headers :
    (b : Bool) (rest : List Bytes) (acc : Sloppiness)
    → acc.system_headers ≡ false
    → insert_tokens (chosen b (codes "system_headers") rest) acc
      ≡ insert_tokens rest (record acc { system_headers = b })
unfolding insert_tokens insert_token chosen eq_bytes
insert-system_headers true rest acc h = refl
insert-system_headers false rest acc h =
    ap (λ (v : Bool). insert_tokens rest (record acc { system_headers = v })) h

insert-time_macros :
    (b : Bool) (rest : List Bytes) (acc : Sloppiness)
    → acc.time_macros ≡ false
    → insert_tokens (chosen b (codes "time_macros") rest) acc
      ≡ insert_tokens rest (record acc { time_macros = b })
unfolding insert_tokens insert_token chosen eq_bytes
insert-time_macros true rest acc h = refl
insert-time_macros false rest acc h =
    ap (λ (v : Bool). insert_tokens rest (record acc { time_macros = v })) h

pub insert_tokens-names : (s : Sloppiness) → insert_tokens (names s) no_sloppiness ≡ s
unfolding insert_tokens names
insert_tokens-names s =
    insert-clang_index_store s.clang_index_store _ _ refl
    ∙ insert-file_stat_matches s.file_stat_matches _ _ refl
    ∙ insert-file_stat_matches_ctime s.file_stat_matches_ctime _ _ refl
    ∙ insert-gcno_cwd s.gcno_cwd _ _ refl
    ∙ insert-include_file_ctime s.include_file_ctime _ _ refl
    ∙ insert-include_file_mtime s.include_file_mtime _ _ refl
    ∙ insert-ivfsoverlay s.ivfsoverlay _ _ refl
    ∙ insert-locale s.locale _ _ refl
    ∙ insert-modules s.modules _ _ refl
    ∙ insert-pch_defines s.pch_defines _ _ refl
    ∙ insert-random_seed s.random_seed _ _ refl
    ∙ insert-system_headers s.system_headers _ _ refl
    ∙ insert-time_macros s.time_macros _ _ refl
