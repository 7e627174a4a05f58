-- ===== src/Config/Sloppy.antt =====
-- Sloppiness as text (src/Config.cpp, parse_sloppiness and format_sloppiness).
pub mod Names
pub mod RoundTrip
use ccache.Prelude.{
  ◌-◌, Bool, true, false, Bytes, List, [], ◌∷◌, ◌++◌, Option, none, some, length, take, eq_bytes,
  ◌||◌, if◌then◌else◌, codes,
}
use ccache.Tokenizer.{split_into}
use ccache.Config.Settings.{Sloppiness, no_sloppiness}

-- The body of the loop of parse_sloppiness.
unfoldable pub insert_token : Bytes → Sloppiness → Sloppiness
insert_token token result =
    if eq_bytes token (codes "clang_index_store")
    then record result { clang_index_store = true }
    else if eq_bytes token (codes "file_stat_matches")
    then record result { file_stat_matches = true }
    else if eq_bytes token (codes "file_stat_matches_ctime")
    then record result { file_stat_matches_ctime = true }
    else if eq_bytes token (codes "gcno_cwd")
    then record result { gcno_cwd = true }
    else if eq_bytes token (codes "include_file_ctime")
    then record result { include_file_ctime = true }
    else if eq_bytes token (codes "include_file_mtime")
    then record result { include_file_mtime = true }
    else if eq_bytes token (codes "ivfsoverlay")
    then record result { ivfsoverlay = true }
    else if eq_bytes token (codes "locale")
    then record result { locale = true }
    else if eq_bytes token (codes "modules")
    then record result { modules = true }
    else if eq_bytes token (codes "pch_defines")
    then record result { pch_defines = true }
    else if eq_bytes token (codes "random_seed")
    then record result { random_seed = true }
    else if eq_bytes token (codes "system_headers") || eq_bytes token (codes "no_system_headers")
    then record result { system_headers = true }
    else if eq_bytes token (codes "time_macros")
    then record result { time_macros = true }
    else result

unfoldable pub insert_tokens : List Bytes → Sloppiness → Sloppiness
insert_tokens [] result = result
insert_tokens (token ∷ tokens) result = insert_tokens tokens (insert_token token result)

-- `none` does not occur: split_into ends for every text.
unfoldable pub insert_all : Option (List Bytes) → Sloppiness
unfolding insert_tokens
insert_all none = no_sloppiness
insert_all (some tokens) = insert_tokens tokens no_sloppiness

unfoldable pub parse_sloppiness : Bytes → Sloppiness
unfolding insert_all
parse_sloppiness value = insert_all (split_into value (codes ", ") true false)

unfoldable pub put_name : Bool → Bytes → Bytes
put_name contained name = if contained then name ++ codes ", " else []

-- Strip last ", "; nothing is stripped where there is nothing.
unfoldable pub strip_last : Bytes → Bytes
strip_last result = take (length result - 2) result

unfoldable pub format_sloppiness : Sloppiness → Bytes
unfolding strip_last put_name
format_sloppiness s = strip_last (
    put_name s.clang_index_store (codes "clang_index_store")
    ++ (put_name s.file_stat_matches (codes "file_stat_matches")
        ++ (put_name s.file_stat_matches_ctime (codes "file_stat_matches_ctime")
            ++ (put_name s.gcno_cwd (codes "gcno_cwd")
                ++ (put_name s.include_file_ctime (codes "include_file_ctime")
                    ++ (put_name s.include_file_mtime (codes "include_file_mtime")
                        ++ (put_name s.ivfsoverlay (codes "ivfsoverlay")
                            ++ (put_name s.locale (codes "locale")
                                ++ (put_name s.modules (codes "modules")
                                    ++ (put_name s.pch_defines (codes "pch_defines")
                                        ++ (put_name s.random_seed (codes "random_seed")
                                            ++ (put_name s.system_headers (codes "system_headers")
                                                ++ (put_name s.time_macros
                                                    (codes "time_macros"))))))))))))))
