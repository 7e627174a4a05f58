-- ===== src/Config/Sloppy/RoundTrip.antt =====
-- About sloppiness that is formatted and parsed (src/Config.cpp).
use mathlib.Core.Path.{ap₂}
use ccache.Prelude.{
  not, and_true, ℕ, zero, suc, ◌+◌, ◌≤◌, ◌≡◌, refl, sym, ap, ◌∙◌, Bool, true, false, ◌&&◌, Bytes,
  List, [], ◌∷◌, ◌++◌, append_assoc, append-nil, Option, some, length, length-append,
  take_of_length, All, codes, arith,
}
use ccache.Tokenizer.{
  Iterator, at, is_delimiter, token_of, rest_of, place, move, is_skipped, settle, deref, cons_token,
  collect, split_into,
}
use ccache.Config.Settings.{Sloppiness, no_sloppiness}
use ccache.Config.Sloppy.{
  insert_tokens, insert_all, parse_sloppiness, put_name, strip_last, format_sloppiness,
}
use ccache.Config.Sloppy.Names.{chosen, names, insert_tokens-names}

abbrev delimiters : Bytes
delimiters = codes ", "

-- A token that is not empty and holds no delimiter.
record IsToken (token : Bytes) : Type 0 where
  first : ℕ
  others : Bytes
  split : token ≡ first ∷ others
  free : All (λ (c : ℕ). is_delimiter delimiters c ≡ false) token

-- What follows the first of some tokens.
tail_of : List Bytes → Bytes
tail_of [] = []
tail_of (token ∷ tokens) = b',' ∷ b' ' ∷ (token ++ tail_of tokens)

module _ (rest : Bytes)
    (stops : (token_of delimiters rest ≡ []) × (rest_of delimiters rest ≡ rest)) where
  token_of-token :
      (token : Bytes)
      → All (λ (c : ℕ). is_delimiter delimiters c ≡ false) token
      → token_of delimiters (token ++ rest) ≡ token
  unfolding token_of
  token_of-token [] h = stops.0
  token_of-token (c ∷ token) h = rw (h.0, token_of-token token h.1) refl

  rest_of-token :
      (token : Bytes)
      → All (λ (c : ℕ). is_delimiter delimiters c ≡ false) token
      → rest_of delimiters (token ++ rest) ≡ rest
  unfolding rest_of
  rest_of-token [] h = stops.1
  rest_of-token (c ∷ token) h = rw (h.0, rest_of-token token h.1) refl

tail_of-stops :
    (tokens : List Bytes)
    → (token_of delimiters (tail_of tokens) ≡ [])
      × (rest_of delimiters (tail_of tokens) ≡ tail_of tokens)
unfolding tail_of token_of rest_of is_delimiter
tail_of-stops [] = (refl, refl)
tail_of-stops (m ∷ ms) = (refl, refl)

place-tail_of :
    (token : Bytes) (tokens : List Bytes)
    → IsToken token
    → place delimiters (token ++ tail_of tokens) ≡ at token (tail_of tokens)
unfolding place
place-tail_of token tokens t =
    ap₂ at (token_of-token (tail_of tokens) (tail_of-stops tokens) token t.free)
      (rest_of-token (tail_of tokens) (tail_of-stops tokens) token t.free)

settle-token :
    (rounds : ℕ) (token rest : Bytes)
    → IsToken token
    → settle (suc rounds) delimiters true (at token rest) ≡ some (at token rest)
unfolding settle is_skipped
settle-token rounds token rest t = rw t.split refl

settle-separator :
    (rounds : ℕ) (token m : Bytes) (ms : List Bytes)
    → IsToken m
    → settle (suc (suc rounds)) delimiters true (move delimiters (at token (tail_of (m ∷ ms))))
      ≡ some (at m (tail_of ms))
unfolding tail_of move place token_of rest_of is_delimiter settle is_skipped
settle-separator rounds token m ms t =
    ap (settle (suc rounds) delimiters true) (place-tail_of m ms t)
    ∙ settle-token rounds m (tail_of ms) t

collect-tail_of :
    (rounds : ℕ) (token : Bytes) (tokens : List Bytes)
    → length tokens + 3 ≤ rounds
    → All IsToken (token ∷ tokens)
    → collect rounds delimiters true false (some (at token (tail_of tokens)))
      ≡ some (token ∷ tokens)
unfolding collect deref cons_token move settle is_skipped tail_of
collect-tail_of zero token tokens h t = absurd (omega arith)
collect-tail_of (suc zero) token tokens h t = absurd (omega arith)
collect-tail_of (suc (suc rounds)) token [] h t = refl
collect-tail_of (suc (suc rounds)) token (m ∷ ms) h t =
    ap (λ (o : Option Iterator). cons_token token (collect (suc rounds) delimiters true false o))
      (settle-separator rounds token m ms t.1.0)
    ∙ ap (cons_token token) (collect-tail_of (suc rounds) m ms (omega arith) t.1)

false_of_not : (b : Bool) → not b ≡ true → b ≡ false
false_of_not true h = cc
false_of_not false h = refl

length-tail_of : (tokens : List Bytes) → length tokens ≤ length (tail_of tokens)
unfolding tail_of
length-tail_of [] = omega arith
length-tail_of (m ∷ ms) = omega (arith, length-append m (tail_of ms), length-tail_of ms)

length-IsToken : (token : Bytes) → IsToken token → 1 ≤ length token
length-IsToken token t = rw t.split (omega arith)

split_into-tail_of :
    (token : Bytes) (tokens : List Bytes)
    → All IsToken (token ∷ tokens)
    → split_into (token ++ tail_of tokens) delimiters true false ≡ some (token ∷ tokens)
unfolding split_into
split_into-tail_of token tokens t =
    let n : length (token ++ tail_of tokens) + 2 ≡ suc (length (token ++ tail_of tokens) + 1) =
      omega arith in
    ap (collect (length (token ++ tail_of tokens) + 2) delimiters true false) (
      ap (settle (length (token ++ tail_of tokens) + 2) delimiters true)
        (place-tail_of token tokens t.0)
      ∙ ap (λ (k : ℕ). settle k delimiters true (at token (tail_of tokens))) n
      ∙ settle-token _ token (tail_of tokens) t.0)
    ∙ collect-tail_of _ token tokens
        (omega (
          arith,
          length-append token (tail_of tokens),
          length-tail_of tokens,
          length-IsToken token t.0,
        ))
        t

-- Each token with the separator behind it.
terminated : List Bytes → Bytes
terminated [] = []
terminated (token ∷ tokens) = token ++ (b',' ∷ b' ' ∷ terminated tokens)

terminated-tail_of :
    (token : Bytes) (tokens : List Bytes)
    → terminated (token ∷ tokens) ≡ (token ++ tail_of tokens) ++ codes ", "
unfolding terminated tail_of
terminated-tail_of token [] = ap (λ (t : Bytes). t ++ codes ", ") (sym (append-nil token))
terminated-tail_of token (m ∷ ms) =
    ap (λ (t : Bytes). token ++ (b',' ∷ b' ' ∷ t)) (terminated-tail_of m ms)
    ∙ sym (append_assoc token (tail_of (m ∷ ms)) (codes ", "))

strip_last-terminated :
    (token : Bytes) (tokens : List Bytes)
    → strip_last (terminated (token ∷ tokens)) ≡ token ++ tail_of tokens
unfolding strip_last
strip_last-terminated token tokens = rw (terminated-tail_of token tokens) (
    take_of_length _ (token ++ tail_of tokens) (codes ", ")
      (omega (arith, length-append (token ++ tail_of tokens) (codes ", "))))

put_name-terminated :
    (b : Bool) (name text : Bytes) (rest : List Bytes)
    → text ≡ terminated rest
    → put_name b name ++ text ≡ terminated (chosen b name rest)
unfolding put_name terminated chosen
put_name-terminated true name text rest h =
    append_assoc name (codes ", ") text ∙ ap (λ (t : Bytes). name ++ (b',' ∷ b' ' ∷ t)) h
put_name-terminated false name text rest h = h

put_name-last : (b : Bool) (name : Bytes) → put_name b name ≡ terminated (chosen b name [])
unfolding terminated
put_name-last b name = sym (append-nil (put_name b name)) ∙ put_name-terminated b name [] [] refl

format_sloppiness-names : (s : Sloppiness) → format_sloppiness s ≡ strip_last (terminated (names s))
unfolding format_sloppiness names
format_sloppiness-names s = ap strip_last (
    put_name-terminated s.clang_index_store (codes "clang_index_store") _ _ (
      put_name-terminated s.file_stat_matches (codes "file_stat_matches") _ _ (
        put_name-terminated s.file_stat_matches_ctime (codes "file_stat_matches_ctime") _ _ (
          put_name-terminated s.gcno_cwd (codes "gcno_cwd") _ _ (
            put_name-terminated s.include_file_ctime (codes "include_file_ctime") _ _ (
              put_name-terminated s.include_file_mtime (codes "include_file_mtime") _ _ (
                put_name-terminated s.ivfsoverlay (codes "ivfsoverlay") _ _ (
                  put_name-terminated s.locale (codes "locale") _ _ (
                    put_name-terminated s.modules (codes "modules") _ _ (
                      put_name-terminated s.pch_defines (codes "pch_defines") _ _ (
                        put_name-terminated s.random_seed (codes "random_seed") _ _ (
                          put_name-terminated s.system_headers (codes "system_headers") _ _
                            (put_name-last s.time_macros (codes "time_macros"))))))))))))))

is_free : Bytes → Bool
is_free [] = true
is_free (c ∷ token) = not (is_delimiter delimiters c) && is_free token

is_token : Bytes → Bool
is_token [] = false
is_token (c ∷ token) = is_free (c ∷ token)

is_free_lem :
    (token : Bytes)
    → is_free token ≡ true
    → All (λ (c : ℕ). is_delimiter delimiters c ≡ false) token
unfolding is_free
is_free_lem [] h = tt
is_free_lem (c ∷ token) h =
    (false_of_not _ (and_true _ _ h).0, is_free_lem token (and_true _ _ h).1)

is_token-IsToken : (token : Bytes) → is_token token ≡ true → IsToken token
unfolding is_token
is_token-IsToken [] h = cc
is_token-IsToken (c ∷ token) h = record {
  first = c;
  others = token;
  split = refl;
  free = is_free_lem (c ∷ token) h;
}

chosen-IsToken :
    (b : Bool) (name : Bytes) (rest : List Bytes)
    → is_token name ≡ true
    → All IsToken rest
    → All IsToken (chosen b name rest)
unfolding chosen
chosen-IsToken true name rest h t = (is_token-IsToken name h, t)
chosen-IsToken false name rest h t = t

names-IsToken : (s : Sloppiness) → All IsToken (names s)
unfolding names is_token is_free is_delimiter
names-IsToken s =
    (chosen-IsToken s.clang_index_store (codes "clang_index_store") _ refl (
      chosen-IsToken s.file_stat_matches (codes "file_stat_matches") _ refl (
        chosen-IsToken s.file_stat_matches_ctime (codes "file_stat_matches_ctime") _ refl (
          chosen-IsToken s.gcno_cwd (codes "gcno_cwd") _ refl (
            chosen-IsToken s.include_file_ctime (codes "include_file_ctime") _ refl (
              chosen-IsToken s.include_file_mtime (codes "include_file_mtime") _ refl (
                chosen-IsToken s.ivfsoverlay (codes "ivfsoverlay") _ refl (
                  chosen-IsToken s.locale (codes "locale") _ refl (
                    chosen-IsToken s.modules (codes "modules") _ refl (
                      chosen-IsToken s.pch_defines (codes "pch_defines") _ refl (
                        chosen-IsToken s.random_seed (codes "random_seed") _ refl (
                          chosen-IsToken s.system_headers (codes "system_headers") _ refl (
                            chosen-IsToken s.time_macros (codes "time_macros") _ refl
                              tt)))))))))))))

nothing_lem : parse_sloppiness (strip_last (terminated [])) ≡ no_sloppiness
unfolding parse_sloppiness strip_last terminated split_into collect settle place token_of rest_of
    is_skipped move insert_all insert_tokens
nothing_lem = refl

parse_sloppiness-tokens :
    (tokens : List Bytes)
    → All IsToken tokens
    → parse_sloppiness (strip_last (terminated tokens)) ≡ insert_tokens tokens no_sloppiness
unfolding parse_sloppiness insert_all insert_tokens
parse_sloppiness-tokens [] t = nothing_lem
parse_sloppiness-tokens (token ∷ tokens) t =
    ap (λ (u : Bytes). insert_all (split_into u delimiters true false))
      (strip_last-terminated token tokens)
    ∙ ap insert_all (split_into-tail_of token tokens t)

-- Every set of kinds of sloppiness that is formatted is parsed back as that set.
pub parse_sloppiness-format_sloppiness :
    (s : Sloppiness) → parse_sloppiness (format_sloppiness s) ≡ s
parse_sloppiness-format_sloppiness s =
    ap parse_sloppiness (format_sloppiness-names s)
    ∙ parse_sloppiness-tokens (names s) (names-IsToken s)
    ∙ insert_tokens-names s
