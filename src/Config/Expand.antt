-- ===== src/Config/Expand.antt =====
-- Environment variables in a value (src/util/environment.cpp, expand_environment_variables).
pub mod Escaped
use ccache.Prelude.{
  ℕ, zero, suc, ◌+◌, Bool, true, false, Bytes, List, [], ◌∷◌, ◌++◌, Option, none, some, length,
  drop, leb, ◌==◌, ◌&&◌, ◌||◌, not, if◌then◌else◌,
}
use ccache.Text.Values.{ValueError, missing_brace, variable_not_set, Expected, unexpected, expected}
use ccache.Decimal.{is_digit}

-- isalnum(c) || c == '_', in the C locale.
unfoldable pub is_name_character : ℕ → Bool
unfolding is_digit
is_name_character c =
    is_digit c || ((leb b'a' c && leb c b'z') || ((leb b'A' c && leb c b'Z') || (c == b'_')))

unfoldable pub name_of : Bytes → Bytes
unfolding is_name_character
name_of [] = []
name_of (c ∷ s) = let rest = name_of s in if is_name_character c then c ∷ rest else []

unfoldable pub begins_with : ℕ → Bytes → Bool
begins_with c [] = false
begins_with c (d ∷ s) = d == c

-- What a dollar sign stands for: the text, and the characters behind the sign that it takes.
pub data Piece : Type 0 where
  bad : ValueError → Piece
  piece : Bytes → ℕ → Piece

unfoldable pub value_piece : Bytes → Option Bytes → ℕ → Piece
value_piece name none taken = bad (variable_not_set name)
value_piece name (some value) taken = piece value taken

unfoldable pub curly_piece : (Bytes → Option Bytes) → Bytes → Bytes → Piece
unfolding value_piece begins_with
curly_piece getenv left name =
    if not (begins_with b'}' (drop (length name) left))
    then bad (missing_brace left)
    else if length name == 0
    then piece (b'$' ∷ []) 1
    else value_piece name (getenv name) (length name + 2)

unfoldable pub plain_piece : (Bytes → Option Bytes) → Bytes → Piece
unfolding value_piece
plain_piece getenv name =
    if length name == 0 then piece (b'$' ∷ []) 0 else value_piece name (getenv name) (length name)

-- The text behind a dollar sign.
unfoldable pub piece_of : (Bytes → Option Bytes) → Bytes → Piece
unfolding curly_piece plain_piece
piece_of getenv [] = piece (b'$' ∷ []) 0
piece_of getenv (c ∷ s) =
    if c == b'$'
    then piece (b'$' ∷ []) 1
    else if c == b'{'
    then curly_piece getenv s (name_of s)
    else plain_piece getenv (name_of (c ∷ s))

unfoldable pub taken_of : Piece → ℕ
taken_of (bad e) = 0
taken_of (piece text taken) = taken

-- The first error is the one that is returned.
unfoldable pub put_piece : Piece → Expected Bytes → Expected Bytes
put_piece (bad e) rest = unexpected e
put_piece (piece text taken) (unexpected e) = unexpected e
put_piece (piece text taken) (expected rest) = expected (text ++ rest)

-- The loop; `skip` characters are passed over. The source ends at a NUL, which no text here has.
unfoldable pub expand_from : (Bytes → Option Bytes) → ℕ → Bytes → Expected Bytes
unfolding put_piece piece_of taken_of
expand_from getenv skip [] = expected []
expand_from getenv (suc skip) (c ∷ s) = expand_from getenv skip s
expand_from getenv zero (c ∷ s) =
    let plain = expand_from getenv 0 s in
    let behind = expand_from getenv (taken_of (piece_of getenv s)) s in
    if c == b'$' then put_piece (piece_of getenv s) behind else put_piece (piece (c ∷ []) 0) plain

unfoldable pub expand_environment_variables : (Bytes → Option Bytes) → Bytes → Expected Bytes
unfolding expand_from
expand_environment_variables getenv str = expand_from getenv 0 str
