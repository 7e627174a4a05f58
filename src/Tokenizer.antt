-- ===== src/Tokenizer.antt =====
-- Splitting a text at delimiters (src/util/Tokenizer.cpp, src/util/Tokenizer.hpp, and split_into of
-- src/util/string.cpp).
pub mod Joined
use ccache.Prelude.{
  ℕ, zero, suc, ◌+◌, Bool, true, false, Bytes, List, [], ◌∷◌, ◌++◌, Option, none, some, take,
  length, ◌==◌, ◌&&◌, ◌||◌, if◌then◌else◌,
}

-- The positions m_left and m_right, as the text between them and the text from m_right on; `at_end`
-- is that m_left is npos.
pub data Iterator : Type 0 where
  at_end : Iterator
  at : (token rest : Bytes) → Iterator

unfoldable pub is_delimiter : Bytes → ℕ → Bool
is_delimiter [] c = false
is_delimiter (d ∷ delimiters) c = (c == d) || is_delimiter delimiters c

-- The text up to the character that find_first_of finds, and the text from it on.
unfoldable pub token_of : Bytes → Bytes → Bytes
token_of delimiters [] = []
token_of delimiters (c ∷ string) =
    let rest = token_of delimiters string in if is_delimiter delimiters c then [] else c ∷ rest

unfoldable pub rest_of : Bytes → Bytes → Bytes
rest_of delimiters [] = []
rest_of delimiters (c ∷ string) =
    let rest = rest_of delimiters string in if is_delimiter delimiters c then c ∷ string else rest

unfoldable pub place : Bytes → Bytes → Iterator
place delimiters string = at (token_of delimiters string) (rest_of delimiters string)

-- One round of the loop of advance that is not the initial one.
unfoldable pub move : Bytes → Iterator → Iterator
move delimiters at_end = at_end
move delimiters (at token []) = at_end
move delimiters (at token (d ∷ string)) = place delimiters string

-- The condition of the loop.
unfoldable pub is_skipped : Bool → Iterator → Bool
is_skipped skip_empty at_end = false
is_skipped skip_empty (at [] rest) = skip_empty
is_skipped skip_empty (at (c ∷ token) rest) = false

-- The rest of the loop after a round; `none` is that the rounds run out.
unfoldable pub settle : ℕ → Bytes → Bool → Iterator → Option Iterator
settle zero delimiters skip_empty it = none
settle (suc rounds) delimiters skip_empty it =
    let further = settle rounds delimiters skip_empty (move delimiters it) in
    if is_skipped skip_empty it then further else some it

unfoldable pub deref : Bool → Bytes → Bytes → Bytes
deref include_delimiter token rest = if include_delimiter then token ++ take 1 rest else token

unfoldable pub cons_token : Bytes → Option (List Bytes) → Option (List Bytes)
cons_token token none = none
cons_token token (some tokens) = some (token ∷ tokens)

-- The loop of split_into from an iterator; `rounds` is for this loop and for each advance.
unfoldable pub collect : ℕ → Bytes → Bool → Bool → Option Iterator → Option (List Bytes)
collect zero delimiters skip_empty include_delimiter it = none
collect (suc rounds) delimiters skip_empty include_delimiter none = none
collect (suc rounds) delimiters skip_empty include_delimiter (some at_end) = some []
collect (suc rounds) delimiters skip_empty include_delimiter (some (at token rest)) =
    cons_token (deref include_delimiter token rest) (
      collect rounds delimiters skip_empty include_delimiter
        (settle (suc rounds) delimiters skip_empty (move delimiters (at token rest))))

unfoldable pub split_into : Bytes → Bytes → Bool → Bool → Option (List Bytes)
split_into string delimiters skip_empty include_delimiter =
    collect (length string + 2) delimiters skip_empty include_delimiter
      (settle (length string + 2) delimiters skip_empty (place delimiters string))
