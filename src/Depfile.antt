-- ===== src/Depfile.antt =====
-- Dependency files in Makefile syntax (src/Depfile.cpp).
pub mod RoundTrip
use ccache.Prelude.{
  ℕ, zero, suc, ◌+◌, ◌-◌, ◌<◌, Bool, true, false, Bytes, List, [], ◌∷◌, ◌++◌, Option, none, some,
  length, get_or, drop, ltb, leb, ◌==◌, ◌&&◌, ◌||◌, not, if◌then◌else◌,
}
use ccache.Decimal.{is_space}

unfoldable pub is_blank : Bytes → Bool
unfolding is_space
is_blank [] = true
is_blank (c ∷ s) = is_space c && is_blank s

-- The characters that a backslash escapes.
unfoldable pub is_escaped : ℕ → Bool
is_escaped c = (c == b'\\') || (c == b'#') || (c == b':') || (c == b' ') || (c == 9)

unfoldable pub escape_char : ℕ → Bytes
unfolding is_escaped
escape_char c = if is_escaped c then b'\\' ∷ c ∷ [] else if c == b'$' then b'$' ∷ c ∷ [] else c ∷ []

unfoldable pub escape_filename : Bytes → Bytes
unfolding escape_char
escape_filename [] = []
escape_filename (c ∷ filename) = escape_char c ++ escape_filename filename

-- The state of tokenize: `rest` is the text from the position `p` on.
pub record State : Type 0 where
  pub rest : Bytes
  pub token : Bytes
  pub result : List Bytes

-- The first character of the text, where it has one.
unfoldable pub begins_with : ℕ → Bytes → Bool
begins_with c [] = false
begins_with c (d ∷ s) = d == c

unfoldable pub chomp : Bytes → Bytes
unfolding is_space
chomp [] = []
chomp (c ∷ s) = let rest = chomp s in if is_space c then rest else c ∷ s

-- A colon between a drive letter and a slash.
unfoldable pub is_windows_path : ℕ → Bytes → Bytes → Bool
unfolding is_blank begins_with
is_windows_path c s token =
    (c == b':')
    && not (is_blank token)
    && (length token == 1)
    && (begins_with b'/' s || begins_with b'\\' s)

-- The end of a token that is not blank; `rest` is the text behind the spaces.
unfoldable pub end_token : Bytes → Bytes → List Bytes → State
unfolding begins_with chomp
end_token rest token result =
    if begins_with b':' rest
    then record {
      rest = chomp (drop 1 rest);
      token = [];
      result = result ++ ((token ++ (b':' ∷ [])) ∷ []);
    }
    else record { rest = rest; token = []; result = result ++ (token ∷ []) }

unfoldable pub separate : Bytes → Bytes → List Bytes → State
unfolding is_blank chomp end_token
separate text token result =
    if not (is_blank token)
    then end_token (chomp text) token result
    else record { rest = chomp text; token = []; result = result }

unfoldable pub push_char : ℕ → Bytes → Bytes → List Bytes → State
push_char c rest token result = record { rest = rest; token = token ++ (c ∷ []); result = result }

-- A backslash in front of `s`.
unfoldable pub backslash : Bytes → Bytes → List Bytes → State
unfolding push_char is_escaped
backslash [] token result = push_char b'\\' [] token result
backslash (next ∷ s) token result =
    if is_escaped next
    then push_char next s token result
    else if next == 10
    then record { rest = next ∷ s; token = token; result = result }
    else push_char b'\\' (next ∷ s) token result

-- A dollar sign in front of `s`.
unfoldable pub dollar : Bytes → Bytes → List Bytes → State
unfolding push_char begins_with
dollar s token result =
    if begins_with b'$' s
    then push_char b'$' (drop 1 s) token result
    else push_char b'$' s token result

-- One round of the loop at the character `c`.
unfoldable pub round : ℕ → Bytes → Bytes → List Bytes → State
unfolding is_windows_path separate backslash dollar is_space
round c s token result =
    if is_windows_path c s token
    then push_char c s token result
    else if is_space c || (c == b':')
    then separate (c ∷ s) token result
    else if c == b'\\'
    then backslash s token result
    else if c == b'$'
    then dollar s token result
    else push_char c s token result

unfoldable pub flush : Bytes → List Bytes → List Bytes
unfolding is_blank
flush token result = if not (is_blank token) then result ++ (token ∷ []) else result

-- The loop; `none` is that the rounds ran out.
unfoldable pub tokenize_loop : ℕ → Bytes → Bytes → List Bytes → Option (List Bytes)
unfolding round flush
tokenize_loop fuel [] token result = some (flush token result)
tokenize_loop zero (c ∷ s) token result = none
tokenize_loop (suc fuel) (c ∷ s) token result =
    let next = round c s token result in tokenize_loop fuel next.rest next.token next.result

-- Depfile::tokenize in as many rounds.
unfoldable pub tokenize : ℕ → Bytes → Option (List Bytes)
unfolding tokenize_loop
tokenize rounds file_content = tokenize_loop rounds file_content [] []
