-- ===== src/Args.antt =====
-- Lists of arguments, and the files that hold them (src/Args.cpp).
pub mod AtFile
use ccache.Prelude.{
  ℕ, zero, suc, ◌+◌, ◌-◌, ◌*◌, ◌/◌, ◌%◌, Bool, true, false, Bytes, List, [], ◌∷◌, ◌++◌, Option,
  none, some, length, take, drop, set, get_or, replicate, eq_bytes, ltb, ◌==◌, ◌&&◌, ◌||◌, not,
  if◌then◌else◌,
}

pub data AtFileFormat : Type 0 where
  gcc msvc : AtFileFormat

-- The state of the loop of from_atfile: the text from `pos` on, the token in `argbuf`, the quoting
-- character or 0, and the arguments.
pub record State : Type 0 where
  pub rest : Bytes
  pub token : Bytes
  pub quoting : ℕ
  pub args : List Bytes

-- A round goes on or returns.
pub data Next : Type 0 where
  go_on : State → Next
  finish : List Bytes → Next

-- The end of the loop's body: the character is put behind the token.
unfoldable pub put : ℕ → Bytes → State → Next
put c rest st = go_on (record st { rest = rest; token = st.token ++ (c ∷ []) })

unfoldable pub begins_with : ℕ → Bytes → Bool
begins_with c [] = false
begins_with c (d ∷ s) = d == c

unfoldable pub count_backslashes : Bytes → ℕ
count_backslashes [] = 0
count_backslashes (c ∷ s) = let more = count_backslashes s in if c == b'\\' then suc more else 0

unfoldable pub put_backslashes : ℕ → Bytes → State → Next
put_backslashes n rest st = go_on (record st { rest = rest; token = st.token ++ replicate n b'\\' })

-- A backslash in front of `s`; the text ends at a character 0.
unfoldable pub backslash : AtFileFormat → Bytes → State → Next
unfolding put begins_with count_backslashes put_backslashes
backslash gcc [] st = go_on (record st { rest = [] })
backslash gcc (c ∷ s) st = if c == 0 then go_on (record st { rest = c ∷ s }) else put c s st
backslash msvc s st =
    let count = suc (count_backslashes s) in
    let behind = drop (count_backslashes s) s in
    if begins_with b'"' behind
    then (if count == 1
        then put b'"' (drop 1 behind) st
        else if count % 2 == 0
        then put_backslashes (count / 2) behind st
        else put_backslashes (count / 2) (b'\\' ∷ behind) st)
    else put_backslashes count behind st

abbrev is_msvc : AtFileFormat → Bool
is_msvc gcc = false
is_msvc msvc = true

-- A quoting character in front of `s`.
unfoldable pub quote : AtFileFormat → ℕ → Bytes → State → Next
unfolding put begins_with
quote format c s st =
    if st.quoting == 0
    then go_on (record st { rest = s; quoting = c })
    else if st.quoting == c
    then (if is_msvc format && begins_with b'"' s
        then put b'"' (drop 1 s) (record st { quoting = 0 })
        else go_on (record st { rest = s; quoting = 0 }))
    else put c s st

unfoldable pub push_token : Bytes → List Bytes → List Bytes
push_token [] args = args
push_token (c ∷ token) args = args ++ ((c ∷ token) ∷ [])

-- The end of a token, in front of `s`.
unfoldable pub end_token : Bytes → State → Next
unfolding push_token
end_token s st = go_on (record st { rest = s; token = []; args = push_token st.token st.args })

unfoldable pub is_separator : ℕ → Bool
is_separator c = (c == 10) || (c == 13) || (c == 9) || (c == b' ')

-- The body of the loop at a character `c`.
unfoldable pub round : AtFileFormat → ℕ → Bytes → State → Next
unfolding backslash quote end_token is_separator put push_token
round format c s st =
    if c == b'\\'
    then backslash format s st
    else if (c == b'\'') && not (is_msvc format) || (c == b'"')
    then quote format c s st
    else if c == 0
    then finish (push_token st.token st.args)
    else if is_separator c && (st.quoting == 0)
    then end_token s st
    else put c s st

unfoldable pub read_on : (State → Option (List Bytes)) → Next → Option (List Bytes)
read_on loop (go_on st) = loop st
read_on loop (finish args) = some args

-- The body of the loop at the text's end and elsewhere.
unfoldable pub step : AtFileFormat → Bytes → State → Next
unfolding round push_token
step format [] st = finish (push_token st.token st.args)
step format (c ∷ s) st = round format c s st

-- The loop; `none` is that the rounds ran out.
unfoldable pub read_loop : ℕ → AtFileFormat → State → Option (List Bytes)
unfolding step read_on
read_loop zero format st = none
read_loop (suc rounds) format st = read_on (read_loop rounds format) (step format st.rest st)

-- Args::from_atfile of a file with this text, in as many rounds.
unfoldable pub from_atfile : ℕ → AtFileFormat → Bytes → Option (List Bytes)
unfolding read_loop
from_atfile rounds format argtext =
    read_loop rounds format (record { rest = argtext; token = []; quoting = 0; args = [] })
