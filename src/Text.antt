-- ===== src/Text.antt =====
-- Texts that are quoted, encoded and decoded (src/util/string.cpp).
pub mod Command
pub mod Percent
pub mod Values
use ccache.Prelude.{
  ℕ, zero, suc, ◌+◌, ◌-◌, ◌*◌, ◌/◌, ◌%◌, Bool, true, false, Bytes, List, [], ◌∷◌, ◌++◌, Option,
  none, some, length, get_or, take, replicate, ltb, leb, ◌==◌, ◌&&◌, ◌||◌, not, if◌then◌else◌,
  codes,
}
use ccache.Decimal.{is_digit}

-- The loop of format_argv_as_win32_command_string over one argument; `bs` backslashes are pending.
unfoldable pub quote_rest : Bool → ℕ → Bytes → Bytes
quote_rest escape_backslashes bs [] = replicate (bs * 2) b'\\'
quote_rest escape_backslashes bs (c ∷ arg) =
    let pending = quote_rest escape_backslashes (bs + 1) arg in
    let rest = quote_rest escape_backslashes 0 arg in
    if (c == b'\\') && not escape_backslashes
    then pending
    else if (c == b'\\') || (c == b'"')
    then replicate (bs * 2 + 1) b'\\' ++ (c ∷ rest)
    else replicate bs b'\\' ++ (c ∷ rest)

unfoldable pub quote_args : Bool → List Bytes → Bytes
unfolding quote_rest
quote_args escape_backslashes [] = []
quote_args escape_backslashes (arg ∷ args) =
    b'"'
    ∷ (quote_rest escape_backslashes 0 arg ++ (b'"' ∷ b' ' ∷ quote_args escape_backslashes args))

-- The arguments are `argv` behind the prefix, where that is not empty; there must be one.
unfoldable pub format_argv_as_win32_command_string : List Bytes → Bytes → Bool → Bytes
unfolding quote_args
format_argv_as_win32_command_string argv [] escape_backslashes =
    let result = quote_args escape_backslashes argv in take (length result - 1) result
format_argv_as_win32_command_string argv (c ∷ prefix) escape_backslashes =
    let result = quote_args escape_backslashes ((c ∷ prefix) ∷ argv) in
    take (length result - 1) result

abbrev base16_digits : Bytes
base16_digits = codes "0123456789abcdef"

-- The digit of a number below 16.
unfoldable pub hex_digit : ℕ → ℕ
hex_digit n = get_or base16_digits n 0

unfoldable pub format_base16 : Bytes → Bytes
unfolding hex_digit
format_base16 [] = []
format_base16 (b ∷ bytes) = hex_digit (b / 16) ∷ hex_digit (b % 16) ∷ format_base16 bytes

unfoldable pub is_hex_digit : ℕ → Bool
unfolding is_digit
is_hex_digit c = is_digit c || (leb b'a' c && leb c b'f') || (leb b'A' c && leb c b'F')

-- std::tolower of a letter.
unfoldable pub from_hex : ℕ → ℕ
unfolding is_digit
from_hex c = if is_digit c then c - b'0' else (if leb c b'Z' then c + 32 else c) - b'a' + 10

-- The value of two digits, or the error that there are none.
unfoldable pub decode_pair : Bytes → Option ℕ
unfolding is_hex_digit from_hex
decode_pair [] = none
decode_pair (h ∷ []) = none
decode_pair (h ∷ l ∷ s) =
    if is_hex_digit h && is_hex_digit l then some (from_hex h * 16 + from_hex l) else none

-- What is put in front of the decoded rest; an error of the rest stays one.
unfoldable pub put_decoded : Option ℕ → Option Bytes → Option Bytes
put_decoded none rest = none
put_decoded (some c) none = none
put_decoded (some c) (some result) = some (c ∷ result)

-- percent_decode; `skip` characters are passed over, and an error's message is not kept.
unfoldable pub decode_from : ℕ → Bytes → Option Bytes
unfolding decode_pair put_decoded
decode_from skip [] = some []
decode_from (suc skip) (c ∷ s) = decode_from skip s
decode_from zero (c ∷ s) =
    let plain = decode_from 0 s in
    let coded = decode_from 2 s in
    if c == b'%' then put_decoded (decode_pair s) coded else put_decoded (some c) plain

unfoldable pub percent_decode : Bytes → Option Bytes
unfolding decode_from
percent_decode string = decode_from 0 string
