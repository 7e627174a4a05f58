-- ===== src/Text/Command/Program.antt =====
-- About the program name in front of the arguments in a command string (src/util/string.cpp:
-- format_argv_as_win32_command_string).
use mathlib.Core.Path.{subst}
use ccache.Prelude.{
  ℕ, ◌+◌, ◌≡◌, refl, sym, ap, ◌∙◌, false, Bool-cases, inl, inr, Bytes, List, [], ◌∷◌, ◌++◌,
  append_assoc, append-nil, Option, none, some, ◌==◌, if◌then◌else◌, All,
}
use ccache.Text.{quote_rest, format_argv_as_win32_command_string}
use ccache.Text.Command.{
  backslashes, one_more, is_equal, Parses, text_of, text_of-Parses, format_argv-text_of,
}

-- How the C run-time library is documented to read a quoted program name: up to the next quote,
-- where a backslash means nothing. `read` is what was read of it; the result is the program name
-- and what follows it.
pub program_name : Bytes → Bytes → Option (Bytes × Bytes)
program_name read [] = none
program_name read (c ∷ s) =
    let more = program_name (read ++ (c ∷ [])) s in if c == b'"' then some (read, s) else more

-- The quoted program name of a command line, and its arguments.
pub data IsCommand : Bytes → List Bytes → Type 0 where
  alone :
      (s program : Bytes)
      → program_name [] s ≡ some (program, [])
      → IsCommand (b'"' ∷ s) (program ∷ [])
  followed :
      (s program rest : Bytes) (args : List Bytes)
      → program_name [] s ≡ some (program, b' ' ∷ rest)
      → Parses rest args
      → IsCommand (b'"' ∷ s) (program ∷ args)

abbrev pub HasNoQuote : Bytes → Type 0
HasNoQuote s = All (λ (c : ℕ). (c == b'"') ≡ false) s

program_name-append :
    (read program rest : Bytes)
    → HasNoQuote program
    → program_name read (program ++ (b'"' ∷ rest)) ≡ some (read ++ program, rest)
unfolding program_name
program_name-append read [] rest h = ap (λ (t : Bytes). some (t, rest)) (sym (append-nil read))
program_name-append read (c ∷ program) rest (p, h) = rw p (
    program_name-append (read ++ (c ∷ [])) program rest h
    ∙ ap (λ (t : Bytes). some (t, rest)) (append_assoc read (c ∷ []) program))

-- Such an argument is written as it is.
quote_rest-plain :
    (front : Bytes) (last bs : ℕ)
    → HasNoQuote front
    → (last == b'"') ≡ false
    → (last == b'\\') ≡ false
    → quote_rest false bs (front ++ (last ∷ [])) ≡ backslashes bs ++ (front ++ (last ∷ []))
unfolding quote_rest
quote_rest-plain [] last bs h q b = rw (b, q) refl
quote_rest-plain (c ∷ front) last bs (p, h) q b = elim (Bool-cases (c == b'\\')) [
  | inl back ↦ rw back (
      quote_rest-plain front last (bs + 1) h q b
      ∙ one_more bs (front ++ (last ∷ []))
      ∙ ap (λ (k : ℕ). backslashes bs ++ (k ∷ (front ++ (last ∷ []))))
          (sym (is_equal c b'\\' back)))
  | inr other ↦
      rw (other, p)
        (ap (λ (t : Bytes). backslashes bs ++ (c ∷ t)) (quote_rest-plain front last 0 h q b))
]

text_of-IsCommand :
    (program : Bytes) (args : List Bytes)
    → HasNoQuote program
    → quote_rest false 0 program ≡ program
    → IsCommand (text_of false program args) (program ∷ args)
unfolding text_of
text_of-IsCommand program [] h e = rw e (alone _ program (program_name-append [] program [] h))
text_of-IsCommand program (second ∷ args) h e = rw e (
    followed _ program (text_of false second args) (second ∷ args)
      (program_name-append [] program (b' ' ∷ text_of false second args) h)
      (text_of-Parses second args))

HasNoQuote-append :
    (front : Bytes) (last : ℕ)
    → HasNoQuote front
    → (last == b'"') ≡ false
    → HasNoQuote (front ++ (last ∷ []))
HasNoQuote-append [] last h q = (q, tt)
HasNoQuote-append (c ∷ front) last (p, h) q = (p, HasNoQuote-append front last h q)

-- For a program name that is not empty, has no quote and does not end in a backslash, and any
-- further arguments, whatever their characters: the command string, without a prefix and without
-- the escaping of backslashes for files of arguments, is taken apart into the program name and
-- those arguments by the documented rules of the C run-time library, which read the program name
-- up to its closing quote and give quotes and backslashes a meaning in the arguments behind it.
pub format_argv-IsCommand :
    (front : Bytes) (last : ℕ) (args : List Bytes)
    → HasNoQuote front
    → (last == b'"') ≡ false
    → (last == b'\\') ≡ false
    → IsCommand
        (format_argv_as_win32_command_string ((front ++ (last ∷ [])) ∷ args) [] false)
        ((front ++ (last ∷ [])) ∷ args)
format_argv-IsCommand front last args h q b =
    subst (λ t. IsCommand t ((front ++ (last ∷ [])) ∷ args))
      (sym (format_argv-text_of false (front ++ (last ∷ [])) args))
      (text_of-IsCommand (front ++ (last ∷ [])) args (HasNoQuote-append front last h q)
        (quote_rest-plain front last 0 h q b))
