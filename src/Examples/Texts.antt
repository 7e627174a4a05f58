-- ===== src/Examples/Texts.antt =====
-- Command lines, argument files, dependency files and encoded texts (src/util/string.cpp,
-- src/Args.cpp, src/Depfile.cpp, src/util/Tokenizer.cpp).
use ccache.Prelude.{
  ◌<◌, ◌≤◌, ◌≡◌, refl, true, false, Bytes, List, [], ◌∷◌, ◌++◌, none, some, length, arith, codes,
}
use ccache.Decimal.{is_space}
use ccache.Tokenizer.{split_into}
use ccache.Tokenizer.Joined.{concat, concat-split_into}
use ccache.Text.{format_argv_as_win32_command_string, quote_args, quote_rest}
use ccache.Text.Command.Program.{IsCommand, format_argv-IsCommand}
use ccache.Args.{gcc, from_atfile}
use ccache.Args.AtFile.{IsArgument, from_atfile-format_argv}
use ccache.Depfile.{is_blank, tokenize, tokenize_loop, escape_filename, escape_char, is_escaped}
use ccache.Depfile.RoundTrip.{IsName, rule, tokenize-rule, tokenize_stuck}

-- c:\x\ with a backslash at its end, and an argument with a quote and a space.
abbrev path_arg : Bytes
path_arg = b'c' ∷ b':' ∷ b'\\' ∷ b'x' ∷ b'\\' ∷ []

abbrev quote_arg : Bytes
quote_arg = b'a' ∷ b'\\' ∷ b'"' ∷ b' ' ∷ b'b' ∷ []

-- A program c:\x\cl, and three arguments, the last of which is empty.
program_example :
    IsCommand
      (format_argv_as_win32_command_string
        ((path_arg ++ (b'c' ∷ b'l' ∷ [])) ∷ path_arg ∷ quote_arg ∷ [] ∷ [])
        []
        false)
      ((path_arg ++ (b'c' ∷ b'l' ∷ [])) ∷ path_arg ∷ quote_arg ∷ [] ∷ [])
program_example =
    format_argv-IsCommand (path_arg ++ (b'c' ∷ [])) b'l' (path_arg ∷ quote_arg ∷ [] ∷ [])
      (refl, (refl, (refl, (refl, (refl, (refl, tt)))))) refl refl

path_arg-IsArgument : IsArgument path_arg
path_arg-IsArgument = record {
  filled = λ e. cc;
  no_nul = (refl, (refl, (refl, (refl, (refl, tt)))));
}

quote_arg-IsArgument : IsArgument quote_arg
quote_arg-IsArgument = record {
  filled = λ e. cc;
  no_nul = (refl, (refl, (refl, (refl, (refl, tt)))));
}

at_file_example :
    from_atfile 100 gcc (format_argv_as_win32_command_string (path_arg ∷ quote_arg ∷ []) [] true)
    ≡ some (path_arg ∷ quote_arg ∷ [])
at_file_example =
    from_atfile-format_argv path_arg (quote_arg ∷ []) 100 path_arg-IsArgument
      (quote_arg-IsArgument, tt) fits
  where
    fits : length (format_argv_as_win32_command_string (path_arg ∷ quote_arg ∷ []) [] true) < 100
    fits = unfold format_argv_as_win32_command_string quote_args quote_rest in omega arith

-- A target and prerequisites with a space, a dollar sign and a colon.
abbrev target_name : Bytes
target_name = codes "a.o"

abbrev odd_name : Bytes
odd_name = b'x' ∷ b' ' ∷ b'$' ∷ b':' ∷ []

target-IsName : IsName target_name
unfolding is_blank is_space
target-IsName = record { plain = (refl, (refl, (refl, tt))); visible = refl }

odd-IsName : IsName odd_name
unfolding is_blank is_space
odd-IsName = record { plain = (refl, (refl, (refl, (refl, tt)))); visible = refl }

rule_example :
    tokenize 40 (rule target_name (odd_name ∷ target_name ∷ []))
    ≡ some ((target_name ++ b':' ∷ []) ∷ odd_name ∷ target_name ∷ [])
rule_example =
    tokenize-rule target_name (odd_name ∷ target_name ∷ []) 40 target-IsName
      (odd-IsName, (target-IsName, tt)) fits
  where
    fits : length (rule target_name (odd_name ∷ target_name ∷ [])) ≤ 40
    fits = unfold escape_filename escape_char is_escaped in omega arith

-- The second colon of a::b is such a colon.
stuck_example : tokenize_loop 1000 (codes ":b") [] (codes "a:" ∷ []) ≡ none
stuck_example = tokenize_stuck 1000 (codes "b") [] (codes "a:" ∷ []) (unfold is_blank in refl)

tokens_example :
    (tokens : List Bytes) × (split_into (codes "a,,b") (codes ",") false true ≡ some tokens)
    × (concat tokens ≡ codes "a,,b")
tokens_example = concat-split_into (codes ",") (codes "a,,b")
