-- ===== src/Args/AtFile.antt =====
-- About from_atfile on a text of format_argv_as_win32_command_string (src/Args.cpp,
-- src/util/string.cpp).
use mathlib.Core.Path.{subst}
use ccache.Prelude.{
  ℕ, zero, suc, ◌+◌, ◌≤◌, ◌<◌, ◌≡◌, refl, sym, ap, ◌∙◌, true, false, Bool-cases, inl, inr, Bytes,
  List, [], ◌∷◌, ◌++◌, append_assoc, append-nil, Option, some, length, length-append, ◌==◌, arith,
  All,
}
use ccache.Text.{quote_rest, format_argv_as_win32_command_string}
use ccache.Text.Command.{text_of, format_argv-text_of}
use ccache.Args.{
  AtFileFormat, gcc, State, Next, go_on, finish, put, backslash, quote, push_token, end_token,
  is_separator, round, read_on, step, read_loop, from_atfile,
}

-- An argument that has characters, none of which is 0.
pub record IsArgument (arg : Bytes) : Type 0 where
  pub filled : (arg ≡ []) → ⊥
  pub no_nul : All (λ c. (c == 0) ≡ false) arg

-- The reader inside double quotes.
abbrev inside : Bytes → Bytes → List Bytes → State
inside rest token args = record { rest = rest; token = token; quoting = b'"'; args = args }

abbrev outside : Bytes → Bytes → List Bytes → State
outside rest token args = record { rest = rest; token = token; quoting = 0; args = args }

after_backslash :
    (c : ℕ) (s token : Bytes) (args : List Bytes)
    → (c == 0) ≡ false
    → step gcc (b'\\' ∷ c ∷ s) (inside (b'\\' ∷ c ∷ s) token args)
      ≡ go_on (inside s (token ++ (c ∷ [])) args)
unfolding step round backslash put
after_backslash c s token args h = rw h refl

after_common :
    (c : ℕ) (s token : Bytes) (args : List Bytes)
    → (c == 0) ≡ false
    → (c == b'\\') ≡ false
    → (c == b'"') ≡ false
    → step gcc (c ∷ s) (inside (c ∷ s) token args) ≡ go_on (inside s (token ++ (c ∷ [])) args)
unfolding step round put quote
after_common c s token args h back quoted = elim (Bool-cases (c == b'\'')) [
  | inl single ↦ rw (back, quoted, single) (unmatched c s token args quoted)
  | inr other ↦ elim (Bool-cases (is_separator c)) [
    | inl separates ↦ rw (back, quoted, other, h, separates) refl
    | inr plain ↦ rw (back, quoted, other, h, plain) refl
  ]
]
  where
    unmatched :
        (c : ℕ) (s token : Bytes) (args : List Bytes)
        → (c == b'"') ≡ false
        → quote gcc c s (inside (c ∷ s) token args) ≡ go_on (inside s (token ++ (c ∷ [])) args)
    unmatched c s token args h =
        let e : (b'"' == c) ≡ false = ground arith in unfold quote put in rw e refl

-- One more round for each character.
abbrev later : Bytes → ℕ → ℕ
later [] rounds = rounds
later (c ∷ arg) rounds = suc (later arg rounds)

read_arg :
    (arg : Bytes) (rounds : ℕ) (rest token : Bytes) (args : List Bytes)
    → All (λ c. (c == 0) ≡ false) arg
    → read_loop (later arg rounds) gcc (inside (quote_rest true 0 arg ++ rest) token args)
      ≡ read_loop rounds gcc (inside rest (token ++ arg) args)
unfolding quote_rest read_loop read_on
read_arg [] rounds rest token args h =
    ap (λ (t : Bytes). read_loop rounds gcc (inside rest t args)) (sym (append-nil token))
read_arg (c ∷ arg) rounds rest token args (hc, h) =
    first
    ∙ (read_arg arg rounds rest (token ++ (c ∷ [])) args h
        ∙ ap (λ (t : Bytes). read_loop rounds gcc (inside rest t args))
            (append_assoc token (c ∷ []) arg))
  where
    first :
        read_loop
          (suc (later arg rounds))
          gcc
          (inside (quote_rest true 0 (c ∷ arg) ++ rest) token args)
        ≡ read_loop
            (later arg rounds)
            gcc
            (inside (quote_rest true 0 arg ++ rest) (token ++ (c ∷ [])) args)
    first = elim (Bool-cases (c == b'\\')) [
      | inl back ↦
          rw back
            (ap (read_on (read_loop (later arg rounds) gcc)) (after_backslash c _ token args hc))
      | inr other ↦ elim (Bool-cases (c == b'"')) [
        | inl quoted ↦
            rw (other, quoted)
              (ap (read_on (read_loop (later arg rounds) gcc)) (after_backslash c _ token args hc))
        | inr plain ↦
            rw (other, plain)
              (ap (read_on (read_loop (later arg rounds) gcc))
                (after_common c _ token args hc other plain))
      ]
    ]

push_filled :
    (arg : Bytes) (args : List Bytes) → IsArgument arg → push_token arg args ≡ args ++ (arg ∷ [])
unfolding push_token
push_filled [] args h = absurd (h.filled refl)
push_filled (c ∷ arg) args h = refl

rounds_of : Bytes → List Bytes → ℕ
rounds_of arg [] = suc (later arg 2)
rounds_of arg (second ∷ args) = suc (later arg (suc (suc (rounds_of second args))))

read_args :
    (arg : Bytes) (args before : List Bytes)
    → IsArgument arg
    → All IsArgument args
    → read_loop (rounds_of arg args) gcc (outside (text_of true arg args) [] before)
      ≡ some (before ++ (arg ∷ args))
unfolding text_of rounds_of read_loop read_on step round quote is_separator end_token
read_args arg [] before h hs =
    read_arg arg 2 (b'"' ∷ []) [] before h.no_nul ∙ ap some (push_filled arg before h)
read_args arg (second ∷ args) before h (h2, hs) =
    read_arg arg (suc (suc (rounds_of second args))) (b'"' ∷ b' ' ∷ text_of true second args) []
      before h.no_nul
    ∙ (ap
          (λ (before' : List Bytes).
            read_loop (rounds_of second args) gcc (outside (text_of true second args) [] before'))
          (push_filled arg before h)
        ∙ (read_args second args (before ++ (arg ∷ [])) h2 hs
            ∙ ap some (append_assoc before (arg ∷ []) (second ∷ args))))

on_next :
    (loop more : State → Option (List Bytes)) (n : Next) (args : List Bytes)
    → ((st : State) → loop st ≡ some args → more st ≡ some args)
    → read_on loop n ≡ some args
    → read_on more n ≡ some args
unfolding read_on
on_next loop more (go_on st) args k e = k st e
on_next loop more (finish args') args k e = e

more_rounds :
    (rounds more : ℕ) (format : AtFileFormat) (st : State) (args : List Bytes)
    → rounds ≤ more
    → read_loop rounds format st ≡ some args
    → read_loop more format st ≡ some args
unfolding read_loop
more_rounds zero more format st args h e = absurd (cc e)
more_rounds (suc rounds) zero format st args h e = absurd (omega arith)
more_rounds (suc rounds) (suc more) format st args h e =
    on_next (read_loop rounds format) (read_loop more format) (step format st.rest st) args
      (λ st' e'. more_rounds rounds more format st' args (omega arith) e') e

later-le : (arg : Bytes) (rounds : ℕ) → later arg rounds ≡ length arg + rounds
later-le [] rounds = omega arith
later-le (c ∷ arg) rounds = omega (arith, later-le arg rounds)

quote_rest-longer : (arg : Bytes) → length arg ≤ length (quote_rest true 0 arg)
unfolding quote_rest
quote_rest-longer [] = omega arith
quote_rest-longer (c ∷ arg) = ground (arith, quote_rest-longer arg)

rounds_of-le :
    (arg : Bytes) (args : List Bytes) → rounds_of arg args ≤ length (text_of true arg args) + 1
unfolding rounds_of text_of
rounds_of-le arg [] = omega (
  arith,
  later-le arg 2,
  length-append (quote_rest true 0 arg) (b'"' ∷ []),
  quote_rest-longer arg,
)
rounds_of-le arg (second ∷ args) = omega (
  arith,
  later-le arg (suc (suc (rounds_of second args))),
  length-append (quote_rest true 0 arg) (b'"' ∷ b' ' ∷ text_of true second args),
  quote_rest-longer arg,
  rounds_of-le second args,
)

-- Arguments that are not empty and have no character 0, formatted as a command string with
-- backslashes escaped, are the arguments that from_atfile reads from a file with that text in
-- the gcc format, in any number of rounds above the text's length.
pub from_atfile-format_argv :
    (arg : Bytes) (args : List Bytes) (rounds : ℕ)
    → IsArgument arg
    → All IsArgument args
    → length (format_argv_as_win32_command_string (arg ∷ args) [] true) < rounds
    → from_atfile rounds gcc (format_argv_as_win32_command_string (arg ∷ args) [] true)
      ≡ some (arg ∷ args)
unfolding from_atfile
from_atfile-format_argv arg args rounds h hs enough =
    subst (λ t. length t < rounds → from_atfile rounds gcc t ≡ some (arg ∷ args))
      (sym (format_argv-text_of true arg args))
      (λ fits.
        more_rounds (rounds_of arg args) rounds gcc (outside (text_of true arg args) [] []) _
          (omega (arith, rounds_of-le arg args)) (read_args arg args [] h hs))
      enough
