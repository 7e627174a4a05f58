-- ===== src/Text/Command.antt =====
-- About the arguments in a command string (src/util/string.cpp:
-- format_argv_as_win32_command_string).
pub mod Program
use ccache.Prelude.{
  ℕ, zero, suc, ◌+◌, ◌-◌, ◌*◌, ◌/◌, ◌%◌, ◌≡◌, refl, sym, ap, ◌∙◌, Bool, true, false, Bool-cases,
  inl, inr, Bytes, List, [], ◌∷◌, ◌++◌, append_assoc, append-nil, Option, none, some, length,
  length-append, take, take_of_length, replicate, ◌==◌, if◌then◌else◌, arith,
}
use ccache.Text.{quote_rest, quote_args, format_argv_as_win32_command_string}

abbrev pub backslashes : ℕ → Bytes
backslashes n = replicate n b'\\'

-- How Windows programs read a quoted argument, as the C run-time library documents it: of an even
-- number of backslashes in front of a quote half are kept and the quote ends the argument, of an
-- odd number half are kept and the quote belongs to it, and others are kept as they are.
-- `bs` backslashes have been read behind `arg`. The result is the argument and what follows it.
pub inside : ℕ → Bytes → Bytes → Option (Bytes × Bytes)
inside bs arg [] = none
inside bs arg (c ∷ s) =
    let counted = inside (bs + 1) arg s in
    let quoted = inside 0 (arg ++ (backslashes (bs / 2) ++ (b'"' ∷ []))) s in
    let plain = inside 0 (arg ++ (backslashes bs ++ (c ∷ []))) s in
    if c == b'\\'
    then counted
    else if c == b'"'
    then (if bs % 2 == 0 then some (arg ++ backslashes (bs / 2), s) else quoted)
    else plain

-- The arguments of a command line in which each argument is quoted.
pub data Parses : Bytes → List Bytes → Type 0 where
  last : (s arg : Bytes) → inside 0 [] s ≡ some (arg, []) → Parses (b'"' ∷ s) (arg ∷ [])
  next :
      (s arg rest : Bytes) (args : List Bytes)
      → inside 0 [] s ≡ some (arg, b' ' ∷ rest)
      → Parses rest args
      → Parses (b'"' ∷ s) (arg ∷ args)

inside-backslashes :
    (n bs : ℕ) (arg s : Bytes) → inside bs arg (backslashes n ++ s) ≡ inside (bs + n) arg s
unfolding inside
inside-backslashes zero bs arg s = ap (λ (k : ℕ). inside k arg s) (omega arith)
inside-backslashes (suc n) bs arg s =
    inside-backslashes n (bs + 1) arg s ∙ ap (λ (k : ℕ). inside k arg s) (omega arith)

pub one_more : (n : ℕ) (s : Bytes) → backslashes (n + 1) ++ s ≡ backslashes n ++ (b'\\' ∷ s)
one_more n s = let e : n + 1 ≡ suc n = omega arith in ap (λ (k : ℕ). backslashes k ++ s) e ∙ shift n
  where
    shift : (n : ℕ) → backslashes (suc n) ++ s ≡ backslashes n ++ (b'\\' ∷ s)
    shift zero = refl
    shift (suc n) = ap (λ (t : Bytes). b'\\' ∷ t) (shift n)

at_end :
    (bs : ℕ) (arg s : Bytes) → inside (0 + bs * 2) arg (b'"' ∷ s) ≡ some (arg ++ backslashes bs, s)
unfolding inside
at_end bs arg s =
    let even : (0 + bs * 2) % 2 ≡ 0 = omega arith in
    let half : (0 + bs * 2) / 2 ≡ bs = omega arith in rw (even, half) refl

at_quote :
    (bs : ℕ) (arg s : Bytes)
    → inside (0 + (bs * 2 + 1)) arg (b'"' ∷ s) ≡ inside 0 (arg ++ (backslashes bs ++ (b'"' ∷ []))) s
unfolding inside
at_quote bs arg s =
    let odd : (0 + (bs * 2 + 1)) % 2 ≡ 1 = omega arith in
    let half : (0 + (bs * 2 + 1)) / 2 ≡ bs = omega arith in rw (odd, half) refl

at_plain :
    (c bs : ℕ) (arg s : Bytes)
    → (c == b'\\') ≡ false
    → (c == b'"') ≡ false
    → inside (0 + bs) arg (c ∷ s) ≡ inside 0 (arg ++ (backslashes bs ++ (c ∷ []))) s
unfolding inside
at_plain c bs arg s h q = let same : 0 + bs ≡ bs = omega arith in rw (h, q, same) refl

pub is_equal : (a b : ℕ) → (a == b) ≡ true → a ≡ b
is_equal a b h = ground arith

-- What was read of an argument, with its next character moved to what is still to be read.
regroup :
    (c bs : ℕ) (read arg : Bytes)
    → (read ++ (backslashes bs ++ (c ∷ []))) ++ arg ≡ read ++ (backslashes bs ++ (c ∷ arg))
regroup c bs read arg =
    append_assoc read (backslashes bs ++ (c ∷ [])) arg
    ∙ ap (λ (t : Bytes). read ++ t) (append_assoc (backslashes bs) (c ∷ []) arg)

inside-quote_rest :
    (arg : Bytes) (bs : ℕ) (read rest : Bytes)
    → inside 0 read (quote_rest false bs arg ++ (b'"' ∷ rest))
      ≡ some (read ++ (backslashes bs ++ arg), rest)
unfolding quote_rest
inside-quote_rest [] bs read rest =
    inside-backslashes (bs * 2) 0 read (b'"' ∷ rest)
    ∙ (at_end bs read rest
        ∙ ap (λ (t : Bytes). some (read ++ t, rest)) (sym (append-nil (backslashes bs))))
inside-quote_rest (c ∷ arg) bs read rest = elim (Bool-cases (c == b'\\')) [
  | inl back ↦ rw back (
      inside-quote_rest arg (bs + 1) read rest
      ∙ ap (λ (t : Bytes). some (read ++ t, rest))
          (one_more bs arg
            ∙ ap (λ (k : ℕ). backslashes bs ++ (k ∷ arg)) (sym (is_equal c b'\\' back))))
  | inr other ↦ elim (Bool-cases (c == b'"')) [
    | inl quote ↦
        let e = is_equal c b'"' quote in
        rw (other, quote)
          (ap (inside 0 read)
              (append_assoc (backslashes (bs * 2 + 1)) (c ∷ quote_rest false 0 arg) (b'"' ∷ rest))
            ∙ (inside-backslashes (bs * 2 + 1) 0 read
                  (c ∷ (quote_rest false 0 arg ++ (b'"' ∷ rest)))
                ∙ (rw e (at_quote bs read (quote_rest false 0 arg ++ (b'"' ∷ rest)))
                    ∙ (inside-quote_rest arg 0 (read ++ (backslashes bs ++ (b'"' ∷ []))) rest
                        ∙ ap (λ (t : Bytes). some (t, rest)) (rw e (regroup b'"' bs read arg))))))
    | inr plain ↦
        rw (other, plain)
          (ap (inside 0 read)
              (append_assoc (backslashes bs) (c ∷ quote_rest false 0 arg) (b'"' ∷ rest))
            ∙ (inside-backslashes bs 0 read (c ∷ (quote_rest false 0 arg ++ (b'"' ∷ rest)))
                ∙ (at_plain c bs read (quote_rest false 0 arg ++ (b'"' ∷ rest)) other plain
                    ∙ (inside-quote_rest arg 0 (read ++ (backslashes bs ++ (c ∷ []))) rest
                        ∙ ap (λ (t : Bytes). some (t, rest)) (regroup c bs read arg)))))
  ]
]

-- The command string without its last character, argument by argument.
unfoldable pub text_of : Bool → Bytes → List Bytes → Bytes
text_of escapes arg [] = b'"' ∷ (quote_rest escapes 0 arg ++ (b'"' ∷ []))
text_of escapes arg (second ∷ args) =
    b'"' ∷ (quote_rest escapes 0 arg ++ (b'"' ∷ b' ' ∷ text_of escapes second args))

quote_args-text_of :
    (escapes : Bool) (arg : Bytes) (args : List Bytes)
    → quote_args escapes (arg ∷ args) ≡ text_of escapes arg args ++ (b' ' ∷ [])
unfolding quote_args text_of
quote_args-text_of escapes arg [] =
    ap (λ (t : Bytes). b'"' ∷ t)
      (sym (append_assoc (quote_rest escapes 0 arg) (b'"' ∷ []) (b' ' ∷ [])))
quote_args-text_of escapes arg (second ∷ args) =
    ap (λ (t : Bytes). b'"' ∷ (quote_rest escapes 0 arg ++ (b'"' ∷ b' ' ∷ t)))
      (quote_args-text_of escapes second args)
    ∙ ap (λ (t : Bytes). b'"' ∷ t)
        (sym (
          append_assoc (quote_rest escapes 0 arg) (b'"' ∷ b' ' ∷ text_of escapes second args)
            (b' ' ∷ [])))

pub text_of-Parses :
    (arg : Bytes) (args : List Bytes) → Parses (text_of false arg args) (arg ∷ args)
unfolding text_of
text_of-Parses arg [] = last _ arg (inside-quote_rest arg 0 [] [])
text_of-Parses arg (second ∷ args) =
    next _ arg (text_of false second args) (second ∷ args)
      (inside-quote_rest arg 0 [] (b' ' ∷ text_of false second args)) (text_of-Parses second args)

without_last : (s : Bytes) (c : ℕ) → take (length (s ++ (c ∷ [])) - 1) (s ++ (c ∷ [])) ≡ s
without_last s c = take_of_length _ s (c ∷ []) (omega (arith, length-append s (c ∷ [])))

pub format_argv-text_of :
    (escapes : Bool) (arg : Bytes) (args : List Bytes)
    → format_argv_as_win32_command_string (arg ∷ args) [] escapes ≡ text_of escapes arg args
unfolding format_argv_as_win32_command_string
format_argv-text_of escapes arg args =
    ap (λ (t : Bytes). take (length t - 1) t) (quote_args-text_of escapes arg args)
    ∙ without_last (text_of escapes arg args) b' '
