-- ===== src/Tokenizer/Joined.antt =====
-- About the tokens of a text, one after the other (src/util/Tokenizer.cpp).
use ccache.Prelude.{
  ℕ, zero, suc, ◌+◌, ◌≤◌, ◌≡◌, refl, ap, ◌∙◌, true, false, Bool-cases, inl, inr, Bytes, List, [],
  ◌∷◌, ◌++◌, append-nil, append_assoc, Option, some, length, arith,
}
use ccache.Tokenizer.{
  Iterator, at_end, at, is_delimiter, token_of, rest_of, place, move, is_skipped, settle, deref,
  cons_token, collect, split_into,
}

pub concat : List Bytes → Bytes
concat [] = []
concat (token ∷ tokens) = token ++ concat tokens

token_of-rest_of :
    (delimiters string : Bytes) → token_of delimiters string ++ rest_of delimiters string ≡ string
unfolding token_of rest_of
token_of-rest_of delimiters [] = refl
token_of-rest_of delimiters (c ∷ string) = elim (Bool-cases (is_delimiter delimiters c)) [
  | inl e ↦ rw e refl
  | inr e ↦ rw e (ap (λ (t : Bytes). c ∷ t) (token_of-rest_of delimiters string))
]

length-rest_of : (delimiters string : Bytes) → length (rest_of delimiters string) ≤ length string
unfolding rest_of
length-rest_of delimiters [] = omega arith
length-rest_of delimiters (c ∷ string) = elim (Bool-cases (is_delimiter delimiters c)) [
  | inl e ↦ rw e (omega arith)
  | inr e ↦ rw e (omega (arith, length-rest_of delimiters string))
]

settle-kept :
    (rounds : ℕ) (delimiters : Bytes) (it : Iterator)
    → settle (suc rounds) delimiters false it ≡ some it
unfolding settle is_skipped
settle-kept rounds delimiters at_end = refl
settle-kept rounds delimiters (at [] rest) = refl
settle-kept rounds delimiters (at (c ∷ token) rest) = refl

abbrev later : ℕ → ℕ
later n = suc (suc n)

later_lem : (n : ℕ) → n + 2 ≡ later n
later_lem n = omega arith

module _ (delimiters : Bytes) where
  collect-concat :
      (rounds : ℕ) (token rest : Bytes)
      → length rest + 2 ≤ rounds
      → (tokens : List Bytes) × (collect rounds delimiters false true (some (at token rest))
          ≡ some tokens)
        × (concat tokens ≡ token ++ rest)
  unfolding collect move concat deref cons_token place
  collect-concat zero token rest h = absurd (omega arith)
  collect-concat (suc zero) token rest h = absurd (omega arith)
  collect-concat (suc (suc rounds)) token [] h = (
    (token ++ []) ∷ [],
    rw (settle-kept (suc rounds) delimiters at_end) refl,
    append-nil (token ++ []),
  )
  collect-concat (suc rounds) token (d ∷ string) h =
      let (tokens, e, joined) =
        collect-concat rounds (token_of delimiters string) (rest_of delimiters string)
          (omega (arith, length-rest_of delimiters string)) in
      (
        (token ++ (d ∷ [])) ∷ tokens,
        ap
              (λ (o : Option Iterator).
                cons_token (token ++ (d ∷ [])) (collect rounds delimiters false true o))
              (settle-kept rounds delimiters (place delimiters string))
            ∙ ap (cons_token (token ++ (d ∷ []))) e,
        ap (λ (t : Bytes). (token ++ (d ∷ [])) ++ t) (joined ∙ token_of-rest_of delimiters string)
            ∙ append_assoc token (d ∷ []) string,
      )

  -- With empty tokens and delimiters included, whatever the delimiters, split_into ends for
  -- every text, and its tokens one after the other are the text.
  pub concat-split_into :
      (string : Bytes)
      → (tokens : List Bytes) × (split_into string delimiters false true ≡ some tokens)
        × (concat tokens ≡ string)
  unfolding split_into place
  concat-split_into string =
      let (tokens, e, joined) =
        collect-concat (later (length string)) (token_of delimiters string)
          (rest_of delimiters string)
          (omega (arith, length-rest_of delimiters string, later_lem (length string))) in
      (
        tokens,
        rw (later_lem (length string)) (
            ap (collect (later (length string)) delimiters false true)
              (settle-kept (suc (length string)) delimiters (place delimiters string))
            ∙ e),
        joined ∙ token_of-rest_of delimiters string,
      )
