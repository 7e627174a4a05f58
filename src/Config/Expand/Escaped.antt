-- ===== src/Config/Expand/Escaped.antt =====
-- About values with escaped dollar signs and references to variables (src/util/environment.cpp).
use mathlib.Core.Path.{ap₂}
use ccache.Prelude.{
  ℕ, ◌+◌, ◌≡◌, refl, sym, ap, ◌∙◌, inl, inr, true, false, Bool-cases, Bytes, List, [], ◌∷◌, ◌++◌,
  append_assoc, append-nil, Option, none, some, length, length-append, drop-append, All, ◌==◌,
  ==_iff, arith, if◌then◌else◌,
}
use ccache.Text.Values.{variable_not_set, Expected, unexpected, expected}
use ccache.Decimal.{is_digit}
use ccache.Config.Expand.{
  is_name_character, name_of, begins_with, piece, value_piece, curly_piece, piece_of, taken_of,
  put_piece, expand_from, expand_environment_variables,
}

-- Each dollar sign twice.
unfoldable pub escape : Bytes → Bytes
escape [] = []
escape (c ∷ s) = let rest = escape s in if c == b'$' then b'$' ∷ b'$' ∷ rest else c ∷ rest

-- A part of a value: a text that is meant as it is, or the name of a variable.
pub data Part : Type 0 where
  literal reference : Bytes → Part

-- How a part is written.
unfoldable pub render : List Part → Bytes
unfolding escape
render [] = []
render (literal s ∷ parts) = escape s ++ render parts
render (reference name ∷ parts) = b'$' ∷ b'{' ∷ (name ++ (b'}' ∷ render parts))

-- What follows a text; the first error is the one that stays.
unfoldable pub behind : Bytes → Expected Bytes → Expected Bytes
behind text (unexpected e) = unexpected e
behind text (expected rest) = expected (text ++ rest)

unfoldable pub behind_value : Bytes → Option Bytes → Expected Bytes → Expected Bytes
unfolding behind
behind_value name none rest = unexpected (variable_not_set name)
behind_value name (some value) rest = behind value rest

-- What the parts stand for.
unfoldable pub meaning : (Bytes → Option Bytes) → List Part → Expected Bytes
unfolding behind behind_value
meaning getenv [] = expected []
meaning getenv (literal s ∷ parts) = behind s (meaning getenv parts)
meaning getenv (reference name ∷ parts) = behind_value name (getenv name) (meaning getenv parts)

-- A name of a variable: letters, digits and underscores, and one of them at least.
unfoldable pub IsVariable : Bytes → Type 0
IsVariable name = ((length name == 0) ≡ false) × All (λ (c : ℕ). is_name_character c ≡ true) name

unfoldable pub IsPart : Part → Type 0
IsPart (literal s) = Unit
IsPart (reference name) = IsVariable name

behind-nil : (rest : Expected Bytes) → behind [] rest ≡ rest
unfolding behind
behind-nil (unexpected e) = refl
behind-nil (expected rest) = refl

put_piece-behind :
    (text : Bytes) (n : ℕ) (rest : Expected Bytes)
    → put_piece (piece text n) rest ≡ behind text rest
unfolding put_piece behind
put_piece-behind text n (unexpected e) = refl
put_piece-behind text n (expected rest) = refl

behind-cons :
    (c : ℕ) (s : Bytes) (rest : Expected Bytes)
    → behind (c ∷ []) (behind s rest) ≡ behind (c ∷ s) rest
unfolding behind
behind-cons c s (unexpected e) = refl
behind-cons c s (expected rest) = refl

braced_length : (name : Bytes) → length name + 2 ≡ length (b'{' ∷ (name ++ (b'}' ∷ [])))
braced_length name = omega (arith, length-append name (b'}' ∷ []))

module _ (getenv : Bytes → Option Bytes) where
  expand_from-skip : (u t : Bytes) → expand_from getenv (length u) (u ++ t) ≡ expand_from getenv 0 t
  unfolding expand_from
  expand_from-skip [] t = refl
  expand_from-skip (c ∷ u) t = expand_from-skip u t

  expand_from-plain :
      (c : ℕ) (s : Bytes)
      → (c == b'$') ≡ false
      → expand_from getenv 0 (c ∷ s) ≡ behind (c ∷ []) (expand_from getenv 0 s)
  unfolding expand_from
  expand_from-plain c s e = rw e (put_piece-behind (c ∷ []) 0 (expand_from getenv 0 s))

  expand_from-dollar :
      (s : Bytes)
      → expand_from getenv 0 (b'$' ∷ s)
        ≡ put_piece (piece_of getenv s) (expand_from getenv (taken_of (piece_of getenv s)) s)
  unfolding expand_from
  expand_from-dollar s = refl

  expand_from-braces :
      (name t : Bytes)
      → expand_from getenv (length name + 2) (b'{' ∷ (name ++ (b'}' ∷ t))) ≡ expand_from getenv 0 t
  expand_from-braces name t =
      ap₂ (expand_from getenv) (braced_length name)
        (ap (λ (u : Bytes). b'{' ∷ u) (sym (append_assoc name (b'}' ∷ []) t)))
      ∙ expand_from-skip (b'{' ∷ (name ++ (b'}' ∷ []))) t

  expand_from-escape :
      (s t : Bytes) → expand_from getenv 0 (escape s ++ t) ≡ behind s (expand_from getenv 0 t)
  unfolding expand_from escape piece_of taken_of
  expand_from-escape [] t = sym (behind-nil _)
  expand_from-escape (c ∷ s) t = elim (Bool-cases (c == b'$')) [
    | inl e ↦ rw e (
        put_piece-behind (b'$' ∷ []) 1 _
        ∙ ap (behind (b'$' ∷ [])) (expand_from-escape s t)
        ∙ behind-cons b'$' s _
        ∙ ap (λ (d : ℕ). behind (d ∷ s) (expand_from getenv 0 t)) (sym ((==_iff c b'$').0 e)))
    | inr e ↦ rw e (
        expand_from-plain c (escape s ++ t) e
        ∙ ap (behind (c ∷ [])) (expand_from-escape s t)
        ∙ behind-cons c s _)
  ]

  name_of-name :
      (name t : Bytes)
      → All (λ (c : ℕ). is_name_character c ≡ true) name
      → name_of (name ++ (b'}' ∷ t)) ≡ name
  unfolding name_of is_name_character is_digit
  name_of-name [] t h = refl
  name_of-name (c ∷ name) t h = rw (h.0, name_of-name name t h.1) refl

  value_expanded :
      (name t : Bytes) (value : Option Bytes)
      → put_piece (value_piece name value (length name + 2)) (
          expand_from getenv
            (taken_of (value_piece name value (length name + 2)))
            (b'{' ∷ (name ++ (b'}' ∷ t))))
        ≡ behind_value name value (expand_from getenv 0 t)
  unfolding value_piece behind_value put_piece taken_of
  value_expanded name t none = refl
  value_expanded name t (some value) =
      put_piece-behind value (length name + 2) _ ∙ ap (behind value) (expand_from-braces name t)

  piece_of-reference :
      (name t : Bytes)
      → IsVariable name
      → piece_of getenv (b'{' ∷ (name ++ (b'}' ∷ t)))
        ≡ value_piece name (getenv name) (length name + 2)
  unfolding piece_of curly_piece IsVariable begins_with
  piece_of-reference name t h = rw (name_of-name name t h.1, drop-append name (b'}' ∷ t), h.0) refl

  expand_from-render :
      (parts : List Part)
      → All IsPart parts
      → expand_from getenv 0 (render parts) ≡ meaning getenv parts
  unfolding render meaning IsPart expand_from
  expand_from-render [] h = refl
  expand_from-render (literal s ∷ parts) h =
      expand_from-escape s (render parts) ∙ ap (behind s) (expand_from-render parts h.1)
  expand_from-render (reference name ∷ parts) h =
      expand_from-dollar (b'{' ∷ (name ++ (b'}' ∷ render parts)))
      ∙ rw (piece_of-reference name (render parts) h.0) (
          value_expanded name (render parts) (getenv name)
          ∙ ap (behind_value name (getenv name)) (expand_from-render parts h.1))

  -- For a value that is written as literal parts, with each dollar sign twice, and references
  -- ${NAME} to names of letters, digits and underscores that are not empty: the expansion is the
  -- literal parts and the values of the variables in their order, or the error of the first
  -- variable that is not set.
  pub expand-render :
      (parts : List Part)
      → All IsPart parts
      → expand_environment_variables getenv (render parts) ≡ meaning getenv parts
  unfolding expand_environment_variables
  expand-render parts h = expand_from-render parts h

  -- A text with each dollar sign twice stands for the text.
  pub expand-escape : (s : Bytes) → expand_environment_variables getenv (escape s) ≡ expected s
  unfolding expand_environment_variables expand_from behind
  expand-escape s =
      ap (expand_from getenv 0) (sym (append-nil (escape s)))
      ∙ expand_from-escape s []
      ∙ ap (λ (t : Bytes). expected t) (append-nil s)

  -- A text without dollar signs stands for itself.
  pub expand-plain :
      (s : Bytes)
      → All (λ (c : ℕ). (c == b'$') ≡ false) s
      → expand_environment_variables getenv s ≡ expected s
  unfolding expand_environment_variables expand_from put_piece
  expand-plain [] h = refl
  expand-plain (c ∷ s) h = rw (h.0, expand-plain s h.1) refl
