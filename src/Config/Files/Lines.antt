-- ===== src/Config/Files/Lines.antt =====
-- About the lines of a configuration file (src/Config.cpp, parse_line).
use ccache.Prelude.{
  ℕ, ◌≡◌, refl, sym, ap, ◌∙◌, inl, inr, Bool, true, false, Bool-cases, and_true, ◌&&◌, Bytes, List,
  [], ◌∷◌, ◌++◌, append_assoc, some, All, All-append, ◌==◌, eq_self, codes, arith,
}
use ccache.Decimal.{is_space, is_digit, skip_spaces}
use ccache.Text.Values.{put_unless_space, skip_last_spaces, strip_whitespace}
use ccache.Config.Expand.{is_name_character}
use ccache.Config.Values.{returned}
use ccache.Config.Files.{
  split_at, stripped_parts, parse_stripped_line, parse_line, put_first, lines_of,
}

abbrev pub HasNo : ℕ → Bytes → Type 0
HasNo c s = All (λ (d : ℕ). (d == c) ≡ false) s

-- A text that neither begins nor ends with a space.
pub record IsStripped (s : Bytes) : Type 0 where
  pub front : skip_spaces s ≡ s
  pub back : skip_last_spaces s ≡ s

-- A text of letters, digits and underscores that is not empty.
unfoldable pub is_name : Bytes → Bool
is_name [] = false
is_name (c ∷ []) = is_name_character c
is_name (c ∷ d ∷ s) = let rest = is_name (d ∷ s) in is_name_character c && rest

name_character_facts :
    (c : ℕ)
    → is_name_character c ≡ true
    → (is_space c ≡ false) × ((c == b'=') ≡ false) × ((c == b'#') ≡ false) × ((c == 10) ≡ false)
unfolding is_name_character is_space is_digit
name_character_facts c h = (ground arith, ground arith, ground arith, ground arith)

skip_last-spaces_append :
    (s t : Bytes) → skip_last_spaces t ≡ [] → skip_last_spaces (s ++ t) ≡ skip_last_spaces s
unfolding skip_last_spaces
skip_last-spaces_append [] t h = h
skip_last-spaces_append (c ∷ s) t h = ap (put_unless_space c) (skip_last-spaces_append s t h)

skip_last-kept :
    (s t : Bytes) (d : ℕ) (u : Bytes)
    → skip_last_spaces t ≡ d ∷ u
    → skip_last_spaces (s ++ t) ≡ s ++ (d ∷ u)
unfolding skip_last_spaces put_unless_space
skip_last-kept [] t d u h = h
skip_last-kept (c ∷ []) t d u h = rw h refl
skip_last-kept (c ∷ x ∷ s) t d u h = ap (put_unless_space c) (skip_last-kept (x ∷ s) t d u h)

is_name-first : (c : ℕ) (s : Bytes) → is_name (c ∷ s) ≡ true → is_name_character c ≡ true
unfolding is_name
is_name-first c [] h = h
is_name-first c (d ∷ s) h = (and_true _ _ h).0

is_name-HasNo_equal_sign : (s : Bytes) → is_name s ≡ true → HasNo b'=' s
unfolding is_name
is_name-HasNo_equal_sign [] h = tt
is_name-HasNo_equal_sign (c ∷ []) h = ((name_character_facts c h).1, tt)
is_name-HasNo_equal_sign (c ∷ d ∷ s) h = (
  (name_character_facts c (and_true _ _ h).0).1,
  is_name-HasNo_equal_sign (d ∷ s) (and_true _ _ h).1,
)

pub is_name-HasNo_newline : (s : Bytes) → is_name s ≡ true → HasNo 10 s
unfolding is_name
is_name-HasNo_newline [] h = tt
is_name-HasNo_newline (c ∷ []) h = ((name_character_facts c h).3, tt)
is_name-HasNo_newline (c ∷ d ∷ s) h = (
  (name_character_facts c (and_true _ _ h).0).3,
  is_name-HasNo_newline (d ∷ s) (and_true _ _ h).1,
)

is_name-skip_last_spaces : (s : Bytes) → is_name s ≡ true → skip_last_spaces s ≡ s
unfolding is_name skip_last_spaces put_unless_space
is_name-skip_last_spaces [] h = refl
is_name-skip_last_spaces (c ∷ []) h = rw ((name_character_facts c h).0) refl
is_name-skip_last_spaces (c ∷ d ∷ s) h =
    ap (put_unless_space c) (is_name-skip_last_spaces (d ∷ s) (and_true _ _ h).1)

split_at-append : (c : ℕ) (s t : Bytes) → HasNo c s → split_at c (s ++ (c ∷ t)) ≡ some (s, t)
unfolding split_at
split_at-append c [] t h = rw (eq_self c) refl
split_at-append c (d ∷ s) t h = rw (h.0, split_at-append c s t h.1) refl

strip_whitespace-name :
    (c : ℕ) (k : Bytes) → is_name (c ∷ k) ≡ true → strip_whitespace ((c ∷ k) ++ (b' ' ∷ [])) ≡ c ∷ k
unfolding strip_whitespace skip_spaces
strip_whitespace-name c k h =
    rw ((name_character_facts c (is_name-first c k h)).0)
      (skip_last-spaces_append (c ∷ k) (b' ' ∷ []) refl ∙ is_name-skip_last_spaces (c ∷ k) h)

-- What parse_stripped_line makes of a name, a space, an equal sign and more.
parse_stripped_line-name :
    (c : ℕ) (k tail : Bytes)
    → is_name (c ∷ k) ≡ true
    → parse_stripped_line ((c ∷ k) ++ (b' ' ∷ b'=' ∷ tail))
      ≡ returned (c ∷ k, strip_whitespace tail)
unfolding parse_stripped_line stripped_parts
parse_stripped_line-name c k tail h =
    rw ((name_character_facts c (is_name-first c k h)).2, split (c ∷ k) h)
      (ap (λ (t : Bytes). returned (t, strip_whitespace tail)) (strip_whitespace-name c k h))
  where
    split :
        (s : Bytes)
        → is_name s ≡ true
        → split_at b'=' (s ++ (b' ' ∷ b'=' ∷ tail)) ≡ some (s ++ (b' ' ∷ []), tail)
    split s e =
        ap (split_at b'=') (sym (append_assoc s (b' ' ∷ []) (b'=' ∷ tail)))
        ∙ split_at-append b'=' (s ++ (b' ' ∷ [])) tail
            (All-append _ s (b' ' ∷ []) (is_name-HasNo_equal_sign s e) (refl, tt))

parse_line-name :
    (c : ℕ) (k t tail : Bytes)
    → is_name (c ∷ k) ≡ true
    → skip_last_spaces t ≡ b' ' ∷ b'=' ∷ tail
    → parse_line ((c ∷ k) ++ t) ≡ returned (c ∷ k, strip_whitespace tail)
unfolding parse_line strip_whitespace skip_spaces
parse_line-name c k t tail h e = rw ((name_character_facts c (is_name-first c k h)).0) (
    ap parse_stripped_line (skip_last-kept (c ∷ k) t b' ' (b'=' ∷ tail) e)
    ∙ parse_stripped_line-name c k tail h)

-- The line `key = value` of a name and a stripped value is read as the name and the value.
pub parse_line-setting :
    (key value : Bytes)
    → is_name key ≡ true
    → IsStripped value
    → parse_line (key ++ (codes " = " ++ value)) ≡ returned (key, value)
unfolding is_name strip_whitespace skip_spaces
parse_line-setting [] value h stripped = cc
parse_line-setting (c ∷ k) [] h stripped = parse_line-name c k (codes " = ") [] h refl
parse_line-setting (c ∷ k) (d ∷ v) h stripped =
    parse_line-name c k (codes " = " ++ (d ∷ v)) (b' ' ∷ d ∷ v) h
      (skip_last-kept (codes " = ") (d ∷ v) d v stripped.back)
    ∙ ap (λ (t : Bytes). returned (c ∷ k, t)) (ap skip_last_spaces stripped.front ∙ stripped.back)

-- Lines one after the other, each with its newline.
unfoldable pub unlines : List Bytes → Bytes
unlines [] = []
unlines (line ∷ rest) = line ++ (10 ∷ unlines rest)

pub unlines-append : (ls ms : List Bytes) → unlines (ls ++ ms) ≡ unlines ls ++ unlines ms
unfolding unlines
unlines-append [] ms = refl
unlines-append (l ∷ ls) ms =
    ap (λ (t : Bytes). l ++ (10 ∷ t)) (unlines-append ls ms)
    ∙ sym (append_assoc l (10 ∷ unlines ls) (unlines ms))

lines_of-line :
    (line text : Bytes) → HasNo 10 line → lines_of (line ++ (10 ∷ text)) ≡ line ∷ lines_of text
unfolding lines_of put_first
lines_of-line [] text h = refl
lines_of-line (c ∷ line) text h = rw (h.0, lines_of-line line text h.1) refl

pub lines_of-unlines : (ls : List Bytes) → All (HasNo 10) ls → lines_of (unlines ls) ≡ ls
unfolding unlines lines_of
lines_of-unlines [] h = refl
lines_of-unlines (l ∷ ls) h =
    lines_of-line l (unlines ls) h.0 ∙ ap (λ (t : List Bytes). l ∷ t) (lines_of-unlines ls h.1)

put_first-HasNo :
    (c : ℕ) (ls : List Bytes)
    → (c == 10) ≡ false
    → All (HasNo 10) ls
    → All (HasNo 10) (put_first c ls)
unfolding put_first
put_first-HasNo c [] e h = ((e, tt), tt)
put_first-HasNo c (l ∷ ls) e h = ((e, h.0), h.1)

pub lines_of-HasNo : (text : Bytes) → All (HasNo 10) (lines_of text)
unfolding lines_of
lines_of-HasNo [] = tt
lines_of-HasNo (c ∷ text) = elim (Bool-cases (c == 10)) [
  | inl e ↦ rw e (tt, lines_of-HasNo text)
  | inr e ↦ rw e (put_first-HasNo c (lines_of text) e (lines_of-HasNo text))
]

pub setting-HasNo :
    (key value : Bytes)
    → is_name key ≡ true
    → HasNo 10 value
    → HasNo 10 (key ++ (codes " = " ++ value))
setting-HasNo key value h no_newline =
    All-append _ key (codes " = " ++ value) (is_name-HasNo_newline key h)
      (refl, (refl, (refl, no_newline)))
