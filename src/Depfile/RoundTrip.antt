-- ===== src/Depfile/RoundTrip.antt =====
-- About tokenize on rules of escaped file names, and on colons (src/Depfile.cpp).
use ccache.Prelude.{
  ℕ, zero, suc, ◌+◌, ◌≤◌, ◌≡◌, refl, sym, ap, ◌∙◌, true, false, Bool-cases, inl, inr, Bytes, List,
  [], ◌∷◌, ◌++◌, append_assoc, append-nil, length-append, Option, none, some, length, ◌==◌, ◌&&◌,
  arith, All, leb,
}
use ccache.Decimal.{is_space}
use ccache.Depfile.{
  is_blank, is_escaped, escape_char, escape_filename, State, begins_with, chomp, is_windows_path,
  end_token, separate, push_char, backslash, dollar, round, flush, tokenize_loop, tokenize,
}

-- A line break, a vertical tab or a form feed is not escaped.
abbrev IsPlain : ℕ → Type 0
IsPlain c = (leb 10 c && leb c 13) ≡ false

-- A file name that a dependency file can hold.
pub record IsName (name : Bytes) : Type 0 where
  pub plain : All IsPlain name
  pub visible : is_blank name ≡ false

-- One round of the loop.
abbrev go_on : ℕ → State → Option (List Bytes)
go_on fuel s = tokenize_loop fuel s.rest s.token s.result

is_equal : (a b : ℕ) → (a == b) ≡ true → a ≡ b
is_equal a b h = ground arith

after_escaped :
    (c : ℕ) (s token : Bytes) (result : List Bytes)
    → is_escaped c ≡ true
    → round b'\\' (c ∷ s) token result ≡ push_char c s token result
unfolding round is_windows_path backslash is_space
after_escaped c s token result h = rw h

after_dollar :
    (c : ℕ) (s token : Bytes) (result : List Bytes)
    → c ≡ b'$'
    → round b'$' (c ∷ s) token result ≡ push_char c s token result
unfolding round is_windows_path dollar is_space begins_with
after_dollar c s token result h = rw h

is_common :
    (c : ℕ)
    → IsPlain c
    → is_escaped c ≡ false
    → (c == b'$') ≡ false
    → ((c == b':') ≡ false) × (is_space c ≡ false) × ((c == b'\\') ≡ false)
unfolding is_escaped is_space
is_common c p e d = (ground arith, ground arith, ground arith)

after_common :
    (c : ℕ) (s token : Bytes) (result : List Bytes)
    → IsPlain c
    → is_escaped c ≡ false
    → (c == b'$') ≡ false
    → round c s token result ≡ push_char c s token result
unfolding round is_windows_path
after_common c s token result p e d =
    let (colon, space, back) = is_common c p e d in rw (colon, space, back, d)

read_char :
    (fuel c : ℕ) (s token : Bytes) (result : List Bytes)
    → IsPlain c
    → tokenize_loop (suc fuel) (escape_char c ++ s) token result
      ≡ tokenize_loop fuel s (token ++ (c ∷ [])) result
unfolding tokenize_loop escape_char push_char
read_char fuel c s token result p = elim (Bool-cases (is_escaped c)) [
  | inl escaped ↦ rw escaped (ap (go_on fuel) (after_escaped c s token result escaped))
  | inr other ↦ elim (Bool-cases (c == b'$')) [
    | inl is_dollar ↦
        rw (other, is_dollar)
          (ap (go_on fuel) (after_dollar c s token result (is_equal c b'$' is_dollar)))
    | inr common ↦
        rw (other, common) (ap (go_on fuel) (after_common c s token result p other common))
  ]
]

-- One more round for each character.
abbrev later : Bytes → ℕ → ℕ
later [] fuel = fuel
later (c ∷ name) fuel = suc (later name fuel)

read_name :
    (name : Bytes) (fuel : ℕ) (rest token : Bytes) (result : List Bytes)
    → All IsPlain name
    → tokenize_loop (later name fuel) (escape_filename name ++ rest) token result
      ≡ tokenize_loop fuel rest (token ++ name) result
unfolding escape_filename
read_name [] fuel rest token result plain =
    ap (λ (t : Bytes). tokenize_loop fuel rest t result) (sym (append-nil token))
read_name (c ∷ name) fuel rest token result (p, plain) =
    ap (λ (t : Bytes). tokenize_loop (suc (later name fuel)) t token result)
      (append_assoc (escape_char c) (escape_filename name) rest)
    ∙ (read_char (later name fuel) c (escape_filename name ++ rest) token result p
        ∙ (read_name name fuel rest (token ++ (c ∷ [])) result plain
            ∙ ap (λ (t : Bytes). tokenize_loop fuel rest t result)
                (append_assoc token (c ∷ []) name)))

-- The text of a name begins with neither a space nor a colon.
record IsSolid (s : Bytes) : Type 0 where
  kept : chomp s ≡ s
  no_colon : begins_with b':' s ≡ false

char-IsSolid : (c : ℕ) (s : Bytes) → IsPlain c → IsSolid (escape_char c ++ s)
unfolding escape_char chomp begins_with
char-IsSolid c s p = elim (Bool-cases (is_escaped c)) [
  | inl escaped ↦ rw escaped (record { kept = backslash_kept; no_colon = refl })
  | inr other ↦ elim (Bool-cases (c == b'$')) [
    | inl is_dollar ↦
        let e = is_equal c b'$' is_dollar in
        rw (other, is_dollar, e) (record { kept = dollar_kept; no_colon = refl })
    | inr common ↦
        let (colon, space, back) = is_common c p other common in
        rw (other, common) (record { kept = rw space refl; no_colon = colon })
  ]
]
  where
    backslash_kept : chomp (b'\\' ∷ c ∷ s) ≡ b'\\' ∷ c ∷ s
    backslash_kept = unfold chomp is_space in refl

    dollar_kept : chomp (b'$' ∷ b'$' ∷ s) ≡ b'$' ∷ b'$' ∷ s
    dollar_kept = unfold chomp is_space in refl

name-IsSolid : (name rest : Bytes) → IsName name → IsSolid (escape_filename name ++ rest)
unfolding escape_filename is_blank
name-IsSolid [] rest n = absurd (cc n.visible)
name-IsSolid (c ∷ name) rest n =
    rw (append_assoc (escape_char c) (escape_filename name) rest)
      (char-IsSolid c (escape_filename name ++ rest) n.plain.0)

-- The prerequisites of a rule, each behind a space.
abbrev pub prerequisites : List Bytes → Bytes
prerequisites [] = []
prerequisites (name ∷ names) = b' ' ∷ (escape_filename name ++ prerequisites names)

-- The rounds that reading names with a space between them takes.
abbrev rounds_of : Bytes → List Bytes → ℕ
rounds_of name [] = later name 0
rounds_of name (next ∷ names) = later name (suc (rounds_of next names))

end_at_space :
    (s token : Bytes) (result : List Bytes)
    → is_blank token ≡ false
    → IsSolid s
    → round b' ' s token result ≡ record { rest = s; token = []; result = result ++ (token ∷ []) }
unfolding round is_windows_path is_space separate end_token chomp
end_at_space s token result h solid = rw (h, solid.kept, solid.no_colon) refl

end_at_colon :
    (s token : Bytes) (result : List Bytes)
    → is_blank token ≡ false
    → begins_with b'/' s ≡ false
    → begins_with b'\\' s ≡ false
    → round b':' s token result
      ≡ record { rest = chomp s; token = []; result = result ++ ((token ++ (b':' ∷ [])) ∷ []) }
unfolding round is_windows_path is_space separate end_token chomp begins_with
end_at_colon s token result h slash back = elim (Bool-cases (length token == 1)) [
  | inl one ↦ rw (h, slash, back, one) refl
  | inr more ↦ rw (h, slash, back, more) refl
]

read_names :
    (name : Bytes) (names : List Bytes) (result : List Bytes)
    → IsName name
    → All IsName names
    → tokenize_loop (rounds_of name names) (escape_filename name ++ prerequisites names) [] result
      ≡ some (result ++ (name ∷ names))
unfolding tokenize_loop flush
read_names name [] result n ns = read_name name 0 [] [] result n.plain ∙ rw n.visible refl
read_names name (next ∷ names) result n (m, ns) =
    read_name name (suc (rounds_of next names)) (prerequisites (next ∷ names)) [] result n.plain
    ∙ (ap (go_on (rounds_of next names)) (
          end_at_space (escape_filename next ++ prerequisites names) name result n.visible
            (name-IsSolid next (prerequisites names) m))
        ∙ (read_names next names (result ++ (name ∷ [])) m ns
            ∙ ap some (append_assoc result (name ∷ []) (next ∷ names))))

-- The text of a rule, as compilers write it.
abbrev pub rule : Bytes → List Bytes → Bytes
rule target names = escape_filename target ++ (b':' ∷ prerequisites names)

rule_rounds : Bytes → List Bytes → ℕ
rule_rounds target [] = later target 1
rule_rounds target (name ∷ names) = later target (suc (rounds_of name names))

read_rule :
    (target : Bytes) (names : List Bytes)
    → IsName target
    → All IsName names
    → tokenize_loop (rule_rounds target names) (rule target names) [] []
      ≡ some ((target ++ (b':' ∷ [])) ∷ names)
unfolding rule_rounds tokenize_loop flush begins_with is_blank chomp is_space
read_rule target [] n ns =
    read_name target 1 (b':' ∷ []) [] [] n.plain
    ∙ ap (go_on 0) (end_at_colon [] target [] n.visible refl refl)
read_rule target (name ∷ names) n (m, ns) =
    let solid = name-IsSolid name (prerequisites names) m in
    read_name target (suc (rounds_of name names)) (b':' ∷ prerequisites (name ∷ names)) [] []
      n.plain
    ∙ (ap (go_on (rounds_of name names))
          (end_at_colon (prerequisites (name ∷ names)) target [] n.visible refl refl)
        ∙ (ap
              (λ (t : Bytes).
                tokenize_loop (rounds_of name names) t [] ((target ++ (b':' ∷ [])) ∷ []))
              solid.kept
            ∙ read_names name names ((target ++ (b':' ∷ [])) ∷ []) m ns))

more_rounds :
    (rounds more : ℕ) (s token : Bytes) (result tokens : List Bytes)
    → rounds ≤ more
    → tokenize_loop rounds s token result ≡ some tokens
    → tokenize_loop more s token result ≡ some tokens
unfolding tokenize_loop
more_rounds rounds more [] token result tokens h e = e
more_rounds zero more (c ∷ s) token result tokens h e = absurd (cc e)
more_rounds (suc rounds) zero (c ∷ s) token result tokens h e = absurd (omega arith)
more_rounds (suc rounds) (suc more) (c ∷ s) token result tokens h e =
    let next = round c s token result in
    more_rounds rounds more next.rest next.token next.result tokens (omega arith) e

later-le : (name : Bytes) (fuel : ℕ) → later name fuel ≡ length name + fuel
later-le [] fuel = omega arith
later-le (c ∷ name) fuel = omega (arith, later-le name fuel)

escape_filename-longer : (name : Bytes) → length name ≤ length (escape_filename name)
unfolding escape_filename escape_char
escape_filename-longer [] = omega arith
escape_filename-longer (c ∷ name) = omega (
  arith,
  length-append (escape_char c) (escape_filename name),
  escape_filename-longer name,
  one c,
)
  where
    one : (c : ℕ) → 1 ≤ length (escape_char c)
    one c = ground arith

names_rounds-le :
    (name : Bytes) (names : List Bytes)
    → rounds_of name names ≤ length (escape_filename name ++ prerequisites names)
names_rounds-le name [] =
    omega
      (arith, later-le name 0, length-append (escape_filename name) [], escape_filename-longer name)
names_rounds-le name (next ∷ names) = omega (
  arith,
  later-le name (suc (rounds_of next names)),
  length-append (escape_filename name) (prerequisites (next ∷ names)),
  escape_filename-longer name,
  names_rounds-le next names,
)

rule_rounds-le :
    (target : Bytes) (names : List Bytes) → rule_rounds target names ≤ length (rule target names)
unfolding rule_rounds
rule_rounds-le target [] = omega (
  arith,
  later-le target 1,
  length-append (escape_filename target) (b':' ∷ []),
  escape_filename-longer target,
)
rule_rounds-le target (name ∷ names) = omega (
  arith,
  later-le target (suc (rounds_of name names)),
  length-append (escape_filename target) (b':' ∷ prerequisites (name ∷ names)),
  escape_filename-longer target,
  names_rounds-le name names,
)

-- A rule whose file names are escaped by escape_filename is read by tokenize as its target with
-- a colon and its prerequisites, in as many rounds as the text has characters. The names must
-- not be blank and must have no line break, vertical tab, form feed or carriage return.
pub tokenize-rule :
    (target : Bytes) (names : List Bytes) (rounds : ℕ)
    → IsName target
    → All IsName names
    → length (rule target names) ≤ rounds
    → tokenize rounds (rule target names) ≡ some ((target ++ (b':' ∷ [])) ∷ names)
unfolding tokenize
tokenize-rule target names rounds n ns h =
    more_rounds (rule_rounds target names) rounds (rule target names) [] [] _
      (omega (arith, rule_rounds-le target names)) (read_rule target names n ns)

-- At a colon with a blank token in front of it, no number of rounds brings tokenize to its end.
pub tokenize_stuck :
    (rounds : ℕ) (s token : Bytes) (result : List Bytes)
    → is_blank token ≡ true
    → tokenize_loop rounds (b':' ∷ s) token result ≡ none
unfolding tokenize_loop
tokenize_stuck zero s token result h = refl
tokenize_stuck (suc rounds) s token result h =
    ap (go_on rounds) (stays h) ∙ tokenize_stuck rounds s [] result (unfold is_blank in refl)
  where
    stays :
        is_blank token ≡ true
        → round b':' s token result ≡ record { rest = b':' ∷ s; token = []; result = result }
    stays h = unfold round is_windows_path is_space separate chomp in rw h refl
