-- ===== src/Config/Files/Replaced.antt =====
-- About a value that is set in a configuration file (src/Config.cpp, Config::set_value_in_file).
use mathlib.Core.Path.{subst, ap₂}
use ccache.Prelude.{
  ℕ, ◌+◌, ◌≡◌, refl, sym, ap, ◌∙◌, inl, inr, Bool, true, false, Bool-cases, and_true, ◌&&◌, ◌||◌,
  Bytes, List, [], ◌∷◌, ◌++◌, append_assoc, append-nil, none, some, All, All-append, codes,
  if◌then◌else◌, eq_bytes, eq_bytes→eq,
}
use ccache.Config.Tables.{ConfigKeyTableEntry, k_config_key_table, find}
use ccache.Config.Settings.{Config, initial}
use ccache.Config.Values.{Outcome, thrown, returned, ◌>>=◌}
use ccache.Config.Items.{System, set_item}
use ccache.Config.Files.{
  parse_line, lines_of, handle_line, handle_lines, parse_config_file, setting_line, copy_line,
  write_setting, or_empty, is_end, set_value_in_file,
}
use ccache.Config.Expand.{is_name_character}
use ccache.Decimal.{is_digit}
use ccache.Config.Files.Lines.{
  HasNo, IsStripped, is_name, parse_line-setting, unlines, unlines-append, lines_of-unlines,
  lines_of-HasNo, setting-HasNo,
}

-- The keys and values of lines, those of comments and blank lines empty.
unfoldable pub settings_of : List Bytes → Outcome (List (Bytes × Bytes))
settings_of [] = returned []
settings_of (line ∷ rest) = do
  setting ← parse_line line
  settings ← settings_of rest
  returned (setting ∷ settings)

unfoldable pub is_set : Bytes → List (Bytes × Bytes) → Bool
is_set key [] = false
is_set key (setting ∷ settings) = eq_bytes setting.0 key || is_set key settings

-- Each setting of the key with the new value.
unfoldable pub replaced : Bytes → Bytes → List (Bytes × Bytes) → List (Bytes × Bytes)
replaced key value [] = []
replaced key value (setting ∷ settings) =
    let rest = replaced key value settings in
    if eq_bytes setting.0 key then (key, value) ∷ rest else setting ∷ rest

-- What the file is to hold: a setting that was not there comes last.
unfoldable pub with_value : Bytes → Bytes → List (Bytes × Bytes) → List (Bytes × Bytes)
unfolding replaced is_set
with_value key value settings =
    if is_set key settings
    then replaced key value settings
    else replaced key value settings ++ ((key, value) ∷ [])

-- The settings of a line and the rest, taken apart.
record First (line : Bytes) (rest : List Bytes) (settings : List (Bytes × Bytes)) : Type 0 where
  setting : Bytes × Bytes
  others : List (Bytes × Bytes)
  parsed : parse_line line ≡ returned setting
  further : settings_of rest ≡ returned others
  together : settings ≡ setting ∷ others

settings_of-First :
    (line : Bytes) (rest : List Bytes) (settings : List (Bytes × Bytes))
    → settings_of (line ∷ rest) ≡ returned settings
    → First line rest settings
unfolding settings_of
settings_of-First line rest settings h = by_case (parse_line line) (settings_of rest) refl refl h
  where
    by_case :
        (p : Outcome (Bytes × Bytes)) (ps : Outcome (List (Bytes × Bytes)))
        → parse_line line ≡ p
        → settings_of rest ≡ ps
        → (p >>= λ s. ps >>= λ t. returned (s ∷ t)) ≡ returned settings
        → First line rest settings
    by_case (thrown e) ps a b c = cc
    by_case (returned s) (thrown e) a b c = cc
    by_case (returned s) (returned t) a b c = record {
      setting = s;
      others = t;
      parsed = a;
      further = b;
      together = cc;
    }

returned-inj : {A : Type 0} {a b : A} → returned a ≡ returned b → a ≡ b
returned-inj e = cc

settings_of-append :
    (ls ms : List Bytes) (ps qs : List (Bytes × Bytes))
    → settings_of ls ≡ returned ps
    → settings_of ms ≡ returned qs
    → settings_of (ls ++ ms) ≡ returned (ps ++ qs)
unfolding settings_of
settings_of-append [] ms ps qs h h' = rw (sym (returned-inj h)) h'
settings_of-append (l ∷ ls) ms ps qs h h' =
    let f = settings_of-First l ls ps h in
    rw (f.together, f.parsed, settings_of-append ls ms f.others qs f.further h') refl

or_false : (b : Bool) → b ≡ (b || false)
or_false true = refl
or_false false = refl

or_true : (a b : Bool) → b ≡ true → (a || b) ≡ true
or_true true b h = refl
or_true false b h = h

settings_of-cons :
    (line : Bytes) (rest : List Bytes) (p : Bytes × Bytes) (ps : List (Bytes × Bytes))
    → parse_line line ≡ returned p
    → settings_of rest ≡ returned ps
    → settings_of (line ∷ rest) ≡ returned (p ∷ ps)
unfolding settings_of
settings_of-cons line rest p ps e h = rw (e, h) refl

module _ (key value : Bytes) where
  copy_line-same :
      (line : Bytes) (p : Bytes × Bytes) (out : Bytes) (found : Bool)
      → eq_bytes p.0 key ≡ true
      → copy_line key value line p.0 p.1 (out, found)
        ≡ returned (out ++ setting_line key value, true)
  unfolding copy_line
  copy_line-same line p out found e = rw e refl

  copy_line-other :
      (line : Bytes) (p : Bytes × Bytes) (out : Bytes) (found : Bool)
      → eq_bytes p.0 key ≡ false
      → copy_line key value line p.0 p.1 (out, found) ≡ returned (out ++ (line ++ (10 ∷ [])), found)
  unfolding copy_line
  copy_line-other line p out found e = rw e refl

  is_set-same :
      (p : Bytes × Bytes) (ps : List (Bytes × Bytes))
      → eq_bytes p.0 key ≡ true
      → is_set key (p ∷ ps) ≡ true
  unfolding is_set
  is_set-same p ps e = rw e refl

  is_set-other :
      (p : Bytes × Bytes) (ps : List (Bytes × Bytes))
      → eq_bytes p.0 key ≡ false
      → is_set key (p ∷ ps) ≡ is_set key ps
  unfolding is_set
  is_set-other p ps e = rw e refl

  replaced-same :
      (p : Bytes × Bytes) (ps : List (Bytes × Bytes))
      → eq_bytes p.0 key ≡ true
      → replaced key value (p ∷ ps) ≡ (key, value) ∷ replaced key value ps
  unfolding replaced
  replaced-same p ps e = rw e refl

  replaced-other :
      (p : Bytes × Bytes) (ps : List (Bytes × Bytes))
      → eq_bytes p.0 key ≡ false
      → replaced key value (p ∷ ps) ≡ p ∷ replaced key value ps
  unfolding replaced
  replaced-other p ps e = rw e refl

module _ (key value : Bytes) (name : is_name key ≡ true) (stripped : IsStripped value)
    (single : HasNo 10 value) where
  new_line : Bytes
  new_line = key ++ (codes " = " ++ value)

  setting_line-unlines :
      (ls : List Bytes) → setting_line key value ++ unlines ls ≡ unlines (new_line ∷ ls)
  unfolding setting_line unlines new_line
  setting_line-unlines ls =
      append_assoc key (codes " = " ++ (value ++ (10 ∷ []))) (unlines ls)
      ∙ ap (λ (t : Bytes). key ++ (codes " = " ++ t)) (append_assoc value (10 ∷ []) (unlines ls))
      ∙ sym (append_assoc key (codes " = " ++ value) (10 ∷ unlines ls))

  last_line-unlines : setting_line key value ≡ unlines (new_line ∷ [])
  unfolding unlines
  last_line-unlines = sym (append-nil (setting_line key value)) ∙ setting_line-unlines []

  new_line-HasNo : HasNo 10 new_line
  unfolding new_line
  new_line-HasNo = setting-HasNo key value name single

  settings_of-new_line : settings_of (new_line ∷ []) ≡ returned ((key, value) ∷ [])
  unfolding settings_of new_line
  settings_of-new_line = rw (parse_line-setting key value name stripped) refl

  -- What the loop writes for `lines` behind `out`.
  record Copied (path : Bytes) (n : ℕ) (lines : List Bytes) (out : Bytes) (found : Bool)
      (settings : List (Bytes × Bytes)) : Type 0 where
    written : List Bytes
    run :
        handle_lines (copy_line key value) path n lines (out, found)
        ≡ returned (out ++ unlines written, found || is_set key settings)
    no_newlines : All (HasNo 10) written
    meaning : settings_of written ≡ returned (replaced key value settings)

  handle_lines-step :
      (path : Bytes) (n : ℕ) (line : Bytes) (rest : List Bytes) (s s' : Bytes × Bool)
      (setting : Bytes × Bytes)
      → parse_line line ≡ returned setting
      → copy_line key value line setting.0 setting.1 s ≡ returned s'
      → handle_lines (copy_line key value) path n (line ∷ rest) s
        ≡ handle_lines (copy_line key value) path (n + 1) rest s'
  unfolding handle_lines handle_line
  handle_lines-step path n line rest s s' setting e h = rw (e, h) refl

  copied :
      (path : Bytes) (n : ℕ) (lines : List Bytes) (out : Bytes) (found : Bool)
      (settings : List (Bytes × Bytes))
      → All (HasNo 10) lines
      → settings_of lines ≡ returned settings
      → Copied path n lines out found settings
  unfolding unlines settings_of replaced is_set handle_lines new_line
  copied path n [] out found settings h e =
      subst (Copied path n [] out found) (returned-inj e) (record {
        written = [];
        run =
            ap₂ (λ (o : Bytes) (f : Bool). returned (o, f)) (sym (append-nil out)) (or_false found);
        no_newlines = tt;
        meaning = refl;
      })
  copied path n (line ∷ rest) out found settings h e =
      let f = settings_of-First line rest settings e in
      subst (Copied path n (line ∷ rest) out found) (sym f.together)
        (elim (Bool-cases (eq_bytes f.setting.0 key)) [
          | inl same ↦
              (let ih =
                  copied path (n + 1) rest (out ++ setting_line key value) true f.others h.1
                    f.further in
                record {
                  written = new_line ∷ ih.written;
                  run =
                      handle_lines-step path n line rest (out, found) _ f.setting f.parsed
                        (copy_line-same key value line f.setting out found same)
                      ∙ ih.run
                      ∙ ap₂ (λ (o : Bytes) (b : Bool). returned (o, b))
                          (append_assoc out (setting_line key value) (unlines ih.written)
                            ∙ ap (λ (t : Bytes). out ++ t) (setting_line-unlines ih.written))
                          (sym (or_true found _ (is_set-same key value f.setting f.others same)));
                  no_newlines = (new_line-HasNo, ih.no_newlines);
                  meaning =
                      settings_of-cons new_line ih.written (key, value) _
                        (parse_line-setting key value name stripped) ih.meaning
                      ∙ ap returned (sym (replaced-same key value f.setting f.others same));
                })
          | inr other ↦
              (let ih =
                  copied path (n + 1) rest (out ++ (line ++ (10 ∷ []))) found f.others h.1
                    f.further in
                record {
                  written = line ∷ ih.written;
                  run =
                      handle_lines-step path n line rest (out, found) _ f.setting f.parsed
                        (copy_line-other key value line f.setting out found other)
                      ∙ ih.run
                      ∙ ap₂ (λ (o : Bytes) (b : Bool). returned (o, b))
                          (append_assoc out (line ++ (10 ∷ [])) (unlines ih.written)
                            ∙ ap (λ (t : Bytes). out ++ t)
                                (append_assoc line (10 ∷ []) (unlines ih.written)))
                          (ap (λ (b : Bool). found || b)
                            (sym (is_set-other key value f.setting f.others other)));
                  no_newlines = (h.0, ih.no_newlines);
                  meaning =
                      settings_of-cons line ih.written f.setting _ f.parsed ih.meaning
                      ∙ ap returned (sym (replaced-other key value f.setting f.others other));
                })
        ])

names_of : List (Bytes × ConfigKeyTableEntry) → Bool
names_of [] = true
names_of (row ∷ rows) = is_name row.0 && names_of rows

find-is_name :
    (key : Bytes) (rows : List (Bytes × ConfigKeyTableEntry)) (entry : ConfigKeyTableEntry)
    → names_of rows ≡ true
    → find key rows ≡ some entry
    → is_name key ≡ true
unfolding names_of find
find-is_name key [] entry h e = cc
find-is_name key (row ∷ rows) entry h e = elim (Bool-cases (eq_bytes key row.0)) [
  | inl same ↦ ap is_name (eq_bytes→eq key row.0 same) ∙ (and_true _ _ h).0
  | inr other ↦ find-is_name key rows entry (and_true _ _ h).1 (rw other at e)
]

table_names : names_of k_config_key_table ≡ true
unfolding names_of is_name is_name_character is_digit
table_names = refl

module _ (sys : System) (path key value text : Bytes) (settings : List (Bytes × Bytes)) where
  -- For a key of the table and a value that set_item accepts, without a line break and without
  -- spaces at its ends, and a file whose lines can be parsed: set_value_in_file succeeds, and
  -- the lines of the new file are read as the old settings in their order, each setting of the
  -- key with the new value, and where there was none, with the key and the value at the end.
  pub set_value_in_file-with_value :
      (entry : ConfigKeyTableEntry) (dummy_config : Config)
      → find key k_config_key_table ≡ some entry
      → set_item sys key value none false [] initial ≡ returned dummy_config
      → IsStripped value
      → HasNo 10 value
      → settings_of (lines_of text) ≡ returned settings
      → (text' : Bytes) × (set_value_in_file sys true path key value (some text) ≡ returned text')
        × (settings_of (lines_of text') ≡ returned (with_value key value settings))
  unfolding set_value_in_file parse_config_file is_end or_empty write_setting with_value
  set_value_in_file-with_value entry dummy_config found accepted stripped single h =
      let name = find-is_name key k_config_key_table entry table_names found in
      let c =
        copied key value name stripped single path 0 (lines_of text) [] false settings
          (lines_of-HasNo text) h in
      elim (Bool-cases (is_set key settings)) [
        | inl e ↦ (
          unlines c.written,
          rw (found, accepted, c.run, e) refl,
          ap settings_of (lines_of-unlines c.written c.no_newlines) ∙ rw e c.meaning,
        )
        | inr e ↦ (
          unlines (c.written ++ (new_line key value name stripped single ∷ [])),
          rw (found, accepted, c.run, e)
              (ap returned (
                ap (λ (t : Bytes). unlines c.written ++ t)
                  (last_line-unlines key value name stripped single)
                ∙ sym (unlines-append c.written (new_line key value name stripped single ∷ [])))),
          ap settings_of (
                lines_of-unlines _ (
                  All-append _ c.written _ c.no_newlines
                    (new_line-HasNo key value name stripped single, tt)))
              ∙ rw e (
                  settings_of-append c.written _ _ _ c.meaning
                    (settings_of-new_line key value name stripped single)),
        )
      ]
