-- ===== src/Config/Read/Sized.antt =====
-- About the sizes of the numbers in a configuration that is read (src/Config.cpp).
use ccache.Prelude.{
  ℕ, ◌+◌, ◌≡◌, refl, ap, inl, inr, Bool, false, Bool-cases, not, Bytes, List, [], ◌∷◌, Option, none,
  some, eq_bytes, codes, arith,
}
use ccache.Text.Values.{leq}
use ccache.Config.Tables.{ConfigKeyTableEntry, k_config_key_table, find}
use ccache.Config.Settings.{Config, initial}
use ccache.Config.Values.{
  Outcome, thrown, returned, ◌>>=◌, rethrown, ConfigError, in_line, value_or_throw,
}
use ccache.Config.Expand.{expand_environment_variables}
use ccache.Config.Items.{System, assign, set_cache_dir, set_entry, set_item}
use ccache.Config.Items.Shown.{IsSized, IsUmask}
use ccache.Config.Items.Sized.{returned-IsSized, assign-IsSized}
use ccache.Config.Files.{
  parse_line, lines_of, handle_line, handle_lines, parse_config_file, set_from_line,
  update_from_file, update_from_map, starts_with, set_from_variable, set_from_parts,
  set_from_setting, update_from_environment, create_cmdline_settings_map,
}
use ccache.Config.Read.{
  Surroundings, home_directory, system_path, locate, read_main_file, set_default_cache_dir, read,
}

module _ {A : Type 0} {B : Type 0} where
  -- A call behind another one returns only where both return.
  bind-returned :
      (o : Outcome A) (f : A → Outcome B) (b : B)
      → (o >>= f) ≡ returned b
      → (a : A) × (o ≡ returned a) × (f a ≡ returned b)
  bind-returned (thrown e) f b h = cc
  bind-returned (returned a) f b h = (a, refl, h)

rethrown-returned :
    {A : Type 0} (g : ConfigError → ConfigError) (o : Outcome A) (a : A)
    → rethrown g o ≡ returned a
    → o ≡ returned a
rethrown-returned g (thrown e) a h = cc
rethrown-returned g (returned b) a h = h

second : {x y : Bool × Config} → returned x ≡ returned y → returned x.1 ≡ returned y.1
second {x} {y} h = let e : x ≡ y = cc in ap (λ (p : Bool × Config). returned p.1) e

set_cache_dir-IsSized :
    (sys : System) (value : Bytes) (c : Config) → IsSized c → IsSized (set_cache_dir sys value c)
unfolding set_cache_dir
set_cache_dir-IsSized sys value c s = s

module _ (sys : System) where
  set_entry-IsSized :
      (entry : Option ConfigKeyTableEntry) (key value : Bytes) (env_var_key : Option Bytes)
      (negate : Bool) (origin : Bytes) (c d : Config)
      → IsSized c
      → set_entry sys entry key value env_var_key negate origin c ≡ returned d
      → IsSized d
  unfolding set_entry
  set_entry-IsSized none key value env_var_key negate origin c d s h = returned-IsSized c d s h
  set_entry-IsSized (some entry) key value env_var_key negate origin c d s h =
      let (expanded, e, rest) =
        bind-returned (value_or_throw (expand_environment_variables sys.getenv value)) _ d h in
      let (assigned, e', last) =
        bind-returned (assign sys entry.item expanded env_var_key negate c) _ d rest in
      returned-IsSized _ d
        (assign-IsSized sys entry.item expanded env_var_key negate c assigned s e') last

  set_item-IsSized :
      (key value : Bytes) (env_var_key : Option Bytes) (negate : Bool) (origin : Bytes)
      (c d : Config)
      → IsSized c
      → set_item sys key value env_var_key negate origin c ≡ returned d
      → IsSized d
  unfolding set_item
  set_item-IsSized key value env_var_key negate origin c d s h =
      set_entry-IsSized (find key k_config_key_table) key value env_var_key negate origin c d s h

  set_from_line-IsSized :
      (path line key value : Bytes) (c d : Config)
      → IsSized c
      → set_from_line sys path line key value c ≡ returned d
      → IsSized d
  unfolding set_from_line
  set_from_line-IsSized path line key value c d s h = elim (Bool-cases (not (eq_bytes key []))) [
    | inl e ↦ set_item-IsSized key value none false path c d s (rw e at h)
    | inr e ↦ returned-IsSized c d s (rw e at h)
  ]

  handle_lines-IsSized :
      (path : Bytes) (n : ℕ) (lines : List Bytes) (c d : Config)
      → IsSized c
      → handle_lines (set_from_line sys path) path n lines c ≡ returned d
      → IsSized d
  unfolding handle_lines handle_line
  handle_lines-IsSized path n [] c d s h = returned-IsSized c d s h
  handle_lines-IsSized path n (line ∷ rest) c d s h =
      let (handled, e, further) =
        bind-returned
          (rethrown (in_line path (n + 1)) (handle_line (set_from_line sys path) line c)) _ d h in
      let (setting, p, e') =
        bind-returned (parse_line line) _ handled (rethrown-returned _ _ handled e) in
      handle_lines-IsSized path (n + 1) rest handled d
        (set_from_line-IsSized path line setting.0 setting.1 c handled s e') further

  update_from_file-IsSized :
      (path : Bytes) (text : Option Bytes) (c : Config) (r : Bool × Config)
      → IsSized c
      → update_from_file sys path text c ≡ returned r
      → IsSized r.1
  unfolding update_from_file parse_config_file
  update_from_file-IsSized path none c r s h = returned-IsSized c r.1 s (second h)
  update_from_file-IsSized path (some text) c r s h =
      let (handled, e, last) =
        bind-returned (handle_lines (set_from_line sys path) path 0 (lines_of text) c) _ r h in
      returned-IsSized handled r.1 (handle_lines-IsSized path 0 (lines_of text) c handled s e)
        (second last)

  update_from_map-IsSized :
      (rows : List (Bytes × Bytes)) (c d : Config)
      → IsSized c
      → update_from_map sys rows c ≡ returned d
      → IsSized d
  unfolding update_from_map
  update_from_map-IsSized [] c d s h = returned-IsSized c d s h
  update_from_map-IsSized (row ∷ rows) c d s h =
      let (updated, e, rest) = bind-returned _ _ d h in
      update_from_map-IsSized rows updated d
        (set_item-IsSized row.0 row.1 none false (codes "command line") c updated s
          (rethrown-returned _ _ updated e))
        rest

  set_from_variable-IsSized :
      (config_key : Option Bytes) (key value : Bytes) (negate : Bool) (c d : Config)
      → IsSized c
      → set_from_variable sys config_key key value negate c ≡ returned d
      → IsSized d
  unfolding set_from_variable
  set_from_variable-IsSized none key value negate c d s h = returned-IsSized c d s h
  set_from_variable-IsSized (some config_key) key value negate c d s h =
      set_item-IsSized config_key value (some key) negate (codes "environment") c d s
        (rethrown-returned _ _ d h)

  set_from_parts-IsSized :
      (parts : Option (Bytes × Bytes)) (c d : Config)
      → IsSized c
      → set_from_parts sys parts c ≡ returned d
      → IsSized d
  unfolding set_from_parts
  set_from_parts-IsSized none c d s h = returned-IsSized c d s h
  set_from_parts-IsSized (some parts) c d s h = set_from_variable-IsSized _ _ _ _ c d s h

  set_from_setting-IsSized :
      (setting : Bytes) (c d : Config)
      → IsSized c
      → set_from_setting sys setting c ≡ returned d
      → IsSized d
  unfolding set_from_setting
  set_from_setting-IsSized setting c d s h =
      elim (Bool-cases (starts_with setting (codes "CCACHE_"))) [
        | inl e ↦ set_from_parts-IsSized _ c d s (rw e at h)
        | inr e ↦ returned-IsSized c d s (rw e at h)
      ]

  update_from_environment-IsSized :
      (env : List Bytes) (c d : Config)
      → IsSized c
      → update_from_environment sys env c ≡ returned d
      → IsSized d
  unfolding update_from_environment
  update_from_environment-IsSized [] c d s h = returned-IsSized c d s h
  update_from_environment-IsSized (setting ∷ env) c d s h =
      let (updated, e, rest) = bind-returned (set_from_setting sys setting c) _ d h in
      update_from_environment-IsSized env updated d (set_from_setting-IsSized setting c updated s e)
        rest

module _ (w : Surroundings) where
  locate-IsSized :
      (configpath : Option Bytes) (settings : List (Bytes × Bytes)) (home_dir : Bytes)
      (c d : Config)
      → IsSized c
      → locate w configpath settings home_dir c ≡ returned d
      → IsSized d
  unfolding locate
  locate-IsSized (some path) settings home_dir c d s h = returned-IsSized _ d s h
  locate-IsSized none settings home_dir c d s h =
      let path = system_path w (w.sys.getenv (codes "CCACHE_CONFIGPATH2")) in
      let start = record c { system_config_path = path } in
      let (updated, e, last) =
        bind-returned (update_from_file w.sys path (w.file_text path) start) _ d h in
      returned-IsSized _ d (update_from_file-IsSized w.sys path _ start updated s e) last

  read_main_file-IsSized : (c d : Config) → IsSized c → read_main_file w c ≡ returned d → IsSized d
  unfolding read_main_file
  read_main_file-IsSized c d s h =
      let (updated, e, last) =
        bind-returned (update_from_file w.sys c.config_path (w.file_text c.config_path) c) _ d h in
      returned-IsSized _ d
        (set_cache_dir-IsSized w.sys updated.1.cache_dir updated.1
          (update_from_file-IsSized w.sys c.config_path _ c updated s e))
        last

  set_default_cache_dir-IsSized :
      (home_dir : Bytes) (c : Config) → IsSized c → IsSized (set_default_cache_dir w home_dir c)
  unfolding set_default_cache_dir
  set_default_cache_dir-IsSized home_dir c s = elim (Bool-cases (eq_bytes c.cache_dir [])) [
    | inl e ↦ rw e (set_cache_dir-IsSized w.sys _ c s)
    | inr e ↦ rw e s
  ]

  -- If the compression level of a configuration is from -128 to 127, its debug level at most
  -- 255, max_files below 2 ^ 64 and its umask none or at most 0777 octal, then so they are when
  -- read returns, whatever the files, the environment and the command line say.
  pub read-IsSized :
      (settings : List Bytes) (c d : Config)
      → IsSized c
      → read w settings c ≡ returned d
      → IsSized d
  unfolding read
  read-IsSized settings c d s h =
      let (cmdline, e0, h0) = bind-returned (create_cmdline_settings_map settings) _ d h in
      let (home_dir, e1, h1) = bind-returned (home_directory w) _ d h0 in
      let (located, e2, h2) =
        bind-returned (locate w (w.sys.getenv (codes "CCACHE_CONFIGPATH")) cmdline home_dir c) _ d
          h1 in
      let (main, e3, h3) = bind-returned (read_main_file w located) _ d h2 in
      let (with_environment, e4, h4) =
        bind-returned (update_from_environment w.sys w.environ main) _ d h3 in
      let (with_map, e5, h5) =
        bind-returned (update_from_map w.sys (w.arranged cmdline) with_environment) _ d h4 in
      returned-IsSized _ d
        (set_default_cache_dir-IsSized home_dir with_map (
          update_from_map-IsSized w.sys _ with_environment with_map
            (update_from_environment-IsSized w.sys w.environ main with_environment
              (read_main_file-IsSized located main
                (locate-IsSized _ cmdline home_dir c located s e2) e3)
              e4)
            e5))
        h5

pub initial-IsSized : IsSized initial
unfolding leq IsUmask
initial-IsSized = record {
  level_low = refl;
  level_high = refl;
  debug_most = omega arith;
  files_most = omega arith;
  umask_most = tt;
}
