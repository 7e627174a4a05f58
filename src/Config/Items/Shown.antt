-- ===== src/Config/Items/Shown.antt =====
-- About setting what get_string_value shows (src/Config.cpp).
use mathlib.Core.Path.{subst}
use ccache.Prelude.{
  ℕ, zero, suc, ◌+◌, ◌-◌, ◌/◌, ◌%◌, ◌^◌, ◌≤◌, ◌<◌, ◌≡◌, refl, sym, ap, ◌∙◌, inl, inr, Bool, true,
  false, Bool-cases, Bytes, [], ◌∷◌, Option, none, some, eq_bytes, ltb, arith,
}
use ccache.Text.Values.{ℤ, pos, negsuc, leq, Expected, expected, all_digits, parse_umask}
use ccache.Text.Values.RoundTrip.{
  IsNumeral, parse_unsigned-IsNumeral, print_decimal-IsNumeral, parse_signed-print_signed,
  all_digits-digit,
}
use ccache.Config.Tables.{ConfigItem}
use ccache.Config.Settings.{CompilerType, Sloppiness, Config}
use ccache.Config.Values.{
  Outcome, returned, ◌>>=◌, value_or_throw, parse_bool, format_bool, parse_compiler_type,
  compiler_type_to_string, octal_digits, format_umask,
}
use ccache.Config.Sloppy.RoundTrip.{parse_sloppiness-format_sloppiness}
use ccache.Config.Items.{System, assign, item_string}

-- The items whose text is the member's value and nothing else. A directory that is set changes more
-- than its member or is normalized, and a size is rounded.
unfoldable pub is_plain : ConfigItem → Bool
is_plain ConfigItem.base_dir = false
is_plain ConfigItem.cache_dir = false
is_plain ConfigItem.max_size = false
is_plain ConfigItem.temporary_dir = false
is_plain _ = true

unfoldable pub IsUmask : Option ℕ → Type 0
IsUmask none = Unit
IsUmask (some umask) = umask ≤ 511

-- Numbers of the members' types, and a umask that is accepted.
pub record AreSizes (compression_level : ℤ) (debug_level max_files : ℕ) (umask : Option ℕ)
    : Type 0 where
  pub level_low : leq (negsuc 127) compression_level ≡ true
  pub level_high : leq compression_level (pos 127) ≡ true
  pub debug_most : debug_level ≤ 255
  pub files_most : max_files < 2 ^ 64
  pub umask_most : IsUmask umask

abbrev pub IsSized : Config → Type 0
IsSized c = AreSizes c.compression_level c.debug_level c.max_files c.umask

pub bind-returned :
    {A : Type 0} {B : Type 0} {o : Outcome A} {a : A} (f : A → Outcome B)
    → o ≡ returned a
    → (o >>= f) ≡ f a
bind-returned f e = rw e refl

pub bind-expected :
    {A : Type 0} {B : Type 0} {x : Expected A} {a : A} (f : A → Outcome B)
    → x ≡ expected a
    → (value_or_throw x >>= f) ≡ f a
unfolding value_or_throw
bind-expected f e = rw e refl

parse_bool-format_bool : (b : Bool) → parse_bool (format_bool b) none false ≡ returned b
unfolding parse_bool format_bool eq_bytes
parse_bool-format_bool true = refl
parse_bool-format_bool false = refl

parse_compiler_type-string :
    (t : CompilerType) → parse_compiler_type (compiler_type_to_string t) ≡ t
unfolding parse_compiler_type compiler_type_to_string eq_bytes
parse_compiler_type-string CompilerType.auto_guess = refl
parse_compiler_type-string CompilerType.clang = refl
parse_compiler_type-string CompilerType.clang_cl = refl
parse_compiler_type-string CompilerType.gcc = refl
parse_compiler_type-string CompilerType.icl = refl
parse_compiler_type-string CompilerType.msvc = refl
parse_compiler_type-string CompilerType.nvcc = refl
parse_compiler_type-string CompilerType.other = refl

all_digits-octal_digits :
    (fuel width n : ℕ) (out : Bytes)
    → width + n ≤ fuel
    → all_digits 8 0 (octal_digits fuel width n out) ≡ all_digits 8 n out
unfolding octal_digits
all_digits-octal_digits zero width n out h = let e : n ≡ 0 = omega arith in rw e refl
all_digits-octal_digits (suc fuel) zero n out h = elim (Bool-cases (ltb 0 n)) [
  | inl more ↦ rw more (
      all_digits-octal_digits fuel 0 (n / 8) ((b'0' + n % 8) ∷ out) (ground arith)
      ∙ (all_digits-digit 8 (n / 8) (n % 8) out (omega arith)
          ∙ ap (λ (k : ℕ). all_digits 8 k out) (omega arith)))
  | inr done ↦ (let e : n ≡ 0 = ground arith in rw (done, e) refl)
]
all_digits-octal_digits (suc fuel) (suc width) n out h =
    all_digits-octal_digits fuel width (n / 8) ((b'0' + n % 8) ∷ out) (omega arith)
    ∙ (all_digits-digit 8 (n / 8) (n % 8) out (omega arith)
        ∙ ap (λ (k : ℕ). all_digits 8 k out) (omega arith))

-- Digits in front of a text that is not empty.
octal_digits-filled :
    (fuel width n c : ℕ) (out : Bytes)
    → (d : ℕ) × (t : Bytes) × (octal_digits fuel width n (c ∷ out) ≡ d ∷ t)
unfolding octal_digits
octal_digits-filled zero width n c out = (c, out, refl)
octal_digits-filled (suc fuel) zero n c out = elim (Bool-cases (ltb 0 n)) [
  | inl e ↦ rw e (octal_digits-filled fuel 0 (n / 8) (b'0' + n % 8) (c ∷ out))
  | inr e ↦ rw e (c, out, refl)
]
octal_digits-filled (suc fuel) (suc width) n c out =
    octal_digits-filled fuel width (n / 8) (b'0' + n % 8) (c ∷ out)

octal_digits-one :
    (fuel n : ℕ)
    → octal_digits (suc fuel) 3 n [] ≡ octal_digits fuel 2 (n / 8) ((b'0' + n % 8) ∷ [])
unfolding octal_digits
octal_digits-one fuel n = refl

format_umask-IsNumeral : (umask : ℕ) → IsNumeral 8 umask (format_umask (some umask))
unfolding format_umask all_digits
format_umask-IsNumeral umask =
    let n : umask + 4 ≡ suc (umask + 3) = omega arith in
    let filled = octal_digits-filled (umask + 3) 2 (umask / 8) (b'0' + umask % 8) [] in
    record {
      first = filled.0;
      others = filled.1;
      split =
          ap (λ (k : ℕ). octal_digits k 3 umask []) n
          ∙ octal_digits-one (umask + 3) umask
          ∙ filled.2;
      digits = all_digits-octal_digits (umask + 4) 3 umask [] (omega arith);
    }

assign-umask :
    (sys : System) (umask : ℕ) (c : Config) (s : Bytes)
    → IsNumeral 8 umask s
    → umask ≤ 511
    → assign sys ConfigItem.umask s none false c ≡ returned (record c { umask = some umask })
unfolding assign parse_umask
assign-umask sys umask c s numeral h =
    subst
      (λ (t : Bytes).
        assign sys ConfigItem.umask t none false c ≡ returned (record c { umask = some umask }))
      (sym numeral.split)
      (bind-expected (λ (m : ℕ). returned (record c { umask = some m }))
        (parse_unsigned-IsNumeral 8 umask (numeral.first ∷ numeral.others) 0 511 (omega arith)
          (record {
            first = numeral.first;
            others = numeral.others;
            split = refl;
            digits = ap (all_digits 8 0) (sym numeral.split) ∙ numeral.digits;
          })
          (omega arith) h (omega arith)))

assign-format_umask :
    (sys : System) (umask : Option ℕ) (c : Config)
    → c.umask ≡ umask
    → IsUmask umask
    → assign sys ConfigItem.umask (format_umask umask) none false c
      ≡ returned (record c { umask = umask })
unfolding IsUmask assign format_umask
assign-format_umask sys none c e h = ap (λ (u : Option ℕ). returned (record c { umask = u })) e
assign-format_umask sys (some umask) c e h =
    assign-umask sys umask c _ (format_umask-IsNumeral umask) h

wide_low : (n : ℤ) → leq (negsuc 127) n ≡ true → leq (negsuc (2 ^ 63 - 1)) n ≡ true
unfolding leq
wide_low (pos n) h = refl
wide_low (negsuc n) h = ground arith

wide_high : (n : ℤ) → leq n (pos 127) ≡ true → leq n (pos (2 ^ 63 - 1)) ≡ true
unfolding leq
wide_high (pos n) h = ground arith
wide_high (negsuc n) h = refl

-- The switch of set_item, on the text that the switch of get_string_value shows for the item,
-- changes nothing.
pub assign-item_string :
    (sys : System) (item : ConfigItem) (c : Config)
    → is_plain item ≡ true
    → IsSized c
    → assign sys item (item_string sys item c) none false c ≡ returned c
unfolding assign item_string is_plain
assign-item_string sys ConfigItem.absolute_paths_in_stderr c e sizes =
    bind-returned (λ (b : Bool). returned (record c { absolute_paths_in_stderr = b }))
      (parse_bool-format_bool c.absolute_paths_in_stderr)
assign-item_string sys ConfigItem.base_dir c e sizes = cc
assign-item_string sys ConfigItem.cache_dir c e sizes = cc
assign-item_string sys ConfigItem.compiler c e sizes = refl
assign-item_string sys ConfigItem.compiler_check c e sizes = refl
assign-item_string sys ConfigItem.compiler_type c e sizes =
    ap (λ (t : CompilerType). returned (record c { compiler_type = t }))
      (parse_compiler_type-string c.compiler_type)
assign-item_string sys ConfigItem.compression c e sizes =
    bind-returned (λ (b : Bool). returned (record c { compression = b }))
      (parse_bool-format_bool c.compression)
assign-item_string sys ConfigItem.compression_level c e sizes =
    bind-expected (λ (n : ℤ). returned (record c { compression_level = n }))
      (parse_signed-print_signed c.compression_level (negsuc 127) (pos 127)
        (wide_low c.compression_level sizes.level_low)
        (wide_high c.compression_level sizes.level_high) sizes.level_low sizes.level_high)
assign-item_string sys ConfigItem.cpp_extension c e sizes = refl
assign-item_string sys ConfigItem.debug c e sizes =
    bind-returned (λ (b : Bool). returned (record c { debug = b })) (parse_bool-format_bool c.debug)
assign-item_string sys ConfigItem.debug_dir c e sizes = refl
assign-item_string sys ConfigItem.debug_level c e sizes =
    bind-expected (λ (n : ℕ). returned (record c { debug_level = n }))
      (parse_unsigned-IsNumeral 10 c.debug_level _ 0 255 (omega arith)
        (print_decimal-IsNumeral c.debug_level) (omega arith) sizes.debug_most
        (let h : c.debug_level ≤ 255 = sizes.debug_most in omega arith))
assign-item_string sys ConfigItem.depend_mode c e sizes =
    bind-returned (λ (b : Bool). returned (record c { depend_mode = b }))
      (parse_bool-format_bool c.depend_mode)
assign-item_string sys ConfigItem.direct_mode c e sizes =
    bind-returned (λ (b : Bool). returned (record c { direct_mode = b }))
      (parse_bool-format_bool c.direct_mode)
assign-item_string sys ConfigItem.disable c e sizes =
    bind-returned (λ (b : Bool). returned (record c { disable = b }))
      (parse_bool-format_bool c.disable)
assign-item_string sys ConfigItem.extra_files_to_hash c e sizes = refl
assign-item_string sys ConfigItem.file_clone c e sizes =
    bind-returned (λ (b : Bool). returned (record c { file_clone = b }))
      (parse_bool-format_bool c.file_clone)
assign-item_string sys ConfigItem.hard_link c e sizes =
    bind-returned (λ (b : Bool). returned (record c { hard_link = b }))
      (parse_bool-format_bool c.hard_link)
assign-item_string sys ConfigItem.hash_dir c e sizes =
    bind-returned (λ (b : Bool). returned (record c { hash_dir = b }))
      (parse_bool-format_bool c.hash_dir)
assign-item_string sys ConfigItem.ignore_headers_in_manifest c e sizes = refl
assign-item_string sys ConfigItem.ignore_options c e sizes = refl
assign-item_string sys ConfigItem.inode_cache c e sizes =
    bind-returned (λ (b : Bool). returned (record c { inode_cache = b }))
      (parse_bool-format_bool c.inode_cache)
assign-item_string sys ConfigItem.keep_comments_cpp c e sizes =
    bind-returned (λ (b : Bool). returned (record c { keep_comments_cpp = b }))
      (parse_bool-format_bool c.keep_comments_cpp)
assign-item_string sys ConfigItem.log_file c e sizes = refl
assign-item_string sys ConfigItem.max_files c e sizes =
    bind-expected (λ (n : ℕ). returned (record c { max_files = n }))
      (parse_unsigned-IsNumeral 10 c.max_files _ 0 (2 ^ 64 - 1) (omega arith)
        (print_decimal-IsNumeral c.max_files) (omega arith)
        (let h : c.max_files < 2 ^ 64 = sizes.files_most in omega arith) sizes.files_most)
assign-item_string sys ConfigItem.max_size c e sizes = cc
assign-item_string sys ConfigItem.msvc_dep_prefix c e sizes = refl
assign-item_string sys ConfigItem.namespace_ c e sizes = refl
assign-item_string sys ConfigItem.path c e sizes = refl
assign-item_string sys ConfigItem.pch_external_checksum c e sizes =
    bind-returned (λ (b : Bool). returned (record c { pch_external_checksum = b }))
      (parse_bool-format_bool c.pch_external_checksum)
assign-item_string sys ConfigItem.prefix_command c e sizes = refl
assign-item_string sys ConfigItem.prefix_command_cpp c e sizes = refl
assign-item_string sys ConfigItem.read_only c e sizes =
    bind-returned (λ (b : Bool). returned (record c { read_only = b }))
      (parse_bool-format_bool c.read_only)
assign-item_string sys ConfigItem.read_only_direct c e sizes =
    bind-returned (λ (b : Bool). returned (record c { read_only_direct = b }))
      (parse_bool-format_bool c.read_only_direct)
assign-item_string sys ConfigItem.recache c e sizes =
    bind-returned (λ (b : Bool). returned (record c { recache = b }))
      (parse_bool-format_bool c.recache)
assign-item_string sys ConfigItem.remote_only c e sizes =
    bind-returned (λ (b : Bool). returned (record c { remote_only = b }))
      (parse_bool-format_bool c.remote_only)
assign-item_string sys ConfigItem.remote_storage c e sizes = refl
assign-item_string sys ConfigItem.reshare c e sizes =
    bind-returned (λ (b : Bool). returned (record c { reshare = b }))
      (parse_bool-format_bool c.reshare)
assign-item_string sys ConfigItem.run_second_cpp c e sizes =
    bind-returned (λ (b : Bool). returned (record c { run_second_cpp = b }))
      (parse_bool-format_bool c.run_second_cpp)
assign-item_string sys ConfigItem.sloppiness c e sizes =
    ap (λ (s : Sloppiness). returned (record c { sloppiness = s }))
      (parse_sloppiness-format_sloppiness c.sloppiness)
assign-item_string sys ConfigItem.stats c e sizes =
    bind-returned (λ (b : Bool). returned (record c { stats = b })) (parse_bool-format_bool c.stats)
assign-item_string sys ConfigItem.stats_log c e sizes = refl
assign-item_string sys ConfigItem.temporary_dir c e sizes = cc
assign-item_string sys ConfigItem.umask c e sizes =
    assign-format_umask sys c.umask c refl sizes.umask_most
