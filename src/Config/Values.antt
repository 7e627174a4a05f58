-- ===== src/Config/Values.antt =====
-- Exceptions while configuring, and values as text (src/Config.cpp).
use ccache.Prelude.{
  ℕ, zero, suc, ◌+◌, ◌/◌, ◌%◌, Bool, true, false, Bytes, [], ◌∷◌, Option, none, some, eq_bytes, ltb,
  ◌||◌, not, if◌then◌else◌, codes,
}
use ccache.Text.Values.{ValueError, Expected, unexpected, expected, to_lowercase}
use ccache.Config.Settings.{CompilerType}

-- core::Error by the throw site, with what the message shows; the wording is not kept.
pub data ConfigError : Type 0 where
  -- value_or_throw
  bad_value : ValueError → ConfigError
  -- parse_bool: the value, whether the setting is negated, and the variable
  invalid_boolean_variable : Bytes → Bool → Bytes → ConfigError
  not_a_boolean : Bytes → ConfigError
  not_absolute : Bytes → ConfigError
  missing_equal_sign : ConfigError
  -- parse_config_file: the path and the line
  in_line : Bytes → ℕ → ConfigError → ConfigError
  in_command_line : Bytes → ConfigError → ConfigError
  in_variable : Bool → Bytes → ConfigError → ConfigError
  unknown_option : Bytes → ConfigError
  failed_to_open : Bytes → ConfigError
  -- no exception: ASSERT ends the program
  assertion_failed : ConfigError
  -- core::Fatal of home_directory
  no_home_directory : ConfigError

pub data Outcome {ℓ} (A : Type ℓ) : Type ℓ where
  thrown : ConfigError → Outcome A
  returned : A → Outcome A

infixl 5 ◌>>=◌
abbrev pub ◌>>=◌ {ℓ κ} : {A : Type ℓ} {B : Type κ} → Outcome A → (A → Outcome B) → Outcome B
thrown e >>= next = thrown e
returned a >>= next = next a

-- A catch that throws the error again with more around it.
abbrev pub rethrown {ℓ} : {A : Type ℓ} → (ConfigError → ConfigError) → Outcome A → Outcome A
rethrown around (thrown e) = thrown (around e)
rethrown around (returned a) = returned a

unfoldable pub value_or_throw {ℓ} : {A : Type ℓ} → Expected A → Outcome A
value_or_throw (unexpected e) = thrown (bad_value e)
value_or_throw (expected a) = returned a

unfoldable pub parse_bool : Bytes → Option Bytes → Bool → Outcome Bool
parse_bool value (some env_var_key) negate =
    let lower_value = to_lowercase value in
    if eq_bytes value (codes "0")
      || (eq_bytes lower_value (codes "false")
          || (eq_bytes lower_value (codes "disable") || eq_bytes lower_value (codes "no")))
    then thrown (invalid_boolean_variable value negate env_var_key)
    else returned (not negate)
parse_bool value none negate =
    if eq_bytes value (codes "true")
    then returned true
    else if eq_bytes value (codes "false")
    then returned false
    else thrown (not_a_boolean value)

unfoldable pub format_bool : Bool → Bytes
format_bool value = if value then codes "true" else codes "false"

unfoldable pub parse_compiler_type : Bytes → CompilerType
parse_compiler_type value =
    if eq_bytes value (codes "clang")
    then CompilerType.clang
    else if eq_bytes value (codes "clang-cl")
    then CompilerType.clang_cl
    else if eq_bytes value (codes "gcc")
    then CompilerType.gcc
    else if eq_bytes value (codes "icl")
    then CompilerType.icl
    else if eq_bytes value (codes "msvc")
    then CompilerType.msvc
    else if eq_bytes value (codes "nvcc")
    then CompilerType.nvcc
    else if eq_bytes value (codes "other")
    then CompilerType.other
    else CompilerType.auto_guess

unfoldable pub compiler_type_to_string : CompilerType → Bytes
compiler_type_to_string CompilerType.auto_guess = codes "auto"
compiler_type_to_string CompilerType.clang_cl = codes "clang-cl"
compiler_type_to_string CompilerType.clang = codes "clang"
compiler_type_to_string CompilerType.gcc = codes "gcc"
compiler_type_to_string CompilerType.icl = codes "icl"
compiler_type_to_string CompilerType.msvc = codes "msvc"
compiler_type_to_string CompilerType.nvcc = codes "nvcc"
compiler_type_to_string CompilerType.other = codes "other"

-- The octal digits of `n` in front of `out`, `width` of them at least.
unfoldable pub octal_digits : ℕ → ℕ → ℕ → Bytes → Bytes
octal_digits zero width n out = out
octal_digits (suc fuel) zero n out =
    let more = octal_digits fuel 0 (n / 8) ((b'0' + n % 8) ∷ out) in if ltb 0 n then more else out
octal_digits (suc fuel) (suc width) n out = octal_digits fuel width (n / 8) ((b'0' + n % 8) ∷ out)

-- FMT("{:03o}", umask): a number has no more digits than its value plus the three.
unfoldable pub format_umask : Option ℕ → Bytes
unfolding octal_digits
format_umask none = []
format_umask (some umask) = octal_digits (umask + 4) 3 umask []
