-- ===== src/CompOpt.antt =====
-- What ccache knows of compiler options (src/compopt.cpp).
pub mod Search
pub mod Found
use ccache.Prelude.{
  ℕ, zero, suc, ◌+◌, ◌-◌, ◌*◌, ◌/◌, ◌%◌, ◌^◌, Bool, true, false, Bytes, List, [], ◌∷◌, Option, none,
  some, length, get_elem?, take, ltb, ◌==◌, ◌&&◌, not, if◌then◌else◌, codes,
}

abbrev pub too_hard : ℕ
too_hard = 1

abbrev pub too_hard_direct : ℕ
too_hard_direct = 2

abbrev pub takes_arg : ℕ
takes_arg = 4

abbrev pub takes_concat_arg : ℕ
takes_concat_arg = 8

abbrev pub takes_path : ℕ
takes_path = 16

abbrev pub affects_cpp : ℕ
affects_cpp = 32

abbrev pub affects_comp : ℕ
affects_comp = 64

pub record CompOpt : Type 0 where
  pub name : Bytes
  -- A sum of flags.
  pub type : ℕ

abbrev pub opt : Bytes → ℕ → CompOpt
opt name type = record { name = name; type = type }

abbrev pub compopts : List CompOpt
compopts =
    opt (codes "--Werror") (takes_arg + affects_comp)
    ∷ opt (codes "--analyzer-output") too_hard
    ∷ opt (codes "--compiler-bindir") (affects_cpp + takes_arg)
    ∷ opt (codes "--compiler-options") (affects_cpp + takes_arg)
    ∷ opt (codes "--config") takes_arg
    ∷ opt (codes "--gcc-toolchain=") (takes_concat_arg + takes_path)
    ∷ opt (codes "--include") (affects_cpp + takes_arg + takes_concat_arg + takes_path)
    ∷ opt (codes "--libdevice-directory") (affects_cpp + takes_arg)
    ∷ opt (codes "--output-directory") (affects_cpp + takes_arg)
    ∷ opt (codes "--param") takes_arg
    ∷ opt (codes "--save-temps") too_hard
    ∷ opt (codes "--save-temps=cwd") too_hard
    ∷ opt (codes "--save-temps=obj") too_hard
    ∷ opt (codes "--serialize-diagnostics") (takes_arg + takes_path)
    ∷ opt (codes "--specs") takes_arg
    ∷ opt (codes "-A") takes_arg
    ∷ opt (codes "-AI") (takes_arg + takes_concat_arg + takes_path)
    ∷ opt (codes "-B") (takes_arg + takes_concat_arg + takes_path)
    ∷ opt (codes "-D") (affects_cpp + takes_arg + takes_concat_arg)
    ∷ opt (codes "-E") too_hard
    ∷ opt (codes "-EP") too_hard
    ∷ opt (codes "-F") (affects_cpp + takes_arg + takes_concat_arg + takes_path)
    ∷ opt (codes "-FI") (affects_cpp + takes_arg + takes_concat_arg + takes_path)
    ∷ opt (codes "-FU") (affects_cpp + takes_arg + takes_concat_arg + takes_path)
    ∷ opt (codes "-Fp") (affects_cpp + takes_arg + takes_concat_arg + takes_path)
    ∷ opt (codes "-G") takes_arg
    ∷ opt (codes "-I") (affects_cpp + takes_arg + takes_concat_arg + takes_path)
    ∷ opt (codes "-L") takes_arg
    ∷ opt (codes "-M") too_hard
    ∷ opt (codes "-MF") takes_arg
    ∷ opt (codes "-MJ") (takes_arg + too_hard)
    ∷ opt (codes "-MM") too_hard
    ∷ opt (codes "-MQ") takes_arg
    ∷ opt (codes "-MT") takes_arg
    ∷ opt (codes "-Tc") (takes_arg + takes_path + too_hard)
    ∷ opt (codes "-Tp") (takes_arg + takes_path + too_hard)
    ∷ opt (codes "-U") (affects_cpp + takes_arg + takes_concat_arg)
    ∷ opt (codes "-V") takes_arg
    ∷ opt (codes "-Wa,") (takes_concat_arg + affects_comp)
    ∷ opt (codes "-Werror") affects_comp
    ∷ opt (codes "-Wl,") (takes_concat_arg + affects_comp)
    ∷ opt (codes "-Wno-error") affects_comp
    ∷ opt (codes "-Xassembler") (takes_arg + takes_concat_arg + affects_comp)
    ∷ opt (codes "-Xclang") takes_arg
    ∷ opt (codes "-Xcompiler") (affects_cpp + takes_arg)
    ∷ opt (codes "-Xlinker") (takes_arg + takes_concat_arg + affects_comp)
    ∷ opt (codes "-Xpreprocessor") (affects_cpp + too_hard_direct + takes_arg)
    ∷ opt (codes "-Yc") (affects_cpp + takes_arg + takes_concat_arg + takes_path)
    ∷ opt (codes "-Yu") (affects_cpp + takes_arg + takes_concat_arg + takes_path)
    ∷ opt (codes "-all_load") affects_comp
    ∷ opt (codes "-analyze") too_hard
    ∷ opt (codes "-arch") takes_arg
    ∷ opt (codes "-ast-dump") affects_comp
    ∷ opt (codes "-ast-dump-all") affects_comp
    ∷ opt (codes "-ast-dump-all=") (affects_comp + takes_concat_arg)
    ∷ opt (codes "-ast-dump-decl-types") affects_comp
    ∷ opt (codes "-ast-dump-filter") (affects_comp + takes_arg)
    ∷ opt (codes "-ast-dump-lookups") affects_comp
    ∷ opt (codes "-ast-dump=") (affects_comp + takes_concat_arg)
    ∷ opt (codes "-ast-list") affects_comp
    ∷ opt (codes "-ast-merge") (too_hard + takes_arg)
    ∷ opt (codes "-ast-print") affects_comp
    ∷ opt (codes "-ast-view") too_hard
    ∷ opt (codes "-aux-info") takes_arg
    ∷ opt (codes "-b") takes_arg
    ∷ opt (codes "-bind_at_load") affects_comp
    ∷ opt (codes "-bundle") affects_comp
    ∷ opt (codes "-ccbin") (affects_cpp + takes_arg)
    ∷ opt (codes "-emit-pch") affects_comp
    ∷ opt (codes "-emit-pth") affects_comp
    ∷ opt (codes "-external:I") (affects_cpp + takes_arg + takes_concat_arg + takes_path)
    ∷ opt (codes "-fmodule-header") too_hard
    ∷ opt (codes "-fmodules-ts") too_hard
    ∷ opt (codes "-fno-working-directory") affects_cpp
    ∷ opt (codes "-fplugin=libcc1plugin") too_hard
    ∷ opt (codes "-frepo") too_hard
    ∷ opt (codes "-ftime-trace") too_hard
    ∷ opt (codes "-fworking-directory") affects_cpp
    ∷ opt (codes "-gcc-toolchain") (takes_arg + takes_path)
    ∷ opt (codes "-gen-cdb-fragment-path") (takes_arg + too_hard)
    ∷ opt (codes "-gtoggle") too_hard
    ∷ opt (codes "-idirafter") (affects_cpp + takes_arg + takes_concat_arg + takes_path)
    ∷ opt (codes "-iframework") (affects_cpp + takes_arg + takes_concat_arg + takes_path)
    ∷ opt (codes "-imacros") (affects_cpp + takes_arg + takes_concat_arg + takes_path)
    ∷ opt (codes "-imsvc") (affects_cpp + takes_arg + takes_concat_arg + takes_path)
    ∷ opt (codes "-imultilib") (affects_cpp + takes_arg + takes_concat_arg + takes_path)
    ∷ opt (codes "-include") (affects_cpp + takes_arg + takes_concat_arg + takes_path)
    ∷ opt (codes "-include-pch") (affects_cpp + takes_arg + takes_concat_arg + takes_path)
    ∷ opt (codes "-include-pth") (affects_cpp + takes_arg + takes_concat_arg + takes_path)
    ∷ opt (codes "-install_name") takes_arg
    ∷ opt (codes "-iprefix") (affects_cpp + takes_arg + takes_concat_arg + takes_path)
    ∷ opt (codes "-iquote") (affects_cpp + takes_arg + takes_concat_arg + takes_path)
    ∷ opt (codes "-isysroot") (affects_cpp + takes_arg + takes_concat_arg + takes_path)
    ∷ opt (codes "-isystem") (affects_cpp + takes_arg + takes_concat_arg + takes_path)
    ∷ opt (codes "-ivfsoverlay") takes_arg
    ∷ opt (codes "-iwithprefix") (affects_cpp + takes_arg + takes_concat_arg + takes_path)
    ∷ opt (codes "-iwithprefixbefore") (affects_cpp + takes_arg + takes_concat_arg + takes_path)
    ∷ opt (codes "-ldir") (affects_cpp + takes_arg)
    ∷ opt (codes "-link") too_hard
    ∷ opt (codes "-nolibc") affects_comp
    ∷ opt (codes "-nostdinc") affects_cpp
    ∷ opt (codes "-nostdinc++") affects_cpp
    ∷ opt (codes "-odir") (affects_cpp + takes_arg)
    ∷ opt (codes "-pie") affects_comp
    ∷ opt (codes "-prebind") affects_comp
    ∷ opt (codes "-preload") affects_comp
    ∷ opt (codes "-rdynamic") affects_comp
    ∷ opt (codes "-remap") affects_cpp
    ∷ opt (codes "-save-temps") too_hard
    ∷ opt (codes "-save-temps=cwd") too_hard
    ∷ opt (codes "-save-temps=obj") too_hard
    ∷ opt (codes "-specs") takes_arg
    ∷ opt (codes "-stdlib=") (affects_cpp + takes_concat_arg)
    ∷ opt (codes "-trigraphs") affects_cpp
    ∷ opt (codes "-u") (takes_arg + takes_concat_arg)
    ∷ opt (codes "-v") affects_comp
    ∷ opt (codes "-wrapper") (takes_arg + too_hard)
    ∷ opt (codes "-z") (takes_arg + takes_concat_arg + affects_comp)
    ∷ []

-- The sign of what a comparison function returns.
pub data Comparison : Type 0 where
  less equal greater : Comparison

-- std::string_view::compare
unfoldable pub compare : Bytes → Bytes → Comparison
compare [] [] = equal
compare [] (y ∷ ys) = less
compare (x ∷ xs) [] = greater
compare (x ∷ xs) (y ∷ ys) =
    let rest = compare xs ys in if ltb x y then less else if ltb y x then greater else rest

unfoldable pub compare_compopts : Bytes → CompOpt → Comparison
compare_compopts option entry = compare option entry.name

unfoldable pub compare_prefix_compopts : Bytes → CompOpt → Comparison
compare_prefix_compopts option entry = compare (take (length entry.name) option) entry.name

-- bsearch of the C library between two indexes, by halving as is usual.
module _ {ℓ} {A : Type ℓ} where
  unfoldable pub bsearch_loop : (A → Comparison) → List A → ℕ → ℕ → ℕ → Option A
  bsearch_loop compare_key base zero l u = none
  bsearch_loop compare_key base (suc rounds) l u =
      let idx = (l + u) / 2 in
      let left = bsearch_loop compare_key base rounds l idx in
      let right = bsearch_loop compare_key base rounds (idx + 1) u in
      if ltb l u
      then elim (get_elem? base idx) [
        | none ↦ none
        | some entry ↦ elim (compare_key entry) [
          | less ↦ left
          | equal ↦ some entry
          | greater ↦ right
        ]
      ]
      else none

  unfoldable pub bsearch : (A → Comparison) → List A → Option A
  bsearch compare_key base = bsearch_loop compare_key base (length base + 1) 0 (length base)

unfoldable pub find : Bytes → Option CompOpt
find option = bsearch (compare_compopts option) compopts

unfoldable pub find_prefix : Bytes → Option CompOpt
find_prefix option = bsearch (compare_prefix_compopts option) compopts

unfoldable pub has_flag : ℕ → ℕ → Bool
has_flag flag type = type / flag % 2 == 1

unfoldable pub has_type : ℕ → Option CompOpt → Bool
unfolding has_flag
has_type flag none = false
has_type flag (some co) = has_flag flag co.type

unfoldable pub is_less : Comparison → Bool
is_less less = true
is_less _ = false

-- The loop of compopt_verify_sortedness_and_flags; `before` is the entry in front.
unfoldable pub verify_from : Option Bytes → List CompOpt → Bool
verify_from before [] = true
verify_from none (entry ∷ entries) =
    not (has_flag too_hard entry.type && has_flag takes_concat_arg entry.type)
    && verify_from (some entry.name) entries
verify_from (some name) (entry ∷ entries) =
    not (has_flag too_hard entry.type && has_flag takes_concat_arg entry.type)
    && (is_less (compare name entry.name) && verify_from (some entry.name) entries)

unfoldable pub compopt_verify_sortedness_and_flags : Bool
compopt_verify_sortedness_and_flags = verify_from none compopts

unfoldable pub compopt_affects_cpp_output : Bytes → Bool
compopt_affects_cpp_output option = has_type affects_cpp (find option)

unfoldable pub compopt_affects_compiler_output : Bytes → Bool
compopt_affects_compiler_output option = has_type affects_comp (find option)

unfoldable pub compopt_too_hard : Bytes → Bool
compopt_too_hard option = has_type too_hard (find option)

unfoldable pub compopt_too_hard_for_direct_mode : Bytes → Bool
compopt_too_hard_for_direct_mode option = has_type too_hard_direct (find option)

unfoldable pub compopt_takes_path : Bytes → Bool
compopt_takes_path option = has_type takes_path (find option)

unfoldable pub compopt_takes_arg : Bytes → Bool
compopt_takes_arg option = has_type takes_arg (find option)

unfoldable pub compopt_takes_concat_arg : Bytes → Bool
compopt_takes_concat_arg option = has_type takes_concat_arg (find option)

unfoldable pub compopt_prefix_affects_cpp_output : Bytes → Bool
compopt_prefix_affects_cpp_output option =
    let co = find_prefix option in has_type takes_concat_arg co && has_type affects_cpp co

unfoldable pub compopt_prefix_affects_compiler_output : Bytes → Bool
compopt_prefix_affects_compiler_output option =
    let co = find_prefix option in has_type takes_concat_arg co && has_type affects_comp co
