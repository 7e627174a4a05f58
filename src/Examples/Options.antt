-- ===== src/Examples/Options.antt =====
-- The table of compiler options (src/compopt.cpp).
use ccache.Prelude.{◌≡◌, true, false, ◌++◌, codes}
use ccache.CompOpt.{
  compopts, compare_compopts, find, compopt_prefix_affects_cpp_output, compopt_affects_cpp_output,
  compopt_takes_concat_arg,
}
use ccache.CompOpt.Search.{search}
use ccache.CompOpt.Found.{find-search, compopt_prefix_affects_cpp_output-framework}

find_example : find (codes "-isystem") ≡ search (compare_compopts (codes "-isystem")) compopts
find_example = find-search (codes "-isystem")

framework_example :
    (compopt_prefix_affects_cpp_output (codes "-Fm" ++ codes "ine") ≡ false)
    × (compopt_affects_cpp_output (codes "-F") ≡ true)
    × (compopt_takes_concat_arg (codes "-F") ≡ true)
framework_example = compopt_prefix_affects_cpp_output-framework (codes "ine")
