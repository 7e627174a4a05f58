-- ===== src/Config/Items/Sized.antt =====
-- About the sizes of the numbers that set_item stores (src/Config.cpp).
use mathlib.Core.Path.{subst}
use ccache.Prelude.{
  ℕ, ◌-◌, ◌^◌, ◌≤◌, ◌<◌, ◌≡◌, refl, ap, Bool, true, Bytes, [], ◌∷◌, Option, some, arith,
}
use ccache.Text.Values.{ℤ, pos, negsuc, Expected, unexpected, expected, parse_umask}
use ccache.Text.Values.Limits.{parse_unsigned-most, parse_signed-between}
use ccache.Config.Tables.{ConfigItem}
use ccache.Config.Settings.{SizeUnitPrefixType, Config}
use ccache.Config.Sloppy.{parse_sloppiness}
use ccache.Config.Values.{Outcome, thrown, returned, ◌>>=◌, value_or_throw, parse_compiler_type}
use ccache.Config.Items.{System, assign, set_cache_dir}
use ccache.Config.Items.Shown.{IsSized, IsUmask}

returned-inj : {A : Type 0} {a b : A} → returned a ≡ returned b → a ≡ b
returned-inj e = cc

value_or_throw-expected :
    {A : Type 0} (x : Expected A) (a : A) → value_or_throw x ≡ returned a → x ≡ expected a
unfolding value_or_throw
value_or_throw-expected (unexpected e) a h = cc
value_or_throw-expected (expected b) a h = ap expected (returned-inj h)

below_word : {n : ℕ} → n ≤ 2 ^ 64 - 1 → n < 2 ^ 64
below_word h = omega arith

pub returned-IsSized : (c d : Config) → IsSized c → returned c ≡ returned d → IsSized d
returned-IsSized c d s h = subst IsSized (returned-inj h) s

-- What a call makes of a result keeps to the sizes where each result does.
bind-IsSized :
    {A : Type 0} {o : Outcome A} (f : A → Config) (d : Config)
    → ((a : A) → o ≡ returned a → IsSized (f a))
    → (o >>= λ a. returned (f a)) ≡ returned d
    → IsSized d
bind-IsSized {o = thrown e} f d step h = cc
bind-IsSized {o = returned a} f d step h = returned-IsSized (f a) d (step a refl) h

pub assign-IsSized :
    (sys : System) (item : ConfigItem) (value : Bytes) (env_var_key : Option Bytes) (negate : Bool)
    (c d : Config)
    → IsSized c
    → assign sys item value env_var_key negate c ≡ returned d
    → IsSized d
unfolding assign set_cache_dir IsUmask parse_umask
assign-IsSized sys ConfigItem.absolute_paths_in_stderr value env_var_key negate c d s h =
    bind-IsSized (λ (b : Bool). record c { absolute_paths_in_stderr = b }) d (λ b e. s) h
assign-IsSized sys ConfigItem.base_dir value env_var_key negate c d s h =
    bind-IsSized (λ (b : Bytes). record c { base_dir = b }) d (λ b e. s) h
assign-IsSized sys ConfigItem.cache_dir value env_var_key negate c d s h =
    returned-IsSized (set_cache_dir sys value c) d (s) h
assign-IsSized sys ConfigItem.compiler value env_var_key negate c d s h =
    returned-IsSized (record c { compiler = value }) d (s) h
assign-IsSized sys ConfigItem.compiler_check value env_var_key negate c d s h =
    returned-IsSized (record c { compiler_check = value }) d (s) h
assign-IsSized sys ConfigItem.compiler_type value env_var_key negate c d s h =
    returned-IsSized (record c { compiler_type = parse_compiler_type value }) d (s) h
assign-IsSized sys ConfigItem.compression value env_var_key negate c d s h =
    bind-IsSized (λ (b : Bool). record c { compression = b }) d (λ b e. s) h
assign-IsSized sys ConfigItem.compression_level value env_var_key negate c d s h =
    bind-IsSized (λ (n : ℤ). record c { compression_level = n }) d
      (λ n e.
        let b =
          parse_signed-between value (negsuc 127) (pos 127) n (value_or_throw-expected _ n e) in
        record {
          level_low = b.0;
          level_high = b.1;
          debug_most = s.debug_most;
          files_most = s.files_most;
          umask_most = s.umask_most;
        })
      h
assign-IsSized sys ConfigItem.cpp_extension value env_var_key negate c d s h =
    returned-IsSized (record c { cpp_extension = value }) d (s) h
assign-IsSized sys ConfigItem.debug value env_var_key negate c d s h =
    bind-IsSized (λ (b : Bool). record c { debug = b }) d (λ b e. s) h
assign-IsSized sys ConfigItem.debug_dir value env_var_key negate c d s h =
    returned-IsSized (record c { debug_dir = value }) d (s) h
assign-IsSized sys ConfigItem.debug_level value env_var_key negate c d s h =
    bind-IsSized (λ (n : ℕ). record c { debug_level = n }) d
      (λ n e. record {
        level_low = s.level_low;
        level_high = s.level_high;
        debug_most = parse_unsigned-most value 0 255 10 n (value_or_throw-expected _ n e);
        files_most = s.files_most;
        umask_most = s.umask_most;
      })
      h
assign-IsSized sys ConfigItem.depend_mode value env_var_key negate c d s h =
    bind-IsSized (λ (b : Bool). record c { depend_mode = b }) d (λ b e. s) h
assign-IsSized sys ConfigItem.direct_mode value env_var_key negate c d s h =
    bind-IsSized (λ (b : Bool). record c { direct_mode = b }) d (λ b e. s) h
assign-IsSized sys ConfigItem.disable value env_var_key negate c d s h =
    bind-IsSized (λ (b : Bool). record c { disable = b }) d (λ b e. s) h
assign-IsSized sys ConfigItem.extra_files_to_hash value env_var_key negate c d s h =
    returned-IsSized (record c { extra_files_to_hash = value }) d (s) h
assign-IsSized sys ConfigItem.file_clone value env_var_key negate c d s h =
    bind-IsSized (λ (b : Bool). record c { file_clone = b }) d (λ b e. s) h
assign-IsSized sys ConfigItem.hard_link value env_var_key negate c d s h =
    bind-IsSized (λ (b : Bool). record c { hard_link = b }) d (λ b e. s) h
assign-IsSized sys ConfigItem.hash_dir value env_var_key negate c d s h =
    bind-IsSized (λ (b : Bool). record c { hash_dir = b }) d (λ b e. s) h
assign-IsSized sys ConfigItem.ignore_headers_in_manifest value env_var_key negate c d s h =
    returned-IsSized (record c { ignore_headers_in_manifest = value }) d (s) h
assign-IsSized sys ConfigItem.ignore_options value env_var_key negate c d s h =
    returned-IsSized (record c { ignore_options = value }) d (s) h
assign-IsSized sys ConfigItem.inode_cache value env_var_key negate c d s h =
    bind-IsSized (λ (b : Bool). record c { inode_cache = b }) d (λ b e. s) h
assign-IsSized sys ConfigItem.keep_comments_cpp value env_var_key negate c d s h =
    bind-IsSized (λ (b : Bool). record c { keep_comments_cpp = b }) d (λ b e. s) h
assign-IsSized sys ConfigItem.log_file value env_var_key negate c d s h =
    returned-IsSized (record c { log_file = value }) d (s) h
assign-IsSized sys ConfigItem.max_files value env_var_key negate c d s h =
    bind-IsSized (λ (n : ℕ). record c { max_files = n }) d
      (λ n e. record {
        level_low = s.level_low;
        level_high = s.level_high;
        debug_most = s.debug_most;
        files_most =
            below_word
              (parse_unsigned-most value 0 (2 ^ 64 - 1) 10 n (value_or_throw-expected _ n e));
        umask_most = s.umask_most;
      })
      h
assign-IsSized sys ConfigItem.max_size value env_var_key negate c d s h =
    bind-IsSized
      (λ (b : ℕ × SizeUnitPrefixType). record c { max_size = b.0; size_prefix_type = b.1 }) d
      (λ b e. s) h
assign-IsSized sys ConfigItem.msvc_dep_prefix value env_var_key negate c d s h =
    returned-IsSized (record c { msvc_dep_prefix = value }) d (s) h
assign-IsSized sys ConfigItem.namespace_ value env_var_key negate c d s h =
    returned-IsSized (record c { namespace_ = value }) d (s) h
assign-IsSized sys ConfigItem.path value env_var_key negate c d s h =
    returned-IsSized (record c { path = value }) d (s) h
assign-IsSized sys ConfigItem.pch_external_checksum value env_var_key negate c d s h =
    bind-IsSized (λ (b : Bool). record c { pch_external_checksum = b }) d (λ b e. s) h
assign-IsSized sys ConfigItem.prefix_command value env_var_key negate c d s h =
    returned-IsSized (record c { prefix_command = value }) d (s) h
assign-IsSized sys ConfigItem.prefix_command_cpp value env_var_key negate c d s h =
    returned-IsSized (record c { prefix_command_cpp = value }) d (s) h
assign-IsSized sys ConfigItem.read_only value env_var_key negate c d s h =
    bind-IsSized (λ (b : Bool). record c { read_only = b }) d (λ b e. s) h
assign-IsSized sys ConfigItem.read_only_direct value env_var_key negate c d s h =
    bind-IsSized (λ (b : Bool). record c { read_only_direct = b }) d (λ b e. s) h
assign-IsSized sys ConfigItem.recache value env_var_key negate c d s h =
    bind-IsSized (λ (b : Bool). record c { recache = b }) d (λ b e. s) h
assign-IsSized sys ConfigItem.remote_only value env_var_key negate c d s h =
    bind-IsSized (λ (b : Bool). record c { remote_only = b }) d (λ b e. s) h
assign-IsSized sys ConfigItem.remote_storage value env_var_key negate c d s h =
    returned-IsSized (record c { remote_storage = value }) d (s) h
assign-IsSized sys ConfigItem.reshare value env_var_key negate c d s h =
    bind-IsSized (λ (b : Bool). record c { reshare = b }) d (λ b e. s) h
assign-IsSized sys ConfigItem.run_second_cpp value env_var_key negate c d s h =
    bind-IsSized (λ (b : Bool). record c { run_second_cpp = b }) d (λ b e. s) h
assign-IsSized sys ConfigItem.sloppiness value env_var_key negate c d s h =
    returned-IsSized (record c { sloppiness = parse_sloppiness value }) d (s) h
assign-IsSized sys ConfigItem.stats value env_var_key negate c d s h =
    bind-IsSized (λ (b : Bool). record c { stats = b }) d (λ b e. s) h
assign-IsSized sys ConfigItem.stats_log value env_var_key negate c d s h =
    returned-IsSized (record c { stats_log = value }) d (s) h
assign-IsSized sys ConfigItem.temporary_dir value env_var_key negate c d s h =
    returned-IsSized
      (record c { temporary_dir = value; temporary_dir_configured_explicitly = true }) d (s) h
assign-IsSized sys ConfigItem.umask [] env_var_key negate c d s h = returned-IsSized c d s h
assign-IsSized sys ConfigItem.umask (v ∷ value) env_var_key negate c d s h =
    bind-IsSized (λ (n : ℕ). record c { umask = some n }) d
      (λ n e. record {
        level_low = s.level_low;
        level_high = s.level_high;
        debug_most = s.debug_most;
        files_most = s.files_most;
        umask_most = parse_unsigned-most (v ∷ value) 0 511 8 n (value_or_throw-expected _ n e);
      })
      h
