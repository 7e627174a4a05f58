-- ===== src/Config/Items/SetShown.antt =====
-- About set_item with what get_string_value returns (src/Config.cpp).
use mathlib.Core.Path.{subst}
use ccache.Prelude.{◌≡◌, refl, sym, ◌∙◌, true, false, Bytes, Option, none, some}
use ccache.Config.Tables.{ConfigKeyTableEntry, k_config_key_table, find, insert_or_assign}
use ccache.Config.Expand.{expand_environment_variables}
use ccache.Config.Expand.Escaped.{escape, expand-escape}
use ccache.Config.Settings.{Config}
use ccache.Config.Values.{Outcome, returned, ◌>>=◌, value_or_throw}
use ccache.Config.Items.{
  System, assign, canonical_key, set_entry, set_item, item_string, entry_string, get_string_value,
}
use ccache.Config.Items.Shown.{is_plain, IsSized, bind-returned, bind-expected, assign-item_string}

-- What get_string_value returns for a key that is found.
get_string_value-found :
    (sys : System) (key text : Bytes) (entry : ConfigKeyTableEntry) (c : Config)
    → find key k_config_key_table ≡ some entry
    → get_string_value sys key c ≡ returned text
    → item_string sys entry.item c ≡ text
unfolding get_string_value entry_string
get_string_value-found sys key text entry c found shown = returned_text (sym (shows found) ∙ shown)
  where
    shows :
        {o : Option ConfigKeyTableEntry}
        → o ≡ some entry
        → entry_string sys o key c ≡ returned (item_string sys entry.item c)
    shows e = rw e refl

    returned_text : {a b : Bytes} → returned a ≡ returned b → a ≡ b
    returned_text e = cc

-- For a key of the table whose item is not base_dir, cache_dir, max_size or temporary_dir, and a
-- configuration whose numbers are within their types and whose umask is one that is accepted:
-- set_item with the text that get_string_value returns for the key, each dollar sign written
-- twice, succeeds and changes nothing but the origin of the key, for an alias that of the key it
-- stands for.
pub set_item-get_string_value :
    (sys : System) (key text origin : Bytes) (entry : ConfigKeyTableEntry) (c : Config)
    → find key k_config_key_table ≡ some entry
    → is_plain entry.item ≡ true
    → IsSized c
    → get_string_value sys key c ≡ returned text
    → set_item sys key (escape text) none false origin c
      ≡ returned
          (record c { origins = insert_or_assign (canonical_key key entry.alias) origin c.origins })
unfolding set_item set_entry
set_item-get_string_value sys key text origin entry c found plain sizes shown =
    set_found found
    ∙ bind-expected set_value (expand-escape sys.getenv text)
    ∙ bind-returned set_origin assigned
  where
    set_origin : Config → Outcome Config
    set_origin d =
        returned
          (record d { origins = insert_or_assign (canonical_key key entry.alias) origin d.origins })

    set_value : Bytes → Outcome Config
    set_value value = assign sys entry.item value none false c >>= set_origin

    set_found :
        {o : Option ConfigKeyTableEntry}
        → o ≡ some entry
        → set_entry sys o key (escape text) none false origin c
          ≡ (value_or_throw (expand_environment_variables sys.getenv (escape text)) >>= set_value)
    set_found e = rw e refl

    assigned : assign sys entry.item text none false c ≡ returned c
    assigned =
        subst (λ (t : Bytes). assign sys entry.item t none false c ≡ returned c)
          (get_string_value-found sys key text entry c found shown)
          (assign-item_string sys entry.item c plain sizes)
