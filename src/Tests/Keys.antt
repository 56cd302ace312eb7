-- ===== src/Tests/Keys.antt =====
-- Runs of the meta data, the settings, U-Boot's environment, the names of revisions and the initialisers.
use Prim.Native.Char.{Char, char}
use Prim.Native.String.{◌++◌ as str_append}
use pantavisor.Prelude.{
  ne_of_str_eq, ℕ, suc, ◌≡◌, ◌↔◌, refl, String, Bool, true, false, Option, none, some, List, [],
  ◌∷◌, arith,
}
use pantavisor.Metadata.{Meta, Metadata, JsonItem, pv_metadata_parse_usermeta}
use pantavisor.Metadata.Lookup.{look}
use pantavisor.Metadata.Sync.{parse_usermeta_syncs}
use pantavisor.Metadata.Stored.{IsMirrored, parse_usermeta-IsMirrored}
use pantavisor.Metadata.{save_usermeta}
use pantavisor.Settings.{ConfigItem, load_key_value_file, config_get_value}
use pantavisor.Settings.Lines.{FileLine, setting, remark, load_file_values}
use pantavisor.Str.{has_prefix, strlen}
use pantavisor.Storage.Revision.{slashes, pv_storage_is_revision_local, is_local_iff}
use pantavisor.Bootloader.{
  Bootloader, pv_bootloader_set_commited, pv_bootloader_set_installed, pv_bootloader_set_failed,
}
use pantavisor.Uboot.{
  uboot_set_env_key, uboot_unset_env_key, uboot_flush_env, uboot_ops, uboot_get_env_key, render,
}
use pantavisor.Uboot.Laws.{IsGoodEnv, uboot_updates, uboot_fails}
use pantavisor.Init.{Initialiser, pv_do_execute_init, EndsAt, init_stops_at_failure}

abbrev meta : String → String → Bool → Meta
meta key value updated = record { key = key; value = value; updated = updated }

abbrev item : String → String → JsonItem
item key value = record { key = key; value = value; primitive = false }

-- Two keys, of which the cloud sends one, with a new value.
abbrev stored_meta : Metadata
stored_meta = record {
  usermeta = meta "a" "1" false ∷ meta "b" "2" false ∷ [];
  devmeta = [];
  devmeta_uploaded = true;
  acts = save_usermeta "a" "1" ∷ save_usermeta "b" "2" ∷ [];
}

parse_usermeta_syncs_example :
    look (pv_metadata_parse_usermeta (some (item "a" "3" ∷ [])) stored_meta).usermeta "a"
    ≡ some ("3", false)
parse_usermeta_syncs_example =
    parse_usermeta_syncs (some (item "a" "3" ∷ [])) stored_meta "a" (refl, (refl, tt))

mirrored : IsMirrored stored_meta
mirrored = ((refl, (refl, tt)), λ k. ground arith)

parse_usermeta-IsMirrored_example :
    IsMirrored (pv_metadata_parse_usermeta (some (item "a" "3" ∷ [])) stored_meta)
parse_usermeta-IsMirrored_example =
    parse_usermeta-IsMirrored (some (item "a" "3" ∷ [])) stored_meta mirrored

abbrev newline : Char
newline = char 10 tt

abbrev later_lines : List FileLine
later_lines = setting "level" "4" newline ∷ []

load_file_values_example :
    (list' : List ConfigItem) × (load_key_value_file
        ("level=3\n" ∷ "nothing\n" ∷ "level=4\n" ∷ [])
        []
      ≡ some list')
    × (config_get_value list' "level" ≡ some "4")
unfolding config_get_value
load_file_values_example =
    load_file_values (setting "level" "3" newline) (remark "nothing" newline) later_lines [] "level"
      ((refl, ne_of_str_eq "level" "" refl), (refl, ((refl, ne_of_str_eq "level" "" refl), tt)))

is_local_iff_example :
    (pv_storage_is_revision_local "locals/a" ≡ true)
    ↔ ((name : String) × ("locals/a" ≡ str_append "locals/" name) × (slashes name ≡ 0))
is_local_iff_example = is_local_iff "locals/a"

abbrev entries : List String
entries = "bootdelay=1" ∷ "pv_rev=4" ∷ "pv_trying=5" ∷ []

abbrev uboot_env : Option String
uboot_env = some (render entries)

abbrev uboot : Bootloader (Option String)
uboot = record {
  pv_rev = "4";
  pv_try = none;
  pv_done = some "4";
  ops = some (uboot_ops true);
  env = uboot_env;
}

entries_good : IsGoodEnv uboot_env
unfolding has_prefix strlen
entries_good = (entries, refl, ((refl, refl, refl), ((refl, refl, refl), ((refl, refl, refl), tt))))

commits : (pv_bootloader_set_commited "5" uboot).1 ≡ true
unfolding pv_bootloader_set_commited uboot_set_env_key strlen uboot_unset_env_key uboot_flush_env
commits = refl

uboot_updates_example :
    let committed = (pv_bootloader_set_commited "5" uboot).0 in
    let installed = (pv_bootloader_set_installed "5" uboot).0 in
    (uboot_get_env_key "pv_rev" committed.env ≡ some "5")
    × (uboot_get_env_key "pv_try" committed.env ≡ none)
    × (uboot_get_env_key "pv_try" installed.env ≡ some "5")
    × (uboot_get_env_key "pv_rev" installed.env ≡ uboot_get_env_key "pv_rev" uboot_env)
unfolding strlen
uboot_updates_example = uboot_updates true "5" uboot refl entries_good (refl, omega arith) commits

uboot_fails_example :
    let b' = (pv_bootloader_set_failed uboot).0 in
    (uboot_get_env_key "pv_try" b'.env ≡ none)
    × (uboot_get_env_key "pv_rev" b'.env ≡ uboot_get_env_key "pv_rev" uboot_env)
uboot_fails_example = uboot_fails true uboot refl entries_good

-- Three initialisers that count; the first may fail and does, the second fails.
abbrev step : Bool → Bool → Initialiser ℕ
step ok can_fail = record { init_fn = λ n. (suc n, ok); can_fail = can_fail }

abbrev table : List (Initialiser ℕ)
table = step false true ∷ step false false ∷ step true false ∷ []

table_fails : (pv_do_execute_init table 0).1 ≡ false
unfolding pv_do_execute_init
table_fails = refl

init_stops_at_failure_example :
    (before : List (Initialiser ℕ)) × (i : Initialiser ℕ) × (after : List (Initialiser ℕ)) × EndsAt
      before 0 i after table
init_stops_at_failure_example = init_stops_at_failure table 0 table_fails
