-- ===== src/Parser/System.antt =====
-- parser/parser_system1.c: a state from its json, and the links of its objects and jsons; parser/parser.c:
-- the parser that the json names.
use pantavisor.Prelude.{
  ℕ, String, Bool, true, false, not, ◌&&◌, ◌||◌, ◌==◌, Option, none, some, List, [], ◌∷◌, str_eq,
  is_some, ◌>>=◌, if◌then◌else◌,
}
use pantavisor.Str.{has_prefix, strrchr, strtok}
use pantavisor.Json.{JsonTok, pv_json_get_value, pv_json_get_key_count}
use pantavisor.Platforms.{Platform, pv_platform_get_by_name}
use pantavisor.State.{
  StateSpec, spec_multi1, spec_system1, spec_unknown, BspImage, PvObject, PvJson, PvState,
  pv_state_new, pv_objects_add, pv_jsons_add, pv_addon_add, pv_state_validate,
}
use pantavisor.Parser.{ParserEnv}
use pantavisor.Parser.RunJson.{AddedPlatform, undefined, failed, done, add_volume, parse_platform}

-- What parsing a state leads to: a read of a null pointer or of one that was never assigned, no
-- state, or a state.
pub data ParseRun : Type 0 where
  crash invalid : ParseRun
  parsed : PvState → ParseRun

abbrev pub volume_of : Option String → PvState → PvState
volume_of none s = s
volume_of (some name) s = add_volume none name s

abbrev pub addons_of : List String → PvState → PvState
addons_of [] s = s
addons_of (name ∷ names) s = addons_of names (pv_addon_add name s)

-- The first key that starts with `addons`.
abbrev pub addon_items : ParserEnv → List (String × String) → List String
addon_items env [] = []
addon_items env ((key, value) ∷ keys) =
    if has_prefix "addons" key
    then elim (env.array_items value) [ none ↦ [] | some items ↦ items ]
    else addon_items env keys

-- The test of the code, which reads the same word as `std.kernel` and as `ut.fit`.
abbrev pub has_image : BspImage → Bool
has_image image = not (
    (not (is_some image.kernel_or_fit) || not (is_some image.initrd))
    && not (is_some image.kernel_or_fit))

-- A FIT image leaves the other two words as they were.
abbrev pub bsp_image : List JsonTok → Option String → BspImage → BspImage
bsp_image toks (some fit) image = record image { kernel_or_fit = some fit }
bsp_image toks none image = record {
  kernel_or_fit = pv_json_get_value "linux" toks;
  fdt = pv_json_get_value "fdt" toks;
  initrd = pv_json_get_value "initrd" toks;
}

unfoldable pub parse_bsp : ParserEnv → String → PvState → Option PvState
parse_bsp env value s =
    let toks = env.tokens value in
    let image = bsp_image toks (pv_json_get_value "fit" toks) s.image in
    let s1 = volume_of (pv_json_get_value "firmware" toks) (record s { image = image }) in
    let s2 = volume_of (pv_json_get_value "modules" toks) s1 in
    if has_image image
    then env.object_keys value >>= (λ keys. some (addons_of (addon_items env keys) s2))
    else none

-- The address of the platform of a name, or null.
abbrev pub addr_named : List Platform → String → Option ℕ
addr_named ps name = elim (pv_platform_get_by_name ps name) [ none ↦ none | some p ↦ some p.addr ]

-- The platform of an item's name, and whether the item is under `_config/`. `none` is a null name
-- given to `strcmp`, which `pv_platform_get_by_name` calls where there is a platform.
abbrev pub under_config : List Platform → Option (String × String) → Option (Option ℕ × Bool)
under_config [] none = some (none, true)
under_config (p ∷ ps) none = none
under_config ps (some (dir, rest)) = some (addr_named ps dir, true)

abbrev pub first_dir : List Platform → Option (String × String) → Option (Option ℕ × Bool)
first_dir ps none = none
first_dir ps (some (dir, rest)) =
    if str_eq dir "_config"
    then under_config ps (strtok rest 47)
    else some (addr_named ps dir, false)

unfoldable pub item_platform : List Platform → String → Option (Option ℕ × Bool)
item_platform ps name = first_dir ps (strtok name 47)

-- An item under `_config/` without platform is removed.
abbrev pub link_item :
    {A : Type 0}
    → (Option ℕ → A → A)
    → A
    → Option (Option ℕ × Bool)
    → Option (List A)
    → Option (List A)
link_item set_plat x none rest = none
link_item set_plat x (some (plat, in_config)) none = none
link_item set_plat x (some (plat, in_config)) (some ys) =
    some (if in_config && not (is_some plat) then ys else set_plat plat x ∷ ys)

unfoldable pub link_items :
    {A : Type 0} → (A → String) → (Option ℕ → A → A) → List Platform → List A → Option (List A)
unfolding item_platform
link_items name_of set_plat ps [] = some []
link_items name_of set_plat ps (x ∷ xs) =
    link_item set_plat x (item_platform ps (name_of x)) (link_items name_of set_plat ps xs)

-- `none`: a null name was given to `strcmp`.
unfoldable pub system1_link_object_json_platforms : PvState → Option PvState
system1_link_object_json_platforms s = do
  objects ←
      link_items (λ (o : PvObject). o.name) (λ plat o. record o { plat = plat }) s.platforms
        s.objects
  jsons ←
      link_items (λ (j : PvJson). j.name) (λ plat j. record j { plat = plat }) s.platforms s.jsons
  some (record s { objects = objects; jsons = jsons })

abbrev pub is_ext : Option String → String → Bool
is_ext none ext = false
is_ext (some e) ext = str_eq e ext

abbrev pub after_platform : AddedPlatform → (PvState → ParseRun) → ParseRun
after_platform undefined next = crash
after_platform failed next = invalid
after_platform (done s) next = next s

-- The loop over the keys. A key is skipped that `bsp/run.json` or `#spec` starts with.
unfoldable pub parse_keys : ParserEnv → List (String × String) → PvState → ParseRun
parse_keys env [] s = parsed s
parse_keys env ((key, value) ∷ keys) s =
    if has_prefix key "bsp/run.json" || has_prefix key "#spec"
    then parse_keys env keys s
    else if is_ext (strrchr key 47) "/run.json"
    then after_platform (parse_platform env value s)
        (λ t. parse_keys env keys (pv_jsons_add key value t))
    else if is_ext (strrchr key 47) "/src.json" || is_ext (strrchr key 47) "/build.json"
    then parse_keys env keys s
    else if is_ext (strrchr key 46) ".json"
    then parse_keys env keys (pv_jsons_add key value s)
    else parse_keys env keys (pv_objects_add key value s)

-- What is done once the keys are read.
abbrev pub linked : Option PvState → ParseRun
linked none = crash
linked (some s) = parsed (pv_state_validate s)

abbrev pub finish_parse : String → ParseRun → ParseRun
finish_parse buf crash = crash
finish_parse buf invalid = invalid
finish_parse buf (parsed s) = linked (system1_link_object_json_platforms (record s { json = buf }))

abbrev pub parse_items : ParserEnv → String → Option PvState → ParseRun
parse_items env buf none = invalid
parse_items env buf (some s) = elim (env.object_keys buf) [
  | none ↦ invalid
  | some keys ↦ finish_parse buf (parse_keys env keys s)
]

unfoldable pub system1_parse : ParserEnv → String → PvState → ParseRun
system1_parse env buf s =
    if pv_json_get_key_count "bsp/run.json" (env.tokens buf) == 1
    then elim (pv_json_get_value "bsp/run.json" (env.tokens buf)) [
      | none ↦ invalid
      | some value ↦ parse_items env buf (parse_bsp env value (pv_jsons_add "bsp/run.json" value s))
    ]
    else invalid

unfoldable pub pv_parser_convert_spec : String → StateSpec
pv_parser_convert_spec spec =
    if str_eq "pantavisor-multi-platform@1" spec
    then spec_multi1
    else if str_eq "pantavisor-service-system@1" spec
    then spec_system1
    else spec_unknown

-- `multi1` is the parser of parser/parser_multi1.c; a text that is no json has no keys.
unfoldable pub pv_parser_get_state :
    (String → PvState → ParseRun) → ParserEnv → String → String → ParseRun
pv_parser_get_state multi1 env buf rev = elim (pv_json_get_value "#spec" (env.tokens buf)) [
  | none ↦ invalid
  | some spec ↦ elim (pv_parser_convert_spec spec) as (λ v. ParseRun) [
    | spec_multi1 ↦ multi1 buf (pv_state_new rev spec_multi1)
    | spec_system1 ↦ system1_parse env buf (pv_state_new rev spec_system1)
    | spec_unknown ↦ invalid
  ]
]
