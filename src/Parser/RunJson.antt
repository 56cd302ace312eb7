-- ===== src/Parser/RunJson.antt =====
-- parser/parser_system1.c: a platform from its `run.json`. `this` is the last item of the list of platforms.
-- Shares and loggers are read and left out.
use pantavisor.Prelude.{
  ℕ, String, true, false, Option, none, some, List, [], ◌∷◌, ◌++◌, str_eq, is_some, if◌then◌else◌,
  ◌>>=◌,
}
use pantavisor.Prelude.Int.{pos}
use pantavisor.Json.{pv_json_get_value}
use pantavisor.Platforms.{
  Platform, plat_installed, runlevel_data, runlevel_root, runlevel_platform, runlevel_app,
  pv_platform_add,
}
use pantavisor.State.{PvState}
use pantavisor.Parser.{ParserEnv, do_lookup_json_key}

-- `undefined`: the code reads the pointer `this` though nothing was assigned to it.
pub data AddedPlatform : Type 0 where
  undefined failed : AddedPlatform
  done : PvState → AddedPlatform

abbrev pub update_last : (Platform → Platform) → List Platform → List Platform
update_last f [] = []
update_last f (p ∷ []) = f p ∷ []
update_last f (p ∷ q ∷ ps) = p ∷ update_last f (q ∷ ps)

abbrev pub on_this : (Platform → Platform) → PvState → PvState
on_this f s = record s { platforms = update_last f s.platforms }

unfoldable pub do_action_for_name : ParserEnv → String → PvState → PvState
do_action_for_name env value s = record s {
  platforms = pv_platform_add (env.calloc s.platforms) value s.platforms;
}

unfoldable pub do_action_for_type : String → PvState → PvState
do_action_for_type value s = on_this (λ p. record p { ptype = value }) s

-- Another text leaves the runlevel as it is.
unfoldable pub runlevel_named : String → Platform → Platform
runlevel_named value p =
    if str_eq value "data"
    then record p { runlevel = pos runlevel_data }
    else if str_eq value "root"
    then record p { runlevel = pos runlevel_root }
    else if str_eq value "app"
    then record p { runlevel = pos runlevel_app }
    else if str_eq value "platform"
    then record p { runlevel = pos runlevel_platform }
    else p

unfoldable pub do_action_for_runlevel : String → PvState → PvState
do_action_for_runlevel value s = on_this (runlevel_named value) s

unfoldable pub do_action_for_roles_object : PvState → PvState
do_action_for_roles_object s = on_this (λ p. record p { mgmt = false }) s

unfoldable pub do_action_for_roles_array : String → PvState → PvState
do_action_for_roles_array value s =
    if str_eq value "mgmt" then on_this (λ p. record p { mgmt = true }) s else s

-- `pv_volume_add` and `v->plat = platform`
abbrev pub add_volume : Option ℕ → String → PvState → PvState
add_volume plat name s = record s {
  volumes = s.volumes ++ record { name = name; plat = plat } ∷ [];
}

unfoldable pub do_action_for_one_volume : ℕ → String → PvState → PvState
do_action_for_one_volume this value s = add_volume (some this) value s

-- An item of `logs` is an object with a key.
unfoldable pub do_action_for_one_log : ParserEnv → String → PvState → Option PvState
do_action_for_one_log env item s = elim (env.object_keys item) [
  | none ↦ none
  | some [] ↦ none
  | some (k ∷ keys) ↦ some s
]

-- The loop over the keys of `storage`.
unfoldable pub storage_keys : ParserEnv → ℕ → List (String × String) → PvState → PvState
storage_keys env this [] s = s
storage_keys env this ((key, value) ∷ keys) s =
    if is_some (pv_json_get_value "persistence" (env.tokens value))
    then storage_keys env this keys (add_volume (some this) key s)
    else storage_keys env this keys s

unfoldable pub parse_storage : ParserEnv → ℕ → String → PvState → PvState
parse_storage env this buf s = elim (env.object_keys buf) [
  | none ↦ s
  | some keys ↦ storage_keys env this keys s
]

-- `do_json_key_action_array`: the action for each item, up to the first failure.
unfoldable pub each_item :
    (String → PvState → Option PvState) → List String → PvState → Option PvState
each_item action [] s = some s
each_item action (item ∷ items) s = action item s >>= (λ s'. each_item action items s')

-- A key that is there, with the action on its value; on an array, which has to be one.
abbrev pub on_value : Option String → (String → PvState → PvState) → PvState → Option PvState
on_value none action s = some s
on_value (some value) action s = some (action value s)

abbrev pub on_array :
    ParserEnv → Option String → (String → PvState → Option PvState) → PvState → Option PvState
on_array env none action s = some s
on_array env (some value) action s = env.array_items value >>= (λ items. each_item action items s)

-- `system1_platform_key_action`, from its second entry on.
unfoldable pub platform_actions : ParserEnv → ℕ → List (String × String) → PvState → Option PvState
unfolding do_action_for_type do_action_for_runlevel do_action_for_roles_object
    do_action_for_roles_array do_action_for_one_volume do_action_for_one_log parse_storage
platform_actions env this keys s = do
  s1 ← on_value (do_lookup_json_key keys "type") do_action_for_type s
  s2 ← on_value (do_lookup_json_key keys "runlevel") do_action_for_runlevel s1
  s3 ← on_value (do_lookup_json_key keys "roles") (λ v. do_action_for_roles_object) s2
  s4 ←
      on_array env (do_lookup_json_key keys "roles") (λ v t. some (do_action_for_roles_array v t))
        s3
  s5 ← on_value (do_lookup_json_key keys "root-volume") (do_action_for_one_volume this) s4
  s6 ←
      on_array env (do_lookup_json_key keys "volumes")
        (λ v t. some (do_action_for_one_volume this v t)) s5
  s7 ← on_array env (do_lookup_json_key keys "logs") (do_action_for_one_log env) s6
  on_value (do_lookup_json_key keys "storage") (parse_storage env this) s7

-- `this->configs` is only set where there is a `config`.
abbrev pub config_or : Option String → Option String → Option String
config_or none old = old
config_or (some config) old = some config

-- A platform whose keys were all handled gets its config and is installed.
abbrev pub installed : Option String → Option PvState → AddedPlatform
installed config none = failed
installed config (some s) =
    done (on_this (λ p. record p { config = config_or config p.config; status = plat_installed }) s)

-- Without a name nothing is assigned to `this`.
abbrev pub named_platform :
    ParserEnv → List (String × String) → PvState → Option String → AddedPlatform
named_platform env keys s none = undefined
named_platform env keys s (some name) =
    installed (do_lookup_json_key keys "config")
      (platform_actions env (env.calloc s.platforms) keys (do_action_for_name env name s))

unfoldable pub parse_platform : ParserEnv → String → PvState → AddedPlatform
unfolding do_action_for_name
parse_platform env buf s = elim (env.object_keys buf) [
  | none ↦ failed
  | some keys ↦ named_platform env keys s (do_lookup_json_key keys "name")
]
