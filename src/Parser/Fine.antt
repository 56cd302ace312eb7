-- ===== src/Parser/Fine.antt =====
-- What the keys of a state's json do to the invariant of the platforms and volumes.
use pantavisor.Prelude.{
  ℕ, refl, String, Bool, true, false, ◌||◌, ◌>>=◌, Option, none, some, List, [], ◌∷◌, if◌then◌else◌,
}
use pantavisor.Str.{has_prefix, strrchr}
use pantavisor.Json.{pv_json_get_value}
use pantavisor.Platforms.Runlevel.{IsParsed}
use pantavisor.State.{PvState, pv_objects_add, pv_jsons_add, pv_addon_add}
use pantavisor.Parser.{ParserEnv, do_lookup_json_key}
use pantavisor.Parser.RunJson.{
  AddedPlatform, undefined, failed, done, installed, named_platform, do_action_for_name,
  platform_actions, parse_platform,
}
use pantavisor.Parser.System.{
  after_platform, ParseRun, crash, invalid, parsed, volume_of, addons_of, addon_items, has_image,
  bsp_image, parse_bsp, is_ext, parse_keys,
}
use pantavisor.Parser.Link.{
  All-finish, update_last-SameAddrs, AllResolve-map, IsInst, All-update, OptP, if-OptP,
}
use pantavisor.Parser.Building.{
  IsFine, IsBuilding, volume_plat, add_volume-AllResolve, do_action_for_name-IsBuilding,
}
use pantavisor.Parser.Actions.{platform_actions-IsBuilding}

abbrev PlatformFine : AddedPlatform → Type 0
PlatformFine undefined = Unit
PlatformFine failed = Unit
PlatformFine (done s) = IsFine s

installed-Fine :
    (this : ℕ) (config : Option String) (o : Option PvState)
    → OptP (IsBuilding this) o
    → PlatformFine (installed config o)
installed-Fine this config none b = tt
installed-Fine this config (some t) b = (
  All-finish IsInst _ t.platforms (λ p. refl) b.0,
  All-update IsParsed _ t.platforms (λ p q. q) b.1,
  AllResolve-map volume_plat t.platforms _ t.volumes
      (update_last-SameAddrs _ t.platforms (λ p. refl)) b.2,
)

named_platform-Fine :
    (env : ParserEnv) (keys : List (String × String)) (s : PvState) (o : Option String)
    → IsFine s
    → PlatformFine (named_platform env keys s o)
named_platform-Fine env keys s none h = tt
named_platform-Fine env keys s (some name) h =
    let this = env.calloc s.platforms in
    let t = do_action_for_name env name s in
    installed-Fine this (do_lookup_json_key keys "config") (platform_actions env this keys t)
      (platform_actions-IsBuilding this env keys t (do_action_for_name-IsBuilding env name s h))

parse_platform-Fine :
    (env : ParserEnv) (buf : String) (s : PvState)
    → IsFine s
    → PlatformFine (parse_platform env buf s)
unfolding parse_platform
parse_platform-Fine env buf s h = from_keys (env.object_keys buf)
  where
    from_keys :
        (o : Option (List (String × String)))
        → PlatformFine (elim o as (λ o. AddedPlatform) [
          | none ↦ failed
          | some keys ↦ named_platform env keys s (do_lookup_json_key keys "name")
        ])
    from_keys none = tt
    from_keys (some keys) = named_platform-Fine env keys s (do_lookup_json_key keys "name") h

abbrev pub RunFine : ParseRun → Type 0
RunFine crash = Unit
RunFine invalid = Unit
RunFine (parsed s) = IsFine s

if-RunFine : (b : Bool) (r t : ParseRun) → RunFine r → RunFine t → RunFine (if b then r else t)
if-RunFine true r t h k = h
if-RunFine false r t h k = k

pub parse_keys-Fine :
    (env : ParserEnv) (keys : List (String × String)) (s : PvState)
    → IsFine s
    → RunFine (parse_keys env keys s)
unfolding parse_keys pv_jsons_add pv_objects_add
parse_keys-Fine env [] s h = h
parse_keys-Fine env ((key, value) ∷ keys) s h =
    let after_this : (t : PvState) → IsFine t → RunFine (parse_keys env keys t) =
      parse_keys-Fine env keys in
    if-RunFine (has_prefix key "bsp/run.json" || has_prefix key "#spec") _ _ (after_this s h) (
      if-RunFine (is_ext (strrchr key 47) "/run.json") _ _
        (after_platform-Fine (parse_platform env value s)
          (λ t. parse_keys env keys (pv_jsons_add key value t)) (parse_platform-Fine env value s h)
          (λ t g. after_this (pv_jsons_add key value t) g))
        (if-RunFine (is_ext (strrchr key 47) "/src.json" || is_ext (strrchr key 47) "/build.json") _
          _ (after_this s h)
          (if-RunFine (is_ext (strrchr key 46) ".json") _ _
            (after_this (pv_jsons_add key value s) h) (after_this (pv_objects_add key value s) h))))
  where
    after_platform-Fine :
        (r : AddedPlatform) (next : PvState → ParseRun)
        → PlatformFine r
        → ((t : PvState) → IsFine t → RunFine (next t))
        → RunFine (after_platform r next)
    after_platform-Fine undefined next g k = tt
    after_platform-Fine failed next g k = tt
    after_platform-Fine (done t) next g k = k t g

volume_of-Fine : (o : Option String) (s : PvState) → IsFine s → IsFine (volume_of o s)
volume_of-Fine none s h = h
volume_of-Fine (some name) s h = (h.0, h.1, add_volume-AllResolve s.platforms s.volumes _ h.2 refl)

addons_of-Fine : (names : List String) (s : PvState) → IsFine s → IsFine (addons_of names s)
unfolding pv_addon_add
addons_of-Fine [] s h = h
addons_of-Fine (name ∷ names) s h = addons_of-Fine names (pv_addon_add name s) h

pub parse_bsp-Fine :
    (env : ParserEnv) (value : String) (s : PvState)
    → IsFine s
    → OptP IsFine (parse_bsp env value s)
unfolding parse_bsp
parse_bsp-Fine env value s h =
    let toks = env.tokens value in
    let image = bsp_image toks (pv_json_get_value "fit" toks) s.image in
    let s1 = volume_of (pv_json_get_value "firmware" toks) (record s { image = image }) in
    let s2 = volume_of (pv_json_get_value "modules" toks) s1 in
    let h1 = volume_of-Fine (pv_json_get_value "firmware" toks) (record s { image = image }) h in
    if-OptP IsFine (has_image image) _ none
      (from_keys (env.object_keys value) s2
        (volume_of-Fine (pv_json_get_value "modules" toks) s1 h1))
      tt
  where
    from_keys :
        (o : Option (List (String × String))) (t : PvState)
        → IsFine t
        → OptP IsFine (o >>= (λ keys. some (addons_of (addon_items env keys) t)))
    from_keys none t g = tt
    from_keys (some keys) t g = addons_of-Fine (addon_items env keys) t g
