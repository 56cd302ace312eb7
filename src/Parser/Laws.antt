-- ===== src/Parser/Laws.antt =====
-- What a state that the parser returns satisfies: its platforms are installed and have their
-- runlevels, and every pointer of an object, a json or a volume leads to one of them.
use pantavisor.Prelude.{
  ◌≡◌, refl, sym, subst, String, Bool, true, false, ◌==◌, ◌>>=◌, Option, none, some, List,
  if◌then◌else◌, All,
}
use pantavisor.Json.{pv_json_get_value, pv_json_get_key_count}
use pantavisor.Platforms.{pv_platforms_default_runlevel, pv_platforms_remove_not_installed}
use pantavisor.Platforms.Runlevel.{IsParsed, IsLevelled, default_runlevel-IsLevelled}
use pantavisor.State.{
  StateSpec, PvObject, PvJson, PvState, pv_state_new, pv_jsons_add, pv_state_validate,
}
use pantavisor.State.Transfer.Pointers.{AllResolve, IsLinked}
use pantavisor.Parser.{ParserEnv}
use pantavisor.Parser.System.{
  linked, parse_items, ParseRun, crash, invalid, parsed, parse_bsp,
  system1_link_object_json_platforms, parse_keys, finish_parse, system1_parse,
}
use pantavisor.Parser.Link.{
  SameAddrs, default_runlevel-SameAddrs, AllResolve-map, IsInst, remove_not_installed-same, OptP,
  link_items-AllResolve,
}
use pantavisor.Parser.Building.{IsFine, volume_plat}
use pantavisor.Parser.Fine.{RunFine, parse_keys-Fine, parse_bsp-Fine}

-- Every pointer leads to a platform, and every platform has one of the four runlevels.
abbrev pub IsReady : PvState → Type 0
IsReady s = IsLinked s × All IsLevelled s.platforms

abbrev RunReady : ParseRun → Type 0
RunReady crash = Unit
RunReady invalid = Unit
RunReady (parsed s) = IsReady s

validate-IsReady :
    (s : PvState)
    → All IsInst s.platforms
    → All IsParsed s.platforms
    → IsLinked s
    → IsReady (pv_state_validate s)
unfolding pv_state_validate
validate-IsReady s i p l =
    let ps = pv_platforms_remove_not_installed s.platforms in
    let same = remove_not_installed-same s.platforms i in
    let keeps : SameAddrs s.platforms (pv_platforms_default_runlevel ps) =
      subst (λ qs. SameAddrs s.platforms (pv_platforms_default_runlevel qs)) (sym same)
        (default_runlevel-SameAddrs s.platforms) in
    (
      (
        AllResolve-map (λ (j : PvJson). j.plat) s.platforms _ s.jsons keeps l.0,
        AllResolve-map (λ (o : PvObject). o.plat) s.platforms _ s.objects keeps l.1,
        AllResolve-map volume_plat s.platforms _ s.volumes keeps l.2,
      ),
      default_runlevel-IsLevelled ps (subst (All IsParsed) (sym same) p),
    )

linked-Ready :
    (s : PvState) (os : Option (List PvObject)) (js : Option (List PvJson))
    → IsFine s
    → OptP (AllResolve (λ (o : PvObject). o.plat) s.platforms) os
    → OptP (AllResolve (λ (j : PvJson). j.plat) s.platforms) js
    → RunReady (
        linked (
          os
          >>= (λ objects. js >>= (λ jsons. some (record s { objects = objects; jsons = jsons })))))
linked-Ready s none js h ho hj = tt
linked-Ready s (some os) none h ho hj = tt
linked-Ready s (some os) (some js) h ho hj =
    validate-IsReady (record s { objects = os; jsons = js }) h.0 h.1 (hj, ho, h.2)

finish_parse-Ready : (buf : String) (r : ParseRun) → RunFine r → RunReady (finish_parse buf r)
unfolding system1_link_object_json_platforms
finish_parse-Ready buf crash h = tt
finish_parse-Ready buf invalid h = tt
finish_parse-Ready buf (parsed s) h =
    linked-Ready (record s { json = buf }) _ _ h
      (link_items-AllResolve (λ (o : PvObject). o.name) _ (λ o. o.plat) (λ plat o. refl) s.platforms
        s.objects)
      (link_items-AllResolve (λ (j : PvJson). j.name) _ (λ j. j.plat) (λ plat j. refl) s.platforms
        s.jsons)

parse_items-Ready :
    (env : ParserEnv) (buf : String) (o : Option PvState)
    → OptP IsFine o
    → RunReady (parse_items env buf o)
parse_items-Ready env buf none h = tt
parse_items-Ready env buf (some s) h = from_keys (env.object_keys buf)
  where
    from_keys :
        (o : Option (List (String × String)))
        → RunReady (elim o as (λ o. ParseRun) [
          | none ↦ invalid
          | some keys ↦ finish_parse buf (parse_keys env keys s)
        ])
    from_keys none = tt
    from_keys (some keys) =
        finish_parse-Ready buf (parse_keys env keys s) (parse_keys-Fine env keys s h)

system1_parse-Ready :
    (env : ParserEnv) (buf : String) (s : PvState) → IsFine s → RunReady (system1_parse env buf s)
unfolding system1_parse pv_jsons_add
system1_parse-Ready env buf s h =
    if-RunReady (pv_json_get_key_count "bsp/run.json" (env.tokens buf) == 1) _ _
      (from_value (pv_json_get_value "bsp/run.json" (env.tokens buf))) tt
  where
    if-RunReady :
        (b : Bool) (r t : ParseRun) → RunReady r → RunReady t → RunReady (if b then r else t)
    if-RunReady true r t h k = h
    if-RunReady false r t h k = k

    from_value :
        (o : Option String)
        → RunReady (elim o as (λ o. ParseRun) [
          | none ↦ invalid
          | some value ↦
              parse_items env buf (parse_bsp env value (pv_jsons_add "bsp/run.json" value s))
        ])
    from_value none = tt
    from_value (some value) =
        let t = pv_jsons_add "bsp/run.json" value s in
        parse_items-Ready env buf (parse_bsp env value t) (parse_bsp-Fine env value t h)

-- When the parser of `pantavisor-service-system@1` makes a state of a text, from a new state, every
-- pointer of the state's objects, jsons and volumes is null or leads to one of its platforms, and
-- every platform has one of the four runlevels.
pub parsed_state-IsReady :
    (env : ParserEnv) (buf rev : String) (spec : StateSpec) (s : PvState)
    → system1_parse env buf (pv_state_new rev spec) ≡ parsed s
    → IsLinked s × All IsLevelled s.platforms
unfolding pv_state_new
parsed_state-IsReady env buf rev spec s h =
    subst RunReady h (system1_parse-Ready env buf (pv_state_new rev spec) (tt, tt, tt))
