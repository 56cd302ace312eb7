-- ===== src/Parser/Actions.antt =====
-- parser/parser_system1.c: the entries of `system1_platform_key_action`, one after the other.
use pantavisor.Prelude.{ℕ, refl, String, true, Option, none, some, List, [], ◌∷◌, str_eq, ◌>>=◌}
use pantavisor.State.{PvState}
use pantavisor.Parser.{ParserEnv, do_lookup_json_key}
use pantavisor.Parser.RunJson.{
  do_action_for_type, do_action_for_runlevel, do_action_for_roles_object, do_action_for_roles_array,
  do_action_for_one_volume, do_action_for_one_log, each_item, on_value, on_array, platform_actions,
}
use pantavisor.Parser.Link.{OptP}
use pantavisor.Parser.Building.{
  IsBuilding, on_this-IsBuilding, add_volume-IsBuilding, runlevel_named-addr,
  runlevel_named-IsParsed, if-IsBuilding, parse_storage-IsBuilding,
}

module _ (this : ℕ) where
  abbrev KeepsBuilding : (String → PvState → Option PvState) → Type 0
  KeepsBuilding action =
      (item : String) (s : PvState) → IsBuilding this s → OptP (IsBuilding this) (action item s)

  abbrev KeepsValue : (String → PvState → PvState) → Type 0
  KeepsValue action = (v : String) (s : PvState) → IsBuilding this s → IsBuilding this (action v s)

  then-IsBuilding :
      (o : Option PvState) (f : PvState → Option PvState)
      → OptP (IsBuilding this) o
      → ((s : PvState) → IsBuilding this s → OptP (IsBuilding this) (f s))
      → OptP (IsBuilding this) (o >>= f)
  then-IsBuilding none f h k = tt
  then-IsBuilding (some s) f h k = k s h

  each_item-IsBuilding :
      (action : String → PvState → Option PvState) (items : List String) (s : PvState)
      → KeepsBuilding action
      → IsBuilding this s
      → OptP (IsBuilding this) (each_item action items s)
  unfolding each_item
  each_item-IsBuilding action [] s k h = h
  each_item-IsBuilding action (item ∷ items) s k h =
      then-IsBuilding (action item s) _ (k item s h)
        (λ t g. each_item-IsBuilding action items t k g)

  on_value-IsBuilding :
      (o : Option String) (action : String → PvState → PvState) (s : PvState)
      → KeepsValue action
      → IsBuilding this s
      → OptP (IsBuilding this) (on_value o action s)
  on_value-IsBuilding none action s k h = h
  on_value-IsBuilding (some v) action s k h = k v s h

  on_array-IsBuilding :
      (env : ParserEnv) (o : Option String) (action : String → PvState → Option PvState)
      (s : PvState)
      → KeepsBuilding action
      → IsBuilding this s
      → OptP (IsBuilding this) (on_array env o action s)
  on_array-IsBuilding env none action s k h = h
  on_array-IsBuilding env (some v) action s k h = from_items (env.array_items v)
    where
      from_items :
          (o : Option (List String))
          → OptP (IsBuilding this) (o >>= (λ items. each_item action items s))
      from_items none = tt
      from_items (some items) = each_item-IsBuilding action items s k h

  type-KeepsValue : KeepsValue do_action_for_type
  unfolding do_action_for_type
  type-KeepsValue v s = on_this-IsBuilding _ this s (λ p. refl) (λ p q. q)

  runlevel-KeepsValue : KeepsValue do_action_for_runlevel
  unfolding do_action_for_runlevel
  runlevel-KeepsValue v s =
      on_this-IsBuilding _ this s (runlevel_named-addr v) (runlevel_named-IsParsed v)

  roles_object-KeepsValue : KeepsValue (λ v. do_action_for_roles_object)
  unfolding do_action_for_roles_object
  roles_object-KeepsValue v s = on_this-IsBuilding _ this s (λ p. refl) (λ p q. q)

  roles_array-KeepsValue : KeepsValue do_action_for_roles_array
  unfolding do_action_for_roles_array
  roles_array-KeepsValue v s h =
      if-IsBuilding this (str_eq v "mgmt") _ s
        (on_this-IsBuilding (λ p. record p { mgmt = true }) this s (λ p. refl) (λ p q. q) h) h

  one_volume-KeepsValue : KeepsValue (do_action_for_one_volume this)
  unfolding do_action_for_one_volume
  one_volume-KeepsValue v s = add_volume-IsBuilding this v s

  one_log-KeepsBuilding : (env : ParserEnv) → KeepsBuilding (do_action_for_one_log env)
  unfolding do_action_for_one_log
  one_log-KeepsBuilding env item s h = from_keys (env.object_keys item)
    where
      from_keys :
          (o : Option (List (String × String)))
          → OptP (IsBuilding this) (elim o as (λ o. Option PvState) [
            | none ↦ none
            | some [] ↦ none
            | some (k ∷ keys) ↦ some s
          ])
      from_keys none = tt
      from_keys (some []) = tt
      from_keys (some (k ∷ keys)) = h

  -- What a platform's `run.json` does keeps the state in this form.
  pub platform_actions-IsBuilding :
      (env : ParserEnv) (keys : List (String × String)) (s : PvState)
      → IsBuilding this s
      → OptP (IsBuilding this) (platform_actions env this keys s)
  unfolding platform_actions
  platform_actions-IsBuilding env keys s h0 =
      let at = do_lookup_json_key keys in
      then-IsBuilding _ _ (on_value-IsBuilding (at "type") _ s type-KeepsValue h0) (λ s1 h1.
        then-IsBuilding _ _ (on_value-IsBuilding (at "runlevel") _ s1 runlevel-KeepsValue h1)
          (λ s2 h2.
            then-IsBuilding _ _ (on_value-IsBuilding (at "roles") _ s2 roles_object-KeepsValue h2)
              (λ s3 h3.
                then-IsBuilding _ _
                  (on_array-IsBuilding env (at "roles") _ s3 roles_array-KeepsValue h3)
                  (λ s4 h4.
                    then-IsBuilding _ _
                      (on_value-IsBuilding (at "root-volume") _ s4 one_volume-KeepsValue h4)
                      (λ s5 h5.
                        then-IsBuilding _ _
                          (on_array-IsBuilding env (at "volumes") _ s5 one_volume-KeepsValue h5)
                          (λ s6 h6.
                            then-IsBuilding _ _
                              (on_array-IsBuilding env (at "logs") _ s6 (one_log-KeepsBuilding env)
                                h6)
                              (λ s7 h7.
                                on_value-IsBuilding (at "storage") _ s7
                                  (parse_storage-IsBuilding env this) h7)))))))
