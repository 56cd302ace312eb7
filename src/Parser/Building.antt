-- ===== src/Parser/Building.antt =====
-- parser/parser_system1.c: what holds of a state while a platform is built at the end of its list.
use pantavisor.Prelude.{
  ℕ, ◌≡◌, refl, String, Bool, true, false, Option, none, some, List, [], ◌∷◌, ◌++◌, is_some,
  if◌then◌else◌, arith, All, inl,
}
use pantavisor.Json.{pv_json_get_value}
use pantavisor.Platforms.{Platform, pv_platform_add}
use pantavisor.Platforms.Runlevel.{IsParsed}
use pantavisor.State.{PvVolume, PvState, platform_at, resolves}
use pantavisor.State.Transfer.Pointers.{AllResolve, resolves-append_one}
use pantavisor.Parser.{ParserEnv}
use pantavisor.Parser.RunJson.{
  on_this, do_action_for_name, runlevel_named, add_volume, storage_keys, parse_storage,
}
use pantavisor.Parser.Link.{
  AllInit, AllInit-append, All-append, AllInit-update, All-update, SameAddrs, update_last-SameAddrs,
  AllResolve-map, IsInst,
}

abbrev pub volume_plat : PvVolume → Option ℕ
volume_plat v = v.plat

-- Between the platforms: all are installed, their runlevels are those of the parser, and the
-- volumes lead to them.
abbrev pub IsFine : PvState → Type 0
IsFine s =
    All IsInst s.platforms × All IsParsed s.platforms × AllResolve volume_plat s.platforms s.volumes

-- While the last platform is built, at the address `this`.
abbrev pub IsBuilding : ℕ → PvState → Type 0
IsBuilding this s =
    AllInit IsInst s.platforms
    × All IsParsed s.platforms
    × AllResolve volume_plat s.platforms s.volumes
    × (resolves s.platforms (some this) ≡ true)

new-resolves :
    (a : ℕ) (name : String) (ps : List Platform)
    → resolves (pv_platform_add a name ps) (some a) ≡ true
unfolding platform_at pv_platform_add
new-resolves a name [] = ground arith
new-resolves a name (p ∷ ps) = ground (arith, new-resolves a name ps)

add-SameAddrs :
    (a : ℕ) (name : String) (ps : List Platform) → SameAddrs ps (pv_platform_add a name ps)
unfolding pv_platform_add
add-SameAddrs a name ps k h = resolves-append_one ps _ k h

pub do_action_for_name-IsBuilding :
    (env : ParserEnv) (name : String) (s : PvState)
    → IsFine s
    → IsBuilding (env.calloc s.platforms) (do_action_for_name env name s)
unfolding do_action_for_name pv_platform_add
do_action_for_name-IsBuilding env name s h =
    let a = env.calloc s.platforms in
    (
      AllInit-append IsInst s.platforms _ h.0,
      All-append IsParsed s.platforms _ h.1 (inl refl),
      AllResolve-map volume_plat s.platforms _ s.volumes (add-SameAddrs a name s.platforms) h.2,
      new-resolves a name s.platforms,
    )

pub on_this-IsBuilding :
    (f : Platform → Platform) (this : ℕ) (s : PvState)
    → ((p : Platform) → (f p).addr ≡ p.addr)
    → ((p : Platform) → IsParsed p → IsParsed (f p))
    → IsBuilding this s
    → IsBuilding this (on_this f s)
on_this-IsBuilding f this s k l h =
    let same = update_last-SameAddrs f s.platforms k in
    (
      AllInit-update IsInst f s.platforms h.0,
      All-update IsParsed f s.platforms l h.1,
      AllResolve-map volume_plat s.platforms _ s.volumes same h.2,
      same (some this) h.3,
    )

pub add_volume-AllResolve :
    (ps : List Platform) (vs : List PvVolume) (v : PvVolume)
    → AllResolve volume_plat ps vs
    → resolves ps v.plat ≡ true
    → AllResolve volume_plat ps (vs ++ v ∷ [])
add_volume-AllResolve ps [] v h k = (k, tt)
add_volume-AllResolve ps (w ∷ vs) v h k = (h.0, add_volume-AllResolve ps vs v h.1 k)

pub add_volume-IsBuilding :
    (this : ℕ) (name : String) (s : PvState)
    → IsBuilding this s
    → IsBuilding this (add_volume (some this) name s)
add_volume-IsBuilding this name s h =
    (h.0, h.1, add_volume-AllResolve s.platforms s.volumes _ h.2 h.3, h.3)

pub runlevel_named-addr : (value : String) (p : Platform) → (runlevel_named value p).addr ≡ p.addr
unfolding runlevel_named
runlevel_named-addr value p = ground arith

pub runlevel_named-IsParsed :
    (value : String) (p : Platform) → IsParsed p → IsParsed (runlevel_named value p)
unfolding runlevel_named
runlevel_named-IsParsed value p h = ground (arith, h)

pub if-IsBuilding :
    (this : ℕ) (b : Bool) (s t : PvState)
    → IsBuilding this s
    → IsBuilding this t
    → IsBuilding this (if b then s else t)
if-IsBuilding this true s t h k = h
if-IsBuilding this false s t h k = k

storage_keys-IsBuilding :
    (env : ParserEnv) (this : ℕ) (keys : List (String × String)) (s : PvState)
    → IsBuilding this s
    → IsBuilding this (storage_keys env this keys s)
unfolding storage_keys
storage_keys-IsBuilding env this [] s h = h
storage_keys-IsBuilding env this ((key, value) ∷ keys) s h =
    let v = add_volume (some this) key s in
    if-IsBuilding this (is_some (pv_json_get_value "persistence" (env.tokens value)))
      (storage_keys env this keys v) (storage_keys env this keys s)
      (storage_keys-IsBuilding env this keys v (add_volume-IsBuilding this key s h))
      (storage_keys-IsBuilding env this keys s h)

pub parse_storage-IsBuilding :
    (env : ParserEnv) (this : ℕ) (buf : String) (s : PvState)
    → IsBuilding this s
    → IsBuilding this (parse_storage env this buf s)
unfolding parse_storage
parse_storage-IsBuilding env this buf s h = from_keys (env.object_keys buf)
  where
    from_keys :
        (o : Option (List (String × String)))
        → IsBuilding this
            (elim o as (λ o. PvState) [ none ↦ s | some keys ↦ storage_keys env this keys s ])
    from_keys none = h
    from_keys (some keys) = storage_keys-IsBuilding env this keys s h
