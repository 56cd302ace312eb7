-- ===== src/State/Checksum.antt =====
-- `pv_state_validate_checksum` of state.c. The three checks of storage.c that it calls read files
-- and hash them: they are arguments.
use pantavisor.Prelude.{
  String, Bool, true, false, ◌≡◌, ◌↔◌, List, [], ◌∷◌, arith, All, if◌then◌else◌,
}
use pantavisor.State.{PvState, PvObject, PvJson}

-- By revision, name and checksum or value; the pool is by checksum alone.
pub record Checks : Type 0 where
  pub trails_object : String → String → String → Bool
  pub pool_object : String → Bool
  pub trails_json : String → String → String → Bool

unfoldable pub objects_valid : Checks → String → List PvObject → Bool
objects_valid c rev [] = true
objects_valid c rev (o ∷ os) =
    if c.trails_object rev o.name o.id
    then if c.pool_object o.id then objects_valid c rev os else false
    else false

unfoldable pub jsons_valid : Checks → String → List PvJson → Bool
jsons_valid c rev [] = true
jsons_valid c rev (j ∷ js) =
    if c.trails_json rev j.name j.value then jsons_valid c rev js else false

unfoldable pub pv_state_validate_checksum : Checks → PvState → Bool
unfolding objects_valid jsons_valid
pv_state_validate_checksum c s =
    if objects_valid c s.rev s.objects then jsons_valid c s.rev s.jsons else false

abbrev pub ObjectValid : Checks → String → PvObject → Type 0
ObjectValid c rev o = (c.trails_object rev o.name o.id ≡ true) × (c.pool_object o.id ≡ true)

abbrev pub JsonValid : Checks → String → PvJson → Type 0
JsonValid c rev j = c.trails_json rev j.name j.value ≡ true

objects_valid_iff :
    (c : Checks) (rev : String) (os : List PvObject)
    → (objects_valid c rev os ≡ true) ↔ All (ObjectValid c rev) os
unfolding objects_valid
objects_valid_iff c rev [] = ground arith
objects_valid_iff c rev (o ∷ os) = ground (arith, objects_valid_iff c rev os)

jsons_valid_iff :
    (c : Checks) (rev : String) (js : List PvJson)
    → (jsons_valid c rev js ≡ true) ↔ All (JsonValid c rev) js
unfolding jsons_valid
jsons_valid_iff c rev [] = ground arith
jsons_valid_iff c rev (j ∷ js) = ground (arith, jsons_valid_iff c rev js)

-- A state is valid exactly when each of its objects is, in the trails and in the pool, and each of
-- its jsons.
pub pv_state_validate_checksum_iff :
    (c : Checks) (s : PvState)
    → (pv_state_validate_checksum c s ≡ true)
      ↔ (All (ObjectValid c s.rev) s.objects × All (JsonValid c s.rev) s.jsons)
unfolding pv_state_validate_checksum
pv_state_validate_checksum_iff c s =
    ground (arith, objects_valid_iff c s.rev s.objects, jsons_valid_iff c s.rev s.jsons)
