-- ===== src/State.antt =====
-- state.c, objects.c, jsons.c, volumes.c and addons.c: a revision's state, with its lists.
-- An object, a json or a volume points to a platform by the platform's address. Paths, sizes on
-- disk, volume types and the printing of a state are left out.
pub mod Transfer
pub mod Compare
pub mod Checksum
use pantavisor.Prelude.{
  ℕ, String, Bool, true, false, ◌==◌, Option, none, some, List, [], ◌∷◌, ◌++◌, str_eq, is_some,
  if◌then◌else◌,
}
use pantavisor.Platforms.{
  Platform, pv_platforms_remove_not_installed, pv_platforms_default_runlevel,
}

pub data StateSpec : Type 0 where
  spec_multi1 spec_system1 spec_unknown : StateSpec

pub record PvObject : Type 0 where
  pub name : String
  pub id : String
  pub size : ℕ
  pub plat : Option ℕ

pub record PvJson : Type 0 where
  pub name : String
  pub value : String
  pub plat : Option ℕ

pub record PvVolume : Type 0 where
  pub name : String
  pub plat : Option ℕ

-- The union of `struct pv_bsp`: the first word is `std.kernel` and `ut.fit` at once.
pub record BspImage : Type 0 where
  pub kernel_or_fit : Option String
  pub fdt : Option String
  pub initrd : Option String

abbrev pub no_image : BspImage
no_image = record { kernel_or_fit = none; fdt = none; initrd = none }

pub record PvState : Type 0 where
  pub rev : String
  pub spec : StateSpec
  pub image : BspImage
  pub platforms : List Platform
  pub volumes : List PvVolume
  pub addons : List String
  pub objects : List PvObject
  pub jsons : List PvJson
  pub json : String
  pub is_local : Bool

unfoldable pub pv_state_new : String → StateSpec → PvState
pv_state_new rev spec = record {
  rev = rev;
  spec = spec;
  image = no_image;
  platforms = [];
  volumes = [];
  addons = [];
  objects = [];
  jsons = [];
  json = "";
  is_local = false;
}

-- `dl_list_add`: a new object and a new json go to the front of their lists.
unfoldable pub pv_objects_add : String → String → PvState → PvState
pv_objects_add filename id s = record s {
  objects = record { name = filename; id = id; size = 0; plat = none } ∷ s.objects;
}

unfoldable pub pv_jsons_add : String → String → PvState → PvState
pv_jsons_add name value s = record s {
  jsons = record { name = name; value = value; plat = none } ∷ s.jsons;
}

-- `dl_list_add_tail`: a new volume and a new addon go to the end.
unfoldable pub pv_volume_add : String → PvState → PvState
pv_volume_add name s = record s { volumes = s.volumes ++ record { name = name; plat = none } ∷ [] }

unfoldable pub pv_addon_add : String → PvState → PvState
pv_addon_add name s = record s { addons = s.addons ++ name ∷ [] }

-- The first item of that name: `pv_objects_get_by_name` and `pv_jsons_get_by_name` are this loop,
-- each over its own list.
unfoldable pub get_by_name : {A : Type 0} → (A → String) → List A → String → Option A
get_by_name name_of [] name = none
get_by_name name_of (x ∷ xs) name =
    if str_eq (name_of x) name then some x else get_by_name name_of xs name

unfoldable pub pv_objects_get_by_name : PvState → String → Option PvObject
unfolding get_by_name
pv_objects_get_by_name s = get_by_name (λ o. o.name) s.objects

unfoldable pub pv_jsons_get_by_name : PvState → String → Option PvJson
unfolding get_by_name
pv_jsons_get_by_name s = get_by_name (λ j. j.name) s.jsons

-- Is an object of that id in the state? A null state has none.
unfoldable pub id_in_list : String → List PvObject → Bool
id_in_list id [] = false
id_in_list id (o ∷ os) = if str_eq o.id id then true else id_in_list id os

unfoldable pub pv_objects_id_in_step : Option PvState → String → Bool
unfolding id_in_list
pv_objects_id_in_step none id = false
pv_objects_id_in_step (some s) id = id_in_list id s.objects

-- Adding the loggers of all platforms is not modelled.
unfoldable pub pv_state_validate : PvState → PvState
pv_state_validate s = record s {
  platforms = pv_platforms_default_runlevel (pv_platforms_remove_not_installed s.platforms);
}

-- The platform at an address, read through the list that holds it; no value: nothing is there.
unfoldable pub platform_at : List Platform → ℕ → Option Platform
platform_at [] a = none
platform_at (p ∷ ps) a = if p.addr == a then some p else platform_at ps a

-- A pointer that is null or leads to a platform of the list.
abbrev pub resolves : List Platform → Option ℕ → Bool
resolves ps none = true
resolves ps (some a) = is_some (platform_at ps a)
