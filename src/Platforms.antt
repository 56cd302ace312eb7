-- ===== src/Platforms.antt =====
-- platforms.c: the platforms (containers) of a revision, as the list that the state keeps.
-- A platform has an address, `addr`, since objects, jsons and volumes point to it. Its type's
-- controller (the LXC plugin) and the process table are arguments. `config` is the first of
-- `configs`, no value where that is a null pointer. Loggers are left out.
pub mod Runlevel
pub mod Start
pub mod Stop
use pantavisor.Prelude.{
  ℕ, String, Bool, true, false, not, ◌&&◌, ◌||◌, Option, none, some, List, [], ◌∷◌, ◌++◌, str_eq,
  if◌then◌else◌,
}
use pantavisor.Prelude.Int.{ℤ, pos, negsuc, ltb_ℤ, eqb_ℤ}

pub data PlatStatus : Type 0 where
  plat_none plat_installed plat_started plat_stopped : PlatStatus

pub record Platform : Type 0 where
  pub addr : ℕ
  pub name : String
  pub ptype : String
  pub init_pid : ℤ
  pub status : PlatStatus
  pub runlevel : ℤ
  pub mgmt : Bool
  pub updated : Bool
  pub config : Option String

-- RUNLEVEL_DATA to RUNLEVEL_APP of pantavisor.h, and MAX_RUNLEVEL.
abbrev pub runlevel_data : ℕ
runlevel_data = 0

abbrev pub runlevel_root : ℕ
runlevel_root = 1

abbrev pub runlevel_platform : ℕ
runlevel_platform = 2

abbrev pub runlevel_app : ℕ
runlevel_app = 3

abbrev pub max_runlevel : ℕ
max_runlevel = 3

abbrev pub is_installed : PlatStatus → Bool
is_installed plat_installed = true
is_installed _ = false

abbrev pub is_started : PlatStatus → Bool
is_started plat_started = true
is_started _ = false

-- The new platform gets the address `addr` that `calloc` returned, and goes to the list's end.
unfoldable pub pv_platform_add : ℕ → String → List Platform → List Platform
pv_platform_add addr name platforms =
    platforms
    ++ record {
      addr = addr;
      name = name;
      ptype = "";
      init_pid = pos 0;
      status = plat_none;
      runlevel = negsuc 0;
      mgmt = true;
      updated = false;
      config = none;
    }
      ∷ []

-- The first platform of that name.
unfoldable pub pv_platform_get_by_name : List Platform → String → Option Platform
pv_platform_get_by_name [] name = none
pv_platform_get_by_name (p ∷ ps) name =
    if str_eq p.name name then some p else pv_platform_get_by_name ps name

-- Platforms that are not installed are taken out of the list and freed.
unfoldable pub pv_platforms_remove_not_installed : List Platform → List Platform
pv_platforms_remove_not_installed [] = []
pv_platforms_remove_not_installed (p ∷ ps) =
    if is_installed p.status
    then p ∷ pv_platforms_remove_not_installed ps
    else pv_platforms_remove_not_installed ps

-- The first loop of `pv_platforms_default_runlevel`: is any platform configured as root, and has
-- any no configuration?
unfoldable pub root_configured : List Platform → Bool
root_configured [] = false
root_configured (p ∷ ps) = eqb_ℤ p.runlevel (pos runlevel_root) || root_configured ps

-- `first_p->runlevel = RUNLEVEL_ROOT`, where `first_p` is the first platform without configuration.
unfoldable pub promote_first : List Platform → List Platform
promote_first [] = []
promote_first (p ∷ ps) =
    if eqb_ℤ p.runlevel (negsuc 0)
    then record p { runlevel = pos runlevel_root } ∷ ps
    else p ∷ promote_first ps

-- The last loop: what is still below DATA gets PLATFORM.
unfoldable pub set_rest : List Platform → List Platform
set_rest [] = []
set_rest (p ∷ ps) =
    (if ltb_ℤ p.runlevel (pos runlevel_data)
      then record p { runlevel = pos runlevel_platform }
      else p)
    ∷ set_rest ps

unfoldable pub pv_platforms_default_runlevel : List Platform → List Platform
pv_platforms_default_runlevel platforms =
    if root_configured platforms then set_rest platforms else set_rest (promote_first platforms)
