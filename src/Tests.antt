-- ===== src/Tests.antt =====
-- Concrete data for the tests: a revision with a root container and an app, a bootloader with an
-- environment of two keys, and a daemon.
mod Timers
mod Platforms
mod State
mod Storage
mod Boot
mod Updater
mod Controller
mod Documents
mod Encoding
mod Socket
mod Keys
use pantavisor.Prelude.{
  ℕ, String, Bool, true, false, Option, none, some, List, [], ◌∷◌, str_eq, if◌then◌else◌,
}
use pantavisor.Prelude.Int.{ℤ, pos}
use pantavisor.Timer.{Timer, Timespec, relativ_timer}
use pantavisor.Platforms.{PlatStatus, plat_installed, plat_started, Platform}
use pantavisor.State.{PvState, PvObject, PvJson, spec_system1, no_image}
use pantavisor.Bootloader.{BlOps, Bootloader}
use pantavisor.Updater.{UpdateState, Pending, Update, Pantavisor, Net}

abbrev pub container : String → ℕ → ℤ → PlatStatus → Platform
container name addr runlevel status = record {
  addr = addr;
  name = name;
  ptype = "lxc";
  init_pid = pos 7;
  status = status;
  runlevel = runlevel;
  mgmt = false;
  updated = false;
  config = some "lxc.container.conf";
}

abbrev pub root_installed : Platform
root_installed = container "root" 1 (pos 1) plat_installed

abbrev pub app_installed : Platform
app_installed = container "app" 2 (pos 3) plat_installed

abbrev pub root_started : Platform
root_started = container "root" 1 (pos 1) plat_started

abbrev pub app_started : Platform
app_started = container "app" 2 (pos 3) plat_started

abbrev pub object : String → String → Option ℕ → PvObject
object name id plat = record { name = name; id = id; size = 10; plat = plat }

-- A revision with two containers; the object is the app's, the json the root's.
abbrev pub revision : String → String → List Platform → PvState
revision rev id platforms = record {
  rev = rev;
  spec = spec_system1;
  image = no_image;
  platforms = platforms;
  volumes = [];
  addons = [];
  objects = object "app.squashfs" id (some 2) ∷ [];
  jsons = record { name = "root/run.json"; value = "{}"; plat = some 1 } ∷ [];
  json = "{}";
  is_local = false;
}

abbrev pub rev_old : PvState
rev_old = revision "4" "aa" (root_started ∷ app_started ∷ [])

abbrev pub rev_new : PvState
rev_new = revision "5" "bb" (root_installed ∷ app_installed ∷ [])

-- An environment of two keys, which takes every value.
pub record Env : Type 0 where
  pub rev_key : Option String
  pub try_key : Option String

abbrev pub env_ops : BlOps Env
env_ops = record {
  set_env_key = λ key value e. (
    if str_eq key "pv_rev"
        then record e { rev_key = some value }
        else record e { try_key = some value },
    true,
  );
  unset_env_key = λ key e. (
    if str_eq key "pv_rev" then record e { rev_key = none } else record e { try_key = none },
    true,
  );
  get_env_key = λ key e. if str_eq key "pv_rev" then e.rev_key else e.try_key;
  flush_env = λ e. (e, true);
}

-- Revision 4 runs, and 5 is tried.
abbrev pub boot_old : Bootloader Env
boot_old = record {
  pv_rev = "4";
  pv_try = some "5";
  pv_done = some "4";
  ops = some env_ops;
  env = record { rev_key = some "4"; try_key = some "5" };
}

abbrev pub boot_new : Bootloader Env
boot_new = record boot_old { pv_rev = "5" }

abbrev pub at_second : ℕ → Timespec
at_second n = record { tv_sec = n; tv_nsec = 0 }

abbrev pub timer_at : ℕ → Timer
timer_at n = record { kind = relativ_timer; timeout = at_second n }

abbrev pub online_net : Net
online_net = record { auth_ok = true; put_ok = true }

abbrev pub update_with : UpdateState → Pending → Update
update_with status pending = record {
  status = status;
  runlevel = pos 3;
  retry_timer = timer_at 0;
  pending = pending;
  retries = 1;
  total_downloaded = 0;
  is_local = false;
}

abbrev pub daemon : Bootloader Env → Option Update → Option PvState → Pantavisor Env
daemon bootloader update state = record {
  update = update;
  state = state;
  bootloader = bootloader;
  cmd = none;
  remote = true;
  remote_mode = true;
  online = true;
  unclaimed = false;
  synced = true;
  loading_objects = false;
  reports = [];
  freed = [];
  removed = [];
}
