-- ===== src/Controller.antt =====
-- pantavisor.c: the controller, a state machine over the daemon's record and three timers. What a
-- handler gets from outside in one call is an argument, `World`. Left out are the texts, the hints, the
-- logs and the meta data that the handlers write on the way, but for what a command adds to the meta
-- data; the machine reads none of them.
pub mod Wait
pub mod Run
pub mod Command
pub mod Machine
pub mod Keeps
use pantavisor.Prelude.{ℕ, String, Bool, Option, List}
use pantavisor.Metadata.{Metadata, JsonItem}
use pantavisor.Storage.Gc.{ObjectStat, GcRun}
use pantavisor.Timer.{Timer, Timespec}
use pantavisor.Platforms.Start.{CtrlStart}
use pantavisor.Platforms.Stop.{Alive}
use pantavisor.State.{PvState}
use pantavisor.State.Checksum.{Checks}
use pantavisor.Updater.{Pantavisor, PvCmd, Net}
use pantavisor.Updater.Download.{Source}
use pantavisor.Updater.Install.{Disk}
use pantavisor.Updater.Steps.{Cloud}

-- `pv_state_t`
pub data PvStateT : Type 0 where
  pv_state_init pv_state_run pv_state_wait pv_state_command pv_state_update : PvStateT
  pv_state_rollback pv_state_reboot pv_state_poweroff pv_state_error pv_state_exit : PvStateT
  pv_state_factory_upload : PvStateT

-- `pv_get_instance()` with the static timers, the meta data, and the runs of the collector that a
-- command asked for, the newest first.
pub record Controller (E : Type 0) : Type 0 where
  pub pv : Pantavisor E
  pub rollback_timer : Timer
  pub wait_delay : Timer
  pub timer_commit : Timer
  pub metadata : Metadata
  pub collections : List (Option GcRun)

-- The readings of the monotonic clock, by what they are for.
pub record Clock : Type 0 where
  pub started : Timespec
  pub delay_asked : Timespec
  pub delay_set : Timespec
  pub rollback_asked : Timespec
  pub commit_set : Timespec
  pub commit_asked : Timespec

-- The settings that the controller reads.
pub record Config : Type 0 where
  pub control_remote : Bool
  pub network_timeout : ℕ
  pub commit_delay : ℕ
  pub interval : ℕ
  pub revision_retries : ℕ

-- A revision as it is on disk: whether it is signed well, and its state if it parses.
pub record OnDisk : Type 0 where
  pub is_signed : Bool
  pub parsed : Option PvState

-- What one call of a handler gets from outside. A `Bool` is `true` where the call works.
pub record World : Type 0 where
  pub config : Config
  pub clock : Clock
  pub net : Net
  pub execute_init : Bool
  pub on_disk : String → OnDisk
  pub is_revision_local : String → Bool
  pub checks : Checks
  pub volumes_mount : Bool
  pub make_config : Bool
  pub ctrl_start : CtrlStart
  pub volumes_unmount : Bool
  pub alive : Alive
  pub alive_in_stop : ℕ → Alive
  pub device_exists : Bool
  pub register_self : Bool
  pub device_is_owned : Bool
  pub ph_is_auth : Bool
  pub factory_meta_done : Bool
  pub factory_meta : Bool
  pub meta_update_to_ph : Bool
  pub cloud : Cloud
  pub source : Source
  pub disk : Disk
  pub update_factory : String → Bool
  pub socket_wait : Option PvCmd
  pub metadata_items : String → List JsonItem
  pub keep_factory : Bool
  pub revisions : Option (List String)
  pub objects : List String
  pub stat_after : List String → String → Option ObjectStat

-- What a handler leaves: `crash` is a null or dangling pointer that was used, or the handler of
-- `PV_STATE_EXIT`, which is null.
pub data StepRun (E : Type 0) : Type 0 where
  crash : StepRun E
  next : Controller E → PvStateT → StepRun E
