-- ===== src/Updater.antt =====
-- updater.c: an update's record and its states, in the daemon's record of pantavisor.h.
-- `pv->update->pending` may be the same object as `pv->state`: `running` stands for that pointer.
-- Texts of progress messages, the endpoints' URLs and the buffer of downloads are left out; the
-- device is taken to have credentials, so `trail_remote_init` looks for none.
pub mod Status
pub mod Finish
pub mod Download
pub mod Install
pub mod Boot
pub mod Steps
use pantavisor.Prelude.{ℕ, String, Bool, true, false, Option, none, some, List}
use pantavisor.Prelude.Int.{ℤ}
use pantavisor.Timer.{Timer, Timespec}
use pantavisor.State.{PvState}
use pantavisor.Bootloader.{Bootloader}

-- `enum update_state`
pub data UpdateState : Type 0 where
  update_init update_queued update_downloaded update_installed update_try : UpdateState
  update_transition update_reboot update_updated update_done update_failed : UpdateState
  update_no_download update_no_signature update_no_parse update_retry_download : UpdateState
  update_testing_reboot update_testing_nonreboot update_download_progress : UpdateState

-- The pointer `pending`: null, a state of the update's own, or `pv->state`.
pub data Pending : Type 0 where
  no_pending : Pending
  own : PvState → Pending
  running : Pending

-- `struct pv_update`
pub record Update : Type 0 where
  pub status : UpdateState
  pub runlevel : ℤ
  pub retry_timer : Timer
  pub pending : Pending
  pub retries : ℕ
  pub total_downloaded : ℕ
  pub is_local : Bool

pub data CmdOp : Type 0 where
  cmd_update_metadata cmd_reboot_device cmd_poweroff_device cmd_local_run cmd_make_factory : CmdOp
  cmd_run_gc cmd_other : CmdOp

pub record PvCmd : Type 0 where
  pub op : CmdOp
  pub payload : String

-- The `status` of a step as it is reported.
pub data StepStatus : Type 0 where
  queued inprogress updated done wontgo testing downloading error : StepStatus

-- One call of `trail_remote_set_status`: the revision whose progress is stored, if there is one, the
-- status with its percentage, and whether it was sent to the cloud.
pub record Report : Type 0 where
  pub rev : Option String
  pub step : StepStatus
  pub progress : ℕ
  pub sent : Bool

-- `struct pantavisor`, with the bootloader's record, and with a trace of effects: the reports, the
-- states that were freed and the revisions removed from disk, the newest first.
pub record Pantavisor (E : Type 0) : Type 0 where
  pub update : Option Update
  pub state : Option PvState
  pub bootloader : Bootloader E
  pub cmd : Option PvCmd
  pub remote : Bool
  pub remote_mode : Bool
  pub online : Bool
  pub unclaimed : Bool
  pub synced : Bool
  pub loading_objects : Bool
  pub reports : List Report
  pub freed : List PvState
  pub removed : List String

-- What the cloud answers during a call: the client authenticates, and a PUT succeeds.
pub record Net : Type 0 where
  pub auth_ok : Bool
  pub put_ok : Bool
