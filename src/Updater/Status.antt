-- ===== src/Updater/Status.antt =====
-- `trail_remote_set_status` of updater.c, the tests on an update's status, and its removal.
use pantavisor.Prelude.{
  ℕ, String, Bool, true, false, not, ◌||◌, Option, none, some, List, ◌∷◌, if◌then◌else◌,
}
use pantavisor.State.{PvState}
use pantavisor.Updater.{
  UpdateState, update_queued, update_downloaded, update_installed, update_try, update_transition,
  update_reboot, update_updated, update_done, update_no_download, update_no_signature,
  update_no_parse, update_retry_download, update_testing_reboot, update_testing_nonreboot,
  update_download_progress, Pending, no_pending, own, running, Update, StepStatus, queued,
  inprogress, updated, done, wontgo, testing, downloading, error, Pantavisor, Net,
}

-- What an update's `pending` points to.
abbrev pub pending_state : Pending → Option PvState → Option PvState
pending_state no_pending state = none
pending_state (own s) state = some s
pending_state running state = state

-- The status and the percentage of the report, by the `switch`.
unfoldable pub step_status : UpdateState → StepStatus × ℕ
step_status update_queued = (queued, 0)
step_status update_downloaded = (inprogress, 40)
step_status update_installed = (inprogress, 80)
step_status update_try = (inprogress, 95)
step_status update_transition = (inprogress, 95)
step_status update_reboot = (inprogress, 95)
step_status update_updated = (updated, 100)
step_status update_done = (done, 100)
step_status update_no_download = (wontgo, 0)
step_status update_no_signature = (wontgo, 0)
step_status update_no_parse = (wontgo, 0)
step_status update_retry_download = (queued, 0)
step_status update_testing_reboot = (testing, 95)
step_status update_testing_nonreboot = (testing, 95)
step_status update_download_progress = (downloading, 0)
step_status _ = (error, 0)

abbrev pub clear_downloaded : UpdateState → ℕ → ℕ
clear_downloaded update_retry_download n = 0
clear_downloaded _ n = n

abbrev pub rev_of : Option PvState → Option String
rev_of none = none
rev_of (some s) = some s.rev

abbrev pub is_local_state : Option PvState → Bool
is_local_state none = false
is_local_state (some s) = s.is_local

-- What `pv_update_free` frees with an update.
abbrev pub freed_by : Pending → List PvState → List PvState
freed_by (own s) freed = s ∷ freed
freed_by _ freed = freed

module _ {E : Type 0} where
  -- An existing `pv->remote` is kept; else the client has to authenticate.
  unfoldable pub trail_remote_init : Net → Pantavisor E → Pantavisor E × Bool
  trail_remote_init net pv =
      if pv.remote
      then (pv, true)
      else if net.auth_ok
      then (record pv { remote = true }, true)
      else (pv, false)

  -- The update after its new status, the daemon's record, and `true` for the result 0. The update
  -- is an argument of its own, since the callers also report on updates that they only try out.
  unfoldable pub trail_remote_set_status :
      Net → UpdateState → Update → Pantavisor E → Update × Pantavisor E × Bool
  unfolding trail_remote_init step_status
  trail_remote_set_status net status u pv =
      let u' = record u {
        status = status;
        total_downloaded = clear_downloaded status u.total_downloaded;
      } in
      let pending = pending_state u.pending pv.state in
      let (step, progress) = step_status status in
      let silent = is_local_state pending || not pv.remote_mode || not pv.online in
      let (pv', connected) = if silent then (pv, false) else trail_remote_init net pv in
      (
        u',
        record pv' {
          reports =
              record { rev = rev_of pending; step = step; progress = progress; sent = connected }
              ∷ pv.reports;
        },
        if connected then net.put_ok else true,
      )

  -- `pv_update_set_status`, and `pv_update_set_status_msg` whatever its text.
  unfoldable pub pv_update_set_status : Net → UpdateState → Pantavisor E → Pantavisor E × Bool
  unfolding trail_remote_set_status
  pv_update_set_status net status pv = elim pv.update [
    | none ↦ (pv, false)
    | some u ↦
        let (u', pv', result) = trail_remote_set_status net status u pv in
        (record pv' { update = some u' }, result)
  ]

  -- `pv_update_remove`: the state that runs is taken off the update before that is freed.
  unfoldable pub pv_update_remove : Pantavisor E → Pantavisor E
  pv_update_remove pv = elim pv.update [
    | none ↦ pv
    | some u ↦ record pv { update = none; freed = freed_by u.pending pv.freed }
  ]

abbrev pub has_status : (UpdateState → Bool) → Option Update → Bool
has_status test none = false
has_status test (some u) = test u.status

abbrev pub is_transition : UpdateState → Bool
is_transition update_transition = true
is_transition _ = false

abbrev pub is_try : UpdateState → Bool
is_try update_transition = true
is_try update_try = true
is_try _ = false

abbrev pub is_test : UpdateState → Bool
is_test update_testing_reboot = true
is_test update_testing_nonreboot = true
is_test _ = false

unfoldable pub pv_update_is_transitioning : Option Update → Bool
pv_update_is_transitioning u = has_status is_transition u

unfoldable pub pv_update_is_trying : Option Update → Bool
pv_update_is_trying u = has_status is_try u

unfoldable pub pv_update_is_testing : Option Update → Bool
pv_update_is_testing u = has_status is_test u
