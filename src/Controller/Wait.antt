-- ===== src/Controller/Wait.antt =====
-- The handlers of `PV_STATE_WAIT` and `PV_STATE_FACTORY_UPLOAD`.
pub mod Laws
use pantavisor.Prelude.{
  ℕ, String, Bool, true, false, not, ◌&&◌, ◌||◌, Option, none, some, is_some, ltb, if◌then◌else◌,
}
use pantavisor.Timer.{Timer, timer_current_state, timer_start, relativ_timer}
use pantavisor.Platforms.Stop.{pv_platforms_check_exited}
use pantavisor.Updater.{Pantavisor}
use pantavisor.Updater.Status.{pv_update_is_trying, pv_update_is_testing}
use pantavisor.Updater.Finish.{pv_update_test, pv_update_finish}
use pantavisor.Updater.Steps.{pv_updater_check_for_updates, pv_trail_is_auth}
use pantavisor.Controller.{
  PvStateT, pv_state_wait, pv_state_command, pv_state_update, pv_state_rollback, pv_state_reboot,
  pv_state_factory_upload, Controller, World, StepRun, crash, next,
}

module _ {E : Type 0} where
  unfoldable pub _pv_factory_upload : World → Controller E → StepRun E
  _pv_factory_upload w c =
      next c (if w.factory_meta then pv_state_wait else pv_state_factory_upload)

  -- A tried update is tested from now on, and the time of the test starts.
  abbrev pub begin_test : World → Controller E → Controller E
  begin_test w c =
      if pv_update_is_trying c.pv.update
      then record c {
        timer_commit =
            timer_start c.timer_commit w.config.commit_delay 0 relativ_timer w.clock.commit_set;
        pv = pv_update_test w.net c.pv;
      }
      else c

  unfoldable pub pv_wait_update : World → Controller E → StepRun E
  pv_wait_update w c =
      let c1 = begin_test w c in
      let (pv', finished) = pv_update_finish w.net w.config.revision_retries c1.pv in
      if is_some c.pv.update
      then if pv_update_is_testing c1.pv.update
          && not (timer_current_state c1.timer_commit w.clock.commit_asked).fin
        then next c1 pv_state_wait
        else next (record c1 { pv = pv' }) (if finished then pv_state_wait else pv_state_rollback)
      else next c pv_state_wait

  -- `need_register`, and then whether the device is claimed by now.
  unfoldable pub pv_wait_unclaimed : World → Controller E → StepRun E
  pv_wait_unclaimed w c =
      if not w.device_exists && not w.register_self
      then next c pv_state_wait
      else next
          (if w.device_is_owned then record c { pv = record c.pv { unclaimed = false } } else c)
          pv_state_factory_upload

  -- The cloud does not answer.
  abbrev pub without_network : World → Controller E → StepRun E
  without_network w c =
      if pv_update_is_trying c.pv.update
      then next c (
          if (timer_current_state c.rollback_timer w.clock.rollback_asked).fin
          then pv_state_rollback
          else pv_state_wait)
      else next c (if pv_update_is_testing c.pv.update then pv_state_rollback else pv_state_wait)

  abbrev pub with_network : World → Controller E → StepRun E
  with_network w c =
      let (pv', fresh) = pv_updater_check_for_updates w.cloud c.pv in
      if not w.factory_meta_done
      then next c pv_state_factory_upload
      else if not w.meta_update_to_ph
      then pv_wait_update w c
      else if fresh
      then next (record c { pv = pv' }) pv_state_update
      else pv_wait_update w (record c { pv = pv' })

  unfoldable pub pv_wait_network : World → Controller E → StepRun E
  pv_wait_network w c =
      let (pv', trail) = pv_trail_is_auth w.net c.pv in
      let c' = record c { pv = pv' } in
      if not w.ph_is_auth
      then without_network w c
      else if trail
      then with_network w c'
      else without_network w c'

  -- `pv_wait_delay_timedout`
  unfoldable pub pv_wait_delay_timedout : World → Controller E → Controller E × Bool
  pv_wait_delay_timedout w c =
      if (timer_current_state c.wait_delay w.clock.delay_asked).fin
      then (
        record c {
          wait_delay = timer_start c.wait_delay w.config.interval 0 relativ_timer w.clock.delay_set;
        },
        true,
      )
      else (c, false)

  -- The part of `_pv_wait` that may leave the state.
  unfoldable pub wait_once : World → Controller E → StepRun E
  wait_once w c =
      let (c', now) = pv_wait_delay_timedout w c in
      if c.pv.remote_mode && (not c.pv.unclaimed || (c.pv.unclaimed && not (is_some c.pv.update)))
      then if now
        then if c.pv.unclaimed then pv_wait_unclaimed w c' else pv_wait_network w c'
        else next c' pv_state_wait
      else pv_wait_update w c

  -- A command is read only where the state stays.
  abbrev pub read_command : World → StepRun E → StepRun E
  read_command w crash = crash
  read_command w (next c pv_state_wait) =
      next (record c { pv = record c.pv { cmd = w.socket_wait } })
        (if is_some w.socket_wait then pv_state_command else pv_state_wait)
  read_command w (next c st) = next c st

  -- Without a running state the source reads through a null pointer.
  unfoldable pub _pv_wait : World → Controller E → StepRun E
  _pv_wait w c = elim c.pv.state [
    | none ↦ crash
    | some s ↦
        if ltb 0 (pv_platforms_check_exited w.alive 0 s.platforms)
        then next c (
            if pv_update_is_trying c.pv.update || pv_update_is_testing c.pv.update
            then pv_state_rollback
            else pv_state_reboot)
        else read_command w (wait_once w c)
  ]
