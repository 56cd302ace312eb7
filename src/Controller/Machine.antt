-- ===== src/Controller/Machine.antt =====
-- The other handlers, the table of them, and the loop of `pv_start`.
pub mod Laws
use pantavisor.Prelude.{
  ℕ, String, Bool, true, false, Option, none, some, List, [], ◌∷◌, str_eq, if◌then◌else◌,
}
use pantavisor.Platforms.Stop.{Stopped, pv_platforms_stop}
use pantavisor.State.{PvState}
use pantavisor.Updater.{update_failed, Pantavisor}
use pantavisor.Updater.Status.{pv_update_set_status}
use pantavisor.Controller.{
  PvStateT, pv_state_init, pv_state_run, pv_state_wait, pv_state_command, pv_state_update,
  pv_state_rollback, pv_state_reboot, pv_state_poweroff, pv_state_error, pv_state_exit,
  pv_state_factory_upload, Controller, World, StepRun, crash, next,
}
use pantavisor.Controller.Wait.{_pv_factory_upload, _pv_wait}
use pantavisor.Controller.Run.{_pv_run}
use pantavisor.Controller.Command.{_pv_command, _pv_update}

abbrev pub is_factory : Option PvState → Bool
is_factory none = false
is_factory (some s) = str_eq s.rev "0"

abbrev pub is_exit : PvStateT → Bool
is_exit pv_state_exit = true
is_exit _ = false

module _ {E : Type 0} where
  unfoldable pub _pv_init : World → Controller E → StepRun E
  _pv_init w c = next c (if w.execute_init then pv_state_run else pv_state_exit)

  -- Without an update the status is not set.
  unfoldable pub _pv_rollback : World → Controller E → StepRun E
  _pv_rollback w c =
      if is_factory c.pv.state
      then next c pv_state_error
      else next (record c { pv = (pv_update_set_status w.net update_failed c.pv).0 })
          pv_state_reboot

  -- The platforms are stopped from runlevel 0 up; what goes wrong with volumes is ignored.
  unfoldable pub pv_do_shutdown : World → Controller E → StepRun E
  pv_do_shutdown w c = elim c.pv.state [
    | none ↦ next c pv_state_exit
    | some s ↦ elim (pv_platforms_stop w.alive_in_stop 0 s.platforms) [
      | none ↦ crash
      | some stopped ↦
          next
            (record c {
              pv = record c.pv { state = some (record s { platforms = stopped.platforms }) };
            })
            pv_state_exit
    ]
  ]

  -- `state_table`, which has no handler for `PV_STATE_EXIT`.
  unfoldable pub _pv_run_state : PvStateT → World → Controller E → StepRun E
  _pv_run_state pv_state_init w c = _pv_init w c
  _pv_run_state pv_state_run w c = _pv_run w c
  _pv_run_state pv_state_wait w c = _pv_wait w c
  _pv_run_state pv_state_command w c = _pv_command w c
  _pv_run_state pv_state_update w c = _pv_update w c
  _pv_run_state pv_state_rollback w c = _pv_rollback w c
  _pv_run_state pv_state_reboot w c = pv_do_shutdown w c
  _pv_run_state pv_state_poweroff w c = pv_do_shutdown w c
  _pv_run_state pv_state_error w c = next c pv_state_reboot
  _pv_run_state pv_state_exit w c = crash
  _pv_run_state pv_state_factory_upload w c = _pv_factory_upload w c

  -- The loop of `pv_start` over the answers from outside, one for each round: the state after the
  -- last of them, or the exit before.
  unfoldable pub run_states : List World → PvStateT → Controller E → StepRun E
  run_states [] st c = next c st
  run_states (w ∷ ws) st c = elim (_pv_run_state st w c) [
    | crash ↦ crash
    | next c' st' ↦ elim (is_exit st') [ true ↦ next c' st' | false ↦ run_states ws st' c' ]
  ]

  unfoldable pub pv_start : List World → Controller E → StepRun E
  pv_start ws c = run_states ws pv_state_init c
