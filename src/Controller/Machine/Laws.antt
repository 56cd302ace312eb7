-- ===== src/Controller/Machine/Laws.antt =====
-- The transitions of the controller, and the revision to fall back to along them.
use pantavisor.Prelude.{
  ◌≡◌, ◌≢◌, ◌⊎◌, inl, inr, refl, subst, Option-cases, Bool-cases, ltb, Bool, String, Option, some,
  List, [], ◌∷◌, eq_iff, arith,
}
use pantavisor.State.{PvState}
use pantavisor.Platforms.Stop.{pv_platforms_check_exited}
use pantavisor.Updater.{update_failed, error, Report, Update, Pantavisor}
use pantavisor.Updater.Status.{
  pv_update_set_status, trail_remote_set_status, trail_remote_init, step_status, pending_state,
  rev_of,
}
use pantavisor.Updater.Finish.{running_rev}
use pantavisor.Updater.Boot.Laws.{status_of}
use pantavisor.Controller.{
  PvStateT, pv_state_init, pv_state_run, pv_state_wait, pv_state_command, pv_state_update,
  pv_state_rollback, pv_state_reboot, pv_state_poweroff, pv_state_error, pv_state_exit,
  pv_state_factory_upload, Controller, World, StepRun, crash, next,
}
use pantavisor.Updater.Download.{pv_update_download}
use pantavisor.Updater.Install.{InstallRun, ret, pv_update_install}
use pantavisor.Updater.Steps.{pv_trail_is_auth, pv_updater_check_for_updates}
use pantavisor.Controller.Keeps.{
  SameRevs, set_status-SameRevs, requires_reboot-SameRevs, is_auth-SameRevs,
  get_step_local-SameRevs, check_for_updates-SameRevs, download-SameRevs, install-SameRevs,
}
use pantavisor.Controller.Wait.Laws.{commit_after_delay, finish_done}
use pantavisor.Controller.Wait.{
  _pv_factory_upload, _pv_wait, read_command, pv_wait_update, pv_wait_network, pv_wait_unclaimed,
  pv_wait_delay_timedout, wait_once,
}
use pantavisor.Controller.Run.{_pv_run}
use pantavisor.Controller.Run.Done.{run-RunOk}
use pantavisor.Controller.Command.{_pv_command, _pv_update, after_install}
use pantavisor.Controller.Machine.{
  is_exit, _pv_init, _pv_rollback, pv_do_shutdown, _pv_run_state, run_states,
}

-- Where the machine may go from a state.
abbrev pub Edge : PvStateT → PvStateT → Type 0
Edge pv_state_init st = (st ≡ pv_state_run) ⊎ (st ≡ pv_state_exit)
Edge pv_state_run st = (st ≡ pv_state_wait) ⊎ (st ≡ pv_state_rollback)
Edge pv_state_wait st =
    (st ≡ pv_state_wait)
    ⊎ (st ≡ pv_state_command)
    ⊎ (st ≡ pv_state_update)
    ⊎ (st ≡ pv_state_factory_upload)
    ⊎ (st ≡ pv_state_rollback)
    ⊎ (st ≡ pv_state_reboot)
Edge pv_state_command st =
    (st ≡ pv_state_wait)
    ⊎ (st ≡ pv_state_update)
    ⊎ (st ≡ pv_state_reboot)
    ⊎ (st ≡ pv_state_poweroff)
Edge pv_state_update st =
    (st ≡ pv_state_wait) ⊎ (st ≡ pv_state_run) ⊎ (st ≡ pv_state_reboot) ⊎ (st ≡ pv_state_rollback)
Edge pv_state_rollback st = (st ≡ pv_state_reboot) ⊎ (st ≡ pv_state_error)
Edge pv_state_reboot st = st ≡ pv_state_exit
Edge pv_state_poweroff st = st ≡ pv_state_exit
Edge pv_state_error st = st ≡ pv_state_reboot
Edge pv_state_exit st = ⊥
Edge pv_state_factory_upload st = (st ≡ pv_state_wait) ⊎ (st ≡ pv_state_factory_upload)

-- The revision to fall back to is the one before, or the one that was running.
abbrev pub KeepsDone : {E : Type 0} → Pantavisor E → Pantavisor E → Type 0
KeepsDone pv pv' =
    (pv'.bootloader.pv_done ≡ pv.bootloader.pv_done)
    ⊎ (pv'.bootloader.pv_done ≡ some (running_rev pv.state))

abbrev pub StepOk : {E : Type 0} → PvStateT → Controller E → Controller E → PvStateT → Type 0
StepOk st c c' st' = Edge st st' × KeepsDone c.pv c'.pv

module _ {E : Type 0} (w : World) (c c' : Controller E) (st : PvStateT) where
  update_wait-ok :
      (d : Controller E)
      → pv_wait_update w d ≡ next c' st
      → SameRevs c.pv d.pv
      → StepOk pv_state_wait c c' st
  update_wait-ok d h s = ground (arith, h, s, commit_after_delay w d c' st)

  network-ok : pv_wait_network w c ≡ next c' st → StepOk pv_state_wait c c' st
  unfolding pv_wait_network
  network-ok h =
      let a = (pv_trail_is_auth w.net c.pv).0 in
      let b = (pv_updater_check_for_updates w.cloud a).0 in
      ground (
        arith,
        h,
        is_auth-SameRevs w.net c.pv,
        check_for_updates-SameRevs w.cloud a,
        commit_after_delay w (record c { pv = a }) c' st,
        commit_after_delay w (record c { pv = b }) c' st,
      )

module _ {E : Type 0} (w : World) (c c' : Controller E) (st : PvStateT) where
  wait_once-ok : wait_once w c ≡ next c' st → StepOk pv_state_wait c c' st
  unfolding wait_once pv_wait_unclaimed pv_wait_delay_timedout
  wait_once-ok h =
      let d = (pv_wait_delay_timedout w c).0 in
      ground (arith, h, network-ok w d c' st, update_wait-ok w c c' st c)

  run-ok : _pv_run w c ≡ next c' st → StepOk pv_state_run c c' st
  run-ok h = ground (arith, run-RunOk w c c' st h)

  command-ok : _pv_command w c ≡ next c' st → StepOk pv_state_command c c' st
  unfolding _pv_command
  command-ok h = elim (Option-cases c.pv.cmd) [
    | inl n ↦ ground (arith, h, n)
    | inr (cmd, e) ↦
        let named = w.on_disk cmd.payload in
        let factory = w.on_disk "0" in
        ground (
          arith,
          h,
          e,
          get_step_local-SameRevs w.net c.pv named.is_signed named.parsed,
          get_step_local-SameRevs w.net c.pv factory.is_signed factory.parsed,
        )
  ]

  after_install-ok :
      (r : InstallRun E) (pv : Pantavisor E)
      → after_install w c r ≡ next c' st
      → ((pv' : Pantavisor E) (ok : Bool) → r ≡ ret pv' ok → SameRevs pv pv')
      → SameRevs c.pv pv
      → StepOk pv_state_update c c' st
  after_install-ok InstallRun.crash pv h i s = ground (arith, h)
  after_install-ok (ret pv' ok) pv h i s = ground (
    arith,
    h,
    s,
    i pv' ok refl,
    requires_reboot-SameRevs w.net pv',
    finish_done w.net pv' w.config.revision_retries,
  )

  update-ok : _pv_update w c ≡ next c' st → StepOk pv_state_update c c' st
  unfolding _pv_update
  update-ok h =
      let (pv1, downloaded) = pv_update_download w.source c.pv in
      let installed = pv_update_install w.net w.disk pv1 in
      elim (Bool-cases downloaded) [
        | inl e ↦
            after_install-ok installed pv1 (ground (arith, h, e))
              (install-SameRevs w.net w.disk pv1) (download-SameRevs w.source c.pv)
        | inr e ↦ ground (
          arith,
          h,
          e,
          download-SameRevs w.source c.pv,
          finish_done w.net pv1 w.config.revision_retries,
        )
      ]

  read_command-ok :
      (r : StepRun E)
      → read_command w r ≡ next c' st
      → ((d : Controller E) (st' : PvStateT) → r ≡ next d st' → StepOk pv_state_wait c d st')
      → StepOk pv_state_wait c c' st
  read_command-ok crash h i = ground (arith, h)
  read_command-ok (next d st') h i = ground (arith, h, i d st' refl)

module _ {E : Type 0} (w : World) (c c' : Controller E) (st : PvStateT) where
  wait-ok : _pv_wait w c ≡ next c' st → StepOk pv_state_wait c c' st
  unfolding _pv_wait
  wait-ok h =
      let r = wait_once w c in
      elim (Option-cases c.pv.state) [
        | inl n ↦ ground (arith, h, n)
        | inr (s, e) ↦ elim (Bool-cases (ltb 0 (pv_platforms_check_exited w.alive 0 s.platforms))) [
          | inl x ↦ ground (arith, h, e, x)
          | inr x ↦ read_command-ok w c c' st r (ground (arith, h, e, x)) (wait_once-ok w c)
        ]
      ]

module _ {E : Type 0} (w : World) (c c' : Controller E) (st : PvStateT) where
  rollback-ok : _pv_rollback w c ≡ next c' st → StepOk pv_state_rollback c c' st
  unfolding _pv_rollback
  rollback-ok h = ground (arith, h, set_status-SameRevs w.net c.pv update_failed)

  shutdown-ok : pv_do_shutdown w c ≡ next c' st → (st ≡ pv_state_exit) × KeepsDone c.pv c'.pv
  unfolding pv_do_shutdown
  shutdown-ok h = ground (arith, h)

module _ {E : Type 0} (w : World) where
  -- Every step of the controller follows the graph of its states, and leaves the revision to fall
  -- back to as it was or moves it to the running revision.
  pub _pv_run_state-StepOk :
      (st : PvStateT) (c c' : Controller E) (st' : PvStateT)
      → _pv_run_state st w c ≡ next c' st'
      → StepOk st c c' st'
  unfolding _pv_run_state _pv_init _pv_factory_upload
  _pv_run_state-StepOk pv_state_init c c' st' h = ground (arith, h)
  _pv_run_state-StepOk pv_state_run c c' st' h = run-ok w c c' st' h
  _pv_run_state-StepOk pv_state_wait c c' st' h = wait-ok w c c' st' h
  _pv_run_state-StepOk pv_state_command c c' st' h = command-ok w c c' st' h
  _pv_run_state-StepOk pv_state_update c c' st' h = update-ok w c c' st' h
  _pv_run_state-StepOk pv_state_rollback c c' st' h = rollback-ok w c c' st' h
  _pv_run_state-StepOk pv_state_reboot c c' st' h = shutdown-ok w c c' st' h
  _pv_run_state-StepOk pv_state_poweroff c c' st' h = shutdown-ok w c c' st' h
  _pv_run_state-StepOk pv_state_error c c' st' h = ground (arith, h)
  _pv_run_state-StepOk pv_state_exit c c' st' h = ground (arith, h)
  _pv_run_state-StepOk pv_state_factory_upload c c' st' h = ground (arith, h)

StepRun-cases :
    {E : Type 0} (r : StepRun E)
    → (r ≡ crash) ⊎ ((c : Controller E) × (st : PvStateT) × (r ≡ next c st))
StepRun-cases crash = inl refl
StepRun-cases (next c st) = inr (c, st, refl)

-- Zero or more edges.
pub data Reaches : PvStateT → PvStateT → Type 0 where
  here : {st : PvStateT} → Reaches st st
  along : {st st' st'' : PvStateT} → Edge st st' → Reaches st' st'' → Reaches st st''

module _ {E : Type 0} where
  -- After any number of rounds the controller is in a state that the graph reaches from where it
  -- began.
  pub run_states-Reaches :
      (ws : List World) (st : PvStateT) (c c' : Controller E) (st' : PvStateT)
      → run_states ws st c ≡ next c' st'
      → Reaches st st'
  unfolding run_states
  run_states-Reaches [] st c c' st' h = subst (Reaches st) (ground (arith, h)) here
  run_states-Reaches (w ∷ ws) st c c' st' h =
      let r = _pv_run_state st w c in
      elim (StepRun-cases r) [
        | inl e ↦ ground (arith, h, e)
        | inr (d, st1, e) ↦ elim (Bool-cases (is_exit st1)) [
          | inl x ↦
              along
                (subst (Edge st) (ground (arith, h, e, x)) (_pv_run_state-StepOk w st c d st1 e).0)
                here
          | inr x ↦
              along (_pv_run_state-StepOk w st c d st1 e).0
                (run_states-Reaches ws st1 d c' st' (ground (arith, h, e, x)))
        ]
      ]

-- One more report: that the update to a revision has failed.
abbrev pub ReportsError : Option String → List Report → List Report → Type 0
ReportsError rev olds [] = ⊥
ReportsError rev olds (r ∷ rs) = (rs ≡ olds) × (r.rev ≡ rev) × (r.step ≡ error) × (r.progress ≡ 0)

module _ {E : Type 0} (w : World) (c c' : Controller E) (st : PvStateT) (u : Update)
    (s : PvState) where
  -- With a running state and an update, a rollback adds one report, of an error of the update's
  -- revision, marks the update as failed and reboots, with the revision to fall back to as it was;
  -- only where revision 0 runs does it go to the error state, and then it changes nothing.
  pub rollback_reports :
      c.pv.state ≡ some s
      → c.pv.update ≡ some u
      → _pv_rollback w c ≡ next c' st
      → ((s.rev ≡ "0") × (st ≡ pv_state_error) × (c' ≡ c))
        ⊎ ((s.rev ≢ "0")
            × (st ≡ pv_state_reboot)
            × (status_of c'.pv.update ≡ some update_failed)
            × (c'.pv.bootloader.pv_done ≡ c.pv.bootloader.pv_done)
            × ReportsError (rev_of (pending_state u.pending c.pv.state)) c.pv.reports c'.pv.reports)
  unfolding _pv_rollback pv_update_set_status trail_remote_set_status step_status trail_remote_init
  rollback_reports e f h = ground (arith, e, f, h, eq_iff s.rev "0")
