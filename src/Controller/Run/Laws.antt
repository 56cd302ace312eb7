-- ===== src/Controller/Run/Laws.antt =====
-- What has been checked when a revision runs.
use pantavisor.Prelude.{ℕ, ◌≡◌, ◌⊎◌, true, false, Option, none, some, is_some, List, arith}
use pantavisor.Platforms.{Platform}
use pantavisor.Platforms.Start.{StartRun, pv_platforms_start}
use pantavisor.State.{PvState}
use pantavisor.State.Checksum.{pv_state_validate_checksum}
use pantavisor.Updater.Status.{pv_update_is_transitioning}
use pantavisor.Updater.Boot.{pv_update_resume}
use pantavisor.Controller.{PvStateT, pv_state_wait, pv_state_rollback, Controller, World, next}
use pantavisor.Controller.Run.{_pv_run, load_state, run_state, start_up}

-- The platforms after a start that did not fail.
abbrev pub done_platforms : StartRun → Option (List Platform)
done_platforms StartRun.crash = none
done_platforms (StartRun.failed ps) = none
done_platforms (StartRun.done started ps) = some ps

abbrev pub platforms_of : Option PvState → Option (List Platform)
platforms_of none = none
platforms_of (some s) = some s.platforms

module _ {E : Type 0} (w : World) (c c' : Controller E) where
  -- With a state loaded, the daemon goes on to wait only when the state's objects and jsons are
  -- valid and its volumes are mounted, and `pv_platforms_start` has returned without an error,
  -- with the platforms that the daemon's state then has; a local revision takes no remote updates.
  pub run_checks :
      (runlevel : ℕ) (s : PvState)
      → c.pv.state ≡ some s
      → run_state w runlevel c ≡ next c' pv_state_wait
      → (pv_state_validate_checksum w.checks s ≡ true)
        × (w.volumes_mount ≡ true)
        × (done_platforms (pv_platforms_start w.ctrl_start runlevel s.platforms)
            ≡ platforms_of c'.pv.state)
        × (is_some c'.pv.state ≡ true)
        × ((w.is_revision_local s.rev ≡ false) ⊎ (c'.pv.remote_mode ≡ false))
  unfolding run_state start_up
  run_checks runlevel s e h = ground (arith, e, h)

  -- With no update in transition, a revision whose signature is wrong is rolled back, and the
  -- state of the daemon stays as it was.
  pub unsigned_rolls_back :
      (st : PvStateT)
      → pv_update_is_transitioning c.pv.update ≡ false
      → (w.on_disk c.pv.bootloader.pv_rev).is_signed ≡ false
      → _pv_run w c ≡ next c' st
      → (st ≡ pv_state_rollback) × (c'.pv.state ≡ c.pv.state)
  unfolding _pv_run load_state pv_update_resume pv_update_is_transitioning
  unsigned_rolls_back st t s h = ground (arith, t, s, h)
