-- ===== src/Controller/Wait/Laws.antt =====
-- What `PV_STATE_WAIT` does with an update that is tried or tested.
use pantavisor.Platforms.{max_runlevel}
use pantavisor.Platforms.Stop.Exited.{IsGone, check_exited-positive}
use pantavisor.Prelude.{ℕ, ◌<◌, ◌≤◌, Option, none, Any, ◌≡◌, ◌⊎◌, true, false, some, arith}
use pantavisor.Timer.{timer_current_state}
use pantavisor.Platforms.Stop.{pv_platforms_check_exited}
use pantavisor.State.{PvState}
use pantavisor.Updater.{
  update_try, update_transition, update_testing_reboot, update_testing_nonreboot, Update,
  Pantavisor, Net,
}
use pantavisor.Updater.Status.{pv_update_is_trying, pv_update_is_testing}
use pantavisor.Updater.Finish.{running_rev, pv_update_test, pv_update_finish}
use pantavisor.Controller.{
  PvStateT, pv_state_wait, pv_state_rollback, pv_state_reboot, Controller, World, next,
}
use pantavisor.Controller.Wait.{_pv_wait, pv_wait_update, pv_wait_network}

module _ {E : Type 0} (net : Net) (pv : Pantavisor E) where
  -- As `finish_moves_done`, with or without an update.
  pub finish_done :
      (max_retries : ℕ)
      → let pv' = (pv_update_finish net max_retries pv).0 in
        (pv'.bootloader.pv_done ≡ pv.bootloader.pv_done)
        ⊎ ((pv'.bootloader.pv_done ≡ some (running_rev pv.state))
            × (pv_update_is_testing pv.update ≡ true))
  unfolding pv_update_finish pv_update_is_testing
  finish_done max_retries = ground arith

  pub test_done :
      ((pv_update_test net pv).bootloader ≡ pv.bootloader)
      × ((pv_update_test net pv).state ≡ pv.state)
  unfolding pv_update_test
  test_done = ground arith

-- The update is tried, in transition or tested.
abbrev pub IsOnTrial : Option Update → Type 0
IsOnTrial none = ⊥
IsOnTrial (some u) =
    (u.status ≡ update_try)
    ⊎ (u.status ≡ update_transition)
    ⊎ (u.status ≡ update_testing_reboot)
    ⊎ (u.status ≡ update_testing_nonreboot)

module _ {E : Type 0} (w : World) (c : Controller E) where
  exited_moves :
      (s : PvState)
      → c.pv.state ≡ some s
      → 0 < pv_platforms_check_exited w.alive 0 s.platforms
      → ((_pv_wait w c ≡ next c pv_state_rollback) × IsOnTrial c.pv.update)
        ⊎ ((_pv_wait w c ≡ next c pv_state_reboot) × ¬ (IsOnTrial c.pv.update))
  unfolding _pv_wait pv_update_is_trying pv_update_is_testing
  exited_moves s h e = ground (arith, h, e)

  -- When the process of a platform of the running state, at one of the four runlevels, does not live
  -- any more, the daemon rolls back if an update is tried, in transition or tested, and else reboots;
  -- it changes nothing before.
  pub exited_tears_down :
      (s : PvState) (j : ℕ)
      → c.pv.state ≡ some s
      → j ≤ max_runlevel
      → Any (IsGone w.alive j) s.platforms
      → ((_pv_wait w c ≡ next c pv_state_rollback) × IsOnTrial c.pv.update)
        ⊎ ((_pv_wait w c ≡ next c pv_state_reboot) × ¬ (IsOnTrial c.pv.update))
  exited_tears_down s j h l g = exited_moves s h (check_exited-positive w.alive j s.platforms l g)

module _ {E : Type 0} (w : World) (c c' : Controller E) (st : PvStateT) where
  -- Finishing an update moves the revision to fall back to only when the commit timer has run out,
  -- and then to the running revision; the daemon then waits on, or rolls back.
  pub commit_after_delay :
      pv_wait_update w c ≡ next c' st
      → ((c'.pv.bootloader.pv_done ≡ c.pv.bootloader.pv_done)
          ⊎ ((c'.pv.bootloader.pv_done ≡ some (running_rev c.pv.state))
              × ((timer_current_state c'.timer_commit w.clock.commit_asked).fin ≡ true)))
        × ((st ≡ pv_state_wait) ⊎ (st ≡ pv_state_rollback))
  unfolding pv_wait_update
  commit_after_delay h = ground (
    arith,
    h,
    test_done w.net c.pv,
    finish_done w.net c.pv w.config.revision_retries,
    finish_done w.net (pv_update_test w.net c.pv) w.config.revision_retries,
  )

  -- Without an answer from the cloud a tested update is rolled back at once, and a tried one when
  -- the rollback timer has run out; else the daemon waits, and no update is finished.
  pub offline_rolls_back :
      w.ph_is_auth ≡ false
      → pv_wait_network w c ≡ next c' st
      → (c' ≡ c)
        × (((st ≡ pv_state_rollback)
              × ((pv_update_is_testing c.pv.update ≡ true)
                  ⊎ ((pv_update_is_trying c.pv.update ≡ true)
                      × ((timer_current_state c.rollback_timer w.clock.rollback_asked).fin
                          ≡ true))))
            ⊎ ((st ≡ pv_state_wait) × (pv_update_is_testing c.pv.update ≡ false)))
  unfolding pv_wait_network pv_update_is_trying pv_update_is_testing
  offline_rolls_back a h = ground (arith, a, h)
