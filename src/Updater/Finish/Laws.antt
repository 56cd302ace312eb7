-- ===== src/Updater/Finish/Laws.antt =====
-- How `pv_update_test` and `pv_update_finish` end an update.
use pantavisor.Prelude.{ℕ, ◌≤◌, ◌≡◌, ◌⊎◌, true, false, none, some, arith}
use pantavisor.Updater.{
  update_retry_download, update_testing_reboot, running, Update, Pantavisor, Net,
}
use pantavisor.Updater.Status.{pv_update_is_testing, pv_update_is_trying}
use pantavisor.Updater.Finish.{pv_update_test, pv_update_finish, running_rev}

module _ {E : Type 0} (net : Net) (max_retries : ℕ) (pv : Pantavisor E) (u : Update) where
  -- A finished update is gone, but for a download that may still be retried and for a commit that
  -- the bootloader refused, which the caller learns.
  pub finish_removes :
      pv.update ≡ some u
      → let (pv', ok) = pv_update_finish net max_retries pv in
        ((pv'.update ≡ none) × (ok ≡ true))
        ⊎ ((u.status ≡ update_retry_download) × (u.retries ≤ max_retries) × (pv'.update ≡ some u))
        ⊎ ((u.status ≡ update_testing_reboot) × (ok ≡ false))
  unfolding pv_update_finish
  finish_removes h = ground (arith, h)

  -- Finishing an update changes the revision to fall back to only when the update has been tested
  -- after a reboot, and then to the running revision.
  pub finish_moves_done :
      pv.update ≡ some u
      → let pv' = (pv_update_finish net max_retries pv).0 in
        (pv'.bootloader.pv_done ≡ pv.bootloader.pv_done)
        ⊎ ((u.status ≡ update_testing_reboot)
            × (pv'.bootloader.pv_done ≡ some (running_rev pv.state)))
  unfolding pv_update_finish
  finish_moves_done h = ground (arith, h)

  -- Finishing an update that points to the running state frees no state, and leaves that one in
  -- place.
  pub finish_keeps_running :
      pv.update ≡ some u
      → u.pending ≡ running
      → let pv' = (pv_update_finish net max_retries pv).0 in
        (pv'.freed ≡ pv.freed) × (pv'.state ≡ pv.state)
  unfolding pv_update_finish
  finish_keeps_running h p = ground (arith, h, p)

  -- After `pv_update_test` a tried update is being tested, and no other update changes.
  pub test_advances :
      pv.update ≡ some u
      → let pv' = pv_update_test net pv in
        ((pv_update_is_trying (some u) ≡ true) × (pv_update_is_testing pv'.update ≡ true))
        ⊎ ((pv_update_is_trying (some u) ≡ false) × (pv' ≡ pv))
  unfolding pv_update_test pv_update_is_trying pv_update_is_testing
  test_advances h = ground (arith, h)
