-- ===== src/Updater/Install/Laws.antt =====
-- What an installation leaves behind, whether it works or fails.
use pantavisor.Prelude.{true, false, ◌≡◌, Option, none, some, ◌∷◌, arith}
use pantavisor.Prelude.Int.{ℤ}
use pantavisor.State.{PvState}
use pantavisor.State.Compare.{returned, pv_state_compare_states}
use pantavisor.Updater.{update_installed, own, Update, Pantavisor, Net}
use pantavisor.Updater.Boot.Laws.{status_of}
use pantavisor.Updater.Install.{Disk, ret, pv_update_install}

abbrev pub runlevel_of : Option Update → Option ℤ
runlevel_of none = none
runlevel_of (some u) = some u.runlevel

module _ {E : Type 0} (net : Net) (disk : Disk) (pv pv' : Pantavisor E) (u : Update)
    (pending s : PvState) where
  -- With a running state and a pending state of the update's own: an installation that reports
  -- success has the new revision as the one to try, keeps the one that runs and the one to fall
  -- back to, leaves the update as installed, and has the runlevel from the states' comparison.
  pub install_success :
      pv.update ≡ some u
      → u.pending ≡ own pending
      → pv.state ≡ some s
      → pv_update_install net disk pv ≡ ret pv' true
      → (pv'.bootloader.pv_try ≡ some pending.rev)
        × (pv'.bootloader.pv_done ≡ pv.bootloader.pv_done)
        × (pv'.bootloader.pv_rev ≡ pv.bootloader.pv_rev)
        × (status_of pv'.update ≡ some update_installed)
        × (runlevel_of pv'.update ≡ returned (pv_state_compare_states (some pending) (some s)))
  unfolding pv_update_install
  install_success hu hp hs h = ground (arith, hu, hp, hs, h)

  -- An installation that fails removes the new revision from disk, and leaves the revisions to boot
  -- and to fall back to as they were.
  pub install_failure :
      pv.update ≡ some u
      → u.pending ≡ own pending
      → pv.state ≡ some s
      → pv_update_install net disk pv ≡ ret pv' false
      → (pv'.removed ≡ pending.rev ∷ pv.removed)
        × (pv'.bootloader.pv_done ≡ pv.bootloader.pv_done)
        × (pv'.bootloader.pv_rev ≡ pv.bootloader.pv_rev)
        × (pv'.state ≡ pv.state)
  unfolding pv_update_install
  install_failure hu hp hs h = ground (arith, hu, hp, hs, h)
