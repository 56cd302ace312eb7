-- ===== src/Updater/Boot/Laws.antt =====
-- An update after the start of a revision, and whether one needs a reboot.
use pantavisor.Prelude.{
  ℕ, ◌≡◌, ◌≢◌, ◌↔◌, String, true, false, Option, none, some, if◌then◌else◌, arith, str_eq, eq_iff,
}
use pantavisor.Prelude.Int.{pos, ◌≤ℤ◌}
use pantavisor.Platforms.{runlevel_platform}
use pantavisor.Bootloader.{BlOps, pv_bootloader_update_in_progress, pv_bootloader_trying_update}
use pantavisor.Updater.{UpdateState, update_try, update_failed, Update, Pantavisor, Net}
use pantavisor.Updater.Finish.{pv_update_finish}
use pantavisor.Updater.Boot.{pv_update_resume, pv_update_requires_reboot}

abbrev pub status_of : Option Update → Option UpdateState
status_of none = none
status_of (some u) = some u.status

module _ {E : Type 0} (net : Net) (pv : Pantavisor E) (rev : String) where
  -- With no update in the daemon, and a revision to try in the bootloader's record that is not
  -- empty: if that is the one that was booted the update is being tried, and else it has failed.
  pub resume_judges_boot :
      pv.update ≡ none
      → pv.bootloader.pv_try ≡ some rev
      → rev ≢ ""
      → status_of (pv_update_resume net pv).0.update
        ≡ (if str_eq pv.bootloader.pv_rev rev then some update_try else some update_failed)
  unfolding pv_update_resume pv_bootloader_update_in_progress pv_bootloader_trying_update
  resume_judges_boot n t e = ground (arith, n, t, e, eq_iff rev "")

  -- With the bootloader's operations set and no update in the daemon, a failed start of a revision
  -- to try is cleaned up: after the reboot into another revision and `pv_update_finish`, no update
  -- is left in the daemon, and none in the bootloader's record, whose revision to fall back to is
  -- as it was.
  pub failed_boot_recovers :
      (max_retries : ℕ) (ops : BlOps E)
      → pv.update ≡ none
      → pv.bootloader.ops ≡ some ops
      → pv.bootloader.pv_try ≡ some rev
      → rev ≢ ""
      → pv.bootloader.pv_rev ≢ rev
      → let pv' = (pv_update_finish net max_retries (pv_update_resume net pv).0).0 in
        (pv'.update ≡ none)
        × (pv_bootloader_update_in_progress pv'.bootloader ≡ false)
        × (pv'.bootloader.pv_done ≡ pv.bootloader.pv_done)
  unfolding pv_update_resume pv_update_finish pv_bootloader_update_in_progress
      pv_bootloader_trying_update
  failed_boot_recovers max_retries ops n o t e d =
      ground (arith, n, o, t, e, d, eq_iff rev "", eq_iff pv.bootloader.pv_rev rev)

module _ {E : Type 0} (net : Net) (pv : Pantavisor E) where
  -- An update is started without a reboot exactly when its runlevel is above PLATFORM.
  pub requires_reboot_iff :
      (u : Update)
      → pv.update ≡ some u
      → ((pv_update_requires_reboot net pv).1 ≡ true) ↔ (u.runlevel ≤ℤ pos runlevel_platform)
  unfolding pv_update_requires_reboot
  requires_reboot_iff u h = ground (arith, h)
