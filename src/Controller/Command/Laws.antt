-- ===== src/Controller/Command/Laws.antt =====
-- Commands while an update is going on, and what an update leads to.
use pantavisor.Metadata.{Metadata}
use pantavisor.Prelude.{◌≡◌, true, Option, none, some, Bool-cases, inl, inr, arith}
use pantavisor.Prelude.Int.{pos, ◌<ℤ◌}
use pantavisor.Platforms.{runlevel_platform}
use pantavisor.Updater.{Update}
use pantavisor.Updater.Boot.{pv_update_requires_reboot}
use pantavisor.Updater.Install.{InstallRun, ret, pv_update_install}
use pantavisor.Updater.Download.{pv_update_download}
use pantavisor.Controller.{pv_state_run, Controller, World, next}
use pantavisor.Controller.Command.{_pv_update, after_install}

-- The update starts what is above PLATFORM only.
abbrev pub AbovePlatform : Option Update → Type 0
AbovePlatform none = ⊥
AbovePlatform (some u) = pos runlevel_platform <ℤ u.runlevel

module _ {E : Type 0} (w : World) (c c' : Controller E) where
  after_install_runs :
      (r : InstallRun E)
      → after_install w c r ≡ next c' pv_state_run
      → (w.volumes_unmount ≡ true) × AbovePlatform c'.pv.update
  unfolding pv_update_requires_reboot
  after_install_runs InstallRun.crash h = ground (arith, h)
  after_install_runs (ret pv ok) h = ground (arith, h)

  -- An update goes on to the new revision without a reboot only if it was downloaded, the volumes
  -- were unmounted, and its runlevel is above PLATFORM.
  pub update_runs :
      _pv_update w c ≡ next c' pv_state_run
      → ((pv_update_download w.source c.pv).1 ≡ true)
        × (w.volumes_unmount ≡ true)
        × AbovePlatform c'.pv.update
  unfolding _pv_update
  update_runs h =
      let (pv1, downloaded) = pv_update_download w.source c.pv in
      let installed = pv_update_install w.net w.disk pv1 in
      elim (Bool-cases downloaded) [
        | inl e ↦ let (u, a) = after_install_runs installed (ground (arith, h, e)) in (e, u, a)
        | inr e ↦ ground (arith, h, e)
      ]
