-- ===== src/Updater/Boot.antt =====
-- `pv_update_new`, `pv_update_resume` and `pv_update_requires_reboot` of updater.c: an update
-- across the start of a revision.
pub mod Laws
use pantavisor.Prelude.{ℕ, String, Bool, true, false, Option, none, some, if◌then◌else◌}
use pantavisor.Prelude.Int.{ℤ, pos, ltb_ℤ}
use pantavisor.Timer.{Timer, relativ_timer}
use pantavisor.Platforms.{runlevel_data, runlevel_root, runlevel_platform}
use pantavisor.Bootloader.{pv_bootloader_update_in_progress, pv_bootloader_trying_update}
use pantavisor.Updater.{
  update_init, update_try, update_failed, update_reboot, update_transition, no_pending, Update,
  Pantavisor, Net,
}
use pantavisor.Updater.Status.{pv_update_set_status}

-- A new update; `calloc` sets the retry timer to 0.
unfoldable pub pv_update_new : Bool → Update
pv_update_new is_local = record {
  status = update_init;
  runlevel = pos 0;
  retry_timer = record { kind = relativ_timer; timeout = record { tv_sec = 0; tv_nsec = 0 } };
  pending = no_pending;
  retries = 0;
  total_downloaded = 0;
  is_local = is_local;
}

module _ {E : Type 0} where
  -- The runlevel to start from. An update that is there comes from a start without reboot.
  unfoldable pub pv_update_resume : Net → Pantavisor E → Pantavisor E × ℤ
  unfolding pv_update_new pv_update_set_status
  pv_update_resume net pv = elim pv.update [
    | some u ↦ (pv, u.runlevel)
    | none ↦
        if pv_bootloader_update_in_progress pv.bootloader
        then (
          let pv1 = record pv { update = some (pv_update_new false) } in
              let status =
                if pv_bootloader_trying_update pv.bootloader then update_try else update_failed in
              (pv_update_set_status net status pv1).0,
          pos runlevel_data,
        )
        else (pv, pos runlevel_data)
  ]

  -- Up to runlevel PLATFORM an update needs a reboot, and then everything from ROOT up is stopped.
  unfoldable pub pv_update_requires_reboot : Net → Pantavisor E → Pantavisor E × Bool
  unfolding pv_update_set_status
  pv_update_requires_reboot net pv = elim pv.update [
    | none ↦ (pv, false)
    | some u ↦
        if ltb_ℤ (pos runlevel_platform) u.runlevel
        then ((pv_update_set_status net update_transition pv).0, false)
        else (
          let pv1 = record pv { update = some (record u { runlevel = pos runlevel_root }) } in
              (pv_update_set_status net update_reboot pv1).0,
          true,
        )
  ]
