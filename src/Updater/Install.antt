-- ===== src/Updater/Install.antt =====
-- `pv_update_install` of updater.c. What it does on disk is an argument: linking the objects,
-- opening the new state.json, and expanding the jsons.
pub mod Laws
use pantavisor.Prelude.{String, Bool, true, false, Option, none, some, List, ◌∷◌, if◌then◌else◌}
use pantavisor.Prelude.Int.{ℤ, pos}
use pantavisor.Platforms.{Platform, runlevel_data}
use pantavisor.State.{PvState}
use pantavisor.State.Compare.{CompareRun, pv_state_compare_states}
use pantavisor.Bootloader.{pv_bootloader_set_installed}
use pantavisor.Updater.{update_failed, update_installed, Update, Pantavisor, Net}
use pantavisor.Updater.Status.{pending_state, pv_update_set_status}

pub record Disk : Type 0 where
  pub link_objects : Bool
  pub open_json : Bool
  pub expand_jsons : Bool

-- `crash`: `pv_state_compare_states` used a null or dangling pointer. `ret pv ok`: the call
-- returned, with 0 if `ok`.
pub data InstallRun (E : Type 0) : Type 0 where
  crash : InstallRun E
  ret : Pantavisor E → Bool → InstallRun E

module _ {E : Type 0} where
  abbrev set_runlevel : ℤ → List Platform → PvState → Pantavisor E → Pantavisor E
  set_runlevel runlevel ps s pv = elim pv.update [
    | none ↦ pv
    | some u ↦ record pv {
      state = some (record s { platforms = ps });
      update = some (record u { runlevel = runlevel });
    }
  ]

  -- `pv->update->runlevel = pv_state_compare_states(pending, pv->state)`
  abbrev after_compare : CompareRun → PvState → Pantavisor E → InstallRun E
  after_compare CompareRun.crash s pv = InstallRun.crash
  after_compare (CompareRun.reboot ps) s pv = ret (set_runlevel (pos runlevel_data) ps s pv) true
  after_compare (CompareRun.go runlevel ps) s pv = ret (set_runlevel runlevel ps s pv) true

  -- The revision is removed from disk where the installation fails.
  abbrev fail_install : PvState → Pantavisor E → InstallRun E
  fail_install pending pv = ret (record pv { removed = pending.rev ∷ pv.removed }) false

  abbrev install_in_bootloader : Net → PvState → PvState → Pantavisor E → InstallRun E
  install_in_bootloader net pending s pv =
      let (bootloader, installed) = pv_bootloader_set_installed pending.rev pv.bootloader in
      let pv1 = record pv { bootloader = bootloader } in
      if installed
      then after_compare (pv_state_compare_states (some pending) (some s)) s
          (pv_update_set_status net update_installed pv1).0
      else fail_install pending pv1

  abbrev install_pending : Net → Disk → PvState → PvState → Pantavisor E → InstallRun E
  install_pending net disk pending s pv =
      if disk.link_objects
      then if disk.open_json
        then if disk.expand_jsons
          then install_in_bootloader net pending s pv
          else fail_install pending pv
        else fail_install pending pv
      else fail_install pending (pv_update_set_status net update_failed pv).0

  -- With no update the source reads through a null pointer before its test; its one caller has one.
  unfoldable pub pv_update_install : Net → Disk → Pantavisor E → InstallRun E
  unfolding pv_update_set_status pv_bootloader_set_installed
  pv_update_install net disk pv = elim pv.update [
    | none ↦ InstallRun.crash
    | some u ↦ elim (pending_state u.pending pv.state) [
      | none ↦ ret pv false
      | some pending ↦ elim pv.state [
        | none ↦ fail_install pending pv
        | some s ↦ install_pending net disk pending s pv
      ]
    ]
  ]
