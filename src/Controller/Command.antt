-- ===== src/Controller/Command.antt =====
-- The handlers of `PV_STATE_COMMAND` and `PV_STATE_UPDATE`.
pub mod Laws
use Prim.Native.String
use pantavisor.Prelude.{
  ℕ, String, Bool, true, false, not, Option, none, some, is_some, List, ◌∷◌, str_eq, if◌then◌else◌,
}
use pantavisor.Prelude.Int.{ℤ, pos_part}
use pantavisor.Platforms.Stop.{Stopped, pv_platforms_stop}
use pantavisor.State.{PvState}
use pantavisor.Updater.{
  CmdOp, cmd_update_metadata, cmd_reboot_device, cmd_poweroff_device, cmd_local_run,
  cmd_make_factory, cmd_run_gc, cmd_other, PvCmd, Update, Pantavisor,
}
use pantavisor.Updater.Status.{pending_state, rev_of}
use pantavisor.Metadata.{pv_metadata_parse_devmeta}
use pantavisor.Storage.Gc.{Protection, pv_storage_gc_run}
use pantavisor.Updater.Finish.{pv_update_finish, running_rev}
use pantavisor.Updater.Boot.{pv_update_requires_reboot}
use pantavisor.Updater.Download.{pv_update_download}
use pantavisor.Updater.Install.{InstallRun, ret, pv_update_install}
use pantavisor.Updater.Steps.{pv_update_get_step_local}
use pantavisor.Controller.{
  PvStateT, pv_state_run, pv_state_wait, pv_state_update, pv_state_rollback, pv_state_reboot,
  pv_state_poweroff, Controller, World, OnDisk, StepRun, crash, next,
}

-- The revision that becomes revision 0: the one named, or the running one.
abbrev pub factory_rev : String → Option PvState → String
factory_rev payload s = if str_eq payload "" then running_rev s else payload

module _ {E : Type 0} where
  -- Every command ends with the command freed.
  abbrev pub done_with : Controller E → Pantavisor E → PvStateT → StepRun E
  done_with c pv st = next (record c { pv = record pv { cmd = none } }) st

  -- `pv->update = pv_update_get_step_local(rev)`
  abbrev pub take_local : World → String → Controller E → StepRun E
  take_local w rev c =
      let disk = w.on_disk rev in
      let (pv', u) = pv_update_get_step_local w.net disk.is_signed disk.parsed c.pv in
      done_with c (record pv' { update = u }) (if is_some u then pv_state_update else pv_state_wait)

  -- `pv_metadata_parse_devmeta`
  abbrev pub parse_metadata : World → String → Controller E → StepRun E
  parse_metadata w payload c =
      let metadata = pv_metadata_parse_devmeta (w.metadata_items payload) c.metadata in
      done_with (record c { metadata = metadata }) c.pv pv_state_wait

  abbrev pub protection_of : World → String → Pantavisor E → Protection
  protection_of w done pv = record {
    running = rev_of pv.state;
    update = elim pv.update [ none ↦ none | some u ↦ some (pending_state u.pending pv.state) ];
    done = done;
    keep_factory = w.keep_factory;
  }

  -- `pv_storage_gc_run`: a last booted revision that is a null pointer is compared with.
  abbrev pub collect : World → Controller E → StepRun E
  collect w c = elim c.pv.bootloader.pv_done [
    | none ↦ crash
    | some done ↦
        let run =
          pv_storage_gc_run (protection_of w done c.pv) w.revisions w.objects w.stat_after in
        done_with (record c { collections = run ∷ c.collections }) c.pv pv_state_wait
  ]

  abbrev pub command_op : World → CmdOp → String → Controller E → StepRun E
  command_op w cmd_reboot_device payload c =
      done_with c c.pv (if is_some c.pv.update then pv_state_wait else pv_state_reboot)
  command_op w cmd_poweroff_device payload c =
      done_with c c.pv (if is_some c.pv.update then pv_state_wait else pv_state_poweroff)
  command_op w cmd_local_run payload c =
      if is_some c.pv.update then done_with c c.pv pv_state_wait else take_local w payload c
  command_op w cmd_make_factory payload c =
      if is_some c.pv.update
      then done_with c c.pv pv_state_wait
      else if not c.pv.unclaimed
      then done_with c c.pv pv_state_wait
      else if w.update_factory (factory_rev payload c.pv.state)
      then take_local w "0" c
      else done_with c c.pv pv_state_wait
  command_op w cmd_update_metadata payload c =
      if c.pv.remote_mode then parse_metadata w payload c else done_with c c.pv pv_state_wait
  command_op w cmd_run_gc payload c = collect w c
  command_op w cmd_other payload c = done_with c c.pv pv_state_wait

  unfoldable pub _pv_command : World → Controller E → StepRun E
  _pv_command w c = elim c.pv.cmd [
    | none ↦ next c pv_state_wait
    | some cmd ↦ command_op w cmd.op cmd.payload c
  ]

  abbrev pub update_failed_here : World → Controller E → Pantavisor E → StepRun E
  update_failed_here w c pv =
      next (record c { pv = (pv_update_finish w.net w.config.revision_retries pv).0 }) pv_state_wait

  -- Everything from the update's runlevel up is stopped, and started again in `PV_STATE_RUN`.
  abbrev pub stop_for_update : World → Controller E → Pantavisor E → StepRun E
  stop_for_update w c pv = elim pv.update [
    | none ↦ crash
    | some u ↦ elim pv.state [
      | none ↦ crash
      | some s ↦ elim (pv_platforms_stop w.alive_in_stop (pos_part u.runlevel) s.platforms) [
        | none ↦ crash
        | some stopped ↦
            next
              (record c {
                pv = record pv { state = some (record s { platforms = stopped.platforms }) };
              })
              (if w.volumes_unmount then pv_state_run else pv_state_rollback)
      ]
    ]
  ]

  abbrev pub after_install : World → Controller E → InstallRun E → StepRun E
  after_install w c InstallRun.crash = crash
  after_install w c (ret pv installed) =
      let (pv', reboots) = pv_update_requires_reboot w.net pv in
      if installed
      then if reboots then next (record c { pv = pv' }) pv_state_reboot else stop_for_update w c pv'
      else update_failed_here w c pv

  unfoldable pub _pv_update : World → Controller E → StepRun E
  _pv_update w c =
      let (pv1, downloaded) = pv_update_download w.source c.pv in
      if downloaded
      then after_install w c (pv_update_install w.net w.disk pv1)
      else update_failed_here w c pv1
