-- ===== src/Tests/Controller.antt =====
-- Runs of the controller.
use pantavisor.Metadata.{Metadata}
use pantavisor.Prelude.{◌≡◌, ◌≢◌, ◌⊎◌, inl, refl, true, false, none, some, is_some, [], ◌∷◌, arith}
use pantavisor.Prelude.Int.{pos}
use pantavisor.Timer.{timer_current_state}
use pantavisor.Platforms.{pv_platform_get_by_name}
use pantavisor.Platforms.Start.{
  pv_platforms_start, start_level, pv_platforms_start_platform, _pv_platforms_get_ctrl,
}
use pantavisor.Platforms.Stop.{pv_platforms_check_exited, pv_platforms_stop, stop_level}
use pantavisor.State.{get_by_name, platform_at}
use pantavisor.Bootloader.{pv_bootloader_update_in_progress, pv_bootloader_trying_update}
use pantavisor.State.Checksum.{pv_state_validate_checksum}
use pantavisor.Updater.{update_failed, Pantavisor, cmd_reboot_device}
use pantavisor.Updater.Status.{
  pv_update_is_trying, pv_update_is_testing, pv_update_is_transitioning,
}
use pantavisor.Updater.Finish.{pv_update_finish}
use pantavisor.Updater.Boot.{pv_update_resume, pv_update_requires_reboot}
use pantavisor.Updater.Download.{pv_update_download}
use pantavisor.Updater.Install.{pv_update_install}
use pantavisor.State.Compare.{
  pv_state_compare_states, compare_platforms, compare_changed, changed_step, mark_updated,
  compare_deleted, deleted_step,
}
use pantavisor.Updater.Boot.Laws.{status_of}
use pantavisor.Controller.{
  pv_state_init, pv_state_run, pv_state_wait, pv_state_rollback, pv_state_reboot, pv_state_error,
  pv_state_exit, Controller, World, StepRun, crash, next,
}
use pantavisor.Controller.Wait.{_pv_wait, pv_wait_update, pv_wait_network}
use pantavisor.Controller.Wait.Laws.{IsOnTrial, exited_tears_down, commit_after_delay}
use pantavisor.Controller.Run.{_pv_run, run_state, start_up, load_state}
use pantavisor.Controller.Run.Laws.{run_checks, done_platforms, platforms_of}
use pantavisor.Controller.Command.{_pv_update}
use pantavisor.Controller.Command.Laws.{update_runs, AbovePlatform}
use pantavisor.Controller.Machine.{_pv_init, _pv_run_state, _pv_rollback, run_states}
use pantavisor.Controller.Machine.Laws.{
  StepOk, _pv_run_state-StepOk, ReportsError, rollback_reports,
}
use pantavisor.Tests.{
  Env, boot_old, boot_new, online_net, daemon, rev_old, rev_new, at_second, timer_at,
}
use pantavisor.Tests.Updater.{server, cloud, disk, tested, testing_daemon, app_update}

-- A world in which all goes well but for the cloud, which does not answer.
abbrev pub world : World
world = record {
  config = record {
    control_remote = true;
    network_timeout = 120;
    commit_delay = 60;
    interval = 30;
    revision_retries = 3;
  };
  clock = record {
    started = at_second 10;
    delay_asked = at_second 10;
    delay_set = at_second 10;
    rollback_asked = at_second 10;
    commit_set = at_second 10;
    commit_asked = at_second 10;
  };
  net = online_net;
  execute_init = true;
  on_disk = λ rev. record { is_signed = false; parsed = none };
  is_revision_local = λ rev. false;
  checks = record {
    trails_object = λ rev name id. true;
    pool_object = λ id. true;
    trails_json = λ rev name value. true;
  };
  volumes_mount = true;
  make_config = true;
  ctrl_start = λ p. some (pos 8);
  volumes_unmount = true;
  alive = λ pid. false;
  alive_in_stop = λ round pid. false;
  device_exists = true;
  register_self = true;
  device_is_owned = true;
  ph_is_auth = false;
  factory_meta_done = true;
  factory_meta = true;
  meta_update_to_ph = true;
  cloud = cloud;
  source = server;
  disk = disk;
  update_factory = λ rev. true;
  socket_wait = none;
  metadata_items = λ s. [];
  keep_factory = true;
  revisions = some [];
  objects = [];
  stat_after = λ gone id. none;
}

abbrev pub controller : Pantavisor Env → Controller Env
controller pv = record {
  pv = pv;
  rollback_timer = timer_at 100;
  wait_delay = timer_at 0;
  timer_commit = timer_at 5;
  metadata = record { usermeta = []; devmeta = []; devmeta_uploaded = true; acts = [] };
  collections = [];
}

-- Revision 5 runs and is tested, and the commit timer has run out.
abbrev testing : Controller Env
testing = controller testing_daemon

exited_tears_down_example :
    ((_pv_wait world testing ≡ next testing pv_state_rollback) × IsOnTrial (some tested))
    ⊎ ((_pv_wait world testing ≡ next testing pv_state_reboot) × ¬ (IsOnTrial (some tested)))
exited_tears_down_example =
    exited_tears_down world testing rev_new 1 refl (omega arith) (inl (refl, refl))

offline_steps : pv_wait_network world testing ≡ next testing pv_state_rollback
unfolding pv_wait_network pv_update_is_trying pv_update_is_testing
offline_steps = refl

-- The daemon and where it goes, after a handler that returned.
abbrev after : StepRun Env → Controller Env
after crash = testing
after (next c st) = c

abbrev finished : Controller Env
finished = after (pv_wait_update world testing)

finish_steps : pv_wait_update world testing ≡ next finished pv_state_wait
unfolding pv_wait_update pv_update_is_trying pv_update_is_testing timer_current_state
    pv_update_finish
finish_steps = refl

commit_after_delay_example :
    ((finished.pv.bootloader.pv_done ≡ some "4")
      ⊎ ((finished.pv.bootloader.pv_done ≡ some "5")
          × ((timer_current_state finished.timer_commit (at_second 10)).fin ≡ true)))
    × ((pv_state_wait ≡ pv_state_wait) ⊎ (pv_state_wait ≡ pv_state_rollback))
commit_after_delay_example = commit_after_delay world testing finished pv_state_wait finish_steps

abbrev ordered : Controller Env
ordered =
    controller
      (record testing_daemon { cmd = some (record { op = cmd_reboot_device; payload = "" }) })

rollback_steps :
    _pv_rollback world testing ≡ next (after (_pv_rollback world testing)) pv_state_reboot
unfolding _pv_rollback
rollback_steps = refl

rollback_reports_example :
    let c' = after (_pv_rollback world testing) in
    ((rev_new.rev ≡ "0") × (pv_state_reboot ≡ pv_state_error) × (c' ≡ testing))
    ⊎ ((rev_new.rev ≢ "0")
        × (pv_state_reboot ≡ pv_state_reboot)
        × (status_of c'.pv.update ≡ some update_failed)
        × (c'.pv.bootloader.pv_done ≡ some "4")
        × ReportsError (some "5") testing.pv.reports c'.pv.reports)
rollback_reports_example =
    rollback_reports world testing (after (_pv_rollback world testing)) pv_state_reboot tested
      rev_new refl refl rollback_steps

_pv_run_state-StepOk_example :
    StepOk pv_state_rollback testing (after (_pv_rollback world testing)) pv_state_reboot
unfolding _pv_run_state
_pv_run_state-StepOk_example =
    _pv_run_state-StepOk world pv_state_rollback testing (after (_pv_rollback world testing))
      pv_state_reboot rollback_steps

-- A start in which the platforms' initialisation fails.
failed_start :
    run_states (record world { execute_init = false } ∷ world ∷ []) pv_state_init testing
    ≡ next testing pv_state_exit
unfolding run_states _pv_run_state _pv_init
failed_start = refl

-- Revision 5 after a reboot, before it is started, and with a wrong signature.
abbrev fresh : Controller Env
fresh = controller (daemon boot_new none (some rev_new))

run_steps : run_state world 0 fresh ≡ next (after (run_state world 0 fresh)) pv_state_wait
unfolding run_state start_up pv_state_validate_checksum pv_platforms_start start_level
    pv_platforms_start_platform _pv_platforms_get_ctrl
run_steps = refl

run_checks_example :
    let c' = after (run_state world 0 fresh) in
    (pv_state_validate_checksum world.checks rev_new ≡ true)
    × (true ≡ true)
    × (done_platforms (pv_platforms_start world.ctrl_start 0 rev_new.platforms)
        ≡ platforms_of c'.pv.state)
    × (is_some c'.pv.state ≡ true)
    × ((false ≡ false) ⊎ (c'.pv.remote_mode ≡ false))
run_checks_example =
    run_checks world fresh (after (run_state world 0 fresh)) 0 rev_new refl run_steps

unsigned_steps : _pv_run world fresh ≡ next (after (_pv_run world fresh)) pv_state_rollback
unfolding _pv_run load_state pv_update_resume pv_update_is_transitioning
    pv_bootloader_update_in_progress pv_bootloader_trying_update
unsigned_steps = refl

no_transition : pv_update_is_transitioning fresh.pv.update ≡ false
unfolding pv_update_is_transitioning
no_transition = refl

-- A local update whose objects are in place.
abbrev local_daemon : Pantavisor Env
local_daemon = daemon boot_old (some (record app_update { is_local = true })) (some rev_old)

abbrev fetching_now : Controller Env
fetching_now = controller local_daemon

update_steps :
    _pv_update world fetching_now ≡ next (after (_pv_update world fetching_now)) pv_state_run
unfolding _pv_update pv_update_download pv_update_install pv_state_compare_states compare_platforms
    pv_platform_get_by_name compare_changed changed_step get_by_name mark_updated platform_at
    compare_deleted deleted_step pv_update_requires_reboot pv_platforms_stop stop_level
    _pv_platforms_get_ctrl pv_platforms_check_exited
update_steps = refl

update_runs_example :
    ((pv_update_download server local_daemon).1 ≡ true)
    × (true ≡ true)
    × AbovePlatform (after (_pv_update world fetching_now)).pv.update
update_runs_example =
    update_runs world fetching_now (after (_pv_update world fetching_now)) update_steps
