-- ===== src/Tests/Updater.antt =====
-- Runs of an update from download to its end.
use pantavisor.Prelude.{ne_of_str_eq, ◌≡◌, ◌≢◌, ◌⊎◌, refl, true, false, none, some, [], ◌∷◌}
use pantavisor.Prelude.Int.{pos}
use pantavisor.Timer.{timer_current_state}
use pantavisor.Platforms.{pv_platform_get_by_name}
use pantavisor.State.{get_by_name, platform_at}
use pantavisor.Storage.Space.{PvStorage}
use pantavisor.State.Compare.{
  returned, compare_platforms, compare_changed, changed_step, mark_updated, compare_deleted,
  deleted_step, pv_state_compare_states,
}
use pantavisor.Bootloader.{pv_bootloader_update_in_progress}
use pantavisor.Updater.{
  queued, inprogress, update_queued, update_installed, update_downloaded, update_retry_download,
  update_testing_reboot, own, running, Update, Pantavisor,
}
use pantavisor.Updater.Finish.{pv_update_finish}
use pantavisor.Updater.Finish.Laws.{finish_moves_done}
use pantavisor.Updater.Boot.{pv_update_resume}
use pantavisor.Updater.Boot.Laws.{status_of, failed_boot_recovers}
use pantavisor.Updater.Download.{
  Source, get_all_meta, download_remote, pv_update_check_download_retry, trail_download_objects,
  download_objects,
}
use pantavisor.Updater.Install.{Disk, ret, pv_update_install}
use pantavisor.Updater.Install.Laws.{install_success, runlevel_of}
use pantavisor.Updater.Steps.{
  steps, trail_get_new_steps, find_step, Step, Cloud, no_steps, process_step,
}
use pantavisor.Updater.Steps.Laws.{IsOffered, IsTaken, new_steps_checks}
use pantavisor.Tests.{
  Env, env_ops, boot_old, boot_new, online_net, update_with, daemon, rev_old, rev_new, root_started,
  app_started, at_second,
}

-- The daemon after a reboot, in revision 4 and in revision 5.
abbrev fell_back : Pantavisor Env
fell_back = daemon boot_old none none

five_ne_empty : rev_new.rev ≢ ""
five_ne_empty = ne_of_str_eq "5" "" refl

four_ne_five : boot_old.pv_rev ≢ "5"
four_ne_five = ne_of_str_eq "4" "5" refl

failed_boot_recovers_example :
    let pv' = (pv_update_finish online_net 3 (pv_update_resume online_net fell_back).0).0 in
    (pv'.update ≡ none)
    × (pv_bootloader_update_in_progress pv'.bootloader ≡ false)
    × (pv'.bootloader.pv_done ≡ some "4")
failed_boot_recovers_example =
    failed_boot_recovers online_net fell_back "5" 3 env_ops refl refl refl five_ne_empty
      four_ne_five

abbrev pub app_update : Update
app_update = update_with update_downloaded (own rev_new)

abbrev pub tested : Update
tested = update_with update_testing_reboot running

abbrev pub testing_daemon : Pantavisor Env
testing_daemon = daemon boot_new (some tested) (some rev_new)

finish_moves_done_example :
    let pv' = (pv_update_finish online_net 3 testing_daemon).0 in
    (pv'.bootloader.pv_done ≡ some "4")
    ⊎ ((tested.status ≡ update_testing_reboot) × (pv'.bootloader.pv_done ≡ some "5"))
finish_moves_done_example = finish_moves_done online_net 3 testing_daemon tested refl

abbrev room : PvStorage
room = record {
  total = 1000;
  free = 600;
  free_percentage = 60;
  reserved = 100;
  reserved_percentage = 10;
  real_free = 500;
  real_free_percentage = 50;
  threshold = 0;
}

abbrev pub server : Source
server = record {
  net = online_net;
  get_meta = λ o. some 20;
  in_pool = λ o. false;
  download = λ o. true;
  space_before = some room;
  space_after = some room;
  now = at_second 5;
  revision_retries = 3;
  storage_wait = 60;
}

abbrev fetched : Update
fetched = update_with update_queued (own rev_new)

abbrev fetching : Pantavisor Env
fetching = daemon boot_old (some fetched) (some rev_old)

fetch_works : (download_remote server fetching).1 ≡ true
unfolding download_remote pv_update_check_download_retry timer_current_state trail_download_objects
    get_all_meta download_objects
fetch_works = refl

abbrev spent : Update
spent = record (update_with update_retry_download (own rev_new)) { retries = 3 }

abbrev spent_daemon : Pantavisor Env
spent_daemon = daemon boot_old (some spent) (some rev_old)

timer_ran_out : (timer_current_state spent.retry_timer server.now).fin ≡ true
unfolding timer_current_state
timer_ran_out = refl

abbrev pub cloud : Cloud
cloud = record {
  net = online_net;
  trails = pos 1;
  inprogress_steps = no_steps;
  downloading_steps = no_steps;
  queued_steps = no_steps;
  new_steps = no_steps;
  atoi = λ rev. pos 5;
  revision_retries = 3;
}

abbrev step : Step
step = record {
  rev = some "5";
  complete = true;
  retries = 1;
  is_signed = true;
  parsed = some rev_new;
}

abbrev idle : Pantavisor Env
idle = daemon boot_old none (some rev_old)

abbrev queued_update : Update
queued_update = record (update_with update_queued (own rev_new)) { runlevel = pos 0 }

abbrev with_queued : Pantavisor Env
with_queued = record idle {
  update = some queued_update;
  reports = record { rev = none; step = queued; progress = 0; sent = true } ∷ [];
}

-- The cloud has a new step.
abbrev new_cloud : Cloud
new_cloud = record cloud { new_steps = steps step }

step_taken : trail_get_new_steps new_cloud idle ≡ (with_queued, true)
unfolding trail_get_new_steps find_step process_step
step_taken = refl

new_steps_checks_example :
    (s : Step) × IsOffered new_cloud s × IsTaken new_cloud idle s queued_update
new_steps_checks_example = new_steps_checks new_cloud idle with_queued queued_update step_taken refl

abbrev pub disk : Disk
disk = record { link_objects = true; open_json = true; expand_jsons = true }

abbrev fetched_daemon : Pantavisor Env
fetched_daemon = daemon boot_old (some app_update) (some rev_old)

abbrev installed : Pantavisor Env
installed = record fetched_daemon {
  update = some (record app_update { status = update_installed; runlevel = pos 3 });
  state =
      some
        (record rev_old { platforms = root_started ∷ record app_started { updated = true } ∷ [] });
  reports = record { rev = some "5"; step = inprogress; progress = 80; sent = true } ∷ [];
}

install_works : pv_update_install online_net disk fetched_daemon ≡ ret installed true
unfolding pv_update_install pv_state_compare_states compare_platforms pv_platform_get_by_name
    compare_changed changed_step get_by_name mark_updated platform_at compare_deleted deleted_step
install_works = refl

install_success_example :
    (installed.bootloader.pv_try ≡ some "5")
    × (installed.bootloader.pv_done ≡ some "4")
    × (installed.bootloader.pv_rev ≡ "4")
    × (status_of installed.update ≡ some update_installed)
    × (runlevel_of installed.update
        ≡ returned (pv_state_compare_states (some rev_new) (some rev_old)))
install_success_example =
    install_success online_net disk fetched_daemon installed app_update rev_new rev_old refl refl
      refl install_works
