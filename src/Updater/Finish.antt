-- ===== src/Updater/Finish.antt =====
-- `pv_update_test` and `pv_update_finish` of updater.c: how an update ends.
pub mod Laws
use pantavisor.Prelude.{ℕ, String, Bool, true, false, not, Option, none, some, ltb, if◌then◌else◌}
use pantavisor.State.{PvState}
use pantavisor.Bootloader.{pv_bootloader_set_failed, pv_bootloader_set_commited}
use pantavisor.Updater.{
  UpdateState, update_try, update_transition, update_updated, update_done, update_failed,
  update_no_download, update_retry_download, update_testing_reboot, update_testing_nonreboot,
  Update, Pantavisor, Net,
}
use pantavisor.Updater.Status.{pv_update_set_status, pv_update_remove, rev_of}

-- `pv->state->rev`; a running daemon has a state.
abbrev pub running_rev : Option PvState → String
running_rev none = ""
running_rev (some s) = s.rev

module _ {E : Type 0} where
  abbrev test_status : Net → UpdateState → Pantavisor E → Pantavisor E
  test_status net update_try pv = (pv_update_set_status net update_testing_reboot pv).0
  test_status net update_transition pv = (pv_update_set_status net update_testing_nonreboot pv).0
  test_status net _ pv = pv

  -- A tried update goes on to be tested.
  unfoldable pub pv_update_test : Net → Pantavisor E → Pantavisor E
  unfolding pv_update_set_status
  pv_update_test net pv = elim pv.update [ none ↦ pv | some u ↦ test_status net u.status pv ]

  abbrev commit_update : Net → Pantavisor E → Pantavisor E × Bool
  commit_update net pv =
      let (bootloader, committed) =
        pv_bootloader_set_commited (running_rev pv.state) pv.bootloader in
      let pv1 = record pv { bootloader = bootloader } in
      if committed
      then (pv_update_remove (pv_update_set_status net update_done pv1).0, true)
      else (pv1, false)

  -- The `switch` of `pv_update_finish`; `max_retries` is of the configuration.
  abbrev finish_status : Net → ℕ → UpdateState → Update → Pantavisor E → Pantavisor E × Bool
  finish_status net max_retries update_failed u pv =
      let pv1 = record pv { bootloader = (pv_bootloader_set_failed pv.bootloader).0 } in
      (pv_update_remove (pv_update_set_status net update_failed pv1).0, true)
  finish_status net max_retries update_retry_download u pv =
      if ltb max_retries u.retries
      then (pv_update_remove (pv_update_set_status net update_no_download pv).0, true)
      else (pv, true)
  finish_status net max_retries update_no_download u pv = (pv_update_remove pv, true)
  finish_status net max_retries update_testing_reboot u pv = commit_update net pv
  finish_status net max_retries update_testing_nonreboot u pv =
      (pv_update_remove (pv_update_set_status net update_updated pv).0, true)
  finish_status net max_retries status u pv =
      (pv_update_remove (pv_update_set_status net status pv).0, true)

  -- `true` is the result 0. The file `done` of old versions is not modelled.
  unfoldable pub pv_update_finish : Net → ℕ → Pantavisor E → Pantavisor E × Bool
  unfolding pv_update_set_status pv_update_remove pv_bootloader_set_failed
      pv_bootloader_set_commited
  pv_update_finish net max_retries pv = elim pv.update [
    | none ↦ (pv, true)
    | some u ↦ finish_status net max_retries u.status u pv
  ]
