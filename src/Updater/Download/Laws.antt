-- ===== src/Updater/Download/Laws.antt =====
-- What a download does to the update's status, and how often it is tried.
use pantavisor.Prelude.{
  ℕ, ◌+◌, ◌≤◌, ◌≡◌, true, false, Option, none, some, List, [], ◌∷◌, arith, All,
}
use pantavisor.Timer.{timer_current_state}
use pantavisor.State.{PvObject}
use pantavisor.Storage.Space.{pv_storage_gc_run_needed}
use pantavisor.Updater.{
  Report, StepStatus, wontgo, update_downloaded, update_retry_download, Update, Pantavisor,
}
use pantavisor.Updater.Status.{pending_state}
use pantavisor.Updater.Finish.{pv_update_finish}
use pantavisor.Updater.Boot.Laws.{status_of}
use pantavisor.Updater.Status.{pv_update_set_status}
use pantavisor.Updater.Download.{
  Source, pv_update_check_download_retry, get_update_size, download_all, download_objects,
  trail_download_objects, download_remote, objects_of, get_all_meta,
}

abbrev pub retries_of : Option Update → ℕ
retries_of none = 0
retries_of (some u) = u.retries

-- The status of the last report.
abbrev pub last_step : List Report → Option StepStatus
last_step [] = none
last_step (r ∷ rs) = some r.step

module _ {E : Type 0} (src : Source) (pv : Pantavisor E) (u : Update) where
  -- While the retry timer runs, a remote update is neither downloaded nor changed.
  pub download_waits :
      pv.update ≡ some u
      → (timer_current_state u.retry_timer src.now).fin ≡ false
      → download_remote src pv ≡ (pv, false)
  unfolding download_remote pv_update_check_download_retry trail_download_objects download_objects
      get_all_meta pv_update_set_status
  download_waits h f = ground (arith, h, f)

  -- A download that reports success has the metadata and the content of every object of the update,
  -- found the space that they need, and leaves the update downloaded.
  pub download_success :
      pv.update ≡ some u
      → (download_remote src pv).1 ≡ true
      → let (os, got) = get_all_meta src (objects_of (pending_state u.pending pv.state)) in
        (got ≡ true)
        × (download_all src os ≡ true)
        × (get_update_size src os
            ≤ (pv_storage_gc_run_needed
                (get_update_size src os)
                src.space_before
                src.space_after).available)
        × (status_of (download_remote src pv).0.update ≡ some update_downloaded)
  unfolding download_remote pv_update_check_download_retry trail_download_objects download_objects
      get_all_meta pv_update_set_status
  download_success h d = ground (arith, h, d)

  -- Once the configured retries are used up, the next attempt whose timer has run out ends the
  -- update: it fails, `pv_update_finish` removes the update, and the last report is that it will
  -- not go.
  pub retries_run_out :
      pv.update ≡ some u
      → u.status ≡ update_retry_download
      → u.retries ≡ src.revision_retries
      → (timer_current_state u.retry_timer src.now).fin ≡ true
      → let pv1 = (download_remote src pv).0 in
        let pv2 = (pv_update_finish src.net src.revision_retries pv1).0 in
        ((download_remote src pv).1 ≡ false)
        × (pv2.update ≡ none)
        × (last_step pv2.reports ≡ some wontgo)
  unfolding download_remote pv_update_finish pv_update_check_download_retry trail_download_objects
      download_objects get_all_meta pv_update_set_status
  retries_run_out h t r f = ground (arith, h, t, r, f)

  -- An attempt counts: it raises the number of retries by one, and never past one more than the
  -- configured number.
  pub retries_grow :
      pv.update ≡ some u
      → u.retries ≤ src.revision_retries
      → (timer_current_state u.retry_timer src.now).fin ≡ true
      → let n = retries_of (pv_update_check_download_retry src pv).0.update in
        (n ≡ u.retries + 1) × (n ≤ src.revision_retries + 1)
  unfolding pv_update_check_download_retry
  retries_grow h l f = ground (arith, h, l, f)

download_all-All :
    (src : Source) (os : List PvObject)
    → download_all src os ≡ true
    → All (λ o. src.download o ≡ true) os
unfolding download_all
download_all-All src [] h = tt
download_all-All src (o ∷ os) h = ground (arith, download_all-All src os)
