-- ===== src/Controller/Keeps.antt =====
-- What the updater's operations leave of the bootloader's record and of the running revision, as
-- the handlers of pantavisor.c need it.
use pantavisor.Prelude.{◌≡◌, inl, inr, Option-cases, refl, Bool, true, Option, some, List, arith}
use pantavisor.State.{PvState, PvObject}
use pantavisor.Updater.{
  UpdateState, update_downloaded, update_retry_download, Update, Pantavisor, Net,
}
use pantavisor.Updater.Status.{pending_state, trail_remote_init, pv_update_set_status}
use pantavisor.Updater.Finish.{running_rev}
use pantavisor.Updater.Boot.{pv_update_resume, pv_update_requires_reboot}
use pantavisor.Updater.Download.{
  Source, pv_update_check_download_retry, get_all_meta, download_objects, trail_download_objects,
  download_pending, with_objects, objects_of, download_remote, pv_update_download,
}
use pantavisor.Updater.Install.{Disk, ret, pv_update_install}
use pantavisor.Updater.Steps.{
  Step, Cloud, Found, nothing, found, find_step, take_step, process_step, trail_get_new_steps,
  pv_updater_check_for_updates, pv_trail_is_auth, pv_update_get_step_local,
}

-- The revision to fall back to and the running revision are the same.
abbrev pub SameRevs : {E : Type 0} → Pantavisor E → Pantavisor E → Type 0
SameRevs pv pv' =
    (pv'.bootloader.pv_done ≡ pv.bootloader.pv_done)
    × (running_rev pv'.state ≡ running_rev pv.state)

module _ {E : Type 0} (net : Net) (pv : Pantavisor E) where
  pub set_status-SameRevs : (st : UpdateState) → SameRevs pv (pv_update_set_status net st pv).0
  unfolding pv_update_set_status
  set_status-SameRevs st = ground arith

  pub resume-SameRevs : SameRevs pv (pv_update_resume net pv).0
  unfolding pv_update_resume
  resume-SameRevs = ground arith

  pub requires_reboot-SameRevs : SameRevs pv (pv_update_requires_reboot net pv).0
  unfolding pv_update_requires_reboot
  requires_reboot-SameRevs = ground arith

  pub is_auth-SameRevs : SameRevs pv (pv_trail_is_auth net pv).0
  unfolding pv_trail_is_auth
  is_auth-SameRevs = ground arith

  pub get_step_local-SameRevs :
      (is_signed : Bool) (parsed : Option PvState)
      → SameRevs pv (pv_update_get_step_local net is_signed parsed pv).0
  unfolding pv_update_get_step_local
  get_step_local-SameRevs is_signed parsed = ground arith

module _ {E : Type 0} (cloud : Cloud) where
  pub process_step-SameRevs :
      (pv : Pantavisor E) (wrong : Bool) (step : Step)
      → SameRevs pv (process_step cloud wrong step pv).0
  unfolding process_step
  process_step-SameRevs pv wrong step = ground arith

  take_step-SameRevs : (pv : Pantavisor E) (f : Found) → SameRevs pv (take_step cloud f pv).0
  take_step-SameRevs pv nothing = (refl, refl)
  take_step-SameRevs pv (found wrong step) = process_step-SameRevs pv wrong step

  pub get_new_steps-SameRevs : (pv : Pantavisor E) → SameRevs pv (trail_get_new_steps cloud pv).0
  unfolding trail_get_new_steps
  get_new_steps-SameRevs pv = ground (arith, take_step-SameRevs pv (find_step cloud pv.update))

  pub check_for_updates-SameRevs :
      (pv : Pantavisor E) → SameRevs pv (pv_updater_check_for_updates cloud pv).0
  unfolding pv_updater_check_for_updates
  check_for_updates-SameRevs pv =
      ground (
        arith,
        get_new_steps-SameRevs (record (trail_remote_init cloud.net pv).0 { synced = true }),
      )

module _ {E : Type 0} (src : Source) where
  pub retry-SameRevs : (pv : Pantavisor E) → SameRevs pv (pv_update_check_download_retry src pv).0
  unfolding pv_update_check_download_retry
  retry-SameRevs pv = ground arith

  pub download_objects-SameRevs :
      (os : List PvObject) (pv : Pantavisor E) → SameRevs pv (download_objects src os pv).0
  unfolding download_objects
  download_objects-SameRevs os pv = ground arith

  download_pending-SameRevs :
      (pv : Pantavisor E) (u : Update) → SameRevs pv (download_pending src u pv).0
  download_pending-SameRevs pv u =
      let (os, got) = get_all_meta src (objects_of (pending_state u.pending pv.state)) in
      let pv1 = record pv { update = some (record u { pending = with_objects os u.pending }) } in
      ground (
        arith,
        download_objects-SameRevs os pv1,
        set_status-SameRevs src.net pv1 update_retry_download,
      )

  pub trail_download-SameRevs : (pv : Pantavisor E) → SameRevs pv (trail_download_objects src pv).0
  unfolding trail_download_objects
  trail_download-SameRevs pv = elim (Option-cases pv.update) [
    | inl n ↦ ground (arith, n)
    | inr (u, e) ↦ ground (arith, e, download_pending-SameRevs pv u)
  ]

  pub download_remote-SameRevs : (pv : Pantavisor E) → SameRevs pv (download_remote src pv).0
  unfolding download_remote
  download_remote-SameRevs pv = ground (
    arith,
    retry-SameRevs pv,
    trail_download-SameRevs (pv_update_check_download_retry src pv).0,
    set_status-SameRevs src.net
        (trail_download_objects src (pv_update_check_download_retry src pv).0).0 update_downloaded,
  )

  pub download-SameRevs : (pv : Pantavisor E) → SameRevs pv (pv_update_download src pv).0
  unfolding pv_update_download
  download-SameRevs pv = ground (arith, download_remote-SameRevs (trail_remote_init src.net pv).0)

module _ {E : Type 0} (net : Net) (disk : Disk) (pv pv' : Pantavisor E) where
  pub install-SameRevs : (ok : Bool) → pv_update_install net disk pv ≡ ret pv' ok → SameRevs pv pv'
  unfolding pv_update_install
  install-SameRevs ok h = ground (arith, h)
