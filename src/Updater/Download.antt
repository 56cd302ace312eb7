-- ===== src/Updater/Download.antt =====
-- `pv_update_download` of updater.c and what it calls. The metadata and the content of an object
-- come from the cloud, so the requests' results are arguments; the unused kernel lookups of
-- `trail_download_objects` are left out.
pub mod Laws
use pantavisor.Prelude.{
  ℕ, ◌+◌, String, Bool, true, false, not, ◌&&◌, ◌||◌, Option, none, some, List, [], ◌∷◌, ltb,
  if◌then◌else◌,
}
use pantavisor.Timer.{Timer, Timespec, timer_current_state, timer_start, relativ_timer}
use pantavisor.State.{PvState, PvObject}
use pantavisor.Storage.Space.{PvStorage, Needed, pv_storage_gc_run_needed}
use pantavisor.Updater.{
  update_downloaded, update_failed, update_no_download, update_retry_download,
  update_download_progress, Pending, no_pending, own, running, Update, Pantavisor, Net,
}
use pantavisor.Updater.Status.{pending_state, trail_remote_init, pv_update_set_status}

-- What the calls get from outside: the size in an object's metadata, if it is had; whether the
-- object is in the pool; whether its download works; the free space before and after the collector;
-- the clock; and two settings.
pub record Source : Type 0 where
  pub net : Net
  pub get_meta : PvObject → Option ℕ
  pub in_pool : PvObject → Bool
  pub download : PvObject → Bool
  pub space_before : Option PvStorage
  pub space_after : Option PvStorage
  pub now : Timespec
  pub revision_retries : ℕ
  pub storage_wait : ℕ

-- The result of `pv_update_check_download_retry`: 0, 1 (wait) or -1.
pub data Retry : Type 0 where
  try_now wait give_up : Retry

module _ {E : Type 0} where
  unfoldable pub pv_update_check_download_retry : Source → Pantavisor E → Pantavisor E × Retry
  unfolding pv_update_set_status
  pv_update_check_download_retry src pv = elim pv.update [
    | none ↦ ((pv_update_set_status src.net update_failed pv).0, give_up)
    | some u ↦
        if (timer_current_state u.retry_timer src.now).fin
        then if ltb src.revision_retries (u.retries + 1)
          then (record pv { update = some (record u { retries = u.retries + 1 }) }, give_up)
          else (
            record pv {
              update = some (record u {
                retries = u.retries + 1;
                retry_timer = timer_start u.retry_timer src.storage_wait 0 relativ_timer src.now;
              });
            },
            try_now,
          )
        else (pv, wait)
  ]

-- The loop over `trail_download_get_meta`, which sets the sizes; the objects of which the request
-- failed, and all behind, keep theirs.
unfoldable pub get_all_meta : Source → List PvObject → List PvObject × Bool
get_all_meta src [] = ([], true)
get_all_meta src (o ∷ os) = elim (src.get_meta o) [
  | none ↦ (o ∷ os, false)
  | some size ↦ let (rest, ok) = get_all_meta src os in (record o { size = size } ∷ rest, ok)
]

-- The bytes of the objects that are not in the pool.
unfoldable pub get_update_size : Source → List PvObject → ℕ
get_update_size src [] = 0
get_update_size src (o ∷ os) =
    let rest = get_update_size src os in if src.in_pool o then rest else o.size + rest

unfoldable pub download_all : Source → List PvObject → Bool
download_all src [] = true
download_all src (o ∷ os) = if src.download o then download_all src os else false

abbrev pub with_objects : List PvObject → Pending → Pending
with_objects os (own s) = own (record s { objects = os })
with_objects os p = p

abbrev pub objects_of : Option PvState → List PvObject
objects_of none = []
objects_of (some s) = s.objects

abbrev pub is_null : Pending → Bool
is_null no_pending = true
is_null p = false

module _ {E : Type 0} where
  unfoldable pub trail_check_update_size :
      Source → List PvObject → Pantavisor E → Pantavisor E × Bool
  unfolding get_update_size pv_storage_gc_run_needed pv_update_set_status
  trail_check_update_size src os pv =
      let size = get_update_size src os in
      let room = pv_storage_gc_run_needed size src.space_before src.space_after in
      if ltb room.available size
      then ((pv_update_set_status src.net update_no_download pv).0, false)
      else (pv, true)

  abbrev pub clear_total : Pantavisor E → Pantavisor E
  clear_total pv = elim pv.update [
    | none ↦ pv
    | some u ↦ record pv { update = some (record u { total_downloaded = 0 }) }
  ]

  unfoldable pub download_objects : Source → List PvObject → Pantavisor E → Pantavisor E × Bool
  unfolding trail_check_update_size download_all pv_update_set_status
  download_objects src os pv =
      let (pv1, fits) = trail_check_update_size src os pv in
      let pv2 = (pv_update_set_status src.net update_download_progress (clear_total pv1)).0 in
      if not fits
      then (pv1, false)
      else if download_all src os
      then ((pv_update_set_status src.net update_download_progress pv2).0, true)
      else ((pv_update_set_status src.net update_retry_download pv2).0, false)

  abbrev pub download_pending : Source → Update → Pantavisor E → Pantavisor E × Bool
  download_pending src u pv =
      let (os, got) = get_all_meta src (objects_of (pending_state u.pending pv.state)) in
      let pv1 = record pv { update = some (record u { pending = with_objects os u.pending }) } in
      if got
      then download_objects src os pv1
      else ((pv_update_set_status src.net update_retry_download pv1).0, false)

  -- `trail_download_objects`; `true` is the result 0.
  unfoldable pub trail_download_objects : Source → Pantavisor E → Pantavisor E × Bool
  trail_download_objects src pv = elim pv.update [
    | none ↦ (pv, false)
    | some u ↦ download_pending src u pv
  ]

  -- Downloading, once the remote is there.
  unfoldable pub download_remote : Source → Pantavisor E → Pantavisor E × Bool
  download_remote src pv =
      let (pv1, retry) = pv_update_check_download_retry src pv in
      elim retry [
        | wait ↦ (pv1, false)
        | give_up ↦ (pv1, false)
        | try_now ↦
            let (pv2, got) = trail_download_objects src pv1 in
            if got
            then ((pv_update_set_status src.net update_downloaded pv2).0, true)
            else (pv2, false)
      ]

  -- A local update is not downloaded.
  unfoldable pub pv_update_download : Source → Pantavisor E → Pantavisor E × Bool
  unfolding trail_remote_init
  pv_update_download src pv = elim pv.state [
    | none ↦ (pv, false)
    | some s ↦ elim pv.update [
      | none ↦ (pv, false)
      | some u ↦
          let (pv1, connected) = trail_remote_init src.net pv in
          if is_null u.pending
          then (pv, false)
          else if u.is_local
          then (pv, true)
          else if connected
          then download_remote src pv1
          else (pv1, false)
    ]
  ]
