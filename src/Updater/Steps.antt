-- ===== src/Updater/Steps.antt =====
-- How updater.c gets a new update: `trail_get_new_steps`, `pv_updater_check_for_updates` and
-- `pv_trail_is_auth` ask the cloud, `pv_update_get_step_local` takes a revision from disk. The
-- answers of the cloud, and the parsing of a step, are arguments.
pub mod Laws
use pantavisor.Prelude.{
  ℕ, String, Bool, true, false, ◌||◌, not, Option, none, some, is_some, ltb, if◌then◌else◌,
}
use pantavisor.Prelude.Int.{ℤ, pos, ltb_ℤ, eqb_ℤ}
use pantavisor.State.{PvState}
use pantavisor.Updater.{
  UpdateState, update_queued, update_failed, update_no_download, update_no_signature,
  update_no_parse, update_retry_download, own, Update, Pantavisor, Net,
}
use pantavisor.Updater.Status.{trail_remote_init, trail_remote_set_status}
use pantavisor.Updater.Finish.{running_rev}
use pantavisor.Updater.Boot.{pv_update_new}

-- The first step of an answer: its revision if it has one, whether the rest of the answer parses
-- and has a state, the count of retries that it was reported with (one below 0 is not modelled),
-- and its state, which may be signed well and may parse.
pub record Step : Type 0 where
  pub rev : Option String
  pub complete : Bool
  pub retries : ℕ
  pub is_signed : Bool
  pub parsed : Option PvState

-- `trail_get_steps_response`: -1, 0 or 1.
pub data Reply : Type 0 where
  no_reply no_steps : Reply
  steps : Step → Reply

-- What the cloud answers during a call, and the setting and the parser of numbers that are used.
pub record Cloud : Type 0 where
  pub net : Net
  pub trails : ℤ
  pub inprogress_steps : Reply
  pub downloading_steps : Reply
  pub queued_steps : Reply
  pub new_steps : Reply
  pub atoi : String → ℤ
  pub revision_retries : ℕ

-- The step to process: whether it is a wrong one from the start. No value: nothing to process.
pub data Found : Type 0 where
  nothing : Found
  found : Bool → Step → Found

abbrev pub or_else : Bool → Reply → Found → Found
or_else wrong no_reply next = nothing
or_else wrong no_steps next = next
or_else wrong (steps s) next = found wrong s

-- The labels of `trail_get_new_steps` before `process_response`. While an update is going on only
-- new steps are looked for.
unfoldable pub find_step : Cloud → Option Update → Found
find_step cloud u =
    let fresh = or_else false cloud.new_steps nothing in
    if is_some u
    then fresh
    else or_else true cloud.inprogress_steps
        (or_else false cloud.downloading_steps (or_else false cloud.queued_steps fresh))

abbrev pub retries_download : Option Update → Bool
retries_download none = false
retries_download (some u) = elim u.status [ update_retry_download ↦ true | _ ↦ false ]

module _ {E : Type 0} where
  -- A report on an update that is then freed.
  abbrev pub reject : Net → UpdateState → Update → Pantavisor E → Pantavisor E × Bool
  reject net status u pv =
      let (u', pv', result) = trail_remote_set_status net status u pv in (pv', false)

  -- An update that is queued: it becomes the daemon's if there is none yet.
  abbrev pub queue_step : Net → Step → Update → Pantavisor E → Pantavisor E × Bool
  queue_step net step u pv =
      let (u', pv', result) = trail_remote_set_status net update_queued u pv in
      if step.is_signed
      then elim step.parsed [
        | none ↦ reject net update_no_parse u' pv'
        | some s ↦
            if is_some pv.update
            then (pv', false)
            else (record pv' { update = some (record u' { pending = own s }) }, true)
      ]
      else reject net update_no_signature u' pv'

  -- From `process_response` on.
  unfoldable pub process_step : Cloud → Bool → Step → Pantavisor E → Pantavisor E × Bool
  unfolding pv_update_new trail_remote_set_status
  process_step cloud wrong step pv = elim step.rev [
    | none ↦ (pv, false)
    | some rev ↦
        let u = pv_update_new false in
        if ltb_ℤ (cloud.atoi rev) (cloud.atoi (running_rev pv.state))
        then reject cloud.net update_failed u pv
        else if not step.complete
        then reject cloud.net update_no_parse u pv
        else if wrong
        then reject cloud.net update_failed u pv
        else if ltb cloud.revision_retries step.retries
        then reject cloud.net update_no_download u pv
        else queue_step cloud.net step (record u { retries = step.retries }) pv
  ]

  abbrev pub take_step : Cloud → Found → Pantavisor E → Pantavisor E × Bool
  take_step cloud nothing pv = (pv, false)
  take_step cloud (found wrong step) pv = process_step cloud wrong step pv

  -- `true` is the result 1.
  unfoldable pub trail_get_new_steps : Cloud → Pantavisor E → Pantavisor E × Bool
  trail_get_new_steps cloud pv =
      if pv.remote then take_step cloud (find_step cloud pv.update) pv else (pv, false)

  -- `true` is a result above 0. With no trails the first revision is pushed, which gives 0 or -1.
  unfoldable pub pv_updater_check_for_updates : Cloud → Pantavisor E → Pantavisor E × Bool
  unfolding trail_remote_init
  pv_updater_check_for_updates cloud pv =
      let (pv1, connected) = trail_remote_init cloud.net pv in
      if not connected || not cloud.net.auth_ok
      then (pv1, false)
      else if retries_download pv.update
      then (pv1, true)
      else if ltb_ℤ (pos 0) cloud.trails
      then trail_get_new_steps cloud (record pv1 { synced = true })
      else (pv1, false)

  unfoldable pub pv_trail_is_auth : Net → Pantavisor E → Pantavisor E × Bool
  unfolding trail_remote_init
  pv_trail_is_auth net pv =
      if pv.remote
      then (pv, true)
      else if pv.online
      then (let (pv', connected) = trail_remote_init net pv in (pv', pv'.remote))
      else (pv, false)

  -- The revision on disk: whether it is signed well, and its state if it parses. The result is
  -- `pv->update` as the callers set it.
  unfoldable pub pv_update_get_step_local :
      Net → Bool → Option PvState → Pantavisor E → Pantavisor E × Option Update
  unfolding pv_update_new trail_remote_set_status
  pv_update_get_step_local net is_signed parsed pv =
      let u = pv_update_new true in
      if is_signed
      then elim parsed [
        | none ↦ ((reject net update_no_parse u pv).0, none)
        | some s ↦ (pv, some (record u { pending = own (record s { is_local = true }) }))
      ]
      else ((reject net update_no_signature u pv).0, none)
