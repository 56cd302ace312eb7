-- ===== src/Controller/Run.antt =====
-- The handler of `PV_STATE_RUN`: a revision is loaded, or goes over from the one before, and is
-- started.
pub mod Laws
pub mod Done
use pantavisor.Prelude.{ℕ, String, Bool, true, false, not, Option, none, some, List, if◌then◌else◌}
use pantavisor.Prelude.Int.{ℤ, pos, pos_part, ltb_ℤ}
use pantavisor.Timer.{Timer, timer_start, relativ_timer}
use pantavisor.Platforms.{runlevel_data}
use pantavisor.Platforms.Start.{StartRun, pv_platforms_start}
use pantavisor.State.{PvState}
use pantavisor.State.Transfer.{pv_state_remove_platforms, pv_state_transfer}
use pantavisor.State.Checksum.{pv_state_validate_checksum}
use pantavisor.Updater.{Pending, no_pending, own, running, Update, Pantavisor}
use pantavisor.Updater.Status.{pv_update_is_transitioning}
use pantavisor.Updater.Boot.{pv_update_resume}
use pantavisor.Controller.{
  PvStateT, pv_state_wait, pv_state_rollback, Controller, World, StepRun, crash, next,
}

-- The two states after `pv_state_transfer(pending, state)`. A pending state that is the running one
-- has nothing to hand over to itself; what is not started of it goes.
abbrev pub transfer : Pending → Option PvState → Option (Pending × PvState)
transfer p none = none
transfer no_pending (some s) = none
transfer running (some s) = elim (pv_state_remove_platforms s) [
  | none ↦ none
  | some s' ↦ some (running, s')
]
transfer (own t) (some s) = elim (pv_state_transfer t s) [
  | none ↦ none
  | some (t', s') ↦ some (own t', s')
]

module _ {E : Type 0} where
  abbrev pub with_pv : Controller E → Pantavisor E → Controller E
  with_pv c pv = record c { pv = pv }

  abbrev pub with_pending : Pending → Pantavisor E → Pantavisor E
  with_pending p pv = elim pv.update [
    | none ↦ pv
    | some u ↦ record pv { update = some (record u { pending = p }) }
  ]

  -- The state is there after the first part: by a transfer, or loaded from disk. No value: a null
  -- or dangling pointer was used; `false`: the signature is wrong.
  unfoldable pub load_state : World → Pantavisor E → Option (Pantavisor E × Bool)
  load_state w pv =
      if pv_update_is_transitioning pv.update
      then elim pv.update [
        | none ↦ none
        | some u ↦ elim (transfer u.pending pv.state) [
          | none ↦ none
          | some (p, s) ↦ some (with_pending p (record pv { state = some s }), true)
        ]
      ]
      else (let disk = w.on_disk pv.bootloader.pv_rev in
          if disk.is_signed
          then some (with_pending running (record pv { state = disk.parsed }), true)
          else some (pv, false))

  -- The flags of a state that has been loaded; one in the local format is local.
  abbrev pub set_remote : World → PvState → Pantavisor E → Pantavisor E
  set_remote w s pv =
      let is_local = w.is_revision_local s.rev in
      record pv {
        state =
            some (record s { is_local = if is_local then true else not w.config.control_remote });
        remote_mode = if is_local then false else w.config.control_remote;
        loading_objects = false;
      }

  abbrev pub start_timers : World → Controller E → Controller E
  start_timers w c = record c {
    wait_delay = timer_start c.wait_delay 0 0 relativ_timer w.clock.started;
    timer_commit = timer_start c.timer_commit 0 0 relativ_timer w.clock.started;
    rollback_timer =
        timer_start c.rollback_timer w.config.network_timeout 0 relativ_timer w.clock.started;
  }

  -- Volumes, configuration and platforms; `s` is the running state.
  unfoldable pub start_up : World → ℕ → PvState → Controller E → StepRun E
  start_up w runlevel s c =
      if not w.volumes_mount
      then next c pv_state_rollback
      else if not w.make_config
      then next c pv_state_rollback
      else elim (pv_platforms_start w.ctrl_start runlevel s.platforms) [
        | StartRun.crash ↦ crash
        | StartRun.failed ps ↦
            next (with_pv c (record c.pv { state = some (record s { platforms = ps }) }))
              pv_state_rollback
        | StartRun.done started ps ↦
            next
              (start_timers w
                (with_pv c (record c.pv { state = some (record s { platforms = ps }) })))
              pv_state_wait
      ]

  -- From `if (!pv->state)` on.
  unfoldable pub run_state : World → ℕ → Controller E → StepRun E
  run_state w runlevel c = elim c.pv.state [
    | none ↦ next c pv_state_rollback
    | some s ↦
        if pv_state_validate_checksum w.checks s
        then start_up w runlevel
            (record s {
              is_local = if w.is_revision_local s.rev then true else not w.config.control_remote;
            })
            (with_pv c (set_remote w s c.pv))
        else next c pv_state_rollback
  ]

  unfoldable pub _pv_run : World → Controller E → StepRun E
  _pv_run w c =
      let (pv1, runlevel) = pv_update_resume w.net c.pv in
      if ltb_ℤ runlevel (pos runlevel_data)
      then next (with_pv c pv1) pv_state_rollback
      else elim (load_state w pv1) [
        | none ↦ crash
        | some (pv2, loaded) ↦
            if loaded
            then run_state w (pos_part runlevel) (with_pv c pv2)
            else next (with_pv c pv2) pv_state_rollback
      ]
