-- ===== src/Updater/Steps/Laws.antt =====
-- When a step of the cloud becomes the daemon's update.
use pantavisor.Prelude.{
  ◌≤◌, ◌≡◌, ◌⊎◌, sym, ap, ◌∙◌, String, Bool, true, false, Option, none, some, arith,
}
use pantavisor.Prelude.Int.{◌≤ℤ◌}
use pantavisor.State.{PvState}
use pantavisor.Updater.{update_queued, Pending, own, Update, Pantavisor}
use pantavisor.Updater.Finish.{running_rev}
use pantavisor.Updater.Steps.{
  Step, no_steps, steps, Cloud, Found, nothing, found, find_step, process_step, take_step,
  trail_get_new_steps,
}

abbrev pub own_state : Pending → Option PvState
own_state (own s) = some s
own_state _ = none

-- The step has a revision, and one that is not older than the running one.
abbrev pub IsFresh : {E : Type 0} → Cloud → Pantavisor E → Option String → Type 0
IsFresh cloud pv none = ⊥
IsFresh cloud pv (some rev) = cloud.atoi (running_rev pv.state) ≤ℤ cloud.atoi rev

module _ {E : Type 0} (cloud : Cloud) (pv pv' : Pantavisor E) where
  -- A new update is taken only where none is going on.
  pub new_steps_keep_update :
      (u : Update) → pv.update ≡ some u → (trail_get_new_steps cloud pv).0.update ≡ some u
  unfolding trail_get_new_steps find_step process_step
  new_steps_keep_update u h = ground (arith, h)

  -- A step becomes the daemon's update only where there is none yet, and if it was not already in
  -- progress, is complete, not older than the running revision, not retried too often, and signed.
  -- The update is then queued, with the state that was parsed and the count of retries.
  process_step_checks :
      (wrong : Bool) (step : Step) (u : Update)
      → process_step cloud wrong step pv ≡ (pv', true)
      → pv'.update ≡ some u
      → (wrong ≡ false)
        × (pv.update ≡ none)
        × IsFresh cloud pv step.rev
        × (step.complete ≡ true)
        × (step.is_signed ≡ true)
        × (step.retries ≤ cloud.revision_retries)
        × (u.status ≡ update_queued)
        × (u.retries ≡ step.retries)
        × (own_state u.pending ≡ step.parsed)
  unfolding process_step
  process_step_checks wrong step u h g = ground (arith, h, g)

-- The step that a search finds for a daemon without update: the cloud answers that no step is in
-- progress, and it is the first of those that were being downloaded, of the queued ones or of the
-- new ones.
abbrev pub IsOffered : Cloud → Step → Type 0
IsOffered cloud step =
    (cloud.inprogress_steps ≡ no_steps)
    × ((cloud.downloading_steps ≡ steps step)
        ⊎ ((cloud.downloading_steps ≡ no_steps) × (cloud.queued_steps ≡ steps step))
        ⊎ ((cloud.downloading_steps ≡ no_steps)
            × (cloud.queued_steps ≡ no_steps)
            × (cloud.new_steps ≡ steps step)))

find_step-IsOffered :
    (cloud : Cloud) (step : Step) → find_step cloud none ≡ found false step → IsOffered cloud step
unfolding find_step
find_step-IsOffered cloud step h = ground (arith, h)

-- The update that a step becomes: there was none yet, the step is complete, not older than the
-- running revision, not retried too often, and signed, and the update is queued, with the state that
-- was parsed and the count of retries.
abbrev pub IsTaken : {E : Type 0} → Cloud → Pantavisor E → Step → Update → Type 0
IsTaken cloud pv step u =
    (pv.update ≡ none)
    × IsFresh cloud pv step.rev
    × (step.complete ≡ true)
    × (step.is_signed ≡ true)
    × (step.retries ≤ cloud.revision_retries)
    × (u.status ≡ update_queued)
    × (u.retries ≡ step.retries)
    × (own_state u.pending ≡ step.parsed)

module _ {E : Type 0} (cloud : Cloud) (pv pv' : Pantavisor E) where
  take_step-cases :
      (f : Found) (u : Update)
      → take_step cloud f pv ≡ (pv', true)
      → pv'.update ≡ some u
      → (step : Step) × (f ≡ found false step) × IsTaken cloud pv step u
  take_step-cases nothing u h g = ground (arith, h)
  take_step-cases (found wrong step) u h g =
      let k = process_step_checks cloud pv pv' wrong step u h g in
      (step, ap (λ b. found b step) k.0, (k.1, k.2, k.3, k.4, k.5, k.6, k.7, k.8))

  -- The cloud's answer becomes the daemon's update only where there is none yet and the cloud answers
  -- that no step is in progress. It is then the first of the steps that were being downloaded, of the
  -- queued ones or of the new ones, and that step is complete, not older than the running revision,
  -- not retried too often, and signed; the update is queued, with the state that was parsed and the
  -- count of retries.
  pub new_steps_checks :
      (u : Update)
      → trail_get_new_steps cloud pv ≡ (pv', true)
      → pv'.update ≡ some u
      → (step : Step) × IsOffered cloud step × IsTaken cloud pv step u
  unfolding trail_get_new_steps
  new_steps_checks u h g =
      let took : take_step cloud (find_step cloud pv.update) pv ≡ (pv', true) = ground (arith, h) in
      let (step, e, t) = take_step-cases (find_step cloud pv.update) u took g in
      (step, find_step-IsOffered cloud step (sym (ap (find_step cloud) t.0) ∙ e), t)
