-- ===== src/Controller/Run/Done.antt =====
-- `_pv_run` leaves the revision to fall back to, and goes on to wait or to roll back.
use pantavisor.Prelude.{
  ℕ, ◌≡◌, ◌⊎◌, inl, inr, Bool, true, not, some, Option-cases, if◌then◌else◌, arith,
}
use pantavisor.Prelude.Int.{pos_part}
use pantavisor.State.{PvState}
use pantavisor.Updater.{Pantavisor}
use pantavisor.Updater.Boot.{pv_update_resume}
use pantavisor.Controller.{PvStateT, pv_state_wait, pv_state_rollback, Controller, World, next}
use pantavisor.Controller.Keeps.{resume-SameRevs}
use pantavisor.Controller.Run.{_pv_run, load_state, run_state, start_up, with_pv, set_remote}

abbrev pub RunOk : {E : Type 0} → Pantavisor E → Controller E → PvStateT → Type 0
RunOk pv c' st =
    ((st ≡ pv_state_wait) ⊎ (st ≡ pv_state_rollback))
    × (c'.pv.bootloader.pv_done ≡ pv.bootloader.pv_done)

module _ {E : Type 0} (w : World) (c c' : Controller E) (st : PvStateT) where
  start_up-RunOk :
      (runlevel : ℕ) (s : PvState) → start_up w runlevel s c ≡ next c' st → RunOk c.pv c' st
  unfolding start_up
  start_up-RunOk runlevel s h = ground (arith, h)

module _ {E : Type 0} (w : World) (c c' : Controller E) (st : PvStateT) where
  run_state-RunOk : (runlevel : ℕ) → run_state w runlevel c ≡ next c' st → RunOk c.pv c' st
  unfolding run_state
  run_state-RunOk runlevel h = elim (Option-cases c.pv.state) [
    | inl n ↦ ground (arith, h, n)
    | inr (s, e) ↦
        let t = record s {
          is_local = if w.is_revision_local s.rev then true else not w.config.control_remote;
        } in
        ground (arith, h, e, start_up-RunOk w (with_pv c (set_remote w s c.pv)) c' st runlevel t)
  ]

module _ {E : Type 0} (w : World) (pv : Pantavisor E) where
  load_state-keeps :
      (pv' : Pantavisor E) (ok : Bool)
      → load_state w pv ≡ some (pv', ok)
      → pv'.bootloader.pv_done ≡ pv.bootloader.pv_done
  unfolding load_state
  load_state-keeps pv' ok h = ground (arith, h)

module _ {E : Type 0} (w : World) (c c' : Controller E) (st : PvStateT) where
  pub run-RunOk : _pv_run w c ≡ next c' st → RunOk c.pv c' st
  unfolding _pv_run
  run-RunOk h =
      let (pv1, runlevel) = pv_update_resume w.net c.pv in
      elim (Option-cases (load_state w pv1)) [
        | inl n ↦ ground (arith, h, n, resume-SameRevs w.net c.pv)
        | inr ((pv2, loaded), e) ↦ ground (
          arith,
          h,
          e,
          resume-SameRevs w.net c.pv,
          load_state-keeps w pv1 pv2 loaded e,
          run_state-RunOk w (with_pv c pv2) c' st (pos_part runlevel),
        )
      ]
