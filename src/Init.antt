-- ===== src/Init.antt =====
-- init.c: the table of initialisers, over the state `S` that they change.
use pantavisor.Prelude.{
  ◌≡◌, refl, ap, sym, Bool, true, false, not, ◌&&◌, List, [], ◌∷◌, ◌++◌, if◌then◌else◌, arith,
  Bool-cases, inl, inr, false≢true,
}

-- `struct pv_init`: `can_fail` is the flag PV_INIT_FLAG_CANFAIL; a result is `true` where the code's is 0.
pub record Initialiser (S : Type 0) : Type 0 where
  pub init_fn : S → S × Bool
  pub can_fail : Bool

module _ {S : Type 0} where
  unfoldable pub pv_do_execute_init : List (Initialiser S) → S → S × Bool
  pv_do_execute_init [] s = (s, true)
  pv_do_execute_init (i ∷ table) s =
      let (s', ok) = i.init_fn s in
      if not ok && not i.can_fail then (s', false) else pv_do_execute_init table s'

  -- The initialiser that stops a table: those before it succeed or may fail, it fails and may not,
  -- and the run ends in the state that it leaves.
  abbrev pub EndsAt :
      List (Initialiser S)
      → S
      → Initialiser S
      → List (Initialiser S)
      → List (Initialiser S)
      → Type 0
  EndsAt before s i after table =
      (table ≡ before ++ i ∷ after)
      × ((pv_do_execute_init before s).1 ≡ true)
      × (i.can_fail ≡ false)
      × ((i.init_fn (pv_do_execute_init before s).0).1 ≡ false)
      × ((pv_do_execute_init table s).0 ≡ (i.init_fn (pv_do_execute_init before s).0).0)

  -- When the initialisation fails, one initialiser that may not fail did, the ones before it
  -- succeeded or may fail, and none behind it ran: the state is the one that it left.
  pub init_stops_at_failure :
      (table : List (Initialiser S)) (s : S)
      → (pv_do_execute_init table s).1 ≡ false
      → (before : List (Initialiser S)) × (i : Initialiser S) × (after : List (Initialiser S))
        × EndsAt before s i after table
  unfolding pv_do_execute_init
  init_stops_at_failure [] s h = absurd (false≢true (sym h))
  init_stops_at_failure (i ∷ table) s h =
      elim (Bool-cases (not (i.init_fn s).1 && not i.can_fail)) [
        | inl y ↦
            ([], i, table, (refl, refl, ground (arith, y), ground (arith, y), ground (arith, y)))
        | inr n ↦
            let r = init_stops_at_failure table (i.init_fn s).0 (ground (arith, n, h)) in
            let p = r.3 in
            (
              i ∷ r.0,
              r.1,
              r.2,
              (
                ap (λ l. i ∷ l) p.0,
                ground (arith, n, p.1),
                p.2,
                ground (arith, n, p.3),
                ground (arith, n, p.4),
              ),
            )
      ]
