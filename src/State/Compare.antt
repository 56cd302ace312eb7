-- ===== src/State/Compare.antt =====
-- `pv_state_compare_states` of state.c: the lowest runlevel that an update has to stop, 0 for a
-- reboot. The platforms of the running state are marked on the way.
pub mod Laws
pub mod Items
pub mod Covers
pub mod Faults
use pantavisor.Prelude.{
  ℕ, String, Bool, true, false, ◌==◌, Option, none, some, List, [], ◌∷◌, ◌++◌, str_eq,
  if◌then◌else◌,
}
use pantavisor.Prelude.Int.{ℤ, pos, ltb_ℤ, eqb_ℤ}
use pantavisor.Platforms.{Platform, max_runlevel, runlevel_data, pv_platform_get_by_name}
use pantavisor.State.{PvState, PvObject, PvJson, platform_at, get_by_name}
use pantavisor.State.Transfer.{cons_some}

-- `crash`: a read or a write through a null or dangling pointer. `reboot ps`: the function returned
-- 0. `go runlevel ps`: it goes on. `ps` are the running state's platforms with their marks.
pub data CompareRun : Type 0 where
  crash : CompareRun
  reboot : List Platform → CompareRun
  go : ℤ → List Platform → CompareRun

-- `if (p->runlevel < runlevel) runlevel = p->runlevel`
abbrev pub lower : ℤ → ℤ → ℤ
lower level runlevel = if ltb_ℤ level runlevel then level else runlevel

abbrev pub cons_current : Platform → CompareRun → CompareRun
cons_current p crash = crash
cons_current p (reboot ps) = reboot (p ∷ ps)
cons_current p (go runlevel ps) = go runlevel (p ∷ ps)

-- The loop over the running state's platforms: deleted ones, and changes of runlevel.
unfoldable pub compare_platforms : List Platform → List Platform → ℤ → CompareRun
compare_platforms pendings [] runlevel = go runlevel []
compare_platforms pendings (p ∷ ps) runlevel = elim (pv_platform_get_by_name pendings p.name) [
  | some q ↦
      if eqb_ℤ q.runlevel p.runlevel
      then cons_current p (compare_platforms pendings ps runlevel)
      else reboot (p ∷ ps)
  | none ↦
      cons_current (record p { updated = true })
        (compare_platforms pendings ps (lower p.runlevel runlevel))
]

-- `plat->updated = true`, at an address.
unfoldable pub mark_updated : ℕ → List Platform → Option (List Platform)
mark_updated a [] = none
mark_updated a (p ∷ ps) =
    if p.addr == a then some (record p { updated = true } ∷ ps) else cons_some p (mark_updated a ps)

-- `curr_o->plat->updated = true`, whatever `curr_o->plat` is.
abbrev pub mark_pointer : Option ℕ → List Platform → Option (List Platform)
mark_pointer none ps = none
mark_pointer (some a) ps = mark_updated a ps

abbrev pub then_compare : CompareRun → (ℤ → List Platform → CompareRun) → CompareRun
then_compare crash next = crash
then_compare (reboot ps) next = reboot ps
then_compare (go runlevel ps) next = next runlevel ps

-- The loops are the same for objects (by id) and for jsons (by value).
module _ {A : Type 0} (name_of content : A → String) (plat : A → Option ℕ) where
  -- The item of the pending state is new, or has another content.
  abbrev pub is_changed : List A → A → Bool
  is_changed currents x = elim (get_by_name name_of currents (name_of x)) [
    | none ↦ true
    | some c ↦ if str_eq (content x) (content c) then false else true
  ]

  -- `if (curr_o) curr_o->plat->updated = true`
  abbrev pub mark_old : List A → A → List Platform → Option (List Platform)
  mark_old currents x ps = elim (get_by_name name_of currents (name_of x)) [
    | none ↦ some ps
    | some c ↦ mark_pointer (plat c) ps
  ]

  -- The body of the loop over the pending state's items.
  unfoldable pub changed_step : List Platform → List A → A → ℤ → List Platform → CompareRun
  changed_step pendings currents x runlevel ps =
      if is_changed currents x
      then elim (plat x) [
        | none ↦ reboot ps
        | some a ↦ elim (mark_old currents x ps) [
          | none ↦ crash
          | some qs ↦ elim (platform_at pendings a) [
            | none ↦ crash
            | some p ↦ go (lower p.runlevel runlevel) qs
          ]
        ]
      ]
      else go runlevel ps

  unfoldable pub compare_changed : List Platform → List A → List A → ℤ → List Platform → CompareRun
  compare_changed pendings currents [] runlevel ps = go runlevel ps
  compare_changed pendings currents (x ∷ xs) runlevel ps =
      then_compare (changed_step pendings currents x runlevel ps)
        (compare_changed pendings currents xs)

  -- The body of the loop over the running state's items: has the item been deleted?
  unfoldable pub deleted_step : List A → A → ℤ → List Platform → CompareRun
  deleted_step pending_items x runlevel ps = elim (get_by_name name_of pending_items (name_of x)) [
    | some y ↦ go runlevel ps
    | none ↦ elim (plat x) [
      | none ↦ reboot ps
      | some a ↦ elim (mark_updated a ps) [
        | none ↦ crash
        | some qs ↦ elim (platform_at qs a) [
          | none ↦ crash
          | some p ↦ go (lower p.runlevel runlevel) qs
        ]
      ]
    ]
  ]

  unfoldable pub compare_deleted : List A → List A → ℤ → List Platform → CompareRun
  compare_deleted pending_items [] runlevel ps = go runlevel ps
  compare_deleted pending_items (x ∷ xs) runlevel ps =
      then_compare (deleted_step pending_items x runlevel ps) (compare_deleted pending_items xs)

-- The five loops over two states that are there, from the last to the first.
abbrev pub deleted_jsons_loop : PvState → PvState → ℤ → List Platform → CompareRun
deleted_jsons_loop pending current =
    compare_deleted (λ (j : PvJson). j.name) (λ j. j.value) (λ j. j.plat) pending.jsons
      current.jsons

abbrev pub changed_jsons_loop : PvState → PvState → ℤ → List Platform → CompareRun
changed_jsons_loop pending current =
    compare_changed (λ (j : PvJson). j.name) (λ j. j.value) (λ j. j.plat) pending.platforms
      current.jsons pending.jsons

abbrev pub from_jsons : PvState → PvState → ℤ → List Platform → CompareRun
from_jsons pending current runlevel ps =
    then_compare (changed_jsons_loop pending current runlevel ps)
      (deleted_jsons_loop pending current)

abbrev pub deleted_objects_loop : PvState → PvState → ℤ → List Platform → CompareRun
deleted_objects_loop pending current =
    compare_deleted (λ (o : PvObject). o.name) (λ o. o.id) (λ o. o.plat) pending.objects
      current.objects

abbrev pub from_deleted_objects : PvState → PvState → ℤ → List Platform → CompareRun
from_deleted_objects pending current runlevel ps =
    then_compare (deleted_objects_loop pending current runlevel ps) (from_jsons pending current)

abbrev pub changed_objects_loop : PvState → PvState → ℤ → List Platform → CompareRun
changed_objects_loop pending current =
    compare_changed (λ (o : PvObject). o.name) (λ o. o.id) (λ o. o.plat) pending.platforms
      current.objects pending.objects

abbrev pub from_objects : PvState → PvState → ℤ → List Platform → CompareRun
from_objects pending current runlevel ps =
    then_compare (changed_objects_loop pending current runlevel ps)
      (from_deleted_objects pending current)

unfoldable pub compare_loops : PvState → PvState → CompareRun
compare_loops pending current =
    then_compare (compare_platforms pending.platforms current.platforms (pos max_runlevel))
      (from_objects pending current)

unfoldable pub pv_state_compare_states : Option PvState → Option PvState → CompareRun
unfolding compare_loops
pv_state_compare_states none current = reboot []
pv_state_compare_states (some pending) none = reboot []
pv_state_compare_states (some pending) (some current) = compare_loops pending current

-- The number that the call returns, if it returns.
abbrev pub returned : CompareRun → Option ℤ
returned crash = none
returned (reboot ps) = some (pos runlevel_data)
returned (go runlevel ps) = some runlevel
