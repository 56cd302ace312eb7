-- ===== src/State/Compare/Faults.antt =====
-- When `pv_state_compare_states` reads or writes through a null or dangling pointer.
use pantavisor.Prelude.{
  ℕ, String, true, ◌≡◌, ◌≢◌, ◌∙◌, inl, inr, Option, none, some, List, [], ◌∷◌, is_some,
  if◌then◌else◌, arith, All, eq_iff, Bool-cases, Option-cases,
}
use pantavisor.Prelude.Int.{ℤ, pos}
use pantavisor.Platforms.{Platform, max_runlevel}
use pantavisor.State.{PvState, PvObject, PvJson, platform_at, get_by_name, resolves}
use pantavisor.State.Transfer.Pointers.{IsLinked, AllResolve}
use pantavisor.State.Compare.{
  CompareRun, crash, reboot, go, lower, compare_platforms, mark_updated, is_changed, mark_old,
  changed_step, compare_changed, deleted_step, compare_deleted, then_compare, compare_loops,
  pv_state_compare_states, from_objects, from_deleted_objects, from_jsons, changed_objects_loop,
  deleted_objects_loop, changed_jsons_loop, deleted_jsons_loop,
}
use pantavisor.State.Compare.Laws.{
  Ensures, Ensures-map, Ensures-all, Lowers, level_at, level_at-mark_updated,
  level_at-compare_platforms,
}
use pantavisor.State.Compare.Items.{
  CoversChanged, CoversDeleted, changed_step-Lowers, deleted_step-Lowers,
}

-- If the first object of the pending state has a platform, and the first of the running state has
-- the same name, another id and no platform, the call writes through a null pointer, unless the
-- platforms already ask for a reboot.
pub pv_state_compare_states-crash :
    (pending current : PvState) (o c : PvObject) (os cs : List PvObject) (a : ℕ) (r : ℤ)
    (ps : List Platform)
    → pending.objects ≡ o ∷ os
    → current.objects ≡ c ∷ cs
    → o.name ≡ c.name
    → o.id ≢ c.id
    → o.plat ≡ some a
    → c.plat ≡ none
    → compare_platforms pending.platforms current.platforms (pos max_runlevel) ≡ go r ps
    → pv_state_compare_states (some pending) (some current) ≡ crash
unfolding pv_state_compare_states compare_changed changed_step get_by_name
pv_state_compare_states-crash pending current o c os cs a r ps ho hc hn hi hp hq hg =
    rw (hg, compare_loops)
      (rw ho (rw hc (ground (arith, hn, hi, hp, hq, eq_iff c.name o.name, eq_iff o.id c.id))))

-- No null or dangling pointer was used.
abbrev pub NoCrash : CompareRun → Type 0
NoCrash crash = ⊥
NoCrash (reboot ps) = Unit
NoCrash (go r ps) = Unit

-- The pointer is null, or leads to a platform of the list.
abbrev pub HasLevel : List Platform → Option ℕ → Type 0
HasLevel ps none = Unit
HasLevel ps (some a) = is_some (level_at ps a) ≡ true

HasLevel-resolves : (ps : List Platform) (a : Option ℕ) → resolves ps a ≡ true → HasLevel ps a
unfolding platform_at
HasLevel-resolves ps none h = tt
HasLevel-resolves [] (some a) h = cc
HasLevel-resolves (p ∷ ps) (some a) h = ground (arith, HasLevel-resolves ps (some a))

platform_at-HasLevel :
    (ps : List Platform) (a : ℕ)
    → is_some (level_at ps a) ≡ true
    → is_some (platform_at ps a) ≡ true
unfolding platform_at
platform_at-HasLevel [] a h = cc
platform_at-HasLevel (p ∷ ps) a h = ground (arith, platform_at-HasLevel ps a)

mark_updated-HasLevel :
    (ps : List Platform) (a : ℕ)
    → is_some (level_at ps a) ≡ true
    → is_some (mark_updated a ps) ≡ true
unfolding mark_updated
mark_updated-HasLevel [] a h = cc
mark_updated-HasLevel (p ∷ ps) a h = ground (arith, mark_updated-HasLevel ps a)

-- The pointer is not null, and leads to a platform of the list.
abbrev pub Strict : List Platform → Option ℕ → Type 0
Strict ps none = ⊥
Strict ps (some a) = is_some (level_at ps a) ≡ true

abbrev pub StrictItem : {A : Type 0} → (A → Option ℕ) → List Platform → Option A → Type 0
StrictItem plat ps none = Unit
StrictItem plat ps (some c) = Strict ps (plat c)

-- `P` of the runlevel and the platforms, and no fault.
abbrev pub Safe : (ℤ → List Platform → Type 0) → CompareRun → Type 0
Safe P crash = ⊥
Safe P (reboot ps) = Unit
Safe P (go r ps) = P r ps

Safe-intro : (P : ℤ → List Platform → Type 0) (m : CompareRun) → NoCrash m → Ensures P m → Safe P m
Safe-intro P crash n h = n
Safe-intro P (reboot ps) n h = tt
Safe-intro P (go r ps) n h = h

then_compare-Safe :
    (P Q : ℤ → List Platform → Type 0) (m : CompareRun) (next : ℤ → List Platform → CompareRun)
    → Safe P m
    → ((r : ℤ) (ps : List Platform) → P r ps → Safe Q (next r ps))
    → Safe Q (then_compare m next)
then_compare-Safe P Q crash next h k = h
then_compare-Safe P Q (reboot ps) next h k = tt
then_compare-Safe P Q (go r ps) next h k = k r ps h

-- The marked platforms are those of before, but for the marks.
abbrev pub SameLevels : List Platform → ℤ → List Platform → Type 0
SameLevels olds r ps = (a : ℕ) → level_at ps a ≡ level_at olds a

module _ {A : Type 0} (name_of content : A → String) (plat : A → Option ℕ) where
  -- If the item has a platform, what has its name in the running state has one too.
  abbrev pub OldHasPlatform : List Platform → List A → A → Type 0
  OldHasPlatform olds currents x =
      if is_some (plat x)
      then StrictItem plat olds (get_by_name name_of currents (name_of x))
      else Unit

  mark_old-some :
      (olds : List Platform) (currents : List A) (x : A) (ps : List Platform)
      → SameLevels olds (pos 0) ps
      → StrictItem plat olds (get_by_name name_of currents (name_of x))
      → is_some (mark_old name_of content plat currents x ps) ≡ true
  mark_old-some olds currents x ps same h =
      elim (Option-cases (get_by_name name_of currents (name_of x))) [
        | inl e ↦ ground (arith, e)
        | inr (c, e) ↦ elim (Option-cases (plat c)) [
          | inl f ↦ absurd (ground (arith, e, f, h))
          | inr (a, f) ↦ ground (arith, e, f, h, same a, mark_updated-HasLevel ps a)
        ]
      ]

  changed_step-NoCrash :
      (pendings olds : List Platform) (currents : List A) (x : A) (runlevel : ℤ)
      (ps : List Platform)
      → SameLevels olds (pos 0) ps
      → resolves pendings (plat x) ≡ true
      → OldHasPlatform olds currents x
      → NoCrash (changed_step name_of content plat pendings currents x runlevel ps)
  unfolding changed_step
  changed_step-NoCrash pendings olds currents x runlevel ps same l h =
      elim (Bool-cases (is_changed name_of content plat currents x)) [
        | inr old ↦ rw (old, changed_step) tt
        | inl new ↦ elim (Option-cases (plat x)) [
          | inl e ↦ ground (arith, new, e)
          | inr (a, e) ↦
              let strict : StrictItem plat olds (get_by_name name_of currents (name_of x)) =
                rw e at h in
              ground (arith, new, e, l, mark_old-some olds currents x ps same strict)
        ]
      ]

  changed_step-Safe :
      (pendings olds : List Platform) (currents : List A) (x : A) (runlevel : ℤ)
      (ps : List Platform)
      → SameLevels olds (pos 0) ps
      → resolves pendings (plat x) ≡ true
      → OldHasPlatform olds currents x
      → Safe (SameLevels olds) (changed_step name_of content plat pendings currents x runlevel ps)
  changed_step-Safe pendings olds currents x runlevel ps same l h =
      let m = changed_step name_of content plat pendings currents x runlevel ps in
      Safe-intro (SameLevels olds) m
        (changed_step-NoCrash pendings olds currents x runlevel ps same l h)
        (Ensures-all (λ a r qs. level_at qs a ≡ level_at olds a) m
          (λ a.
            Ensures-map
              (λ r qs.
                Lowers a runlevel ps r qs
                × CoversChanged name_of content plat pendings currents r x)
              (λ r qs. level_at qs a ≡ level_at olds a) m (λ r qs k. k.0.1 ∙ same a)
              (changed_step-Lowers name_of content plat pendings currents x runlevel ps a)))

  compare_changed-Safe :
      (pendings olds : List Platform) (currents xs : List A) (runlevel : ℤ) (ps : List Platform)
      → SameLevels olds (pos 0) ps
      → AllResolve plat pendings xs
      → All (OldHasPlatform olds currents) xs
      → Safe
          (SameLevels olds)
          (compare_changed name_of content plat pendings currents xs runlevel ps)
  unfolding compare_changed
  compare_changed-Safe pendings olds currents [] runlevel ps same l h = same
  compare_changed-Safe pendings olds currents (x ∷ xs) runlevel ps same l h =
      then_compare-Safe (SameLevels olds) (SameLevels olds)
        (changed_step name_of content plat pendings currents x runlevel ps)
        (compare_changed name_of content plat pendings currents xs)
        (changed_step-Safe pendings olds currents x runlevel ps same l.0 h.0)
        (λ r qs same'. compare_changed-Safe pendings olds currents xs r qs same' l.1 h.1)

  deleted_step-NoCrash :
      (olds : List Platform) (pending_items : List A) (x : A) (runlevel : ℤ) (ps : List Platform)
      → SameLevels olds (pos 0) ps
      → resolves olds (plat x) ≡ true
      → NoCrash (deleted_step name_of content plat pending_items x runlevel ps)
  unfolding deleted_step
  deleted_step-NoCrash olds pending_items x runlevel ps same l =
      elim (Option-cases (get_by_name name_of pending_items (name_of x))) [
        | inr (y, d) ↦ ground (arith, d)
        | inl d ↦ elim (Option-cases (plat x)) [
          | inl e ↦ ground (arith, d, e)
          | inr (a, e) ↦
              let level : is_some (level_at olds a) ≡ true =
                HasLevel-resolves olds (some a) (rw e at l) in
              elim (Option-cases (mark_updated a ps)) [
                | inl f ↦ absurd (ground (arith, f, level, same a, mark_updated-HasLevel ps a))
                | inr (qs, f) ↦ ground (
                  arith,
                  d,
                  e,
                  f,
                  level,
                  same a,
                  level_at-mark_updated ps qs a a f,
                  platform_at-HasLevel qs a,
                )
              ]
        ]
      ]

  compare_deleted-Safe :
      (olds : List Platform) (pending_items xs : List A) (runlevel : ℤ) (ps : List Platform)
      → SameLevels olds (pos 0) ps
      → AllResolve plat olds xs
      → Safe (SameLevels olds) (compare_deleted name_of content plat pending_items xs runlevel ps)
  unfolding compare_deleted
  compare_deleted-Safe olds pending_items [] runlevel ps same l = same
  compare_deleted-Safe olds pending_items (x ∷ xs) runlevel ps same l =
      let m = deleted_step name_of content plat pending_items x runlevel ps in
      then_compare-Safe (SameLevels olds) (SameLevels olds) m
        (compare_deleted name_of content plat pending_items xs)
        (Safe-intro (SameLevels olds) m
          (deleted_step-NoCrash olds pending_items x runlevel ps same l.0)
          (Ensures-all (λ a r qs. level_at qs a ≡ level_at olds a) m
            (λ a.
              Ensures-map
                (λ r qs.
                  Lowers a runlevel ps r qs
                  × CoversDeleted name_of content plat olds pending_items r x)
                (λ r qs. level_at qs a ≡ level_at olds a) m (λ r qs k. k.0.1 ∙ same a)
                (deleted_step-Lowers name_of content plat olds pending_items x runlevel ps a
                  same))))
        (λ r qs same'. compare_deleted-Safe olds pending_items xs r qs same' l.1)

compare_platforms-NoCrash :
    (pendings ps : List Platform) (runlevel : ℤ) → NoCrash (compare_platforms pendings ps runlevel)
unfolding compare_platforms
compare_platforms-NoCrash pendings [] runlevel = tt
compare_platforms-NoCrash pendings (p ∷ ps) runlevel = ground (
  arith,
  compare_platforms-NoCrash pendings ps runlevel,
  compare_platforms-NoCrash pendings ps (lower p.runlevel runlevel),
)

NoCrash-Safe : (P : ℤ → List Platform → Type 0) (m : CompareRun) → Safe P m → NoCrash m
NoCrash-Safe P crash h = h
NoCrash-Safe P (reboot ps) h = tt
NoCrash-Safe P (go r ps) h = tt

-- No null or dangling pointer is used if in both states every pointer leads to a platform of its
-- state, and every object and every json of the running state that has the name of one with a
-- platform in the pending state has a platform too.
pub pv_state_compare_states-NoCrash :
    (pending current : PvState)
    → IsLinked pending
    → IsLinked current
    → All
        (OldHasPlatform
          (λ (o : PvObject). o.name)
          (λ o. o.id)
          (λ o. o.plat)
          current.platforms
          current.objects)
        pending.objects
    → All
        (OldHasPlatform
          (λ (j : PvJson). j.name)
          (λ j. j.value)
          (λ j. j.plat)
          current.platforms
          current.jsons)
        pending.jsons
    → NoCrash (pv_state_compare_states (some pending) (some current))
unfolding pv_state_compare_states
pv_state_compare_states-NoCrash pending current lp lc ho hj =
    let olds = current.platforms in
    let first = compare_platforms pending.platforms olds (pos max_runlevel) in
    NoCrash-Safe (SameLevels olds) (compare_loops pending current) (
      then_compare-Safe (SameLevels olds) (SameLevels olds) first (from_objects pending current)
        (Safe-intro (SameLevels olds) first
          (compare_platforms-NoCrash pending.platforms olds (pos max_runlevel))
          (Ensures-all (λ a r qs. level_at qs a ≡ level_at olds a) first
            (λ a. level_at-compare_platforms pending.platforms olds (pos max_runlevel) a)))
        (λ r1 ps1 s1.
          then_compare-Safe (SameLevels olds) (SameLevels olds)
            (changed_objects_loop pending current r1 ps1) (from_deleted_objects pending current)
            (compare_changed-Safe (λ (o : PvObject). o.name) (λ o. o.id) (λ o. o.plat)
              pending.platforms olds current.objects pending.objects r1 ps1 s1 lp.1 ho)
            (λ r2 ps2 s2.
              then_compare-Safe (SameLevels olds) (SameLevels olds)
                (deleted_objects_loop pending current r2 ps2) (from_jsons pending current)
                (compare_deleted-Safe (λ (o : PvObject). o.name) (λ o. o.id) (λ o. o.plat) olds
                  pending.objects current.objects r2 ps2 s2 lc.1)
                (λ r3 ps3 s3.
                  then_compare-Safe (SameLevels olds) (SameLevels olds)
                    (changed_jsons_loop pending current r3 ps3) (deleted_jsons_loop pending current)
                    (compare_changed-Safe (λ (j : PvJson). j.name) (λ j. j.value) (λ j. j.plat)
                      pending.platforms olds current.jsons pending.jsons r3 ps3 s3 lp.0 hj)
                    (λ r4 ps4 s4.
                      compare_deleted-Safe (λ (j : PvJson). j.name) (λ j. j.value) (λ j. j.plat)
                        olds pending.jsons current.jsons r4 ps4 s4 lc.0)))))
