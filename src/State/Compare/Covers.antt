-- ===== src/State/Compare/Covers.antt =====
-- The runlevel that `pv_state_compare_states` returns covers every difference of the two states.
use pantavisor.Prelude.{ℕ, ◌≡◌, ◌∙◌, some, List, arith, All}
use pantavisor.Prelude.Int.{ℤ, pos, ◌≤ℤ◌}
use pantavisor.Platforms.{Platform, max_runlevel}
use pantavisor.State.{PvState, PvObject, PvJson}
use pantavisor.State.Compare.{
  go, compare_platforms, changed_objects_loop, deleted_objects_loop, changed_jsons_loop,
  deleted_jsons_loop, from_objects, from_deleted_objects, from_jsons, pv_state_compare_states,
}
use pantavisor.State.Compare.Laws.{
  Ensures-go, then_compare-eq-go, level_at, Lowers, CoversPlatform, CoversPlatform-weaken,
  compare_platforms-le, compare_platforms-covers, level_at-compare_platforms,
}
use pantavisor.State.Compare.Items.{
  CoversChanged, CoversDeleted, compare_changed-Lowers, compare_deleted-Lowers,
  All-CoversChanged-weaken, All-CoversDeleted-weaken,
}

-- Nothing differs above what `r` stops: a deleted platform, the platform of a pending item for which
-- the running state has none of the same name and content, and that of a running item whose name no
-- pending item has, have a runlevel of `r` or more, each of these items has a platform, and a
-- platform of both states has the same runlevel in both.
pub record Covers (pending current : PvState) (r : ℤ) : Type 0 where
  pub at_most_app : r ≤ℤ pos max_runlevel
  pub of_platforms : All (CoversPlatform pending.platforms r) current.platforms
  pub changed_objects :
      All
        (CoversChanged
          (λ (o : PvObject). o.name)
          (λ o. o.id)
          (λ o. o.plat)
          pending.platforms
          current.objects
          r)
        pending.objects
  pub deleted_objects :
      All
        (CoversDeleted
          (λ (o : PvObject). o.name)
          (λ o. o.id)
          (λ o. o.plat)
          current.platforms
          pending.objects
          r)
        current.objects
  pub changed_jsons :
      All
        (CoversChanged
          (λ (j : PvJson). j.name)
          (λ j. j.value)
          (λ j. j.plat)
          pending.platforms
          current.jsons
          r)
        pending.jsons
  pub deleted_jsons :
      All
        (CoversDeleted
          (λ (j : PvJson). j.name)
          (λ j. j.value)
          (λ j. j.plat)
          current.platforms
          pending.jsons
          r)
        current.jsons

after_platforms :
    (pending current : PvState) (r : ℤ) (qs : List Platform)
    → compare_platforms pending.platforms current.platforms (pos max_runlevel) ≡ go r qs
    → (a : ℕ)
    → ((r ≤ℤ pos max_runlevel) × All (CoversPlatform pending.platforms r) current.platforms)
      × (level_at qs a ≡ level_at current.platforms a)
after_platforms pending current r qs e a =
    let m = compare_platforms pending.platforms current.platforms (pos max_runlevel) in
    (
      (
        Ensures-go (λ r qs. r ≤ℤ pos max_runlevel) m r qs
            (compare_platforms-le pending.platforms current.platforms (pos max_runlevel)) e,
        Ensures-go (λ r qs. All (CoversPlatform pending.platforms r) current.platforms) m r qs
            (compare_platforms-covers pending.platforms current.platforms (pos max_runlevel)) e,
      ),
      Ensures-go (λ r qs. level_at qs a ≡ level_at current.platforms a) m r qs
          (level_at-compare_platforms pending.platforms current.platforms (pos max_runlevel) a) e,
    )

after_changed_objects :
    (pending current : PvState) (r s : ℤ) (ps qs : List Platform)
    → changed_objects_loop pending current r ps ≡ go s qs
    → (a : ℕ)
    → Lowers a r ps s qs
      × All
          (CoversChanged
            (λ (o : PvObject). o.name)
            (λ o. o.id)
            (λ o. o.plat)
            pending.platforms
            current.objects
            s)
          pending.objects
after_changed_objects pending current r s ps qs e a =
    Ensures-go
      (λ s qs.
        Lowers a r ps s qs
        × All
            (CoversChanged (λ (o : PvObject). o.name) (λ o. o.id) (λ o. o.plat) pending.platforms
              current.objects s)
            pending.objects)
      (changed_objects_loop pending current r ps) s qs
      (compare_changed-Lowers (λ (o : PvObject). o.name) (λ o. o.id) (λ o. o.plat) pending.platforms
        current.objects pending.objects r ps a)
      e

after_deleted_objects :
    (pending current : PvState) (r s : ℤ) (ps qs : List Platform)
    → ((a : ℕ) → level_at ps a ≡ level_at current.platforms a)
    → deleted_objects_loop pending current r ps ≡ go s qs
    → (a : ℕ)
    → Lowers a r ps s qs
      × All
          (CoversDeleted
            (λ (o : PvObject). o.name)
            (λ o. o.id)
            (λ o. o.plat)
            current.platforms
            pending.objects
            s)
          current.objects
after_deleted_objects pending current r s ps qs same e a =
    Ensures-go
      (λ s qs.
        Lowers a r ps s qs
        × All
            (CoversDeleted (λ (o : PvObject). o.name) (λ o. o.id) (λ o. o.plat) current.platforms
              pending.objects s)
            current.objects)
      (deleted_objects_loop pending current r ps) s qs
      (compare_deleted-Lowers (λ (o : PvObject). o.name) (λ o. o.id) (λ o. o.plat) current.platforms
        pending.objects current.objects r ps a same)
      e

after_changed_jsons :
    (pending current : PvState) (r s : ℤ) (ps qs : List Platform)
    → changed_jsons_loop pending current r ps ≡ go s qs
    → (a : ℕ)
    → Lowers a r ps s qs
      × All
          (CoversChanged
            (λ (j : PvJson). j.name)
            (λ j. j.value)
            (λ j. j.plat)
            pending.platforms
            current.jsons
            s)
          pending.jsons
after_changed_jsons pending current r s ps qs e a =
    Ensures-go
      (λ s qs.
        Lowers a r ps s qs
        × All
            (CoversChanged (λ (j : PvJson). j.name) (λ j. j.value) (λ j. j.plat) pending.platforms
              current.jsons s)
            pending.jsons)
      (changed_jsons_loop pending current r ps) s qs
      (compare_changed-Lowers (λ (j : PvJson). j.name) (λ j. j.value) (λ j. j.plat)
        pending.platforms current.jsons pending.jsons r ps a)
      e

after_deleted_jsons :
    (pending current : PvState) (r s : ℤ) (ps qs : List Platform)
    → ((a : ℕ) → level_at ps a ≡ level_at current.platforms a)
    → deleted_jsons_loop pending current r ps ≡ go s qs
    → (a : ℕ)
    → Lowers a r ps s qs
      × All
          (CoversDeleted
            (λ (j : PvJson). j.name)
            (λ j. j.value)
            (λ j. j.plat)
            current.platforms
            pending.jsons
            s)
          current.jsons
after_deleted_jsons pending current r s ps qs same e a =
    Ensures-go
      (λ s qs.
        Lowers a r ps s qs
        × All
            (CoversDeleted (λ (j : PvJson). j.name) (λ j. j.value) (λ j. j.plat) current.platforms
              pending.jsons s)
            current.jsons)
      (deleted_jsons_loop pending current r ps) s qs
      (compare_deleted-Lowers (λ (j : PvJson). j.name) (λ j. j.value) (λ j. j.plat)
        current.platforms pending.jsons current.jsons r ps a same)
      e

-- When the call returns without asking for a reboot, the runlevel that it returns covers every
-- difference of the two states: a pending item without one of the same name and content in the
-- running state, a running item whose name the pending state does not have, and a deleted platform
-- all belong to a platform, which has at least that runlevel.
pub pv_state_compare_states-Covers :
    (pending current : PvState) (r : ℤ) (qs : List Platform)
    → pv_state_compare_states (some pending) (some current) ≡ go r qs
    → Covers pending current r
unfolding pv_state_compare_states
pv_state_compare_states-Covers pending current r qs h =
    let first = compare_platforms pending.platforms current.platforms (pos max_runlevel) in
    let (r1, ps1, e1, h1) = then_compare-eq-go first (from_objects pending current) r qs h in
    let (r2, ps2, e2, h2) =
      then_compare-eq-go (changed_objects_loop pending current r1 ps1)
        (from_deleted_objects pending current) r qs h1 in
    let (r3, ps3, e3, h3) =
      then_compare-eq-go (deleted_objects_loop pending current r2 ps2) (from_jsons pending current)
        r qs h2 in
    let (r4, ps4, e4, e5) =
      then_compare-eq-go (changed_jsons_loop pending current r3 ps3)
        (deleted_jsons_loop pending current) r qs h3 in
    let f1 = after_platforms pending current r1 ps1 e1 in
    let f2 = after_changed_objects pending current r1 r2 ps1 ps2 e2 in
    let same2 = λ (a : ℕ). (f2 a).0.1 ∙ (f1 a).1 in
    let f3 = after_deleted_objects pending current r2 r3 ps2 ps3 same2 e3 in
    let f4 = after_changed_jsons pending current r3 r4 ps3 ps4 e4 in
    let same4 = λ (a : ℕ). (f4 a).0.1 ∙ (f3 a).0.1 ∙ same2 a in
    let f5 = after_deleted_jsons pending current r4 r ps4 qs same4 e5 in
    let l4 : r ≤ℤ r4 = (f5 0).0.0 in
    let l3 : r ≤ℤ r3 = omega (arith, l4, (f4 0).0.0) in
    let l2 : r ≤ℤ r2 = omega (arith, l3, (f3 0).0.0) in
    let l1 : r ≤ℤ r1 = omega (arith, l2, (f2 0).0.0) in
    record {
      at_most_app = omega (arith, l1, (f1 0).0.0);
      of_platforms = CoversPlatform-weaken pending.platforms current.platforms r1 r l1 (f1 0).0.1;
      changed_objects =
          All-CoversChanged-weaken (λ (o : PvObject). o.name) (λ o. o.id) (λ o. o.plat)
            pending.platforms current.objects pending.objects r2 r l2 (f2 0).1;
      deleted_objects =
          All-CoversDeleted-weaken (λ (o : PvObject). o.name) (λ o. o.id) (λ o. o.plat)
            current.platforms pending.objects current.objects r3 r l3 (f3 0).1;
      changed_jsons =
          All-CoversChanged-weaken (λ (j : PvJson). j.name) (λ j. j.value) (λ j. j.plat)
            pending.platforms current.jsons pending.jsons r4 r l4 (f4 0).1;
      deleted_jsons = (f5 0).1;
    }
