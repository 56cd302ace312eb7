-- ===== src/Storage/Gc/Laws.antt =====
-- What the garbage collector of storage.c removes, and what it keeps.
use pantavisor.Prelude.{
  ne_of_str_eq, ℕ, ◌+◌, ◌%◌, ◌^◌, ◌≤◌, ◌<◌, ◌≡◌, ◌≢◌, refl, ap, ◌∙◌, ◌⊎◌, inl, inr, String, subst,
  sym, Bool, true, false, ◌&&◌, ◌||◌, Option, none, some, List, [], ◌∷◌, arith, All, Any, str_eq,
  Option-cases, Bool-cases, eq_iff,
}
use pantavisor.State.{PvState, PvObject, id_in_list, pv_objects_id_in_step}
use pantavisor.Storage.Gc.{
  Protection, is_rev, pending_rev, is_protected, removed_revisions, ObjectStat, in_update,
  object_goes, pv_storage_gc_objects, GcRun, pv_storage_gc_run,
}

-- A path is not that revision, if there is one.
abbrev pub NotRevision : String → Option String → Type 0
NotRevision path none = Unit
NotRevision path (some rev) = path ≢ rev

abbrev pub NotPending : String → Option (Option PvState) → Type 0
NotPending path none = Unit
NotPending path (some none) = Unit
NotPending path (some (some u)) = path ≢ u.rev

-- What the collector may remove.
pub record IsSpare (k : Protection) (path : String) : Type 0 where
  pub not_running : NotRevision path k.running
  pub not_pending : NotPending path k.update
  pub not_done : path ≢ k.done
  pub not_factory : (k.keep_factory ≡ false) ⊎ (path ≢ "0")
  pub not_current : path ≢ "current"
  pub not_locals : path ≢ "locals"

or_false : (a b : Bool) → (a || b) ≡ false → (a ≡ false) × (b ≡ false)
or_false a b h = ground arith

NotRevision-intro : (path : String) (o : Option String) → is_rev path o ≡ false → NotRevision path o
NotRevision-intro path none e = tt
NotRevision-intro path (some rev) e = ne_of_str_eq path rev e

NotPending-intro :
    (path : String) (o : Option (Option PvState))
    → is_rev path (pending_rev o) ≡ false
    → NotPending path o
NotPending-intro path none e = tt
NotPending-intro path (some none) e = tt
NotPending-intro path (some (some u)) e = ne_of_str_eq path u.rev e

factory_kept :
    (keep : Bool) (path : String)
    → (keep && str_eq path "0") ≡ false
    → (keep ≡ false) ⊎ (path ≢ "0")
factory_kept false path h = inl refl
factory_kept true path h = inr (ne_of_str_eq path "0" h)

is_protected-IsSpare :
    (k : Protection) (path : String) → is_protected k path ≡ false → IsSpare k path
unfolding is_protected
is_protected-IsSpare k path h =
    let (h9, f10) = or_false _ (k.keep_factory && str_eq path "0") h in
    let (h8, f9) = or_false _ (str_eq path k.done) h9 in
    let (h7, f8) = or_false _ (is_rev path (pending_rev k.update)) h8 in
    let (h6, f7) = or_false _ (is_rev path k.running) h7 in
    let (h5, f6) = or_false _ (str_eq path "locals/.") h6 in
    let (h4, f5) = or_false _ (str_eq path "locals/..") h5 in
    let (h3, f4) = or_false _ (str_eq path "locals") h4 in
    let (h2, f3) = or_false _ (str_eq path "current") h3 in
    record {
      not_running = NotRevision-intro path k.running f7;
      not_pending = NotPending-intro path k.update f8;
      not_done = ne_of_str_eq path k.done f9;
      not_factory = factory_kept k.keep_factory path f10;
      not_current = ne_of_str_eq path "current" f3;
      not_locals = ne_of_str_eq path "locals" f4;
    }

-- No removed revision is the running one, the pending one, the last booted one, the factory
-- revision where that is kept, or one of the entries `current` and `locals`.
pub removed_revisions-IsSpare :
    (k : Protection) (listing : List String) → All (IsSpare k) (removed_revisions k listing)
unfolding removed_revisions
removed_revisions-IsSpare k [] = tt
removed_revisions-IsSpare k (r ∷ rs) = elim (Bool-cases (is_protected k r)) [
  | inl e ↦ rw e (removed_revisions-IsSpare k rs)
  | inr e ↦ rw e (is_protected-IsSpare k r e, removed_revisions-IsSpare k rs)
]

-- The revision is protected, or among those that are gone.
abbrev pub IsAccounted : Protection → List String → String → Type 0
IsAccounted k gone r = (is_protected k r ≡ true) ⊎ Any (λ g. g ≡ r) gone

All-removed-weaken :
    (k : Protection) (q : String) (rs gone : List String)
    → All (λ r. (is_protected k r ≡ true) ⊎ Any (λ g. g ≡ r) gone) rs
    → All (λ r. (is_protected k r ≡ true) ⊎ Any (λ g. g ≡ r) (q ∷ gone)) rs
All-removed-weaken k q [] gone h = tt
All-removed-weaken k q (r ∷ rs) gone h = (one h.0, All-removed-weaken k q rs gone h.1)
  where
    one :
        (is_protected k r ≡ true) ⊎ Any (λ g. g ≡ r) gone
        → (is_protected k r ≡ true) ⊎ Any (λ g. g ≡ r) (q ∷ gone)
    one (inl e) = inl e
    one (inr m) = inr (inr m)

removed_revisions-protected :
    (k : Protection) (r : String) (rs : List String)
    → is_protected k r ≡ true
    → removed_revisions k (r ∷ rs) ≡ removed_revisions k rs
unfolding removed_revisions
removed_revisions-protected k r rs e = rw e

removed_revisions-spare :
    (k : Protection) (r : String) (rs : List String)
    → is_protected k r ≡ false
    → removed_revisions k (r ∷ rs) ≡ r ∷ removed_revisions k rs
unfolding removed_revisions
removed_revisions-spare k r rs e = rw e

-- Every listed revision is protected or removed.
pub removed_revisions_complete :
    (k : Protection) (listing : List String)
    → All (IsAccounted k (removed_revisions k listing)) listing
removed_revisions_complete k [] = tt
removed_revisions_complete k (r ∷ rs) = elim (Bool-cases (is_protected k r)) [
  | inl e ↦
      subst (λ gone. All (IsAccounted k gone) (r ∷ rs)) (sym (removed_revisions-protected k r rs e))
        (inl e, removed_revisions_complete k rs)
  | inr e ↦
      subst (λ gone. All (IsAccounted k gone) (r ∷ rs)) (sym (removed_revisions-spare k r rs e))
        (
          inr (inl refl),
          All-removed-weaken k r rs (removed_revisions k rs) (removed_revisions_complete k rs),
        )
]

-- No object of the update's pending state has that id.
abbrev pub NotNeeded : String → Option (Option PvState) → Type 0
NotNeeded path none = Unit
NotNeeded path (some none) = Unit
NotNeeded path (some (some u)) = All (λ (o : PvObject). o.id ≢ path) u.objects

id_in_list-All :
    (path : String) (os : List PvObject)
    → id_in_list path os ≡ false
    → All (λ (o : PvObject). o.id ≢ path) os
unfolding id_in_list
id_in_list-All path [] h = tt
id_in_list-All path (o ∷ os) h =
    (ground (arith, h, eq_iff o.id path), id_in_list-All path os (ground (arith, h)))

in_update-NotNeeded :
    (path : String) (u : Option (Option PvState)) → in_update u path ≡ false → NotNeeded path u
unfolding pv_objects_id_in_step
in_update-NotNeeded path none h = tt
in_update-NotNeeded path (some none) h = tt
in_update-NotNeeded path (some (some u)) h = id_in_list-All path u.objects h

-- An object that no other name links to, and that no update under way needs.
abbrev pub IsOrphan : Protection → (String → Option ObjectStat) → String → Type 0
IsOrphan k stat path =
    (st : ObjectStat) × (stat path ≡ some st) × (st.st_nlink ≤ 1) × NotNeeded path k.update

object_goes-IsOrphan :
    (k : Protection) (stat : String → Option ObjectStat) (path : String) (size : ℕ)
    → object_goes k stat path ≡ some size
    → IsOrphan k stat path
unfolding object_goes
object_goes-IsOrphan k stat path size h = elim (Option-cases (stat path)) [
  | inl e ↦ ground (arith, e)
  | inr (st, e) ↦ (st, e, ground (arith, e), in_update-NotNeeded path k.update (ground (arith, e)))
]

-- The collector removes only objects whose link count is at most 1 and whose name is the id of no
-- object of the pending state of the update under way.
pub pv_storage_gc_objects-IsOrphan :
    (k : Protection) (stat : String → Option ObjectStat) (paths : List String) (reclaimed : ℕ)
    → All (IsOrphan k stat) (pv_storage_gc_objects k stat paths reclaimed).removed
unfolding pv_storage_gc_objects
pv_storage_gc_objects-IsOrphan k stat [] reclaimed = tt
pv_storage_gc_objects-IsOrphan k stat (path ∷ paths) reclaimed =
    elim (Option-cases (object_goes k stat path)) [
      | inl e ↦
          rw (e, pv_storage_gc_objects) (pv_storage_gc_objects-IsOrphan k stat paths reclaimed)
      | inr (size, e) ↦
          rw (e, pv_storage_gc_objects)
            (
              object_goes-IsOrphan k stat path size e,
              pv_storage_gc_objects-IsOrphan k stat paths ((reclaimed + size) % 2 ^ 32),
            )
    ]

protected_stays :
    (k : Protection) (r : String) (rs : List String)
    → is_protected k r ≡ true
    → All (λ g. g ≢ r) (removed_revisions k rs)
unfolding removed_revisions
protected_stays k r [] h = tt
protected_stays k r (q ∷ rs) h = elim (Bool-cases (is_protected k q)) [
  | inl e ↦ rw e (protected_stays k r rs h)
  | inr e ↦ rw e ((λ p. ground (arith, e, ap (is_protected k) p)), protected_stays k r rs h)
]

linked_stays :
    (k : Protection) (stat : String → Option ObjectStat) (id : String) (removed : List String)
    → ((st : ObjectStat) → stat id ≡ some st → 1 < st.st_nlink)
    → All (IsOrphan k stat) removed
    → All (λ o. o ≢ id) removed
linked_stays k stat id [] law h = tt
linked_stays k stat id (o ∷ os) law (orphan, rest) = (
  (λ p. let (st, e, few, free) = orphan in absurd (omega (arith, few, law st (rw p at e)))),
  linked_stays k stat id os law rest,
)

-- The running revision, the update's pending one, the last booted one, and the factory revision
-- where that is kept.
abbrev pub MustStay : Protection → String → Type 0
MustStay k rev =
    (k.running ≡ some rev)
    ⊎ ((u : PvState) × (k.update ≡ some (some u)) × (u.rev ≡ rev))
    ⊎ (k.done ≡ rev)
    ⊎ ((k.keep_factory ≡ true) × (rev ≡ "0"))

or_right : (a b : Bool) → b ≡ true → (a || b) ≡ true
or_right a b h = ground (arith, h)

or_left : (a b : Bool) → a ≡ true → (a || b) ≡ true
or_left a b h = ground (arith, h)

str_eq_refl : (s : String) → str_eq s s ≡ true
str_eq_refl s = (eq_iff s s).1 refl

MustStay-is_protected : (k : Protection) (rev : String) → MustStay k rev → is_protected k rev ≡ true
unfolding is_protected
MustStay-is_protected k rev (inl e) =
    or_left _ _ (or_left _ _ (or_left _ _ (or_right _ _ (ap (is_rev rev) e ∙ str_eq_refl rev))))
MustStay-is_protected k rev (inr (inl (u, e, f))) = or_left _ _ (
    or_left _ _
      (or_right _ _ (ap (λ o. is_rev rev (pending_rev o)) e ∙ ap (str_eq rev) f ∙ str_eq_refl rev)))
MustStay-is_protected k rev (inr (inr (inl e))) =
    or_left _ _ (or_right _ _ (ap (str_eq rev) e ∙ str_eq_refl rev))
MustStay-is_protected k rev (inr (inr (inr (t, e)))) =
    or_right _ (k.keep_factory && str_eq rev "0") (ground (arith, t, ap (λ r. str_eq r "0") e))

-- An object that the running revision uses is never removed, nor one of the update's pending
-- revision, of the last booted one, or of the factory revision where that is kept. `uses` says which revision
-- holds a hard link to which object; the file system's rule is that the pool's own name and the
-- link of a revision that was not removed make a link count above 1.
pub pv_storage_gc_run_keeps_used :
    (k : Protection) (listing objects : List String)
    (stat_after : List String → String → Option ObjectStat) (uses : String → String → Type 0)
    → ((gone : List String) (r id : String) (st : ObjectStat)
        → uses r id
        → All (λ g. g ≢ r) gone
        → stat_after gone id ≡ some st
        → 1 < st.st_nlink)
    → (rev id : String) (g : GcRun) → pv_storage_gc_run k (some listing) objects stat_after ≡ some g
    → MustStay k rev
    → uses rev id
    → All (λ o. o ≢ id) g.objects.removed
unfolding pv_storage_gc_run
pv_storage_gc_run_keeps_used k listing objects stat_after uses law rev id g h p u =
    let gone = removed_revisions k listing in
    let e : pv_storage_gc_objects k (stat_after gone) objects 0 ≡ g.objects = ground arith in
    rw (← e) (
      linked_stays k (stat_after gone) id
        (pv_storage_gc_objects k (stat_after gone) objects 0).removed
        (λ st q.
          law gone rev id st u (protected_stays k rev listing (MustStay-is_protected k rev p)) q)
        (pv_storage_gc_objects-IsOrphan k (stat_after gone) objects 0))
