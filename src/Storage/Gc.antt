-- ===== src/Storage/Gc.antt =====
-- `pv_storage_gc_run` and `pv_storage_gc_objects` of storage.c.
pub mod Laws
use pantavisor.Prelude.{
  ℕ, ◌+◌, ◌%◌, ◌^◌, ◌≤◌, ◌<◌, ◌≡◌, ◌≢◌, String, Bool, true, false, not, ◌&&◌, ◌||◌, Option, none,
  some, List, [], ◌∷◌, arith, All, ltb, str_eq, eq_iff, if◌then◌else◌,
}
use pantavisor.State.{PvState, PvObject, pv_objects_id_in_step, id_in_list}

-- What the collector knows: the revision that runs, the update's pending state (twice optional: no
-- update, or an update without state), the last booted revision, and `keep_factory`.
pub record Protection : Type 0 where
  pub running : Option String
  pub update : Option (Option PvState)
  pub done : String
  pub keep_factory : Bool

abbrev pub is_rev : String → Option String → Bool
is_rev path none = false
is_rev path (some rev) = str_eq path rev

abbrev pub pending_rev : Option (Option PvState) → Option String
pending_rev none = none
pending_rev (some none) = none
pending_rev (some (some u)) = some u.rev

-- The test of the loop. `strncmp` over the whole path and its terminator is equality.
unfoldable pub is_protected : Protection → String → Bool
is_protected k path =
    str_eq path ".."
    || str_eq path "."
    || str_eq path "current"
    || str_eq path "locals"
    || str_eq path "locals/.."
    || str_eq path "locals/."
    || is_rev path k.running
    || is_rev path (pending_rev k.update)
    || str_eq path k.done
    || (k.keep_factory && str_eq path "0")

-- The revisions that the loop removes from disk, in order.
unfoldable pub removed_revisions : Protection → List String → List String
removed_revisions k [] = []
removed_revisions k (r ∷ rs) =
    if is_protected k r then removed_revisions k rs else r ∷ removed_revisions k rs

-- `stat` of an object: no value if it fails.
pub record ObjectStat : Type 0 where
  pub st_nlink : ℕ
  pub st_size : ℕ

pub record Reclaim : Type 0 where
  pub reclaimed : ℕ  -- the bits of an `int`
  pub removed : List String

abbrev pub in_update : Option (Option PvState) → String → Bool
in_update none path = false
in_update (some pending) path = pv_objects_id_in_step pending path

-- One object: is it removed, and how large is it?
unfoldable pub object_goes : Protection → (String → Option ObjectStat) → String → Option ℕ
object_goes k stat path = if str_eq path ".." || str_eq path "." then none else elim (stat path) [
  | none ↦ none
  | some st ↦ if ltb 1 st.st_nlink || in_update k.update path then none else some st.st_size
]

unfoldable pub pv_storage_gc_objects :
    Protection → (String → Option ObjectStat) → List String → ℕ → Reclaim
unfolding object_goes
pv_storage_gc_objects k stat [] reclaimed = record { reclaimed = reclaimed; removed = [] }
pv_storage_gc_objects k stat (path ∷ paths) reclaimed = elim (object_goes k stat path) [
  | none ↦ pv_storage_gc_objects k stat paths reclaimed
  | some size ↦
      let rest = pv_storage_gc_objects k stat paths ((reclaimed + size) % 2 ^ 32) in
      record { reclaimed = rest.reclaimed; removed = path ∷ rest.removed }
]

pub record GcRun : Type 0 where
  pub revisions : List String
  pub objects : Reclaim

-- The listing is absent if the directories cannot be read: the call returns -1, and nothing is
-- removed. `stat_after` is `stat` once the given revisions are removed.
unfoldable pub pv_storage_gc_run :
    Protection
    → Option (List String)
    → List String
    → (List String → String → Option ObjectStat)
    → Option GcRun
unfolding removed_revisions
pv_storage_gc_run k none objects stat_after = none
pv_storage_gc_run k (some listing) objects stat_after =
    let gone = removed_revisions k listing in
    some
      (record { revisions = gone; objects = pv_storage_gc_objects k (stat_after gone) objects 0 })
