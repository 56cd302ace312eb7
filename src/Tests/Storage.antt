-- ===== src/Tests/Storage.antt =====
-- Runs of the collector.
use pantavisor.Prelude.{
  ◌<◌, ◌≡◌, ◌≢◌, refl, inl, String, true, Option, some, List, [], ◌∷◌, arith, All, str_eq,
  if◌then◌else◌, eq_iff,
}
use pantavisor.Storage.Gc.{
  Protection, ObjectStat, GcRun, is_protected, pv_storage_gc_objects, pv_storage_gc_run,
}
use pantavisor.Storage.Gc.Laws.{
  IsOrphan, pv_storage_gc_objects-IsOrphan, pv_storage_gc_run_keeps_used,
}
use pantavisor.State.{pv_objects_id_in_step}
use pantavisor.Tests.{rev_new}

abbrev running_4 : Protection
running_4 = record {
  running = some "4";
  update = some (some rev_new);
  done = "4";
  keep_factory = true;
}

abbrev listing : List String
listing = "." ∷ ".." ∷ "current" ∷ "0" ∷ "3" ∷ "4" ∷ "5" ∷ []

-- Object "aa" is linked from revision 4, "cc" is linked from nowhere.
abbrev stat_pool : String → Option ObjectStat
stat_pool id = some (record { st_nlink = if str_eq id "aa" then 2 else 1; st_size = 10 })

abbrev pool : List String
pool = "." ∷ ".." ∷ "aa" ∷ "bb" ∷ "cc" ∷ []

abbrev swept : GcRun
swept = record { revisions = "3" ∷ []; objects = record { reclaimed = 10; removed = "cc" ∷ [] } }

pv_storage_gc_objects-IsOrphan_example :
    All (IsOrphan running_4 stat_pool) (pv_storage_gc_objects running_4 stat_pool pool 0).removed
pv_storage_gc_objects-IsOrphan_example = pv_storage_gc_objects-IsOrphan running_4 stat_pool pool 0

sweep : pv_storage_gc_run running_4 (some listing) pool (λ gone. stat_pool) ≡ some swept
unfolding pv_storage_gc_run is_protected pv_storage_gc_objects pv_objects_id_in_step
sweep = refl

-- Revision 4 uses object "aa".
abbrev Uses : String → String → Type 0
Uses r id = (r ≡ "4") × (id ≡ "aa")

used_linked :
    (gone : List String) (r id : String) (st : ObjectStat)
    → Uses r id
    → All (λ g. g ≢ r) gone
    → stat_pool id ≡ some st
    → 1 < st.st_nlink
used_linked gone r id st u a e = ground (arith, u.1, e, eq_iff id "aa")

pv_storage_gc_run_keeps_used_example : All (λ o. o ≢ "aa") swept.objects.removed
pv_storage_gc_run_keeps_used_example =
    pv_storage_gc_run_keeps_used running_4 listing pool (λ gone. stat_pool) Uses used_linked "4"
      "aa" swept sweep (inl refl) (refl, refl)
