-- ===== src/Tests/State.antt =====
-- Runs over two revisions.
use pantavisor.Prelude.{
  ne_of_str_eq, ◌≡◌, ◌≢◌, ◌↔◌, refl, true, none, some, List, [], ◌∷◌, All, str_eq,
}
use pantavisor.Prelude.Int.{pos}
use pantavisor.Platforms.{Platform, max_runlevel, pv_platform_get_by_name}
use pantavisor.State.{PvState, platform_at, get_by_name}
use pantavisor.State.Checksum.{
  Checks, ObjectValid, JsonValid, pv_state_validate_checksum, pv_state_validate_checksum_iff,
}
use pantavisor.State.Transfer.{pv_state_transfer}
use pantavisor.State.Transfer.Pointers.{IsLinked, Returns, pv_state_transfer-IsLinked}
use pantavisor.State.Compare.{
  crash, go, compare_platforms, compare_changed, changed_step, mark_updated, compare_deleted,
  deleted_step, pv_state_compare_states,
}
use pantavisor.State.Compare.Covers.{Covers, pv_state_compare_states-Covers}
use pantavisor.State.Compare.Faults.{
  NoCrash, pv_state_compare_states-crash, pv_state_compare_states-NoCrash,
}
use pantavisor.Tests.{
  root_installed, app_installed, root_started, app_started, object, rev_old, rev_new,
}

-- Only objects are valid.
abbrev all_valid : Checks
all_valid = record {
  trails_object = λ rev name id. true;
  pool_object = λ id. true;
  trails_json = λ rev name value. str_eq name "run.json";
}

pv_state_validate_checksum_iff_example : (pv_state_validate_checksum all_valid rev_new ≡ true) ↔ (
    All (ObjectValid all_valid "5") rev_new.objects × All (JsonValid all_valid "5") rev_new.jsons)
pv_state_validate_checksum_iff_example = pv_state_validate_checksum_iff all_valid rev_new

old-IsLinked : IsLinked rev_old
unfolding platform_at
old-IsLinked = ((refl, tt), (refl, tt), tt)

new-IsLinked : IsLinked rev_new
unfolding platform_at
new-IsLinked = ((refl, tt), (refl, tt), tt)

root_ne_app : root_installed.name ≢ app_installed.name
root_ne_app = ne_of_str_eq "root" "app" refl

pv_state_transfer-IsLinked_example :
    Returns (λ (r : PvState × PvState). IsLinked r.1) (pv_state_transfer rev_new rev_old)
pv_state_transfer-IsLinked_example =
    pv_state_transfer-IsLinked rev_new rev_old new-IsLinked old-IsLinked
      ((root_ne_app, tt), (tt, tt))

abbrev marked : List Platform
marked = root_started ∷ record app_started { updated = true } ∷ []

compared : pv_state_compare_states (some rev_new) (some rev_old) ≡ go (pos 3) marked
unfolding pv_state_compare_states compare_platforms pv_platform_get_by_name compare_changed
    changed_step get_by_name mark_updated platform_at compare_deleted deleted_step
compared = refl

pv_state_compare_states-Covers_example : Covers rev_new rev_old (pos 3)
pv_state_compare_states-Covers_example =
    pv_state_compare_states-Covers rev_new rev_old (pos 3) marked compared

-- Revision 4 with an object that no container owns.
abbrev rev_bare : PvState
rev_bare = record rev_old { objects = object "app.squashfs" "aa" none ∷ [] }

platforms_stay :
    compare_platforms rev_new.platforms rev_bare.platforms (pos max_runlevel)
    ≡ go (pos 3) rev_bare.platforms
unfolding compare_platforms pv_platform_get_by_name
platforms_stay = refl

bb_ne_aa : (object "app.squashfs" "bb" (some 2)).id ≢ (object "app.squashfs" "aa" none).id
bb_ne_aa = ne_of_str_eq "bb" "aa" refl

pv_state_compare_states-crash_example :
    pv_state_compare_states (some rev_new) (some rev_bare) ≡ crash
pv_state_compare_states-crash_example =
    pv_state_compare_states-crash rev_new rev_bare (object "app.squashfs" "bb" (some 2))
      (object "app.squashfs" "aa" none) [] [] 2 (pos 3) rev_bare.platforms refl refl refl bb_ne_aa
      refl refl platforms_stay

pv_state_compare_states-NoCrash_example :
    NoCrash (pv_state_compare_states (some rev_new) (some rev_old))
unfolding get_by_name platform_at
pv_state_compare_states-NoCrash_example =
    pv_state_compare_states-NoCrash rev_new rev_old new-IsLinked old-IsLinked (refl, tt) (refl, tt)
