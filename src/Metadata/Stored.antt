-- ===== src/Metadata/Stored.antt =====
-- The copy of the user's metadata in the storage's directory, as the last actions leave it.
use pantavisor.Prelude.{
  ◌≡◌, refl, sym, subst, String, Bool, true, false, not, ◌&&◌, ◌||◌, Option, none, some, List, [],
  ◌∷◌, str_eq, eq_iff, if◌then◌else◌, arith, Bool-cases, Option-cases, inl, inr,
}
use pantavisor.Str.{has_prefix}
use pantavisor.Metadata.{
  Meta, MetaAct, override_value, save_usermeta, rm_usermeta, Metadata, JsonItem,
  pv_metadata_get_by_key, set_updated, pv_metadata_add, pv_metadata_add_usermeta,
  pv_metadata_rm_usermeta, add_items, pv_usermeta_parse, clear_items, usermeta_clear,
  pv_metadata_parse_usermeta, pv_metadata_load_usermeta, pv_metadata_init,
}
use pantavisor.Metadata.Lookup.{
  look, IsUnique, look-get, get-key, look-set_updated, look-del, set_updated-IsUnique, del-IsUnique,
}
use pantavisor.Metadata.Sync.{look-add_usermeta, add_usermeta-IsUnique, rm_usermeta-del}

-- The file of a key.
abbrev pub stored : List MetaAct → String → Option String
stored [] k = none
stored (override_value key v ∷ acts) k = stored acts k
stored (save_usermeta key v ∷ acts) k = if str_eq k key then some v else stored acts k
stored (rm_usermeta key ∷ acts) k = if str_eq k key then none else stored acts k

abbrev pub value_of : Option (String × Bool) → Option String
value_of none = none
value_of (some (v, u)) = some v

-- No two items have the same key, and every key's file has the value of its item.
abbrev pub IsMirrored : Metadata → Type 0
IsMirrored d = IsUnique d.usermeta × ((k : String) → stored d.acts k ≡ value_of (look d.usermeta k))

stored-add_usermeta :
    (key value k : String) (d : Metadata)
    → stored (pv_metadata_add_usermeta key value d).0.acts k ≡ (
        if (pv_metadata_add d.usermeta key value).1 && str_eq k key
        then some value
        else stored d.acts k)
unfolding pv_metadata_add_usermeta
stored-add_usermeta key value k d = ground arith

-- An addition that changes nothing finds the value there.
add_unchanged :
    (ms : List Meta) (key value : String)
    → (pv_metadata_add ms key value).1 ≡ false
    → value_of (look ms key) ≡ some value
unfolding pv_metadata_add
add_unchanged ms key value h = elim (Option-cases (pv_metadata_get_by_key ms key)) [
  | inl n ↦ ground (arith, n, h)
  | inr (m, e) ↦ ground (arith, e, h, look-get ms key, eq_iff m.value value)
]

-- Adding a key of the user's metadata keeps the storage's copy in step.
pub add_usermeta-IsMirrored :
    (key value : String) (d : Metadata)
    → IsMirrored d
    → IsMirrored (pv_metadata_add_usermeta key value d).0
add_usermeta-IsMirrored key value d m = (
  add_usermeta-IsUnique key value d m.0,
  λ k. elim (Bool-cases (pv_metadata_add d.usermeta key value).1) [
    | inl y ↦
        ground (arith, y, stored-add_usermeta key value k d, look-add_usermeta key value k d, m.1 k)
    | inr n ↦ ground (
      arith,
      n,
      stored-add_usermeta key value k d,
      look-add_usermeta key value k d,
      add_unchanged d.usermeta key value n,
      eq_iff k key,
      m.1 k,
    )
  ],
)

stored-rm_usermeta :
    (key k : String) (d : Metadata)
    → stored (pv_metadata_rm_usermeta key d).0.acts k
      ≡ elim (pv_metadata_get_by_key d.usermeta key) [
        | none ↦ stored d.acts k
        | some m ↦ if str_eq k m.key then none else stored d.acts k
      ]
unfolding pv_metadata_rm_usermeta
stored-rm_usermeta key k d = elim (Option-cases (pv_metadata_get_by_key d.usermeta key)) [
  | inl n ↦ ground (arith, n)
  | inr (m, e) ↦ ground (arith, e)
]

-- Removing a key of the user's metadata keeps the storage's copy in step.
pub rm_usermeta-IsMirrored :
    (key : String) (d : Metadata) → IsMirrored d → IsMirrored (pv_metadata_rm_usermeta key d).0
rm_usermeta-IsMirrored key d m = (
  subst IsUnique (sym (rm_usermeta-del key d)) (del-IsUnique d.usermeta key m.0),
  λ k. elim (Option-cases (pv_metadata_get_by_key d.usermeta key)) [
    | inl n ↦ ground (
      arith,
      n,
      stored-rm_usermeta key k d,
      rm_usermeta-del key d,
      look-get d.usermeta key,
      look-del d.usermeta key k m.0,
      eq_iff k key,
      m.1 k,
    )
    | inr (i, e) ↦ ground (
      arith,
      e,
      stored-rm_usermeta key k d,
      rm_usermeta-del key d,
      get-key d.usermeta key i e,
      look-del d.usermeta key k m.0,
      m.1 k,
    )
  ],
)

flag_kept :
    (key : String) (u : Bool) (d : Metadata)
    → IsMirrored d
    → IsMirrored (record d { usermeta = set_updated d.usermeta key u })
flag_kept key u d m = (
  set_updated-IsUnique d.usermeta key u m.0,
  λ k. ground (arith, look-set_updated d.usermeta key u k, eq_iff k key, m.1 k),
)

if-IsMirrored :
    (b : Bool) (x y : Metadata) → IsMirrored x → IsMirrored y → IsMirrored (if b then x else y)
if-IsMirrored true x y p q = p
if-IsMirrored false x y p q = q

add_items-IsMirrored :
    (items : List JsonItem) (d : Metadata) → IsMirrored d → IsMirrored (add_items items d)
unfolding add_items
add_items-IsMirrored [] d m = m
add_items-IsMirrored (i ∷ items) d m =
    let e = (pv_metadata_add_usermeta i.key i.value d).0 in
    if-IsMirrored (not i.primitive || not (str_eq "null" i.value)) (add_items items e)
      (add_items items d) (add_items-IsMirrored items e (add_usermeta-IsMirrored i.key i.value d m))
      (add_items-IsMirrored items d m)

clear_items-IsMirrored :
    (todo : List Meta) (d : Metadata) → IsMirrored d → IsMirrored (clear_items todo d)
unfolding clear_items
clear_items-IsMirrored [] d m = m
clear_items-IsMirrored (i ∷ todo) d m =
    let kept = record d { usermeta = set_updated d.usermeta i.key false } in
    let gone = (pv_metadata_rm_usermeta i.key d).0 in
    if-IsMirrored i.updated (clear_items todo kept) (clear_items todo gone)
      (clear_items-IsMirrored todo kept (flag_kept i.key false d m))
      (clear_items-IsMirrored todo gone (rm_usermeta-IsMirrored i.key d m))

-- If no two items have the same key and each key's file has the value of its item, then this is so
-- again after a download of the user's metadata, also where the text has none.
pub parse_usermeta-IsMirrored :
    (um : Option (List JsonItem)) (d : Metadata)
    → IsMirrored d
    → IsMirrored (pv_metadata_parse_usermeta um d)
unfolding pv_metadata_parse_usermeta pv_usermeta_parse usermeta_clear
parse_usermeta-IsMirrored none d m = clear_items-IsMirrored d.usermeta d m
parse_usermeta-IsMirrored (some items) d m =
    let e = add_items items d in
    clear_items-IsMirrored e.usermeta e (add_items-IsMirrored items d m)

load_usermeta-IsMirrored :
    (files : List (String × Option String)) (d : Metadata)
    → IsMirrored d
    → IsMirrored (pv_metadata_load_usermeta files d)
unfolding pv_metadata_load_usermeta
load_usermeta-IsMirrored [] d m = m
load_usermeta-IsMirrored ((path, none) ∷ files) d m =
    let rest = pv_metadata_load_usermeta files d in
    if-IsMirrored (has_prefix ".." path || has_prefix "." path) rest rest
      (load_usermeta-IsMirrored files d m) (load_usermeta-IsMirrored files d m)
load_usermeta-IsMirrored ((path, some v) ∷ files) d m =
    let e = (pv_metadata_add_usermeta path v d).0 in
    if-IsMirrored (has_prefix ".." path || has_prefix "." path) (pv_metadata_load_usermeta files d)
      (pv_metadata_load_usermeta files e) (load_usermeta-IsMirrored files d m)
      (load_usermeta-IsMirrored files e (add_usermeta-IsMirrored path v d m))

-- After the start, no two items of the user's metadata have the same key, and each key's file was
-- last saved with the value of its item.
pub init-IsMirrored : (files : List (String × Option String)) → IsMirrored (pv_metadata_init files)
unfolding pv_metadata_init
init-IsMirrored files =
    load_usermeta-IsMirrored files
      (record { usermeta = []; devmeta = []; devmeta_uploaded = true; acts = [] }) (tt, λ k. refl)
