-- ===== src/Metadata.antt =====
-- metadata.c: the device's and the user's metadata, each a list of keys with values. What an operation
-- does to the configuration and to the storage is listed in `acts`, the latest first.
pub mod Lookup
pub mod Sync
pub mod Stored
use pantavisor.Str.{has_prefix}
use pantavisor.Prelude.{
  ℕ, String, Bool, true, false, not, ◌&&◌, ◌||◌, Option, none, some, List, [], ◌∷◌, str_eq, is_some,
  if◌then◌else◌,
}

-- `struct pv_meta`
pub record Meta : Type 0 where
  pub key : String
  pub value : String
  pub updated : Bool

pub data MetaAct : Type 0 where
  override_value : String → String → MetaAct
  save_usermeta : String → String → MetaAct
  rm_usermeta : String → MetaAct

-- `struct pv_metadata`
pub record Metadata : Type 0 where
  pub usermeta : List Meta
  pub devmeta : List Meta
  pub devmeta_uploaded : Bool
  pub acts : List MetaAct

-- A key with its value, as the JSON library reads them from an object; is the value a primitive?
pub record JsonItem : Type 0 where
  pub key : String
  pub value : String
  pub primitive : Bool

unfoldable pub pv_metadata_get_by_key : List Meta → String → Option Meta
pv_metadata_get_by_key [] key = none
pv_metadata_get_by_key (m ∷ ms) key =
    let rest = pv_metadata_get_by_key ms key in if str_eq key m.key then some m else rest

-- `curr->value = value` and `curr->updated = updated`, for the item that `pv_metadata_get_by_key`
-- finds.
unfoldable pub set_value : List Meta → String → String → List Meta
set_value [] key value = []
set_value (m ∷ ms) key value =
    let rest = set_value ms key value in
    if str_eq key m.key then record m { value = value } ∷ ms else m ∷ rest

unfoldable pub set_updated : List Meta → String → Bool → List Meta
set_updated [] key updated = []
set_updated (m ∷ ms) key updated =
    let rest = set_updated ms key updated in
    if str_eq key m.key then record m { updated = updated } ∷ ms else m ∷ rest

-- `dl_list_del` of the item that `pv_metadata_get_by_key` finds.
unfoldable pub del_by_key : List Meta → String → List Meta
del_by_key [] key = []
del_by_key (m ∷ ms) key = let rest = del_by_key ms key in if str_eq key m.key then ms else m ∷ rest

-- The new list, and whether it changed: the result 1 of the code is `true`, 0 is `false`.
unfoldable pub pv_metadata_add : List Meta → String → String → List Meta × Bool
pv_metadata_add ms key value = elim (pv_metadata_get_by_key ms key) [
  | some curr ↦ if str_eq curr.value value then (ms, false) else (set_value ms key value, true)
  | none ↦ (record { key = key; value = value; updated = false } ∷ ms, true)
]

-- The result is `true` where the code's is 0.
unfoldable pub pv_metadata_add_usermeta : String → String → Metadata → Metadata × Bool
pv_metadata_add_usermeta key value d =
    let (added, changed) = pv_metadata_add d.usermeta key value in
    let usermeta = set_updated added key true in
    if changed
    then (
      record d {
        usermeta = usermeta;
        acts = save_usermeta key value ∷ override_value key value ∷ d.acts;
      },
      true,
    )
    else (record d { usermeta = usermeta }, false)

unfoldable pub pv_metadata_rm_usermeta : String → Metadata → Metadata × Bool
pv_metadata_rm_usermeta key d = elim (pv_metadata_get_by_key d.usermeta key) [
  | none ↦ (d, false)
  | some m ↦
      (record d { usermeta = del_by_key d.usermeta key; acts = rm_usermeta m.key ∷ d.acts }, true)
]

-- The loop over the keys of the object `user-meta`: a primitive `null` is not added.
unfoldable pub add_items : List JsonItem → Metadata → Metadata
add_items [] d = d
add_items (i ∷ items) d =
    if not i.primitive || not (str_eq "null" i.value)
    then add_items items (pv_metadata_add_usermeta i.key i.value d).0
    else add_items items d

-- The text's `user-meta`, if it has one, is what the JSON library makes of it. `false` is a result
-- of -1, which the caller drops.
unfoldable pub pv_usermeta_parse : Option (List JsonItem) → Metadata → Metadata × Bool
pv_usermeta_parse none d = (d, false)
pv_usermeta_parse (some items) d = (add_items items d, true)

-- The loop of `usermeta_clear` over the items `todo` that it has not reached. An item is found again
-- by its key.
unfoldable pub clear_items : List Meta → Metadata → Metadata
clear_items [] d = d
clear_items (curr ∷ todo) d =
    if curr.updated
    then clear_items todo (record d { usermeta = set_updated d.usermeta curr.key false })
    else clear_items todo (pv_metadata_rm_usermeta curr.key d).0

unfoldable pub usermeta_clear : Metadata → Metadata
usermeta_clear d = clear_items d.usermeta d

-- The argument is the `user-meta` of the unescaped text.
unfoldable pub pv_metadata_parse_usermeta : Option (List JsonItem) → Metadata → Metadata
pv_metadata_parse_usermeta um d = usermeta_clear (pv_usermeta_parse um d).0

unfoldable pub pv_metadata_add_devmeta : String → String → Metadata → Metadata
pv_metadata_add_devmeta key value d =
    let (added, changed) = pv_metadata_add d.devmeta key value in
    if changed
    then record d { devmeta = set_updated added key true; devmeta_uploaded = false }
    else record d { devmeta = added }

-- The argument is the object of the text, if it is one with a key: the first key only is read.
unfoldable pub pv_metadata_parse_devmeta : List JsonItem → Metadata → Metadata
pv_metadata_parse_devmeta [] d = d
pv_metadata_parse_devmeta (i ∷ items) d = pv_metadata_add_devmeta i.key i.value d

-- `pv_metadata_load_usermeta`: the files of the storage's directory, each with what loading it
-- gives.
unfoldable pub pv_metadata_load_usermeta : List (String × Option String) → Metadata → Metadata
pv_metadata_load_usermeta [] d = d
pv_metadata_load_usermeta ((path, value) ∷ files) d =
    if has_prefix ".." path || has_prefix "." path
    then pv_metadata_load_usermeta files d
    else elim value [
      | none ↦ pv_metadata_load_usermeta files d
      | some v ↦ pv_metadata_load_usermeta files (pv_metadata_add_usermeta path v d).0
    ]

unfoldable pub pv_metadata_init : List (String × Option String) → Metadata
pv_metadata_init files =
    pv_metadata_load_usermeta files
      (record { usermeta = []; devmeta = []; devmeta_uploaded = true; acts = [] })
