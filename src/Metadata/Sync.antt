-- ===== src/Metadata/Sync.antt =====
-- The user's metadata after a download, key by key, and its copy in the storage.
use pantavisor.Prelude.{
  ◌≡◌, refl, sym, subst, String, Bool, true, false, not, ◌&&◌, ◌||◌, Option, none, some, List, [],
  ◌∷◌, str_eq, eq_iff, eq_refl, if◌then◌else◌, arith, Option-cases, inl, inr,
}
use pantavisor.Metadata.{
  Meta, Metadata, JsonItem, pv_metadata_get_by_key, set_updated, del_by_key, pv_metadata_add,
  pv_metadata_add_usermeta, pv_metadata_rm_usermeta, add_items, pv_usermeta_parse, clear_items,
  usermeta_clear, pv_metadata_parse_usermeta,
}
use pantavisor.Metadata.Lookup.{
  look, IsUnique, look-get, look-set_updated, look-add, look-del_absent, look-del,
  set_updated-IsUnique, del-IsUnique, add-IsUnique,
}

-- What was sent for a key: the last value that is no primitive `null`.
abbrev pub sent_value : List JsonItem → String → Option String
sent_value [] k = none
sent_value (i ∷ items) k = elim (sent_value items k) [
  | some v ↦ some v
  | none ↦
      if str_eq k i.key && (not i.primitive || not (str_eq "null" i.value))
      then some i.value
      else none
]

-- A text without user metadata sends nothing.
abbrev pub sent : Option (List JsonItem) → String → Option String
sent none k = none
sent (some items) k = sent_value items k

pub look-add_usermeta :
    (key value k : String) (d : Metadata)
    → look (pv_metadata_add_usermeta key value d).0.usermeta k
      ≡ (if str_eq k key then some (value, true) else look d.usermeta k)
unfolding pv_metadata_add_usermeta
look-add_usermeta key value k d = ground (
  arith,
  look-set_updated (pv_metadata_add d.usermeta key value).0 key true k,
  look-add d.usermeta key value k,
  look-add d.usermeta key value key,
  eq_refl key,
  eq_iff k key,
)

pub add_usermeta-IsUnique :
    (key value : String) (d : Metadata)
    → IsUnique d.usermeta
    → IsUnique (pv_metadata_add_usermeta key value d).0.usermeta
unfolding pv_metadata_add_usermeta
add_usermeta-IsUnique key value d u =
    let ms = (pv_metadata_add d.usermeta key value).0 in
    ground (arith, set_updated-IsUnique ms key true (add-IsUnique d.usermeta key value u))

look-add_items :
    (items : List JsonItem) (d : Metadata) (k : String)
    → look (add_items items d).usermeta k
      ≡ elim (sent_value items k) [ none ↦ look d.usermeta k | some v ↦ some (v, true) ]
unfolding add_items
look-add_items [] d k = refl
look-add_items (i ∷ items) d k = ground (
  arith,
  look-add_items items d k,
  look-add_items items (pv_metadata_add_usermeta i.key i.value d).0 k,
  look-add_usermeta i.key i.value k d,
)

pub add_items-IsUnique :
    (items : List JsonItem) (d : Metadata)
    → IsUnique d.usermeta
    → IsUnique (add_items items d).usermeta
unfolding add_items
add_items-IsUnique [] d u = u
add_items-IsUnique (i ∷ items) d u =
    let e = (pv_metadata_add_usermeta i.key i.value d).0 in
    ground (
      arith,
      add_items-IsUnique items d u,
      add_items-IsUnique items e (add_usermeta-IsUnique i.key i.value d u),
    )

pub rm_usermeta-del :
    (key : String) (d : Metadata)
    → (pv_metadata_rm_usermeta key d).0.usermeta ≡ del_by_key d.usermeta key
unfolding pv_metadata_rm_usermeta
rm_usermeta-del key d = elim (Option-cases (pv_metadata_get_by_key d.usermeta key)) [
  | inl n ↦ ground (arith, n, look-get d.usermeta key, look-del_absent d.usermeta key)
  | inr (m, e) ↦ ground (arith, e)
]

-- What clearing leaves of a key: nothing if its item is not flagged, else the item, unflagged.
abbrev cleared : Option (String × Bool) → Option (String × Bool)
cleared none = none
cleared (some (v, u)) = if u then some (v, false) else none

abbrev unflagged : Option (String × Bool) → Option (String × Bool)
unflagged none = none
unflagged (some (v, u)) = some (v, false)

look-clear_items :
    (todo : List Meta) (d : Metadata) (k : String)
    → IsUnique todo
    → IsUnique d.usermeta
    → look (clear_items todo d).usermeta k ≡ elim (look todo k) [
      | none ↦ look d.usermeta k
      | some p ↦ if p.1 then unflagged (look d.usermeta k) else none
    ]
unfolding clear_items
look-clear_items [] d k t u = refl
look-clear_items (m ∷ todo) d k t u =
    let kept = record d { usermeta = set_updated d.usermeta m.key false } in
    let gone = (pv_metadata_rm_usermeta m.key d).0 in
    ground (
      arith,
      t.0,
      look-set_updated d.usermeta m.key false k,
      look-del d.usermeta m.key k u,
      rm_usermeta-del m.key d,
      eq_iff k m.key,
      look-clear_items todo kept k t.1 (set_updated-IsUnique d.usermeta m.key false u),
      look-clear_items todo gone k t.1
          (subst IsUnique (sym (rm_usermeta-del m.key d)) (del-IsUnique d.usermeta m.key u)),
    )

pub clear_items-IsUnique :
    (todo : List Meta) (d : Metadata) → IsUnique d.usermeta → IsUnique (clear_items todo d).usermeta
unfolding clear_items
clear_items-IsUnique [] d u = u
clear_items-IsUnique (m ∷ todo) d u =
    let kept = record d { usermeta = set_updated d.usermeta m.key false } in
    let gone = (pv_metadata_rm_usermeta m.key d).0 in
    ground (
      arith,
      clear_items-IsUnique todo kept (set_updated-IsUnique d.usermeta m.key false u),
      clear_items-IsUnique todo gone
          (subst IsUnique (sym (rm_usermeta-del m.key d)) (del-IsUnique d.usermeta m.key u)),
    )

look-clear :
    (d : Metadata) (k : String)
    → IsUnique d.usermeta
    → look (usermeta_clear d).usermeta k ≡ cleared (look d.usermeta k)
unfolding usermeta_clear
look-clear d k u = ground (arith, look-clear_items d.usermeta d k u u)

-- When no two items have the same key, then after a download of the user's metadata a key has the
-- last value that was sent for it, or else, if its item was flagged before, the value it had, or
-- else none; no item is flagged any more. A text without user metadata counts as one that sends
-- nothing.
pub parse_usermeta_syncs :
    (um : Option (List JsonItem)) (d : Metadata) (k : String)
    → IsUnique d.usermeta
    → look (pv_metadata_parse_usermeta um d).usermeta k
      ≡ elim (sent um k) [ some v ↦ some (v, false) | none ↦ cleared (look d.usermeta k) ]
unfolding pv_metadata_parse_usermeta pv_usermeta_parse
parse_usermeta_syncs none d k u = look-clear d k u
parse_usermeta_syncs (some items) d k u =
    let e = add_items items d in
    ground (arith, look-clear e k (add_items-IsUnique items d u), look-add_items items d k)

-- A download leaves no two items with the same key if there were none before.
pub parse_usermeta-IsUnique :
    (um : Option (List JsonItem)) (d : Metadata)
    → IsUnique d.usermeta
    → IsUnique (pv_metadata_parse_usermeta um d).usermeta
unfolding pv_metadata_parse_usermeta pv_usermeta_parse usermeta_clear
parse_usermeta-IsUnique none d u = clear_items-IsUnique d.usermeta d u
parse_usermeta-IsUnique (some items) d u =
    let e = add_items items d in clear_items-IsUnique e.usermeta e (add_items-IsUnique items d u)
