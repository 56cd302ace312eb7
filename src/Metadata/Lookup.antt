-- ===== src/Metadata/Lookup.antt =====
-- What the operations on a list of metadata do to the value of each key.
use pantavisor.Prelude.{
  ◌≡◌, refl, String, Bool, true, false, Option, none, some, List, [], ◌∷◌, str_eq, eq_iff,
  if◌then◌else◌, arith, Option-cases, inl, inr,
}
use pantavisor.Metadata.{
  Meta, pv_metadata_get_by_key, set_value, set_updated, del_by_key, pv_metadata_add,
}

-- A key's value and its flag.
abbrev pub look : List Meta → String → Option (String × Bool)
look [] key = none
look (m ∷ ms) key = if str_eq key m.key then some (m.value, m.updated) else look ms key

-- No two items have the same key.
abbrev pub IsUnique : List Meta → Type 0
IsUnique [] = Unit
IsUnique (m ∷ ms) = (look ms m.key ≡ none) × IsUnique ms

pub key_eq : (s t : String) → str_eq s t ≡ true → s ≡ t
key_eq s t h = ground (arith, eq_iff s t)

pub look-get :
    (ms : List Meta) (key : String)
    → look ms key
      ≡ elim (pv_metadata_get_by_key ms key) [ none ↦ none | some m ↦ some (m.value, m.updated) ]
unfolding pv_metadata_get_by_key
look-get [] key = refl
look-get (m ∷ ms) key = ground (arith, look-get ms key)

pub get-key :
    (ms : List Meta) (key : String) (m : Meta)
    → pv_metadata_get_by_key ms key ≡ some m
    → m.key ≡ key
unfolding pv_metadata_get_by_key
get-key [] key m h = ground (arith, h)
get-key (n ∷ ms) key m h = ground (arith, get-key ms key m, key_eq key n.key)

pub look-set_updated :
    (ms : List Meta) (key : String) (u : Bool) (k : String)
    → look (set_updated ms key u) k ≡ (
        if str_eq k key
        then elim (look ms key) [ none ↦ none | some p ↦ some (p.0, u) ]
        else look ms k)
unfolding set_updated
look-set_updated [] key u k = ground arith
look-set_updated (m ∷ ms) key u k =
    ground (arith, look-set_updated ms key u k, eq_iff k key, eq_iff key m.key, eq_iff k m.key)

pub look-set_value :
    (ms : List Meta) (key value k : String)
    → look (set_value ms key value) k ≡ (
        if str_eq k key
        then elim (look ms key) [ none ↦ none | some p ↦ some (value, p.1) ]
        else look ms k)
unfolding set_value
look-set_value [] key value k = ground arith
look-set_value (m ∷ ms) key value k =
    ground (arith, look-set_value ms key value k, eq_iff k key, eq_iff key m.key, eq_iff k m.key)

-- A key that an item is found for is added with its old flag, a new one without.
pub look-add :
    (ms : List Meta) (key value k : String)
    → look (pv_metadata_add ms key value).0 k ≡ (
        if str_eq k key
        then some (value, elim (look ms key) [ none ↦ false | some p ↦ p.1 ])
        else look ms k)
unfolding pv_metadata_add
look-add ms key value k = elim (Option-cases (pv_metadata_get_by_key ms key)) [
  | inl n ↦ ground (arith, n, look-get ms key)
  | inr (m, e) ↦
      ground (
        arith,
        e,
        look-get ms key,
        look-set_value ms key value k,
        eq_iff m.value value,
        eq_iff k key,
      )
]

pub look-del_absent : (ms : List Meta) (key : String) → look ms key ≡ none → del_by_key ms key ≡ ms
unfolding del_by_key
look-del_absent [] key h = refl
look-del_absent (m ∷ ms) key h = ground (arith, h, look-del_absent ms key)

pub look-del :
    (ms : List Meta) (key k : String)
    → IsUnique ms
    → look (del_by_key ms key) k ≡ (if str_eq k key then none else look ms k)
unfolding del_by_key
look-del [] key k u = ground arith
look-del (m ∷ ms) key k u =
    ground (arith, u.0, look-del ms key k u.1, eq_iff k key, eq_iff key m.key, eq_iff k m.key)

pub set_updated-IsUnique :
    (ms : List Meta) (key : String) (u : Bool) → IsUnique ms → IsUnique (set_updated ms key u)
unfolding set_updated
set_updated-IsUnique [] key u h = tt
set_updated-IsUnique (m ∷ ms) key u h = ground (
  arith,
  h.0,
  h.1,
  set_updated-IsUnique ms key u h.1,
  look-set_updated ms key u m.key,
  eq_iff m.key key,
)

pub set_value-IsUnique :
    (ms : List Meta) (key value : String) → IsUnique ms → IsUnique (set_value ms key value)
unfolding set_value
set_value-IsUnique [] key value h = tt
set_value-IsUnique (m ∷ ms) key value h = ground (
  arith,
  h.0,
  h.1,
  set_value-IsUnique ms key value h.1,
  look-set_value ms key value m.key,
  eq_iff m.key key,
)

pub del-IsUnique : (ms : List Meta) (key : String) → IsUnique ms → IsUnique (del_by_key ms key)
unfolding del_by_key
del-IsUnique [] key h = tt
del-IsUnique (m ∷ ms) key h =
    ground (arith, h.0, h.1, del-IsUnique ms key h.1, look-del ms key m.key h.1, eq_iff m.key key)

pub add-IsUnique :
    (ms : List Meta) (key value : String) → IsUnique ms → IsUnique (pv_metadata_add ms key value).0
unfolding pv_metadata_add
add-IsUnique ms key value h = elim (Option-cases (pv_metadata_get_by_key ms key)) [
  | inl n ↦ ground (arith, n, h, look-get ms key)
  | inr (m, e) ↦ ground (arith, e, h, set_value-IsUnique ms key value h)
]
