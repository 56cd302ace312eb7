-- ===== src/Settings/Laws.antt =====
-- What a key of the settings has once a file is loaded.
use pantavisor.Prelude.{
  ◌≡◌, refl, String, Bool, true, false, Option, none, some, ◌>>=◌, List, [], ◌∷◌, ◌++◌, str_eq,
  eq_iff, is_some, if◌then◌else◌, arith, All, not, false≢true, Option-cases, inl, inr,
}
use pantavisor.Settings.{
  ConfigItem, _config_get_by_key, set_item, _config_add_item, split_at, drop_last, load_line,
  load_lines, config_get_value,
}

-- A key's value in the list.
abbrev look : List ConfigItem → String → Option String
look [] k = none
look (i ∷ is) k = if str_eq i.key k then some i.value else look is k

get_value-look : (list : List ConfigItem) (k : String) → config_get_value list k ≡ look list k
unfolding config_get_value
get_value-look [] k = refl
get_value-look (i ∷ is) k = ground (arith, get_value-look is k)

look-set_item :
    (list : List ConfigItem) (key value k : String)
    → look (set_item list key value) k ≡ (
        if str_eq key k
        then elim (look list key) [ none ↦ none | some v ↦ some value ]
        else look list k)
unfolding set_item
look-set_item [] key value k = ground arith
look-set_item (i ∷ is) key value k =
    ground (arith, look-set_item is key value k, eq_iff i.key key, eq_iff i.key k, eq_iff key k)

look-snoc :
    (list : List ConfigItem) (i : ConfigItem) (k : String)
    → look (list ++ i ∷ []) k ≡ elim (look list k) [
      | some v ↦ some v
      | none ↦ if str_eq i.key k then some i.value else none
    ]
look-snoc [] i k = refl
look-snoc (j ∷ is) i k = ground (arith, look-snoc is i k)

-- What a key's value is after an item is added for a key, where the call is defined.
abbrev Adds : List ConfigItem → String → String → String → Option (List ConfigItem) → Type 0
Adds list key value k none = Unit
Adds list key value k (some list') =
    look list' k ≡ (if str_eq key k then some value else look list k)

get_by_key-look :
    (list : List ConfigItem) (key : String)
    → look list key ≡ elim (_config_get_by_key list key) as (λ o. Option String) [
      | none ↦ none
      | some i ↦ some i.value
    ]
unfolding _config_get_by_key
get_by_key-look [] key = refl
get_by_key-look (i ∷ is) key = ground (arith, get_by_key-look is key)

add_item-Adds :
    (list : List ConfigItem) (key value k : String)
    → Adds list key value k (_config_add_item list key value)
unfolding _config_add_item
add_item-Adds list key value k = elim (Option-cases (_config_get_by_key list key)) [
  | inl n ↦ ground (
    arith,
    n,
    get_by_key-look list key,
    look-snoc list (record { key = key; value = value }) k,
    eq_iff key k,
  )
  | inr (i, e) ↦ ground (arith, e, get_by_key-look list key, look-set_item list key value k)
]

-- The key and the value of a line, if it has them.
abbrev pub pair_of : String → Option (String × String)
pair_of line = split_at 61 (drop_last line)

-- The line has no empty key.
abbrev pub is_keyed : String → Bool
is_keyed line = elim (pair_of line) [ none ↦ true | some p ↦ not (str_eq p.0 "") ]

-- The value on the last line for a key.
abbrev pub last_value : List String → String → Option String
last_value [] k = none
last_value (line ∷ lines) k = elim (last_value lines k) [
  | some v ↦ some v
  | none ↦ elim (pair_of line) [ none ↦ none | some p ↦ if str_eq p.0 k then some p.1 else none ]
]

-- The call is defined, and gives each key this value.
abbrev Gives : (String → Option String) → Option (List ConfigItem) → Type 0
Gives value_of none = ⊥
Gives value_of (some list) = (k : String) → look list k ≡ value_of k

-- What a line adds to the values there are.
abbrev line_value : Option (String × String) → List ConfigItem → String → Option String
line_value none list k = look list k
line_value (some p) list k = if str_eq p.0 k then some p.1 else look list k

defined :
    (list : List ConfigItem) (p : String × String)
    → str_eq p.0 "" ≡ false
    → is_some (_config_add_item list p.0 p.1) ≡ true
unfolding _config_add_item
defined list p h = elim (Option-cases (_config_get_by_key list p.0)) [
  | inl n ↦ ground (arith, n, h)
  | inr (i, e) ↦ ground (arith, e)
]

add_item-Gives :
    (list : List ConfigItem) (p : String × String)
    → str_eq p.0 "" ≡ false
    → Gives (line_value (some p) list) (_config_add_item list p.0 p.1)
add_item-Gives list p h =
    of_Adds (_config_add_item list p.0 p.1) (defined list p h) (λ k. add_item-Adds list p.0 p.1 k)
  where
    of_Adds :
        (o : Option (List ConfigItem))
        → is_some o ≡ true
        → ((k : String) → Adds list p.0 p.1 k o)
        → Gives (line_value (some p) list) o
    of_Adds none d g = absurd (false≢true d)
    of_Adds (some l) d g = g

load_line-Gives :
    (line : String) (list : List ConfigItem)
    → is_keyed line ≡ true
    → Gives (line_value (pair_of line) list) (load_line line list)
unfolding load_line
load_line-Gives line list h = from_pair (pair_of line) h
  where
    from_pair :
        (o : Option (String × String))
        → elim o as (λ o. Bool) [ none ↦ true | some p ↦ not (str_eq p.0 "") ] ≡ true
        → Gives (line_value o list) (elim o as (λ o. Option (List ConfigItem)) [
          | none ↦ some list
          | some p ↦ _config_add_item list p.0 p.1
        ])
    from_pair none h = λ k. refl
    from_pair (some p) h = add_item-Gives list p (ground (arith, h))

-- The values once the lines are read, and those of the lines that are left.
abbrev all_values : List String → List ConfigItem → String → Option String
all_values lines list k = elim (last_value lines k) [ some v ↦ some v | none ↦ look list k ]

-- After one line, the rest of them go on from the values that it gives.
next-Gives :
    (line : String) (lines : List String) (list l : List ConfigItem) (o : Option (List ConfigItem))
    → ((k : String) → look l k ≡ line_value (pair_of line) list k)
    → Gives (all_values lines l) o
    → Gives (all_values (line ∷ lines) list) o
next-Gives line lines list l none g h = h
next-Gives line lines list l (some m) g h = λ k. elim (Option-cases (pair_of line)) [
  | inl n ↦ ground (arith, n, g k, h k)
  | inr (p, e) ↦ ground (arith, e, g k, h k)
]

then-Gives :
    (value_of : String → Option String) (o : Option (List ConfigItem))
    (f : List ConfigItem → Option (List ConfigItem)) (W : Option (List ConfigItem) → Type 0)
    → Gives value_of o
    → ((l : List ConfigItem) → ((k : String) → look l k ≡ value_of k) → W (f l))
    → W (o >>= f)
then-Gives value_of none f W g h = absurd g
then-Gives value_of (some l) f W g h = h l g

load-Gives :
    (lines : List String) (list : List ConfigItem)
    → All (λ line. is_keyed line ≡ true) lines
    → Gives (all_values lines list) (load_lines lines list)
unfolding load_lines
load-Gives [] list h = λ k. refl
load-Gives (line ∷ lines) list h =
    then-Gives (line_value (pair_of line) list) (load_line line list) _
      (Gives (all_values (line ∷ lines) list)) (load_line-Gives line list h.0)
      (λ l g. next-Gives line lines list l (load_lines lines l) g (load-Gives lines l h.1))

-- When no line has an empty key, the loop over them is defined, and a key then has the value on
-- the last line for it, or else the one it had.
pub load_lines_values :
    (lines : List String) (list : List ConfigItem) (k : String)
    → All (λ line. is_keyed line ≡ true) lines
    → (list' : List ConfigItem) × (load_lines lines list ≡ some list')
      × (config_get_value list' k
          ≡ elim (last_value lines k) [ some v ↦ some v | none ↦ config_get_value list k ])
load_lines_values lines list k h = of_Gives (load_lines lines list) (load-Gives lines list h)
  where
    of_Gives :
        (o : Option (List ConfigItem))
        → Gives (all_values lines list) o
        → (list' : List ConfigItem) × (o ≡ some list')
          × (config_get_value list' k
              ≡ elim (last_value lines k) [ some v ↦ some v | none ↦ config_get_value list k ])
    of_Gives none g = absurd g
    of_Gives (some l) g = (l, refl, ground (arith, get_value-look l k, get_value-look list k, g k))
