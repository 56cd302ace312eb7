-- ===== src/Parser/Link.antt =====
-- Pointers to the platforms of a state while it is parsed: what keeps each of them leading somewhere.
use pantavisor.Prelude.{
  ℕ, ◌≡◌, refl, ap, ◌∙◌, String, Bool, true, false, not, Option, none, some, List, [], ◌∷◌, ◌++◌,
  is_some, if◌then◌else◌, arith, All, Bool-cases, Option-cases, inl, inr, str_eq, ◌&&◌,
}
use pantavisor.Platforms.{
  Platform, is_installed, pv_platform_get_by_name, pv_platforms_remove_not_installed, promote_first,
  set_rest, pv_platforms_default_runlevel,
}
use pantavisor.State.{platform_at, resolves}
use pantavisor.State.Transfer.Pointers.{AllResolve}
use pantavisor.Str.{strtok}
use pantavisor.Parser.RunJson.{update_last}
use pantavisor.Parser.System.{
  addr_named, under_config, first_dir, item_platform, link_item, link_items,
}

-- All but the last satisfy `P`.
abbrev pub AllInit : (Platform → Type 0) → List Platform → Type 0
AllInit P [] = Unit
AllInit P (p ∷ []) = Unit
AllInit P (p ∷ q ∷ ps) = P p × AllInit P (q ∷ ps)

module _ (P : Platform → Type 0) where
  pub AllInit-append : (ps : List Platform) (p : Platform) → All P ps → AllInit P (ps ++ p ∷ [])
  AllInit-append [] p h = tt
  AllInit-append (q ∷ []) p h = (h.0, tt)
  AllInit-append (q ∷ r ∷ ps) p h = (h.0, AllInit-append (r ∷ ps) p h.1)

  pub All-append : (ps : List Platform) (p : Platform) → All P ps → P p → All P (ps ++ p ∷ [])
  All-append [] p h k = (k, tt)
  All-append (q ∷ ps) p h k = (h.0, All-append ps p h.1 k)

  module _ (f : Platform → Platform) where
    pub AllInit-update : (ps : List Platform) → AllInit P ps → AllInit P (update_last f ps)
    AllInit-update [] h = tt
    AllInit-update (p ∷ []) h = tt
    AllInit-update (p ∷ q ∷ []) h = h
    AllInit-update (p ∷ q ∷ r ∷ ps) h = (h.0, AllInit-update (q ∷ r ∷ ps) h.1)

    pub All-finish :
        (ps : List Platform) → ((p : Platform) → P (f p)) → AllInit P ps → All P (update_last f ps)
    All-finish [] k h = tt
    All-finish (p ∷ []) k h = (k p, tt)
    All-finish (p ∷ q ∷ ps) k h = (h.0, All-finish (q ∷ ps) k h.1)

    pub All-update :
        (ps : List Platform)
        → ((p : Platform) → P p → P (f p))
        → All P ps
        → All P (update_last f ps)
    All-update [] k h = tt
    All-update (p ∷ []) k h = (k p h.0, tt)
    All-update (p ∷ q ∷ ps) k h = (h.0, All-update (q ∷ ps) k h.1)

-- The same addresses, in the same order.
abbrev pub SameAddrs : List Platform → List Platform → Type 0
SameAddrs ps qs = (a : Option ℕ) → resolves ps a ≡ true → resolves qs a ≡ true

pub update_last-SameAddrs :
    (f : Platform → Platform) (ps : List Platform)
    → ((p : Platform) → (f p).addr ≡ p.addr)
    → SameAddrs ps (update_last f ps)
unfolding platform_at
update_last-SameAddrs f ps k none h = refl
update_last-SameAddrs f [] k (some a) h = h
update_last-SameAddrs f (p ∷ []) k (some a) h = ground (arith, h, k p)
update_last-SameAddrs f (p ∷ q ∷ ps) k (some a) h =
    ground (arith, h, update_last-SameAddrs f (q ∷ ps) k (some a))

pub set_rest-SameAddrs : (ps : List Platform) → SameAddrs ps (set_rest ps)
unfolding platform_at set_rest
set_rest-SameAddrs ps none h = refl
set_rest-SameAddrs [] (some a) h = h
set_rest-SameAddrs (p ∷ ps) (some a) h = ground (arith, h, set_rest-SameAddrs ps (some a))

promote_first-SameAddrs : (ps : List Platform) → SameAddrs ps (promote_first ps)
unfolding platform_at promote_first
promote_first-SameAddrs ps none h = refl
promote_first-SameAddrs [] (some a) h = h
promote_first-SameAddrs (p ∷ ps) (some a) h = ground (arith, h, promote_first-SameAddrs ps (some a))

pub default_runlevel-SameAddrs :
    (ps : List Platform) → SameAddrs ps (pv_platforms_default_runlevel ps)
unfolding pv_platforms_default_runlevel
default_runlevel-SameAddrs ps a h = ground (
  arith,
  set_rest-SameAddrs ps a h,
  set_rest-SameAddrs (promote_first ps) a (promote_first-SameAddrs ps a h),
)

pub AllResolve-map :
    {A : Type 0} (plat : A → Option ℕ) (ps qs : List Platform) (xs : List A)
    → SameAddrs ps qs
    → AllResolve plat ps xs
    → AllResolve plat qs xs
AllResolve-map plat ps qs [] k h = tt
AllResolve-map plat ps qs (x ∷ xs) k h = (k (plat x) h.0, AllResolve-map plat ps qs xs k h.1)

abbrev pub IsInst : Platform → Type 0
IsInst p = is_installed p.status ≡ true

pub remove_not_installed-same :
    (ps : List Platform) → All IsInst ps → pv_platforms_remove_not_installed ps ≡ ps
unfolding pv_platforms_remove_not_installed
remove_not_installed-same [] h = refl
remove_not_installed-same (p ∷ ps) h = ground (arith, h.0, remove_not_installed-same ps h.1)

named-resolves :
    (ps : List Platform) (name : String) (p : Platform)
    → pv_platform_get_by_name ps name ≡ some p
    → resolves ps (some p.addr) ≡ true
unfolding platform_at pv_platform_get_by_name
named-resolves [] name p h = ground (arith, h)
named-resolves (q ∷ ps) name p h = elim (Bool-cases (str_eq q.name name)) [
  | inl y ↦ ground (arith, y, h)
  | inr n ↦ ground (arith, n, h, named-resolves ps name p)
]

addr_named-resolves : (ps : List Platform) (name : String) → resolves ps (addr_named ps name) ≡ true
addr_named-resolves ps name = elim (Option-cases (pv_platform_get_by_name ps name)) [
  | inl n ↦ ground (arith, n)
  | inr (p, e) ↦ ground (arith, e, named-resolves ps name p e)
]

-- What there is satisfies `P`.
abbrev pub OptP : {A : Type 0} → (A → Type 0) → Option A → Type 0
OptP P none = Unit
OptP P (some a) = P a

pub if-OptP :
    {A : Type 0} (P : A → Type 0) (b : Bool) (o q : Option A)
    → OptP P o
    → OptP P q
    → OptP P (if b then o else q)
if-OptP P true o q h k = h
if-OptP P false o q h k = k

abbrev PlatOk : List Platform → Option ℕ × Bool → Type 0
PlatOk ps r = resolves ps r.0 ≡ true

under_config-PlatOk :
    (ps : List Platform) (o : Option (String × String)) → OptP (PlatOk ps) (under_config ps o)
under_config-PlatOk [] none = refl
under_config-PlatOk (p ∷ ps) none = tt
under_config-PlatOk [] (some t) = addr_named-resolves [] t.0
under_config-PlatOk (p ∷ ps) (some t) = addr_named-resolves (p ∷ ps) t.0

first_dir-PlatOk :
    (ps : List Platform) (o : Option (String × String)) → OptP (PlatOk ps) (first_dir ps o)
first_dir-PlatOk ps none = tt
first_dir-PlatOk ps (some t) =
    if-OptP (PlatOk ps) (str_eq t.0 "_config") (under_config ps (strtok t.1 47)) _
      (under_config-PlatOk ps (strtok t.1 47)) (addr_named-resolves ps t.0)

module _ {A : Type 0} (name_of : A → String) (set_plat : Option ℕ → A → A) (plat_of : A → Option ℕ)
    (plat_set : (plat : Option ℕ) (x : A) → plat_of (set_plat plat x) ≡ plat) where
  link_item-AllResolve :
      (ps : List Platform) (x : A) (r : Option (Option ℕ × Bool)) (rest : Option (List A))
      → OptP (PlatOk ps) r
      → OptP (AllResolve plat_of ps) rest
      → OptP (AllResolve plat_of ps) (link_item set_plat x r rest)
  link_item-AllResolve ps x none rest h k = tt
  link_item-AllResolve ps x (some r) none h k = tt
  link_item-AllResolve ps x (some r) (some ys) h k =
      if-All (r.1 && not (is_some r.0)) (ap (resolves ps) (plat_set r.0 x) ∙ h)
    where
      if-All :
          (b : Bool)
          → resolves ps (plat_of (set_plat r.0 x)) ≡ true
          → AllResolve plat_of ps (if b then ys else set_plat r.0 x ∷ ys)
      if-All true e = k
      if-All false e = (e, k)

  -- After the linking every pointer leads somewhere.
  pub link_items-AllResolve :
      (ps : List Platform) (xs : List A)
      → OptP (AllResolve plat_of ps) (link_items name_of set_plat ps xs)
  unfolding link_items
  link_items-AllResolve ps [] = tt
  link_items-AllResolve ps (x ∷ xs) =
      link_item-AllResolve ps x (item_platform ps (name_of x)) (link_items name_of set_plat ps xs)
        (first_dir-PlatOk ps (strtok (name_of x) 47)) (link_items-AllResolve ps xs)
