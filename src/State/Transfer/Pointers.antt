-- ===== src/State/Transfer/Pointers.antt =====
-- After `pv_state_transfer` no item points to a platform that was freed or left behind.
use pantavisor.Prelude.{
  ℕ, String, true, false, ◌≡◌, ◌≢◌, refl, inl, inr, Option, none, some, List, [], ◌∷◌, ◌++◌,
  is_some, if◌then◌else◌, arith, All, eq_iff, str_eq, Option-cases,
}
use mathlib.Core.List.{append-nil, append_assoc}
use pantavisor.Platforms.{Platform, is_started, pv_platform_get_by_name}
use pantavisor.State.{PvState, PvObject, PvJson, PvVolume, platform_at, resolves}
use pantavisor.State.Transfer.{
  remove_linked, remove_unstarted, pv_state_remove_platforms, Split, transfer_linked,
  transfer_platforms, pv_state_transfer_platforms, pv_state_transfer,
}

-- The call has a result, and it satisfies `P`.
abbrev pub Returns : {A : Type 0} → (A → Type 0) → Option A → Type 0
Returns P none = ⊥
Returns P (some a) = P a

pub Returns-some :
    {A : Type 0} (P : A → Type 0) (o : Option A) → Returns P o → (a : A) × (o ≡ some a) × P a
Returns-some P none h = absurd h
Returns-some P (some a) h = (a, refl, h)

-- Every pointer of a list of items leads to a platform of the list `ps`.
abbrev pub AllResolve : {A : Type 0} → (A → Option ℕ) → List Platform → List A → Type 0
AllResolve plat ps xs = All (λ x. resolves ps (plat x) ≡ true) xs

abbrev pub IsLinked : PvState → Type 0
IsLinked s =
    AllResolve (λ (j : PvJson). j.plat) s.platforms s.jsons
    × AllResolve (λ (o : PvObject). o.plat) s.platforms s.objects
    × AllResolve (λ (v : PvVolume). v.plat) s.platforms s.volumes

-- A started platform is found at its address after the others are removed.
platform_at-remove_unstarted :
    (ps : List Platform) (a : ℕ) (p : Platform)
    → platform_at ps a ≡ some p
    → is_started p.status ≡ true
    → platform_at (remove_unstarted ps) a ≡ some p
unfolding platform_at remove_unstarted
platform_at-remove_unstarted [] a p h s = cc
platform_at-remove_unstarted (q ∷ ps) a p h s = ground (arith, platform_at-remove_unstarted ps a p)

pub resolves-append_one :
    (ps qs : List Platform) (a : Option ℕ) → resolves ps a ≡ true → resolves (ps ++ qs) a ≡ true
unfolding platform_at
resolves-append_one ps qs none h = refl
resolves-append_one [] qs (some a) h = cc
resolves-append_one (p ∷ ps) qs (some a) h = ground (arith, resolves-append_one ps qs (some a))

module _ {A : Type 0} (plat : A → Option ℕ) where
  remove_linked-AllResolve :
      (ps : List Platform) (xs : List A)
      → AllResolve plat ps xs
      → Returns (AllResolve plat (remove_unstarted ps)) (remove_linked plat ps xs)
  unfolding remove_linked
  remove_linked-AllResolve ps [] h = tt
  remove_linked-AllResolve ps (x ∷ xs) h = elim (Option-cases (plat x)) [
    | inl e ↦ ground (arith, e, remove_linked-AllResolve ps xs h.1)
    | inr (a, e) ↦ elim (Option-cases (platform_at ps a)) [
      | inl f ↦ absurd (ground (arith, e, f, h.0))
      | inr (p, f) ↦
          ground
            (arith, e, f, remove_linked-AllResolve ps xs h.1, platform_at-remove_unstarted ps a p f)
    ]
  ]

  -- Nothing points to a removed platform, and what is kept stays where it was.
  resolves-append :
      (ps qs : List Platform) (xs : List A) → AllResolve plat ps xs → AllResolve plat (ps ++ qs) xs
  resolves-append ps qs [] h = tt
  resolves-append ps qs (x ∷ xs) h =
      (resolves-append_one ps qs (plat x) h.0, resolves-append ps qs xs h.1)

  AllResolve-append :
      (ps : List Platform) (xs ys : List A)
      → AllResolve plat ps xs
      → AllResolve plat ps ys
      → AllResolve plat ps (xs ++ ys)
  AllResolve-append ps [] ys h k = k
  AllResolve-append ps (x ∷ xs) ys h k = (h.0, AllResolve-append ps xs ys h.1 k)

-- No two platforms of the list share a name.
abbrev pub UniqueNames : List Platform → Type 0
UniqueNames [] = Unit
UniqueNames (p ∷ ps) = All (λ q. p.name ≢ q.name) ps × UniqueNames ps

-- The platforms of `ins` whose name `outs` does not know.
abbrev pub new_platforms : List Platform → List Platform → List Platform
new_platforms outs [] = []
new_platforms outs (p ∷ ps) =
    if is_some (pv_platform_get_by_name outs p.name)
    then new_platforms outs ps
    else p ∷ new_platforms outs ps

get_by_name-append :
    (ps : List Platform) (q : Platform) (name : String)
    → is_some (pv_platform_get_by_name (ps ++ q ∷ []) name)
      ≡ (if is_some (pv_platform_get_by_name ps name) then true else str_eq q.name name)
unfolding pv_platform_get_by_name
get_by_name-append [] q name = ground arith
get_by_name-append (p ∷ ps) q name = ground (arith, get_by_name-append ps q name)

new_platforms-snoc :
    (outs : List Platform) (q : Platform) (ps : List Platform)
    → All (λ p. q.name ≢ p.name) ps
    → new_platforms (outs ++ q ∷ []) ps ≡ new_platforms outs ps
new_platforms-snoc outs q [] h = refl
new_platforms-snoc outs q (p ∷ ps) h = ground (
  arith,
  h.0,
  eq_iff q.name p.name,
  get_by_name-append outs q p.name,
  new_platforms-snoc outs q ps h.1,
)

-- With unique names the platforms loop moves exactly the new ones.
pub transfer_platforms-new :
    (ins outs : List Platform)
    → UniqueNames ins
    → (transfer_platforms ins outs).1 ≡ outs ++ new_platforms outs ins
unfolding transfer_platforms
transfer_platforms-new [] outs h = rw append-nil
transfer_platforms-new (p ∷ ps) outs h = elim (Option-cases (pv_platform_get_by_name outs p.name)) [
  | inl e ↦ ground (
    arith,
    e,
    transfer_platforms-new ps (outs ++ p ∷ []) h.1,
    new_platforms-snoc outs p ps h.0,
    append_assoc outs (p ∷ []) (new_platforms outs ps),
  )
  | inr (q, e) ↦ ground (arith, e, transfer_platforms-new ps outs h.1)
]

platform_at-new_platforms :
    (outs ps : List Platform) (a : ℕ) (p : Platform)
    → platform_at ps a ≡ some p
    → is_some (pv_platform_get_by_name outs p.name) ≡ false
    → platform_at (new_platforms outs ps) a ≡ some p
unfolding platform_at
platform_at-new_platforms outs [] a p h n = cc
platform_at-new_platforms outs (q ∷ ps) a p h n =
    ground (arith, platform_at-new_platforms outs ps a p)

resolves-append_right :
    (ps qs : List Platform) (a : ℕ) (p : Platform)
    → platform_at qs a ≡ some p
    → resolves (ps ++ qs) (some a) ≡ true
unfolding platform_at
resolves-append_right [] qs a p h = ground (arith, h)
resolves-append_right (q ∷ ps) qs a p h = ground (arith, resolves-append_right ps qs a p h)

-- Every item that is moved points to a platform that is moved with it.
transfer_linked-AllResolve :
    {A : Type 0} (plat : A → Option ℕ) (ins outs : List Platform) (xs : List A)
    → AllResolve plat ins xs
    → Returns
        (λ (r : Split A). AllResolve plat (outs ++ new_platforms outs ins) r.moved)
        (transfer_linked plat ins outs xs)
unfolding transfer_linked
transfer_linked-AllResolve plat ins outs [] h = tt
transfer_linked-AllResolve plat ins outs (x ∷ xs) h = elim (Option-cases (plat x)) [
  | inl e ↦ ground (arith, e, transfer_linked-AllResolve plat ins outs xs h.1)
  | inr (a, e) ↦ elim (Option-cases (platform_at ins a)) [
    | inl f ↦ absurd (ground (arith, e, f, h.0))
    | inr (p, f) ↦ ground (
      arith,
      e,
      f,
      transfer_linked-AllResolve plat ins outs xs h.1,
      platform_at-new_platforms outs ins a p f,
      resolves-append_right outs (new_platforms outs ins) a p,
    )
  ]
]

remove_platforms-IsLinked :
    (out : PvState) → IsLinked out → Returns IsLinked (pv_state_remove_platforms out)
unfolding pv_state_remove_platforms
remove_platforms-IsLinked out h = ground (
  arith,
  remove_linked-AllResolve (λ (j : PvJson). j.plat) out.platforms out.jsons h.0,
  remove_linked-AllResolve (λ (o : PvObject). o.plat) out.platforms out.objects h.1,
  remove_linked-AllResolve (λ (v : PvVolume). v.plat) out.platforms out.volumes h.2,
)

moved_in :
    {A : Type 0} (plat : A → Option ℕ) (outs news : List Platform) (xs ys : List A)
    → AllResolve plat outs xs
    → AllResolve plat (outs ++ news) ys
    → AllResolve plat (outs ++ news) (xs ++ ys)
moved_in plat outs news xs ys h k =
    AllResolve-append plat (outs ++ news) xs ys (resolves-append plat outs news xs h) k

transfer_platforms-IsLinked :
    (ins out : PvState)
    → IsLinked ins
    → IsLinked out
    → UniqueNames ins.platforms
    → Returns (λ (r : PvState × PvState). IsLinked r.1) (pv_state_transfer_platforms ins out)
unfolding pv_state_transfer_platforms
transfer_platforms-IsLinked ins out hi ho u =
    let olds = out.platforms in
    let news = new_platforms olds ins.platforms in
    let (js, ej, pj) =
      Returns-some
        (λ (r : Split PvJson). AllResolve (λ (j : PvJson). j.plat) (olds ++ news) r.moved)
        (transfer_linked (λ (j : PvJson). j.plat) ins.platforms olds ins.jsons)
        (transfer_linked-AllResolve (λ (j : PvJson). j.plat) ins.platforms olds ins.jsons hi.0) in
    let (os, eo, po) =
      Returns-some
        (λ (r : Split PvObject). AllResolve (λ (o : PvObject). o.plat) (olds ++ news) r.moved)
        (transfer_linked (λ (o : PvObject). o.plat) ins.platforms olds ins.objects)
        (transfer_linked-AllResolve (λ (o : PvObject). o.plat) ins.platforms olds ins.objects
          hi.1) in
    let (vs, ev, pv) =
      Returns-some
        (λ (r : Split PvVolume). AllResolve (λ (v : PvVolume). v.plat) (olds ++ news) r.moved)
        (transfer_linked (λ (v : PvVolume). v.plat) ins.platforms olds ins.volumes)
        (transfer_linked-AllResolve (λ (v : PvVolume). v.plat) ins.platforms olds ins.volumes
          hi.2) in
    rw (ej, pv_state_transfer_platforms)
      (rw (eo, pv_state_transfer_platforms)
        (rw (ev, pv_state_transfer_platforms)
          (rw (transfer_platforms-new ins.platforms olds u) (
            moved_in (λ (j : PvJson). j.plat) olds news out.jsons js.moved ho.0 pj,
            moved_in (λ (o : PvObject). o.plat) olds news out.objects os.moved ho.1 po,
            moved_in (λ (v : PvVolume). v.plat) olds news out.volumes vs.moved ho.2 pv,
          ))))

-- If in both states every pointer of an item leads to a platform of its state, and no two platforms
-- of the incoming state share a name, the transfer reads through no dangling pointer, and every
-- pointer of the resulting state leads to a platform of that state.
pub pv_state_transfer-IsLinked :
    (ins out : PvState)
    → IsLinked ins
    → IsLinked out
    → UniqueNames ins.platforms
    → Returns (λ (r : PvState × PvState). IsLinked r.1) (pv_state_transfer ins out)
unfolding pv_state_transfer
pv_state_transfer-IsLinked ins out hi ho u =
    let (left, el, hl) =
      Returns-some IsLinked (pv_state_remove_platforms out) (remove_platforms-IsLinked out ho) in
    let (r, er, hr) =
      Returns-some (λ (r : PvState × PvState). IsLinked r.1) (pv_state_transfer_platforms ins left)
        (transfer_platforms-IsLinked ins left hi hl u) in
    rw (el, pv_state_transfer) (rw (er, pv_state_transfer) hr)
