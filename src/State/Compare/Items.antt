-- ===== src/State/Compare/Items.antt =====
-- What the loops of `pv_state_compare_states` over objects and jsons do to runlevel and platforms.
use pantavisor.Prelude.{
  ℕ, String, ◌≡◌, refl, sym, ap, ◌∙◌, ◌⊎◌, inl, inr, Option, none, some, false, str_eq, eq_iff, Any,
  List, [], ◌∷◌, arith, All, Bool-cases, Option-cases,
}
use pantavisor.Prelude.Int.{ℤ, ◌≤ℤ◌}
use pantavisor.Platforms.{Platform}
use pantavisor.State.{platform_at, get_by_name}
use pantavisor.State.Compare.{
  mark_updated, is_changed, mark_old, changed_step, compare_changed, deleted_step, compare_deleted,
}
use pantavisor.State.Compare.Laws.{
  Ensures, Ensures-map, Ensures-all, then_compare-Ensures, level_at, CoversPointer,
  CoversPointer-weaken, level_at-platform_at, level_at-mark_updated, Lowers,
}

module _ {A : Type 0} (name_of content : A → String) (plat : A → Option ℕ) where
  -- The list has an item of the same name and content.
  abbrev pub IsAmong : List A → A → Type 0
  IsAmong items x = Any (λ c. (name_of c ≡ name_of x) × (content c ≡ content x)) items

  abbrev pub IsNamed : List A → A → Type 0
  IsNamed items x = Any (λ c. name_of c ≡ name_of x) items

  get_by_name-IsNamed :
      (xs : List A) (x c : A) → get_by_name name_of xs (name_of x) ≡ some c → IsNamed xs x
  unfolding get_by_name
  get_by_name-IsNamed [] x c h = ground (arith, h)
  get_by_name-IsNamed (y ∷ ys) x c h =
      ground (arith, h, eq_iff (name_of y) (name_of x), get_by_name-IsNamed ys x c)

  get_by_name-IsAmong :
      (xs : List A) (x c : A)
      → get_by_name name_of xs (name_of x) ≡ some c
      → content x ≡ content c
      → IsAmong xs x
  unfolding get_by_name
  get_by_name-IsAmong [] x c h k = ground (arith, h)
  get_by_name-IsAmong (y ∷ ys) x c h k = elim (Bool-cases (str_eq (name_of y) (name_of x))) [
    | inl e ↦
        let same : some y ≡ some c = ground (arith, h, e) in
        inl ((eq_iff (name_of y) (name_of x)).0 e, same_content y c same ∙ sym k)
    | inr e ↦ inr (get_by_name-IsAmong ys x c (ground (arith, h, e)) k)
  ]
    where
      same_content : (y c : A) → some y ≡ some c → content y ≡ content c
      same_content y c e = ap (λ o. elim o as (λ o. String) [ none ↦ "" | some z ↦ content z ]) e

  unchanged-IsAmong :
      (currents : List A) (x : A)
      → is_changed name_of content plat currents x ≡ false
      → IsAmong currents x
  unchanged-IsAmong currents x h = elim (Option-cases (get_by_name name_of currents (name_of x))) [
    | inl e ↦ ground (arith, h, e)
    | inr (c, e) ↦
        get_by_name-IsAmong currents x c e (ground (arith, h, e, eq_iff (content x) (content c)))
  ]

  -- An item is covered unless the running state has one of the same name and content.
  abbrev pub CoversChanged : List Platform → List A → ℤ → A → Type 0
  CoversChanged pendings currents r x = IsAmong currents x ⊎ CoversPointer pendings r (plat x)

  pub level_at-mark_old :
      (currents : List A) (x : A) (ps qs : List Platform) (b : ℕ)
      → mark_old name_of content plat currents x ps ≡ some qs
      → level_at qs b ≡ level_at ps b
  level_at-mark_old currents x ps qs b h =
      elim (Option-cases (get_by_name name_of currents (name_of x))) [
        | inl e ↦ ground (arith, e)
        | inr (c, e) ↦ elim (Option-cases (plat c)) [
          | inl f ↦ ground (arith, e, f)
          | inr (a, f) ↦ level_at-mark_updated ps qs a b (ground (arith, e, f))
        ]
      ]

  pub changed_step-Lowers :
      (pendings : List Platform) (currents : List A) (x : A) (runlevel : ℤ) (ps : List Platform)
      (b : ℕ)
      → Ensures
          (λ r qs. Lowers b runlevel ps r qs × CoversChanged pendings currents r x)
          (changed_step name_of content plat pendings currents x runlevel ps)
  unfolding changed_step
  changed_step-Lowers pendings currents x runlevel ps b =
      elim (Bool-cases (is_changed name_of content plat currents x)) [
        | inr same ↦
            rw (same, changed_step) ((omega arith, refl), inl (unchanged-IsAmong currents x same))
        | inl new ↦ elim (Option-cases (plat x)) [
          | inl e ↦ rw (new, changed_step) (rw (e, changed_step) tt)
          | inr (a, e) ↦ elim (Option-cases (mark_old name_of content plat currents x ps)) [
            | inl f ↦ ground (arith, new, e, f)
            | inr (qs, f) ↦ elim (Option-cases (platform_at pendings a)) [
              | inl g ↦ ground (arith, new, e, f, g)
              | inr (p, g) ↦ ground (
                arith,
                new,
                e,
                f,
                g,
                level_at-mark_old currents x ps qs b f,
                level_at-platform_at pendings a p g,
              )
            ]
          ]
        ]
      ]

  pub CoversChanged-weaken :
      (pendings : List Platform) (currents : List A) (r s : ℤ) (x : A)
      → s ≤ℤ r
      → CoversChanged pendings currents r x
      → CoversChanged pendings currents s x
  CoversChanged-weaken pendings currents r s x l (inl same) = inl same
  CoversChanged-weaken pendings currents r s x l (inr h) =
      inr (CoversPointer-weaken pendings r s (plat x) l h)

  -- Every changed item of the list is covered.
  pub compare_changed-Lowers :
      (pendings : List Platform) (currents xs : List A) (runlevel : ℤ) (ps : List Platform) (b : ℕ)
      → Ensures
          (λ r qs. Lowers b runlevel ps r qs × All (CoversChanged pendings currents r) xs)
          (compare_changed name_of content plat pendings currents xs runlevel ps)
  unfolding compare_changed
  compare_changed-Lowers pendings currents [] runlevel ps b = ((omega arith, refl), tt)
  compare_changed-Lowers pendings currents (x ∷ xs) runlevel ps b =
      then_compare-Ensures (λ r qs. Lowers b runlevel ps r qs × CoversChanged pendings currents r x)
        (λ r qs. Lowers b runlevel ps r qs × All (CoversChanged pendings currents r) (x ∷ xs))
        (changed_step name_of content plat pendings currents x runlevel ps)
        (compare_changed name_of content plat pendings currents xs)
        (changed_step-Lowers pendings currents x runlevel ps b)
        (λ r1 ps1 h.
          Ensures-map (λ r qs. Lowers b r1 ps1 r qs × All (CoversChanged pendings currents r) xs)
            (λ r qs. Lowers b runlevel ps r qs × All (CoversChanged pendings currents r) (x ∷ xs))
            (compare_changed name_of content plat pendings currents xs r1 ps1)
            (λ r qs k. (
              (omega arith, k.0.1 ∙ h.0.1),
              (CoversChanged-weaken pendings currents r1 r x k.0.0 h.1, k.1),
            ))
            (compare_changed-Lowers pendings currents xs r1 ps1 b))

  -- An item is covered unless the pending state has one of its name; `olds` are the platforms before
  -- any was marked.
  abbrev pub CoversDeleted : List Platform → List A → ℤ → A → Type 0
  CoversDeleted olds pending_items r x = IsNamed pending_items x ⊎ CoversPointer olds r (plat x)

  pub CoversDeleted-weaken :
      (olds : List Platform) (pending_items : List A) (r s : ℤ) (x : A)
      → s ≤ℤ r
      → CoversDeleted olds pending_items r x
      → CoversDeleted olds pending_items s x
  CoversDeleted-weaken olds pending_items r s x l (inl kept) = inl kept
  CoversDeleted-weaken olds pending_items r s x l (inr h) =
      inr (CoversPointer-weaken olds r s (plat x) l h)

  pub deleted_step-Lowers :
      (olds : List Platform) (pending_items : List A) (x : A) (runlevel : ℤ) (ps : List Platform)
      (b : ℕ)
      → ((a : ℕ) → level_at ps a ≡ level_at olds a)
      → Ensures
          (λ r qs. Lowers b runlevel ps r qs × CoversDeleted olds pending_items r x)
          (deleted_step name_of content plat pending_items x runlevel ps)
  unfolding deleted_step
  deleted_step-Lowers olds pending_items x runlevel ps b same =
      elim (Option-cases (get_by_name name_of pending_items (name_of x))) [
        | inr (y, d) ↦ ground (arith, d, get_by_name-IsNamed pending_items x y d)
        | inl d ↦ elim (Option-cases (plat x)) [
          | inl e ↦ ground (arith, d, e)
          | inr (a, e) ↦ elim (Option-cases (mark_updated a ps)) [
            | inl f ↦ ground (arith, d, e, f)
            | inr (qs, f) ↦ elim (Option-cases (platform_at qs a)) [
              | inl g ↦ ground (arith, d, e, f, g)
              | inr (p, g) ↦ ground (
                arith,
                d,
                e,
                f,
                g,
                same a,
                level_at-mark_updated ps qs a b f,
                level_at-mark_updated ps qs a a f,
                level_at-platform_at qs a p g,
              )
            ]
          ]
        ]
      ]

  pub compare_deleted-Lowers :
      (olds : List Platform) (pending_items xs : List A) (runlevel : ℤ) (ps : List Platform) (b : ℕ)
      → ((a : ℕ) → level_at ps a ≡ level_at olds a)
      → Ensures
          (λ r qs. Lowers b runlevel ps r qs × All (CoversDeleted olds pending_items r) xs)
          (compare_deleted name_of content plat pending_items xs runlevel ps)
  unfolding compare_deleted
  compare_deleted-Lowers olds pending_items [] runlevel ps b same = ((omega arith, refl), tt)
  compare_deleted-Lowers olds pending_items (x ∷ xs) runlevel ps b same =
      then_compare-Ensures
        (λ r qs. (a : ℕ) → Lowers a runlevel ps r qs × CoversDeleted olds pending_items r x)
        (λ r qs. Lowers b runlevel ps r qs × All (CoversDeleted olds pending_items r) (x ∷ xs))
        (deleted_step name_of content plat pending_items x runlevel ps)
        (compare_deleted name_of content plat pending_items xs)
        (Ensures-all (λ a r qs. Lowers a runlevel ps r qs × CoversDeleted olds pending_items r x)
          (deleted_step name_of content plat pending_items x runlevel ps)
          (λ a. deleted_step-Lowers olds pending_items x runlevel ps a same))
        (λ r1 ps1 h.
          Ensures-map (λ r qs. Lowers b r1 ps1 r qs × All (CoversDeleted olds pending_items r) xs)
            (λ r qs. Lowers b runlevel ps r qs × All (CoversDeleted olds pending_items r) (x ∷ xs))
            (compare_deleted name_of content plat pending_items xs r1 ps1)
            (λ r qs k. (
              (omega (arith, (h b).0.0), k.0.1 ∙ (h b).0.1),
              (CoversDeleted-weaken olds pending_items r1 r x k.0.0 (h b).1, k.1),
            ))
            (compare_deleted-Lowers olds pending_items xs r1 ps1 b (λ a. (h a).0.1 ∙ same a)))

  pub All-CoversChanged-weaken :
      (pendings : List Platform) (currents xs : List A) (r s : ℤ)
      → s ≤ℤ r
      → All (CoversChanged pendings currents r) xs
      → All (CoversChanged pendings currents s) xs
  All-CoversChanged-weaken pendings currents [] r s l h = tt
  All-CoversChanged-weaken pendings currents (x ∷ xs) r s l h = (
    CoversChanged-weaken pendings currents r s x l h.0,
    All-CoversChanged-weaken pendings currents xs r s l h.1,
  )

  pub All-CoversDeleted-weaken :
      (olds : List Platform) (pending_items xs : List A) (r s : ℤ)
      → s ≤ℤ r
      → All (CoversDeleted olds pending_items r) xs
      → All (CoversDeleted olds pending_items s) xs
  All-CoversDeleted-weaken olds pending_items [] r s l h = tt
  All-CoversDeleted-weaken olds pending_items (x ∷ xs) r s l h = (
    CoversDeleted-weaken olds pending_items r s x l h.0,
    All-CoversDeleted-weaken olds pending_items xs r s l h.1,
  )
