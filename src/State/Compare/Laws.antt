-- ===== src/State/Compare/Laws.antt =====
-- The platforms loop of `pv_state_compare_states`, and the rules for one loop after another.
use pantavisor.Prelude.{
  ℕ, ◌==◌, ◌≡◌, refl, inl, inr, Option, none, some, List, [], ◌∷◌, if◌then◌else◌, arith, All,
  Option-cases,
}
use pantavisor.Prelude.Int.{ℤ, ◌≤ℤ◌, eqb_ℤ→eq}
use pantavisor.Platforms.{Platform, pv_platform_get_by_name}
use pantavisor.State.{platform_at}
use pantavisor.State.Compare.{
  CompareRun, crash, reboot, go, lower, compare_platforms, mark_updated, then_compare,
}

-- What holds of the runlevel and of the marked platforms, if no reboot is asked for.
abbrev pub Ensures : (ℤ → List Platform → Type 0) → CompareRun → Type 0
Ensures P crash = Unit
Ensures P (reboot ps) = Unit
Ensures P (go runlevel ps) = P runlevel ps

abbrev pub level_at : List Platform → ℕ → Option ℤ
level_at [] a = none
level_at (p ∷ ps) a = if p.addr == a then some p.runlevel else level_at ps a

-- The runlevel is at most that of the platform which a pointer leads to.
abbrev pub CoversLevel : ℤ → Option ℤ → Type 0
CoversLevel r none = ⊥
CoversLevel r (some level) = r ≤ℤ level

abbrev pub CoversPointer : List Platform → ℤ → Option ℕ → Type 0
CoversPointer ps r none = ⊥
CoversPointer ps r (some a) = CoversLevel r (level_at ps a)

pub level_at-platform_at :
    (ps : List Platform) (a : ℕ) (p : Platform)
    → platform_at ps a ≡ some p
    → level_at ps a ≡ some p.runlevel
unfolding platform_at
level_at-platform_at [] a p h = cc
level_at-platform_at (q ∷ ps) a p h = ground (arith, level_at-platform_at ps a p)

pub level_at-mark_updated :
    (ps qs : List Platform) (a b : ℕ) → mark_updated a ps ≡ some qs → level_at qs b ≡ level_at ps b
unfolding mark_updated
level_at-mark_updated [] qs a b h = cc
level_at-mark_updated (p ∷ ps) qs a b h = elim (Option-cases (mark_updated a ps)) [
  | inl e ↦ ground (arith, e)
  | inr (rs, e) ↦ ground (arith, e, level_at-mark_updated ps rs a b e)
]

-- The first loop.
abbrev pub CoversCase : ℤ → Platform → Option Platform → Type 0
CoversCase r p none = r ≤ℤ p.runlevel
CoversCase r p (some q) = q.runlevel ≡ p.runlevel

abbrev pub CoversPlatform : List Platform → ℤ → Platform → Type 0
CoversPlatform pendings r p = CoversCase r p (pv_platform_get_by_name pendings p.name)

pub compare_platforms-le :
    (pendings ps : List Platform) (runlevel : ℤ)
    → Ensures (λ r qs. r ≤ℤ runlevel) (compare_platforms pendings ps runlevel)
unfolding compare_platforms
compare_platforms-le pendings [] runlevel = omega arith
compare_platforms-le pendings (p ∷ ps) runlevel = ground (
  arith,
  compare_platforms-le pendings ps runlevel,
  compare_platforms-le pendings ps (lower p.runlevel runlevel),
)

pub level_at-compare_platforms :
    (pendings ps : List Platform) (runlevel : ℤ) (a : ℕ)
    → Ensures (λ r qs. level_at qs a ≡ level_at ps a) (compare_platforms pendings ps runlevel)
unfolding compare_platforms
level_at-compare_platforms pendings [] runlevel a = refl
level_at-compare_platforms pendings (p ∷ ps) runlevel a = ground (
  arith,
  level_at-compare_platforms pendings ps runlevel a,
  level_at-compare_platforms pendings ps (lower p.runlevel runlevel) a,
)

pub compare_platforms-covers :
    (pendings ps : List Platform) (runlevel : ℤ)
    → Ensures (λ r qs. All (CoversPlatform pendings r) ps) (compare_platforms pendings ps runlevel)
unfolding compare_platforms
compare_platforms-covers pendings [] runlevel = tt
compare_platforms-covers pendings (p ∷ ps) runlevel =
    elim (Option-cases (pv_platform_get_by_name pendings p.name)) [
      | inl e ↦ ground (
        arith,
        e,
        compare_platforms-le pendings ps (lower p.runlevel runlevel),
        compare_platforms-covers pendings ps (lower p.runlevel runlevel),
      )
      | inr (q, e) ↦
          ground (
            arith,
            e,
            eqb_ℤ→eq q.runlevel p.runlevel,
            compare_platforms-covers pendings ps runlevel,
          )
    ]

pub CoversPlatform-weaken :
    (pendings ps : List Platform) (r s : ℤ)
    → s ≤ℤ r
    → All (CoversPlatform pendings r) ps
    → All (CoversPlatform pendings s) ps
CoversPlatform-weaken pendings [] r s l h = tt
CoversPlatform-weaken pendings (p ∷ ps) r s l h =
    (one (pv_platform_get_by_name pendings p.name) h.0, CoversPlatform-weaken pendings ps r s l h.1)
  where
    one : (o : Option Platform) → CoversCase r p o → CoversCase s p o
    one none k = omega arith
    one (some q) k = k

pub CoversPointer-weaken :
    (ps : List Platform) (r s : ℤ) (a : Option ℕ)
    → s ≤ℤ r
    → CoversPointer ps r a
    → CoversPointer ps s a
CoversPointer-weaken ps r s none l h = h
CoversPointer-weaken ps r s (some a) l h = one (level_at ps a) h
  where
    one : (o : Option ℤ) → CoversLevel r o → CoversLevel s o
    one none k = k
    one (some level) k = omega arith

pub then_compare-Ensures :
    (P Q : ℤ → List Platform → Type 0) (m : CompareRun) (next : ℤ → List Platform → CompareRun)
    → Ensures P m
    → ((r : ℤ) (ps : List Platform) → P r ps → Ensures Q (next r ps))
    → Ensures Q (then_compare m next)
then_compare-Ensures P Q crash next h k = tt
then_compare-Ensures P Q (reboot ps) next h k = tt
then_compare-Ensures P Q (go r ps) next h k = k r ps h

pub Ensures-map :
    (P Q : ℤ → List Platform → Type 0) (m : CompareRun)
    → ((r : ℤ) (ps : List Platform) → P r ps → Q r ps)
    → Ensures P m
    → Ensures Q m
Ensures-map P Q crash f h = tt
Ensures-map P Q (reboot ps) f h = tt
Ensures-map P Q (go r ps) f h = f r ps h

pub Ensures-all :
    (R : ℕ → ℤ → List Platform → Type 0) (m : CompareRun)
    → ((b : ℕ) → Ensures (R b) m)
    → Ensures (λ r qs. (b : ℕ) → R b r qs) m
Ensures-all R crash h = tt
Ensures-all R (reboot ps) h = tt
Ensures-all R (go r ps) h = h

pub Ensures-go :
    (P : ℤ → List Platform → Type 0) (m : CompareRun) (r : ℤ) (qs : List Platform)
    → Ensures P m
    → m ≡ go r qs
    → P r qs
Ensures-go P m r qs h e = rw e at h

pub then_compare-eq-go :
    (m : CompareRun) (next : ℤ → List Platform → CompareRun) (r : ℤ) (qs : List Platform)
    → then_compare m next ≡ go r qs
    → (r1 : ℤ) × (ps1 : List Platform) × (m ≡ go r1 ps1) × (next r1 ps1 ≡ go r qs)
then_compare-eq-go crash next r qs h = cc
then_compare-eq-go (reboot ps) next r qs h = cc
then_compare-eq-go (go r1 ps1) next r qs h = (r1, ps1, refl, h)

-- The runlevel does not rise, and the platforms keep theirs.
abbrev pub Lowers : ℕ → ℤ → List Platform → ℤ → List Platform → Type 0
Lowers a runlevel ps r qs = (r ≤ℤ runlevel) × (level_at qs a ≡ level_at ps a)
