-- ===== src/Platforms/Start/Laws.antt =====
-- Which platforms `pv_platforms_start` starts, and in which order.
use pantavisor.Prelude.{
  ℕ, zero, suc, ◌+◌, ◌-◌, ◌≤◌, ◌<◌, ◌≡◌, ◌≢◌, ◌⊎◌, List, [], ◌∷◌, ◌++◌, arith, All, ℕ_discrete,
  is_some, true,
}
use pantavisor.Prelude.Int.{pos, ◌≤ℤ◌, pos_part}
use pantavisor.Platforms.{Platform, plat_started, max_runlevel}
use pantavisor.Platforms.Start.{
  CtrlStart, StartRun, pv_platforms_start_platform, start_level, start_levels, after_level,
  then_levels, pv_platforms_start,
}

-- What holds of the platforms started and of the new list, if the run gets to its end.
abbrev pub Ensures : (List Platform → List Platform → Type 0) → StartRun → Type 0
Ensures P StartRun.crash = Unit
Ensures P (StartRun.failed qs) = Unit
Ensures P (StartRun.done started qs) = P started qs

Ensures-trivial : (r : StartRun) → Ensures (λ started qs. Unit) r
Ensures-trivial StartRun.crash = tt
Ensures-trivial (StartRun.failed qs) = tt
Ensures-trivial (StartRun.done started qs) = tt

pub Ensures-map :
    (P Q : List Platform → List Platform → Type 0) (r : StartRun)
    → ((started qs : List Platform) → P started qs → Q started qs)
    → Ensures P r
    → Ensures Q r
Ensures-map P Q StartRun.crash f h = tt
Ensures-map P Q (StartRun.failed qs) f h = tt
Ensures-map P Q (StartRun.done started qs) f h = f started qs h

abbrev pub StartedAt : ℕ → Platform → Type 0
StartedAt j q = (q.runlevel ≢ pos j) ⊎ (q.status ≡ plat_started)

-- The loop at one runlevel leaves every platform of it started.
start_level-StartedAt :
    (start : CtrlStart) (i : ℕ) (ps : List Platform)
    → Ensures (λ started qs. All (StartedAt i) qs) (start_level start i ps)
unfolding start_level pv_platforms_start_platform
start_level-StartedAt start i [] = tt
start_level-StartedAt start i (p ∷ ps) = ground (arith, start_level-StartedAt start i ps)

-- It keeps what was started at the others.
start_level-keeps :
    (start : CtrlStart) (i j : ℕ) (ps : List Platform)
    → All (StartedAt j) ps
    → Ensures (λ started qs. All (StartedAt j) qs) (start_level start i ps)
unfolding start_level pv_platforms_start_platform
start_level-keeps start i j [] a = tt
start_level-keeps start i j (p ∷ ps) a = ground (arith, start_level-keeps start i j ps a.1)

-- Only platforms of the runlevel are started by it.
start_level-at :
    (start : CtrlStart) (i : ℕ) (ps : List Platform)
    → Ensures (λ started qs. All (λ q. q.runlevel ≡ pos i) started) (start_level start i ps)
unfolding start_level pv_platforms_start_platform
start_level-at start i [] = tt
start_level-at start i (p ∷ ps) = ground (arith, start_level-at start i ps)

after_level-Ensures :
    (Q : List Platform → List Platform → Type 0) (started : List Platform) (r : StartRun)
    → Ensures (λ more qs. Q (started ++ more) qs) r
    → Ensures Q (after_level started r)
after_level-Ensures Q started StartRun.crash h = h
after_level-Ensures Q started (StartRun.failed qs) h = h
after_level-Ensures Q started (StartRun.done more qs) h = h

-- The rule for one run after another.
pub then_levels-Ensures :
    (P Q : List Platform → List Platform → Type 0) (r : StartRun) (next : List Platform → StartRun)
    → Ensures P r
    → ((started qs : List Platform)
        → P started qs
        → Ensures (λ more final. Q (started ++ more) final) (next qs))
    → Ensures Q (then_levels r next)
then_levels-Ensures P Q StartRun.crash next h k = tt
then_levels-Ensures P Q (StartRun.failed qs) next h k = tt
then_levels-Ensures P Q (StartRun.done started qs) next h k =
    after_level-Ensures Q started (next qs) (k started qs h)

start_levels-keeps :
    (start : CtrlStart) (n i j : ℕ) (ps : List Platform)
    → All (StartedAt j) ps
    → Ensures (λ started qs. All (StartedAt j) qs) (start_levels start n i ps)
unfolding start_levels
start_levels-keeps start zero i j ps a = a
start_levels-keeps start (suc n) i j ps a = ground (
  arith,
  start_levels-keeps start n (i + 1) j ps a,
  then_levels-Ensures (λ started qs. All (StartedAt j) qs) (λ started qs. All (StartedAt j) qs)
      (start_level start i ps) (start_levels start n (i + 1)) (start_level-keeps start i j ps a)
      (λ started qs b. start_levels-keeps start n (i + 1) j qs b),
)

start_levels-StartedAt :
    (start : CtrlStart) (n i j : ℕ) (ps : List Platform)
    → i ≤ j
    → j < i + n
    → 0 < j
    → Ensures (λ started qs. All (StartedAt j) qs) (start_levels start n i ps)
unfolding start_levels
start_levels-StartedAt start zero i j ps l u z = absurd (omega arith)
start_levels-StartedAt start (suc n) i j ps l u z = elim (ℕ_discrete i j) [
  | yes e ↦ rw (← e) (
      ground (
        arith,
        then_levels-Ensures (λ started qs. All (StartedAt i) qs)
            (λ started qs. All (StartedAt i) qs) (start_level start i ps)
            (start_levels start n (i + 1)) (start_level-StartedAt start i ps)
            (λ started qs b. start_levels-keeps start n (i + 1) i qs b),
      ))
  | no e ↦ ground (
    arith,
    e,
    start_levels-StartedAt start n (i + 1) j ps (omega arith) (omega arith) z,
    then_levels-Ensures (λ started qs. Unit) (λ started qs. All (StartedAt j) qs)
        (start_level start i ps) (start_levels start n (i + 1))
        (Ensures-trivial (start_level start i ps))
        (λ started qs b. start_levels-StartedAt start n (i + 1) j qs (omega arith) (omega arith) z),
  )
]

-- When `pv_platforms_start` returns without an error, every platform of a runlevel from the one
-- asked for up to APP, but for DATA, is started.
pub pv_platforms_start-StartedAt :
    (start : CtrlStart) (runlevel j : ℕ) (ps : List Platform)
    → runlevel ≤ j
    → j ≤ max_runlevel
    → 0 < j
    → Ensures (λ started qs. All (StartedAt j) qs) (pv_platforms_start start runlevel ps)
unfolding pv_platforms_start
pv_platforms_start-StartedAt start runlevel j ps l u z =
    start_levels-StartedAt start (max_runlevel + 1 - runlevel) runlevel j ps l (omega arith) z

-- Ascending runlevels, from `i` on.
abbrev pub Ascends : ℕ → List Platform → Type 0
Ascends i [] = Unit
Ascends i (p ∷ ps) = (pos i ≤ℤ p.runlevel) × Ascends (pos_part p.runlevel) ps

Ascends-weaken : (i k : ℕ) (ps : List Platform) → i ≤ k → Ascends k ps → Ascends i ps
Ascends-weaken i k [] l h = tt
Ascends-weaken i k (p ∷ ps) l h = (omega arith, h.1)

Ascends-append :
    (i : ℕ) (ps qs : List Platform)
    → All (λ q. q.runlevel ≡ pos i) ps
    → Ascends i qs
    → Ascends i (ps ++ qs)
Ascends-append i [] qs h a = a
Ascends-append i (p ∷ ps) qs h a = ground (arith, h.0, Ascends-append i ps qs h.1 a)

start_levels-Ascends :
    (start : CtrlStart) (n i : ℕ) (ps : List Platform)
    → Ensures (λ started qs. Ascends i started) (start_levels start n i ps)
unfolding start_levels
start_levels-Ascends start zero i ps = tt
start_levels-Ascends start (suc n) i ps = ground (
  arith,
  Ensures-map (λ started qs. Ascends (i + 1) started) (λ started qs. Ascends i started)
      (start_levels start n (i + 1) ps)
      (λ started qs h. Ascends-weaken i (i + 1) started (omega arith) h)
      (start_levels-Ascends start n (i + 1) ps),
  then_levels-Ensures (λ started qs. All (λ q. q.runlevel ≡ pos i) started)
      (λ started qs. Ascends i started) (start_level start i ps) (start_levels start n (i + 1))
      (start_level-at start i ps)
      (λ started qs b.
        Ensures-map (λ more final. Ascends (i + 1) more) (λ more final. Ascends i (started ++ more))
          (start_levels start n (i + 1) qs)
          (λ more final h.
            Ascends-append i started more b (Ascends-weaken i (i + 1) more (omega arith) h))
          (start_levels-Ascends start n (i + 1) qs)),
)

-- Platforms are started in ascending order of their runlevels, none below the one asked for.
pub pv_platforms_start-Ascends :
    (start : CtrlStart) (runlevel : ℕ) (ps : List Platform)
    → Ensures (λ started qs. Ascends runlevel started) (pv_platforms_start start runlevel ps)
unfolding pv_platforms_start
pv_platforms_start-Ascends start runlevel ps =
    start_levels-Ascends start (max_runlevel + 1 - runlevel) runlevel ps

-- The run gets to its end, with `P` of the new list.
abbrev pub Returns : (List Platform → Type 0) → StartRun → Type 0
Returns P StartRun.crash = ⊥
Returns P (StartRun.failed qs) = ⊥
Returns P (StartRun.done started qs) = P qs

abbrev pub IsStartable : Platform → Type 0
IsStartable p = (p.ptype ≡ "lxc") × (is_some p.config ≡ true)
