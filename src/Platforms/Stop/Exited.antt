-- ===== src/Platforms/Stop/Exited.antt =====
-- When `pv_platforms_check_exited` of platforms.c counts a platform.
use pantavisor.Prelude.{
  ℕ, zero, suc, ◌+◌, ◌-◌, ◌≤◌, ◌<◌, ◌≡◌, false, List, [], ◌∷◌, arith, Any, inl, inr, ℕ_discrete,
}
use pantavisor.Prelude.Int.{pos}
use pantavisor.Platforms.{Platform, max_runlevel}
use pantavisor.Platforms.Stop.{Alive, exited_level, exited_levels, pv_platforms_check_exited}

-- A platform of that runlevel whose process does not live.
abbrev pub IsGone : Alive → ℕ → Platform → Type 0
IsGone alive j p = (p.runlevel ≡ pos j) × (alive p.init_pid ≡ false)

exited_level-positive :
    (alive : Alive) (j : ℕ) (ps : List Platform)
    → Any (IsGone alive j) ps
    → 0 < exited_level alive 0 j ps
unfolding exited_level
exited_level-positive alive j [] g = absurd g
exited_level-positive alive j (p ∷ ps) (inl g) = ground (arith, g.0, g.1)
exited_level-positive alive j (p ∷ ps) (inr g) = ground (arith, exited_level-positive alive j ps g)

exited_levels-positive :
    (alive : Alive) (n i j : ℕ) (ps : List Platform)
    → j ≤ i
    → i < j + n
    → Any (IsGone alive j) ps
    → 0 < exited_levels alive 0 n i ps
unfolding exited_levels
exited_levels-positive alive zero i j ps l u g = absurd (omega arith)
exited_levels-positive alive (suc n) i j ps l u g = elim (ℕ_discrete i j) [
  | yes e ↦ rw e (omega (arith, exited_level-positive alive j ps g))
  | no e ↦
      omega
        (arith, exited_levels-positive alive n (i - 1) j ps (omega (arith, e)) (omega (arith, e)) g)
]

-- A platform of one of the four runlevels whose process does not live is counted.
pub check_exited-positive :
    (alive : Alive) (j : ℕ) (ps : List Platform)
    → j ≤ max_runlevel
    → Any (IsGone alive j) ps
    → 0 < pv_platforms_check_exited alive 0 ps
unfolding pv_platforms_check_exited
check_exited-positive alive j ps l g =
    exited_levels-positive alive (max_runlevel + 1 - 0) max_runlevel j ps l (omega arith) g
