-- ===== src/Platforms/Start/Levels.antt =====
-- What `pv_platforms_start` leaves of platforms that all have one of the four runlevels.
use pantavisor.Prelude.{ℕ, zero, suc, ◌+◌, ◌≤◌, ◌<◌, ◌≡◌, ◌⊎◌, List, [], ◌∷◌, arith, All}
use pantavisor.Prelude.Int.{pos}
use pantavisor.Platforms.{Platform, plat_started, runlevel_data, max_runlevel}
use pantavisor.Platforms.Runlevel.{IsLevelled}
use pantavisor.Platforms.Start.{
  CtrlStart, StartRun, pv_platforms_start_platform, start_level, start_levels, pv_platforms_start,
}
use pantavisor.Platforms.Start.Laws.{
  Ensures, Ensures-map, then_levels-Ensures, StartedAt, pv_platforms_start-StartedAt,
}

abbrev pub IsDataOrStarted : Platform → Type 0
IsDataOrStarted q = (q.runlevel ≡ pos runlevel_data) ⊎ (q.status ≡ plat_started)

Ensures-and :
    (P Q : List Platform → List Platform → Type 0) (r : StartRun)
    → Ensures P r
    → Ensures Q r
    → Ensures (λ started qs. P started qs × Q started qs) r
Ensures-and P Q StartRun.crash h k = tt
Ensures-and P Q (StartRun.failed qs) h k = tt
Ensures-and P Q (StartRun.done started qs) h k = (h, k)

start_level-IsLevelled :
    (start : CtrlStart) (i : ℕ) (ps : List Platform)
    → All IsLevelled ps
    → Ensures (λ started qs. All IsLevelled qs) (start_level start i ps)
unfolding start_level pv_platforms_start_platform
start_level-IsLevelled start i [] a = tt
start_level-IsLevelled start i (p ∷ ps) a = ground (arith, start_level-IsLevelled start i ps a.1)

start_levels-IsLevelled :
    (start : CtrlStart) (n i : ℕ) (ps : List Platform)
    → All IsLevelled ps
    → Ensures (λ started qs. All IsLevelled qs) (start_levels start n i ps)
unfolding start_levels
start_levels-IsLevelled start zero i ps a = a
start_levels-IsLevelled start (suc n) i ps a = ground (
  arith,
  start_levels-IsLevelled start n (i + 1) ps a,
  then_levels-Ensures (λ started qs. All IsLevelled qs) (λ started qs. All IsLevelled qs)
      (start_level start i ps) (start_levels start n (i + 1)) (start_level-IsLevelled start i ps a)
      (λ started qs b. start_levels-IsLevelled start n (i + 1) qs b),
)

-- Each of the four levels is DATA or one whose platforms are started.
each_level :
    (qs : List Platform)
    → All IsLevelled qs
    → All (StartedAt 1) qs
    → All (StartedAt 2) qs
    → All (StartedAt 3) qs
    → All IsDataOrStarted qs
each_level [] l a b c = tt
each_level (q ∷ qs) l a b c = (ground (arith, l.0, a.0, b.0, c.0), each_level qs l.1 a.1 b.1 c.1)

-- From runlevel 0, with every platform at one of the four runlevels: when the call returns without
-- an error, every platform is at DATA or started.
pub pv_platforms_start-IsDataOrStarted :
    (start : CtrlStart) (ps : List Platform)
    → All IsLevelled ps
    → Ensures (λ started qs. All IsDataOrStarted qs) (pv_platforms_start start 0 ps)
unfolding pv_platforms_start
pv_platforms_start-IsDataOrStarted start ps h =
    let run = pv_platforms_start start 0 ps in
    let level = λ (j : ℕ) (u : j ≤ max_runlevel) (z : 0 < j).
      pv_platforms_start-StartedAt start 0 j ps (omega arith) u z in
    Ensures-map _ _ run (λ started qs e. each_level qs e.0 e.1.0 e.1.1.0 e.1.1.1)
      (Ensures-and _ _ run (start_levels-IsLevelled start (max_runlevel + 1) 0 ps h) (
        Ensures-and _ _ run (level 1 (omega arith) (omega arith)) (
          Ensures-and _ _ run (level 2 (omega arith) (omega arith))
            (level 3 (omega arith) (omega arith)))))
