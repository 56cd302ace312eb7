-- ===== src/Platforms/Stop/Laws.antt =====
-- Which platforms `pv_platforms_stop` stops, and when it kills.
use pantavisor.Prelude.{
  ℕ, zero, suc, ◌+◌, ◌-◌, ◌≤◌, ◌<◌, ◌≡◌, ◌≢◌, ◌⊎◌, true, none, some, List, [], ◌∷◌, arith, All,
  ℕ_discrete, eq_iff,
}
use pantavisor.Prelude.Int.{pos, ◌≤ℤ◌, ◌<ℤ◌}
use pantavisor.Platforms.{Platform, plat_started, plat_stopped, max_runlevel, runlevel_app}
use pantavisor.Platforms.Start.{_pv_platforms_get_ctrl}
use pantavisor.Platforms.Stop.{
  Alive, StopRun, crash, done, then_stop, stop_level, stop_levels, pv_platforms_check_exited,
  poll_exited, Stopped, pv_platforms_stop,
}

-- What holds of the new list, if the loops get to their end.
abbrev Ensures : (List Platform → Type 0) → StopRun → Type 0
Ensures P crash = Unit
Ensures P (done stopped qs) = P qs

-- A platform of runlevel `j` that still runs, and that was updated if only apps are meant.
abbrev pub IsRunningAt : ℕ → ℕ → Platform → Type 0
IsRunningAt runlevel j p =
    (p.runlevel ≡ pos j)
    × ((runlevel ≢ runlevel_app) ⊎ (p.updated ≡ true))
    × (p.status ≡ plat_started)
    × (pos 0 <ℤ p.init_pid)

abbrev pub NoneRunning : ℕ → ℕ → List Platform → Type 0
NoneRunning runlevel j ps = All (λ p. ¬ (IsRunningAt runlevel j p)) ps

stop_level-NoneRunning :
    (runlevel i : ℕ) (ps : List Platform)
    → Ensures (NoneRunning runlevel i) (stop_level runlevel i ps)
unfolding stop_level
stop_level-NoneRunning runlevel i [] = tt
stop_level-NoneRunning runlevel i (p ∷ ps) = ground (arith, stop_level-NoneRunning runlevel i ps)

stop_level-keeps :
    (runlevel i j : ℕ) (ps : List Platform)
    → NoneRunning runlevel j ps
    → Ensures (NoneRunning runlevel j) (stop_level runlevel i ps)
unfolding stop_level
stop_level-keeps runlevel i j [] a = tt
stop_level-keeps runlevel i j (p ∷ ps) a = ground (arith, a.0, stop_level-keeps runlevel i j ps a.1)

then_stop-Ensures :
    (P Q : List Platform → Type 0) (r : StopRun) (next : List Platform → StopRun)
    → Ensures P r
    → ((qs : List Platform) → P qs → Ensures Q (next qs))
    → Ensures Q (then_stop r next)
then_stop-Ensures P Q crash next h k = tt
then_stop-Ensures P Q (done stopped qs) next h k = ground (arith, k qs h)

Ensures-trivial : (r : StopRun) → Ensures (λ qs. Unit) r
Ensures-trivial crash = tt
Ensures-trivial (done stopped qs) = tt

stop_levels-keeps :
    (runlevel n i j : ℕ) (ps : List Platform)
    → NoneRunning runlevel j ps
    → Ensures (NoneRunning runlevel j) (stop_levels runlevel n i ps)
unfolding stop_levels
stop_levels-keeps runlevel zero i j ps a = a
stop_levels-keeps runlevel (suc n) i j ps a =
    then_stop-Ensures (NoneRunning runlevel j) (NoneRunning runlevel j) (stop_level runlevel i ps)
      (stop_levels runlevel n (i - 1)) (stop_level-keeps runlevel i j ps a)
      (λ qs b. stop_levels-keeps runlevel n (i - 1) j qs b)

stop_levels-NoneRunning :
    (runlevel n i j : ℕ) (ps : List Platform)
    → j ≤ i
    → i < j + n
    → Ensures (NoneRunning runlevel j) (stop_levels runlevel n i ps)
unfolding stop_levels
stop_levels-NoneRunning runlevel zero i j ps l u = absurd (omega arith)
stop_levels-NoneRunning runlevel (suc n) i j ps l u = elim (ℕ_discrete i j) [
  | yes e ↦ rw (← e) (
      then_stop-Ensures (NoneRunning runlevel i) (NoneRunning runlevel i) (stop_level runlevel i ps)
        (stop_levels runlevel n (i - 1)) (stop_level-NoneRunning runlevel i ps)
        (λ qs b. stop_levels-keeps runlevel n (i - 1) i qs b))
  | no e ↦
      then_stop-Ensures (λ qs. Unit) (NoneRunning runlevel j) (stop_level runlevel i ps)
        (stop_levels runlevel n (i - 1)) (Ensures-trivial (stop_level runlevel i ps))
        (λ qs b.
          stop_levels-NoneRunning runlevel n (i - 1) j qs (omega (arith, e)) (omega (arith, e)))
]

-- When the call ends, no platform of a runlevel from the one asked for up is still marked started
-- with a positive pid, but for the apps that were not updated if only apps were asked for.
pub pv_platforms_stop-NoneRunning :
    (alive : ℕ → Alive) (runlevel j : ℕ) (ps : List Platform) (s : Stopped)
    → runlevel ≤ j
    → j ≤ max_runlevel
    → pv_platforms_stop alive runlevel ps ≡ some s
    → NoneRunning runlevel j s.platforms
unfolding pv_platforms_stop
pv_platforms_stop-NoneRunning alive runlevel j ps s l u h = ground (
  arith,
  stop_levels-NoneRunning runlevel (max_runlevel + 1 - runlevel) max_runlevel j ps u (omega arith),
)

-- `q` is `p`, or `p` was running, was to be stopped, and `q` is `p` stopped.
abbrev pub StopsOnly : ℕ → Platform → Platform → Type 0
StopsOnly runlevel p q =
    (q ≡ p)
    ⊎ ((q ≡ record p { status = plat_stopped })
        × (p.status ≡ plat_started)
        × (pos runlevel ≤ℤ p.runlevel)
        × ((runlevel ≢ runlevel_app) ⊎ (p.updated ≡ true)))

poll_exited_found :
    (alive : ℕ → Alive) (runlevel : ℕ) (ps : List Platform) (num n k j exited : ℕ)
    → k ≤ j
    → j < k + n
    → pv_platforms_check_exited (alive j) runlevel ps ≡ num
    → poll_exited alive runlevel ps num n k exited ≡ num
unfolding poll_exited
poll_exited_found alive runlevel ps num zero k j exited l u h = absurd (omega arith)
poll_exited_found alive runlevel ps num (suc n) k j exited l u h = elim (ℕ_discrete k j) [
  | yes e ↦ rw e (ground (arith, h))
  | no e ↦ ground (
    arith,
    poll_exited_found alive runlevel ps num n (k + 1) j
        (pv_platforms_check_exited (alive k) runlevel ps) (omega (arith, e)) (omega arith) h,
  )
]

-- If in one of the five checks as many of the selected platforms have exited as were stopped, no
-- process is killed.
pub pv_platforms_stop-no_kill :
    (alive : ℕ → Alive) (runlevel j : ℕ) (ps : List Platform) (s : Stopped)
    → pv_platforms_stop alive runlevel ps ≡ some s
    → j < 5
    → pv_platforms_check_exited (alive j) runlevel s.platforms ≡ s.num_plats
    → s.killed ≡ []
unfolding pv_platforms_stop
pv_platforms_stop-no_kill alive runlevel j ps s h l e =
    ground
      (arith, poll_exited_found alive runlevel s.platforms s.num_plats 5 0 j 0 (omega arith) l e)

abbrev IsLxc : Platform → Type 0
IsLxc p = p.ptype ≡ "lxc"

-- The loops get to their end.
abbrev Returns : (List Platform → Type 0) → StopRun → Type 0
Returns P crash = ⊥
Returns P (done stopped qs) = P qs

stop_level-Returns :
    (runlevel i : ℕ) (ps : List Platform)
    → All IsLxc ps
    → Returns (All IsLxc) (stop_level runlevel i ps)
unfolding stop_level _pv_platforms_get_ctrl
stop_level-Returns runlevel i [] h = tt
stop_level-Returns runlevel i (p ∷ ps) h =
    ground (arith, eq_iff p.ptype "lxc", stop_level-Returns runlevel i ps h.1)

then_stop-Returns :
    (r : StopRun) (next : List Platform → StopRun)
    → Returns (All IsLxc) r
    → ((qs : List Platform) → All IsLxc qs → Returns (All IsLxc) (next qs))
    → Returns (All IsLxc) (then_stop r next)
then_stop-Returns crash next h k = h
then_stop-Returns (done stopped qs) next h k = ground (arith, k qs h)

stop_levels-Returns :
    (runlevel n i : ℕ) (ps : List Platform)
    → All IsLxc ps
    → Returns (All IsLxc) (stop_levels runlevel n i ps)
unfolding stop_levels
stop_levels-Returns runlevel zero i ps h = h
stop_levels-Returns runlevel (suc n) i ps h =
    then_stop-Returns (stop_level runlevel i ps) (stop_levels runlevel n (i - 1))
      (stop_level-Returns runlevel i ps h) (λ qs a. stop_levels-Returns runlevel n (i - 1) qs a)

-- If every platform has a known type, the call returns.
pv_platforms_stop-ne-none :
    (alive : ℕ → Alive) (runlevel : ℕ) (ps : List Platform)
    → All IsLxc ps
    → pv_platforms_stop alive runlevel ps ≢ none
unfolding pv_platforms_stop
pv_platforms_stop-ne-none alive runlevel ps h =
    ground (arith, stop_levels-Returns runlevel (max_runlevel + 1 - runlevel) max_runlevel ps h)
