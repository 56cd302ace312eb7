-- ===== src/Platforms/Stop.antt =====
-- `pv_platforms_stop` of platforms.c and what it calls. The process table is an argument: whether
-- a pid is alive when it is asked for in a given round of checks. Stopping the loggers is not
-- modelled.
pub mod Laws
pub mod Exited
use pantavisor.Prelude.{
  ℕ, zero, suc, ◌+◌, ◌-◌, String, Bool, true, false, not, ◌&&◌, ◌||◌, Option, none, some, List, [],
  ◌∷◌, ◌++◌, str_eq, if◌then◌else◌, ltb, ◌==◌, length,
}
use pantavisor.Prelude.Int.{ℤ, pos, negsuc, ltb_ℤ, eqb_ℤ}
use pantavisor.Platforms.{Platform, plat_stopped, is_started, runlevel_app, max_runlevel}
use pantavisor.Platforms.Start.{_pv_platforms_get_ctrl}

-- The two `continue` tests that the loops of stop, check_exited and force_kill share: the platform
-- is of runlevel `i`, and if only apps are meant it has been updated.
unfoldable pub is_selected : ℕ → ℕ → Platform → Bool
is_selected runlevel i p =
    eqb_ℤ p.runlevel (pos i)
    && not (runlevel == runlevel_app && eqb_ℤ p.runlevel (pos runlevel_app) && not p.updated)

-- `crash`: a call through a null controller. `done stopped ps`: the platforms that were stopped,
-- in that order (the source counts them), and the new list.
pub data StopRun : Type 0 where
  crash : StopRun
  done : List Platform → List Platform → StopRun

abbrev pub with_platforms : List Platform → Platform → StopRun → StopRun
with_platforms stopped p crash = crash
with_platforms stopped p (done more ps) = done (stopped ++ more) (p ∷ ps)

-- The inner loop of `pv_platforms_stop`, at runlevel `i`.
unfoldable pub stop_level : ℕ → ℕ → List Platform → StopRun
unfolding is_selected
stop_level runlevel i [] = done [] []
stop_level runlevel i (p ∷ ps) =
    let rest = stop_level runlevel i ps in
    if is_selected runlevel i p && is_started p.status && ltb_ℤ (pos 0) p.init_pid
    then if _pv_platforms_get_ctrl p.ptype
      then with_platforms (p ∷ []) (record p { status = plat_stopped }) rest
      else crash
    else with_platforms [] p rest

abbrev pub then_stop : StopRun → (List Platform → StopRun) → StopRun
then_stop crash next = crash
then_stop (done stopped ps) next = elim (next ps) [
  | crash ↦ crash
  | done more qs ↦ done (stopped ++ more) qs
]

-- The outer loop, from runlevel `i` down; `n` is the number of rounds left.
unfoldable pub stop_levels : ℕ → ℕ → ℕ → List Platform → StopRun
stop_levels runlevel zero i ps = done [] ps
stop_levels runlevel (suc n) i ps =
    then_stop (stop_level runlevel i ps) (stop_levels runlevel n (i - 1))

-- `kill(pid, 0) == 0`
abbrev pub Alive : Type 0
Alive = ℤ → Bool

-- The loops of `pv_platforms_check_exited`.
unfoldable pub exited_level : Alive → ℕ → ℕ → List Platform → ℕ
unfolding is_selected
exited_level alive runlevel i [] = 0
exited_level alive runlevel i (p ∷ ps) =
    let rest = exited_level alive runlevel i ps in
    if is_selected runlevel i p && not (alive p.init_pid) then rest + 1 else rest

unfoldable pub exited_levels : Alive → ℕ → ℕ → ℕ → List Platform → ℕ
exited_levels alive runlevel zero i ps = 0
exited_levels alive runlevel (suc n) i ps =
    exited_level alive runlevel i ps + exited_levels alive runlevel n (i - 1) ps

unfoldable pub pv_platforms_check_exited : Alive → ℕ → List Platform → ℕ
unfolding exited_levels exited_level
pv_platforms_check_exited alive runlevel ps =
    exited_levels alive runlevel (max_runlevel + 1 - runlevel) max_runlevel ps

-- `pv_platforms_force_kill`: the pids that get SIGKILL, in order.
unfoldable pub kill_level : Alive → ℕ → ℕ → List Platform → List ℤ
unfolding is_selected
kill_level alive runlevel i [] = []
kill_level alive runlevel i (p ∷ ps) =
    let rest = kill_level alive runlevel i ps in
    if is_selected runlevel i p && alive p.init_pid then p.init_pid ∷ rest else rest

unfoldable pub kill_levels : Alive → ℕ → ℕ → ℕ → List Platform → List ℤ
kill_levels alive runlevel zero i ps = []
kill_levels alive runlevel (suc n) i ps =
    kill_level alive runlevel i ps ++ kill_levels alive runlevel n (i - 1) ps

unfoldable pub pv_platforms_force_kill : Alive → ℕ → List Platform → List ℤ
unfolding kill_levels kill_level
pv_platforms_force_kill alive runlevel ps =
    kill_levels alive runlevel (max_runlevel + 1 - runlevel) max_runlevel ps

-- The polling loop: `n` rounds are left and round `k` is the next. It returns the last count.
unfoldable pub poll_exited : (ℕ → Alive) → ℕ → List Platform → ℕ → ℕ → ℕ → ℕ → ℕ
poll_exited alive runlevel ps num_plats zero k exited = exited
poll_exited alive runlevel ps num_plats (suc n) k exited =
    let now = pv_platforms_check_exited (alive k) runlevel ps in
    elim (now == num_plats) [
      | true ↦ now
      | false ↦ poll_exited alive runlevel ps num_plats n (k + 1) now
    ]

pub record Stopped : Type 0 where
  pub num_plats : ℕ
  pub platforms : List Platform
  pub killed : List ℤ

-- No value: a call through a null controller. Rounds 0 to 4 are the checks, round 5 is the kill.
unfoldable pub pv_platforms_stop : (ℕ → Alive) → ℕ → List Platform → Option Stopped
unfolding stop_levels poll_exited
pv_platforms_stop alive runlevel ps =
    elim (stop_levels runlevel (max_runlevel + 1 - runlevel) max_runlevel ps) [
      | crash ↦ none
      | done stopped qs ↦
          let exited = poll_exited alive runlevel qs (length stopped) 5 0 0 in
          some (record {
            num_plats = length stopped;
            platforms = qs;
            killed =
                if exited == length stopped
                then []
                else pv_platforms_force_kill (alive 5) runlevel qs;
          })
    ]
