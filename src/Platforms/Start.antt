-- ===== src/Platforms/Start.antt =====
-- `pv_platforms_start` of platforms.c and what it calls. Starting the loggers is not modelled.
pub mod Laws
pub mod Levels
use pantavisor.Prelude.{
  ℕ, zero, suc, ◌+◌, ◌-◌, String, Bool, true, false, not, ◌&&◌, ◌||◌, Option, none, some, is_some,
  List, [], ◌∷◌, ◌++◌, str_eq, if◌then◌else◌, ltb,
}
use pantavisor.Prelude.Int.{ℤ, pos, negsuc, ltb_ℤ, eqb_ℤ}
use pantavisor.Platforms.{Platform, plat_started, is_started, runlevel_data, max_runlevel}

-- `cont_ctrl` has one entry; another type has no controller.
unfoldable pub _pv_platforms_get_ctrl : String → Bool
_pv_platforms_get_ctrl ptype = str_eq ptype "lxc"

-- The plugin's `start`: no value if it returns a null pointer, else what it left in `*pid`.
abbrev pub CtrlStart : Type 0
CtrlStart = Platform → Option ℤ

-- `crash`: a read through null configs, or a call through a null controller. `failed`: the function returned -1.
pub data PlatformRun : Type 0 where
  crash : PlatformRun
  failed : Platform → PlatformRun
  done : Platform → PlatformRun

unfoldable pub pv_platforms_start_platform : CtrlStart → Platform → PlatformRun
pv_platforms_start_platform start p =
    if not (is_some p.config)
    then crash
    else if _pv_platforms_get_ctrl p.ptype
    then elim (start p) [
      | none ↦ failed p
      | some pid ↦
          if ltb_ℤ (pos 0) pid
          then done (record p { init_pid = pid; status = plat_started })
          else failed (record p { init_pid = pid })
    ]
    else crash

-- A run over the list: `done started ps` has the platforms that were started, in that order (the
-- source counts them), and the new list.
pub data StartRun : Type 0 where
  crash : StartRun
  failed : List Platform → StartRun
  done : List Platform → List Platform → StartRun

abbrev pub keep_in_list : Platform → StartRun → StartRun
keep_in_list p StartRun.crash = StartRun.crash
keep_in_list p (StartRun.failed ps) = StartRun.failed (p ∷ ps)
keep_in_list p (StartRun.done started ps) = StartRun.done started (p ∷ ps)

abbrev pub count_started : Platform → StartRun → StartRun
count_started p StartRun.crash = StartRun.crash
count_started p (StartRun.failed ps) = StartRun.failed (p ∷ ps)
count_started p (StartRun.done started ps) = StartRun.done (p ∷ started) (p ∷ ps)

-- The inner loop, at runlevel `i`.
unfoldable pub start_level : CtrlStart → ℕ → List Platform → StartRun
start_level start i [] = StartRun.done [] []
start_level start i (p ∷ ps) =
    let rest = start_level start i ps in
    if not (eqb_ℤ p.runlevel (pos i)) || is_started p.status
    then keep_in_list p rest
    else elim (pv_platforms_start_platform start p) [
      | PlatformRun.crash ↦ StartRun.crash
      | PlatformRun.failed q ↦ StartRun.failed (q ∷ ps)
      | PlatformRun.done q ↦ count_started q rest
    ]

abbrev pub after_level : List Platform → StartRun → StartRun
after_level started StartRun.crash = StartRun.crash
after_level started (StartRun.failed ps) = StartRun.failed ps
after_level started (StartRun.done more ps) = StartRun.done (started ++ more) ps

-- What a run does after another: it goes on from the list that the first one left.
abbrev pub then_levels : StartRun → (List Platform → StartRun) → StartRun
then_levels StartRun.crash next = StartRun.crash
then_levels (StartRun.failed ps) next = StartRun.failed ps
then_levels (StartRun.done started ps) next = after_level started (next ps)

-- The outer loop: `n` rounds are left, and `i` is the runlevel of the next.
unfoldable pub start_levels : CtrlStart → ℕ → ℕ → List Platform → StartRun
start_levels start zero i ps = StartRun.done [] ps
start_levels start (suc n) i ps = elim (ltb runlevel_data i) [
  | true ↦ then_levels (start_level start i ps) (start_levels start n (i + 1))
  | false ↦ start_levels start n (i + 1) ps
]

unfoldable pub pv_platforms_start : CtrlStart → ℕ → List Platform → StartRun
unfolding start_levels
pv_platforms_start start runlevel ps = start_levels start (max_runlevel + 1 - runlevel) runlevel ps
