-- ===== src/Tests/Platforms.antt =====
-- Runs of the platforms.
use pantavisor.Prelude.{ℕ, ◌≡◌, refl, false, some, List, [], ◌∷◌, arith, All}
use pantavisor.Prelude.Int.{pos, negsuc}
use pantavisor.Platforms.{Platform, plat_installed, plat_stopped}
use pantavisor.Platforms.Start.{CtrlStart, _pv_platforms_get_ctrl, pv_platforms_start}
use pantavisor.Platforms.Start.Laws.{Ensures, StartedAt, pv_platforms_start-StartedAt}
use pantavisor.Platforms.Stop.{
  Alive, stop_level, pv_platforms_check_exited, Stopped, pv_platforms_stop,
}
use pantavisor.Platforms.Stop.Laws.{NoneRunning, pv_platforms_stop-NoneRunning}
use pantavisor.Tests.{container, root_installed, app_installed, root_started, app_started}

abbrev installed : List Platform
installed = app_installed ∷ root_installed ∷ []

abbrev started : List Platform
started = app_started ∷ root_started ∷ []

abbrev unset : List Platform
unset = container "a" 1 (negsuc 0) plat_installed ∷ container "b" 2 (pos 3) plat_installed ∷ []

abbrev start_all : CtrlStart
start_all p = some (pos 8)

-- Everything dies at once.
abbrev dies : ℕ → Alive
dies round pid = false

abbrev all_stopped : Stopped
all_stopped = record {
  num_plats = 2;
  platforms =
      record app_started { status = plat_stopped }
      ∷ record root_started { status = plat_stopped }
      ∷ [];
  killed = [];
}

pv_platforms_start-StartedAt_example :
    Ensures (λ started qs. All (StartedAt 3) qs) (pv_platforms_start start_all 1 installed)
pv_platforms_start-StartedAt_example =
    pv_platforms_start-StartedAt start_all 1 3 installed (omega arith) (omega arith) (omega arith)

stop_all : pv_platforms_stop dies 1 started ≡ some all_stopped
unfolding pv_platforms_stop stop_level _pv_platforms_get_ctrl pv_platforms_check_exited
stop_all = refl

exited_all : pv_platforms_check_exited (dies 0) 1 all_stopped.platforms ≡ all_stopped.num_plats
unfolding pv_platforms_check_exited
exited_all = refl

pv_platforms_stop-NoneRunning_example : NoneRunning 1 3 all_stopped.platforms
pv_platforms_stop-NoneRunning_example =
    pv_platforms_stop-NoneRunning dies 1 3 started all_stopped (omega arith) (omega arith) stop_all
