-- ===== src/Tests/Timers.antt =====
-- Runs of the timers.
use pantavisor.Prelude.{ℕ, ◌+◌, ◌-◌, ◌*◌, ◌≡◌, refl, arith}
use pantavisor.Timer.{
  Timer, Timespec, relativ_timer, nanos, giga, timer_current_state, nsec_after_borrow,
}
use pantavisor.Tests.{at_second}

abbrev half_past : ℕ → Timespec
half_past n = record { tv_sec = n; tv_nsec = 500000000 }

abbrev timer_half : Timer
timer_half = record { kind = relativ_timer; timeout = half_past 2 }

nsec_after_borrow_example :
    (timer_current_state timer_half (at_second 4)).sec * giga
      + giga
      - (timer_current_state timer_half (at_second 4)).nsec
    ≡ nanos (at_second 4) - nanos (half_past 2)
unfolding timer_current_state
nsec_after_borrow_example =
    nsec_after_borrow timer_half (at_second 4) (omega arith) (omega arith) refl (omega arith)
