-- ===== src/Timer.antt =====
-- utils/timer.c: timers on a monotonic or a real-time clock.
-- `time_t` and `long` are numbers here: the source says that it handles both fields as unsigned.
-- A clock reading is an argument; `clock_gettime` itself is not modelled.
use pantavisor.Prelude.{
  ℕ, ◌+◌, ◌-◌, ◌*◌, ◌/◌, ◌≤◌, ◌<◌, ◌≡◌, ◌↔◌, Bool, true, false, ◌&&◌, ◌||◌, arith, ltb, leb, ◌==◌,
  if◌then◌else◌,
}

pub record Timespec : Type 0 where
  pub tv_sec : ℕ
  pub tv_nsec : ℕ

pub data TimerType : Type 0 where
  relativ_timer absolute_timer : TimerType

pub data ClockId : Type 0 where
  clock_monotonic clock_realtime : ClockId

pub record Timer : Type 0 where
  pub kind : TimerType
  pub timeout : Timespec

pub record TimerState : Type 0 where
  pub fin : Bool
  pub sec : ℕ
  pub nsec : ℕ

-- The clock that a timer reads.
unfoldable pub timer_type_clockid : TimerType → ClockId
timer_type_clockid relativ_timer = clock_monotonic
timer_type_clockid absolute_timer = clock_realtime

-- `now` is the reading of the timer's clock.
unfoldable pub timer_current_state : Timer → Timespec → TimerState
timer_current_state t now =
    let fin =
      ltb t.timeout.tv_sec now.tv_sec
      || (now.tv_sec == t.timeout.tv_sec && leb t.timeout.tv_nsec now.tv_nsec) in
    if fin
    then if ltb now.tv_nsec t.timeout.tv_nsec
      then record {
        fin = true;
        sec = now.tv_sec - t.timeout.tv_sec - 1;
        nsec = t.timeout.tv_nsec - now.tv_nsec;
      }
      else record {
        fin = true;
        sec = now.tv_sec - t.timeout.tv_sec;
        nsec = now.tv_nsec - t.timeout.tv_nsec;
      }
    else if ltb t.timeout.tv_nsec now.tv_nsec
    then record {
      fin = false;
      sec = t.timeout.tv_sec - now.tv_sec - 1;
      nsec = now.tv_nsec - t.timeout.tv_nsec;
    }
    else record {
      fin = false;
      sec = t.timeout.tv_sec - now.tv_sec;
      nsec = t.timeout.tv_nsec - now.tv_nsec;
    }

-- The timer `t` after `timer_start(t, sec, nsec, type)`; the source reads the clock of the type
-- that `t` had before the call, and leaves that type as it is.
unfoldable pub timer_start : Timer → ℕ → ℕ → TimerType → Timespec → Timer
timer_start t sec nsec relativ_timer now = record t {
  timeout = record { tv_sec = now.tv_sec + sec; tv_nsec = now.tv_nsec + nsec };
}
timer_start t sec nsec absolute_timer now = record t {
  timeout = record { tv_sec = sec; tv_nsec = nsec };
}

abbrev pub giga : ℕ
giga = 1_000_000_000

-- A clock reading as one number of nanoseconds.
abbrev pub nanos : Timespec → ℕ
nanos ts = ts.tv_sec * giga + ts.tv_nsec

abbrev pub IsNormal : Timespec → Type 0
IsNormal ts = ts.tv_nsec < giga

-- With normal times, the timer is finished exactly when the clock has reached the timeout.
fin_iff :
    (t : Timer) (now : Timespec)
    → IsNormal t.timeout
    → IsNormal now
    → ((timer_current_state t now).fin ≡ true) ↔ (nanos t.timeout ≤ nanos now)
unfolding timer_current_state
fin_iff t now ht hn = ground arith

-- With normal times, `sec` is the whole number of seconds left until the timeout, or passed since.
pub sec-eq-whole_seconds :
    (t : Timer) (now : Timespec)
    → IsNormal t.timeout
    → IsNormal now
    → (timer_current_state t now).sec ≡ (
        if (timer_current_state t now).fin
        then (nanos now - nanos t.timeout) / giga
        else (nanos t.timeout - nanos now) / giga)
unfolding timer_current_state
sec-eq-whole_seconds t now ht hn = ground arith

-- When a normal timer is finished and the clock's nanoseconds are below the timeout's, the time
-- that has passed is `sec` seconds and a billion less `nsec` nanoseconds: `nsec` is the part that
-- is missing to the next full second.
pub nsec_after_borrow :
    (t : Timer) (now : Timespec)
    → IsNormal t.timeout
    → IsNormal now
    → (timer_current_state t now).fin ≡ true
    → now.tv_nsec < t.timeout.tv_nsec
    → (timer_current_state t now).sec * giga + giga - (timer_current_state t now).nsec
      ≡ nanos now - nanos t.timeout
unfolding timer_current_state
nsec_after_borrow t now ht hn f b = ground arith

-- A relative timer of whole seconds, started on a normal reading, is finished at a later reading
-- exactly when that many seconds have passed.
pub fin-timer_start :
    (t : Timer) (sec : ℕ) (start now : Timespec)
    → IsNormal start
    → IsNormal now
    → ((timer_current_state (timer_start t sec 0 relativ_timer start) now).fin ≡ true)
      ↔ (nanos start + sec * giga ≤ nanos now)
unfolding timer_current_state timer_start
fin-timer_start t sec start now hs hn = ground arith
