-- ===== src/Storage/Space.antt =====
-- `pv_storage_new`, `pv_storage_get_free`, `pv_storage_gc_run_needed` and the threshold of
-- storage.c.
use pantavisor.Prelude.{
  ℕ, ◌+◌, ◌-◌, ◌*◌, ◌/◌, ◌≤◌, ◌≡◌, ◌⊎◌, Bool, true, false, ◌&&◌, ◌||◌, Option, none, some, arith,
  ltb, ◌==◌, if◌then◌else◌,
}
use pantavisor.Timer.{Timer, Timespec, timer_current_state, timer_start, relativ_timer}

-- What the calls read of `struct statfs`.
pub record StatFs : Type 0 where
  pub f_bsize : ℕ
  pub f_blocks : ℕ
  pub f_bfree : ℕ

pub record PvStorage : Type 0 where
  pub total : ℕ
  pub free : ℕ
  pub free_percentage : ℕ
  pub reserved : ℕ
  pub reserved_percentage : ℕ
  pub real_free : ℕ
  pub real_free_percentage : ℕ
  pub threshold : ℕ

-- `reserved` and `threshold` come from the configuration. `calloc` sets what no test reaches to 0.
-- No value: `statfs` failed.
unfoldable pub pv_storage_new : Option StatFs → ℕ → ℕ → Option PvStorage
pv_storage_new none reserved threshold = none
pv_storage_new (some buf) reserved threshold =
    let total = buf.f_bsize * buf.f_blocks in
    let free = buf.f_bsize * buf.f_bfree in
    let kept = total * reserved / 100 in
    let real = if ltb kept free then free - kept else 0 in
    some (record {
      total = total;
      free = free;
      free_percentage = if total == 0 then 0 else free * 100 / total;
      reserved = kept;
      reserved_percentage = reserved;
      real_free = real;
      real_free_percentage = if total == 0 then 0 else real * 100 / total;
      threshold = threshold;
    })

unfoldable pub pv_storage_get_free : Option PvStorage → ℕ
pv_storage_get_free none = 0
pv_storage_get_free (some s) = s.real_free

-- Free space before and after the collector, whether it ran, and what the call returns.
pub record Needed : Type 0 where
  pub collected : Bool
  pub available : ℕ

unfoldable pub pv_storage_gc_run_needed : ℕ → Option PvStorage → Option PvStorage → Needed
unfolding pv_storage_get_free
pv_storage_gc_run_needed needed before after =
    if ltb (pv_storage_get_free before) needed
    then record { collected = true; available = pv_storage_get_free after }
    else record { collected = false; available = pv_storage_get_free before }

-- The threshold timer and `pv->loading_objects`.
pub record Threshold : Type 0 where
  pub threshold_timer : Timer
  pub loading_objects : Bool

unfoldable pub pv_storage_gc_defer_run_threshold : Threshold → ℕ → Timespec → Threshold
pv_storage_gc_defer_run_threshold t defertime now = record {
  threshold_timer = timer_start t.threshold_timer defertime 0 relativ_timer now;
  loading_objects = true;
}

abbrev pub is_below : Option PvStorage → Bool
is_below none = false
is_below (some s) = ltb s.real_free_percentage s.threshold

-- The new threshold state, and whether the collector is run. `configured` is the threshold of the
-- configuration.
unfoldable pub pv_storage_gc_run_threshold :
    Threshold → ℕ → Timespec → Option PvStorage → Threshold × Bool
pv_storage_gc_run_threshold t configured now storage =
    let loading =
      if t.loading_objects && (timer_current_state t.threshold_timer now).fin
      then false
      else t.loading_objects in
    (
      record t { loading_objects = loading },
      if configured == 0 || loading then false else is_below storage,
    )

-- The reserved space is never offered: either nothing is free for use, or what is free for use and
-- what is reserved make up what is free on disk.
pub real_free_bounds :
    (buf : StatFs) (reserved threshold : ℕ) (s : PvStorage)
    → pv_storage_new (some buf) reserved threshold ≡ some s
    → (s.real_free ≡ 0) ⊎ (s.real_free + s.reserved ≡ s.free)
unfolding pv_storage_new
real_free_bounds buf reserved threshold s h = ground arith

-- Either what is needed is there, or the collector has run.
pub run_needed_collects :
    (needed : ℕ) (before after : Option PvStorage)
    → let r = pv_storage_gc_run_needed needed before after in
      (needed ≤ r.available) ⊎ (r.collected ≡ true)
unfolding pv_storage_gc_run_needed
run_needed_collects needed before after = ground arith

-- From the deferral on, the threshold does not start the collector until the configured seconds
-- have passed.
pub deferred_no_collection :
    (t : Threshold) (defertime configured : ℕ) (start now : Timespec) (storage : Option PvStorage)
    → (timer_current_state (timer_start t.threshold_timer defertime 0 relativ_timer start) now).fin
      ≡ false
    → (pv_storage_gc_run_threshold
        (pv_storage_gc_defer_run_threshold t defertime start)
        configured
        now
        storage).1
      ≡ false
unfolding pv_storage_gc_run_threshold pv_storage_gc_defer_run_threshold
deferred_no_collection t defertime configured start now storage h = ground arith
