-- ===== src/Volumes.antt =====
-- volumes.c: mounting and unmounting the volumes of a state by runlevel. Mounting one volume, and the
-- firmware and modules, are arguments. `none` is a read through a dangling pointer.
use pantavisor.Prelude.{
  ℕ, zero, suc, ◌+◌, ◌-◌, ◌≡◌, refl, String, Bool, true, false, not, ◌&&◌, ◌==◌, leb, Option, none,
  some, ◌>>=◌, is_some, List, [], ◌∷◌, ◌++◌, length, if◌then◌else◌, arith, Option-cases, inl, inr,
}
use pantavisor.Prelude.Int.{pos, eqb_ℤ}
use pantavisor.Platforms.{Platform, is_started, runlevel_root, max_runlevel}
use pantavisor.State.{StateSpec, PvVolume, PvState, pv_state_new, platform_at, resolves}
use pantavisor.State.Transfer.Pointers.{AllResolve}
use pantavisor.Parser.{ParserEnv}
use pantavisor.Parser.System.{parsed, system1_parse}
use pantavisor.Parser.Laws.{parsed_state-IsReady}

-- Is a volume handled at this runlevel? Firmware and modules, which have no platform, are so at ROOT, the
-- others at their platform's runlevel, unless the platform runs.
unfoldable pub is_here : List Platform → ℕ → PvVolume → Option Bool
is_here ps i v = elim v.plat [
  | none ↦ some (i == runlevel_root)
  | some a ↦
      platform_at ps a >>= (λ p. some (eqb_ℤ p.runlevel (pos i) && not (is_started p.status)))
]

-- The loop over the volumes at one runlevel: the names of those that were handled, up to the first
-- failure, and whether there was none.
unfoldable pub volume_loop :
    (String → Bool) → List Platform → ℕ → List PvVolume → Option (List String × Bool)
unfolding is_here
volume_loop call ps i [] = some ([], true)
volume_loop call ps i (v ∷ vs) = do
  here ← is_here ps i v
  rest ← volume_loop call ps i vs
  some (if not here then rest else if call v.name then (v.name ∷ rest.0, rest.1) else ([], false))

abbrev pub join : List String × Bool → List String × Bool → List String × Bool
join first rest = if first.1 then (first.0 ++ rest.0, rest.1) else first

-- The runlevels from `i` up: `n` of them.
unfoldable pub mount_levels :
    (String → Bool) → List Platform → List PvVolume → ℕ → ℕ → Option (List String × Bool)
unfolding volume_loop
mount_levels call ps vs zero i = some ([], true)
mount_levels call ps vs (suc n) i = do
  first ← volume_loop call ps i vs
  rest ← mount_levels call ps vs n (suc i)
  some (join first rest)

-- The runlevels from `i + n - 1` down to `i`.
unfoldable pub unmount_levels :
    (String → Bool) → List Platform → List PvVolume → ℕ → ℕ → Option (List String × Bool)
unfolding volume_loop
unmount_levels call ps vs zero i = some ([], true)
unmount_levels call ps vs (suc n) i = do
  first ← volume_loop call ps (i + n) vs
  rest ← unmount_levels call ps vs n i
  some (join first rest)

-- The names of the mounted volumes, and whether the code's result is 0.
unfoldable pub pv_volumes_mount : (String → Bool) → Bool → ℕ → PvState → Option (List String × Bool)
unfolding mount_levels
pv_volumes_mount mounts firmware_modules runlevel s = do
  r ← mount_levels mounts s.platforms s.volumes (suc max_runlevel - runlevel) runlevel
  some (r.0, if r.1 && leb runlevel runlevel_root then firmware_modules else r.1)

-- The number of the volumes, or none where the code's result is -1.
unfoldable pub pv_volumes_unmount : (String → Bool) → ℕ → PvState → Option (Option ℕ)
unfolding unmount_levels
pv_volumes_unmount unmounts runlevel s = do
  r ← unmount_levels unmounts s.platforms s.volumes (suc max_runlevel - runlevel) runlevel
  some (if r.1 then some (length r.0) else none)

is_here-some :
    (ps : List Platform) (i : ℕ) (v : PvVolume)
    → resolves ps v.plat ≡ true
    → is_some (is_here ps i v) ≡ true
unfolding is_here
is_here-some ps i v h = elim (Option-cases v.plat) [
  | inl n ↦ ground (arith, n)
  | inr (a, e) ↦ elim (Option-cases (platform_at ps a)) [
    | inl n ↦ ground (arith, e, n, h)
    | inr (p, q) ↦ ground (arith, e, q)
  ]
]

bind-some :
    {A B : Type 0} (o : Option A) (f : A → Option B)
    → is_some o ≡ true
    → ((a : A) → is_some (f a) ≡ true)
    → is_some (o >>= f) ≡ true
bind-some none f h k = h
bind-some (some a) f h k = k a

module _ (call : String → Bool) (ps : List Platform) where
  volume_loop-some :
      (i : ℕ) (vs : List PvVolume)
      → AllResolve (λ (v : PvVolume). v.plat) ps vs
      → is_some (volume_loop call ps i vs) ≡ true
  unfolding volume_loop
  volume_loop-some i [] h = refl
  volume_loop-some i (v ∷ vs) h =
      bind-some (is_here ps i v) _ (is_here-some ps i v h.0)
        (λ here. bind-some (volume_loop call ps i vs) _ (volume_loop-some i vs h.1) (λ rest. refl))

  module _ (vs : List PvVolume) (h : AllResolve (λ (v : PvVolume). v.plat) ps vs) where
    mount_levels-some : (n i : ℕ) → is_some (mount_levels call ps vs n i) ≡ true
    unfolding mount_levels
    mount_levels-some zero i = refl
    mount_levels-some (suc n) i =
        bind-some (volume_loop call ps i vs) _ (volume_loop-some i vs h) (λ first.
          bind-some (mount_levels call ps vs n (suc i)) _ (mount_levels-some n (suc i))
            (λ rest. refl))

    unmount_levels-some : (n i : ℕ) → is_some (unmount_levels call ps vs n i) ≡ true
    unfolding unmount_levels
    unmount_levels-some zero i = refl
    unmount_levels-some (suc n) i =
        bind-some (volume_loop call ps (i + n) vs) _ (volume_loop-some (i + n) vs h) (λ first.
          bind-some (unmount_levels call ps vs n i) _ (unmount_levels-some n i) (λ rest. refl))

-- Mounting and unmounting the volumes of a state that the parser made, from any runlevel and however
-- the single calls end, reads no dangling pointer.
pub parsed_volumes_mount :
    (env : ParserEnv) (buf rev : String) (spec : StateSpec) (s : PvState) (call : String → Bool)
    (firmware_modules : Bool) (runlevel : ℕ)
    → system1_parse env buf (pv_state_new rev spec) ≡ parsed s
    → (is_some (pv_volumes_mount call firmware_modules runlevel s) ≡ true)
      × (is_some (pv_volumes_unmount call runlevel s) ≡ true)
unfolding pv_volumes_mount pv_volumes_unmount
parsed_volumes_mount env buf rev spec s call firmware_modules runlevel h =
    let resolve = (parsed_state-IsReady env buf rev spec s h).0.2 in
    let n = suc max_runlevel - runlevel in
    (
      bind-some (mount_levels call s.platforms s.volumes n runlevel) _
          (mount_levels-some call s.platforms s.volumes resolve n runlevel) (λ r. refl),
      bind-some (unmount_levels call s.platforms s.volumes n runlevel) _
          (unmount_levels-some call s.platforms s.volumes resolve n runlevel) (λ r. refl),
    )
