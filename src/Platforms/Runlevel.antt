-- ===== src/Platforms/Runlevel.antt =====
-- The runlevels after `pv_platforms_default_runlevel` of platforms.c.
use pantavisor.Prelude.{◌≡◌, ◌⊎◌, inl, inr, true, false, List, [], ◌∷◌, arith, All, Any, Bool-cases}
use pantavisor.Prelude.Int.{pos, negsuc, ◌≤ℤ◌, ◌<ℤ◌}
use pantavisor.Platforms.{
  Platform, runlevel_root, max_runlevel, root_configured, promote_first, set_rest,
  pv_platforms_default_runlevel,
}

-- A runlevel as the parser leaves it: -1 (not configured) or one of the four.
abbrev pub IsParsed : Platform → Type 0
IsParsed p = (p.runlevel ≡ negsuc 0) ⊎ ((pos 0 ≤ℤ p.runlevel) × (p.runlevel ≤ℤ pos max_runlevel))

abbrev pub IsLevelled : Platform → Type 0
IsLevelled p = (pos 0 ≤ℤ p.runlevel) × (p.runlevel ≤ℤ pos max_runlevel)

abbrev pub IsRoot : Platform → Type 0
IsRoot p = p.runlevel ≡ pos runlevel_root

-- Not configured, or configured as root.
abbrev pub MayBeRoot : Platform → Type 0
MayBeRoot p = (p.runlevel ≡ negsuc 0) ⊎ IsRoot p

set_rest-IsLevelled : (ps : List Platform) → All IsParsed ps → All IsLevelled (set_rest ps)
unfolding set_rest
set_rest-IsLevelled [] h = tt
set_rest-IsLevelled (p ∷ ps) h = ground (arith, set_rest-IsLevelled ps h.1)

promote_first-IsParsed : (ps : List Platform) → All IsParsed ps → All IsParsed (promote_first ps)
unfolding promote_first
promote_first-IsParsed [] h = tt
promote_first-IsParsed (p ∷ ps) h = ground (arith, promote_first-IsParsed ps h.1)

-- From the runlevels that the parser leaves, every platform ends with one of the four levels.
pub default_runlevel-IsLevelled :
    (ps : List Platform) → All IsParsed ps → All IsLevelled (pv_platforms_default_runlevel ps)
unfolding pv_platforms_default_runlevel
default_runlevel-IsLevelled ps h = ground (
  arith,
  set_rest-IsLevelled ps h,
  set_rest-IsLevelled (promote_first ps),
  promote_first-IsParsed ps h,
)

set_rest-IsRoot : (ps : List Platform) → Any IsRoot ps → Any IsRoot (set_rest ps)
unfolding set_rest
set_rest-IsRoot [] h = h
set_rest-IsRoot (p ∷ ps) (inl h) = inl (ground arith)
set_rest-IsRoot (p ∷ ps) (inr h) = inr (set_rest-IsRoot ps h)

root_configured_sound : (ps : List Platform) → root_configured ps ≡ true → Any IsRoot ps
unfolding root_configured
root_configured_sound [] h = cc
root_configured_sound (p ∷ ps) h = ground (arith, root_configured_sound ps)

-- With no root configured, the first platform without configuration becomes root.
promote_first-IsRoot :
    (ps : List Platform)
    → root_configured ps ≡ false
    → Any MayBeRoot ps
    → Any IsRoot (promote_first ps)
unfolding promote_first root_configured
promote_first-IsRoot [] r h = h
promote_first-IsRoot (p ∷ ps) r h = ground (arith, promote_first-IsRoot ps)

-- Some platform is root at the end if one was configured as root or had no configuration.
pub default_runlevel-IsRoot :
    (ps : List Platform) → Any MayBeRoot ps → Any IsRoot (pv_platforms_default_runlevel ps)
unfolding pv_platforms_default_runlevel
default_runlevel-IsRoot ps h = elim (Bool-cases (root_configured ps)) [
  | inl r ↦ rw r (set_rest-IsRoot ps (root_configured_sound ps r))
  | inr r ↦ rw r (set_rest-IsRoot (promote_first ps) (promote_first-IsRoot ps r h))
]

-- Lists of the same length, related element by element.
abbrev pub Pointwise : (Platform → Platform → Type 0) → List Platform → List Platform → Type 0
Pointwise R [] [] = Unit
Pointwise R [] (q ∷ qs) = ⊥
Pointwise R (p ∷ ps) [] = ⊥
Pointwise R (p ∷ ps) (q ∷ qs) = R p q × Pointwise R ps qs

-- `q` is `p`, but for a runlevel that was not configured.
abbrev pub KeepsConfigured : Platform → Platform → Type 0
KeepsConfigured p q =
    (q ≡ record p { runlevel = q.runlevel }) × ((q.runlevel ≡ p.runlevel) ⊎ (p.runlevel <ℤ pos 0))

set_rest-keeps : (ps : List Platform) → Pointwise KeepsConfigured ps (set_rest ps)
unfolding set_rest
set_rest-keeps [] = tt
set_rest-keeps (p ∷ ps) = ground (arith, set_rest-keeps ps)

set_rest-promote_first-keeps :
    (ps : List Platform) → Pointwise KeepsConfigured ps (set_rest (promote_first ps))
unfolding set_rest promote_first
set_rest-promote_first-keeps [] = tt
set_rest-promote_first-keeps (p ∷ ps) =
    ground (arith, set_rest-keeps ps, set_rest-promote_first-keeps ps)

-- The platforms stay the same ones, in order, and a configured runlevel is never changed.
pub default_runlevel-keeps :
    (ps : List Platform) → Pointwise KeepsConfigured ps (pv_platforms_default_runlevel ps)
unfolding pv_platforms_default_runlevel
default_runlevel-keeps ps = ground (arith, set_rest-keeps ps, set_rest-promote_first-keeps ps)
