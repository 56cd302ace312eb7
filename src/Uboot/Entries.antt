-- ===== src/Uboot/Entries.antt =====
-- The entries that are written are the ones that are read back.
use Prim.Native.Char.{code, nul}
use Prim.Native.String.{◌++◌ as str_append}
use text.Mathlib.TextLemmas.{cons-append, nil-append}
use pantavisor.Prelude.{
  ◌≡◌, refl, ap, ◌∙◌, String, Bool, true, false, ◌==◌, List, [], ◌∷◌, All, if◌then◌else◌, arith,
}
use pantavisor.Uboot.{scan, render}

abbrev pub no_nul : String → Bool
no_nul String.[] = true
no_nul (String.◌∷◌ c s) = if code c == 0 then false else no_nul s

-- An entry that a scan of the environment finds: it has a first character, which is not 0xFF.
abbrev pub is_clean : String → Bool
is_clean String.[] = false
is_clean (String.◌∷◌ c s) = if code c == 255 then false else no_nul (String.◌∷◌ c s)

scan-inside :
    (e s : String)
    → no_nul e ≡ true
    → scan true (str_append e (String.◌∷◌ nul s)) ≡ (e, (scan false s).1)
unfolding scan
scan-inside String.[] s h = ap (scan true) (nil-append (String.◌∷◌ nul s)) ∙ ground arith
scan-inside (String.◌∷◌ c e) s h =
    ap (scan true) (cons-append c e (String.◌∷◌ nul s)) ∙ ground (arith, h, scan-inside e s)

-- Scanning the rendered entries gives them back, when each is clean.
pub scan-render :
    (es : List String) → All (λ e. is_clean e ≡ true) es → (scan false (render es)).1 ≡ es
unfolding scan render
scan-render [] h = refl
scan-render (String.[] ∷ es) h = ground (arith, h.0)
scan-render (String.◌∷◌ c e ∷ es) h =
    ap (λ t. (scan false t).1) (cons-append c e (String.◌∷◌ nul (render es)))
    ∙ ground (arith, h.0, scan-inside e (render es), scan-render es h.1)
