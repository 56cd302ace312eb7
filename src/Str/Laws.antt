-- ===== src/Str/Laws.antt =====
-- Prefixes of texts: a text splits into one and the rest.
use Prim.Native.Char.{Char, code}
use Prim.Native.String.{◌++◌ as str_append}
use text.Mathlib.TextEquality.{Char-path}
use text.Mathlib.TextLemmas.{cons-append, nil-append}
use pantavisor.Prelude.{
  suc, ◌+◌, ◌≡◌, refl, ap, sym, ◌∙◌, String, true, false, ◌||◌, ◌==◌, arith, ==_iff, Bool-cases,
  inl, inr,
}
use pantavisor.Str.{has_prefix, drop_chars, strlen}

pub has_prefix-head :
    (c d : Char) (p s : String)
    → has_prefix (String.◌∷◌ c p) (String.◌∷◌ d s) ≡ true
    → (c ≡ d) × (has_prefix p s ≡ true)
unfolding has_prefix
has_prefix-head c d p s h = elim (Bool-cases (code c == code d)) [
  | inl y ↦ (Char-path c d ((==_iff (code c) (code d)).0 y), ground (arith, y, h))
  | inr n ↦ ground (arith, n, h)
]

pub prefix_split :
    (p s : String) → has_prefix p s ≡ true → s ≡ str_append p (drop_chars (strlen p) s)
unfolding drop_chars strlen has_prefix
prefix_split String.[] s h = sym (nil-append s)
prefix_split (String.◌∷◌ c p) String.[] h = ground (arith, h)
prefix_split (String.◌∷◌ c p) (String.◌∷◌ d s) h =
    let q = has_prefix-head c d p s h in
    ap (λ x. String.◌∷◌ x s) (sym q.0)
    ∙ ap (String.◌∷◌ c) (prefix_split p s q.1)
    ∙ sym (cons-append c p (drop_chars (strlen p) s))

pub has_prefix-append : (p s : String) → has_prefix p (str_append p s) ≡ true
unfolding has_prefix
has_prefix-append String.[] s = refl
has_prefix-append (String.◌∷◌ c p) s = ground (arith, cons-append c p s, has_prefix-append p s)

-- One of two texts that a third starts with starts with the other.
prefixes_agree :
    (j k e : String)
    → has_prefix j e ≡ true
    → has_prefix k e ≡ true
    → (has_prefix j k || has_prefix k j) ≡ true
unfolding has_prefix
prefixes_agree String.[] k e h g = refl
prefixes_agree (String.◌∷◌ c j) String.[] e h g = ground arith
prefixes_agree (String.◌∷◌ c j) (String.◌∷◌ d k) String.[] h g = ground (arith, h)
prefixes_agree (String.◌∷◌ c j) (String.◌∷◌ d k) (String.◌∷◌ x e) h g =
    ground (arith, h, g, prefixes_agree j k e)

pub apart :
    (j k e : String)
    → (has_prefix j k || has_prefix k j) ≡ false
    → has_prefix k e ≡ true
    → has_prefix j e ≡ false
apart j k e n g = ground (arith, n, g, prefixes_agree j k e)

pub strlen-append : (s t : String) → strlen (str_append s t) ≡ strlen s + strlen t
unfolding strlen
strlen-append String.[] t = ap strlen (nil-append t) ∙ omega arith
strlen-append (String.◌∷◌ c s) t = ap strlen (cons-append c s t) ∙ omega (arith, strlen-append s t)

pub drop-append : (s t : String) → drop_chars (strlen s) (str_append s t) ≡ t
unfolding drop_chars strlen
drop-append String.[] t = nil-append t
drop-append (String.◌∷◌ c s) t =
    ap (drop_chars (suc (strlen s))) (cons-append c s t) ∙ drop-append s t
