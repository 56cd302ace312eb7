-- ===== src/Uboot/Get.antt =====
-- Reading a key among rendered entries finds the first entry that starts with it.
use Prim.Native.Char.{nul}
use Prim.Native.String.{◌++◌ as str_append}
use text.Mathlib.TextLemmas.{cons-append, nil-append}
use pantavisor.Prelude.{
  ℕ, zero, suc, ◌≤◌, ◌≡◌, refl, ap, ◌∙◌, String, Bool, true, Option, none, some, List, [], ◌∷◌, All,
  if◌then◌else◌, arith, leb, Bool-cases, inl, inr,
}
use pantavisor.Str.{has_prefix, drop_chars, strlen}
use pantavisor.Uboot.{render, c_string, get_loop}
use pantavisor.Uboot.Entries.{no_nul, is_clean}

-- The value is what stands behind the key and one more character.
abbrev pub first_value : String → List String → Option String
first_value key [] = none
first_value key (e ∷ es) =
    if has_prefix key e then some (drop_chars (suc (strlen key)) e) else first_value key es

-- An entry that starts with the key has a character behind it.
abbrev pub is_longer : String → String → Bool
is_longer key e = if has_prefix key e then leb (suc (strlen key)) (strlen e) else true

prefix-ended :
    (key e s : String)
    → no_nul key ≡ true
    → has_prefix key (str_append e (String.◌∷◌ nul s)) ≡ has_prefix key e
unfolding has_prefix
prefix-ended String.[] e s h = refl
prefix-ended (String.◌∷◌ k key) String.[] s h =
    ap (has_prefix (String.◌∷◌ k key)) (nil-append (String.◌∷◌ nul s)) ∙ ground (arith, h)
prefix-ended (String.◌∷◌ k key) (String.◌∷◌ c e) s h =
    ap (has_prefix (String.◌∷◌ k key)) (cons-append c e (String.◌∷◌ nul s))
    ∙ ground (arith, h, prefix-ended key e s)

c_string-ended : (e s : String) → no_nul e ≡ true → c_string (str_append e (String.◌∷◌ nul s)) ≡ e
unfolding c_string
c_string-ended String.[] s h = ap c_string (nil-append (String.◌∷◌ nul s)) ∙ ground arith
c_string-ended (String.◌∷◌ c e) s h =
    ap c_string (cons-append c e (String.◌∷◌ nul s)) ∙ ground (arith, h, c_string-ended e s)

drop-ended :
    (n : ℕ) (e s : String)
    → no_nul e ≡ true
    → n ≤ strlen e
    → c_string (drop_chars n (str_append e (String.◌∷◌ nul s))) ≡ drop_chars n e
unfolding drop_chars strlen
drop-ended zero e s h k = c_string-ended e s h
drop-ended (suc n) String.[] s h k = ground (arith, k)
drop-ended (suc n) (String.◌∷◌ c e) s h k =
    ap (λ t. c_string (drop_chars (suc n) t)) (cons-append c e (String.◌∷◌ nul s))
    ∙ drop-ended n e s (ground (arith, h)) (ground (arith, k))

get_loop-ended :
    (key from e s : String)
    → no_nul e ≡ true
    → get_loop key from (str_append e (String.◌∷◌ nul s)) ≡ (
        if has_prefix key from
        then some (c_string (drop_chars (suc (strlen key)) from))
        else get_loop key s s)
unfolding get_loop
get_loop-ended key from String.[] s h =
    ap (get_loop key from) (nil-append (String.◌∷◌ nul s)) ∙ ground arith
get_loop-ended key from (String.◌∷◌ c e) s h =
    ap (get_loop key from) (cons-append c e (String.◌∷◌ nul s))
    ∙ ground (arith, h, get_loop-ended key from e s)

clean-no_nul : (e : String) → is_clean e ≡ true → no_nul e ≡ true
clean-no_nul String.[] h = refl
clean-no_nul (String.◌∷◌ c e) h = ground (arith, h)

get_loop-nil : (key : String) → get_loop key String.[] String.[] ≡ none
unfolding get_loop
get_loop-nil key = refl

pub get_loop-render :
    (key : String) (es : List String)
    → no_nul key ≡ true
    → All (λ e. is_clean e ≡ true) es
    → All (λ e. is_longer key e ≡ true) es
    → get_loop key (render es) (render es) ≡ first_value key es
unfolding render
get_loop-render key [] k h l = get_loop-nil key
get_loop-render key (e ∷ es) k h l =
    let s = render es in
    let nn = clean-no_nul e h.0 in
    let from = str_append e (String.◌∷◌ nul s) in
    let here : get_loop key from from ≡ _ = get_loop-ended key from e s nn in
    elim (Bool-cases (has_prefix key e)) [
      | inl y ↦ ground (
        arith,
        here,
        prefix-ended key e s k,
        y,
        drop-ended (suc (strlen key)) e s nn (ground (arith, y, l.0)),
      )
      | inr n ↦ ground (arith, here, prefix-ended key e s k, n, get_loop-render key es k h.1 l.1)
    ]
