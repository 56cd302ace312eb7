-- ===== src/Uboot/Keys.antt =====
-- The entries of two keys, neither of which starts with the other.
use Prim.Native.Char.{char}
use Prim.Native.String.{◌++◌ as str_append}
use text.Mathlib.TextLemmas.{cons-append, nil-append, append_assoc}
use pantavisor.Prelude.{
  suc, ◌+◌, ◌≤◌, ◌≡◌, refl, sym, ap, ◌∙◌, String, Bool, true, false, not, ◌||◌, none, some, List,
  [], ◌∷◌, ◌++◌, All, if◌then◌else◌, arith,
}
use pantavisor.Str.{has_prefix, drop_chars, strlen}
use pantavisor.Str.Laws.{has_prefix-append, apart, strlen-append}
use pantavisor.Uboot.{others, entry_of}
use pantavisor.Uboot.Entries.{no_nul, is_clean}
use pantavisor.Uboot.Get.{first_value, is_longer}

pub others-All :
    (P : String → Type 0) (k : String) (es : List String) → All P es → All P (others k es)
others-All P k [] h = tt
others-All P k (e ∷ es) h = if-All (not (has_prefix k e)) (others-All P k es h.1)
  where
    if-All : (b : Bool) → All P (others k es) → All P (if b then e ∷ others k es else others k es)
    if-All true g = (h.0, g)
    if-All false g = g

pub All-snoc :
    (P : String → Type 0) (es : List String) (e : String) → All P es → P e → All P (es ++ e ∷ [])
All-snoc P [] e h k = (k, tt)
All-snoc P (x ∷ es) e h k = (h.0, All-snoc P es e h.1 k)

drop-key : (k v : String) → drop_chars (suc (strlen k)) (entry_of k v) ≡ v
unfolding drop_chars strlen
drop-key String.[] v = ap (drop_chars 1) (
    nil-append (str_append "=" v)
    ∙ cons-append (char 61 tt) "" v
    ∙ ap (String.◌∷◌ (char 61 tt)) (nil-append v))
drop-key (String.◌∷◌ c k) v =
    ap (drop_chars (suc (suc (strlen k)))) (cons-append c k (str_append "=" v)) ∙ drop-key k v

-- Behind the entries without a key, one for it has its value.
pub first_value-set :
    (k v : String) (es : List String) → first_value k (others k es ++ entry_of k v ∷ []) ≡ some v
first_value-set k v [] = ground (arith, has_prefix-append k (str_append "=" v), drop-key k v)
first_value-set k v (e ∷ es) = ground (arith, first_value-set k v es)

pub first_value-unset : (k : String) (es : List String) → first_value k (others k es) ≡ none
first_value-unset k [] = refl
first_value-unset k (e ∷ es) = ground (arith, first_value-unset k es)

-- The value of another key stays.
pub first_value-others :
    (j k : String) (es : List String)
    → (has_prefix j k || has_prefix k j) ≡ false
    → first_value j (others k es) ≡ first_value j es
first_value-others j k [] n = refl
first_value-others j k (e ∷ es) n = ground (arith, first_value-others j k es n, apart j k e n)

pub first_value-others_set :
    (j k v : String) (es : List String)
    → (has_prefix j k || has_prefix k j) ≡ false
    → first_value j (others k es ++ entry_of k v ∷ []) ≡ first_value j es
first_value-others_set j k v [] n =
    ground (arith, apart j k (entry_of k v) n, has_prefix-append k (str_append "=" v))
first_value-others_set j k v (e ∷ es) n =
    ground (arith, first_value-others_set j k v es n, apart j k e n)

no_nul-append : (s t : String) → no_nul s ≡ true → no_nul t ≡ true → no_nul (str_append s t) ≡ true
no_nul-append String.[] t h k = ap no_nul (nil-append t) ∙ k
no_nul-append (String.◌∷◌ c s) t h k =
    ap no_nul (cons-append c s t) ∙ ground (arith, h, k, no_nul-append s t)

clean-append :
    (s t : String) → is_clean s ≡ true → no_nul t ≡ true → is_clean (str_append s t) ≡ true
clean-append String.[] t h k = ground (arith, h)
clean-append (String.◌∷◌ c s) t h k =
    ap is_clean (cons-append c s t) ∙ ground (arith, h, k, no_nul-append s t)

pub entry-clean :
    (k v : String) → is_clean k ≡ true → no_nul v ≡ true → is_clean (entry_of k v) ≡ true
entry-clean k v h g = clean-append k (str_append "=" v) h (no_nul-append "=" v refl g)

pub strlen-entry : (k v : String) → strlen (entry_of k v) ≡ strlen k + (1 + strlen v)
unfolding strlen
strlen-entry k v = strlen-append k (str_append "=" v) ∙ ap (λ n. strlen k + n) (strlen-append "=" v)

pub entry-longer : (j k v : String) → strlen j ≤ strlen k → is_longer j (entry_of k v) ≡ true
entry-longer j k v h = ground (arith, h, strlen-entry k v)

pub entry_assoc : (k v : String) → entry_of k v ≡ str_append (str_append k "=") v
entry_assoc k v = sym (append_assoc k "=" v)
