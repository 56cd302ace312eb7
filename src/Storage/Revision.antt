-- ===== src/Storage/Revision.antt =====
-- storage.c: which revisions are the device's own.
use Prim.Native.Char.{code}
use Prim.Native.String.{◌++◌ as str_append}
use pantavisor.Prelude.{
  ℕ, suc, ◌+◌, ◌≡◌, ◌↔◌, ap, ◌∙◌, String, Bool, true, false, ◌==◌, if◌then◌else◌, arith,
}
use text.Mathlib.TextLemmas.{cons-append, nil-append}
use pantavisor.Str.{has_prefix, drop_chars, strlen}
use pantavisor.Str.Laws.{prefix_split, has_prefix-append}

-- `strchr(rev, '/')`: where the first slash stands, if there is one. The last one is `strrchr`'s.
abbrev pub slashes : String → ℕ
slashes String.[] = 0
slashes (String.◌∷◌ c s) = if code c == 47 then suc (slashes s) else slashes s

-- The first slash is the last one where there is exactly one.
unfoldable pub pv_storage_is_revision_local : String → Bool
pv_storage_is_revision_local rev = if has_prefix "locals/" rev then slashes rev == 1 else false

slashes-append : (s t : String) → slashes (str_append s t) ≡ slashes s + slashes t
slashes-append String.[] t = ap slashes (nil-append t) ∙ omega arith
slashes-append (String.◌∷◌ c s) t =
    ap slashes (cons-append c s t) ∙ ground (arith, slashes-append s t)

-- A revision is the device's own exactly when its name is `locals/` and a text without a slash.
pub is_local_iff :
    (rev : String)
    → (pv_storage_is_revision_local rev ≡ true)
      ↔ ((name : String) × (rev ≡ str_append "locals/" name) × (slashes name ≡ 0))
unfolding pv_storage_is_revision_local
is_local_iff rev = (
  λ h.
      let name = drop_chars (strlen "locals/") rev in
      let e : rev ≡ str_append "locals/" name = prefix_split "locals/" rev (ground (arith, h)) in
      (name, e, ground (arith, h, ap slashes e, slashes-append "locals/" name)),
  λ (name, e, n).
      ap pv_storage_is_revision_local e
      ∙ ground (arith, n, has_prefix-append "locals/" name, slashes-append "locals/" name),
)
