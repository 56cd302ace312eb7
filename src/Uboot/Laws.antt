-- ===== src/Uboot/Laws.antt =====
-- uboot.c keeps the contract that bootloader.c relies on.
use pantavisor.Prelude.{
  ◌≤◌, ◌≡◌, refl, sym, ap, ◌∙◌, String, Bool, true, false, Option, none, some, List, [], ◌∷◌, ◌++◌,
  All, arith,
}
use pantavisor.Str.{has_prefix, strlen}
use pantavisor.Bootloader.{
  Bootloader, pv_bootloader_set_commited, pv_bootloader_set_installed, pv_bootloader_set_failed,
}
use pantavisor.Bootloader.Commit.{BlLaws, commit_persists, install_keeps_fallback, fail_ends_update}
use pantavisor.Uboot.{
  render, others, entry_of, uboot_unset_env_key, uboot_set_env_key, uboot_get_env_key,
  uboot_flush_env, uboot_ops,
}
use pantavisor.Uboot.Entries.{no_nul, is_clean, scan-render}
use pantavisor.Uboot.Get.{first_value, is_longer, get_loop-render}
use pantavisor.Uboot.Keys.{
  others-All, All-snoc, first_value-set, first_value-unset, first_value-others,
  first_value-others_set, entry-clean, strlen-entry, entry-longer,
}

-- An entry that a scan finds, and that has a character behind the key if it starts with one of the
-- bootloader's: `pv_rev` and `pv_try` alone are no such entries, `pv_trying=1` is one.
abbrev pub IsEntry : String → Type 0
IsEntry e = (is_clean e ≡ true) × (is_longer "pv_rev" e ≡ true) × (is_longer "pv_try" e ≡ true)

-- An environment of such entries.
abbrev pub IsGoodEnv : Option String → Type 0
IsGoodEnv env = (es : List String) × (env ≡ some (render es)) × All IsEntry es

-- A value without NUL that leaves the buffer `v` room for the key.
abbrev pub FitsEnv : String → Type 0
FitsEnv v = (no_nul v ≡ true) × (strlen v ≤ 120)

clean_of : (es : List String) → All IsEntry es → All (λ e. is_clean e ≡ true) es
clean_of [] h = tt
clean_of (e ∷ es) h = (h.0.0, clean_of es h.1)

rev_longer : (es : List String) → All IsEntry es → All (λ e. is_longer "pv_rev" e ≡ true) es
rev_longer [] h = tt
rev_longer (e ∷ es) h = (h.0.1, rev_longer es h.1)

try_longer : (es : List String) → All IsEntry es → All (λ e. is_longer "pv_try" e ≡ true) es
try_longer [] h = tt
try_longer (e ∷ es) h = (h.0.2, try_longer es h.1)

-- On such an environment the three operations are those on its entries.
unset-render :
    (k : String) (es : List String)
    → All IsEntry es
    → (uboot_unset_env_key k (some (render es))).0 ≡ some (render (others k es))
unfolding uboot_unset_env_key
unset-render k es h = ap (λ l. some (render (others k l))) (scan-render es (clean_of es h))

set-render :
    (k v : String) (es : List String)
    → All IsEntry es
    → strlen k ≡ 6
    → FitsEnv v
    → (uboot_set_env_key k v (some (render es))).0
      ≡ some (render (others k es ++ entry_of k v ∷ []))
unfolding uboot_set_env_key
set-render k v es h l f = ground (arith, l, f.1, strlen-entry k v, scan-render es (clean_of es h))

get_rev-render :
    (es : List String)
    → All IsEntry es
    → uboot_get_env_key "pv_rev" (some (render es)) ≡ first_value "pv_rev" es
unfolding uboot_get_env_key
get_rev-render es h = get_loop-render "pv_rev" es refl (clean_of es h) (rev_longer es h)

get_try-render :
    (es : List String)
    → All IsEntry es
    → uboot_get_env_key "pv_try" (some (render es)) ≡ first_value "pv_try" es
unfolding uboot_get_env_key
get_try-render es h = get_loop-render "pv_try" es refl (clean_of es h) (try_longer es h)

rev-IsEntry : (v : String) → FitsEnv v → IsEntry (entry_of "pv_rev" v)
unfolding strlen has_prefix
rev-IsEntry v f = (
  entry-clean "pv_rev" v refl f.0,
  entry-longer "pv_rev" "pv_rev" v (omega arith),
  entry-longer "pv_try" "pv_rev" v (omega arith),
)

try-IsEntry : (v : String) → FitsEnv v → IsEntry (entry_of "pv_try" v)
unfolding strlen has_prefix
try-IsEntry v f = (
  entry-clean "pv_try" v refl f.0,
  entry-longer "pv_rev" "pv_try" v (omega arith),
  entry-longer "pv_try" "pv_try" v (omega arith),
)

set_entries :
    (k v : String) (es : List String)
    → All IsEntry es
    → IsEntry (entry_of k v)
    → All IsEntry (others k es ++ entry_of k v ∷ [])
set_entries k v es h e = All-snoc IsEntry (others k es) (entry_of k v) (others-All IsEntry k es h) e

first_value-none :
    (j k : String) (es : List String) → first_value j es ≡ none → first_value j (others k es) ≡ none
first_value-none j k [] h = refl
first_value-none j k (e ∷ es) h = ground (arith, h, first_value-none j k es)

flush_rev :
    (b : Bool) (es : List String)
    → All IsEntry es
    → uboot_get_env_key "pv_rev" (uboot_flush_env b (some (render es))).0
      ≡ uboot_get_env_key "pv_rev" (some (render es))
unfolding uboot_flush_env has_prefix
flush_rev true es h =
    ap (uboot_get_env_key "pv_rev") (unset-render "pv_trying" es h)
    ∙ get_rev-render _ (others-All IsEntry "pv_trying" es h)
    ∙ first_value-others "pv_rev" "pv_trying" es refl
    ∙ sym (get_rev-render es h)
flush_rev false es h = refl

flush_try :
    (b : Bool) (es : List String)
    → All IsEntry es
    → uboot_get_env_key "pv_try" (some (render es)) ≡ none
    → uboot_get_env_key "pv_try" (uboot_flush_env b (some (render es))).0 ≡ none
unfolding uboot_flush_env
flush_try true es h n =
    ap (uboot_get_env_key "pv_try") (unset-render "pv_trying" es h)
    ∙ get_try-render _ (others-All IsEntry "pv_trying" es h)
    ∙ first_value-none "pv_try" "pv_trying" es (sym (get_try-render es h) ∙ n)
flush_try false es h n = n

-- With an environment of its own, flushing takes U-Boot's `pv_trying` out of it and leaves every
-- other entry as it was.
pub flush_removes_trying :
    (es : List String)
    → All IsEntry es
    → (uboot_flush_env true (some (render es))).0 ≡ some (render (others "pv_trying" es))
unfolding uboot_flush_env
flush_removes_trying es h = unset-render "pv_trying" es h

-- The operations of uboot.c on an environment keep the contract of the bootloader's, with or
-- without an environment of its own for U-Boot, where the environment is made of entries as
-- above, `pv_trying` among them or not, and a value has no NUL and at most 120 characters.
pub uboot_laws : (single_env : Bool) → BlLaws (uboot_ops single_env)
unfolding strlen has_prefix
uboot_laws single_env = record {
  IsGood = IsGoodEnv;
  Fits = FitsEnv;
  set_rev_good = λ v e (es, q, h) f. (
    others "pv_rev" es ++ entry_of "pv_rev" v ∷ [],
    ap (λ x. (uboot_set_env_key "pv_rev" v x).0) q ∙ set-render "pv_rev" v es h refl f,
    set_entries "pv_rev" v es h (rev-IsEntry v f),
  );
  set_try_good = λ v e (es, q, h) f. (
    others "pv_try" es ++ entry_of "pv_try" v ∷ [],
    ap (λ x. (uboot_set_env_key "pv_try" v x).0) q ∙ set-render "pv_try" v es h refl f,
    set_entries "pv_try" v es h (try-IsEntry v f),
  );
  get_set_rev = λ v e (es, q, h) f.
      ap (λ x. uboot_get_env_key "pv_rev" (uboot_set_env_key "pv_rev" v x).0) q
      ∙ ap (uboot_get_env_key "pv_rev") (set-render "pv_rev" v es h refl f)
      ∙ get_rev-render _ (set_entries "pv_rev" v es h (rev-IsEntry v f))
      ∙ first_value-set "pv_rev" v es;
  get_set_try = λ v e (es, q, h) f.
      ap (λ x. uboot_get_env_key "pv_try" (uboot_set_env_key "pv_try" v x).0) q
      ∙ ap (uboot_get_env_key "pv_try") (set-render "pv_try" v es h refl f)
      ∙ get_try-render _ (set_entries "pv_try" v es h (try-IsEntry v f))
      ∙ first_value-set "pv_try" v es;
  rev_set_try = λ v e (es, q, h) f.
      ap (λ x. uboot_get_env_key "pv_rev" (uboot_set_env_key "pv_try" v x).0) q
      ∙ ap (uboot_get_env_key "pv_rev") (set-render "pv_try" v es h refl f)
      ∙ get_rev-render _ (set_entries "pv_try" v es h (try-IsEntry v f))
      ∙ first_value-others_set "pv_rev" "pv_try" v es refl
      ∙ sym (get_rev-render es h)
      ∙ sym (ap (uboot_get_env_key "pv_rev") q);
  get_unset_try = λ e (es, q, h).
      ap (λ x. uboot_get_env_key "pv_try" (uboot_unset_env_key "pv_try" x).0) q
      ∙ ap (uboot_get_env_key "pv_try") (unset-render "pv_try" es h)
      ∙ get_try-render _ (others-All IsEntry "pv_try" es h)
      ∙ first_value-unset "pv_try" es;
  rev_unset_try = λ e (es, q, h).
      ap (λ x. uboot_get_env_key "pv_rev" (uboot_unset_env_key "pv_try" x).0) q
      ∙ ap (uboot_get_env_key "pv_rev") (unset-render "pv_try" es h)
      ∙ get_rev-render _ (others-All IsEntry "pv_try" es h)
      ∙ first_value-others "pv_rev" "pv_try" es refl
      ∙ sym (get_rev-render es h)
      ∙ sym (ap (uboot_get_env_key "pv_rev") q);
  unset_try_good = λ e (es, q, h). (
    others "pv_try" es,
    ap (λ x. (uboot_unset_env_key "pv_try" x).0) q ∙ unset-render "pv_try" es h,
    others-All IsEntry "pv_try" es h,
  );
  rev_flush = λ e (es, q, h).
      ap (λ x. uboot_get_env_key "pv_rev" (uboot_flush_env single_env x).0) q
      ∙ flush_rev single_env es h
      ∙ sym (ap (uboot_get_env_key "pv_rev") q);
  try_flush = λ e (es, q, h) n.
      ap (λ x. uboot_get_env_key "pv_try" (uboot_flush_env single_env x).0) q
      ∙ flush_try single_env es h (sym (ap (uboot_get_env_key "pv_try") q) ∙ n);
}

-- On an environment of non-empty entries without NUL, none of which starts with 0xFF or is `pv_rev`
-- or `pv_try` without a character behind it, and in which U-Boot's `pv_trying` may be one, and for
-- a revision without NUL and of at most 120 characters: when committing it reports success, reading
-- U-Boot's environment finds it as the revision to boot and finds none to try, and when it is
-- installed instead, reading finds it as the one to try and the revision to boot as before.
pub uboot_updates :
    (single_env : Bool) (rev : String) (b : Bootloader (Option String))
    → b.ops ≡ some (uboot_ops single_env)
    → IsGoodEnv b.env
    → FitsEnv rev
    → (pv_bootloader_set_commited rev b).1 ≡ true
    → let committed = (pv_bootloader_set_commited rev b).0 in
      let installed = (pv_bootloader_set_installed rev b).0 in
      (uboot_get_env_key "pv_rev" committed.env ≡ some rev)
      × (uboot_get_env_key "pv_try" committed.env ≡ none)
      × (uboot_get_env_key "pv_try" installed.env ≡ some rev)
      × (uboot_get_env_key "pv_rev" installed.env ≡ uboot_get_env_key "pv_rev" b.env)
unfolding uboot_laws
uboot_updates single_env rev b o g f h =
    let laws = uboot_laws single_env in
    let c = commit_persists (uboot_ops single_env) laws rev b o g f h in
    let i = install_keeps_fallback (uboot_ops single_env) laws rev b o g f in (c.3, c.4, i.4, i.2)

-- On an environment of non-empty entries without NUL, none of which starts with 0xFF or is `pv_rev`
-- or `pv_try` without a character behind it, and in which U-Boot's `pv_trying` may be one: failing
-- an update leaves none to try in it, and the revision to boot as before.
pub uboot_fails :
    (single_env : Bool) (b : Bootloader (Option String))
    → b.ops ≡ some (uboot_ops single_env)
    → IsGoodEnv b.env
    → let b' = (pv_bootloader_set_failed b).0 in
      (uboot_get_env_key "pv_try" b'.env ≡ none)
      × (uboot_get_env_key "pv_rev" b'.env ≡ uboot_get_env_key "pv_rev" b.env)
unfolding uboot_laws
uboot_fails single_env b o g =
    let f = fail_ends_update (uboot_ops single_env) (uboot_laws single_env) b o g in (f.1, f.3)
