-- ===== src/Bootloader/Commit.antt =====
-- What committing, installing and failing a revision leave in the bootloader's record and in its
-- environment. The environment's laws are a section's parameter.
use pantavisor.Prelude.{String, true, false, ◌≡◌, none, some, arith}
use pantavisor.Bootloader.{
  BlOps, Bootloader, pv_bootloader_set_installed, pv_bootloader_set_commited,
  pv_bootloader_set_failed, pv_bootloader_update_in_progress,
}

-- What the bootloader's code relies on of its two keys, where the environment is well formed and
-- the value can be stored.
pub record BlLaws {E : Type 0} (ops : BlOps E) : Type 1 where
  pub IsGood : E → Type 0
  pub Fits : String → Type 0
  pub set_rev_good :
      (v : String) (e : E) → IsGood e → Fits v → IsGood (ops.set_env_key "pv_rev" v e).0
  pub set_try_good :
      (v : String) (e : E) → IsGood e → Fits v → IsGood (ops.set_env_key "pv_try" v e).0
  pub get_set_rev :
      (v : String) (e : E)
      → IsGood e
      → Fits v
      → ops.get_env_key "pv_rev" (ops.set_env_key "pv_rev" v e).0 ≡ some v
  pub get_set_try :
      (v : String) (e : E)
      → IsGood e
      → Fits v
      → ops.get_env_key "pv_try" (ops.set_env_key "pv_try" v e).0 ≡ some v
  pub rev_set_try :
      (v : String) (e : E)
      → IsGood e
      → Fits v
      → ops.get_env_key "pv_rev" (ops.set_env_key "pv_try" v e).0 ≡ ops.get_env_key "pv_rev" e
  pub get_unset_try :
      (e : E) → IsGood e → ops.get_env_key "pv_try" (ops.unset_env_key "pv_try" e).0 ≡ none
  pub rev_unset_try :
      (e : E)
      → IsGood e
      → ops.get_env_key "pv_rev" (ops.unset_env_key "pv_try" e).0 ≡ ops.get_env_key "pv_rev" e
  pub unset_try_good : (e : E) → IsGood e → IsGood (ops.unset_env_key "pv_try" e).0
  pub rev_flush :
      (e : E) → IsGood e → ops.get_env_key "pv_rev" (ops.flush_env e).0 ≡ ops.get_env_key "pv_rev" e
  pub try_flush :
      (e : E)
      → IsGood e
      → ops.get_env_key "pv_try" e ≡ none
      → ops.get_env_key "pv_try" (ops.flush_env e).0 ≡ none

module _ {E : Type 0} (ops : BlOps E) (laws : BlLaws ops) where
  open laws use {IsGood, Fits}

  -- Over an environment with these laws, in a good state, and for a revision that fits: when
  -- committing it reports success, the record and the environment name it as the one to boot, and
  -- neither has a revision to try.
  pub commit_persists :
      (rev : String) (b : Bootloader E)
      → b.ops ≡ some ops
      → IsGood b.env
      → Fits rev
      → (pv_bootloader_set_commited rev b).1 ≡ true
      → let b' = (pv_bootloader_set_commited rev b).0 in
        (b'.pv_rev ≡ rev)
        × (b'.pv_done ≡ some rev)
        × (b'.pv_try ≡ none)
        × (ops.get_env_key "pv_rev" b'.env ≡ some rev)
        × (ops.get_env_key "pv_try" b'.env ≡ none)
  unfolding pv_bootloader_set_commited
  commit_persists rev b o g f h =
      let e1 = (ops.set_env_key "pv_rev" rev b.env).0 in
      let e2 = (ops.unset_env_key "pv_try" e1).0 in
      let g1 : IsGood e1 = laws.set_rev_good rev b.env g f in
      ground (
        arith,
        o,
        h,
        laws.get_set_rev rev b.env g f,
        laws.rev_unset_try e1 g1,
        laws.get_unset_try e1 g1,
        laws.rev_flush e2 (laws.unset_try_good e1 g1),
        laws.try_flush e2 (laws.unset_try_good e1 g1) (laws.get_unset_try e1 g1),
      )

  -- Over an environment with these laws, in a good state, and for a revision that fits: installing
  -- it leaves the one to fall back to, in the record and in the environment, and names the new one
  -- as the one to try.
  pub install_keeps_fallback :
      (rev : String) (b : Bootloader E)
      → b.ops ≡ some ops
      → IsGood b.env
      → Fits rev
      → let b' = (pv_bootloader_set_installed rev b).0 in
        (b'.pv_rev ≡ b.pv_rev)
        × (b'.pv_done ≡ b.pv_done)
        × (ops.get_env_key "pv_rev" b'.env ≡ ops.get_env_key "pv_rev" b.env)
        × (b'.pv_try ≡ some rev)
        × (ops.get_env_key "pv_try" b'.env ≡ some rev)
  unfolding pv_bootloader_set_installed
  install_keeps_fallback rev b o g f =
      ground (arith, o, laws.get_set_try rev b.env g f, laws.rev_set_try rev b.env g f)

  -- Failing an update ends it: no revision is to be tried any more, in the record and in the
  -- environment, and the one to fall back to stays.
  pub fail_ends_update :
      (b : Bootloader E)
      → b.ops ≡ some ops
      → IsGood b.env
      → let b' = (pv_bootloader_set_failed b).0 in
        (pv_bootloader_update_in_progress b' ≡ false)
        × (ops.get_env_key "pv_try" b'.env ≡ none)
        × (b'.pv_done ≡ b.pv_done)
        × (ops.get_env_key "pv_rev" b'.env ≡ ops.get_env_key "pv_rev" b.env)
  unfolding pv_bootloader_set_failed pv_bootloader_update_in_progress
  fail_ends_update b o g = ground (arith, o, laws.get_unset_try b.env g, laws.rev_unset_try b.env g)
