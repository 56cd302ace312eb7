-- ===== src/Tests/Boot.antt =====
-- Runs of the bootloader's record over the environment of two keys.
use pantavisor.Prelude.{◌≡◌, refl, true, none, some}
use pantavisor.Bootloader.{Bootloader, pv_bootloader_set_commited}
use pantavisor.Bootloader.Commit.{BlLaws, commit_persists}
use pantavisor.Tests.{Env, env_ops, boot_new}

abbrev env_laws : BlLaws env_ops
env_laws = record {
  IsGood = λ e. Unit;
  Fits = λ v. Unit;
  set_rev_good = λ v e g f. tt;
  set_try_good = λ v e g f. tt;
  get_set_rev = λ v e g f. refl;
  get_set_try = λ v e g f. refl;
  rev_set_try = λ v e g f. refl;
  get_unset_try = λ e g. refl;
  rev_unset_try = λ e g. refl;
  unset_try_good = λ e g. tt;
  rev_flush = λ e g. refl;
  try_flush = λ e g n. n;
}

abbrev after_commit : Bootloader Env
after_commit = (pv_bootloader_set_commited "5" boot_new).0

committed : (pv_bootloader_set_commited "5" boot_new).1 ≡ true
unfolding pv_bootloader_set_commited
committed = refl

commit_persists_example :
    (after_commit.pv_rev ≡ "5")
    × (after_commit.pv_done ≡ some "5")
    × (after_commit.pv_try ≡ none)
    × (env_ops.get_env_key "pv_rev" after_commit.env ≡ some "5")
    × (env_ops.get_env_key "pv_try" after_commit.env ≡ none)
commit_persists_example = commit_persists env_ops env_laws "5" boot_new refl tt tt committed
