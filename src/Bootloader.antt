-- ===== src/Bootloader.antt =====
-- bootloader.c: the revisions that the bootloader knows. `BlOps` is `struct bl_ops` of bootloader.h
-- over an environment `E`, which uboot.c and grub.c implement. An `int` result is `true` where it is
-- 0. The cached strings and the environment are one record here.
pub mod Commit
use Prim.Native.Char.{code}
use Prim.Native.String
use pantavisor.Str.{has_prefix, drop_chars}
use pantavisor.Prelude.{
  ℕ, zero, suc, String, Bool, true, false, not, ◌==◌, ◌&&◌, Option, none, some, List, [], ◌∷◌,
  str_eq, is_some, if◌then◌else◌,
}

pub record BlOps (E : Type 0) : Type 0 where
  pub set_env_key : String → String → E → E × Bool
  pub unset_env_key : String → E → E × Bool
  pub get_env_key : String → E → Option String
  pub flush_env : E → E × Bool

-- `struct pv_bootloader`, the pointer `ops` (null before `pv_bl_init`), and the environment.
pub record Bootloader (E : Type 0) : Type 0 where
  pub pv_rev : String
  pub pv_try : Option String
  pub pv_done : Option String
  pub ops : Option (BlOps E)
  pub env : E

module _ {E : Type 0} where
  unfoldable pub pv_bootloader_set_rev : String → Bootloader E → Bootloader E × Bool
  pv_bootloader_set_rev rev b = elim b.ops [
    | none ↦ (b, false)
    | some ops ↦
        let (env, done) = ops.set_env_key "pv_rev" rev b.env in
        (record b { pv_rev = rev; pv_done = some rev; env = env }, done)
  ]

  unfoldable pub pv_bootloader_set_try : String → Bootloader E → Bootloader E × Bool
  pv_bootloader_set_try rev b = elim b.ops [
    | none ↦ (b, false)
    | some ops ↦
        let (env, done) = ops.set_env_key "pv_try" rev b.env in
        (record b { pv_try = some rev; env = env }, done)
  ]

  unfoldable pub pv_bootloader_unset_try : Bootloader E → Bootloader E × Bool
  pv_bootloader_unset_try b = elim b.ops [
    | none ↦ (b, false)
    | some ops ↦
        let (env, done) = ops.unset_env_key "pv_try" b.env in
        (record b { pv_try = none; env = env }, done)
  ]

  -- A revision to try is there, and is not the empty text.
  unfoldable pub pv_bootloader_update_in_progress : Bootloader E → Bool
  pv_bootloader_update_in_progress b = elim b.pv_try [
    | none ↦ false
    | some rev ↦ not (str_eq rev "")
  ]

  -- The running revision is the one to try.
  unfoldable pub pv_bootloader_trying_update : Bootloader E → Bool
  unfolding pv_bootloader_update_in_progress
  pv_bootloader_trying_update b = elim b.pv_try [
    | none ↦ false
    | some rev ↦ pv_bootloader_update_in_progress b && str_eq b.pv_rev rev
  ]

  unfoldable pub pv_bootloader_set_installed : String → Bootloader E → Bootloader E × Bool
  unfolding pv_bootloader_set_try
  pv_bootloader_set_installed rev b = pv_bootloader_set_try rev b

  abbrev flush : Bootloader E → Bootloader E × Bool
  flush b = elim b.ops [
    | none ↦ (b, false)
    | some ops ↦ let (env, done) = ops.flush_env b.env in (record b { env = env }, done)
  ]

  -- `set_rev || unset_try || flush_env`: the first failure ends it.
  unfoldable pub pv_bootloader_set_commited : String → Bootloader E → Bootloader E × Bool
  unfolding pv_bootloader_set_rev pv_bootloader_unset_try
  pv_bootloader_set_commited rev b =
      let (b1, ok1) = pv_bootloader_set_rev rev b in
      let (b2, ok2) = pv_bootloader_unset_try b1 in
      if not (is_some b.ops)
      then (b, false)
      else if not ok1
      then (b1, false)
      else if not ok2
      then (b2, false)
      else flush b2

  unfoldable pub pv_bootloader_set_failed : Bootloader E → Bootloader E × Bool
  unfolding pv_bootloader_unset_try
  pv_bootloader_set_failed b = pv_bootloader_unset_try b

abbrev pub cmdline_offset : ℕ
cmdline_offset = 7

-- The loop over the tokens of the kernel's command line: the revision and the one to try.
unfoldable pub read_cmdline : List String → String → Option String → String × Option String
unfolding has_prefix drop_chars
read_cmdline [] rev try = (rev, try)
read_cmdline (token ∷ tokens) rev try = elim (has_prefix "pv_rev=" token) [
  | true ↦ read_cmdline tokens (drop_chars cmdline_offset token) try
  | false ↦
      read_cmdline tokens rev
        (if has_prefix "pv_try=" token then some (drop_chars cmdline_offset token) else try)
]

-- What `pv_bl_init` finds: operations, if the configured type is known, and whether `init` worked.
pub record BlInit (E : Type 0) : Type 0 where
  pub ops : Option (BlOps E)
  pub init_works : Bool

-- `cmdline` is absent if it cannot be read; `done_before` is what the static variable held.
unfoldable pub pv_bl_early_init :
    {E : Type 0} → Option (List String) → BlInit E → Option String → E → Bootloader E × Bool
unfolding read_cmdline
pv_bl_early_init none found done_before env =
    (record { pv_rev = "0"; pv_try = none; pv_done = done_before; ops = none; env = env }, false)
pv_bl_early_init (some tokens) found done_before env =
    let (rev, try) = read_cmdline tokens "0" none in
    elim found.ops [
      | none ↦ (
        record { pv_rev = rev; pv_try = try; pv_done = done_before; ops = none; env = env },
        false,
      )
      | some ops ↦
          if found.init_works
          then (
            record {
              pv_rev = rev;
              pv_try = try;
              pv_done = elim (ops.get_env_key "pv_rev" env) [
                | none ↦ some rev
                | some buf ↦ some buf
              ];
              ops = some ops;
              env = env;
            },
            true,
          )
          else (
            record { pv_rev = rev; pv_try = try; pv_done = done_before; ops = some ops; env = env },
            false,
          )
    ]
