-- ===== src/Ctrl/Objects.antt =====
-- ctrl.c: an object only enters the store under a name that is its hash, whatever the request.
use pantavisor.Prelude.{
  ℕ, ◌+◌, ◌≡◌, ◌≢◌, sym, ap, ◌∙◌, inl, inr, refl, false≢true, String, Bool, true, false, not,
  Option, none, some, All, ◌==◌, if◌then◌else◌, arith, Bool-cases, ==_iff,
}
use Prim.Native.String.{◌++◌ as str_append}
use pantavisor.Str.{has_prefix, drop_chars, strlen}
use pantavisor.Str.Laws.{has_prefix-append, apart, strlen-append, drop-append}
use pantavisor.Ctrl.{
  CtrlEnv, CtrlState, CtrlAct, CreateResult, created, already_there, no_create, respond,
  respond_continue, create_file, remove_file, rename_file, error, act,
}
use pantavisor.Ctrl.Files.{
  path_under, path_objects, path_objects_tmp, save_chunks, pv_ctrl_process_put_file,
  pv_ctrl_validate_object_checksum, pv_ctrl_process_get_file, pv_ctrl_get_file_name,
}
use pantavisor.Ctrl.Request.{
  is_method, answer, put_object, object_named, request_object, CtrlRun, overrun, ret,
}

-- No object has that path.
abbrev pub IsNoObject : CtrlEnv → String → Type 0
IsNoObject env path = (name : String) → strlen name ≡ 64 → path ≢ path_objects env name

-- An object only gets its name, of 64 characters, when a file whose hash is that name is renamed, and
-- no file is created under an object's name.
abbrev pub ActOk : CtrlEnv → CtrlAct → Type 0
ActOk env (rename_file tmp path) =
    (name : String) × (strlen name ≡ 64)
    × (tmp ≡ path_objects_tmp env name)
    × (path ≡ path_objects env name)
    × (env.checksum_ok tmp name ≡ true)
ActOk env (create_file path) = IsNoObject env path
ActOk env _ = Unit

pub trails-IsNoObject :
    (env : CtrlEnv) (name tail : String) → IsNoObject env (path_under env "/trails/" name tail)
unfolding has_prefix
trails-IsNoObject env name tail n l e =
    let trails = str_append "/trails/" (str_append name tail) in
    let objects = str_append "/objects/" (str_append n "") in
    let same : trails ≡ objects =
      sym (drop-append env.mntpoint trails)
      ∙ ap (drop_chars (strlen env.mntpoint)) e
      ∙ drop-append env.mntpoint objects in
    let one : has_prefix "/objects/" trails ≡ false =
      apart "/objects/" "/trails/" trails refl
        (has_prefix-append "/trails/" (str_append name tail)) in
    let other : has_prefix "/objects/" trails ≡ true =
      ap (has_prefix "/objects/") same ∙ has_prefix-append "/objects/" (str_append n "") in
    false≢true (sym one ∙ other)

strlen-objects :
    (env : CtrlEnv) (name tail : String)
    → strlen (path_under env "/objects/" name tail)
      ≡ strlen env.mntpoint + (9 + (strlen name + strlen tail))
unfolding strlen
strlen-objects env name tail =
    strlen-append env.mntpoint (str_append "/objects/" (str_append name tail))
    ∙ ap (λ n. strlen env.mntpoint + n)
        (strlen-append "/objects/" (str_append name tail)
          ∙ ap (λ n. 9 + n) (strlen-append name tail))

tmp-IsNoObject :
    (env : CtrlEnv) (name : String) → strlen name ≡ 64 → IsNoObject env (path_objects_tmp env name)
unfolding strlen
tmp-IsNoObject env name k n l e =
    omega (arith, k, l, strlen-objects env name ".new", strlen-objects env n "", ap strlen e)

module _ {E : Type 0} where
  abbrev pub StateOk : CtrlEnv → CtrlState E → Type 0
  StateOk env s = All (ActOk env) s.acts

  abbrev pub RunOk : CtrlEnv → CtrlRun E → Type 0
  RunOk env overrun = Unit
  RunOk env (ret cmd s) = StateOk env s

  pub put_file-StateOk :
      (env : CtrlEnv) (len : ℕ) (path : String) (s : CtrlState E)
      → IsNoObject env path
      → StateOk env s
      → StateOk env (pv_ctrl_process_put_file env len path s).0
  unfolding pv_ctrl_process_put_file
  put_file-StateOk env len path s k h = opened (env.creates path)
    where
      saved :
          (b : Bool)
          → StateOk env
              (if◌then◌else◌ {A = CtrlState E × Bool} b
                (act (create_file path) (act respond_continue s), true)
                (
                  act
                      (remove_file path)
                      (act (respond error) (act (create_file path) (act respond_continue s))),
                  false,
                )).0
      saved true = (k, (tt, h))
      saved false = (tt, (tt, (k, (tt, h))))

      opened :
          (r : CreateResult)
          → StateOk env
              (elim r as (λ r. CtrlState E × Bool) [
                | already_there ↦ (act (respond error) (act respond_continue s), false)
                | no_create ↦
                    (act (remove_file path) (act (respond error) (act respond_continue s)), false)
                | created ↦
                    if save_chunks env.chunks len
                    then (act (create_file path) (act respond_continue s), true)
                    else (
                      act
                          (remove_file path)
                          (act (respond error) (act (create_file path) (act respond_continue s))),
                      false,
                    )
              ]).0
      opened already_there = (tt, (tt, h))
      opened no_create = (tt, (tt, (tt, h)))
      opened created = saved (save_chunks env.chunks len)

  pub get_file-StateOk :
      (env : CtrlEnv) (path : String) (s : CtrlState E)
      → StateOk env s
      → StateOk env (pv_ctrl_process_get_file env path s)
  unfolding pv_ctrl_process_get_file
  get_file-StateOk env path s h = ground (arith, h)

  pub if-StateOk :
      (env : CtrlEnv) (b : Bool) (s t : CtrlState E)
      → StateOk env s
      → StateOk env t
      → StateOk env (if b then s else t)
  if-StateOk env true s t h k = h
  if-StateOk env false s t h k = k

  validate-StateOk :
      (env : CtrlEnv) (name : String) (s : CtrlState E)
      → strlen name ≡ 64
      → StateOk env s
      → StateOk env
          (pv_ctrl_validate_object_checksum env
            (path_objects_tmp env name)
            (path_objects env name)
            name
            s).0
  unfolding pv_ctrl_validate_object_checksum
  validate-StateOk env name s l h = go (env.checksum_ok (path_objects_tmp env name) name) refl
    where
      go :
          (b : Bool)
          → env.checksum_ok (path_objects_tmp env name) name ≡ b
          → StateOk env
              (if◌then◌else◌ {A = CtrlState E × Bool} b
                (act (rename_file (path_objects_tmp env name) (path_objects env name)) s, true)
                (act (remove_file (path_objects_tmp env name)) s, false)).0
      go true e = ((name, l, refl, refl, e), h)
      go false e = (tt, h)

  put_object-StateOk :
      (env : CtrlEnv) (len : ℕ) (name : String) (s : CtrlState E)
      → strlen name ≡ 64
      → StateOk env s
      → StateOk env (put_object env len name s)
  unfolding put_object
  put_object-StateOk env len name s l h =
      let tmp = path_objects_tmp env name in
      let put = pv_ctrl_process_put_file env len tmp s in
      let v = pv_ctrl_validate_object_checksum env tmp (path_objects env name) name put.0 in
      let k = put_file-StateOk env len tmp s (tmp-IsNoObject env name l) h in
      let hv = validate-StateOk env name put.0 l k in
      if-StateOk env (not put.1) put.0 _ k (if-StateOk env v.1 _ _ (tt, (tt, hv)) (tt, hv))

  pub answer-StateOk :
      (env : CtrlEnv) (b : Bool) (s : CtrlState E) → StateOk env s → StateOk env (answer b s)
  answer-StateOk env b s h = if-StateOk env b _ _ (tt, h) (tt, h)

  object_named-StateOk :
      (env : CtrlEnv) (method : String) (len : ℕ) (name : String) (s : CtrlState E)
      → StateOk env s
      → StateOk env (object_named env method len name s)
  object_named-StateOk env method len name s h = elim (Bool-cases (strlen name == 64)) [
    | inl y ↦
        if-StateOk env (not (strlen name == 64)) _ _ (tt, h)
          (if-StateOk env (is_method "PUT" method) _ _
            (put_object-StateOk env len name s ((==_iff (strlen name) 64).0 y) h)
            (if-StateOk env (is_method "GET" method) _ _
              (get_file-StateOk env (path_objects env name) s h) (answer-StateOk env false s h)))
    | inr n ↦ ground (arith, n, h)
  ]

  pub request_object-RunOk :
      (env : CtrlEnv) (method path : String) (len : ℕ) (s : CtrlState E)
      → StateOk env s
      → RunOk env (request_object env method path len s)
  unfolding request_object
  request_object-RunOk env method path len s h =
      named-RunOk (pv_ctrl_get_file_name path 9 (strlen path))
    where
      named-RunOk :
          (o : Option String)
          → RunOk env (elim o [
            | none ↦ overrun
            | some name ↦
                ret none (
                  act
                    (remove_file (path_objects_tmp env name))
                    (object_named env method len name s))
          ])
      named-RunOk none = tt
      named-RunOk (some name) = (tt, object_named-StateOk env method len name s h)
