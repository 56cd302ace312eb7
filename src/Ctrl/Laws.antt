-- ===== src/Ctrl/Laws.antt =====
-- The control socket's commands in the controller, and what its requests do to the objects.
use pantavisor.Prelude.{
  ℕ, ◌≡◌, refl, subst, String, Bool, true, false, ◌&&◌, Option, none, some, List, ◌==◌,
  if◌then◌else◌, arith,
}
use pantavisor.Str.{pv_str_startswith, pv_str_matches, pv_str_endswith}
use pantavisor.Updater.{
  CmdOp, cmd_update_metadata, cmd_reboot_device, cmd_poweroff_device, cmd_local_run,
  cmd_make_factory, cmd_run_gc, cmd_other, PvCmd,
}
use pantavisor.Controller.{
  pv_state_wait, pv_state_reboot, pv_state_poweroff, Controller, World, StepRun,
}
use pantavisor.Controller.Command.{
  factory_rev, done_with, take_local, parse_metadata, collect, _pv_command,
}
use pantavisor.Ctrl.{
  bad_req, pv_ctrl_process_cmd, CtrlEnv, CtrlState, respond, respond_ok, act, pv_ctrl_check_command,
}
use pantavisor.Ctrl.Request.{
  is_method, pv_ctrl_get_value_header_int, is_method, request_command, request_text, request_object,
  request_progress, request_commitmsg, request_step, request_usermeta, request_endpoint, http,
  CtrlRun, overrun, ret, pv_ctrl_read_parse_request,
}

module _ {E : Type 0} where
  -- What a command does in a state in which nothing rules it out: `UPDATE_METADATA` adds to the meta
  -- data and `RUN_GC` runs the collector. `TRY_ONCE` is unknown to the controller, which ignores it.
  abbrev pub executed : World → CmdOp → String → Controller E → StepRun E
  executed w cmd_reboot_device payload c = done_with c c.pv pv_state_reboot
  executed w cmd_poweroff_device payload c = done_with c c.pv pv_state_poweroff
  executed w cmd_local_run payload c = take_local w payload c
  executed w cmd_make_factory payload c =
      if w.update_factory (factory_rev payload c.pv.state)
      then take_local w "0" c
      else done_with c c.pv pv_state_wait
  executed w cmd_update_metadata payload c = parse_metadata w payload c
  executed w cmd_run_gc payload c = collect w c
  executed w cmd_other payload c = done_with c c.pv pv_state_wait

  -- A command that the check of the socket lets through, and that the controller finds in the same
  -- state, is carried out: none of the controller's own guards stops it.
  pub checked_command_runs :
      (w : World) (cmd : PvCmd) (s : CtrlState E) (c : Controller E)
      → (pv_ctrl_check_command cmd s).1 ≡ true
      → c.pv ≡ record s.pv { cmd = some cmd }
      → _pv_command w c ≡ executed w cmd.op cmd.payload c
  unfolding _pv_command pv_ctrl_check_command
  checked_command_runs w cmd s c h e = ground (arith, h, e)

  -- A command in a request's result passed the check in the state that the request found.
  abbrev CmdOk : CtrlState E → CtrlRun E → Type 0
  CmdOk s overrun = Unit
  CmdOk s (ret none s') = Unit
  CmdOk s (ret (some cmd) s') = (pv_ctrl_check_command cmd s).1 ≡ true

  if-CmdOk :
      (s : CtrlState E) (b : Bool) (r t : CtrlRun E)
      → CmdOk s r
      → CmdOk s t
      → CmdOk s (if b then r else t)
  if-CmdOk s true r t h k = h
  if-CmdOk s false r t h k = k

  file-CmdOk :
      (s : CtrlState E) (o : Option String) (f : String → CtrlState E)
      → CmdOk s (elim o as (λ o. CtrlRun E) [ none ↦ overrun | some name ↦ ret none (f name) ])
  file-CmdOk s none f = tt
  file-CmdOk s (some name) f = tt

  checked-CmdOk :
      (s : CtrlState E) (cmd : PvCmd) (b : Bool)
      → (pv_ctrl_check_command cmd s).1 ≡ b
      → CmdOk s (
          if b
          then ret (some cmd) (act respond_ok (pv_ctrl_check_command cmd s).0)
          else ret none (pv_ctrl_check_command cmd s).0)
  checked-CmdOk s cmd true e = e
  checked-CmdOk s cmd false e = tt

  request_command-CmdOk :
      (env : CtrlEnv) (method : String) (len : ℕ) (s : CtrlState E)
      → CmdOk s (request_command env method len s)
  unfolding request_command
  request_command-CmdOk env method len s =
      if-CmdOk s (is_method "POST" method) _ _ (cmd-CmdOk (pv_ctrl_process_cmd env len)) tt
    where
      cmd-CmdOk :
          (o : Option PvCmd)
          → CmdOk s (elim o as (λ o. CtrlRun E) [
            | none ↦ ret none (act (respond bad_req) s)
            | some cmd ↦
                let (s1, ok) = pv_ctrl_check_command cmd s in
                if ok then ret (some cmd) (act respond_ok s1) else ret none s1
          ])
      cmd-CmdOk none = tt
      cmd-CmdOk (some cmd) = checked-CmdOk s cmd (pv_ctrl_check_command cmd s).1 refl

  endpoint-CmdOk :
      (env : CtrlEnv) (method path : String) (len : ℕ) (s : CtrlState E)
      → CmdOk s (request_endpoint env method path len s)
  unfolding request_endpoint request_text request_object request_progress request_commitmsg
      request_step request_usermeta
  endpoint-CmdOk env method path len s =
      let file = file-CmdOk s in
      if-CmdOk s (pv_str_startswith "/commands" path) _ _ (request_command-CmdOk env method len s) (
        if-CmdOk s (pv_str_matches "/objects" path) _ _ tt (
          if-CmdOk s (pv_str_startswith "/objects" path) _ _ (file _ _) (
            if-CmdOk s (pv_str_matches "/steps" path) _ _ tt (
              if-CmdOk s (pv_str_startswith "/steps" path && pv_str_endswith "/progress" path) _ _
                (file _ _)
                (if-CmdOk s (pv_str_startswith "/steps" path && pv_str_endswith "/commitmsg" path) _
                  _ (file _ _)
                  (if-CmdOk s (pv_str_startswith "/steps" path) _ _ (file _ _) (
                    if-CmdOk s (pv_str_matches "/user-meta" path) _ _ tt (
                      if-CmdOk s (pv_str_matches "/device-meta" path) _ _ tt (
                        if-CmdOk s (pv_str_matches "/buildinfo" path) _ _ tt (
                          if-CmdOk s (pv_str_startswith "/user-meta" path) _ _ (file _ _)
                            tt))))))))))

  request-CmdOk :
      (env : CtrlEnv) (method path : String) (headers : List (String × ℕ)) (s : CtrlState E)
      → CmdOk s (pv_ctrl_read_parse_request env (http method path headers) s)
  unfolding pv_ctrl_read_parse_request
  request-CmdOk env method path headers s =
      let len = pv_ctrl_get_value_header_int headers "Content-Length" in
      if-CmdOk s (len == 0) _ _ tt (endpoint-CmdOk env method path len s)

  -- A command that an HTTP request yields, and that the controller finds in the state in which the
  -- request was read, is carried out: none of the controller's own guards stops it. `TRY_ONCE` is an
  -- exception, which the controller does not know and ignores.
  pub http_command_runs :
      (w : World) (env : CtrlEnv) (method path : String) (headers : List (String × ℕ))
      (s s' : CtrlState E) (cmd : PvCmd) (c : Controller E)
      → pv_ctrl_read_parse_request env (http method path headers) s ≡ ret (some cmd) s'
      → c.pv ≡ record s.pv { cmd = some cmd }
      → _pv_command w c ≡ executed w cmd.op cmd.payload c
  http_command_runs w env method path headers s s' cmd c r e =
      checked_command_runs w cmd s c (subst (CmdOk s) r (request-CmdOk env method path headers s)) e
