-- ===== src/Ctrl.antt =====
-- ctrl.c: the control socket. The HTTP parser's result, what the socket's and the files' calls
-- return, the check of an object's hash and the texts of the lists are arguments.
pub mod Files
pub mod Request
pub mod Laws
pub mod Objects
pub mod Requests
use pantavisor.Prelude.{
  ℕ, String, Bool, true, false, not, ◌&&◌, ◌||◌, Option, none, some, List, [], ◌∷◌, ◌>>=◌, leb,
  is_some, if◌then◌else◌,
}
use pantavisor.Str.{has_prefix}
use pantavisor.Json.{JsonTok, pv_json_get_value}
use pantavisor.Metadata.{Metadata}
use pantavisor.Updater.{
  CmdOp, cmd_update_metadata, cmd_reboot_device, cmd_poweroff_device, cmd_local_run,
  cmd_make_factory, cmd_run_gc, cmd_other, PvCmd, Pantavisor,
}

-- `pv_http_status_code_t`
pub data HttpStatus : Type 0 where
  bad_req not_found conflict error : HttpStatus

-- What a request does to the socket and to the files.
pub data CtrlAct : Type 0 where
  respond : HttpStatus → CtrlAct
  respond_ok respond_continue defer_gc : CtrlAct
  make_dir create_file remove_file send_file send_text : String → CtrlAct
  rename_file : String → String → CtrlAct

-- What opening a file that shall be new returns.
pub data CreateResult : Type 0 where
  created already_there no_create : CreateResult

-- `chunks` are the reads of a body, each with its bytes and with those that `write` then takes of
-- them, 0 for a failure; `body` is what one read gives.
pub record CtrlEnv : Type 0 where
  pub mntpoint : String
  pub opens : String → Bool
  pub creates : String → CreateResult
  pub chunks : List (ℕ × ℕ)
  pub body : Option String
  pub tokens : String → List JsonTok
  pub checksum_ok : String → String → Bool
  pub listing : String → String

-- What the handlers of requests change; `acts` has the latest first.
pub record CtrlState (E : Type 0) : Type 0 where
  pub pv : Pantavisor E
  pub metadata : Metadata
  pub acts : List CtrlAct

abbrev pub http_req_buffer_size : ℕ
http_req_buffer_size = 4096

-- `pv_ctrl_int_cmd_operation`: the first operation whose name starts with the text.
unfoldable pub pv_ctrl_int_cmd_operation : String → Option CmdOp
pv_ctrl_int_cmd_operation op =
    if has_prefix op "UPDATE_METADATA"
    then some cmd_update_metadata
    else if has_prefix op "REBOOT_DEVICE"
    then some cmd_reboot_device
    else if has_prefix op "POWEROFF_DEVICE"
    then some cmd_poweroff_device
    else if has_prefix op "TRY_ONCE"
    then some cmd_other
    else if has_prefix op "LOCAL_RUN"
    then some cmd_local_run
    else if has_prefix op "MAKE_FACTORY"
    then some cmd_make_factory
    else if has_prefix op "RUN_GC"
    then some cmd_run_gc
    else none

unfoldable pub pv_ctrl_parse_command : List JsonTok → Option PvCmd
pv_ctrl_parse_command toks = do
  op_string ← pv_json_get_value "op" toks
  op ← pv_ctrl_int_cmd_operation op_string
  payload ← pv_json_get_value "payload" toks
  some (record { op = op; payload = payload })

unfoldable pub pv_ctrl_process_cmd : CtrlEnv → ℕ → Option PvCmd
pv_ctrl_process_cmd env content_length =
    if leb http_req_buffer_size content_length
    then none
    else elim env.body [ none ↦ none | some req ↦ pv_ctrl_parse_command (env.tokens req) ]

abbrev is_metadata : CmdOp → Bool
is_metadata cmd_update_metadata = true
is_metadata _ = false

abbrev is_make_factory : CmdOp → Bool
is_make_factory cmd_make_factory = true
is_make_factory _ = false

-- The operations that an update in progress rules out.
abbrev is_exclusive : CmdOp → Bool
is_exclusive cmd_reboot_device = true
is_exclusive cmd_poweroff_device = true
is_exclusive cmd_local_run = true
is_exclusive cmd_make_factory = true
is_exclusive _ = false

module _ {E : Type 0} where
  abbrev pub act : CtrlAct → CtrlState E → CtrlState E
  act a s = record s { acts = a ∷ s.acts }

  -- The result is `true` where the code's is 0; else the command is freed, and the answer written.
  unfoldable pub pv_ctrl_check_command : PvCmd → CtrlState E → CtrlState E × Bool
  pv_ctrl_check_command cmd s =
      if not s.pv.remote_mode && is_metadata cmd.op
      then (act (respond conflict) s, false)
      else if is_some s.pv.update && is_exclusive cmd.op
      then (act (respond conflict) s, false)
      else if not s.pv.unclaimed && is_make_factory cmd.op
      then (act (respond conflict) s, false)
      else (s, true)
