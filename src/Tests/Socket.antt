-- ===== src/Tests/Socket.antt =====
-- Runs of the control socket.
use pantavisor.Prelude.{ℕ, ◌+◌, ◌≡◌, refl, String, true, none, some, List, [], ◌∷◌, arith}
use pantavisor.Str.{has_prefix, pv_str_startswith}
use pantavisor.Json.{json_string, pv_json_get_value, get_value}
use pantavisor.Updater.{cmd_reboot_device, PvCmd}
use pantavisor.Controller.{pv_state_reboot, Controller}
use pantavisor.Controller.Command.{_pv_command, done_with}
use pantavisor.Ctrl.{
  CtrlEnv, CtrlState, created, respond_ok, pv_ctrl_int_cmd_operation, pv_ctrl_parse_command,
  pv_ctrl_process_cmd, pv_ctrl_check_command,
}
use pantavisor.Ctrl.Files.{save_chunks, saved_bytes, lost_bytes, Moves, saved_or_lost}
use pantavisor.Ctrl.Request.{
  http, ret, pv_ctrl_get_value_header_int, request_command, request_endpoint,
  pv_ctrl_read_parse_request,
}
use pantavisor.Ctrl.Laws.{http_command_runs}
use pantavisor.Ctrl.Objects.{RunOk}
use pantavisor.Ctrl.Requests.{requests_check_objects}
use pantavisor.Tests.{Env, boot_old, daemon, rev_old}
use pantavisor.Tests.Controller.{world, controller}

-- The body of a request is a command to reboot.
abbrev socket : CtrlEnv
socket = record {
  mntpoint = "/storage";
  opens = λ path. true;
  creates = λ path. created;
  chunks = (4, 4) ∷ (3, 3) ∷ [];
  body = some "reboot";
  tokens = λ s.
      record { kind = json_string; text = "op" }
      ∷ record { kind = json_string; text = "REBOOT_DEVICE" }
      ∷ record { kind = json_string; text = "payload" }
      ∷ record { kind = json_string; text = "" }
      ∷ [];
  checksum_ok = λ path sha. true;
  listing = λ path. "[]";
}

abbrev idle : CtrlState Env
idle = record {
  pv = daemon boot_old none (some rev_old);
  metadata = record { usermeta = []; devmeta = []; devmeta_uploaded = true; acts = [] };
  acts = [];
}

abbrev reboot : PvCmd
reboot = record { op = cmd_reboot_device; payload = "" }

abbrev answered : CtrlState Env
answered = record idle { acts = respond_ok ∷ [] }

abbrev length_header : List (String × ℕ)
length_header = ("Content-Length", 7) ∷ []

reboot_taken :
    pv_ctrl_read_parse_request socket (http "POST" "/commands" length_header) idle
    ≡ ret (some reboot) answered
unfolding pv_ctrl_read_parse_request request_endpoint request_command pv_ctrl_process_cmd
    pv_ctrl_parse_command pv_json_get_value get_value pv_ctrl_int_cmd_operation
    pv_ctrl_check_command pv_ctrl_get_value_header_int has_prefix pv_str_startswith
reboot_taken = refl

abbrev with_command : Controller Env
with_command = controller (record idle.pv { cmd = some reboot })

http_command_runs_example :
    _pv_command world with_command ≡ done_with with_command with_command.pv pv_state_reboot
http_command_runs_example =
    http_command_runs world socket "POST" "/commands" length_header idle answered reboot
      with_command reboot_taken refl

requests_check_objects_example : RunOk socket (
    pv_ctrl_read_parse_request socket
      (http "PUT" "/objects/0123456789abcdef0123456789abcdef0123456789abcdef0123456789abcdef"
        length_header)
      idle)
requests_check_objects_example =
    requests_check_objects socket
      (http "PUT" "/objects/0123456789abcdef0123456789abcdef0123456789abcdef0123456789abcdef"
        length_header)
      idle tt

-- The second write is short.
abbrev two_reads : List (ℕ × ℕ)
two_reads = (4, 4) ∷ (3, 2) ∷ []

saved_or_lost_example : Moves two_reads 7 × (saved_bytes two_reads 7 + lost_bytes two_reads 7 ≡ 7)
unfolding save_chunks
saved_or_lost_example =
    saved_or_lost two_reads 7 (omega arith)
      (omega arith, omega arith, (omega arith, omega arith, tt)) refl
