-- ===== src/Ctrl/Request.antt =====
-- ctrl.c: `pv_ctrl_read_parse_request`, one function per endpoint.
use pantavisor.Prelude.{
  ℕ, ◌-◌, String, Bool, true, false, not, ◌&&◌, Option, none, some, List, [], ◌∷◌, leb, ◌==◌,
  if◌then◌else◌,
}
use pantavisor.Str.{has_prefix, strlen, pv_str_startswith, pv_str_matches, pv_str_endswith}
use pantavisor.Storage.Revision.{pv_storage_is_revision_local}
use pantavisor.Metadata.{pv_metadata_add_usermeta, pv_metadata_rm_usermeta}
use pantavisor.Updater.{PvCmd}
use pantavisor.Ctrl.{
  CtrlEnv, CtrlState, bad_req, error, respond, respond_ok, defer_gc, make_dir, remove_file,
  send_text, act, http_req_buffer_size, pv_ctrl_process_cmd, pv_ctrl_check_command,
}
use pantavisor.Ctrl.Files.{
  pv_ctrl_get_file_name, path_under, path_objects, path_objects_tmp, pv_ctrl_process_put_file,
  pv_ctrl_validate_object_checksum, pv_ctrl_process_get_file,
}

-- A request as it is read: not at all, an old one whose first byte is 3, one that the HTTP parser
-- refuses, or a method, a path and the headers, each with `atoi` of its value as a `size_t`.
pub data Request : Type 0 where
  unread legacy malformed : Request
  http : String → String → List (String × ℕ) → Request

-- What a request leads to: a write outside a buffer, or a command and the state.
pub data CtrlRun (E : Type 0) : Type 0 where
  overrun : CtrlRun E
  ret : Option PvCmd → CtrlState E → CtrlRun E

-- A header's name is compared on its own length only. Without such a header the value is -1.
unfoldable pub pv_ctrl_get_value_header_int : List (String × ℕ) → String → ℕ
pv_ctrl_get_value_header_int [] name = 18446744073709551615
pv_ctrl_get_value_header_int ((header, value) ∷ headers) name =
    let rest = pv_ctrl_get_value_header_int headers name in
    if has_prefix header name then value else rest

-- `!strncmp(name, method, method_len)`
abbrev pub is_method : String → String → Bool
is_method name method = has_prefix method name

module _ {E : Type 0} where
  -- The answer to a request that comes this far.
  abbrev pub answer : Bool → CtrlState E → CtrlState E
  answer res s = if res then act respond_ok s else act (respond error) s

  unfoldable pub request_command : CtrlEnv → String → ℕ → CtrlState E → CtrlRun E
  request_command env method len s =
      if is_method "POST" method
      then elim (pv_ctrl_process_cmd env len) [
        | none ↦ ret none (act (respond bad_req) s)
        | some cmd ↦
            let (s1, ok) = pv_ctrl_check_command cmd s in
            if ok then ret (some cmd) (act respond_ok s1) else ret none s1
      ]
      else ret none (answer false s)

  unfoldable pub request_text : CtrlEnv → String → String → CtrlState E → CtrlRun E
  request_text env method path s =
      ret none
        (if is_method "GET" method then act (send_text (env.listing path)) s else answer false s)

  -- `res >= 0` after an object is put.
  unfoldable pub put_object : CtrlEnv → ℕ → String → CtrlState E → CtrlState E
  put_object env len name s =
      let (s1, saved) = pv_ctrl_process_put_file env len (path_objects_tmp env name) s in
      let (s2, valid) =
        pv_ctrl_validate_object_checksum env (path_objects_tmp env name) (path_objects env name)
          name s1 in
      if not saved
      then s1
      else if valid
      then act respond_ok
          (record (act defer_gc s2) { pv = record s2.pv { loading_objects = true } })
      else act (respond bad_req) s2

  abbrev pub object_named : CtrlEnv → String → ℕ → String → CtrlState E → CtrlState E
  object_named env method len name s =
      if not (strlen name == 64)
      then act (respond bad_req) s
      else if is_method "PUT" method
      then put_object env len name s
      else if is_method "GET" method
      then pv_ctrl_process_get_file env (path_objects env name) s
      else answer false s

  -- The temporary file is removed in any case.
  unfoldable pub request_object : CtrlEnv → String → String → ℕ → CtrlState E → CtrlRun E
  request_object env method path len s = elim (pv_ctrl_get_file_name path 9 (strlen path)) [
    | none ↦ overrun
    | some name ↦
        ret none
          (act (remove_file (path_objects_tmp env name)) (object_named env method len name s))
  ]

  -- No answer but for a GET.
  unfoldable pub request_progress : CtrlEnv → String → String → CtrlState E → CtrlRun E
  request_progress env method path s = elim (pv_ctrl_get_file_name path 7 (strlen path - 9)) [
    | none ↦ overrun
    | some name ↦ ret none (
        if is_method "GET" method
        then pv_ctrl_process_get_file env (path_under env "/trails/" name "/.pv/progress") s
        else s)
  ]

  -- A directory is made and a file put in it.
  abbrev pub put_in : CtrlEnv → ℕ → String → String → CtrlState E → CtrlState E
  put_in env len parent path s =
      let (s1, saved) = pv_ctrl_process_put_file env len path (act (make_dir parent) s) in
      if saved then act respond_ok s1 else s1

  unfoldable pub request_commitmsg : CtrlEnv → String → String → ℕ → CtrlState E → CtrlRun E
  request_commitmsg env method path len s = elim (pv_ctrl_get_file_name path 7 (strlen path - 10)) [
    | none ↦ overrun
    | some name ↦ ret none (
        if is_method "PUT" method
        then put_in env len (path_under env "/trails/" name "/.pv")
            (path_under env "/trails/" name "/.pv/commitmsg") s
        else answer false s)
  ]

  unfoldable pub request_step : CtrlEnv → String → String → ℕ → CtrlState E → CtrlRun E
  request_step env method path len s = elim (pv_ctrl_get_file_name path 7 (strlen path)) [
    | none ↦ overrun
    | some name ↦ ret none (
        if is_method "PUT" method
        then if pv_storage_is_revision_local name
          then put_in env len (path_under env "/trails/" name "/.pvr")
              (path_under env "/trails/" name "/.pvr/json") s
          else answer false s
        else if is_method "GET" method
        then pv_ctrl_process_get_file env (path_under env "/trails/" name "/.pvr/json") s
        else answer false s)
  ]

  -- `pv_ctrl_get_body` and `pv_metadata_add_usermeta`, which refuses a value that is null.
  abbrev pub put_meta : CtrlEnv → ℕ → String → CtrlState E → CtrlState E
  put_meta env len key s = if leb http_req_buffer_size len then answer false s else elim env.body [
    | none ↦ answer false s
    | some value ↦
        let (metadata, res) = pv_metadata_add_usermeta key value s.metadata in
        answer res (record s { metadata = metadata })
  ]

  abbrev pub remove_meta : String → CtrlState E → CtrlState E
  remove_meta key s =
      let (metadata, res) = pv_metadata_rm_usermeta key s.metadata in
      answer res (record s { metadata = metadata })

  unfoldable pub request_usermeta : CtrlEnv → String → String → ℕ → CtrlState E → CtrlRun E
  request_usermeta env method path len s = elim (pv_ctrl_get_file_name path 11 (strlen path)) [
    | none ↦ overrun
    | some key ↦ ret none (
        if is_method "PUT" method
        then put_meta env len key s
        else if is_method "DELETE" method
        then remove_meta key s
        else answer false s)
  ]

  unfoldable pub request_endpoint : CtrlEnv → String → String → ℕ → CtrlState E → CtrlRun E
  request_endpoint env method path len s =
      if pv_str_startswith "/commands" path
      then request_command env method len s
      else if pv_str_matches "/objects" path
      then request_text env method path s
      else if pv_str_startswith "/objects" path
      then request_object env method path len s
      else if pv_str_matches "/steps" path
      then request_text env method path s
      else if pv_str_startswith "/steps" path && pv_str_endswith "/progress" path
      then request_progress env method path s
      else if pv_str_startswith "/steps" path && pv_str_endswith "/commitmsg" path
      then request_commitmsg env method path len s
      else if pv_str_startswith "/steps" path
      then request_step env method path len s
      else if pv_str_matches "/user-meta" path
      then request_text env method path s
      else if pv_str_matches "/device-meta" path
      then request_text env method path s
      else if pv_str_matches "/buildinfo" path
      then request_text env method path s
      else if pv_str_startswith "/user-meta" path
      then request_usermeta env method path len s
      else ret none (answer false s)

  unfoldable pub pv_ctrl_read_parse_request : CtrlEnv → Request → CtrlState E → CtrlRun E
  pv_ctrl_read_parse_request env unread s = ret none s
  pv_ctrl_read_parse_request env legacy s =
      ret (pv_ctrl_process_cmd env (http_req_buffer_size - 1)) s
  pv_ctrl_read_parse_request env malformed s = ret none (act (respond bad_req) s)
  pv_ctrl_read_parse_request env (http method path headers) s =
      let len = pv_ctrl_get_value_header_int headers "Content-Length" in
      if len == 0
      then ret none (act (respond bad_req) s)
      else request_endpoint env method path len s
