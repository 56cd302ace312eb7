-- ===== src/Ctrl/Requests.antt =====
-- ctrl.c: no request gives an object a name that is not its hash.
use pantavisor.Prelude.{
  ℕ, ◌-◌, String, Bool, true, false, ◌&&◌, Option, none, some, leb, ◌==◌, if◌then◌else◌, arith,
}
use pantavisor.Str.{strlen, pv_str_startswith, pv_str_matches, pv_str_endswith}
use pantavisor.Storage.Revision.{pv_storage_is_revision_local}
use pantavisor.Metadata.{pv_metadata_add_usermeta, pv_metadata_rm_usermeta}
use pantavisor.Updater.{PvCmd}
use pantavisor.Ctrl.{
  bad_req, http_req_buffer_size, pv_ctrl_process_cmd, CtrlEnv, CtrlState, respond, respond_ok,
  make_dir, act, pv_ctrl_check_command,
}
use pantavisor.Ctrl.Files.{path_under, pv_ctrl_process_put_file, pv_ctrl_get_file_name}
use pantavisor.Ctrl.Request.{
  pv_ctrl_get_value_header_int, is_method, answer, request_command, request_text, request_progress,
  request_commitmsg, request_step, request_usermeta, request_endpoint, put_in, put_meta, Request,
  unread, legacy, malformed, http, CtrlRun, overrun, ret, pv_ctrl_read_parse_request,
}
use pantavisor.Ctrl.Objects.{
  trails-IsNoObject, StateOk, RunOk, put_file-StateOk, get_file-StateOk, if-StateOk, answer-StateOk,
  request_object-RunOk,
}

module _ {E : Type 0} where
  file-RunOk :
      (env : CtrlEnv) (o : Option String) (f : String → CtrlState E)
      → ((name : String) → StateOk env (f name))
      → RunOk env (elim o as (λ o. CtrlRun E) [ none ↦ overrun | some name ↦ ret none (f name) ])
  file-RunOk env none f h = tt
  file-RunOk env (some name) f h = h name

  put_in-StateOk :
      (env : CtrlEnv) (len : ℕ) (parent name tail : String) (s : CtrlState E)
      → StateOk env s
      → StateOk env (put_in env len parent (path_under env "/trails/" name tail) s)
  put_in-StateOk env len parent name tail s h =
      let path = path_under env "/trails/" name tail in
      let put = pv_ctrl_process_put_file env len path (act (make_dir parent) s) in
      let k =
        put_file-StateOk env len path (act (make_dir parent) s) (trails-IsNoObject env name tail)
          (tt, h) in
      if-StateOk env put.1 _ put.0 (tt, k) k

  request_progress-RunOk :
      (env : CtrlEnv) (method path : String) (s : CtrlState E)
      → StateOk env s
      → RunOk env (request_progress env method path s)
  unfolding request_progress
  request_progress-RunOk env method path s h =
      file-RunOk env (pv_ctrl_get_file_name path 7 (strlen path - 9)) _
        (λ name. if-StateOk env (is_method "GET" method) _ s (get_file-StateOk env _ s h) h)

  request_commitmsg-RunOk :
      (env : CtrlEnv) (method path : String) (len : ℕ) (s : CtrlState E)
      → StateOk env s
      → RunOk env (request_commitmsg env method path len s)
  unfolding request_commitmsg
  request_commitmsg-RunOk env method path len s h =
      file-RunOk env (pv_ctrl_get_file_name path 7 (strlen path - 10)) _ (λ name.
        if-StateOk env (is_method "PUT" method) _ _ (put_in-StateOk env len _ name _ s h)
          (answer-StateOk env false s h))

  request_step-RunOk :
      (env : CtrlEnv) (method path : String) (len : ℕ) (s : CtrlState E)
      → StateOk env s
      → RunOk env (request_step env method path len s)
  unfolding request_step
  request_step-RunOk env method path len s h =
      file-RunOk env (pv_ctrl_get_file_name path 7 (strlen path)) _ (λ name.
        if-StateOk env (is_method "PUT" method) _ _
          (if-StateOk env (pv_storage_is_revision_local name) _ _
            (put_in-StateOk env len _ name _ s h) (answer-StateOk env false s h))
          (if-StateOk env (is_method "GET" method) _ _ (get_file-StateOk env _ s h)
            (answer-StateOk env false s h)))

  put_meta-StateOk :
      (env : CtrlEnv) (len : ℕ) (key : String) (s : CtrlState E)
      → StateOk env s
      → StateOk env (put_meta env len key s)
  put_meta-StateOk env len key s h =
      if-StateOk env (leb http_req_buffer_size len) _ _ (answer-StateOk env false s h)
        (body-StateOk env.body)
    where
      body-StateOk :
          (o : Option String)
          → StateOk env (elim o as (λ o. CtrlState E) [
            | none ↦ answer false s
            | some value ↦
                answer
                  (pv_metadata_add_usermeta key value s.metadata).1
                  (record s { metadata = (pv_metadata_add_usermeta key value s.metadata).0 })
          ])
      body-StateOk none = answer-StateOk env false s h
      body-StateOk (some value) =
          answer-StateOk env (pv_metadata_add_usermeta key value s.metadata).1 _ h

  request_usermeta-RunOk :
      (env : CtrlEnv) (method path : String) (len : ℕ) (s : CtrlState E)
      → StateOk env s
      → RunOk env (request_usermeta env method path len s)
  unfolding request_usermeta
  request_usermeta-RunOk env method path len s h =
      file-RunOk env (pv_ctrl_get_file_name path 11 (strlen path)) _ (λ key.
        if-StateOk env (is_method "PUT" method) _ _ (put_meta-StateOk env len key s h) (
          if-StateOk env (is_method "DELETE" method) _ _
            (answer-StateOk env (pv_metadata_rm_usermeta key s.metadata).1 _ h)
            (answer-StateOk env false s h)))

  check_command-StateOk :
      (env : CtrlEnv) (cmd : PvCmd) (s : CtrlState E)
      → StateOk env s
      → StateOk env (pv_ctrl_check_command cmd s).0
  unfolding pv_ctrl_check_command
  check_command-StateOk env cmd s h = ground (arith, h)

  if-RunOk :
      (env : CtrlEnv) (b : Bool) (r t : CtrlRun E)
      → RunOk env r
      → RunOk env t
      → RunOk env (if b then r else t)
  if-RunOk env true r t h k = h
  if-RunOk env false r t h k = k

  request_command-RunOk :
      (env : CtrlEnv) (method : String) (len : ℕ) (s : CtrlState E)
      → StateOk env s
      → RunOk env (request_command env method len s)
  unfolding request_command
  request_command-RunOk env method len s h =
      if-RunOk env (is_method "POST" method) _ _ (cmd-RunOk (pv_ctrl_process_cmd env len))
        (answer-StateOk env false s h)
    where
      cmd-RunOk :
          (o : Option PvCmd)
          → RunOk env (elim o as (λ o. CtrlRun E) [
            | none ↦ ret none (act (respond bad_req) s)
            | some cmd ↦
                let (s1, ok) = pv_ctrl_check_command cmd s in
                if ok then ret (some cmd) (act respond_ok s1) else ret none s1
          ])
      cmd-RunOk none = (tt, h)
      cmd-RunOk (some cmd) =
          let k = check_command-StateOk env cmd s h in
          if-RunOk env (pv_ctrl_check_command cmd s).1 _ _ (tt, k) k

  request_text-RunOk :
      (env : CtrlEnv) (method path : String) (s : CtrlState E)
      → StateOk env s
      → RunOk env (request_text env method path s)
  unfolding request_text
  request_text-RunOk env method path s h =
      if-StateOk env (is_method "GET" method) _ _ (tt, h) (answer-StateOk env false s h)

  request_endpoint-RunOk :
      (env : CtrlEnv) (method path : String) (len : ℕ) (s : CtrlState E)
      → StateOk env s
      → RunOk env (request_endpoint env method path len s)
  unfolding request_endpoint
  request_endpoint-RunOk env method path len s h =
      let text = request_text-RunOk env method path s h in
      if-RunOk env (pv_str_startswith "/commands" path) _ _
        (request_command-RunOk env method len s h)
        (if-RunOk env (pv_str_matches "/objects" path) _ _ text (
          if-RunOk env (pv_str_startswith "/objects" path) _ _
            (request_object-RunOk env method path len s h)
            (if-RunOk env (pv_str_matches "/steps" path) _ _ text (
              if-RunOk env (pv_str_startswith "/steps" path && pv_str_endswith "/progress" path) _ _
                (request_progress-RunOk env method path s h)
                (if-RunOk env (pv_str_startswith "/steps" path && pv_str_endswith "/commitmsg" path)
                  _ _ (request_commitmsg-RunOk env method path len s h)
                  (if-RunOk env (pv_str_startswith "/steps" path) _ _
                    (request_step-RunOk env method path len s h)
                    (if-RunOk env (pv_str_matches "/user-meta" path) _ _ text (
                      if-RunOk env (pv_str_matches "/device-meta" path) _ _ text (
                        if-RunOk env (pv_str_matches "/buildinfo" path) _ _ text (
                          if-RunOk env (pv_str_startswith "/user-meta" path) _ _
                            (request_usermeta-RunOk env method path len s h)
                            (answer-StateOk env false s h)))))))))))

  -- Whatever the request, no file is created under an object's path, and none is renamed but an
  -- object's temporary file, to the object's path, and when its hash is the object's name, which has
  -- 64 characters: if this is so of what was done before, it is so after the request.
  pub requests_check_objects :
      (env : CtrlEnv) (r : Request) (s : CtrlState E)
      → StateOk env s
      → RunOk env (pv_ctrl_read_parse_request env r s)
  unfolding pv_ctrl_read_parse_request
  requests_check_objects env unread s h = h
  requests_check_objects env legacy s h = h
  requests_check_objects env malformed s h = (tt, h)
  requests_check_objects env (http method path headers) s h =
      let len = pv_ctrl_get_value_header_int headers "Content-Length" in
      if-RunOk env (len == 0) _ _ (tt, h) (request_endpoint-RunOk env method path len s h)
