-- ===== src/Ctrl/Files.antt =====
-- ctrl.c: the files of a request, their names and paths.
use Prim.Native.String.{◌++◌ as str_append}
use pantavisor.Prelude.{
  arith, ◌⊎◌, ◌≡◌, ◌≤◌, ◌<◌, ℕ, zero, suc, ◌+◌, ◌-◌, ◌%◌, ◌^◌, String, Bool, true, false, Option,
  none, some, List, [], ◌∷◌, ltb, ◌==◌, if◌then◌else◌,
}
use pantavisor.Str.{drop_chars}
use pantavisor.Ctrl.{
  CtrlEnv, CtrlState, created, already_there, no_create, respond, respond_continue, create_file,
  remove_file, send_file, rename_file, error, not_found, act,
}

-- `take n`
unfoldable pub take_chars : ℕ → String → String
take_chars zero s = String.[]
take_chars (suc n) String.[] = String.[]
take_chars (suc n) (String.◌∷◌ c s) = String.◌∷◌ c (take_chars n s)

-- The length `path_len - buf_index` is an `int` that `strncpy` takes for unsigned: where it is
-- negative the copy overruns its buffer, and there is no result.
unfoldable pub pv_ctrl_get_file_name : String → ℕ → ℕ → Option String
unfolding take_chars drop_chars
pv_ctrl_get_file_name path buf_index path_len =
    if ltb path_len buf_index
    then none
    else some (take_chars (path_len - buf_index) (drop_chars buf_index path))

-- `pv_ctrl_get_file_path`, for each of the formats of storage.h.
abbrev pub path_under : CtrlEnv → String → String → String → String
path_under env dir name tail = str_append env.mntpoint (str_append dir (str_append name tail))

abbrev pub path_objects : CtrlEnv → String → String
path_objects env name = path_under env "/objects/" name ""

abbrev pub path_objects_tmp : CtrlEnv → String → String
path_objects_tmp env name = path_under env "/objects/" name ".new"

-- The loop of `pv_ctrl_process_put_file` that reads and saves. A read asks for the rest, or for a
-- buffer if that is less; `size_t` wraps. A write counts if it wrote anything at all.
unfoldable pub save_chunks : List (ℕ × ℕ) → ℕ → Bool
save_chunks [] len = len == 0
save_chunks ((n, written) ∷ chunks) len =
    let rest = save_chunks chunks ((len + 2 ^ 64 - n) % 2 ^ 64) in
    if len == 0 then true else if n == 0 then false else if written == 0 then false else rest

module _ {E : Type 0} where
  -- The result is `true` where the code's is 0.
  unfoldable pub pv_ctrl_process_put_file : CtrlEnv → ℕ → String → CtrlState E → CtrlState E × Bool
  pv_ctrl_process_put_file env content_length path s =
      let s1 = act respond_continue s in
      elim (env.creates path) [
        | already_there ↦ (act (respond error) s1, false)
        | no_create ↦ (act (remove_file path) (act (respond error) s1), false)
        | created ↦
            let s2 = act (create_file path) s1 in
            if save_chunks env.chunks content_length
            then (s2, true)
            else (act (remove_file path) (act (respond error) s2), false)
      ]

  unfoldable pub pv_ctrl_validate_object_checksum :
      CtrlEnv → String → String → String → CtrlState E → CtrlState E × Bool
  pv_ctrl_validate_object_checksum env tmp path sha s =
      if env.checksum_ok tmp sha
      then (act (rename_file tmp path) s, true)
      else (act (remove_file tmp) s, false)

  unfoldable pub pv_ctrl_process_get_file : CtrlEnv → String → CtrlState E → CtrlState E
  pv_ctrl_process_get_file env path s =
      if env.opens path then act (send_file path) s else act (respond not_found) s

-- Each read gives no more bytes than are left, and each write takes no more than were read.
abbrev pub IsReads : List (ℕ × ℕ) → ℕ → Type 0
IsReads [] len = Unit
IsReads ((n, written) ∷ chunks) len = (n ≤ len) × (written ≤ n) × IsReads chunks (len - n)

-- The bytes that are read for a body of a length and written to the file.
abbrev pub saved_bytes : List (ℕ × ℕ) → ℕ → ℕ
saved_bytes [] len = 0
saved_bytes ((n, written) ∷ chunks) len =
    let rest = saved_bytes chunks (len - n) in if len == 0 then 0 else written + rest

-- The bytes that are read and that a short write leaves out.
abbrev pub lost_bytes : List (ℕ × ℕ) → ℕ → ℕ
lost_bytes [] len = 0
lost_bytes ((n, written) ∷ chunks) len =
    let rest = lost_bytes chunks (len - n) in if len == 0 then 0 else n - written + rest

-- Up to the body's end each read gives something and each write takes something.
abbrev pub Moves : List (ℕ × ℕ) → ℕ → Type 0
Moves [] len = Unit
Moves ((n, written) ∷ chunks) len = (len ≡ 0) ⊎ ((0 < n) × (0 < written) × Moves chunks (len - n))

-- When no read gives more than what is left of a body, whose length is a `size_t`, and no write
-- takes more than was read, the loop that saves it succeeds only when every read up to the body's end
-- gave something and every write took something, and the bytes written to the file and those that
-- short writes left out are together as many as the body has.
pub saved_or_lost :
    (chunks : List (ℕ × ℕ)) (len : ℕ)
    → len < 2 ^ 64
    → IsReads chunks len
    → save_chunks chunks len ≡ true
    → Moves chunks len × (saved_bytes chunks len + lost_bytes chunks len ≡ len)
unfolding save_chunks
saved_or_lost [] len b r h = ground (arith, h)
saved_or_lost ((n, written) ∷ chunks) len b r h =
    let wraps : (len + 2 ^ 64 - n) % 2 ^ 64 ≡ len - n = wrap len n b r.0 in
    ground (arith, h, wraps, r.0, r.1, saved_or_lost chunks (len - n) (omega (arith, b)) r.2)
  where
    wrap : (a k : ℕ) → a < 2 ^ 64 → k ≤ a → (a + 2 ^ 64 - k) % 2 ^ 64 ≡ a - k
    wrap a k p q = omega (arith, p, q)
