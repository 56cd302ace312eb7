-- ===== src/Uboot.antt =====
-- uboot.c: U-Boot's environment, as texts `key=value` that end in NUL. A byte is a character of that
-- code. The zeros behind the last text are left out, and the buffers of a whole environment are taken to
-- be large enough. The calls on files succeed, and erasing the device is not modelled.
pub mod Entries
pub mod Get
pub mod Keys
pub mod Laws
use Prim.Native.Char.{Char, code, nul}
use Prim.Native.String
use Prim.Native.String.{◌++◌ as str_append}
use pantavisor.Prelude.{
  ℕ, suc, ◌+◌, String, Bool, true, false, not, ◌&&◌, ◌||◌, ◌==◌, leb, Option, none, some, List, [],
  ◌∷◌, ◌++◌, keep, if◌then◌else◌,
}
use pantavisor.Str.{has_prefix, drop_chars, strlen}
use pantavisor.Bootloader.{BlOps}

-- The code at a buffer's start, where zeros follow its end.
abbrev pub first_code : String → ℕ
first_code String.[] = 0
first_code (String.◌∷◌ c s) = code c

-- Two bytes 0xFF or two zeros end the entries.
abbrev pub stops : Char → String → Bool
stops c s = (code c == 255 && first_code s == 255) || (code c == 0 && first_code s == 0)

-- The loop over the old environment: the rest of the entry that it is in, if it is in one, and the
-- entries that follow.
unfoldable pub scan : Bool → String → String × List String
scan inside String.[] = (String.[], [])
scan true (String.◌∷◌ c s) =
    let in_entry = scan true s in
    let after = scan false s in
    if code c == 0 then (String.[], after.1) else (String.◌∷◌ c in_entry.0, in_entry.1)
scan false (String.◌∷◌ c s) =
    let in_entry = scan true s in
    let after = scan false s in
    if stops c s
    then (String.[], [])
    else if code c == 0
    then after
    else (String.[], String.◌∷◌ c in_entry.0 ∷ in_entry.1)

-- `memcpy(d, s, len+1)` for each entry.
unfoldable pub render : List String → String
render [] = String.[]
render (e ∷ es) = str_append e (String.◌∷◌ nul (render es))

-- The entries that do not start with the key.
abbrev pub others : String → List String → List String
others key es = keep (λ e. not (has_prefix key e)) es

abbrev pub entry_of : String → String → String
entry_of key value = str_append key (str_append "=" value)

-- `none` is an environment after a write outside a buffer.
unfoldable pub uboot_unset_env_key : String → Option String → Option String × Bool
unfolding scan render
uboot_unset_env_key key none = (none, true)
uboot_unset_env_key key (some old) = (some (render (others key (scan false old).1)), true)

-- The buffer `v` has 128 bytes.
unfoldable pub uboot_set_env_key : String → String → Option String → Option String × Bool
unfolding scan render
uboot_set_env_key key value none = (none, true)
uboot_set_env_key key value (some old) =
    if leb (strlen (entry_of key value) + 1) 128
    then (some (render (others key (scan false old).1 ++ entry_of key value ∷ [])), true)
    else (none, true)

-- A C string: the characters up to the first NUL.
unfoldable pub c_string : String → String
c_string String.[] = String.[]
c_string (String.◌∷◌ c s) =
    let rest = c_string s in if code c == 0 then String.[] else String.◌∷◌ c rest

-- The loop of `uboot_get_env_key`: the buffer from `k` and from `i` on.
unfoldable pub get_loop : String → String → String → Option String
unfolding c_string
get_loop key from String.[] = none
get_loop key from (String.◌∷◌ c s) =
    let same_k = get_loop key from s in
    let next_k = get_loop key s s in
    if not (code c == 0)
    then same_k
    else if has_prefix key from
    then some (c_string (drop_chars (suc (strlen key)) from))
    else next_k

unfoldable pub uboot_get_env_key : String → Option String → Option String
unfolding get_loop
uboot_get_env_key key none = none
uboot_get_env_key key (some buf) = get_loop key buf buf

unfoldable pub uboot_flush_env : Bool → Option String → Option String × Bool
unfolding uboot_unset_env_key
uboot_flush_env single_env env =
    if single_env then ((uboot_unset_env_key "pv_trying" env).0, true) else (env, true)

-- `uboot_ops`
abbrev pub uboot_ops : Bool → BlOps (Option String)
uboot_ops single_env = record {
  set_env_key = uboot_set_env_key;
  unset_env_key = uboot_unset_env_key;
  get_env_key = uboot_get_env_key;
  flush_env = uboot_flush_env single_env;
}
