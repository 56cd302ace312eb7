-- ===== src/Str.antt =====
-- utils/str.h and utils/str.c: tests on texts, and the prefixes that bootloader.c tests by itself.
pub mod Laws
use Prim.Native.Char.{Char, code}
use Prim.Native.String
use pantavisor.Prelude.{
  ℕ, zero, suc, ◌-◌, String, Bool, true, false, ◌&&◌, ◌==◌, str_eq, ltb, Option, none, some,
  if◌then◌else◌,
}

-- `strncmp(prefix, s, strlen(prefix)) == 0`
unfoldable pub has_prefix : String → String → Bool
has_prefix String.[] s = true
has_prefix (String.◌∷◌ c p) String.[] = false
has_prefix (String.◌∷◌ c p) (String.◌∷◌ d s) = if code c == code d then has_prefix p s else false

-- `token + n`
unfoldable pub drop_chars : ℕ → String → String
drop_chars zero s = s
drop_chars (suc n) String.[] = String.[]
drop_chars (suc n) (String.◌∷◌ c s) = drop_chars n s

-- `strlen`
unfoldable pub strlen : String → ℕ
strlen String.[] = 0
strlen (String.◌∷◌ c s) = suc (strlen s)

unfoldable pub pv_str_startswith : String → String → Bool
unfolding has_prefix
pv_str_startswith prefix s = has_prefix prefix s

-- The callers give each text its whole length.
unfoldable pub pv_str_matches : String → String → Bool
pv_str_matches s t = str_eq s t

unfoldable pub pv_str_endswith : String → String → Bool
unfolding has_prefix drop_chars strlen
pv_str_endswith suffix s =
    if ltb (strlen suffix) (strlen s)
    then has_prefix suffix (drop_chars (strlen s - strlen suffix) s)
    else false

-- Both pointers are given.
unfoldable pub pv_str_skip_prefix : String → String → String
pv_str_skip_prefix s String.[] = s
pv_str_skip_prefix String.[] (String.◌∷◌ k key) = String.[]
pv_str_skip_prefix (String.◌∷◌ c s) (String.◌∷◌ k key) =
    let rest = pv_str_skip_prefix s key in if code k == code c then rest else String.◌∷◌ c s

-- `len` is the text's length.
unfoldable pub pv_str_replace_char : String → Char → Char → String
pv_str_replace_char String.[] which what = String.[]
pv_str_replace_char (String.◌∷◌ c s) which what =
    String.◌∷◌ (if code c == code which then what else c) (pv_str_replace_char s which what)

-- `strrchr`: the text from the last such character on.
unfoldable pub strrchr : String → ℕ → Option String
strrchr String.[] c = none
strrchr (String.◌∷◌ d s) c = elim (strrchr s c) [
  | some found ↦ some found
  | none ↦ if code d == c then some (String.◌∷◌ d s) else none
]

-- `strtok` with one delimiter: the text up to the next delimiter, and what is behind it.
abbrev pub cut : String → ℕ → String × String
cut String.[] c = (String.[], String.[])
cut (String.◌∷◌ d s) c =
    if code d == c
    then (String.[], s)
    else let (token, rest) = cut s c in (String.◌∷◌ d token, rest)

-- What `strtok` skips first.
abbrev pub skip_delimiters : String → ℕ → String
skip_delimiters String.[] c = String.[]
skip_delimiters (String.◌∷◌ d s) c = if code d == c then skip_delimiters s c else String.◌∷◌ d s

-- The next token with the rest of the text; none where only delimiters are left.
unfoldable pub strtok : String → ℕ → Option (String × String)
strtok s c = let start = skip_delimiters s c in if str_eq start "" then none else some (cut start c)
