-- ===== src/Settings.antt =====
-- config_parser.c: lists of settings, read from the kernel's command line and from files of lines
-- `key=value`. `none` is a call of `free` on a pointer that was never assigned, or a
-- write outside a buffer. An allocation succeeds.
pub mod Laws
pub mod Lines
use Prim.Native.Char.{Char, code}
use Prim.Native.String
use pantavisor.Prelude.{
  ℕ, String, Bool, true, false, ◌==◌, Option, none, some, ◌>>=◌, List, [], ◌∷◌, ◌++◌, str_eq,
  if◌then◌else◌,
}
use pantavisor.Str.{has_prefix, drop_chars, strlen, strtok}

-- `struct config_item`
pub record ConfigItem : Type 0 where
  pub key : String
  pub value : String

unfoldable pub _config_get_by_key : List ConfigItem → String → Option ConfigItem
_config_get_by_key [] key = none
_config_get_by_key (i ∷ is) key =
    let rest = _config_get_by_key is key in if str_eq i.key key then some i else rest

-- The value of the item that `_config_get_by_key` finds.
unfoldable pub set_item : List ConfigItem → String → String → List ConfigItem
set_item [] key value = []
set_item (i ∷ is) key value =
    let rest = set_item is key value in
    if str_eq i.key key then record i { value = value } ∷ is else i ∷ rest

-- A new item with an empty key is freed before it is filled.
unfoldable pub _config_add_item : List ConfigItem → String → String → Option (List ConfigItem)
_config_add_item list key value = elim (_config_get_by_key list key) [
  | some i ↦ some (set_item list key value)
  | none ↦ if str_eq key "" then none else some (list ++ record { key = key; value = value } ∷ [])
]

-- To an empty list nothing is added.
unfoldable pub _config_replace_item : List ConfigItem → String → String → Option (List ConfigItem)
unfolding _config_add_item
_config_replace_item [] key value = some []
_config_replace_item (i ∷ is) key value = elim (_config_get_by_key (i ∷ is) key) [
  | some curr ↦ some (set_item (i ∷ is) key value)
  | none ↦ _config_add_item (i ∷ is) key value
]

-- The text up to a character, if it is there, with what is behind it.
unfoldable pub split_at : ℕ → String → Option (String × String)
split_at n String.[] = none
split_at n (String.◌∷◌ c s) =
    if code c == n
    then some (String.[], s)
    else elim (split_at n s) [ none ↦ none | some p ↦ some (String.◌∷◌ c p.0, p.1) ]

-- The text up to a character or its end.
abbrev pub up_to : ℕ → String → String
up_to n s = elim (split_at n s) [ none ↦ s | some p ↦ p.0 ]

-- A token that starts with the hint: its key and its value, which ends at a newline.
unfoldable pub cmdline_token : String → String → List ConfigItem → Option (List ConfigItem)
unfolding split_at
cmdline_token hint token list =
    if has_prefix hint token
    then elim (strtok (drop_chars (strlen hint) token) 61) [
      | none ↦ some list
      | some (key, value) ↦ _config_replace_item list key (up_to 10 value)
    ]
    else some list

-- The first of the tokens between spaces, if the text starts with one, and those behind it.
abbrev words_of : String → String × List String
words_of String.[] = (String.[], [])
words_of (String.◌∷◌ c s) =
    let (word, words) = words_of s in
    if code c == 32
    then (String.[], if str_eq word "" then words else word ∷ words)
    else (String.◌∷◌ c word, words)

abbrev pub cmdline_words : String → List String
cmdline_words s = let (word, words) = words_of s in if str_eq word "" then words else word ∷ words

unfoldable pub cmdline_loop : String → List String → List ConfigItem → Option (List ConfigItem)
unfolding cmdline_token
cmdline_loop hint [] list = some list
cmdline_loop hint (token ∷ tokens) list =
    cmdline_token hint token list >>= (λ list'. cmdline_loop hint tokens list')

-- `buf` is the command line, up to 1024 characters.
unfoldable pub config_parse_cmdline : String → String → List ConfigItem → Option (List ConfigItem)
config_parse_cmdline hint buf list = cmdline_loop hint (cmdline_words buf) list

-- A line as `fgets` gives it loses its last character.
unfoldable pub drop_last : String → String
drop_last String.[] = String.[]
drop_last (String.◌∷◌ c String.[]) = String.[]
drop_last (String.◌∷◌ c (String.◌∷◌ d s)) = String.◌∷◌ c (drop_last (String.◌∷◌ d s))

-- A line without `=` is skipped.
unfoldable pub load_line : String → List ConfigItem → Option (List ConfigItem)
unfolding split_at drop_last _config_add_item
load_line line list = elim (split_at 61 (drop_last line)) [
  | none ↦ some list
  | some (key, value) ↦ _config_add_item list key value
]

-- The loop over the lines that `fgets` gives.
unfoldable pub load_lines : List String → List ConfigItem → Option (List ConfigItem)
unfolding load_line
load_lines [] list = some list
load_lines (line ∷ lines) list = load_line line list >>= (λ list'. load_lines lines list')

-- The lines of the file. `fgets` may read as many characters as the file has and adds a NUL, and the
-- buffer has no room for that one: a file of a single line, or an empty one, is written outside it.
unfoldable pub load_key_value_file : List String → List ConfigItem → Option (List ConfigItem)
unfolding load_lines
load_key_value_file [] list = none
load_key_value_file (line ∷ []) list = none
load_key_value_file (line ∷ next ∷ lines) list = load_lines (line ∷ next ∷ lines) list

unfoldable pub config_get_value : List ConfigItem → String → Option String
unfolding _config_get_by_key
config_get_value list key = elim (_config_get_by_key list key) [
  | none ↦ none
  | some i ↦ some i.value
]
