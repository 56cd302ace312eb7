-- ===== src/Json.antt =====
-- utils/json.c: reading the tokens that the JSON library makes of a text, and escaping a text.
pub mod Escape
use pantavisor.Prelude.{
  ℕ, suc, ◌+◌, ◌-◌, ◌/◌, ◌%◌, String, Bool, true, false, ◌&&◌, ◌||◌, Option, none, some, List, [],
  ◌∷◌, str_eq, leb, ◌==◌, if◌then◌else◌,
}

-- `jsmntype_t`
pub data JsonKind : Type 0 where
  json_primitive json_object json_array json_string : JsonKind

-- `jsmntok_t`, with the text from its start to its end.
pub record JsonTok : Type 0 where
  pub kind : JsonKind
  pub text : String

abbrev is_string : JsonKind → Bool
is_string json_string = true
is_string _ = false

-- Is a token this key?
abbrev pub is_key : String → JsonTok → Bool
is_key key tok = is_string tok.kind && str_eq tok.text key

unfoldable pub pv_json_get_key_count : String → List JsonTok → ℕ
pv_json_get_key_count key [] = 0
pv_json_get_key_count key (tok ∷ toks) =
    let rest = pv_json_get_key_count key toks in if is_key key tok then suc rest else rest

-- The loop of `pv_json_get_value`; `found` is its `t == 1`.
unfoldable pub get_value : String → Bool → List JsonTok → Option String
get_value key found [] = none
get_value key found (tok ∷ toks) =
    if is_key key tok
    then get_value key true toks
    else if found
    then some tok.text
    else get_value key false toks

unfoldable pub pv_json_get_value : String → List JsonTok → Option String
unfolding get_value
pv_json_get_value key toks = get_value key false toks

-- A text's bytes are numbers below 256 here.
unfoldable pub nibble_to_hexchar : ℕ → ℕ
nibble_to_hexchar nibble_val = if leb nibble_val 9 then 48 + nibble_val else 65 + (nibble_val - 10)

-- A control character, a backslash or a quotation mark.
unfoldable pub char_is_json_special : ℕ → Bool
char_is_json_special ch = leb ch 31 || (ch == 92 || ch == 34)

-- What takes a special character's place: `\u00` and its two nibbles.
unfoldable pub modify_to_json : ℕ → List ℕ → List ℕ
unfolding nibble_to_hexchar
modify_to_json ch rest =
    92 ∷ 117 ∷ 48 ∷ 48 ∷ nibble_to_hexchar (ch % 256 / 16) ∷ nibble_to_hexchar (ch % 16) ∷ rest

unfoldable pub format_bytes : List ℕ → List ℕ
unfolding modify_to_json char_is_json_special
format_bytes [] = []
format_bytes (ch ∷ buf) =
    let rest = format_bytes buf in
    if char_is_json_special ch then modify_to_json ch rest else ch ∷ rest

-- `len` is the text's length: an empty text has no result.
unfoldable pub pv_json_format : List ℕ → Option (List ℕ)
unfolding format_bytes
pv_json_format [] = none
pv_json_format (ch ∷ buf) = some (format_bytes (ch ∷ buf))
