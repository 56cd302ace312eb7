-- ===== src/Json/Escape.antt =====
-- Escaping a text and reading it back as a JSON string is read.
use pantavisor.Prelude.{
  ℕ, ◌+◌, ◌-◌, ◌*◌, ◌/◌, ◌%◌, ◌<◌, ◌≡◌, refl, false, ◌||◌, Option, none, some, List, [], ◌∷◌, All,
  zero, suc, ltb, leb, ◌==◌, if◌then◌else◌, arith, Bool-cases, inl, inr,
}
use pantavisor.Json.{
  nibble_to_hexchar, char_is_json_special, modify_to_json, format_bytes, pv_json_format,
}

-- The value of an upper-case hexadecimal digit.
abbrev pub hex_value : ℕ → ℕ
hex_value d = if ltb d 65 then d - 48 else d - 65 + 10

-- What a reader of a JSON string waits for: a character, the `u` of an escape, or so many more
-- digits after those of a value.
pub data Reading : Type 0 where
  plain escape : Reading
  digits : ℕ → ℕ → Reading

abbrev keep_char : ℕ → Option (List ℕ) → Option (List ℕ)
keep_char ch none = none
keep_char ch (some rest) = some (ch ∷ rest)

-- The text that the inside of a JSON string stands for, where its only escapes are `\u` with four
-- digits.
abbrev pub read_string : Reading → List ℕ → Option (List ℕ)
read_string plain [] = some []
read_string escape [] = none
read_string (digits n v) [] = none
read_string plain (ch ∷ buf) =
    if ch == 92
    then read_string escape buf
    else if leb ch 31 || ch == 34
    then none
    else keep_char ch (read_string plain buf)
read_string escape (ch ∷ buf) = if ch == 117 then read_string (digits 3 0) buf else none
read_string (digits zero v) (ch ∷ buf) = keep_char (v * 16 + hex_value ch) (read_string plain buf)
read_string (digits (suc n) v) (ch ∷ buf) = read_string (digits n (v * 16 + hex_value ch)) buf

hex_nibble : (n : ℕ) → n < 16 → hex_value (nibble_to_hexchar n) ≡ n
unfolding nibble_to_hexchar
hex_nibble n h = ground arith

read_escape :
    (ch : ℕ) (rest : List ℕ)
    → ch < 256
    → read_string plain (modify_to_json ch rest) ≡ keep_char ch (read_string plain rest)
unfolding modify_to_json
read_escape ch rest h =
    ground (arith, h, hex_nibble (ch % 256 / 16) (omega arith), hex_nibble (ch % 16) (omega arith))

read_plain :
    (ch : ℕ) (rest : List ℕ)
    → char_is_json_special ch ≡ false
    → read_string plain (ch ∷ rest) ≡ keep_char ch (read_string plain rest)
unfolding char_is_json_special
read_plain ch rest h = ground (arith, h)

read-format_bytes :
    (buf : List ℕ) → All (λ ch. ch < 256) buf → read_string plain (format_bytes buf) ≡ some buf
unfolding format_bytes
read-format_bytes [] h = refl
read-format_bytes (ch ∷ buf) h = elim (Bool-cases (char_is_json_special ch)) [
  | inl y ↦ ground (arith, y, read_escape ch (format_bytes buf) h.0, read-format_bytes buf h.1)
  | inr n ↦ ground (arith, n, read_plain ch (format_bytes buf) n, read-format_bytes buf h.1)
]

abbrev pub read_formatted : Option (List ℕ) → Option (List ℕ)
read_formatted none = none
read_formatted (some out) = read_string plain out

-- A text of bytes is what a reader of JSON strings makes of its escaped form; only an empty text
-- has none.
pub read-format :
    (ch : ℕ) (buf : List ℕ)
    → All (λ c. c < 256) (ch ∷ buf)
    → read_formatted (pv_json_format (ch ∷ buf)) ≡ some (ch ∷ buf)
unfolding pv_json_format
read-format ch buf h = read-format_bytes (ch ∷ buf) h
