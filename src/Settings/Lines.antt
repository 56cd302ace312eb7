-- ===== src/Settings/Lines.antt =====
-- config_parser.c: the files that `load_key_value_file` reads, as settings and other lines.
use Prim.Native.Char.{Char, char, code}
use Prim.Native.String.{◌++◌ as str_append}
use text.Mathlib.TextLemmas.{cons-append, nil-append}
use pantavisor.Prelude.{
  ◌≡◌, ◌≢◌, refl, sym, ap, ◌∙◌, String, Bool, true, false, ◌==◌, Option, none, some, List, [], ◌∷◌,
  map, str_eq, eq_iff, if◌then◌else◌, arith, All,
}
use pantavisor.Settings.{ConfigItem, split_at, drop_last, load_key_value_file, config_get_value}
use pantavisor.Settings.Laws.{pair_of, is_keyed, last_value, load_lines_values}

-- A line: a key, `=`, a value and the character that ends it, or a text without `=` and that
-- character.
pub data FileLine : Type 0 where
  setting : String → String → Char → FileLine
  remark : String → Char → FileLine

abbrev pub line_text : FileLine → String
line_text (setting key value end) =
    str_append (str_append key (str_append "=" value)) (String.◌∷◌ end String.[])
line_text (remark text end) = str_append text (String.◌∷◌ end String.[])

abbrev pub no_equals : String → Bool
no_equals String.[] = true
no_equals (String.◌∷◌ c s) = if code c == 61 then false else no_equals s

abbrev pub IsLine : FileLine → Type 0
IsLine (setting key value end) = (no_equals key ≡ true) × (key ≢ "")
IsLine (remark text end) = no_equals text ≡ true

-- The value of the last setting of a key.
abbrev pub last_setting : List FileLine → String → Option String
last_setting [] k = none
last_setting (setting key value end ∷ lines) k = elim (last_setting lines k) [
  | some v ↦ some v
  | none ↦ if str_eq key k then some value else none
]
last_setting (remark text end ∷ lines) k = last_setting lines k

drop_last-ended : (s : String) (c : Char) → drop_last (str_append s (String.◌∷◌ c String.[])) ≡ s
unfolding drop_last
drop_last-ended String.[] c = ap drop_last (nil-append (String.◌∷◌ c String.[]))
drop_last-ended (String.◌∷◌ d String.[]) c = ap drop_last (
    cons-append d String.[] (String.◌∷◌ c String.[])
    ∙ ap (String.◌∷◌ d) (nil-append (String.◌∷◌ c String.[])))
drop_last-ended (String.◌∷◌ d (String.◌∷◌ x s)) c =
    let tail = String.◌∷◌ c String.[] in
    ap drop_last (cons-append d (String.◌∷◌ x s) tail ∙ ap (String.◌∷◌ d) (cons-append x s tail))
    ∙ ap (λ t. String.◌∷◌ d (drop_last t)) (sym (cons-append x s tail))
    ∙ ap (String.◌∷◌ d) (drop_last-ended (String.◌∷◌ x s) c)

split_at-equals :
    (key value : String)
    → no_equals key ≡ true
    → split_at 61 (str_append key (str_append "=" value)) ≡ some (key, value)
unfolding split_at
split_at-equals String.[] value h = ap (split_at 61) (
    nil-append (str_append "=" value)
    ∙ cons-append (char 61 tt) "" value
    ∙ ap (String.◌∷◌ (char 61 tt)) (nil-append value))
split_at-equals (String.◌∷◌ c key) value h =
    ap (split_at 61) (cons-append c key (str_append "=" value))
    ∙ ground (arith, h, split_at-equals key value)

split_at-remark : (text : String) → no_equals text ≡ true → split_at 61 text ≡ none
unfolding split_at
split_at-remark String.[] h = refl
split_at-remark (String.◌∷◌ c text) h = ground (arith, h, split_at-remark text)

pair_of-setting :
    (key value : String) (end : Char)
    → no_equals key ≡ true
    → pair_of (line_text (setting key value end)) ≡ some (key, value)
pair_of-setting key value end h =
    ap (split_at 61) (drop_last-ended (str_append key (str_append "=" value)) end)
    ∙ split_at-equals key value h

pair_of-remark :
    (text : String) (end : Char)
    → no_equals text ≡ true
    → pair_of (line_text (remark text end)) ≡ none
pair_of-remark text end h = ap (split_at 61) (drop_last-ended text end) ∙ split_at-remark text h

lines-keyed :
    (lines : List FileLine)
    → All IsLine lines
    → All (λ line. is_keyed line ≡ true) (map line_text lines)
lines-keyed [] h = tt
lines-keyed (setting key value end ∷ lines) h = (
  ground (arith, pair_of-setting key value end h.0.0, h.0.1, eq_iff key ""),
  lines-keyed lines h.1,
)
lines-keyed (remark text end ∷ lines) h =
    (ground (arith, pair_of-remark text end h.0), lines-keyed lines h.1)

last_value-setting :
    (lines : List FileLine) (k : String)
    → All IsLine lines
    → last_value (map line_text lines) k ≡ last_setting lines k
last_value-setting [] k h = refl
last_value-setting (setting key value end ∷ lines) k h =
    ground (arith, pair_of-setting key value end h.0.0, last_value-setting lines k h.1)
last_value-setting (remark text end ∷ lines) k h =
    ground (arith, pair_of-remark text end h.0, last_value-setting lines k h.1)

-- When a file has two lines or more, each a setting whose key is not empty and has no `=`, or a text
-- without `=`, and each with a character at its end, loading it is defined, and a key then has the
-- value of its last setting in the file, or else the one it had.
pub load_file_values :
    (first second : FileLine) (lines : List FileLine) (list : List ConfigItem) (k : String)
    → All IsLine (first ∷ second ∷ lines)
    → (list' : List ConfigItem) × (load_key_value_file (map line_text (first ∷ second ∷ lines)) list
        ≡ some list')
      × (config_get_value list' k ≡ elim (last_setting (first ∷ second ∷ lines) k) [
        | some v ↦ some v
        | none ↦ config_get_value list k
      ])
unfolding load_key_value_file
load_file_values first second lines list k h =
    let all = first ∷ second ∷ lines in
    let (list', e, v) = load_lines_values (map line_text all) list k (lines-keyed all h) in
    (
      list',
      e,
      v
          ∙ ap
              (λ o. elim o as (λ o. Option String) [
                | some v ↦ some v
                | none ↦ config_get_value list k
              ])
              (last_value-setting all k h),
    )
