-- ===== src/Tests/Encoding.antt =====
-- A run of the base64 functions, on a text whose encoding has a slash and a padding.
use pantavisor.Prelude.{
  ℕ, ◌+◌, ◌-◌, ◌*◌, ◌/◌, ◌%◌, ◌==◌, ◌≡◌, refl, ltb, not, ◌||◌, none, some, ◌>>=◌, [], ◌∷◌,
  if◌then◌else◌, arith,
}
use pantavisor.Base64.{Codec, pv_base64_url_encode, pv_base64_url_decode}
use pantavisor.Base64.Laws.{url_decode-url_encode}

abbrev digit : ℕ → ℕ
digit v =
    if ltb v 26
    then v + 65
    else if ltb v 52
    then v + 71
    else if ltb v 62
    then v - 4
    else if v == 62
    then 43
    else 47

abbrev value : ℕ → ℕ
value ch =
    if ch == 43
    then 62
    else if ch == 47
    then 63
    else if ltb ch 58
    then ch + 4
    else if ltb ch 91
    then ch - 65
    else ch - 71

-- mbedtls on texts of two bytes.
abbrev encode_two : Codec
encode_two room (a ∷ b ∷ []) =
    if ltb room 5
    then none
    else some (digit (a / 4) ∷ digit (a % 4 * 16 + b / 16) ∷ digit (b % 16 * 4) ∷ 61 ∷ [])
encode_two room src = none

abbrev decode_two : Codec
decode_two room (x ∷ y ∷ z ∷ w ∷ []) =
    if ltb room 2 || not (w == 61)
    then none
    else some ((value x * 4 + value y / 16) ∷ (value y % 16 * 16 + value z / 4) ∷ [])
decode_two room src = none

url_decode-url_encode_example :
    pv_base64_url_encode encode_two (255 ∷ 191 ∷ []) none
      >>= (λ t. pv_base64_url_decode decode_two [] t none)
    ≡ some (255 ∷ 191 ∷ [])
url_decode-url_encode_example =
    url_decode-url_encode encode_two decode_two (255 ∷ 191 ∷ []) (47 ∷ 55 ∷ 56 ∷ []) 1 (omega arith)
      (ground arith) (omega arith) refl (λ room h. ground (arith, h)) (λ room h. ground (arith, h))
