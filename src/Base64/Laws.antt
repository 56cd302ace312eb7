-- ===== src/Base64/Laws.antt =====
-- Encoding a text for a URL and decoding it again.
use pantavisor.Prelude.{
  ℕ, zero, suc, ◌+◌, ◌*◌, ◌/◌, ◌%◌, ◌^◌, ◌≤◌, ◌<◌, ◌≡◌, ◌≢◌, refl, sym, none, some, ◌>>=◌, List, [],
  ◌∷◌, ◌++◌, map, length, replicate, length-append, arith, All,
}
use pantavisor.Base64.{
  Codec, pv_base64_add_padding_multi4, pv_base64_remove_padding_multi4, decoded_room,
  pv_base64_decode, from_url, pv_base64_url_decode, encoded_room, to_url, pv_base64_url_encode,
}

-- No padding, and no character that only the alphabet of URLs has.
abbrev pub IsBase64 : ℕ → Type 0
IsBase64 ch = (ch ≢ 61) × (ch ≢ 45) × (ch ≢ 95)

from_to_url : (ch : ℕ) → IsBase64 ch → from_url (to_url ch) ≡ ch
unfolding from_url to_url
from_to_url ch h = ground (arith, h.0, h.1, h.2)

-- The encoder's work on a body and its padding leaves the body alone, in the alphabet of URLs.
remove_padding_body :
    (body : List ℕ) (n : ℕ)
    → All IsBase64 body
    → pv_base64_remove_padding_multi4 (map to_url (body ++ replicate n 61)) ≡ map to_url body
unfolding pv_base64_remove_padding_multi4 to_url
remove_padding_body [] zero h = refl
remove_padding_body [] (suc n) h = refl
remove_padding_body (ch ∷ body) n h =
    ground (arith, h.0.0, h.0.1, h.0.2, remove_padding_body body n h.1)

from_to_body :
    (body rest : List ℕ)
    → All IsBase64 body
    → map from_url (map to_url body ++ rest) ≡ body ++ map from_url rest
from_to_body [] rest h = refl
from_to_body (ch ∷ body) rest h = rw (from_to_url ch h.0, from_to_body body rest h.1) refl

append_nil : (xs : List ℕ) → xs ++ [] ≡ xs
append_nil [] = refl
append_nil (x ∷ xs) = rw (append_nil xs) refl

length-to_url : (body : List ℕ) → length (map to_url body) ≡ length body
length-to_url [] = refl
length-to_url (ch ∷ body) = omega (arith, length-to_url body)

-- With a NUL behind the block, the decoder gives a body its padding back.
add_padding_body :
    (body : List ℕ) (n : ℕ)
    → All IsBase64 body
    → n ≤ 2
    → (length body + n) % 4 ≡ 0
    → map from_url (pv_base64_add_padding_multi4 [] (map to_url body)) ≡ body ++ replicate n 61
unfolding pv_base64_add_padding_multi4 from_url
add_padding_body body zero h l m =
    ground
      (arith, m, length-to_url body, sym (append_nil (map to_url body)), from_to_body body [] h)
add_padding_body body (suc zero) h l m =
    ground (arith, m, length-to_url body, from_to_body body (61 ∷ []) h)
add_padding_body body (suc (suc zero)) h l m =
    ground (arith, m, length-to_url body, from_to_body body (61 ∷ 61 ∷ []) h)
add_padding_body body (suc (suc (suc n))) h l m = absurd (omega (arith, l))

encoded_room_fits : (n : ℕ) → n < 2 ^ 31 → 4 * ((n + 2) / 3) + 1 ≤ encoded_room n
unfolding encoded_room
encoded_room_fits n h = omega (arith, h)

decoded_room_fits : (n : ℕ) → n < 2 ^ 31 → n ≤ decoded_room (4 * ((n + 2) / 3))
unfolding decoded_room
decoded_room_fits n h = omega (arith, h)

length-replicate : (n : ℕ) → length {A = ℕ} (replicate n 61) ≡ n
length-replicate zero = refl
length-replicate (suc n) = omega (arith, length-replicate n)

url_encode_body :
    (encode : Codec) (src body : List ℕ) (n : ℕ)
    → All IsBase64 body
    → encode (encoded_room (length src)) src ≡ some (body ++ replicate n 61)
    → pv_base64_url_encode encode src none ≡ some (map to_url body)
unfolding pv_base64_url_encode
url_encode_body encode src body n h e = rw (e, remove_padding_body body n h) refl

-- A text shorter than 2 ^ 31 bytes, whose standard encoding is a body of the alphabet and at most two
-- paddings, of four characters for each three of the text: if mbedtls encodes the text so and decodes
-- it again, each time that it is given the room, then decoding for a URL gives back what encoding for
-- a URL was given, when a NUL follows the block that the padding is added in.
pub url_decode-url_encode :
    (encode decode : Codec) (src body : List ℕ) (n : ℕ)
    → length src < 2 ^ 31
    → All IsBase64 body
    → n ≤ 2
    → length body + n ≡ 4 * ((length src + 2) / 3)
    → ((room : ℕ)
        → 4 * ((length src + 2) / 3) + 1 ≤ room
        → encode room src ≡ some (body ++ replicate n 61))
    → ((room : ℕ) → length src ≤ room → decode room (body ++ replicate n 61) ≡ some src)
    → pv_base64_url_encode encode src none >>= (λ t. pv_base64_url_decode decode [] t none)
      ≡ some src
unfolding pv_base64_url_decode pv_base64_decode
url_decode-url_encode encode decode src body n l h p size e d =
    let padded = body ++ replicate n 61 in
    let fits : length src ≤ decoded_room (length padded) =
      rw (length-append body (replicate n 61), length-replicate n, size)
        (decoded_room_fits (length src) l) in
    rw
      (
        url_encode_body encode src body n h
            (e (encoded_room (length src)) (encoded_room_fits (length src) l)),
        add_padding_body body n h p (omega (arith, size)),
      )
      (d (decoded_room (length padded)) fits)
