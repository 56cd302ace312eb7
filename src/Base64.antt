-- ===== src/Base64.antt =====
-- utils/base64.c, on texts as lists of bytes without NUL. mbedtls is a parameter. Allocations succeed,
-- and a text is shorter than an `int` can count.
pub mod Laws
use pantavisor.Prelude.{
  ℕ, ◌+◌, ◌*◌, ◌/◌, ◌%◌, ◌^◌, ◌==◌, Option, none, some, ◌>>=◌, List, [], ◌∷◌, ◌++◌, map, length,
  if◌then◌else◌,
}

-- `mbedtls_base64_encode` and `mbedtls_base64_decode`: the room at the destination and the source, to
-- what is written, or an error.
abbrev pub Codec : Type 0
Codec = ℕ → List ℕ → Option (List ℕ)

-- The new block has no place for a NUL. `behind` is what follows it in memory, up to the next NUL,
-- which the tests on the text see as its end; where there is nothing to add, the old block is kept.
unfoldable pub pv_base64_add_padding_multi4 : List ℕ → List ℕ → List ℕ
pv_base64_add_padding_multi4 behind str =
    if length str % 4 == 2
    then str ++ 61 ∷ 61 ∷ behind
    else if length str % 4 == 3
    then str ++ 61 ∷ behind
    else str

unfoldable pub pv_base64_remove_padding_multi4 : List ℕ → List ℕ
pv_base64_remove_padding_multi4 [] = []
pv_base64_remove_padding_multi4 (ch ∷ str) =
    let rest = pv_base64_remove_padding_multi4 str in if ch == 61 then [] else ch ∷ rest

-- The room for a decoded text, a `size_t`.
unfoldable pub decoded_room : ℕ → ℕ
decoded_room ilen = (4 * ilen % 2 ^ 64 / 3 + 3) % 2 ^ 64 / 4 * 4

-- The new value of `*dst`, from its old one; `none` is a null pointer, and then the call returns -1.
unfoldable pub pv_base64_decode : Codec → List ℕ → Option (List ℕ) → Option (List ℕ)
pv_base64_decode decode src (some dst) = none
pv_base64_decode decode src none = decode (decoded_room (length src)) src

unfoldable pub from_url : ℕ → ℕ
from_url ch = let c = if ch == 95 then 47 else ch in if c == 45 then 43 else c

unfoldable pub pv_base64_url_decode : Codec → List ℕ → List ℕ → Option (List ℕ) → Option (List ℕ)
pv_base64_url_decode decode behind src (some dst) = none
pv_base64_url_decode decode behind src none =
    pv_base64_decode decode (map from_url (pv_base64_add_padding_multi4 behind src)) none

-- The room for an encoded text, a `size_t`.
unfoldable pub encoded_room : ℕ → ℕ
encoded_room ilen = (ilen * 4 % 2 ^ 64 / 3 + 4) % 2 ^ 64

unfoldable pub to_url : ℕ → ℕ
to_url ch = let c = if ch == 47 then 95 else ch in if c == 43 then 45 else c

unfoldable pub pv_base64_url_encode : Codec → List ℕ → Option (List ℕ) → Option (List ℕ)
pv_base64_url_encode encode src (some dst) = none
pv_base64_url_encode encode src none =
    encode (encoded_room (length src)) src
    >>= (λ out. some (pv_base64_remove_padding_multi4 (map to_url out)))
