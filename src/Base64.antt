-- ===== src/Base64.antt =====
-- runtime/sprout_runtime.c: base64 and the byte-wise XOR of stdlib.crypto, on lists of bytes.
--
-- A char is its code. `x & m`, `x | y` and `x ^ y` are `bit_and`, `bit_or` and `bit_xor`,
-- `x << k` is `x * 2 ^ k` and `x >> k` is `x / 2 ^ k`. The output buffer is the list that is
-- built; an allocation that fails is left out.
pub mod Tables
pub mod Groups
pub mod RoundTrip
pub mod Size
pub mod Xor
mod Examples
use Prim.Native.Nat.{bit_and, bit_or, bit_xor}
use Prim.Native.String.{String}
use sprout_lang.Prelude.{
  ℕ, ◌+◌, ◌-◌, ◌*◌, ◌/◌, ◌%◌, Bool, true, false, ◌&&◌, ltb, leb, ◌==◌, if◌then◌else◌, Option, none,
  some, List, [], ◌∷◌, ◌++◌, length, get_elem?, ◌⊎◌, inl, inr, Outcome, ok, fail,
}

-- `table[i]`: the 64 characters of the alphabet.
unfoldable pub table : ℕ → ℕ
table i =
    if ltb i 26
    then b'A' + i
    else if ltb i 52
    then b'a' + (i - 26)
    else if ltb i 62
    then b'0' + (i - 52)
    else if i == 62
    then b'+'
    else b'/'

-- The loop takes one, two or three bytes a round.
unfoldable pub base64_encode_bytes : List ℕ → List ℕ
base64_encode_bytes [] = []
base64_encode_bytes (a ∷ []) =
    table (bit_and (a / 4) 0x3f) ∷ table (bit_or (bit_and a 0x03 * 16) (0 / 16)) ∷ b'=' ∷ b'=' ∷ []
base64_encode_bytes (a ∷ b ∷ []) =
    table (bit_and (a / 4) 0x3f)
    ∷ table (bit_or (bit_and a 0x03 * 16) (b / 16))
    ∷ table (bit_or (bit_and b 0x0f * 4) (0 / 64))
    ∷ b'='
    ∷ []
base64_encode_bytes (a ∷ b ∷ c ∷ rest) =
    table (bit_and (a / 4) 0x3f)
    ∷ table (bit_or (bit_and a 0x03 * 16) (b / 16))
    ∷ table (bit_or (bit_and b 0x0f * 4) (c / 64))
    ∷ table (bit_and c 0x3f)
    ∷ base64_encode_bytes rest

-- `none` is the -1 of a character outside the alphabet.
unfoldable pub base64_value : ℕ → Option ℕ
base64_value c =
    if leb b'A' c && leb c b'Z'
    then some (c - b'A')
    else if leb b'a' c && leb c b'z'
    then some (c - b'a' + 26)
    else if leb b'0' c && leb c b'9'
    then some (c - b'0' + 52)
    else if c == b'+'
    then some 62
    else if c == b'/'
    then some 63
    else none

-- The three bytes that two, three or four values write, each cut to an unsigned char.
unfoldable pub byte_0 : ℕ → ℕ → ℕ
byte_0 v0 v1 = bit_or (v0 * 4) (v1 / 16) % 256

unfoldable pub byte_1 : ℕ → ℕ → ℕ
byte_1 v1 v2 = bit_or (bit_and v1 0x0f * 16) (v2 / 4) % 256

unfoldable pub byte_2 : ℕ → ℕ → ℕ
byte_2 v2 v3 = bit_or (bit_and v2 0x03 * 64) v3 % 256

pub data Decoded : Type 0 where
  decoded : List ℕ → Decoded
  invalid : String → Decoded

abbrev pub with_front : List ℕ → Decoded → Decoded
with_front bs (decoded out) = decoded (bs ++ out)
with_front bs (invalid reason) = invalid reason

-- One round, in front of the rounds that follow: `last` says that `i + 4 == len`.
unfoldable pub decode_group : ℕ → ℕ → ℕ → ℕ → Bool → Decoded → Decoded
decode_group c0 c1 c2 c3 last rest = elim (base64_value c0) [
  | none ↦ invalid "invalid base64 character"
  | some v0 ↦ elim (base64_value c1) [
    | none ↦ invalid "invalid base64 character"
    | some v1 ↦
        if c2 == b'='
        then (if c3 == b'='
            then (if last then decoded (byte_0 v0 v1 ∷ []) else invalid "invalid base64 padding")
            else invalid "invalid base64 padding")
        else elim (base64_value c2) [
          | none ↦ invalid "invalid base64 character"
          | some v2 ↦
              if c3 == b'='
              then (if last
                  then decoded (byte_0 v0 v1 ∷ byte_1 v1 v2 ∷ [])
                  else invalid "invalid base64 padding")
              else elim (base64_value c3) [
                | none ↦ invalid "invalid base64 character"
                | some v3 ↦ with_front (byte_0 v0 v1 ∷ byte_1 v1 v2 ∷ byte_2 v2 v3 ∷ []) rest
              ]
        ]
  ]
]

abbrev pub is_empty : List ℕ → Bool
is_empty [] = true
is_empty (c ∷ cs) = false

-- The loop over groups of four. The length is a multiple of four, so there is never a rest.
unfoldable pub decode_groups : List ℕ → Decoded
decode_groups (c0 ∷ c1 ∷ c2 ∷ c3 ∷ cs) = decode_group c0 c1 c2 c3 (is_empty cs) (decode_groups cs)
decode_groups _ = decoded []

unfoldable pub base64_decode_bytes : List ℕ → Decoded
unfolding decode_groups
base64_decode_bytes text =
    if length text % 4 == 0 then decode_groups text else invalid "invalid base64 length"

abbrev pub is_char : Option ℕ → ℕ → Bool
is_char none c = false
is_char (some d) c = d == c

-- `len >= k && text[len - k] == '='`
abbrev pub ends_in_pad : ℕ → List ℕ → Bool
ends_in_pad k text = leb k (length text) && is_char (get_elem? text (length text - k)) b'='

-- `len / 4 * 3`, less one for each of up to two `=` at the end: the size of the output buffer.
unfoldable pub decoded_size : List ℕ → ℕ
decoded_size text =
    let size = length text / 4 * 3 in
    let size' = if ends_in_pad 1 text then size - 1 else size in
    if ends_in_pad 2 text then size' - 1 else size'

-- `none` is a NULL handle; `inl` is the error with the two lengths.
unfoldable pub xor_bytes : List ℕ → List ℕ → List ℕ
xor_bytes [] ys = []
xor_bytes (x ∷ xs) [] = []
xor_bytes (x ∷ xs) (y ∷ ys) = bit_xor x y ∷ xor_bytes xs ys

unfoldable pub crypto_bytes_xor : Option (List ℕ) → Option (List ℕ) → Outcome ((ℕ × ℕ) ⊎ List ℕ)
crypto_bytes_xor none right = fail "crypto_bytes_xor: null bytes"
crypto_bytes_xor (some left) none = fail "crypto_bytes_xor: null bytes"
crypto_bytes_xor (some left) (some right) =
    if length left == length right
    then ok (inr (xor_bytes left right))
    else ok (inl (length left, length right))

unfoldable pub crypto_base64_encode : Option (List ℕ) → Outcome (List ℕ)
crypto_base64_encode none = fail "crypto_base64_encode: null bytes"
crypto_base64_encode (some bs) = ok (base64_encode_bytes bs)

unfoldable pub crypto_base64_decode : Option (List ℕ) → Outcome Decoded
crypto_base64_decode none = fail "crypto_base64_decode: null input"
crypto_base64_decode (some raw) = ok (base64_decode_bytes raw)
