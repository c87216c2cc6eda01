-- ===== src/Base64/Examples.antt =====
-- Encoding and decoding of short strings, and the theorems at them.
use sprout_lang.Prelude.{ℕ, List, [], ◌∷◌, length, ◌≡◌, refl, arith}
use sprout_lang.Base64.{
  base64_encode_bytes, base64_decode_bytes, decode_group, base64_value, table, byte_0, byte_1,
  decoded, invalid, decoded_size,
}
use sprout_lang.Base64.RoundTrip.{base64_decode-encode}
use sprout_lang.Base64.Size.{base64_decode_bytes-size}

-- "Ma" and "TWE="
abbrev plain : List ℕ
plain = b'M' ∷ b'a' ∷ []

abbrev coded : List ℕ
coded = b'T' ∷ b'W' ∷ b'E' ∷ b'=' ∷ []

encodes_sample : base64_encode_bytes plain ≡ coded
unfolding base64_encode_bytes table
encodes_sample = refl

decodes_sample : base64_decode_bytes coded ≡ decoded plain
unfolding base64_decode_bytes decode_group base64_value byte_0 byte_1
decodes_sample = refl

early_pad : base64_decode_bytes (b'T' ∷ b'W' ∷ b'=' ∷ b'E' ∷ []) ≡ invalid "invalid base64 padding"
unfolding base64_decode_bytes decode_group base64_value
early_pad = refl

base64_decode-encode_example : base64_decode_bytes (base64_encode_bytes plain) ≡ decoded plain
base64_decode-encode_example = base64_decode-encode plain (omega arith)

base64_decode_bytes-size_example : length plain ≡ decoded_size coded
base64_decode_bytes-size_example = base64_decode_bytes-size coded plain decodes_sample
