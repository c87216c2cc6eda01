-- ===== src/Base64/RoundTrip.antt =====
-- What `base64_encode_bytes` writes, `base64_decode_bytes` reads back; how long both are.
use sprout_lang.Prelude.{ℕ, ◌+◌, ◌*◌, ◌/◌, ◌%◌, List, [], ◌∷◌, length, AllBytes, ◌≡◌, refl, arith}
use sprout_lang.Base64.{base64_encode_bytes, base64_decode_bytes, decode_groups, decoded, is_empty}
use sprout_lang.Base64.Tables.{value_0, value_1, value_2}
use sprout_lang.Prelude.Bits.{mask_63}
use sprout_lang.Base64.Groups.{group_of_1, group_of_2, group_of_3}

-- Four characters for each three bytes, the last group filled up.
pub length-base64_encode_bytes :
    (bs : List ℕ) → length (base64_encode_bytes bs) ≡ 4 * ((length bs + 2) / 3)
unfolding base64_encode_bytes
length-base64_encode_bytes [] = refl
length-base64_encode_bytes (a ∷ []) = refl
length-base64_encode_bytes (a ∷ b ∷ []) = refl
length-base64_encode_bytes (a ∷ b ∷ c ∷ rest) = omega (arith, length-base64_encode_bytes rest)

decode_groups-encode :
    (bs : List ℕ) → AllBytes bs → decode_groups (base64_encode_bytes bs) ≡ decoded bs
unfolding base64_encode_bytes decode_groups
decode_groups-encode [] h = refl
decode_groups-encode (a ∷ []) (pa, h) =
    ground (arith, value_0 a pa, value_1 a 0 (omega arith), group_of_1 a (decoded []) pa)
decode_groups-encode (a ∷ b ∷ []) (pa, (pb, h)) = ground (
  arith,
  value_0 a pa,
  value_1 a b pb,
  value_2 b 0 (omega arith),
  group_of_2 a b pa pb (decoded []),
)
decode_groups-encode (a ∷ b ∷ c ∷ rest) (pa, (pb, (pc, h))) =
    rw (value_0 a pa, value_1 a b pb, value_2 b c pc, mask_63 c, decode_groups-encode rest h)
      (group_of_3 a b c pa pb pc (is_empty (base64_encode_bytes rest)) (decoded rest))

-- Decoding an encoded byte string gives it back, whatever the bytes.
pub base64_decode-encode :
    (bs : List ℕ) → AllBytes bs → base64_decode_bytes (base64_encode_bytes bs) ≡ decoded bs
unfolding base64_decode_bytes
base64_decode-encode bs h =
    let whole : length (base64_encode_bytes bs) % 4 ≡ 0 =
      omega (arith, length-base64_encode_bytes bs) in
    rw whole (decode_groups-encode bs h)
