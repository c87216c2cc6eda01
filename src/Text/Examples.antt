-- ===== src/Text/Examples.antt =====
-- Texts of one to four bytes a codepoint, and the theorems about them.
use Prim.Native.String.{String}
use sprout_lang.Prelude.{AllBytes, ℕ, ◌⊎◌, inl, inr, ◌↔◌, some, List, [], ◌∷◌, ◌≡◌, refl, ok, arith}
use sprout_lang.Prelude.Int.{pos}
use sprout_lang.Text.{
  encode, char_to_string, bytes_to_utf8, utf8_validate, valid, invalid, str_len, str_char_at,
  str_slice,
}
use sprout_lang.Text.Encoding.{IsScalar}
use sprout_lang.Text.Walks.{encode_all, AllScalar, str_char_at-encode_all, str_slice-encode_all}
use sprout_lang.Text.Decode.{utf8_validate_iff}
use sprout_lang.Text.Chars.{char_to_string_roundtrip, bytes_to_utf8_lem}

-- "aé€😀"
abbrev sample : List ℕ
sample = 0x61 ∷ 0xE9 ∷ 0x20AC ∷ 0x1F600 ∷ []

abbrev sample_bytes : List ℕ
sample_bytes = 0x61 ∷ 0xC3 ∷ 0xA9 ∷ 0xE2 ∷ 0x82 ∷ 0xAC ∷ 0xF0 ∷ 0x9F ∷ 0x98 ∷ 0x80 ∷ []

sample_encoded : encode_all sample ≡ sample_bytes
unfolding encode_all encode
sample_encoded = refl

surrogate_rejected : utf8_validate (0xED ∷ 0xA0 ∷ 0x80 ∷ []) ≡ invalid "invalid UTF-8 sequence"
unfolding utf8_validate
surrogate_rejected = refl

sample-AllScalar : AllScalar sample
sample-AllScalar = omega arith

sample_bytes-AllBytes : AllBytes sample_bytes
sample_bytes-AllBytes = omega arith

euro-IsScalar : IsScalar 0x20AC
euro-IsScalar = omega arith

utf8_validate_iff_example :
    (utf8_validate sample_bytes ≡ valid)
    ↔ ((cps : List ℕ) × AllScalar cps × (sample_bytes ≡ encode_all cps))
utf8_validate_iff_example = utf8_validate_iff sample_bytes sample_bytes-AllBytes

str_char_at-encode_all_example : str_char_at (some (encode_all sample)) (pos 2) ≡ ok (some 0x20AC)
str_char_at-encode_all_example = str_char_at-encode_all sample (pos 2) sample-AllScalar

str_slice-encode_all_example :
    str_slice (some (encode_all sample)) (pos 1) (pos 2) ≡ ok (encode_all (0xE9 ∷ 0x20AC ∷ []))
str_slice-encode_all_example = str_slice-encode_all sample (pos 1) (pos 2) sample-AllScalar

char_to_string_roundtrip_example :
    (s : List ℕ) × (char_to_string (pos 0x20AC) ≡ ok s)
    × (str_len (some s) ≡ ok 1)
    × (str_char_at (some s) (pos 0) ≡ ok (some 0x20AC))
    × (bytes_to_utf8 (some s) ≡ ok (inr s))
char_to_string_roundtrip_example = char_to_string_roundtrip 0x20AC euro-IsScalar

no_surrogate : IsScalar 0xD800 → ⊥
no_surrogate s = omega arith

bytes_to_utf8_lem_example :
    ((cps : List ℕ) × AllScalar cps
      × (sample_bytes ≡ encode_all cps)
      × (bytes_to_utf8 (some sample_bytes) ≡ ok (inr sample_bytes)))
    ⊎ ((reason : String) × (bytes_to_utf8 (some sample_bytes) ≡ ok (inl reason))
        × (((cps : List ℕ) × AllScalar cps × (sample_bytes ≡ encode_all cps)) → ⊥))
bytes_to_utf8_lem_example = bytes_to_utf8_lem sample_bytes sample_bytes-AllBytes
