-- ===== src/Text/Chars.antt =====
-- `char_to_string` and `bytes_to_utf8`, against the encoding of scalar values.
use Prim.Native.String.{String}
use mathlib.Core.List.{append-nil}
use sprout_lang.Prelude.{
  AllBytes, ℕ, ◌⊎◌, inl, inr, some, List, [], ◌∷◌, true, false, ◌==◌, ◌≡◌, refl, ok, fail,
  Bool-cases, length, ltb, ltb→lt, arith,
}
use sprout_lang.Prelude.Int.{pos}
use sprout_lang.Text.{
  encode, char_to_string, sprout_validate_codepoint, bytes_to_utf8, utf8_validate, Verdict, valid,
  invalid, str_len, str_char_at,
}
use sprout_lang.Text.Encoding.{IsScalar}
use sprout_lang.Text.Walks.{encode_all, AllScalar, str_len-encode_all, str_char_at-encode_all}
use sprout_lang.Text.Validate.{validate-encode_all}
use sprout_lang.Text.Decode.{utf8_validate_iff}

encode_all-one : (cp : ℕ) → encode_all (cp ∷ []) ≡ encode cp
unfolding encode_all
encode_all-one cp = append-nil (encode cp)

checked : (cp : ℕ) → IsScalar cp → sprout_validate_codepoint (pos cp) ≡ true
unfolding sprout_validate_codepoint
checked cp h = ground arith

IsScalar-checked :
    (cp : ℕ) → sprout_validate_codepoint (pos cp) ≡ true → (cp == 0) ≡ false → IsScalar cp
unfolding sprout_validate_codepoint
IsScalar-checked cp h k = record {
  positive = ground arith;
  in_range = ground arith;
  no_surrogate = elim (Bool-cases (ltb cp 0xD800)) [
    | inl low ↦ inl (ltb→lt cp 0xD800 low)
    | inr high ↦ inr (ground arith)
  ];
}

Verdict-cases : (v : Verdict) → (v ≡ valid) ⊎ ((reason : String) × (v ≡ invalid reason))
Verdict-cases valid = inl refl
Verdict-cases (invalid reason) = inr (reason, refl)

-- A scalar value becomes a String of one codepoint, which reads back as it, and whose bytes
-- `bytes_to_utf8` takes for a String again.
pub char_to_string_roundtrip :
    (cp : ℕ)
    → IsScalar cp
    → (s : List ℕ) × (char_to_string (pos cp) ≡ ok s)
      × (str_len (some s) ≡ ok 1)
      × (str_char_at (some s) (pos 0) ≡ ok (some cp))
      × (bytes_to_utf8 (some s) ≡ ok (inr s))
unfolding char_to_string bytes_to_utf8 utf8_validate
char_to_string_roundtrip cp h = (
  encode_all (cp ∷ []),
  rw (checked cp h, encode_all-one cp) (ground arith),
  str_len-encode_all (cp ∷ []) (h, tt),
  str_char_at-encode_all (cp ∷ []) (pos 0) (h, tt),
  rw (validate-encode_all (length (encode_all (cp ∷ []))) (cp ∷ []) (h, tt) (omega arith)),
)

-- Every number that is no such scalar value aborts: NUL, the surrogates and those past 0x10FFFF.
pub char_to_string-fail :
    (cp : ℕ) → (IsScalar cp → ⊥) → (m : String) × (char_to_string (pos cp) ≡ fail m)
unfolding char_to_string
char_to_string-fail cp h = elim (Bool-cases (sprout_validate_codepoint (pos cp))) [
  | inr bad ↦ ("char_to_string: codepoint out of Unicode range", rw bad)
  | inl good ↦ elim (Bool-cases (cp == 0)) [
    | inl nul ↦ ("char_to_string: NUL cannot be in a String", rw (good, nul))
    | inr more ↦ absurd (h (IsScalar-checked cp good more))
  ]
]

-- `bytes_to_utf8` returns the same bytes as a String where they encode scalar values, and where
-- they do not, an error with a reason.
pub bytes_to_utf8_lem :
    (bs : List ℕ)
    → AllBytes bs
    → ((cps : List ℕ) × AllScalar cps
        × (bs ≡ encode_all cps)
        × (bytes_to_utf8 (some bs) ≡ ok (inr bs)))
      ⊎ ((reason : String) × (bytes_to_utf8 (some bs) ≡ ok (inl reason))
          × (((cps : List ℕ) × AllScalar cps × (bs ≡ encode_all cps)) → ⊥))
unfolding bytes_to_utf8
bytes_to_utf8_lem bs a = elim (Verdict-cases (utf8_validate bs)) [
  | inl good ↦
      let (cps, scalars, e) = (utf8_validate_iff bs a).0 good in inl (cps, scalars, e, rw good)
  | inr (reason, bad) ↦ inr (reason, rw bad, λ w. cc ((utf8_validate_iff bs a).1 w))
]
