-- ===== src/Text/Encoding.antt =====
-- The bytes of a Unicode scalar value, and one step of each walk over them.
use sprout_lang.Prelude.{
  ℕ, suc, ◌+◌, ◌/◌, ◌%◌, ◌≤◌, ◌<◌, List, [], ◌∷◌, ◌++◌, length, drop, ◌⊎◌, inl, inr, ◌≡◌, refl, ltb,
  Bool-cases, ltb→lt, ltb_false→le, ok, arith,
}
use sprout_lang.Prelude.Bits.{mask_63, bit_or_8, bit_or_16, bit_or_64}
use sprout_lang.Text.{encode, sprout_utf8_step, sprout_utf8_decode_at}
use sprout_lang.Text.Steps.{step_1, step_2, step_3, step_4, decode_2, decode_3, decode_4}

-- A Unicode scalar value that a String may hold: not NUL, not a surrogate, at most 0x10FFFF.
pub record IsScalar (cp : ℕ) : Type 0 where
  pub positive : 0 < cp
  pub in_range : cp ≤ 0x10FFFF
  pub no_surrogate : (cp < 0xD800) ⊎ (0xDFFF < cp)

pub encode_1 : (cp : ℕ) → cp ≤ 0x7F → encode cp ≡ cp ∷ []
unfolding encode
encode_1 cp h = ground arith

pub encode_2 :
    (cp : ℕ) → 0x7F < cp → cp ≤ 0x7FF → encode cp ≡ (0xC0 + cp / 64) ∷ (0x80 + cp % 64) ∷ []
unfolding encode
encode_2 cp h k = ground (arith, bit_or_64 3 (cp / 64), mask_63 cp, bit_or_64 2 (cp % 64))

pub encode_3 :
    (cp : ℕ)
    → 0x7FF < cp
    → cp ≤ 0xFFFF
    → encode cp ≡ (0xE0 + cp / 4096) ∷ (0x80 + cp / 64 % 64) ∷ (0x80 + cp % 64) ∷ []
unfolding encode
encode_3 cp h k = ground (
  arith,
  bit_or_16 14 (cp / 4096),
  mask_63 (cp / 64),
  mask_63 cp,
  bit_or_64 2 (cp / 64 % 64),
  bit_or_64 2 (cp % 64),
)

pub encode_4 :
    (cp : ℕ)
    → 0xFFFF < cp
    → cp ≤ 0x10FFFF
    → encode cp
      ≡ (0xF0 + cp / 262144)
        ∷ (0x80 + cp / 4096 % 64)
        ∷ (0x80 + cp / 64 % 64)
        ∷ (0x80 + cp % 64)
        ∷ []
unfolding encode
encode_4 cp h k = ground (
  arith,
  bit_or_8 30 (cp / 262144),
  mask_63 (cp / 4096),
  mask_63 (cp / 64),
  mask_63 cp,
  bit_or_64 2 (cp / 4096 % 64),
  bit_or_64 2 (cp / 64 % 64),
  bit_or_64 2 (cp % 64),
)

-- Which of the four forms a codepoint takes.
pub data Width (cp : ℕ) : Type 0 where
  one : cp ≤ 0x7F → Width cp
  two : 0x7F < cp → cp ≤ 0x7FF → Width cp
  three : 0x7FF < cp → cp ≤ 0xFFFF → Width cp
  four : 0xFFFF < cp → Width cp

pub form_of : (cp : ℕ) → Width cp
form_of cp = elim (Bool-cases (ltb 0x7F cp)) [
  | inr low ↦ one (ltb_false→le 0x7F cp low)
  | inl a ↦ elim (Bool-cases (ltb 0x7FF cp)) [
    | inr low ↦ two (ltb→lt 0x7F cp a) (ltb_false→le 0x7FF cp low)
    | inl b ↦ elim (Bool-cases (ltb 0xFFFF cp)) [
      | inr low ↦ three (ltb→lt 0x7FF cp b) (ltb_false→le 0xFFFF cp low)
      | inl c ↦ four (ltb→lt 0xFFFF cp c)
    ]
  ]
]

-- What one step finds at the front of a text: the bytes of `cp`, then `s`.
pub record Front (cp : ℕ) (s : List ℕ) : Type 0 where
  pub first : ℕ
  pub more : List ℕ
  pub bytes : encode cp ≡ first ∷ more
  pub step : sprout_utf8_step (first ∷ more ++ s) ≡ ok (suc (length more))
  pub decoded : sprout_utf8_decode_at (first ∷ more ++ s) (suc (length more)) ≡ cp
  pub dropped : drop (length more) (more ++ s) ≡ s

pub encode-Front : (cp : ℕ) (s : List ℕ) → cp ≤ 0x10FFFF → Width cp → Front cp s
unfolding sprout_utf8_decode_at
encode-Front cp s h (one a) = record {
  first = cp;
  more = [];
  bytes = encode_1 cp a;
  step = step_1 cp s (omega arith);
  decoded = refl;
  dropped = refl;
}
encode-Front cp s h (two a b) = record {
  first = 0xC0 + cp / 64;
  more = (0x80 + cp % 64) ∷ [];
  bytes = encode_2 cp a b;
  step = step_2 (0xC0 + cp / 64) (0x80 + cp % 64) s (omega arith) (omega arith) (omega arith);
  decoded = omega (arith, decode_2 (cp / 64) (cp % 64) s (omega arith) (omega arith));
  dropped = refl;
}
encode-Front cp s h (three a b) = record {
  first = 0xE0 + cp / 4096;
  more = (0x80 + cp / 64 % 64) ∷ (0x80 + cp % 64) ∷ [];
  bytes = encode_3 cp a b;
  step =
      step_3 (0xE0 + cp / 4096) (0x80 + cp / 64 % 64) (0x80 + cp % 64) s (omega arith) (omega arith)
        (omega arith) (omega arith);
  decoded = omega (
    arith,
    decode_3 (cp / 4096) (cp / 64 % 64) (cp % 64) s (omega arith) (omega arith) (omega arith),
  );
  dropped = refl;
}
encode-Front cp s h (four a) = record {
  first = 0xF0 + cp / 262144;
  more = (0x80 + cp / 4096 % 64) ∷ (0x80 + cp / 64 % 64) ∷ (0x80 + cp % 64) ∷ [];
  bytes = encode_4 cp a h;
  step =
      step_4 (0xF0 + cp / 262144) (0x80 + cp / 4096 % 64) (0x80 + cp / 64 % 64) (0x80 + cp % 64) s
        (omega arith) (omega arith) (omega arith) (omega arith) (omega arith);
  decoded = omega (
    arith,
    decode_4 (cp / 262144) (cp / 4096 % 64) (cp / 64 % 64) (cp % 64) s (omega arith) (omega arith)
        (omega arith) (omega arith),
  );
  dropped = refl;
}
