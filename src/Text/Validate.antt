-- ===== src/Text/Validate.antt =====
-- `utf8_validate` accepts exactly the encodings of Unicode scalar values other than NUL.
pub mod Accept
pub mod Reject
use sprout_lang.Prelude.{
  ℕ, zero, suc, ◌+◌, ◌/◌, ◌%◌, ◌≤◌, ◌<◌, List, [], ◌∷◌, ◌++◌, length, length-append, ◌≡◌, refl, ap,
  ◌∙◌, ltb, Bool-cases, ltb→lt, ltb_false→le, inl, inr, arith,
}
use sprout_lang.Text.{encode, validate_from, valid}
use sprout_lang.Text.Encoding.{
  IsScalar, Width, one, two, three, four, form_of, encode_1, encode_2, encode_3, encode_4,
}
use sprout_lang.Text.Walks.{encode_all, AllScalar, front, encode_all-Front}
use Accept.{Second3, Second4, validate_1, validate_2, validate_3, validate_4}

second_of_3 :
    (cp : ℕ)
    → 0x7FF < cp
    → cp ≤ 0xFFFF
    → IsScalar cp
    → Second3 (0xE0 + cp / 4096) (0x80 + cp / 64 % 64)
second_of_3 cp a b s = (
  elim (Bool-cases (ltb cp 0x1000)) [
    | inl low ↦ let l = ltb→lt cp 0x1000 low in inr (omega arith)
    | inr high ↦ let l = ltb_false→le cp 0x1000 high in inl (omega arith)
  ],
  elim (s.no_surrogate) [
    | inl below ↦ elim (Bool-cases (ltb cp 0xD000)) [
      | inl low ↦ let l = ltb→lt cp 0xD000 low in inl (omega arith)
      | inr high ↦ let l = ltb_false→le cp 0xD000 high in inr (omega arith)
    ]
    | inr above ↦ inl (omega arith)
  ],
)

second_of_4 :
    (cp : ℕ) → 0xFFFF < cp → cp ≤ 0x10FFFF → Second4 (0xF0 + cp / 262144) (0x80 + cp / 4096 % 64)
second_of_4 cp a b = (
  elim (Bool-cases (ltb cp 0x40000)) [
    | inl low ↦ let l = ltb→lt cp 0x40000 low in inr (omega arith)
    | inr high ↦ let l = ltb_false→le cp 0x40000 high in inl (omega arith)
  ],
  elim (Bool-cases (ltb cp 0x100000)) [
    | inl low ↦ let l = ltb→lt cp 0x100000 low in inl (omega arith)
    | inr high ↦ let l = ltb_false→le cp 0x100000 high in inr (omega arith)
  ],
)

-- One round passes over the bytes of a scalar value.
validate-encode :
    (fuel cp : ℕ) (s : List ℕ)
    → IsScalar cp
    → Width cp
    → validate_from (suc fuel) (encode cp ++ s) ≡ validate_from fuel s
validate-encode fuel cp s h (one a) =
    rw (encode_1 cp a) (validate_1 fuel cp s h.positive (omega arith))
validate-encode fuel cp s h (two a b) =
    rw (encode_2 cp a b) (
      validate_2 fuel (0xC0 + cp / 64) (0x80 + cp % 64) s (omega arith) (omega arith) (omega arith))
validate-encode fuel cp s h (three a b) = rw (encode_3 cp a b) (
    validate_3 fuel (0xE0 + cp / 4096) (0x80 + cp / 64 % 64) (0x80 + cp % 64) s (omega arith)
      (omega arith) (omega arith) (omega arith) (second_of_3 cp a b h))
validate-encode fuel cp s h (four a) =
    let top = h.in_range in
    rw (encode_4 cp a top) (
      validate_4 fuel (0xF0 + cp / 262144) (0x80 + cp / 4096 % 64) (0x80 + cp / 64 % 64)
        (0x80 + cp % 64) s (omega arith) (omega arith) (omega arith) (omega arith) (omega arith)
        (second_of_4 cp a top))

pub validate-encode_all :
    (fuel : ℕ) (cps : List ℕ)
    → AllScalar cps
    → length (encode_all cps) ≤ fuel
    → validate_from fuel (encode_all cps) ≡ valid
unfolding validate_from encode_all
validate-encode_all zero [] a h = refl
validate-encode_all (suc fuel) [] a h = refl
validate-encode_all zero (cp ∷ cps) (p, a) h =
    absurd (omega (arith, ap length (encode_all-Front cp cps (front cp cps p))))
validate-encode_all (suc fuel) (cp ∷ cps) (p, a) h =
    let f = front cp cps p in
    let shorter : length (encode_all cps) ≤ fuel =
      omega (arith, ap length (encode_all-Front cp cps f), length-append f.more (encode_all cps)) in
    validate-encode fuel cp (encode_all cps) p (form_of cp) ∙ validate-encode_all fuel cps a shorter
