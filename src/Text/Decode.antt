-- ===== src/Text/Decode.antt =====
-- An accepting run of `utf8_validate` has read the encodings of scalar values.
use sprout_lang.Prelude.{
  AllBytes, ℕ, zero, suc, ◌+◌, ◌-◌, ◌*◌, ◌/◌, ◌%◌, ◌≤◌, ◌<◌, List, [], ◌∷◌, ◌++◌, length,
  length-append, ◌↔◌, ◌≡◌, refl, ap, ◌∙◌, ltb, Bool-cases, ltb→lt, ltb_false→le, inl, inr, arith,
}
use sprout_lang.Text.{encode, validate_from, utf8_validate, valid}
use sprout_lang.Text.Encoding.{IsScalar, encode_1, encode_2, encode_3, encode_4}
use sprout_lang.Text.Walks.{encode_all, AllScalar}
use sprout_lang.Text.Validate.{validate-encode_all}
use sprout_lang.Text.Validate.Accept.{Second3}
use sprout_lang.Text.Validate.Reject.{accepted_1, accepted_none, accepted_2, accepted_3, accepted_4}

-- What the first round of an accepting run has read.
pub record Read (fuel : ℕ) (bs : List ℕ) : Type 0 where
  pub scalar : ℕ
  pub rest : List ℕ
  pub is_scalar : IsScalar scalar
  pub bytes : bs ≡ encode scalar ++ rest
  pub accepted : validate_from fuel rest ≡ valid
  pub all_bytes : AllBytes rest

parse_1 :
    (fuel b0 : ℕ) (s : List ℕ)
    → AllBytes s
    → b0 < 0x80
    → validate_from (suc fuel) (b0 ∷ s) ≡ valid
    → Read fuel (b0 ∷ s)
parse_1 fuel b0 s a p h =
    let (positive, rest_ok) = accepted_1 fuel b0 s p h in
    record {
      scalar = b0;
      rest = s;
      is_scalar = record {
        positive = positive;
        in_range = omega arith;
        no_surrogate = inl (omega arith);
      };
      bytes = rw (encode_1 b0 (omega arith));
      accepted = rest_ok;
      all_bytes = a;
    }

parse_2 :
    (fuel b0 : ℕ) (s : List ℕ)
    → AllBytes s
    → 0xC0 ≤ b0
    → b0 < 0xE0
    → validate_from (suc fuel) (b0 ∷ s) ≡ valid
    → Read fuel (b0 ∷ s)
parse_2 fuel b0 s a p q h =
    let (b1, t, e, low, c1, rest_ok) = accepted_2 fuel b0 s p q a h in
    let cp = (b0 - 0xC0) * 64 + (b1 - 0x80) in
    let e0 : 0xC0 + cp / 64 ≡ b0 = omega arith in
    let e1 : 0x80 + cp % 64 ≡ b1 = omega arith in
    record {
      scalar = cp;
      rest = t;
      is_scalar = record {
        positive = omega arith;
        in_range = omega arith;
        no_surrogate = inl (omega arith);
      };
      bytes = rw (encode_2 cp (omega arith) (omega arith), e, e0, e1);
      accepted = rest_ok;
      all_bytes = (rw e at a).1;
    }

-- A surrogate would need a second byte from 0xA0 on behind 0xED.
surrogate_bounds :
    (b0 b1 z : ℕ)
    → 0xE0 ≤ b0
    → b0 < 0xF0
    → 0x80 ≤ b1
    → b1 < 0xC0
    → z < 64
    → Second3 b0 b1
    → (0x7FF < ((b0 - 0xE0) * 64 + (b1 - 0x80)) * 64 + z)
      × IsScalar (((b0 - 0xE0) * 64 + (b1 - 0x80)) * 64 + z)
surrogate_bounds b0 b1 z p q r t w (long, short) =
    let big : 0x7FF < ((b0 - 0xE0) * 64 + (b1 - 0x80)) * 64 + z = omega arith in
    (
      big,
      record {
        positive = omega arith;
        in_range = omega arith;
        no_surrogate = elim (Bool-cases (ltb (((b0 - 0xE0) * 64 + (b1 - 0x80)) * 64 + z) 0xD800)) [
          | inl low ↦ inl (ltb→lt _ 0xD800 low)
          | inr high ↦ let l = ltb_false→le _ 0xD800 high in inr (omega arith)
        ];
      },
    )

parse_3 :
    (fuel b0 : ℕ) (s : List ℕ)
    → AllBytes s
    → 0xE0 ≤ b0
    → b0 < 0xF0
    → validate_from (suc fuel) (b0 ∷ s) ≡ valid
    → Read fuel (b0 ∷ s)
parse_3 fuel b0 s a p q h =
    let (b1, b2, t, e, c1, c2, second, rest_ok) = accepted_3 fuel b0 s p q a h in
    let cp = ((b0 - 0xE0) * 64 + (b1 - 0x80)) * 64 + (b2 - 0x80) in
    let (big, scalar) = surrogate_bounds b0 b1 (b2 - 0x80) p q c1.0 c1.1 (omega arith) second in
    let e0 : 0xE0 + cp / 4096 ≡ b0 = omega arith in
    let e1 : 0x80 + cp / 64 % 64 ≡ b1 = omega arith in
    let e2 : 0x80 + cp % 64 ≡ b2 = omega arith in
    record {
      scalar = cp;
      rest = t;
      is_scalar = scalar;
      bytes = rw (encode_3 cp big (omega arith), e, e0, e1, e2);
      accepted = rest_ok;
      all_bytes = (rw e at a).1.1;
    }

parse_4 :
    (fuel b0 : ℕ) (s : List ℕ)
    → AllBytes s
    → 0xF0 ≤ b0
    → b0 < 256
    → validate_from (suc fuel) (b0 ∷ s) ≡ valid
    → Read fuel (b0 ∷ s)
parse_4 fuel b0 s a p q h =
    let (b1, b2, b3, t, e, top, c1, c2, c3, second, rest_ok) = accepted_4 fuel b0 s p q a h in
    let cp = (((b0 - 0xF0) * 64 + (b1 - 0x80)) * 64 + (b2 - 0x80)) * 64 + (b3 - 0x80) in
    let big : 0xFFFF < cp = omega arith in
    let small : cp ≤ 0x10FFFF = omega arith in
    let e0 : 0xF0 + cp / 262144 ≡ b0 = omega arith in
    let e1 : 0x80 + cp / 4096 % 64 ≡ b1 = omega arith in
    let e2 : 0x80 + cp / 64 % 64 ≡ b2 = omega arith in
    let e3 : 0x80 + cp % 64 ≡ b3 = omega arith in
    record {
      scalar = cp;
      rest = t;
      is_scalar = record {
        positive = omega arith;
        in_range = small;
        no_surrogate = inr (omega arith);
      };
      bytes = rw (encode_4 cp big small, e, e0, e1, e2, e3);
      accepted = rest_ok;
      all_bytes = (rw e at a).1.1.1;
    }

parse :
    (fuel b0 : ℕ) (s : List ℕ)
    → AllBytes (b0 ∷ s)
    → validate_from (suc fuel) (b0 ∷ s) ≡ valid
    → Read fuel (b0 ∷ s)
parse fuel b0 s (b, a) h = elim (Bool-cases (ltb b0 0x80)) [
  | inl low ↦ parse_1 fuel b0 s a (ltb→lt b0 0x80 low) h
  | inr not_1 ↦ elim (Bool-cases (ltb b0 0xC0)) [
    | inl low ↦ absurd (accepted_none fuel b0 s (ltb_false→le b0 0x80 not_1) (ltb→lt b0 0xC0 low) h)
    | inr not_cont ↦ elim (Bool-cases (ltb b0 0xE0)) [
      | inl low ↦ parse_2 fuel b0 s a (ltb_false→le b0 0xC0 not_cont) (ltb→lt b0 0xE0 low) h
      | inr not_2 ↦ elim (Bool-cases (ltb b0 0xF0)) [
        | inl low ↦ parse_3 fuel b0 s a (ltb_false→le b0 0xE0 not_2) (ltb→lt b0 0xF0 low) h
        | inr not_3 ↦ parse_4 fuel b0 s a (ltb_false→le b0 0xF0 not_3) b h
      ]
    ]
  ]
]

encode-nonempty : (cp : ℕ) → 0 < length (encode cp)
unfolding encode
encode-nonempty cp = ground arith

validate_sound :
    (fuel : ℕ) (bs : List ℕ)
    → AllBytes bs
    → length bs ≤ fuel
    → validate_from fuel bs ≡ valid
    → (cps : List ℕ) × AllScalar cps × (bs ≡ encode_all cps)
unfolding encode_all
validate_sound fuel [] a h v = ([], tt, refl)
validate_sound zero (b ∷ s) a h v = absurd (omega arith)
validate_sound (suc fuel) (b ∷ s) a h v =
    let r = parse fuel b s a v in
    let shorter : length (r.rest) ≤ fuel = omega (
      arith,
      ap length (r.bytes),
      length-append (encode r.scalar) r.rest,
      encode-nonempty r.scalar,
    ) in
    let (cps, scalars, e) = validate_sound fuel r.rest r.all_bytes shorter r.accepted in
    (r.scalar ∷ cps, (r.is_scalar, scalars), r.bytes ∙ ap (◌++◌ (encode r.scalar)) e)

-- A byte string passes `utf8_validate` exactly when it is the encoding of a list of Unicode scalar
-- values, none of them NUL.
pub utf8_validate_iff :
    (bs : List ℕ)
    → AllBytes bs
    → (utf8_validate bs ≡ valid) ↔ ((cps : List ℕ) × AllScalar cps × (bs ≡ encode_all cps))
unfolding utf8_validate
utf8_validate_iff bs a = (
  λ v. validate_sound (length bs) bs a (omega arith) v,
  λ w. rw (w.2) (validate-encode_all (length (encode_all w.0)) w.0 w.1 (omega arith)),
)
