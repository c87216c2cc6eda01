-- ===== src/Text/Steps.antt =====
-- One step of a walk over a well-formed sequence of each width.
use sprout_lang.Prelude.{ℕ, ◌+◌, ◌*◌, ◌%◌, ◌≤◌, ◌<◌, List, ◌∷◌, ◌≡◌, true, ok, arith}
use sprout_lang.Prelude.Bits.{
  mask_7, mask_15, mask_31, mask_63, bit_or_64, bit_or_4096, bit_or_262144,
}
use sprout_lang.Text.{
  sprout_utf8_char_width, sprout_utf8_is_cont, check_continuations, sprout_utf8_step,
  sprout_utf8_decode_at,
}
use sprout_lang.Text.Bytes.{
  ascii_test, lead_2_test, lead_3_test, lead_4_test, sprout_utf8_is_cont_lem,
}

abbrev pub IsCont : ℕ → Type 0
IsCont b = (0x80 ≤ b) × (b < 0xC0)

pub is_cont : (b : ℕ) → IsCont b → sprout_utf8_is_cont b ≡ true
is_cont b h = rw (sprout_utf8_is_cont_lem b (omega arith)) (ground arith)

-- A byte below 0x80 stands alone.
pub step_1 : (b : ℕ) (s : List ℕ) → b < 0x80 → sprout_utf8_step (b ∷ s) ≡ ok 1
unfolding sprout_utf8_step sprout_utf8_char_width check_continuations
step_1 b s h = ground (arith, ascii_test b)

pub step_2 :
    (b0 b1 : ℕ) (s : List ℕ)
    → 0xC0 ≤ b0
    → b0 < 0xE0
    → IsCont b1
    → sprout_utf8_step (b0 ∷ b1 ∷ s) ≡ ok 2
unfolding sprout_utf8_step sprout_utf8_char_width check_continuations
step_2 b0 b1 s p q c1 = ground (arith, ascii_test b0, lead_2_test b0, is_cont b1 c1)

pub step_3 :
    (b0 b1 b2 : ℕ) (s : List ℕ)
    → 0xE0 ≤ b0
    → b0 < 0xF0
    → IsCont b1
    → IsCont b2
    → sprout_utf8_step (b0 ∷ b1 ∷ b2 ∷ s) ≡ ok 3
unfolding sprout_utf8_step sprout_utf8_char_width check_continuations
step_3 b0 b1 b2 s p q c1 c2 =
    ground (arith, ascii_test b0, lead_2_test b0, lead_3_test b0, is_cont b1 c1, is_cont b2 c2)

pub step_4 :
    (b0 b1 b2 b3 : ℕ) (s : List ℕ)
    → 0xF0 ≤ b0
    → b0 < 0xF8
    → IsCont b1
    → IsCont b2
    → IsCont b3
    → sprout_utf8_step (b0 ∷ b1 ∷ b2 ∷ b3 ∷ s) ≡ ok 4
unfolding sprout_utf8_step sprout_utf8_char_width check_continuations
step_4 b0 b1 b2 b3 s p q c1 c2 c3 = ground (
  arith,
  ascii_test b0,
  lead_2_test b0,
  lead_3_test b0,
  lead_4_test b0,
  is_cont b1 c1,
  is_cont b2 c2,
  is_cont b3 c3,
)

-- What is decoded, from the payload bits x, y, z and w of the bytes.
pub decode_2 :
    (x y : ℕ) (s : List ℕ)
    → x < 32
    → y < 64
    → sprout_utf8_decode_at ((0xC0 + x) ∷ (0x80 + y) ∷ s) 2 ≡ x * 64 + y
unfolding sprout_utf8_decode_at
decode_2 x y s p q =
    let hi : (0xC0 + x) % 32 ≡ x = omega arith in
    let lo : (0x80 + y) % 64 ≡ y = omega arith in
    rw (mask_31 (0xC0 + x), mask_63 (0x80 + y), hi, lo) (bit_or_64 x y q)

pub decode_3 :
    (x y z : ℕ) (s : List ℕ)
    → x < 16
    → y < 64
    → z < 64
    → sprout_utf8_decode_at ((0xE0 + x) ∷ (0x80 + y) ∷ (0x80 + z) ∷ s) 3 ≡ (x * 64 + y) * 64 + z
unfolding sprout_utf8_decode_at
decode_3 x y z s p q r =
    let hi : (0xE0 + x) % 16 ≡ x = omega arith in
    let mid : (0x80 + y) % 64 ≡ y = omega arith in
    let lo : (0x80 + z) % 64 ≡ z = omega arith in
    let high : x * 4096 + y * 64 ≡ (x * 64 + y) * 64 = omega arith in
    rw
      (
        mask_15 (0xE0 + x),
        mask_63 (0x80 + y),
        mask_63 (0x80 + z),
        hi,
        mid,
        lo,
        bit_or_4096 x (y * 64) (omega arith),
        high,
      )
      (bit_or_64 (x * 64 + y) z r)

pub decode_4 :
    (x y z w : ℕ) (s : List ℕ)
    → x < 8
    → y < 64
    → z < 64
    → w < 64
    → sprout_utf8_decode_at ((0xF0 + x) ∷ (0x80 + y) ∷ (0x80 + z) ∷ (0x80 + w) ∷ s) 4
      ≡ ((x * 64 + y) * 64 + z) * 64 + w
unfolding sprout_utf8_decode_at
decode_4 x y z w s p q r t =
    let hi : (0xF0 + x) % 8 ≡ x = omega arith in
    let mid : (0x80 + y) % 64 ≡ y = omega arith in
    let low : (0x80 + z) % 64 ≡ z = omega arith in
    let last : (0x80 + w) % 64 ≡ w = omega arith in
    let high : x * 262144 + y * 4096 ≡ (x * 64 + y) * 4096 = omega arith in
    let higher : (x * 64 + y) * 4096 + z * 64 ≡ ((x * 64 + y) * 64 + z) * 64 = omega arith in
    rw
      (
        mask_7 (0xF0 + x),
        mask_63 (0x80 + y),
        mask_63 (0x80 + z),
        mask_63 (0x80 + w),
        hi,
        mid,
        low,
        last,
        bit_or_262144 x (y * 4096) (omega arith),
        high,
        bit_or_4096 (x * 64 + y) (z * 64) (omega arith),
        higher,
      )
      (bit_or_64 ((x * 64 + y) * 64 + z) w t)
