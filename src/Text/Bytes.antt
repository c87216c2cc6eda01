-- ===== src/Text/Bytes.antt =====
-- The bit tests on a byte as ranges.
use Prim.Native.Nat.{bit_and}
use sprout_lang.Prelude.{ℕ, ◌<◌, ◌&&◌, ltb, leb, ◌==◌, ◌≡◌, refl}
use sprout_lang.Prelude.Bits.{every, same, tests_agree}
use sprout_lang.Text.{sprout_utf8_is_cont}

pub ascii_test : (b : ℕ) → b < 256 → (bit_and b 0x80 == 0) ≡ ltb b 0x80
unfolding every same
ascii_test = tests_agree 256 (λ b. bit_and b 0x80 == 0) (λ b. ltb b 0x80) refl

pub lead_2_test : (b : ℕ) → b < 256 → (bit_and b 0xE0 == 0xC0) ≡ (leb 0xC0 b && ltb b 0xE0)
unfolding every same
lead_2_test = tests_agree 256 (λ b. bit_and b 0xE0 == 0xC0) (λ b. leb 0xC0 b && ltb b 0xE0) refl

pub lead_3_test : (b : ℕ) → b < 256 → (bit_and b 0xF0 == 0xE0) ≡ (leb 0xE0 b && ltb b 0xF0)
unfolding every same
lead_3_test = tests_agree 256 (λ b. bit_and b 0xF0 == 0xE0) (λ b. leb 0xE0 b && ltb b 0xF0) refl

pub lead_4_test : (b : ℕ) → b < 256 → (bit_and b 0xF8 == 0xF0) ≡ (leb 0xF0 b && ltb b 0xF8)
unfolding every same
lead_4_test = tests_agree 256 (λ b. bit_and b 0xF8 == 0xF0) (λ b. leb 0xF0 b && ltb b 0xF8) refl

pub sprout_utf8_is_cont_lem : (b : ℕ) → b < 256 → sprout_utf8_is_cont b ≡ (leb 0x80 b && ltb b 0xC0)
unfolding every same sprout_utf8_is_cont
sprout_utf8_is_cont_lem =
    tests_agree 256 (λ b. bit_and b 0xC0 == 0x80) (λ b. leb 0x80 b && ltb b 0xC0) refl
