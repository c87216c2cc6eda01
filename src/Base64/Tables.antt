-- ===== src/Base64/Tables.antt =====
-- The alphabet, and the bit arithmetic of one group, as plain arithmetic.
use Prim.Native.Nat.{bit_and, bit_or}
use sprout_lang.Prelude.{ℕ, ◌+◌, ◌*◌, ◌/◌, ◌%◌, ◌<◌, false, ◌==◌, some, ◌≡◌, arith}
use sprout_lang.Prelude.Bits.{mask_3, mask_15, mask_63, bit_or_4, bit_or_16, bit_or_64}
use sprout_lang.Base64.{table, base64_value, byte_0, byte_1, byte_2}

-- A character of the alphabet has its index for value.
pub base64_value-table : (i : ℕ) → i < 64 → base64_value (table i) ≡ some i
unfolding base64_value table
base64_value-table i h = ground arith

pub table_no_pad : (i : ℕ) → i < 64 → (table i == b'=') ≡ false
unfolding table
table_no_pad i h = ground arith

pub value_0 : (a : ℕ) → a < 256 → bit_and (a / 4) 63 ≡ a / 4
value_0 a h = omega (arith, mask_63 (a / 4))

pub value_1 : (a b : ℕ) → b < 256 → bit_or (bit_and a 3 * 16) (b / 16) ≡ a % 4 * 16 + b / 16
value_1 a b h = rw (mask_3 a) (bit_or_16 (a % 4) (b / 16) (omega arith))

pub value_2 : (b c : ℕ) → c < 256 → bit_or (bit_and b 15 * 4) (c / 64) ≡ b % 16 * 4 + c / 64
value_2 b c h = rw (mask_15 b) (bit_or_4 (b % 16) (c / 64) (omega arith))

pub byte_0_lem : (v0 v1 : ℕ) → v0 < 64 → v1 < 64 → byte_0 v0 v1 ≡ v0 * 4 + v1 / 16
unfolding byte_0
byte_0_lem v0 v1 p q = omega (arith, bit_or_4 v0 (v1 / 16) (omega arith))

pub byte_1_lem : (v1 v2 : ℕ) → v2 < 64 → byte_1 v1 v2 ≡ v1 % 16 * 16 + v2 / 4
unfolding byte_1
byte_1_lem v1 v2 q = rw (mask_15 v1) (omega (arith, bit_or_16 (v1 % 16) (v2 / 4) (omega arith)))

pub byte_2_lem : (v2 v3 : ℕ) → v3 < 64 → byte_2 v2 v3 ≡ v2 % 4 * 64 + v3
unfolding byte_2
byte_2_lem v2 v3 q = rw (mask_3 v2) (omega (arith, bit_or_64 (v2 % 4) v3 q))
