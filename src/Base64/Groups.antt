-- ===== src/Base64/Groups.antt =====
-- One group of four characters through `decode_group`, by how it ends.
use sprout_lang.Prelude.{ℕ, ◌+◌, ◌*◌, ◌/◌, ◌%◌, ◌<◌, Bool, true, [], ◌∷◌, ◌≡◌, arith}
use sprout_lang.Base64.{table, Decoded, decoded, decode_group, with_front}
use sprout_lang.Base64.Tables.{base64_value-table, table_no_pad, byte_0_lem, byte_1_lem, byte_2_lem}

module _ (a b c : ℕ) (pa : a < 256) (pb : b < 256) (pc : c < 256) (last : Bool)
    (rest : Decoded) where
  -- Four characters of the alphabet give back three bytes.
  pub group_of_3 :
      decode_group
        (table (a / 4))
        (table (a % 4 * 16 + b / 16))
        (table (b % 16 * 4 + c / 64))
        (table (c % 64))
        last
        rest
      ≡ with_front (a ∷ b ∷ c ∷ []) rest
  unfolding decode_group
  group_of_3 =
      let e0 : a / 4 * 4 + (a % 4 * 16 + b / 16) / 16 ≡ a = omega arith in
      let e1 : (a % 4 * 16 + b / 16) % 16 * 16 + (b % 16 * 4 + c / 64) / 4 ≡ b = omega arith in
      let e2 : (b % 16 * 4 + c / 64) % 4 * 64 + c % 64 ≡ c = omega arith in
      ground (
        arith,
        base64_value-table (a / 4) (omega arith),
        base64_value-table (a % 4 * 16 + b / 16) (omega arith),
        table_no_pad (b % 16 * 4 + c / 64) (omega arith),
        base64_value-table (b % 16 * 4 + c / 64) (omega arith),
        table_no_pad (c % 64) (omega arith),
        base64_value-table (c % 64) (omega arith),
        byte_0_lem (a / 4) (a % 4 * 16 + b / 16) (omega arith) (omega arith),
        byte_1_lem (a % 4 * 16 + b / 16) (b % 16 * 4 + c / 64) (omega arith),
        byte_2_lem (b % 16 * 4 + c / 64) (c % 64) (omega arith),
      )

module _ (a b : ℕ) (pa : a < 256) (pb : b < 256) (rest : Decoded) where
  -- Three characters and one `=`, in the last group, give back two bytes.
  pub group_of_2 :
      decode_group (table (a / 4)) (table (a % 4 * 16 + b / 16)) (table (b % 16 * 4)) b'=' true rest
      ≡ decoded (a ∷ b ∷ [])
  unfolding decode_group
  group_of_2 =
      let e0 : a / 4 * 4 + (a % 4 * 16 + b / 16) / 16 ≡ a = omega arith in
      let e1 : (a % 4 * 16 + b / 16) % 16 * 16 + b % 16 * 4 / 4 ≡ b = omega arith in
      ground (
        arith,
        base64_value-table (a / 4) (omega arith),
        base64_value-table (a % 4 * 16 + b / 16) (omega arith),
        table_no_pad (b % 16 * 4) (omega arith),
        base64_value-table (b % 16 * 4) (omega arith),
        byte_0_lem (a / 4) (a % 4 * 16 + b / 16) (omega arith) (omega arith),
        byte_1_lem (a % 4 * 16 + b / 16) (b % 16 * 4) (omega arith),
      )

-- Two characters and two `=`, in the last group, give back one byte.
pub group_of_1 :
    (a : ℕ) (rest : Decoded)
    → a < 256
    → decode_group (table (a / 4)) (table (a % 4 * 16)) b'=' b'=' true rest ≡ decoded (a ∷ [])
unfolding decode_group
group_of_1 a rest pa =
    let e0 : a / 4 * 4 + a % 4 * 16 / 16 ≡ a = omega arith in
    ground (
      arith,
      base64_value-table (a / 4) (omega arith),
      base64_value-table (a % 4 * 16) (omega arith),
      byte_0_lem (a / 4) (a % 4 * 16) (omega arith) (omega arith),
    )
