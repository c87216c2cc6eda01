-- ===== src/Bytes/Words.antt =====
-- bytes_builder_u16_be and bytes_builder_u32_be: the big-endian bytes of an integer.
use sprout_lang.Prelude.{
  ℕ, ◌+◌, ◌-◌, ◌*◌, ◌/◌, ◌%◌, some, List, [], ◌∷◌, ◌≡◌, refl, ap, ◌∙◌, ok, AllBytes, length, arith,
}
use sprout_lang.Prelude.Int.{ℤ, pos, negsuc}
use sprout_lang.Bytes.{
  sprout_div_floor, unsigned_char, builder_mod_256, bytes_builder_u16_be, bytes_builder_u32_be,
  bytes_builder_build, copy_chunks,
}

floor_256 : (n : ℕ) → sprout_div_floor (negsuc n) 256 ≡ negsuc (n / 256)
unfolding sprout_div_floor
floor_256 n = ground arith

floor_65536 : (n : ℕ) → sprout_div_floor (negsuc n) 65536 ≡ negsuc (n / 65536)
unfolding sprout_div_floor
floor_65536 n = ground arith

floor_16777216 : (n : ℕ) → sprout_div_floor (negsuc n) 16777216 ≡ negsuc (n / 16777216)
unfolding sprout_div_floor
floor_16777216 n = ground arith

mod_pos : (n : ℕ) → builder_mod_256 (pos n) ≡ n % 256
unfolding builder_mod_256 sprout_div_floor unsigned_char
mod_pos n = ground arith

mod_neg : (n : ℕ) → builder_mod_256 (negsuc n) ≡ 255 - n % 256
unfolding builder_mod_256 unsigned_char
mod_neg n = rw (floor_256 n) (ground arith)

-- The value that bytes spell, the most significant one first.
unfoldable pub big_endian : ℕ → List ℕ → ℕ
big_endian acc [] = acc
big_endian acc (b ∷ bs) = big_endian (acc * 256 + b) bs

-- An integer modulo `m`: for 2^w, the number of its low w bits in two's complement.
unfoldable pub modulo : ℕ → ℤ → ℕ
modulo m (pos n) = n % m
modulo m (negsuc n) = m - 1 - n % m

-- For every integer, negative ones too, the builder of 32 bits builds four bytes, which spell the
-- integer modulo 2^32.
pub bytes_builder_u32_be_lem :
    (value : ℤ)
    → (out : List ℕ) × (bytes_builder_build (some (bytes_builder_u32_be value)) ≡ ok out)
      × (length out ≡ 4)
      × AllBytes out
      × (big_endian 0 out ≡ modulo 4294967296 value)
unfolding bytes_builder_build copy_chunks bytes_builder_u32_be big_endian modulo sprout_div_floor
bytes_builder_u32_be_lem (pos n) = (
  _,
  refl,
  refl,
  rw (mod_pos (n / 16777216), mod_pos (n / 65536), mod_pos (n / 256), mod_pos n)
      (omega arith, (omega arith, (omega arith, (omega arith, tt)))),
  rw (mod_pos (n / 16777216), mod_pos (n / 65536), mod_pos (n / 256), mod_pos n) (omega arith),
)
bytes_builder_u32_be_lem (negsuc n) =
    let a = ap builder_mod_256 (floor_16777216 n) ∙ mod_neg (n / 16777216) in
    let b = ap builder_mod_256 (floor_65536 n) ∙ mod_neg (n / 65536) in
    let c = ap builder_mod_256 (floor_256 n) ∙ mod_neg (n / 256) in
    (
      _,
      refl,
      refl,
      rw (a, b, c, mod_neg n) (omega arith, (omega arith, (omega arith, (omega arith, tt)))),
      rw (a, b, c, mod_neg n) (omega arith),
    )

-- The same of the builder of 16 bits: two bytes, modulo 2^16.
pub bytes_builder_u16_be_lem :
    (value : ℤ)
    → (out : List ℕ) × (bytes_builder_build (some (bytes_builder_u16_be value)) ≡ ok out)
      × (length out ≡ 2)
      × AllBytes out
      × (big_endian 0 out ≡ modulo 65536 value)
unfolding bytes_builder_build copy_chunks bytes_builder_u16_be big_endian modulo sprout_div_floor
bytes_builder_u16_be_lem (pos n) = (
  _,
  refl,
  refl,
  rw (mod_pos (n / 256), mod_pos n) (omega arith, (omega arith, tt)),
  rw (mod_pos (n / 256), mod_pos n) (omega arith),
)
bytes_builder_u16_be_lem (negsuc n) =
    let c = ap builder_mod_256 (floor_256 n) ∙ mod_neg (n / 256) in
    (
      _,
      refl,
      refl,
      rw (c, mod_neg n) (omega arith, (omega arith, tt)),
      rw (c, mod_neg n) (omega arith),
    )
