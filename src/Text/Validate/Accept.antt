-- ===== src/Text/Validate/Accept.antt =====
-- One round of `utf8_validate` over a well-formed sequence of each width.
use sprout_lang.Prelude.{ℕ, suc, ◌≤◌, ◌<◌, ◌≢◌, ◌⊎◌, List, ◌∷◌, ◌≡◌, arith}
use sprout_lang.Text.{validate_from}
use sprout_lang.Text.Bytes.{lead_2_test, lead_3_test, lead_4_test}
use sprout_lang.Text.Steps.{IsCont, is_cont}

-- The second byte of a three-byte sequence: no overlong form, no surrogate.
abbrev pub Second3 : ℕ → ℕ → Type 0
Second3 b0 b1 = ((b0 ≢ 0xE0) ⊎ (0xA0 ≤ b1)) × ((b0 ≢ 0xED) ⊎ (b1 < 0xA0))

-- The second byte of a four-byte sequence: no overlong form, at most 0x10FFFF.
abbrev pub Second4 : ℕ → ℕ → Type 0
Second4 b0 b1 = ((b0 ≢ 0xF0) ⊎ (0x90 ≤ b1)) × ((b0 ≢ 0xF4) ⊎ (b1 < 0x90))

module _ (fuel b0 : ℕ) where
  pub validate_1 :
      (s : List ℕ) → 0 < b0 → b0 < 0x80 → validate_from (suc fuel) (b0 ∷ s) ≡ validate_from fuel s
  unfolding validate_from
  validate_1 s p q = ground arith

  pub validate_2 :
      (b1 : ℕ) (s : List ℕ)
      → 0xC2 ≤ b0
      → b0 < 0xE0
      → IsCont b1
      → validate_from (suc fuel) (b0 ∷ b1 ∷ s) ≡ validate_from fuel s
  unfolding validate_from
  validate_2 b1 s p q c1 = ground (arith, lead_2_test b0, is_cont b1 c1)

  pub validate_3 :
      (b1 b2 : ℕ) (s : List ℕ)
      → 0xE0 ≤ b0
      → b0 < 0xF0
      → IsCont b1
      → IsCont b2
      → Second3 b0 b1
      → validate_from (suc fuel) (b0 ∷ b1 ∷ b2 ∷ s) ≡ validate_from fuel s
  unfolding validate_from
  validate_3 b1 b2 s p q c1 c2 d =
      ground (arith, lead_2_test b0, lead_3_test b0, is_cont b1 c1, is_cont b2 c2)

  pub validate_4 :
      (b1 b2 b3 : ℕ) (s : List ℕ)
      → 0xF0 ≤ b0
      → b0 ≤ 0xF4
      → IsCont b1
      → IsCont b2
      → IsCont b3
      → Second4 b0 b1
      → validate_from (suc fuel) (b0 ∷ b1 ∷ b2 ∷ b3 ∷ s) ≡ validate_from fuel s
  unfolding validate_from
  validate_4 b1 b2 b3 s p q c1 c2 c3 d = ground (
    arith,
    lead_2_test b0,
    lead_3_test b0,
    lead_4_test b0,
    is_cont b1 c1,
    is_cont b2 c2,
    is_cont b3 c3,
  )
