-- ===== src/Text/Validate/Reject.antt =====
-- What `utf8_validate` has checked where it accepts, by the range of the first byte.
use sprout_lang.Prelude.{AllBytes, ℕ, suc, ◌≤◌, ◌<◌, List, [], ◌∷◌, ◌≡◌, refl, arith}
use sprout_lang.Text.{validate_from, valid}
use sprout_lang.Text.Bytes.{lead_2_test, lead_3_test, lead_4_test, sprout_utf8_is_cont_lem}
use sprout_lang.Text.Steps.{IsCont}
use sprout_lang.Text.Validate.Accept.{Second3, Second4}

module _ (fuel b0 : ℕ) where
  pub accepted_1 :
      (s : List ℕ)
      → b0 < 0x80
      → validate_from (suc fuel) (b0 ∷ s) ≡ valid
      → (0 < b0) × (validate_from fuel s ≡ valid)
  unfolding validate_from
  accepted_1 s p h = ground arith

  -- No sequence starts with a continuation byte.
  pub accepted_none :
      (s : List ℕ) → 0x80 ≤ b0 → b0 < 0xC0 → validate_from (suc fuel) (b0 ∷ s) ≡ valid → ⊥
  unfolding validate_from
  accepted_none s p q h = ground (arith, lead_2_test b0, lead_3_test b0, lead_4_test b0)

  pub accepted_2 :
      (s : List ℕ)
      → 0xC0 ≤ b0
      → b0 < 0xE0
      → AllBytes s
      → validate_from (suc fuel) (b0 ∷ s) ≡ valid
      → (b1 : ℕ) × (t : List ℕ) × (s ≡ b1 ∷ t)
        × (0xC2 ≤ b0)
        × IsCont b1
        × (validate_from fuel t ≡ valid)
  unfolding validate_from
  accepted_2 [] p q a h = absurd (ground (arith, lead_2_test b0))
  accepted_2 (b1 ∷ t) p q a h =
      let c1 = sprout_utf8_is_cont_lem b1 a.0 in
      (
        b1,
        t,
        refl,
        ground (arith, lead_2_test b0),
        ground (arith, lead_2_test b0),
        ground (arith, lead_2_test b0),
      )

  pub accepted_3 :
      (s : List ℕ)
      → 0xE0 ≤ b0
      → b0 < 0xF0
      → AllBytes s
      → validate_from (suc fuel) (b0 ∷ s) ≡ valid
      → (b1 b2 : ℕ) × (t : List ℕ) × (s ≡ b1 ∷ b2 ∷ t)
        × IsCont b1
        × IsCont b2
        × Second3 b0 b1
        × (validate_from fuel t ≡ valid)
  unfolding validate_from
  accepted_3 [] p q a h = absurd (ground (arith, lead_2_test b0, lead_3_test b0))
  accepted_3 (b1 ∷ []) p q a h = absurd (ground (arith, lead_2_test b0, lead_3_test b0))
  accepted_3 (b1 ∷ b2 ∷ t) p q a h =
      let c1 = sprout_utf8_is_cont_lem b1 a.0 in
      let c2 = sprout_utf8_is_cont_lem b2 a.1.0 in
      (
        b1,
        b2,
        t,
        refl,
        ground (arith, lead_2_test b0, lead_3_test b0),
        ground (arith, lead_2_test b0, lead_3_test b0),
        ground (arith, lead_2_test b0, lead_3_test b0),
        ground (arith, lead_2_test b0, lead_3_test b0),
      )

  pub accepted_4 :
      (s : List ℕ)
      → 0xF0 ≤ b0
      → b0 < 256
      → AllBytes s
      → validate_from (suc fuel) (b0 ∷ s) ≡ valid
      → (b1 b2 b3 : ℕ) × (t : List ℕ) × (s ≡ b1 ∷ b2 ∷ b3 ∷ t)
        × (b0 ≤ 0xF4)
        × IsCont b1
        × IsCont b2
        × IsCont b3
        × Second4 b0 b1
        × (validate_from fuel t ≡ valid)
  unfolding validate_from
  accepted_4 [] p q a h = absurd (ground (arith, lead_2_test b0, lead_3_test b0, lead_4_test b0))
  accepted_4 (b1 ∷ []) p q a h =
      absurd (ground (arith, lead_2_test b0, lead_3_test b0, lead_4_test b0))
  accepted_4 (b1 ∷ b2 ∷ []) p q a h =
      absurd (ground (arith, lead_2_test b0, lead_3_test b0, lead_4_test b0))
  accepted_4 (b1 ∷ b2 ∷ b3 ∷ t) p q a h =
      let c1 = sprout_utf8_is_cont_lem b1 a.0 in
      let c2 = sprout_utf8_is_cont_lem b2 a.1.0 in
      let c3 = sprout_utf8_is_cont_lem b3 a.1.1.0 in
      let l2 = lead_2_test b0 q in
      let l3 = lead_3_test b0 q in
      let l4 = lead_4_test b0 q in
      (
        b1,
        b2,
        b3,
        t,
        refl,
        ground arith,
        ground arith,
        ground arith,
        ground arith,
        ground arith,
        ground arith,
      )
