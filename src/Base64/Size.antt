-- ===== src/Base64/Size.antt =====
-- The output buffer of `base64_decode_bytes` is as long as what is written to it.
use sprout_lang.Prelude.{
  ℕ, suc, ◌+◌, ◌-◌, ◌*◌, ◌/◌, ◌%◌, ◌≤◌, Bool, true, false, ◌==◌, ==_iff, leb, Bool-cases, inl, inr,
  List, [], ◌∷◌, length, ◌≡◌, refl, ap, arith,
}
use sprout_lang.Base64.{
  base64_decode_bytes, decode_groups, decode_group, Decoded, decoded, invalid, ends_in_pad,
  decoded_size,
}

abbrev count_true : Bool → ℕ
count_true true = 1
count_true false = 0

abbrev pads : List ℕ → ℕ
pads text = count_true (ends_in_pad 1 text) + count_true (ends_in_pad 2 text)

-- A last group writes three bytes, less one for each `=`.
last_group :
    (c0 c1 c2 c3 : ℕ) (out : List ℕ)
    → decode_group c0 c1 c2 c3 true (decoded []) ≡ decoded out
    → length out + pads (c0 ∷ c1 ∷ c2 ∷ c3 ∷ []) ≡ 3
unfolding decode_group
last_group c0 c1 c2 c3 out h = ground arith

-- Every other group writes three bytes in front of the rest.
inner_group :
    (c0 c1 c2 c3 : ℕ) (rest : Decoded) (out : List ℕ)
    → decode_group c0 c1 c2 c3 false rest ≡ decoded out
    → (out' : List ℕ) × (rest ≡ decoded out') × (length out ≡ 3 + length out')
unfolding decode_group
inner_group c0 c1 c2 c3 (decoded out') out h = (out', refl, ground arith)
inner_group c0 c1 c2 c3 (invalid m) out h = absurd (ground arith)

le→leb : (a b : ℕ) → a ≤ b → leb a b ≡ true
le→leb a b h = ground arith

ends_in_pad_cons :
    (k c0 c1 c2 c3 : ℕ) (cs : List ℕ)
    → k ≤ length cs
    → ends_in_pad k (c0 ∷ c1 ∷ c2 ∷ c3 ∷ cs) ≡ ends_in_pad k cs
ends_in_pad_cons k c0 c1 c2 c3 cs h =
    let at : suc (suc (suc (suc (length cs)))) - k ≡ suc (suc (suc (suc (length cs - k)))) =
      omega arith in
    rw (at, le→leb k (suc (suc (suc (suc (length cs))))) (omega arith), le→leb k (length cs) h)

decode_groups-length :
    (text out : List ℕ)
    → length text % 4 ≡ 0
    → decode_groups text ≡ decoded out
    → length out + pads text ≡ length text / 4 * 3
unfolding decode_groups
decode_groups-length [] out e h = ground arith
decode_groups-length (a ∷ []) out e h = absurd (omega arith)
decode_groups-length (a ∷ b ∷ []) out e h = absurd (omega arith)
decode_groups-length (a ∷ b ∷ c ∷ []) out e h = absurd (omega arith)
decode_groups-length (a ∷ b ∷ c ∷ d ∷ []) out e h = last_group a b c d out h
decode_groups-length (a ∷ b ∷ c ∷ d ∷ x ∷ cs) out e h =
    let (out', rest, more) = inner_group a b c d (decode_groups (x ∷ cs)) out h in
    let long : 2 ≤ length (x ∷ cs) = omega arith in
    omega (
      arith,
      decode_groups-length (x ∷ cs) out' (omega arith) rest,
      ap count_true (ends_in_pad_cons 1 a b c d (x ∷ cs) (omega arith)),
      ap count_true (ends_in_pad_cons 2 a b c d (x ∷ cs) long),
    )

size_from_pads :
    (text out : List ℕ)
    → length text % 4 ≡ 0
    → length out + pads text ≡ length text / 4 * 3
    → length out ≡ decoded_size text
unfolding decoded_size
size_from_pads text out e h = ground arith

-- Where decoding succeeds it writes exactly as many bytes as were allocated.
pub base64_decode_bytes-size :
    (text out : List ℕ) → base64_decode_bytes text ≡ decoded out → length out ≡ decoded_size text
unfolding base64_decode_bytes
base64_decode_bytes-size text out h = elim (Bool-cases (length text % 4 == 0)) [
  | inl whole ↦
      let e = (==_iff (length text % 4) 0).0 whole in
      size_from_pads text out e (decode_groups-length text out e (ground arith))
  | inr odd ↦ absurd (ground arith)
]
