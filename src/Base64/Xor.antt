-- ===== src/Base64/Xor.antt =====
-- `crypto_bytes_xor`: its length check, and that it is its own inverse.
use sprout_lang.Prelude.{
  ℕ, ◌==◌, ==_iff, Bool-cases, inl, inr, some, List, [], ◌∷◌, length, AllBytes, ◌≡◌, ◌≢◌, refl, ap,
  ok, suc, arith,
}
use sprout_lang.Prelude.Bits.{xor_twice}
use sprout_lang.Base64.{xor_bytes, crypto_bytes_xor}

length-xor_bytes : (xs ys : List ℕ) → length xs ≡ length ys → length (xor_bytes xs ys) ≡ length xs
unfolding xor_bytes
length-xor_bytes [] ys h = refl
length-xor_bytes (x ∷ xs) [] h = absurd (omega arith)
length-xor_bytes (x ∷ xs) (y ∷ ys) h = ap suc (length-xor_bytes xs ys (omega arith))

xor_bytes_twice :
    (xs ys : List ℕ)
    → length xs ≡ length ys
    → AllBytes xs
    → AllBytes ys
    → xor_bytes (xor_bytes xs ys) ys ≡ xs
unfolding xor_bytes
xor_bytes_twice [] [] h a b = refl
xor_bytes_twice [] (y ∷ ys) h a b = refl
xor_bytes_twice (x ∷ xs) [] h a b = absurd (omega arith)
xor_bytes_twice (x ∷ xs) (y ∷ ys) h (px, a) (py, b) =
    rw (xor_twice x y px py, xor_bytes_twice xs ys (omega arith) a b)

-- On strings of one length the XOR succeeds, keeps the length, and undoes itself.
pub crypto_bytes_xor_twice :
    (left right : List ℕ)
    → length left ≡ length right
    → AllBytes left
    → AllBytes right
    → (out : List ℕ) × (crypto_bytes_xor (some left) (some right) ≡ ok (inr out))
      × (length out ≡ length left)
      × (crypto_bytes_xor (some out) (some right) ≡ ok (inr left))
unfolding crypto_bytes_xor
crypto_bytes_xor_twice left right e a b =
    let len = length-xor_bytes left right e in
    (
      xor_bytes left right,
      rw ((==_iff (length left) (length right)).1 e),
      len,
      rw (
        (==_iff (length (xor_bytes left right)) (length right)).1 (omega arith),
        xor_bytes_twice left right e a b,
      ),
    )

-- Lengths that differ are reported, both of them.
pub crypto_bytes_xor_mismatch :
    (left right : List ℕ)
    → length left ≢ length right
    → crypto_bytes_xor (some left) (some right) ≡ ok (inl (length left, length right))
unfolding crypto_bytes_xor
crypto_bytes_xor_mismatch left right h = elim (Bool-cases (length left == length right)) [
  | inl same ↦ absurd (h ((==_iff (length left) (length right)).0 same))
  | inr differ ↦ rw differ
]
