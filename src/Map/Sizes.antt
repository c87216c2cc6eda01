-- ===== src/Map/Sizes.antt =====
-- The size that `bst_update` stores: the `int` sum of the children's sizes and 1.
use sprout_lang.Prelude.{ℕ, ◌+◌, ◌-◌, ◌%◌, ◌≡◌, arith}
use sprout_lang.Prelude.Int.{ℤ, pos, negsuc, pos_part, neg_part, sub_ℕ}
use sprout_lang.Map.{Bst, signed_int, size_count, bst_size, bst_update}

-- The low 32 bits of an integer, read as an `int`.
abbrev to_int : ℤ → ℤ
to_int (pos n) = signed_int n
to_int (negsuc n) = signed_int (4294967295 - n % 4294967296)

abbrev sum : ℤ → ℤ → ℤ
sum a b = sub_ℕ (pos_part a + pos_part b) (neg_part a + neg_part b)

signed_int-sum :
    (a b : ℕ) → signed_int (1 + a + b) ≡ to_int (sum (pos 1) (sum (signed_int a) (signed_int b)))
unfolding signed_int
signed_int-sum a b = ground arith

-- The size of a new node, read as an `int`, is the sum of the sizes below it and 1 in 32 bits, also
-- past the limit of `int`.
module _ {ℓ} {K : Type ℓ} where
  bst_size-bst_update :
      (k : K) (v : ℕ) (l r : Bst K)
      → bst_size (bst_update k v l r) ≡ to_int (sum (pos 1) (sum (bst_size l) (bst_size r)))
  unfolding bst_size bst_update
  bst_size-bst_update k v l r = signed_int-sum (size_count l) (size_count r)
