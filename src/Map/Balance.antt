-- ===== src/Map/Balance.antt =====
-- The cached heights and sizes of a map are right, and the two sides of a node differ by at most
-- one level: `bst_balance`, and the operations that call it.
pub mod Avl
mod Left
mod Right
use sprout_lang.Prelude.{
  ℕ, ◌+◌, ◌≤◌, ◌<◌, ◌≡◌, ◌⊎◌, refl, max, Bool-cases, inl, inr, ltb, ltb→lt, lt→ltb, le→ltb_false,
  ltb_false→le, arith,
}
use sprout_lang.Prelude.Int.{sub_ℕ-gt_one, sub_ℕ-lt_neg_one, sub_ℕ-lt_zero, sub_ℕ-gt_zero}
use sprout_lang.Map.{Bst, nil, node, bst_height, bst_update, bst_balance}
use Avl.{IsAvl, Rebuilt, node-Rebuilt, bst_update_lem}
use Left.{rotate_left_once, rotate_right_left}
use Right.{rotate_right_once, rotate_left_right}

module _ {ℓ} {K : Type ℓ} where
  left_heavy :
      (k : K) (v : ℕ) (l r : Bst K) (h s : ℕ)
      → IsAvl l
      → IsAvl r
      → bst_height l ≡ bst_height r + 2
      → Rebuilt l r (bst_balance (node k v l r h s))
  unfolding bst_balance
  left_heavy k v nil r h s a b q = absurd (omega arith)
  left_heavy k v (node lk lv ll nil lh ls) r h s a b q =
      rw
        (
          sub_ℕ-gt_one lh (bst_height r),
          lt→ltb (bst_height r + 1) lh (omega arith),
          sub_ℕ-lt_zero (bst_height ll) 0,
          le→ltb_false (bst_height ll) 0 (omega arith),
        )
        (rotate_right_once k lk v lv ll nil r lh ls h s a b (omega arith) q)
  left_heavy k v (node lk lv ll (node mk mv ml mr mh ms) lh ls) r h s a b q =
      rw
        (
          sub_ℕ-gt_one lh (bst_height r),
          lt→ltb (bst_height r + 1) lh (omega arith),
          sub_ℕ-lt_zero (bst_height ll) mh,
        )
        (elim (Bool-cases (ltb (bst_height ll) mh)) [
          | inl deep ↦ rw deep (
              rotate_left_right k lk mk v lv mv ll ml mr r mh ms lh ls a b
                (ltb→lt (bst_height ll) mh deep) q)
          | inr flat ↦ rw flat (
              rotate_right_once k lk v lv ll (node mk mv ml mr mh ms) r lh ls h s a b
                (ltb_false→le (bst_height ll) mh flat) q)
        ])

  right_heavy :
      (k : K) (v : ℕ) (l r : Bst K) (h s : ℕ)
      → IsAvl l
      → IsAvl r
      → bst_height r ≡ bst_height l + 2
      → Rebuilt l r (bst_balance (node k v l r h s))
  unfolding bst_balance
  right_heavy k v l nil h s a b q = absurd (omega arith)
  right_heavy k v l (node rk rv nil rr rh rs) h s a b q =
      rw
        (
          sub_ℕ-gt_one (bst_height l) rh,
          le→ltb_false (rh + 1) (bst_height l) (omega arith),
          sub_ℕ-lt_neg_one (bst_height l) rh,
          lt→ltb (bst_height l + 1) rh (omega arith),
          sub_ℕ-gt_zero 0 (bst_height rr),
          le→ltb_false (bst_height rr) 0 (omega arith),
        )
        (rotate_left_once k rk v rv l nil rr rh rs h s a b (omega arith) q)
  right_heavy k v l (node rk rv (node mk mv ml mr mh ms) rr rh rs) h s a b q =
      rw
        (
          sub_ℕ-gt_one (bst_height l) rh,
          le→ltb_false (rh + 1) (bst_height l) (omega arith),
          sub_ℕ-lt_neg_one (bst_height l) rh,
          lt→ltb (bst_height l + 1) rh (omega arith),
          sub_ℕ-gt_zero mh (bst_height rr),
        )
        (elim (Bool-cases (ltb (bst_height rr) mh)) [
          | inl deep ↦ rw deep (
              rotate_right_left k rk mk v rv mv l ml mr rr mh ms rh rs a b
                (ltb→lt (bst_height rr) mh deep) q)
          | inr flat ↦ rw flat (
              rotate_left_once k rk v rv l (node mk mv ml mr mh ms) rr rh rs h s a b
                (ltb_false→le (bst_height rr) mh flat) q)
        ])

  -- Where the sides differ by one level at most, nothing moves.
  level :
      (k : K) (v : ℕ) (l r : Bst K) (h s : ℕ)
      → bst_height l ≤ bst_height r + 1
      → bst_height r ≤ bst_height l + 1
      → bst_balance (node k v l r h s) ≡ node k v l r h s
  unfolding bst_balance
  level k v l r h s p q = rw (
    sub_ℕ-gt_one (bst_height l) (bst_height r),
    le→ltb_false (bst_height r + 1) (bst_height l) (omega arith),
    sub_ℕ-lt_neg_one (bst_height l) (bst_height r),
    le→ltb_false (bst_height l + 1) (bst_height r) (omega arith),
  )

  -- What `bst_balance` makes of a new node over two AVL trees whose heights differ by two at most:
  -- an AVL tree, which is as high as the node if nothing had to move.
  pub record Balanced (l r t : Bst K) : Type 0 where
    pub rebuilt : Rebuilt l r t
    pub as_high :
        (bst_height r + 1 < bst_height l)
        ⊎ ((bst_height l + 1 < bst_height r)
            ⊎ (bst_height t ≡ 1 + max (bst_height l) (bst_height r)))

  pub bst_balance-Balanced :
      (k : K) (v : ℕ) (l r : Bst K)
      → IsAvl l
      → IsAvl r
      → bst_height l ≤ bst_height r + 2
      → bst_height r ≤ bst_height l + 2
      → Balanced l r (bst_balance (bst_update k v l r))
  bst_balance-Balanced k v l r a b p q =
      rw (bst_update_lem k v l r) (elim (Bool-cases (ltb (bst_height r + 1) (bst_height l))) [
        | inl left ↦
            let far = ltb→lt (bst_height r + 1) (bst_height l) left in
            record { rebuilt = left_heavy k v l r _ _ a b (omega arith); as_high = inl far }
        | inr not_left ↦
            let near_left = ltb_false→le (bst_height r + 1) (bst_height l) not_left in
            elim (Bool-cases (ltb (bst_height l + 1) (bst_height r))) [
              | inl right ↦
                  let far = ltb→lt (bst_height l + 1) (bst_height r) right in
                  record {
                    rebuilt = right_heavy k v l r _ _ a b (omega arith);
                    as_high = inr (inl far);
                  }
              | inr not_right ↦
                  let near_right = ltb_false→le (bst_height l + 1) (bst_height r) not_right in
                  rw (level k v l r _ _ near_left near_right) record {
                    rebuilt = node-Rebuilt k v l r _ _ (a, b, omega arith);
                    as_high = inr (inr refl);
                  }
            ]
      ])
