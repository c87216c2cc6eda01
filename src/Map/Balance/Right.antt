-- ===== src/Map/Balance/Right.antt =====
-- One rotation, or two, over a left side that is two levels deeper.
use sprout_lang.Prelude.{ℕ, ◌+◌, ◌≤◌, ◌<◌, ◌≡◌, refl, arith}
use sprout_lang.Map.{Bst, node, bst_height, bst_update, bst_rotate_left, bst_rotate_right}
use sprout_lang.Map.Balance.Avl.{
  IsAvl, Rebuilt, bst_update-IsAvl, bst_height-bst_update, size_count-bst_update,
}

module _ {ℓ} {K : Type ℓ} where
  -- A left side two levels deeper, whose own left side is not the lower one.
  pub rotate_right_once :
      (k lk : K) (v lv : ℕ) (ll lr r : Bst K) (lh ls h s : ℕ)
      → IsAvl (node lk lv ll lr lh ls)
      → IsAvl r
      → bst_height lr ≤ bst_height ll
      → lh ≡ bst_height r + 2
      → Rebuilt
          (node lk lv ll lr lh ls)
          r
          (bst_rotate_right (node k v (node lk lv ll lr lh ls) r h s))
  unfolding bst_rotate_right
  rotate_right_once k lk v lv ll lr r lh ls h s (a, b, c) d p q =
      let low = bst_height-bst_update k v lr r in
      let many = size_count-bst_update k v lr r in
      record {
        avl =
            bst_update-IsAvl lk lv ll (bst_update k v lr r) a
              (bst_update-IsAvl k v lr r b d (omega arith) (omega arith)) (omega arith)
              (omega arith);
        size_is = omega (arith, size_count-bst_update lk lv ll (bst_update k v lr r));
        height_le = omega (arith, bst_height-bst_update lk lv ll (bst_update k v lr r));
        height_ge = omega (arith, bst_height-bst_update lk lv ll (bst_update k v lr r));
      }

  rotate_right_twice :
      (k lk mk : K) (v lv mv : ℕ) (ll ml mr r : Bst K) (mh ms lh ls : ℕ)
      → bst_rotate_right
          (bst_update k v (bst_rotate_left (node lk lv ll (node mk mv ml mr mh ms) lh ls)) r)
        ≡ bst_update mk mv (bst_update lk lv ll ml) (bst_update k v mr r)
  unfolding bst_rotate_right bst_rotate_left bst_update
  rotate_right_twice k lk mk v lv mv ll ml mr r mh ms lh ls = refl

  -- A left side two levels deeper, whose own right side is the deeper one.
  pub rotate_left_right :
      (k lk mk : K) (v lv mv : ℕ) (ll ml mr r : Bst K) (mh ms lh ls : ℕ)
      → IsAvl (node lk lv ll (node mk mv ml mr mh ms) lh ls)
      → IsAvl r
      → bst_height ll < mh
      → lh ≡ bst_height r + 2
      → Rebuilt (node lk lv ll (node mk mv ml mr mh ms) lh ls) r (
          bst_rotate_right
            (bst_update k v (bst_rotate_left (node lk lv ll (node mk mv ml mr mh ms) lh ls)) r))
  rotate_left_right k lk mk v lv mv ll ml mr r mh ms lh ls (a, (b, c, d), e) f p q =
      let left = bst_height-bst_update lk lv ll ml in
      let right = bst_height-bst_update k v mr r in
      let left_many = size_count-bst_update lk lv ll ml in
      let right_many = size_count-bst_update k v mr r in
      rw (rotate_right_twice k lk mk v lv mv ll ml mr r mh ms lh ls) record {
        avl =
            bst_update-IsAvl mk mv (bst_update lk lv ll ml) (bst_update k v mr r)
              (bst_update-IsAvl lk lv ll ml a b (omega arith) (omega arith))
              (bst_update-IsAvl k v mr r c f (omega arith) (omega arith)) (omega arith)
              (omega arith);
        size_is =
            omega
              (arith, size_count-bst_update mk mv (bst_update lk lv ll ml) (bst_update k v mr r));
        height_le =
            omega
              (arith, bst_height-bst_update mk mv (bst_update lk lv ll ml) (bst_update k v mr r));
        height_ge =
            omega
              (arith, bst_height-bst_update mk mv (bst_update lk lv ll ml) (bst_update k v mr r));
      }
