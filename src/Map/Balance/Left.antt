-- ===== src/Map/Balance/Left.antt =====
-- One rotation, or two, over a right side that is two levels deeper.
use sprout_lang.Prelude.{ℕ, ◌+◌, ◌≤◌, ◌<◌, ◌≡◌, refl, arith}
use sprout_lang.Map.{Bst, node, bst_height, bst_update, bst_rotate_left, bst_rotate_right}
use sprout_lang.Map.Balance.Avl.{
  IsAvl, Rebuilt, bst_update-IsAvl, bst_height-bst_update, size_count-bst_update,
}

module _ {ℓ} {K : Type ℓ} where
  -- A right side two levels deeper, whose own right side is not the lower one.
  pub rotate_left_once :
      (k rk : K) (v rv : ℕ) (l rl rr : Bst K) (rh rs h s : ℕ)
      → IsAvl l
      → IsAvl (node rk rv rl rr rh rs)
      → bst_height rl ≤ bst_height rr
      → rh ≡ bst_height l + 2
      → Rebuilt l
          (node rk rv rl rr rh rs)
          (bst_rotate_left (node k v l (node rk rv rl rr rh rs) h s))
  unfolding bst_rotate_left
  rotate_left_once k rk v rv l rl rr rh rs h s d (a, b, c) p q =
      let low = bst_height-bst_update k v l rl in
      let many = size_count-bst_update k v l rl in
      record {
        avl =
            bst_update-IsAvl rk rv (bst_update k v l rl) rr
              (bst_update-IsAvl k v l rl d a (omega arith) (omega arith)) b (omega arith)
              (omega arith);
        size_is = omega (arith, size_count-bst_update rk rv (bst_update k v l rl) rr);
        height_le = omega (arith, bst_height-bst_update rk rv (bst_update k v l rl) rr);
        height_ge = omega (arith, bst_height-bst_update rk rv (bst_update k v l rl) rr);
      }

  rotate_left_twice :
      (k rk mk : K) (v rv mv : ℕ) (l ml mr rr : Bst K) (mh ms rh rs : ℕ)
      → bst_rotate_left
          (bst_update k v l (bst_rotate_right (node rk rv (node mk mv ml mr mh ms) rr rh rs)))
        ≡ bst_update mk mv (bst_update k v l ml) (bst_update rk rv mr rr)
  unfolding bst_rotate_right bst_rotate_left bst_update
  rotate_left_twice k rk mk v rv mv l ml mr rr mh ms rh rs = refl

  -- A right side two levels deeper, whose own left side is the deeper one.
  pub rotate_right_left :
      (k rk mk : K) (v rv mv : ℕ) (l ml mr rr : Bst K) (mh ms rh rs : ℕ)
      → IsAvl l
      → IsAvl (node rk rv (node mk mv ml mr mh ms) rr rh rs)
      → bst_height rr < mh
      → rh ≡ bst_height l + 2
      → Rebuilt l (node rk rv (node mk mv ml mr mh ms) rr rh rs) (
          bst_rotate_left
            (bst_update k v l (bst_rotate_right (node rk rv (node mk mv ml mr mh ms) rr rh rs))))
  rotate_right_left k rk mk v rv mv l ml mr rr mh ms rh rs f ((b, c, d), a, e) p q =
      let left = bst_height-bst_update k v l ml in
      let right = bst_height-bst_update rk rv mr rr in
      let left_many = size_count-bst_update k v l ml in
      let right_many = size_count-bst_update rk rv mr rr in
      rw (rotate_left_twice k rk mk v rv mv l ml mr rr mh ms rh rs) record {
        avl =
            bst_update-IsAvl mk mv (bst_update k v l ml) (bst_update rk rv mr rr)
              (bst_update-IsAvl k v l ml f b (omega arith) (omega arith))
              (bst_update-IsAvl rk rv mr rr c a (omega arith) (omega arith)) (omega arith)
              (omega arith);
        size_is =
            omega
              (arith, size_count-bst_update mk mv (bst_update k v l ml) (bst_update rk rv mr rr));
        height_le =
            omega
              (arith, bst_height-bst_update mk mv (bst_update k v l ml) (bst_update rk rv mr rr));
        height_ge =
            omega
              (arith, bst_height-bst_update mk mv (bst_update k v l ml) (bst_update rk rv mr rr));
      }
