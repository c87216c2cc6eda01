-- ===== src/Map/Shape.antt =====
-- Insertion and removal keep the AVL invariant, and move the height by one level at most.
use Prim.Native.Nat.Ordering.{lt, eq, gt}
use sprout_lang.Prelude.{ℕ, ◌+◌, ◌-◌, ◌≤◌, arith}
use sprout_lang.Map.{
  Bst, nil, node, bst_height, bst_update, bst_balance, bst_insert_node, bst_remove_min, remove_root,
  replace_root, bst_remove_node,
}
use sprout_lang.Map.KeyOrder.{Strcmp}
use sprout_lang.Map.Entries.{entries-bst_remove_min}
use sprout_lang.Map.Balance.{bst_balance-Balanced}
use sprout_lang.Map.Balance.Avl.{IsAvl}

module _ {ℓ} {K : Type ℓ} where
  -- An AVL tree between `low` and `high` levels high.
  pub record Shaped (low high : ℕ) (t : Bst K) : Type 0 where
    pub avl : IsAvl t
    pub height_ge : low ≤ bst_height t
    pub height_le : bst_height t ≤ high

  -- A node is rebuilt over a left side that grew by one level at most.
  grow_left :
      (k : K) (v : ℕ) (l r l' : Bst K) (h s : ℕ)
      → IsAvl (node k v l r h s)
      → Shaped (bst_height l) (bst_height l + 1) l'
      → Shaped h (h + 1) (bst_balance (bst_update k v l' r))
  grow_left k v l r l' h s (a, b, c) g =
      let z = bst_balance-Balanced k v l' r g.avl b (omega arith) (omega arith) in
      record { avl = z.rebuilt.avl; height_ge = omega arith; height_le = omega arith }

  grow_right :
      (k : K) (v : ℕ) (l r r' : Bst K) (h s : ℕ)
      → IsAvl (node k v l r h s)
      → Shaped (bst_height r) (bst_height r + 1) r'
      → Shaped h (h + 1) (bst_balance (bst_update k v l r'))
  grow_right k v l r r' h s (a, b, c) g =
      let z = bst_balance-Balanced k v l r' a g.avl (omega arith) (omega arith) in
      record { avl = z.rebuilt.avl; height_ge = omega arith; height_le = omega arith }

  -- A node, perhaps with another entry, is rebuilt over a side that shrank by one level at most.
  shrink_left :
      (k j : K) (v w : ℕ) (l r l' : Bst K) (h s : ℕ)
      → IsAvl (node k v l r h s)
      → Shaped (bst_height l - 1) (bst_height l) l'
      → Shaped (h - 1) h (bst_balance (bst_update j w l' r))
  shrink_left k j v w l r l' h s (a, b, c) g =
      let z = bst_balance-Balanced j w l' r g.avl b (omega arith) (omega arith) in
      record { avl = z.rebuilt.avl; height_ge = omega arith; height_le = omega arith }

  shrink_right :
      (k j : K) (v w : ℕ) (l r r' : Bst K) (h s : ℕ)
      → IsAvl (node k v l r h s)
      → Shaped (bst_height r - 1) (bst_height r) r'
      → Shaped (h - 1) h (bst_balance (bst_update j w l r'))
  shrink_right k j v w l r r' h s (a, b, c) g =
      let z = bst_balance-Balanced j w l r' a g.avl (omega arith) (omega arith) in
      record { avl = z.rebuilt.avl; height_ge = omega arith; height_le = omega arith }

  bst_remove_min-Shaped :
      (k : K) (v : ℕ) (l r : Bst K) (h s : ℕ)
      → IsAvl (node k v l r h s)
      → Shaped (h - 1) h (bst_remove_min (node k v l r h s))
  unfolding bst_remove_min
  bst_remove_min-Shaped k v nil r h s (a, b, c) = record {
    avl = b;
    height_ge = omega arith;
    height_le = omega arith;
  }
  bst_remove_min-Shaped k v (node lk lv ll lr lh ls) r h s a =
      shrink_left k k v v (node lk lv ll lr lh ls) r _ h s a
        (bst_remove_min-Shaped lk lv ll lr lh ls a.0)

  remove_root-Shaped :
      (k : K) (v : ℕ) (l r : Bst K) (h s : ℕ)
      → IsAvl (node k v l r h s)
      → Shaped (h - 1) h (remove_root l r)
  unfolding remove_root replace_root
  remove_root-Shaped k v nil r h s (a, b, c) = record {
    avl = b;
    height_ge = omega arith;
    height_le = omega arith;
  }
  remove_root-Shaped k v (node lk lv ll lr lh ls) nil h s (a, b, c) = record {
    avl = a;
    height_ge = omega arith;
    height_le = omega arith;
  }
  remove_root-Shaped k v (node lk lv ll lr lh ls) (node rk rv rl rr rh rs) h s a =
      let (mk, mv, ml, mr, mh, ms, found, _) = entries-bst_remove_min rk rv rl rr rh rs in
      rw (found, replace_root)
        (shrink_right k mk v mv (node lk lv ll lr lh ls) (node rk rv rl rr rh rs) _ h s a
          (bst_remove_min-Shaped rk rv rl rr rh rs a.1))

module _ {ℓ} {K : Type ℓ} ⦃o : Strcmp K⦄ where
  -- Insertion keeps an AVL tree, as high as before or one level higher.
  pub bst_insert_node-Shaped :
      (t : Bst K) (key : K) (w : ℕ)
      → IsAvl t
      → Shaped (bst_height t) (bst_height t + 1) (bst_insert_node t key w)
  unfolding bst_insert_node
  bst_insert_node-Shaped nil key w a = record {
    avl = (tt, tt, omega arith);
    height_ge = omega arith;
    height_le = omega arith;
  }
  bst_insert_node-Shaped (node k v l r h s) key w a =
      elim (o.strcmp key k)
        as (λ c. Shaped h (h + 1) (elim c [
          | eq ↦ node k w l r h s
          | lt ↦ bst_balance (bst_update k v (bst_insert_node l key w) r)
          | gt ↦ bst_balance (bst_update k v l (bst_insert_node r key w))
        ])) [
          | eq ↦ record { avl = a; height_ge = omega arith; height_le = omega arith }
          | lt ↦ grow_left k v l r _ h s a (bst_insert_node-Shaped l key w a.0)
          | gt ↦ grow_right k v l r _ h s a (bst_insert_node-Shaped r key w a.1)
        ]

  -- Removal keeps an AVL tree, as high as before or one level lower.
  pub bst_remove_node-Shaped :
      (t : Bst K) (key : K)
      → IsAvl t
      → Shaped (bst_height t - 1) (bst_height t) (bst_remove_node t key)
  unfolding bst_remove_node
  bst_remove_node-Shaped nil key a = record {
    avl = tt;
    height_ge = omega arith;
    height_le = omega arith;
  }
  bst_remove_node-Shaped (node k v l r h s) key a =
      elim (o.strcmp key k)
        as (λ c. Shaped (h - 1) h (elim c [
          | eq ↦ remove_root l r
          | lt ↦ bst_balance (bst_update k v (bst_remove_node l key) r)
          | gt ↦ bst_balance (bst_update k v l (bst_remove_node r key))
        ])) [
          | eq ↦ remove_root-Shaped k v l r h s a
          | lt ↦ shrink_left k k v v l r _ h s a (bst_remove_node-Shaped l key a.0)
          | gt ↦ shrink_right k k v v l r _ h s a (bst_remove_node-Shaped r key a.1)
        ]
