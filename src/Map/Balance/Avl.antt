-- ===== src/Map/Balance/Avl.antt =====
-- The AVL invariant of a tree, its cached fields included.
use sprout_lang.Prelude.{ℕ, ◌+◌, ◌≤◌, max, ◌≡◌, arith, ltb, if◌then◌else◌}
use sprout_lang.Map.{Bst, nil, node, bst_height, size_count, bst_update}

taller : (a b : ℕ) → (if ltb b a then a else b) ≡ max a b
taller a b = ground arith

module _ {ℓ} {K : Type ℓ} where
  pub record Level (l r : Bst K) (h s : ℕ) : Type 0 where
    pub height_cached : h ≡ 1 + max (bst_height l) (bst_height r)
    pub size_cached : s ≡ 1 + size_count l + size_count r
    pub left_close : bst_height l ≤ bst_height r + 1
    pub right_close : bst_height r ≤ bst_height l + 1

  abbrev pub IsAvl : Bst K → Type 0
  IsAvl nil = Unit
  IsAvl (node k v l r h s) = IsAvl l × IsAvl r × Level l r h s

  -- `t` holds what a node over `l` and `r` would, and is at most one level lower.
  pub record Rebuilt (l r t : Bst K) : Type 0 where
    pub avl : IsAvl t
    pub size_is : size_count t ≡ 1 + size_count l + size_count r
    pub height_le : bst_height t ≤ 1 + max (bst_height l) (bst_height r)
    pub height_ge : max (bst_height l) (bst_height r) ≤ bst_height t

  pub bst_update_lem :
      (k : K) (v : ℕ) (l r : Bst K)
      → bst_update k v l r
        ≡ node k v l r (1 + max (bst_height l) (bst_height r)) (1 + size_count l + size_count r)
  unfolding bst_update
  bst_update_lem k v l r = rw (taller (bst_height l) (bst_height r))

  pub node-Rebuilt :
      (k : K) (v : ℕ) (l r : Bst K) (h s : ℕ)
      → IsAvl (node k v l r h s)
      → Rebuilt l r (node k v l r h s)
  node-Rebuilt k v l r h s (a, b, c) = record {
    avl = (a, b, c);
    size_is = c.size_cached;
    height_le = omega arith;
    height_ge = omega arith;
  }

  pub bst_update-IsAvl :
      (k : K) (v : ℕ) (l r : Bst K)
      → IsAvl l
      → IsAvl r
      → bst_height l ≤ bst_height r + 1
      → bst_height r ≤ bst_height l + 1
      → IsAvl (bst_update k v l r)
  bst_update-IsAvl k v l r a b p q = rw (bst_update_lem k v l r) (a, b, omega arith)

  pub bst_height-bst_update :
      (k : K) (v : ℕ) (l r : Bst K)
      → bst_height (bst_update k v l r) ≡ 1 + max (bst_height l) (bst_height r)
  bst_height-bst_update k v l r = rw (bst_update_lem k v l r)

  pub size_count-bst_update :
      (k : K) (v : ℕ) (l r : Bst K)
      → size_count (bst_update k v l r) ≡ 1 + size_count l + size_count r
  size_count-bst_update k v l r = rw (bst_update_lem k v l r)

  pub ruleset updated = (arith, bst_height-bst_update, size_count-bst_update)
