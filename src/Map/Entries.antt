-- ===== src/Map/Entries.antt =====
-- What a map stands for: its entries in key order. Rotations and balancing keep them.
pub mod Assoc
pub mod Splits
use mathlib.Core.List.{append_assoc, map-append}
use sprout_lang.Prelude.{ℕ, List, [], ◌∷◌, ◌++◌, map, ◌≡◌, refl, arith}
use sprout_lang.Map.{
  Bst, nil, node, bst_update, bst_rotate_left, bst_rotate_right, bst_balance, bst_find_min,
  bst_remove_min, bst_to_list_acc,
}

module _ {ℓ} {K : Type ℓ} where
  unfoldable pub entries : Bst K → List (K × ℕ)
  entries nil = []
  entries (node k v l r h s) = entries l ++ (k, v) ∷ entries r

  pub entries-bst_update :
      (k : K) (v : ℕ) (l r : Bst K) → entries (bst_update k v l r) ≡ entries l ++ (k, v) ∷ entries r
  unfolding entries bst_update
  entries-bst_update k v l r = refl

  pub entries_node :
      (k : K) (v : ℕ) (l r : Bst K) (h s : ℕ)
      → entries (node k v l r h s) ≡ entries l ++ (k, v) ∷ entries r
  unfolding entries
  entries_node k v l r h s = refl

  entries-bst_rotate_right : (t : Bst K) → entries (bst_rotate_right t) ≡ entries t
  unfolding entries bst_rotate_right bst_update
  entries-bst_rotate_right nil = refl
  entries-bst_rotate_right (node k v nil r h s) = refl
  entries-bst_rotate_right (node k v (node bk bv bl br bh bs) r h s) = simp append_assoc

  entries-bst_rotate_left : (t : Bst K) → entries (bst_rotate_left t) ≡ entries t
  unfolding entries bst_rotate_left bst_update
  entries-bst_rotate_left nil = refl
  entries-bst_rotate_left (node k v l nil h s) = refl
  entries-bst_rotate_left (node k v l (node bk bv bl br bh bs) h s) = simp append_assoc

  pub entries-bst_balance : (t : Bst K) → entries (bst_balance t) ≡ entries t
  unfolding bst_balance
  entries-bst_balance nil = refl
  entries-bst_balance (node k v l r h s) = ground (
    arith,
    entries-bst_rotate_right (node k v l r h s),
    entries-bst_rotate_left (node k v l r h s),
    entries-bst_rotate_right (bst_update k v (bst_rotate_left l) r),
    entries-bst_rotate_left (bst_update k v l (bst_rotate_right r)),
    entries-bst_update k v (bst_rotate_left l) r,
    entries-bst_update k v l (bst_rotate_right r),
    entries-bst_rotate_left l,
    entries-bst_rotate_right r,
    entries_node k v l r h s,
  )

  pub ruleset rebuilt = (entries-bst_balance, entries-bst_update, entries_node, append_assoc)

  -- The list that `bst_to_list_acc` builds is the keys of the entries, in front of its tail.
  pub entries-bst_to_list_acc :
      (t : Bst K) (tail : List K) → bst_to_list_acc t tail ≡ map (λ e. e.0) (entries t) ++ tail
  unfolding bst_to_list_acc entries
  entries-bst_to_list_acc nil tail = refl
  entries-bst_to_list_acc (node k v l r h s) tail =
      simp (entries-bst_to_list_acc l, entries-bst_to_list_acc r, map-append, append_assoc)

  -- The least entry comes first, and `bst_remove_min` takes it away.
  pub entries-bst_remove_min :
      (k : K) (v : ℕ) (l r : Bst K) (h s : ℕ)
      → (mk : K) × (mv : ℕ) × (ml mr : Bst K) × (mh ms : ℕ) × (bst_find_min (node k v l r h s)
          ≡ node mk mv ml mr mh ms)
        × (entries (node k v l r h s) ≡ (mk, mv) ∷ entries (bst_remove_min (node k v l r h s)))
  unfolding bst_find_min bst_remove_min entries
  entries-bst_remove_min k v nil r h s = (k, v, nil, r, h, s, refl, refl)
  entries-bst_remove_min k v (node lk lv ll lr lh ls) r h s =
      let (mk, mv, ml, mr, mh, ms, found, least) = entries-bst_remove_min lk lv ll lr lh ls in
      (mk, mv, ml, mr, mh, ms, found, rw (entries_node k v, least) (simp rebuilt))
