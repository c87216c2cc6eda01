-- ===== src/Map/Remove.antt =====
-- `bst_remove_node` on the entries of a search tree.
use mathlib.Core.List.{append-nil}
use sprout_lang.Prelude.{◌++◌, ◌≡◌, refl, arith}
use sprout_lang.Map.{
  Bst, nil, node, bst_update, bst_remove_node, bst_remove_min, remove_root, replace_root,
}
use sprout_lang.Map.KeyOrder.{Strcmp}
use sprout_lang.Map.Entries.{
  entries, entries-bst_update, entries-bst_balance, entries-bst_remove_min,
}
use sprout_lang.Map.Entries.Assoc.{IsSorted, drop_entry}
use sprout_lang.Map.Entries.Splits.{IsSorted-Parts, drop_entry_lt, drop_entry_at, drop_entry_gt}

module _ {ℓ} {K : Type ℓ} where
  -- Removing the root joins the entries of its children.
  entries-remove_root : (l r : Bst K) → entries (remove_root l r) ≡ entries l ++ entries r
  unfolding remove_root replace_root entries
  entries-remove_root nil r = refl
  entries-remove_root (node k v l r h s) nil = simp append-nil
  entries-remove_root (node k v l r h s) (node rk rv rl rr rh rs) =
      let (mk, mv, ml, mr, mh, ms, found, least) = entries-bst_remove_min rk rv rl rr rh rs in
      rw (found, replace_root)
        (ground (
          arith,
          least,
          entries-bst_balance
              (bst_update mk mv (node k v l r h s) (bst_remove_min (node rk rv rl rr rh rs))),
          entries-bst_update mk mv (node k v l r h s) (bst_remove_min (node rk rv rl rr rh rs)),
        ))

module _ {ℓ} {K : Type ℓ} ⦃o : Strcmp K⦄ where
  pub entries-bst_remove_node :
      (t : Bst K) (key : K)
      → IsSorted (entries t)
      → entries (bst_remove_node t key) ≡ drop_entry key (entries t)
  unfolding bst_remove_node entries drop_entry
  entries-bst_remove_node nil key s = refl
  entries-bst_remove_node (node k v l r h s) key sorted =
      let p = IsSorted-Parts (entries l) k v (entries r) sorted in
      ground (
        arith,
        p.below,
        o.lt_of_gt key k,
        entries-remove_root l r,
        entries-bst_remove_node l key p.left_sorted,
        entries-bst_remove_node r key p.right_sorted,
        entries-bst_balance (bst_update k v (bst_remove_node l key) r),
        entries-bst_balance (bst_update k v l (bst_remove_node r key)),
        entries-bst_update k v (bst_remove_node l key) r,
        entries-bst_update k v l (bst_remove_node r key),
        drop_entry_lt key k v (entries l) (entries r),
        drop_entry_at key k v (entries l) (entries r),
        drop_entry_gt key k v (entries l) (entries r),
      )
