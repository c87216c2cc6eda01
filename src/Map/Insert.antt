-- ===== src/Map/Insert.antt =====
-- `bst_insert_node` and `bst_get` on the entries of a search tree.
use sprout_lang.Prelude.{ℕ, Bool, true, false, Option, none, some, ◌≡◌, refl, arith}
use sprout_lang.Map.{Bst, nil, node, bst_update, bst_insert_node, bst_get, bst_has_key, llong_min}
use sprout_lang.Map.KeyOrder.{Strcmp}
use sprout_lang.Map.Entries.{entries, entries-bst_update, entries-bst_balance}
use sprout_lang.Map.Entries.Assoc.{IsSorted, find_entry, put_entry}
use sprout_lang.Map.Entries.Splits.{
  IsSorted-Parts, put_entry_lt, put_entry_at, put_entry_gt, find_entry_lt, find_entry_at,
  find_entry_gt,
}

-- What `bst_get` returns for the entry that the list has, or has not.
abbrev pub or_llong_min : Option ℕ → ℕ
or_llong_min none = llong_min
or_llong_min (some v) = v

abbrev pub is_some : Option ℕ → Bool
is_some none = false
is_some (some v) = true

module _ {ℓ} {K : Type ℓ} ⦃o : Strcmp K⦄ where
  pub entries-bst_insert_node :
      (t : Bst K) (key : K) (w : ℕ)
      → IsSorted (entries t)
      → entries (bst_insert_node t key w) ≡ put_entry key w (entries t)
  unfolding bst_insert_node entries put_entry
  entries-bst_insert_node nil key w s = refl
  entries-bst_insert_node (node k v l r h s) key w sorted =
      let p = IsSorted-Parts (entries l) k v (entries r) sorted in
      ground (
        arith,
        p.below,
        o.lt_of_gt key k,
        entries-bst_insert_node l key w p.left_sorted,
        entries-bst_insert_node r key w p.right_sorted,
        entries-bst_balance (bst_update k v (bst_insert_node l key w) r),
        entries-bst_balance (bst_update k v l (bst_insert_node r key w)),
        entries-bst_update k v (bst_insert_node l key w) r,
        entries-bst_update k v l (bst_insert_node r key w),
        put_entry_lt key k v w (entries l) (entries r),
        put_entry_at key k v w (entries l) (entries r),
        put_entry_gt key k v w (entries l) (entries r),
      )

  pub bst_get-find_entry :
      (t : Bst K) (key : K)
      → IsSorted (entries t)
      → bst_get t key ≡ or_llong_min (find_entry key (entries t))
  unfolding bst_get entries find_entry
  bst_get-find_entry nil key s = refl
  bst_get-find_entry (node k v l r h s) key sorted =
      let p = IsSorted-Parts (entries l) k v (entries r) sorted in
      ground (
        arith,
        p.below,
        o.lt_of_gt key k,
        bst_get-find_entry l key p.left_sorted,
        bst_get-find_entry r key p.right_sorted,
        find_entry_lt key k v (entries l) (entries r),
        find_entry_at key k v (entries l) (entries r),
        find_entry_gt key k v (entries l) (entries r),
      )

  pub bst_has_key-find_entry :
      (t : Bst K) (key : K)
      → IsSorted (entries t)
      → bst_has_key t key ≡ is_some (find_entry key (entries t))
  unfolding bst_has_key entries find_entry
  bst_has_key-find_entry nil key s = refl
  bst_has_key-find_entry (node k v l r h s) key sorted =
      let p = IsSorted-Parts (entries l) k v (entries r) sorted in
      ground (
        arith,
        p.below,
        o.lt_of_gt key k,
        bst_has_key-find_entry l key p.left_sorted,
        bst_has_key-find_entry r key p.right_sorted,
        find_entry_lt key k v (entries l) (entries r),
        find_entry_at key k v (entries l) (entries r),
        find_entry_gt key k v (entries l) (entries r),
      )
