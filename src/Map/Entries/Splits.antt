-- ===== src/Map/Entries/Splits.antt =====
-- The list operations at an entry in the middle: what a search tree does at its root.
use Prim.Native.Nat.Ordering.{eq}
use sprout_lang.Prelude.{ℕ, some, List, [], ◌∷◌, ◌++◌, ◌≡◌, arith}
use sprout_lang.Map.KeyOrder.{Strcmp, ◌≺◌}
use sprout_lang.Map.Entries.Assoc.{
  AllKeys-append_left, AllKeys-append_right, Above, Below, IsSorted, find_entry, put_entry,
  drop_entry,
}

module _ {ℓ} {K : Type ℓ} ⦃o : Strcmp K⦄ where
  -- An entry between two lists parts a sorted list.
  pub record Parts (m : List (K × ℕ)) (k : K) (n : List (K × ℕ)) : Type 0 where
    pub below : Below k m
    pub above : Above k n
    pub left_sorted : IsSorted m
    pub right_sorted : IsSorted n

  pub IsSorted-Parts :
      (m : List (K × ℕ)) (k : K) (v : ℕ) (n : List (K × ℕ))
      → IsSorted (m ++ (k, v) ∷ n)
      → Parts m k n
  IsSorted-Parts [] k v n s = record {
    below = tt;
    above = s.0;
    left_sorted = tt;
    right_sorted = s.1;
  }
  IsSorted-Parts ((j, w) ∷ m) k v n s =
      let rest = IsSorted-Parts m k v n s.1 in
      record {
        below = ((AllKeys-append_right (λ i. j ≺ i) m ((k, v) ∷ n) s.0).0, rest.below);
        above = rest.above;
        left_sorted = (AllKeys-append_left (λ i. j ≺ i) m ((k, v) ∷ n) s.0, rest.left_sorted);
        right_sorted = rest.right_sorted;
      }

  module _ (key k : K) (v : ℕ) where
    pub put_entry_lt :
        (w : ℕ) (m n : List (K × ℕ))
        → key ≺ k
        → put_entry key w (m ++ (k, v) ∷ n) ≡ put_entry key w m ++ (k, v) ∷ n
    unfolding put_entry
    put_entry_lt w [] n h = ground arith
    put_entry_lt w ((j, u) ∷ m) n h = ground (arith, put_entry_lt w m n h)

    pub put_entry_at :
        (w : ℕ) (m n : List (K × ℕ))
        → o.strcmp key k ≡ eq
        → Below k m
        → put_entry key w (m ++ (k, v) ∷ n) ≡ m ++ (k, w) ∷ n
    unfolding put_entry
    put_entry_at w [] n h b = ground arith
    put_entry_at w ((j, u) ∷ m) n h b =
        ground (arith, put_entry_at w m n h, o.eq_of_strcmp key k, o.gt_of_lt j k)

    pub put_entry_gt :
        (w : ℕ) (m n : List (K × ℕ))
        → k ≺ key
        → Below k m
        → put_entry key w (m ++ (k, v) ∷ n) ≡ m ++ (k, v) ∷ put_entry key w n
    unfolding put_entry
    put_entry_gt w [] n h b = ground (arith, o.gt_of_lt k key)
    put_entry_gt w ((j, u) ∷ m) n h b =
        ground (arith, put_entry_gt w m n h, o.lt_trans j k key, o.gt_of_lt j key)

    pub drop_entry_lt :
        (m n : List (K × ℕ))
        → key ≺ k
        → drop_entry key (m ++ (k, v) ∷ n) ≡ drop_entry key m ++ (k, v) ∷ n
    unfolding drop_entry
    drop_entry_lt [] n h = ground arith
    drop_entry_lt ((j, u) ∷ m) n h = ground (arith, drop_entry_lt m n h)

    pub drop_entry_at :
        (m n : List (K × ℕ))
        → o.strcmp key k ≡ eq
        → Below k m
        → drop_entry key (m ++ (k, v) ∷ n) ≡ m ++ n
    unfolding drop_entry
    drop_entry_at [] n h b = ground arith
    drop_entry_at ((j, u) ∷ m) n h b =
        ground (arith, drop_entry_at m n h, o.eq_of_strcmp key k, o.gt_of_lt j k)

    pub drop_entry_gt :
        (m n : List (K × ℕ))
        → k ≺ key
        → Below k m
        → drop_entry key (m ++ (k, v) ∷ n) ≡ m ++ (k, v) ∷ drop_entry key n
    unfolding drop_entry
    drop_entry_gt [] n h b = ground (arith, o.gt_of_lt k key)
    drop_entry_gt ((j, u) ∷ m) n h b =
        ground (arith, drop_entry_gt m n h, o.lt_trans j k key, o.gt_of_lt j key)

    pub find_entry_lt :
        (m n : List (K × ℕ)) → key ≺ k → find_entry key (m ++ (k, v) ∷ n) ≡ find_entry key m
    unfolding find_entry
    find_entry_lt [] n h = ground arith
    find_entry_lt ((j, u) ∷ m) n h = ground (arith, find_entry_lt m n h)

    pub find_entry_at :
        (m n : List (K × ℕ))
        → o.strcmp key k ≡ eq
        → Below k m
        → find_entry key (m ++ (k, v) ∷ n) ≡ some v
    unfolding find_entry
    find_entry_at [] n h b = ground arith
    find_entry_at ((j, u) ∷ m) n h b =
        ground (arith, find_entry_at m n h, o.eq_of_strcmp key k, o.gt_of_lt j k)

    pub find_entry_gt :
        (m n : List (K × ℕ))
        → k ≺ key
        → Below k m
        → find_entry key (m ++ (k, v) ∷ n) ≡ find_entry key n
    unfolding find_entry
    find_entry_gt [] n h b = ground (arith, o.gt_of_lt k key)
    find_entry_gt ((j, u) ∷ m) n h b =
        ground (arith, find_entry_gt m n h, o.lt_trans j k key, o.gt_of_lt j key)
