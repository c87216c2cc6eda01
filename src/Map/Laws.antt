-- ===== src/Map/Laws.antt =====
-- The map builtins, from `map_set` to `map_keys`, against the entries in key order.
use Prim.Native.Nat.Ordering.{eq}
use mathlib.Core.Option
use mathlib.Core.List.{append-nil}
use sprout_lang.Prelude.{
  ℕ, ◌≢◌, ◌≤◌, false, Option, none, some, List, [], ◌∷◌, map, length, ◌≡◌, refl, ap, sym, ◌∙◌, ◌==◌,
  if◌then◌else◌, Bool-cases, inl, inr, arith,
}
use sprout_lang.Prelude.{ok}
use sprout_lang.Prelude.Int.{ℤ, pos}
use sprout_lang.Map.{
  Bst, nil, node, llong_min, bst_insert_node, bst_remove_node, bst_has_key, bst_nth_node, map_empty,
  map_get, map_set, map_remove, map_size, map_keys, map_nth_key, map_nth_value,
}
use sprout_lang.Map.KeyOrder.{Strcmp}
use sprout_lang.Map.Entries.{entries, entries-bst_to_list_acc}
use sprout_lang.Map.Entries.Assoc.{
  IsSorted, find_entry, put_entry, drop_entry, put_entry-IsSorted, drop_entry-IsSorted,
  find_entry-put_entry, find_entry-drop_entry,
}
use sprout_lang.Map.Insert.{
  is_some, or_llong_min, entries-bst_insert_node, bst_get-find_entry, bst_has_key-find_entry,
}
use sprout_lang.Map.Remove.{entries-bst_remove_node}
use sprout_lang.Map.Balance.Avl.{IsAvl}
use sprout_lang.Map.Shape.{bst_insert_node-Shaped, bst_remove_node-Shaped}
use sprout_lang.Map.Select.{bst_size-length, entry_of, entry_at, entry_of-bst_nth_node}

not_some : (r : Option ℕ) → is_some r ≡ false → r ≡ none
not_some r h = ground arith

-- The word that `map_get` makes of an entry: LLONG_MIN reads as absent.
abbrev pub readable : Option ℕ → Option ℕ
readable none = none
readable (some v) = if v == llong_min then none else some v

readable-or_llong_min :
    (r : Option ℕ)
    → (if or_llong_min r == llong_min then none else some (or_llong_min r)) ≡ readable r
readable-or_llong_min none = refl
readable-or_llong_min (some v) = refl

module _ {ℓ} {K : Type ℓ} ⦃o : Strcmp K⦄ where
  -- A map as the runtime builds it: balanced, with right caches, and its keys in strict order.
  pub record IsMap (m : Bst K) : Type 0 where
    pub avl : IsAvl m
    pub sorted : IsSorted (entries m)

  pub map_empty-IsMap : IsMap map_empty
  unfolding map_empty entries
  map_empty-IsMap = record { avl = tt; sorted = tt }

  pub bst_insert_node-IsMap :
      (m : Bst K) (key : K) (w : ℕ) → IsMap m → IsMap (bst_insert_node m key w)
  bst_insert_node-IsMap m key w h = record {
    avl = (bst_insert_node-Shaped m key w h.avl).avl;
    sorted =
        rw (entries-bst_insert_node m key w h.sorted)
          (put_entry-IsSorted key w (entries m) h.sorted);
  }

  pub bst_remove_node-IsMap : (m : Bst K) (key : K) → IsMap m → IsMap (bst_remove_node m key)
  bst_remove_node-IsMap m key h = record {
    avl = (bst_remove_node-Shaped m key h.avl).avl;
    sorted =
        rw (entries-bst_remove_node m key h.sorted) (drop_entry-IsSorted key (entries m) h.sorted);
  }

  -- `map_set` returns a valid map again, whose entries are the old ones with the key's value put
  -- in place, or a new entry in order.
  pub map_set_lem :
      (m : Bst K) (key : K) (w : ℕ)
      → IsMap m
      → (m' : Bst K) × (map_set m (some key) w ≡ ok m')
        × IsMap m'
        × (entries m' ≡ put_entry key w (entries m))
  unfolding map_set
  map_set_lem m key w h = (
    bst_insert_node m key w,
    refl,
    bst_insert_node-IsMap m key w h,
    entries-bst_insert_node m key w h.sorted,
  )

  -- Nothing is dropped for a key that is not there.
  drop_entry_absent : (key : K) (m : List (K × ℕ)) → find_entry key m ≡ none → drop_entry key m ≡ m
  unfolding find_entry drop_entry
  drop_entry_absent key [] h = refl
  drop_entry_absent key ((k, v) ∷ m) h = ground (arith, drop_entry_absent key m)

  -- `map_remove` returns a valid map again, whose entries are the old ones without that key's.
  pub map_remove_lem :
      (m : Bst K) (key : K)
      → IsMap m
      → (m' : Bst K) × (map_remove m (some key) ≡ ok m')
        × IsMap m'
        × (entries m' ≡ drop_entry key (entries m))
  unfolding map_remove
  map_remove_lem m key h = elim (Bool-cases (bst_has_key m key)) [
    | inl held ↦ (
      bst_remove_node m key,
      rw held,
      bst_remove_node-IsMap m key h,
      entries-bst_remove_node m key h.sorted,
    )
    | inr absent ↦ (
      m,
      rw absent,
      h,
      sym (
          drop_entry_absent key (entries m)
            (not_some _ (sym (bst_has_key-find_entry m key h.sorted) ∙ absent))),
    )
  ]

  -- `map_get` on a valid map finds the value of the entry with that key, unless it is LLONG_MIN.
  pub map_get_lem :
      (m : Bst K) (key : K)
      → IsMap m
      → map_get m (some key) ≡ ok (readable (find_entry key (entries m)))
  unfolding map_get
  map_get_lem m key h =
      rw (bst_get-find_entry m key h.sorted)
        (ap ok (readable-or_llong_min (find_entry key (entries m))))

  -- Every key reads after `map_set` as before, but the one that was set.
  pub map_get-map_set :
      (m : Bst K) (key q : K) (w : ℕ)
      → IsMap m
      → w ≢ llong_min
      → (m' : Bst K) × (map_set m (some key) w ≡ ok m')
        × (map_get m' (some q)
            ≡ (elim (o.strcmp q key) [ eq ↦ ok (some w) | _ ↦ map_get m (some q) ]))
  map_get-map_set m key q w h big =
      let (m', e, h', es) = map_set_lem m key w h in
      (
        m',
        e,
        rw (map_get_lem m' q h', es, find_entry-put_entry key q w (entries m))
            (ground (arith, map_get_lem m q h)),
      )

  -- The sentinel: a stored LLONG_MIN is an entry of the map, and `map_get` says it is not there.
  pub map_get_loses_llong_min :
      (m : Bst K) (key : K)
      → IsMap m
      → (m' : Bst K) × (map_set m (some key) llong_min ≡ ok m')
        × (find_entry key (entries m') ≡ some llong_min)
        × (map_get m' (some key) ≡ ok none)
  map_get_loses_llong_min m key h =
      let (m', e, h', es) = map_set_lem m key llong_min h in
      let held : find_entry key (entries m') ≡ some llong_min =
        rw (es, find_entry-put_entry key key llong_min (entries m), o.strcmp_refl key) refl in
      (m', e, held, rw (map_get_lem m' key h', held) refl)

  -- After `map_remove` the key is gone, and every other key reads as before.
  pub map_get-map_remove :
      (m : Bst K) (key q : K)
      → IsMap m
      → (m' : Bst K) × (map_remove m (some key) ≡ ok m')
        × (map_get m' (some q) ≡ (elim (o.strcmp q key) [ eq ↦ ok none | _ ↦ map_get m (some q) ]))
  map_get-map_remove m key q h =
      let (m', e, h', es) = map_remove_lem m key h in
      (
        m',
        e,
        rw (map_get_lem m' q h', es, find_entry-drop_entry key q (entries m) h.sorted)
            (ground (arith, map_get_lem m q h)),
      )

  -- On a valid map of at most 2 ^ 31 - 1 entries, so that its size fits in the `int` that caches it,
  -- `map_size` counts the entries, `map_keys` lists their keys in order, and `map_nth_key` and
  -- `map_nth_value` read the entry at an index, negative and too large ones included.
  pub map_views :
      (m : Bst K) (i : ℤ)
      → IsMap m
      → length (entries m) ≤ 2147483647
      → (map_size m ≡ pos (length (entries m)))
        × (map_keys m ≡ map (λ e. e.0) (entries m))
        × (map_nth_key m i ≡ Option.map (λ e. e.0) (entry_at (entries m) i))
        × (map_nth_value m i ≡ Option.map (λ e. e.1) (entry_at (entries m) i))
  unfolding map_size map_keys map_nth_key map_nth_value
  map_views m i h small =
      let nth = entry_of-bst_nth_node m i h.avl small in
      (
        bst_size-length m h.avl small,
        entries-bst_to_list_acc m [] ∙ append-nil _,
        key_of (bst_nth_node m i) ∙ ap (Option.map (λ e. e.0)) nth,
        value_of (bst_nth_node m i) ∙ ap (Option.map (λ e. e.1)) nth,
      )
    where
      key_of :
          (t : Bst K)
          → (elim t [ nil ↦ none | node k v _ _ _ _ ↦ some k ])
            ≡ Option.map (λ (e : K × ℕ). e.0) (entry_of t)
      key_of nil = refl
      key_of (node k v l r h s) = refl

      value_of :
          (t : Bst K)
          → (elim t [ nil ↦ none | node k v _ _ _ _ ↦ some v ])
            ≡ Option.map (λ (e : K × ℕ). e.1) (entry_of t)
      value_of nil = refl
      value_of (node k v l r h s) = refl
