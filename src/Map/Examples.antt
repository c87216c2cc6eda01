-- ===== src/Map/Examples.antt =====
-- The map builtins on a small map of texts, and the theorems about them at that map.

use sprout_lang.Prelude.{ℕ, none, some, List, [], ◌∷◌, ◌≡◌, refl, ok, arith}
use sprout_lang.Prelude.Int.{pos}
use sprout_lang.Map.{
  Bst, nil, node, llong_min, bst_update, bst_balance, bst_rotate_left, bst_insert_node,
  bst_remove_node, remove_root, map_empty, map_get, map_set, map_remove, map_size, bst_has_key,
  bst_remove_min, map_keys, map_nth_key, map_nth_value,
}
use sprout_lang.Map.KeyOrder.{bytes_strcmp}
use sprout_lang.Map.Entries.{entries, entries-bst_balance}
use sprout_lang.Map.Entries.Assoc.{find_entry, put_entry, drop_entry}
use sprout_lang.Map.Laws.{
  IsMap, map_set_lem, map_remove_lem, map_get-map_set, map_get-map_remove, map_get_loses_llong_min,
  map_views, readable, map_get_lem,
}
use sprout_lang.Map.Runs.{Update, set, run, replay, values, run-map_empty}

abbrev ka : List ℕ
ka = b'a' ∷ []

abbrev kb : List ℕ
kb = b'b' ∷ []

abbrev kc : List ℕ
kc = b'c' ∷ []

-- Three keys in rising order: the third insertion turns the tree to the left.
sample : Bst (List ℕ)
sample = node kb 2 (node ka 1 nil nil 1 1) (node kc 3 nil nil 1 1) 2 3

abbrev sample_updates : List (Update (List ℕ))
sample_updates = set ka 1 ∷ set kb 2 ∷ set kc 3 ∷ []

sample_built : run sample_updates map_empty ≡ ok sample
unfolding sample map_empty map_set bst_insert_node bst_balance bst_rotate_left bst_update
sample_built = refl

sample_removed : map_remove sample (some kb) ≡ ok (node kc 3 (node ka 1 nil nil 1 1) nil 2 2)
unfolding sample map_remove bst_has_key bst_remove_node remove_root bst_remove_min bst_balance
    bst_update
sample_removed = refl

sample-IsMap : IsMap sample
unfolding sample entries
sample-IsMap = record {
  avl = ((tt, tt, omega arith), (tt, tt, omega arith), omega arith);
  sorted = (((refl, (refl, tt))), ((refl, tt), (tt, tt)));
}

map_set_lem_example :
    (m' : Bst (List ℕ)) × (map_set sample (some kb) 9 ≡ ok m')
    × IsMap m'
    × (entries m' ≡ put_entry kb 9 (entries sample))
map_set_lem_example = map_set_lem sample kb 9 sample-IsMap

map_remove_lem_example :
    (m' : Bst (List ℕ)) × (map_remove sample (some kb) ≡ ok m')
    × IsMap m'
    × (entries m' ≡ drop_entry kb (entries sample))
map_remove_lem_example = map_remove_lem sample kb sample-IsMap

map_get_lem_example : map_get sample (some kc) ≡ ok (readable (find_entry kc (entries sample)))
map_get_lem_example = map_get_lem sample kc sample-IsMap

map_get-map_set_example :
    (m' : Bst (List ℕ)) × (map_set sample (some kb) 9 ≡ ok m')
    × (map_get m' (some kb) ≡ ok (some 9))
map_get-map_set_example = map_get-map_set sample kb kb 9 sample-IsMap (omega arith)

map_get-map_remove_example :
    (m' : Bst (List ℕ)) × (map_remove sample (some kb) ≡ ok m') × (map_get m' (some kb) ≡ ok none)
map_get-map_remove_example = map_get-map_remove sample kb kb sample-IsMap

map_get_loses_llong_min_example :
    (m' : Bst (List ℕ)) × (map_set sample (some kb) llong_min ≡ ok m')
    × (find_entry kb (entries m') ≡ some llong_min)
    × (map_get m' (some kb) ≡ ok none)
map_get_loses_llong_min_example = map_get_loses_llong_min sample kb sample-IsMap

map_views_example :
    (map_size sample ≡ pos 3)
    × (map_keys sample ≡ ka ∷ kb ∷ kc ∷ [])
    × (map_nth_key sample (pos 2) ≡ some kc)
    × (map_nth_value sample (pos 2) ≡ some 3)
unfolding sample entries
map_views_example = map_views sample (pos 2) sample-IsMap (omega arith)

run-map_empty_example :
    (m : Bst (List ℕ)) × (run sample_updates map_empty ≡ ok m)
    × IsMap m
    × (values m ≡ replay sample_updates (λ _. none))
run-map_empty_example = run-map_empty sample_updates

entries-bst_balance_example : entries (bst_balance sample) ≡ entries sample
entries-bst_balance_example = entries-bst_balance sample
