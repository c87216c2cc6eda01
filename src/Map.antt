-- ===== src/Map.antt =====
-- runtime/sprout_runtime.c, "Persistent AVL BST map": the map behind `stdlib.map`.
--
-- A map is the word of a heap node that is never written again once it is built, and 0 is the
-- empty map: so a map is a tree, `nil` is the word 0 (and the pointer NULL), and structural
-- sharing leaves no trace. Pushing and popping GC roots has no effect on what is returned and is
-- left out. The cached size is counted in full, and read as the `int` that its low 32 bits are; the
-- cached height, never near the limit of `int`, is a number.
pub mod KeyOrder
pub mod Entries
pub mod Balance
pub mod Shape
pub mod Insert
pub mod Remove
pub mod Select
mod Sizes
pub mod Laws
pub mod Runs
mod Examples
use Prim.Native.Nat.Ordering.{lt, eq, gt}
use sprout_lang.Prelude.{
  ℕ, ◌+◌, ◌^◌, ◌%◌, Bool, true, false, ltb, ◌==◌, if◌then◌else◌, Option, none, some, List, [], ◌∷◌,
  Outcome, ok, fail,
}
use sprout_lang.Prelude.Int.{ℤ, pos, negsuc, sub_ℕ, ltb_ℤ, eqb_ℤ, ◌-ℤ◌}
use KeyOrder.{Strcmp}

-- `BSTNode`: key, value, left, right, height, size. A value is a 64-bit word.
pub data Bst {ℓ} (K : Type ℓ) : Type ℓ where
  nil : Bst K
  node : K → ℕ → Bst K → Bst K → ℕ → ℕ → Bst K

-- LLONG_MIN, as the word that holds it.
abbrev pub llong_min : ℕ
llong_min = 2 ^ 63

-- The low 32 bits of a number, read as an `int`: negative from 2 ^ 31 on.
unfoldable pub signed_int : ℕ → ℤ
signed_int n =
    let word = n % 4294967296 in if ltb word 2147483648 then pos word else sub_ℕ word 4294967296

module _ {ℓ} {K : Type ℓ} where
  abbrev pub bst_height : Bst K → ℕ
  bst_height nil = 0
  bst_height (node k v l r h s) = h

  -- The size a node counts, before it is read as an `int`: `bst_update` sums the counts, which has
  -- the low 32 bits of the sum of the `int`s (Sizes).
  abbrev pub size_count : Bst K → ℕ
  size_count nil = 0
  size_count (node k v l r h s) = s

  unfoldable pub bst_size : Bst K → ℤ
  bst_size t = signed_int (size_count t)

  -- A new node with the four fields given, and the two that `bst_update` computes from them.
  unfoldable pub bst_update : K → ℕ → Bst K → Bst K → Bst K
  bst_update k v l r =
      let lh = bst_height l in
      let rh = bst_height r in
      node k v l r (1 + (if ltb rh lh then lh else rh)) (1 + size_count l + size_count r)

  unfoldable pub bst_bf : Bst K → ℤ
  bst_bf nil = pos 0
  bst_bf (node k v l r h s) = sub_ℕ (bst_height l) (bst_height r)

  -- Where the child to lift is missing the C code dereferences NULL; here the tree stays as it is.
  -- `bst_balance` never gets there on a tree whose cached heights are right (Balance).
  unfoldable pub bst_rotate_right : Bst K → Bst K
  bst_rotate_right nil = nil
  bst_rotate_right (node k v nil r h s) = node k v nil r h s
  bst_rotate_right (node k v (node bk bv b_left b_right bh bs) a_right h s) =
      bst_update bk bv b_left (bst_update k v b_right a_right)

  unfoldable pub bst_rotate_left : Bst K → Bst K
  bst_rotate_left nil = nil
  bst_rotate_left (node k v l nil h s) = node k v l nil h s
  bst_rotate_left (node k v a_left (node bk bv b_left b_right bh bs) h s) =
      bst_update bk bv (bst_update k v a_left b_left) b_right

  unfoldable pub bst_balance : Bst K → Bst K
  unfolding bst_bf
  bst_balance nil = nil
  bst_balance (node k v l r h s) =
      let bf = bst_bf (node k v l r h s) in
      if ltb_ℤ (pos 1) bf
      then (if ltb_ℤ (bst_bf l) (pos 0)
          then bst_rotate_right (bst_update k v (bst_rotate_left l) r)
          else bst_rotate_right (node k v l r h s))
      else if ltb_ℤ bf (negsuc 0)
      then (if ltb_ℤ (pos 0) (bst_bf r)
          then bst_rotate_left (bst_update k v l (bst_rotate_right r))
          else bst_rotate_left (node k v l r h s))
      else node k v l r h s

  -- The node with the least key, or NULL.
  unfoldable pub bst_find_min : Bst K → Bst K
  bst_find_min nil = nil
  bst_find_min (node k v nil r h s) = node k v nil r h s
  bst_find_min (node k v (node lk lv ll lr lh ls) r h s) = bst_find_min (node lk lv ll lr lh ls)

  unfoldable pub bst_remove_min : Bst K → Bst K
  bst_remove_min nil = nil
  bst_remove_min (node k v nil r h s) = r
  bst_remove_min (node k v (node lk lv ll lr lh ls) r h s) =
      bst_balance (bst_update k v (bst_remove_min (node lk lv ll lr lh ls)) r)

  -- The new root is a copy of the successor. There always is one: `r` is not empty.
  unfoldable pub replace_root : Bst K → Bst K → Bst K → Bst K
  replace_root l r nil = l
  replace_root l r (node k v _ _ _ _) = bst_balance (bst_update k v l (bst_remove_min r))

  -- The branch of `bst_remove_node` at the key that is removed.
  unfoldable pub remove_root : Bst K → Bst K → Bst K
  unfolding bst_find_min replace_root
  remove_root nil r = r
  remove_root (node k v l r h s) nil = node k v l r h s
  remove_root (node k v l r h s) (node rk rv rl rr rh rs) =
      replace_root (node k v l r h s) (node rk rv rl rr rh rs)
        (bst_find_min (node rk rv rl rr rh rs))

  unfoldable pub bst_nth_node : Bst K → ℤ → Bst K
  bst_nth_node nil n = nil
  bst_nth_node (node k v l r h s) n =
      let ls = bst_size l in
      let left = bst_nth_node l n in
      let right = bst_nth_node r ((n -ℤ ls) -ℤ pos 1) in
      if ltb_ℤ n ls then left else if eqb_ℤ n ls then node k v l r h s else right

  -- The keys in order, in front of `tail`.
  unfoldable pub bst_to_list_acc : Bst K → List K → List K
  bst_to_list_acc nil tail = tail
  bst_to_list_acc (node k v l r h s) tail = bst_to_list_acc l (k ∷ bst_to_list_acc r tail)

module _ {ℓ} {K : Type ℓ} ⦃o : Strcmp K⦄ where
  unfoldable pub bst_insert_node : Bst K → K → ℕ → Bst K
  bst_insert_node nil ikey value = node ikey value nil nil 1 1
  bst_insert_node (node k v l r h s) ikey value = elim (o.strcmp ikey k) [
    | eq ↦ node k value l r h s
    | lt ↦ bst_balance (bst_update k v (bst_insert_node l ikey value) r)
    | gt ↦ bst_balance (bst_update k v l (bst_insert_node r ikey value))
  ]

  unfoldable pub bst_remove_node : Bst K → K → Bst K
  bst_remove_node nil ikey = nil
  bst_remove_node (node k v l r h s) ikey = elim (o.strcmp ikey k) [
    | eq ↦ remove_root l r
    | lt ↦ bst_balance (bst_update k v (bst_remove_node l ikey) r)
    | gt ↦ bst_balance (bst_update k v l (bst_remove_node r ikey))
  ]

  -- The value word, or LLONG_MIN for "not found".
  unfoldable pub bst_get : Bst K → K → ℕ
  bst_get nil key = llong_min
  bst_get (node k v l r h s) key = elim (o.strcmp key k) [
    | eq ↦ v
    | lt ↦ bst_get l key
    | gt ↦ bst_get r key
  ]

  unfoldable pub bst_has_key : Bst K → K → Bool
  bst_has_key nil key = false
  bst_has_key (node k v l r h s) key = elim (o.strcmp key k) [
    | eq ↦ true
    | lt ↦ bst_has_key l key
    | gt ↦ bst_has_key r key
  ]

  -- The builtins take the key as a word, which may be NULL: `none`.
  unfoldable pub map_get : Bst K → Option K → Outcome (Option ℕ)
  map_get m none = fail "map_get: null key"
  map_get m (some key) =
      let found = bst_get m key in ok (if found == llong_min then none else some found)

  unfoldable pub map_set : Bst K → Option K → ℕ → Outcome (Bst K)
  map_set m none value = fail "map_set: null key"
  map_set m (some key) value = ok (bst_insert_node m key value)

  unfoldable pub map_remove : Bst K → Option K → Outcome (Bst K)
  map_remove m none = fail "map_remove: null key"
  map_remove m (some key) = ok (if bst_has_key m key then bst_remove_node m key else m)

module _ {ℓ} {K : Type ℓ} where
  unfoldable pub map_empty : Bst K
  map_empty = nil

  unfoldable pub map_size : Bst K → ℤ
  map_size m = bst_size m

  unfoldable pub map_nth_key : Bst K → ℤ → Option K
  map_nth_key m index = elim (bst_nth_node m index) [ nil ↦ none | node k v _ _ _ _ ↦ some k ]

  unfoldable pub map_nth_value : Bst K → ℤ → Option ℕ
  map_nth_value m index = elim (bst_nth_node m index) [ nil ↦ none | node k v _ _ _ _ ↦ some v ]

  unfoldable pub map_keys : Bst K → List K
  map_keys m = bst_to_list_acc m []
