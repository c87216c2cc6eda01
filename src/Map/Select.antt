-- ===== src/Map/Select.antt =====
-- The cached sizes: `bst_size`, `bst_nth_node`, and how high a tree of a given size can be.
use native.Mathlib.Nat.{pow-suc}
use sprout_lang.Prelude.{
  ℕ, zero, suc, ◌+◌, ◌-◌, ◌*◌, ◌/◌, ◌^◌, ◌≤◌, ◌<◌, max, Option, none, some, List, ◌∷◌, ◌++◌, length,
  length-append, get_elem?, get_elem?-append_left, get_elem?-append_right, ◌≡◌, refl, ap, sym,
  false, ◌∙◌, ltb, ◌==◌, Bool-cases, ltb→lt, ltb_false→le, ==_iff, inl, inr, arith,
}
use sprout_lang.Prelude.Int.{ℤ, pos, negsuc, ◌-ℤ◌, ltb_ℤ, eqb_ℤ}
use sprout_lang.Map.{Bst, nil, node, bst_height, signed_int, size_count, bst_size, bst_nth_node}
use sprout_lang.Map.Entries.{entries}
use sprout_lang.Map.Balance.Avl.{IsAvl}

-- Below 2 ^ 31 an `int` holds the count.
pub signed_int_exact : (n : ℕ) → n ≤ 2147483647 → signed_int n ≡ pos n
unfolding signed_int
signed_int_exact n h = ground arith

sub_past : (n s : ℕ) → s < n → (pos n -ℤ pos s) -ℤ pos 1 ≡ pos (n - (s + 1))
sub_past n s h = ground arith

ltb_ℤ-pos : (n s : ℕ) → ltb_ℤ (pos n) (pos s) ≡ ltb n s
ltb_ℤ-pos n s = ground arith

eqb_ℤ-pos : (n s : ℕ) → eqb_ℤ (pos n) (pos s) ≡ (n == s)
eqb_ℤ-pos n s = ground arith

==_absurd : (n s : ℕ) → n ≡ s → (n == s) ≡ false → ⊥
==_absurd n s e h = ground arith

module _ {ℓ} {K : Type ℓ} where
  pub size_count-length : (t : Bst K) → IsAvl t → size_count t ≡ length (entries t)
  unfolding entries
  size_count-length nil a = refl
  size_count-length (node k v l r h s) (a, b, c) = omega (
    arith,
    size_count-length l a,
    size_count-length r b,
    length-append (entries l) ((k, v) ∷ entries r),
  )

  -- The entry that a node holds.
  abbrev pub entry_of : Bst K → Option (K × ℕ)
  entry_of nil = none
  entry_of (node k v l r h s) = some (k, v)

  -- The entry at an index, which may be negative or past the end.
  abbrev pub entry_at : List (K × ℕ) → ℤ → Option (K × ℕ)
  entry_at m (pos n) = get_elem? m n
  entry_at m (negsuc n) = none

  get_elem?_middle :
      (m n : List (K × ℕ)) (e : K × ℕ) (i : ℕ) → i ≡ length m → get_elem? (m ++ e ∷ n) i ≡ some e
  get_elem?_middle m n e i h =
      ap (get_elem? (m ++ e ∷ n)) (omega arith) ∙ get_elem?-append_right m (e ∷ n) 0

  get_elem?_beyond :
      (m n : List (K × ℕ)) (e : K × ℕ) (i : ℕ)
      → length m < i
      → get_elem? (m ++ e ∷ n) i ≡ get_elem? n (i - (length m + 1))
  get_elem?_beyond m n e i h =
      ap (get_elem? (m ++ e ∷ n)) (omega arith)
      ∙ get_elem?-append_right m (e ∷ n) (suc (i - (length m + 1)))

  -- What the cached size of a valid tree reads as.
  pub bst_size-length :
      (t : Bst K)
      → IsAvl t
      → length (entries t) ≤ 2147483647
      → bst_size t ≡ pos (length (entries t))
  unfolding bst_size
  bst_size-length t a small =
      ap signed_int (size_count-length t a) ∙ signed_int_exact (length (entries t)) small

  bst_nth_node_neg :
      (t : Bst K) (n : ℕ)
      → IsAvl t
      → length (entries t) ≤ 2147483647
      → bst_nth_node t (negsuc n) ≡ nil
  unfolding bst_nth_node entries
  bst_nth_node_neg nil n a small = refl
  bst_nth_node_neg (node k v l r h s) n (a, b, c) small =
      let less : length (entries l) ≤ 2147483647 =
        omega (arith, length-append (entries l) ((k, v) ∷ entries r)) in
      rw (bst_size-length l a less) (ground (arith, bst_nth_node_neg l n a less))

  bst_nth_node_pos :
      (t : Bst K) (n : ℕ)
      → IsAvl t
      → length (entries t) ≤ 2147483647
      → entry_of (bst_nth_node t (pos n)) ≡ get_elem? (entries t) n
  unfolding bst_nth_node entries
  bst_nth_node_pos nil n a small = refl
  bst_nth_node_pos (node k v l r h s) n (a, b, c) small =
      let size = length (entries l) in
      let both = length-append (entries l) ((k, v) ∷ entries r) in
      let less_left : length (entries l) ≤ 2147483647 = omega (arith, both) in
      let less_right : length (entries r) ≤ 2147483647 = omega (arith, both) in
      rw (bst_size-length l a less_left, ltb_ℤ-pos n size, eqb_ℤ-pos n size)
        (elim (Bool-cases (ltb n size)) [
          | inl below ↦
              let low = ltb→lt n size below in
              rw below (
                bst_nth_node_pos l n a less_left
                ∙ sym (get_elem?-append_left (entries l) ((k, v) ∷ entries r) n (omega arith)))
          | inr not_below ↦
              let high = ltb_false→le n size not_below in
              elim (Bool-cases (n == size)) [
                | inl here ↦
                    let at = (==_iff n size).0 here in
                    rw (not_below, here)
                      (sym (get_elem?_middle (entries l) (entries r) (k, v) n at))
                | inr elsewhere ↦
                    let apart = λ (e : n ≡ size). ==_absurd n size e elsewhere in
                    let past : size < n = omega arith in
                    rw (not_below, elsewhere, sub_past n size past)
                      (bst_nth_node_pos r (n - (size + 1)) b less_right
                        ∙ sym (get_elem?_beyond (entries l) (entries r) (k, v) n past))
              ]
        ])

  -- The node that `bst_nth_node` finds holds the entry at that index, and there is none outside.
  pub entry_of-bst_nth_node :
      (t : Bst K) (i : ℤ)
      → IsAvl t
      → length (entries t) ≤ 2147483647
      → entry_of (bst_nth_node t i) ≡ entry_at (entries t) i
  entry_of-bst_nth_node t (pos n) a small = bst_nth_node_pos t n a small
  entry_of-bst_nth_node t (negsuc n) a small = ap entry_of (bst_nth_node_neg t n a small)

-- 2 to the half of `h`.
abbrev doubling : ℕ → ℕ
doubling zero = 1
doubling (suc zero) = 1
doubling (suc (suc n)) = 2 * doubling n

doubling-pow : (n : ℕ) → doubling n ≡ 2 ^ (n / 2)
doubling-pow zero = refl
doubling-pow (suc zero) = refl
doubling-pow (suc (suc n)) =
    let half : suc (suc n) / 2 ≡ suc (n / 2) = omega arith in
    rw (half, pow-suc) (omega (arith, doubling-pow n))

doubling_mono : (n : ℕ) → doubling n ≤ doubling (suc n)
doubling_mono zero = omega arith
doubling_mono (suc zero) = omega arith
doubling_mono (suc (suc n)) = omega (arith, doubling_mono n)

doubling_le : (n : ℕ) → doubling (suc n) ≤ 2 * doubling n
doubling_le zero = omega arith
doubling_le (suc n) = omega (arith, doubling_mono n)

doubling-node :
    (a b m n : ℕ)
    → a ≤ b + 1
    → b ≤ a + 1
    → doubling a ≤ m + 1
    → doubling b ≤ n + 1
    → doubling (1 + max a b) ≤ 1 + m + n + 1
doubling-node a b m n p q x y = elim (Bool-cases (a == b)) [
  | inl same ↦
      let e = (==_iff a b).0 same in
      let top : 1 + max a b ≡ suc a = omega arith in
      rw top (omega (arith, doubling_le a, ap doubling e))
  | inr apart ↦
      let differ = λ (e : a ≡ b). ==_absurd a b e apart in
      elim (Bool-cases (ltb a b)) [
        | inl below ↦
            let lower = ltb→lt a b below in
            let up : b ≡ suc a = omega arith in
            let top : 1 + max a b ≡ suc (suc a) = omega arith in
            rw top (omega (arith, doubling_mono a, ap doubling up))
        | inr above ↦
            let higher = ltb_false→le a b above in
            let up : a ≡ suc b = omega arith in
            let top : 1 + max a b ≡ suc (suc b) = omega arith in
            rw top (omega (arith, doubling_mono b, ap doubling up))
      ]
]

module _ {ℓ} {K : Type ℓ} where
  doubling-size_count : (t : Bst K) → IsAvl t → doubling (bst_height t) ≤ size_count t + 1
  doubling-size_count nil a = omega arith
  doubling-size_count (node k v l r h s) (a, b, c) =
      rw (c.height_cached, c.size_cached)
        (doubling-node (bst_height l) (bst_height r) (size_count l) (size_count r) c.left_close
          c.right_close (doubling-size_count l a) (doubling-size_count r b))

  -- A map of `s` keys is at most `2 * log2 (s + 1) + 1` levels high.
  pub pow-bst_height : (t : Bst K) → IsAvl t → 2 ^ (bst_height t / 2) ≤ length (entries t) + 1
  pow-bst_height t a =
      rw (← size_count-length t a, ← doubling-pow (bst_height t)) (doubling-size_count t a)
