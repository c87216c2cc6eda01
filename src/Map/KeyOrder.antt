-- ===== src/Map/KeyOrder.antt =====
-- `strcmp`, of the C library, on the keys of a map: what is documented of it, as an interface.
-- Zero means that the texts are equal, and its sign is a strict total order.
use Prim.Native.Nat.{compare, Ordering}
use Prim.Native.Nat.Ordering.{lt, eq, gt}
use sprout_lang.Prelude.{ℕ, List, [], ◌∷◌, ◌≡◌, refl, arith}

pub record Strcmp {ℓ} (K : Type ℓ) : Type ℓ where
  pub strcmp : K → K → Ordering
  pub strcmp_refl : (a : K) → strcmp a a ≡ eq
  pub eq_of_strcmp : (a b : K) → strcmp a b ≡ eq → a ≡ b
  pub lt_of_gt : (a b : K) → strcmp a b ≡ gt → strcmp b a ≡ lt
  pub gt_of_lt : (a b : K) → strcmp a b ≡ lt → strcmp b a ≡ gt
  pub lt_trans : (a b c : K) → strcmp a b ≡ lt → strcmp b c ≡ lt → strcmp a c ≡ lt

infix 50 ◌≺◌
abbrev pub ◌≺◌ {ℓ} : {K : Type ℓ} ⦃o : Strcmp K⦄ → K → K → Type 0
◌≺◌ ⦃o⦄ a b = o.strcmp a b ≡ lt

-- An order of that kind on texts as lists of bytes: by the first byte that differs.
abbrev pub compare_bytes : List ℕ → List ℕ → Ordering
compare_bytes [] [] = eq
compare_bytes [] (b ∷ bs) = lt
compare_bytes (a ∷ as') [] = gt
compare_bytes (a ∷ as') (b ∷ bs) = elim (compare a b) [
  | lt ↦ lt
  | gt ↦ gt
  | eq ↦ compare_bytes as' bs
]

pub compare_bytes_refl : (a : List ℕ) → compare_bytes a a ≡ eq
compare_bytes_refl [] = refl
compare_bytes_refl (x ∷ xs) = ground (arith, compare_bytes_refl xs)

pub compare_bytes-eq : (a b : List ℕ) → compare_bytes a b ≡ eq → a ≡ b
compare_bytes-eq [] [] h = refl
compare_bytes-eq [] (y ∷ ys) h = ground arith
compare_bytes-eq (x ∷ xs) [] h = ground arith
compare_bytes-eq (x ∷ xs) (y ∷ ys) h = ground (arith, compare_bytes-eq xs ys)

pub compare_bytes-gt : (a b : List ℕ) → compare_bytes a b ≡ gt → compare_bytes b a ≡ lt
compare_bytes-gt [] [] h = ground arith
compare_bytes-gt [] (y ∷ ys) h = ground arith
compare_bytes-gt (x ∷ xs) [] h = refl
compare_bytes-gt (x ∷ xs) (y ∷ ys) h = ground (arith, compare_bytes-gt xs ys)

pub compare_bytes-lt : (a b : List ℕ) → compare_bytes a b ≡ lt → compare_bytes b a ≡ gt
compare_bytes-lt [] [] h = ground arith
compare_bytes-lt [] (y ∷ ys) h = refl
compare_bytes-lt (x ∷ xs) [] h = ground arith
compare_bytes-lt (x ∷ xs) (y ∷ ys) h = ground (arith, compare_bytes-lt xs ys)

pub compare_bytes_trans :
    (a b c : List ℕ) → compare_bytes a b ≡ lt → compare_bytes b c ≡ lt → compare_bytes a c ≡ lt
compare_bytes_trans [] [] c h k = ground arith
compare_bytes_trans [] (y ∷ ys) [] h k = ground arith
compare_bytes_trans [] (y ∷ ys) (z ∷ zs) h k = refl
compare_bytes_trans (x ∷ xs) [] c h k = ground arith
compare_bytes_trans (x ∷ xs) (y ∷ ys) [] h k = ground arith
compare_bytes_trans (x ∷ xs) (y ∷ ys) (z ∷ zs) h k = ground (arith, compare_bytes_trans xs ys zs)

instance abbrev pub bytes_strcmp : Strcmp (List ℕ)
bytes_strcmp = record {
  strcmp = compare_bytes;
  strcmp_refl = compare_bytes_refl;
  eq_of_strcmp = compare_bytes-eq;
  lt_of_gt = compare_bytes-gt;
  gt_of_lt = compare_bytes-lt;
  lt_trans = compare_bytes_trans;
}
