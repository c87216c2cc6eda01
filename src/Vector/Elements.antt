-- ===== src/Vector/Elements.antt =====
-- The elements of a vector as a list: memcpy, fills, and reads by index.
use sprout_lang.Prelude.{
  ℕ, zero, suc, ◌+◌, ◌-◌, ◌≤◌, ◌<◌, false, leb, if◌then◌else◌, none, some, List, [], ◌∷◌, ◌++◌, ◌≡◌,
  refl, sym, ap, ◌∙◌, ok, length, get_elem?, arith,
}
use sprout_lang.Prelude.Int.{pos}
use sprout_lang.Prelude.Memory.{set, values, values-cong, values-snoc, set_other, set_same}
use sprout_lang.Vector.{VectorVal, copy, vector_get}

unfoldable pub elements : VectorVal → List ℕ
elements v = values v.words 0 v.len

pub length-values : (f : ℕ → ℕ) (i k : ℕ) → length (values f i k) ≡ k
unfolding values
length-values f i zero = refl
length-values f i (suc k) = ap suc (length-values f (suc i) k)

pub values-split : (f : ℕ → ℕ) (i k m : ℕ) → values f i (k + m) ≡ values f i k ++ values f (i + k) m
unfolding values
values-split f i zero m = ap2 (omega arith) (omega arith)
  where
    ap2 : {a b c d : ℕ} → a ≡ c → b ≡ d → values f a b ≡ values f c d
    ap2 p q = rw (p, q)
values-split f i (suc k) m =
    let count : suc k + m ≡ suc (k + m) = omega arith in
    let start : suc i + k ≡ i + suc k = omega arith in
    ap (λ n. values f i n) count
    ∙ ap (λ xs. f i ∷ xs)
        (values-split f (suc i) k m ∙ ap (λ j. values f (suc i) k ++ values f j m) start)

-- The words that memcpy wrote, and the others.
pub copy_in :
    (at n : ℕ) (src dst : ℕ → ℕ) (i : ℕ) → at ≤ i → i < at + n → copy at n src dst i ≡ src (i - at)
unfolding copy
copy_in at n src dst i p q = ground arith

pub copy_out : (at n : ℕ) (src dst : ℕ → ℕ) (i : ℕ) → i < at → copy at n src dst i ≡ dst i
unfolding copy
copy_out at n src dst i p = ground arith

pub values-copy :
    (n m : ℕ) (src dst : ℕ → ℕ) → m ≤ n → values (copy 0 n src dst) 0 m ≡ values src 0 m
values-copy n m src dst h =
    values-cong (copy 0 n src dst) src 0 m
      (λ j p q. copy_in 0 n src dst j p (omega arith) ∙ ap src (omega arith))

-- A write past the end of a range.
pub values-set_end : (f : ℕ → ℕ) (n w : ℕ) → values (set f n w) 0 (n + 1) ≡ values f 0 n ++ (w ∷ [])
values-set_end f n w =
    ap (λ k. values (set f n w) 0 k) (omega arith)
    ∙ (values-snoc (set f n w) 0 n
        ∙ (ap (λ xs. xs ++ (set f n w (0 + n) ∷ [])) same
            ∙ ap (λ x. values f 0 n ++ (x ∷ [])) here))
  where
    same : values (set f n w) 0 n ≡ values f 0 n
    same = values-cong (set f n w) f 0 n (λ j p q. set_other f n w j (λ e. omega arith))

    here : set f n w (0 + n) ≡ w
    here = ap (set f n w) (omega arith) ∙ set_same f n w

get_elem?-values :
    (f : ℕ → ℕ) (i k j : ℕ)
    → get_elem? (values f i k) j ≡ (if leb k j then none else some (f (i + j)))
unfolding values
get_elem?-values f i zero j = ground arith
get_elem?-values f i (suc k) zero =
    let here : leb (suc k) 0 ≡ false = ground arith in
    let start : i + 0 ≡ i = omega arith in rw (here, start)
get_elem?-values f i (suc k) (suc j) =
    let test : leb (suc k) (suc j) ≡ leb k j = ground arith in
    let start : i + suc j ≡ suc i + j = omega arith in
    rw (test, start) (get_elem?-values f (suc i) k j)

-- `vector_get` reads the element at the index, and nothing past the end.
pub vector_get-elements :
    (v : VectorVal) (i : ℕ) → vector_get (some v) (pos i) ≡ ok (get_elem? (elements v) i)
unfolding vector_get elements
vector_get-elements v i = ap ok (sym (get_elem?-values v.words 0 v.len i ∙ zero_start))
  where
    zero_start :
        (if leb v.len i then none else some (v.words (0 + i)))
        ≡ (if leb v.len i then none else some (v.words i))
    zero_start = ap (λ x. if leb v.len i then none else some (v.words x)) (omega arith)
