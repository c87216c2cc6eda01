-- ===== src/Vector/Copies.antt =====
-- vector_append, vector_concat and vector_from_list: the elements of the new object.
use sprout_lang.Prelude.{
  ℕ, zero, suc, ◌+◌, ◌-◌, ◌<◌, some, List, [], ◌∷◌, ◌++◌, ◌≡◌, refl, sym, ap, ◌∙◌, ok, length,
  arith,
}
use sprout_lang.Prelude.Memory.{set, values, values-cong, set_other, set_same}
use sprout_lang.Vector.{
  VectorVal, copy, fill, sprout_alloc_vector_sized, vector_append, vector_concat, vector_from_list,
}
use sprout_lang.Vector.Elements.{
  elements, values-copy, values-set_end, values-split, copy_in, copy_out,
}

-- The elements of `vector_append`, whatever the new block held: those of the vector, then the value.
pub vector_append-elements :
    (fresh : ℕ → ℕ) (src : VectorVal) (value : ℕ)
    → (out : VectorVal) × (vector_append fresh (some src) value ≡ ok out)
      × (elements out ≡ elements src ++ (value ∷ []))
      × (out.len ≡ out.cap)
unfolding vector_append elements sprout_alloc_vector_sized
vector_append-elements fresh src value =
    let words = copy 0 src.len src.words fresh in
    (
      _,
      refl,
      values-set_end words src.len value
          ∙ ap (λ xs. xs ++ (value ∷ []))
              (values-copy src.len src.len src.words fresh (omega arith)),
      refl,
    )

values-base :
    (f g : ℕ → ℕ) (i k m : ℕ)
    → ((j : ℕ) → j < m → f (i + j) ≡ g (k + j))
    → values f i m ≡ values g k m
unfolding values
values-base f g i k zero h = refl
values-base f g i k (suc m) h =
    let start : i + 0 ≡ i = omega arith in
    let start' : k + 0 ≡ k = omega arith in
    let first : f i ≡ g k = sym (ap f start) ∙ (h 0 (omega arith) ∙ ap g start') in
    rw (
      first,
      values-base f g (suc i) (suc k) m (λ j p.
          let there : suc i + j ≡ i + suc j = omega arith in
          let there' : suc k + j ≡ k + suc j = omega arith in
          ap f there ∙ (h (suc j) (omega arith) ∙ sym (ap g there'))),
    )

-- The elements of `vector_concat`, whatever the new block held: those of the first vector, then those
-- of the second one.
pub vector_concat-elements :
    (fresh : ℕ → ℕ) (va vb : VectorVal)
    → (out : VectorVal) × (vector_concat fresh (some va) (some vb) ≡ ok out)
      × (elements out ≡ elements va ++ elements vb)
      × (out.len ≡ out.cap)
unfolding vector_concat elements sprout_alloc_vector_sized
vector_concat-elements fresh va vb =
    let front = copy 0 va.len va.words fresh in
    let words = copy va.len vb.len vb.words front in
    let low =
      values-cong words front 0 va.len
        (λ j p q. copy_out va.len vb.len vb.words front j (omega arith)) in
    let high = values-base words vb.words (0 + va.len) 0 vb.len (λ j p.
      let back : (0 + va.len) + j - va.len ≡ 0 + j = omega arith in
      copy_in va.len vb.len vb.words front ((0 + va.len) + j) (omega arith) (omega arith)
      ∙ ap vb.words back) in
    (
      _,
      refl,
      values-split words 0 va.len vb.len
          ∙ (ap (λ xs. xs ++ values words (0 + va.len) vb.len)
                (low ∙ values-copy va.len va.len va.words fresh (omega arith))
              ∙ ap (λ xs. values va.words 0 va.len ++ xs) high),
      refl,
    )

fill_below : (i : ℕ) (ws : List ℕ) (f : ℕ → ℕ) (j : ℕ) → j < i → fill i ws f j ≡ f j
unfolding fill
fill_below i [] f j h = refl
fill_below i (w ∷ ws) f j h =
    fill_below (suc i) ws (set f i w) j (omega arith) ∙ set_other f i w j (λ e. omega arith)

values-fill : (i : ℕ) (ws : List ℕ) (f : ℕ → ℕ) → values (fill i ws f) i (length ws) ≡ ws
unfolding fill values
values-fill i [] f = refl
values-fill i (w ∷ ws) f =
    let first = fill_below (suc i) ws (set f i w) i (omega arith) ∙ set_same f i w in
    rw (first, values-fill (suc i) ws (set f i w))

-- The elements of `vector_from_list` are the list, whatever the new block held.
pub vector_from_list-elements :
    (fresh : ℕ → ℕ) (list : List ℕ) → elements (vector_from_list fresh list) ≡ list
unfolding vector_from_list elements sprout_alloc_vector_sized
vector_from_list-elements fresh list = values-fill 0 list fresh
