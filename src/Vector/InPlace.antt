-- ===== src/Vector/InPlace.antt =====
-- vector_push, vector_truncate: the heap after an operation in place.
use sprout_lang.Prelude.{
  ℕ, zero, suc, ◌+◌, ◌≤◌, ◌<◌, ltb, leb, ◌&&◌, if◌then◌else◌, [], ◌∷◌, ◌++◌, ◌≡◌, ◌≢◌, refl, sym,
  ap, ◌∙◌, inl, inr, ok, min, take, Bool-cases, le→ltb_false, arith,
}
use sprout_lang.Prelude.Int.{ℤ}
use sprout_lang.Prelude.Memory.{set, values, values-cong, set_other, set_same}
use sprout_lang.Vector.{VectorVal, clamp, grow, vector_push, vector_truncate}
use sprout_lang.Vector.Elements.{elements, values-copy, values-set_end}

elements-grow :
    (fresh : ℕ → ℕ) (v : VectorVal) → v.len ≤ v.cap → elements (grow fresh v) ≡ elements v
unfolding elements grow
elements-grow fresh v h = elim (Bool-cases v.inline_data) [
  | inl inside ↦ rw inside (values-copy v.len v.len v.words fresh (omega arith))
  | inr outside ↦ rw outside (values-copy v.cap v.len v.words fresh h)
]

grow_room : (fresh : ℕ → ℕ) (v : VectorVal) → v.len ≤ v.cap → v.len < (grow fresh v).cap
unfolding grow
grow_room fresh v h = ground arith

abbrev pushed : VectorVal → ℕ → VectorVal
pushed v value = record v { words = set v.words v.len value; len = v.len + 1 }

elements-pushed :
    (v : VectorVal) (value : ℕ) → elements (pushed v value) ≡ elements v ++ (value ∷ [])
unfolding elements
elements-pushed v value = values-set_end v.words v.len value

-- Where the vector is within its capacity and the capacity below the limit: a push succeeds, the
-- object of the handle has the value behind its elements, whether it had room or grew, and is
-- within its capacity again, and no other object changes.
pub vector_push_lem :
    (fresh : ℕ → ℕ) (h value : ℕ) (heap : ℕ → VectorVal)
    → (heap (suc h)).len ≤ (heap (suc h)).cap
    → (heap (suc h)).cap ≤ 1152921504606846975
    → (after : ℕ → VectorVal) × (vector_push fresh (suc h) value heap ≡ ok after)
      × (elements (after (suc h)) ≡ elements (heap (suc h)) ++ (value ∷ []))
      × ((after (suc h)).len ≤ (after (suc h)).cap)
      × ((other : ℕ) → other ≢ suc h → after other ≡ heap other)
unfolding vector_push grow
vector_push_lem fresh h value heap fits small =
    let v = heap (suc h) in
    elim (Bool-cases (leb v.cap v.len)) [
      | inl full ↦
          let big = pushed (grow fresh v) value in
          let same = set_same heap (suc h) big in
          let room = grow_room fresh v fits in
          (
            set heap (suc h) big,
            rw (full, le→ltb_false 1152921504606846975 v.cap small),
            ap elements same
                ∙ (elements-pushed (grow fresh v) value
                    ∙ ap (λ xs. xs ++ (value ∷ [])) (elements-grow fresh v fits)),
            rw same (next_fits (grow fresh v) room),
            λ other d. set_other heap (suc h) big other d,
          )
      | inr free ↦
          let new = pushed v value in
          let same = set_same heap (suc h) new in
          (
            set heap (suc h) new,
            rw free,
            ap elements same ∙ elements-pushed v value,
            rw same (ground arith),
            λ other d. set_other heap (suc h) new other d,
          )
    ]
  where
    next_fits : (v : VectorVal) → v.len < v.cap → (pushed v value).len ≤ (pushed v value).cap
    next_fits v p = omega arith

no_values : (f : ℕ → ℕ) (i m : ℕ) → m ≡ 0 → [] ≡ values f i m
unfolding values
no_values f i m e = rw e

take-values : (f : ℕ → ℕ) (i k n : ℕ) → take k (values f i n) ≡ values f i (min k n)
unfolding values
take-values f i zero n = no_values f i (min 0 n) (omega arith)
take-values f i (suc k) zero = no_values f i (min (suc k) 0) (omega arith)
take-values f i (suc k) (suc n) =
    let both : min (suc k) (suc n) ≡ suc (min k n) = omega arith in
    rw both (ap (λ xs. f i ∷ xs) (take-values f (suc i) k n))

cleared :
    (f : ℕ → ℕ) (keep len : ℕ)
    → values (λ i. if leb keep i && ltb i len then 0 else f i) 0 keep ≡ values f 0 keep
cleared f keep len =
    values-cong (λ i. if leb keep i && ltb i len then 0 else f i) f 0 keep (λ j p q. ground arith)

-- A truncation keeps the elements in front of `n`, none where `n` is negative and all where it is
-- past the end, and no other object changes.
pub vector_truncate_lem :
    (h : ℕ) (n : ℤ) (heap : ℕ → VectorVal)
    → (after : ℕ → VectorVal) × (vector_truncate (suc h) n heap ≡ ok after)
      × (elements (after (suc h)) ≡ take (clamp n) (elements (heap (suc h))))
      × ((other : ℕ) → other ≢ suc h → after other ≡ heap other)
unfolding vector_truncate elements
vector_truncate_lem h n heap =
    let v = heap (suc h) in
    elim (Bool-cases (leb v.len (clamp n))) [
      | inl all ↦
          let short : min (clamp n) v.len ≡ v.len = ground arith in
          (
            heap,
            rw all,
            sym (take-values v.words 0 (clamp n) v.len ∙ ap (values v.words 0) short),
            λ other d. refl,
          )
      | inr some_go ↦
          let new : VectorVal = record v {
            words = λ i. if leb (clamp n) i && ltb i v.len then 0 else v.words i;
            len = clamp n;
          } in
          let short : min (clamp n) v.len ≡ clamp n = ground arith in
          (
            set heap (suc h) new,
            rw some_go,
            ap elements (set_same heap (suc h) new)
                ∙ (cleared v.words (clamp n) v.len
                    ∙ sym (take-values v.words 0 (clamp n) v.len ∙ ap (values v.words 0) short)),
            λ other d. set_other heap (suc h) new other d,
          )
    ]
