-- ===== src/Handle/Slots.antt =====
-- A handle splits into its index and its generation, and a slot is replaced at its index only.
use sprout_lang.Prelude.{
  ℕ, zero, suc, ◌<◌, some, List, [], ◌∷◌, ◌++◌, length, get_elem?, ◌≡◌, ◌≢◌, refl, arith,
}
use sprout_lang.Prelude.Bits.{bit_or_4294967296}
use sprout_lang.Handle.{HandleSlot, update, handle_make, index_of, generation_of}

pub index_of-handle_make : (gen idx : ℕ) → idx < 4294967296 → index_of (handle_make gen idx) ≡ idx
unfolding index_of handle_make
index_of-handle_make gen idx h = rw (bit_or_4294967296 gen idx h) (omega arith)

pub generation_of-handle_make :
    (gen idx : ℕ) → idx < 4294967296 → generation_of (handle_make gen idx) ≡ gen
unfolding generation_of handle_make
generation_of-handle_make gen idx h = rw (bit_or_4294967296 gen idx h) (omega arith)

pub update_same :
    (ss : List HandleSlot) (i : ℕ) (old new : HandleSlot)
    → get_elem? ss i ≡ some old
    → get_elem? (update ss i new) i ≡ some new
unfolding update
update_same [] i old new h = cc h
update_same (s ∷ ss) zero old new h = refl
update_same (s ∷ ss) (suc i) old new h = update_same ss i old new h

pub update_other :
    (ss : List HandleSlot) (i j : ℕ) (new : HandleSlot)
    → j ≢ i
    → get_elem? (update ss i new) j ≡ get_elem? ss j
unfolding update
update_other [] i j new h = refl
update_other (s ∷ ss) zero zero new h = absurd (h refl)
update_other (s ∷ ss) zero (suc j) new h = refl
update_other (s ∷ ss) (suc i) zero new h = refl
update_other (s ∷ ss) (suc i) (suc j) new h = update_other ss i j new (λ e. h (omega arith))

pub get_elem?-end :
    (ss : List HandleSlot) (new : HandleSlot) → get_elem? (ss ++ (new ∷ [])) (length ss) ≡ some new
get_elem?-end [] new = refl
get_elem?-end (s ∷ ss) new = get_elem?-end ss new
