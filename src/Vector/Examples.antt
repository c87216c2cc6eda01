-- ===== src/Vector/Examples.antt =====
-- Vectors at concrete inputs.
use sprout_lang.Prelude.{ℕ, ◌+◌, ◌≤◌, true, false, [], ◌∷◌, ◌++◌, ◌≡◌, ◌≢◌, ok, arith}
use sprout_lang.Vector.{VectorVal, vector_push}
use sprout_lang.Vector.Elements.{elements}
use sprout_lang.Vector.InPlace.{vector_push_lem}

-- A full vector of two elements, 10 and 11, in its own block.
abbrev pair : VectorVal
pair = record { len = 2; cap = 2; inline_data = true; noscan = false; words = λ i. 10 + i }

abbrev heap : ℕ → VectorVal
heap h = pair

abbrev garbage : ℕ → ℕ
garbage i = 999

vector_push_lem_example :
    (after : ℕ → VectorVal) × (vector_push garbage 5 77 heap ≡ ok after)
    × (elements (after 5) ≡ elements pair ++ (77 ∷ []))
    × ((after 5).len ≤ (after 5).cap)
    × ((other : ℕ) → other ≢ 5 → after other ≡ pair)
vector_push_lem_example = vector_push_lem garbage 4 77 heap (omega arith) (omega arith)
