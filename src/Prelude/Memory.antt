-- ===== src/Prelude/Memory.antt =====
-- A block of memory as a function of the index, and the list of the words in a range of it.
use Prim.Native.Nat.{ℕ, zero, suc, ◌+◌, ◌<◌, ◌≤◌}
use mathlib.Core.Path.{◌≡◌, refl, ap, ◌∙◌}
use mathlib.Core.Logic.{◌≢◌, inl, inr}
use mathlib.Core.List.{List, [], ◌∷◌, ◌++◌}
use native.Mathlib.Omega.{arith}
use sprout_lang.Prelude.Tests.{◌==◌, ==_iff, if◌then◌else◌, Bool-cases}

-- A write at one index.
abbrev pub set {ℓ} : {A : Type ℓ} → (ℕ → A) → ℕ → A → ℕ → A
set f i a j = if j == i then a else f j

-- `f i`, …, `f (i + k - 1)`
unfoldable pub values : (ℕ → ℕ) → ℕ → ℕ → List ℕ
values f i zero = []
values f i (suc k) = f i ∷ values f (suc i) k

pub values-cong :
    (f g : ℕ → ℕ) (i k : ℕ)
    → ((j : ℕ) → i ≤ j → j < i + k → f j ≡ g j)
    → values f i k ≡ values g i k
unfolding values
values-cong f g i zero h = refl
values-cong f g i (suc k) h = rw (
  h i (omega arith) (omega arith),
  values-cong f g (suc i) k (λ j p q. h j (omega arith) (omega arith)),
)

pub values-shift : (f : ℕ → ℕ) (i k : ℕ) → values f (suc i) k ≡ values (λ j. f (suc j)) i k
unfolding values
values-shift f i zero = refl
values-shift f i (suc k) = ap (λ xs. f (suc i) ∷ xs) (values-shift f (suc i) k)

pub values-snoc : (f : ℕ → ℕ) (i k : ℕ) → values f i (suc k) ≡ values f i k ++ (f (i + k) ∷ [])
unfolding values
values-snoc f i zero = ap (λ j. f j ∷ []) (omega arith)
values-snoc f i (suc k) =
    ap (λ xs. f i ∷ xs)
      (values-snoc f (suc i) k ∙ ap (λ j. values f (suc i) k ++ (f j ∷ [])) (omega arith))

pub set_other : {A : Type 0} (f : ℕ → A) (i : ℕ) (a : A) (j : ℕ) → j ≢ i → set f i a j ≡ f j
set_other f i a j h = elim (Bool-cases (j == i)) [
  | inl same ↦ absurd (h ((==_iff j i).0 same))
  | inr other ↦ rw other
]

pub set_same : {A : Type 0} (f : ℕ → A) (i : ℕ) (a : A) → set f i a i ≡ a
set_same f i a = rw ((==_iff i i).1 refl)
