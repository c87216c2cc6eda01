-- ===== src/Http/Scan.antt =====
-- The scans of runtime/sprout_runtime.c: `while (cursor < end && test(*cursor)) cursor++`.
use mathlib.Core.List.{append_assoc}
use sprout_lang.Prelude.{
  length-append, ℕ, suc, ◌+◌, ◌≤◌, Bool, true, false, if◌then◌else◌, List, [], ◌∷◌, ◌++◌, ◌≡◌, refl,
  ap, ◌∙◌, inl, inr, length, Bool-cases, arith,
}

-- The bytes that a scan passes, and those where it stops.
unfoldable pub take_while : (ℕ → Bool) → List ℕ → List ℕ
take_while p [] = []
take_while p (c ∷ s) = if p c then c ∷ take_while p s else []

unfoldable pub drop_while : (ℕ → Bool) → List ℕ → List ℕ
drop_while p [] = []
drop_while p (c ∷ s) = if p c then drop_while p s else c ∷ s

abbrev pub All : (ℕ → Bool) → List ℕ → Type 0
All p [] = Unit
All p (c ∷ s) = (p c ≡ true) × All p s

-- A list that is empty or starts with a byte that stops the scan.
abbrev pub Stops : (ℕ → Bool) → List ℕ → Type 0
Stops p [] = Unit
Stops p (c ∷ s) = p c ≡ false

take_while-Stops : (p : ℕ → Bool) (t : List ℕ) → Stops p t → take_while p t ≡ []
unfolding take_while
take_while-Stops p [] h = refl
take_while-Stops p (c ∷ t) h = rw h

drop_while-Stops : (p : ℕ → Bool) (t : List ℕ) → Stops p t → drop_while p t ≡ t
unfolding drop_while
drop_while-Stops p [] h = refl
drop_while-Stops p (c ∷ t) h = rw h

pub take_while-append :
    (p : ℕ → Bool) (s t : List ℕ) → All p s → Stops p t → take_while p (s ++ t) ≡ s
unfolding take_while
take_while-append p [] t a h = take_while-Stops p t h
take_while-append p (c ∷ s) t (e, a) h = rw e (ap (λ xs. c ∷ xs) (take_while-append p s t a h))

pub drop_while-append :
    (p : ℕ → Bool) (s t : List ℕ) → All p s → Stops p t → drop_while p (s ++ t) ≡ t
unfolding drop_while
drop_while-append p [] t a h = drop_while-Stops p t h
drop_while-append p (c ∷ s) t (e, a) h = rw e (drop_while-append p s t a h)

pub length-drop_while : (p : ℕ → Bool) (s : List ℕ) → length (drop_while p s) ≤ length s
unfolding drop_while
length-drop_while p [] = omega arith
length-drop_while p (c ∷ s) = elim (Bool-cases (p c)) [
  | inl e ↦ rw e (omega (arith, length-drop_while p s))
  | inr e ↦ rw e (omega arith)
]

-- How a scan ends: at the end of the bytes, or at a byte that stops it.
pub data Scanned (p : ℕ → Bool) (s : List ℕ) : Type 0 where
  whole : All p s → Scanned p s
  stops :
      (front : List ℕ) (c : ℕ) (rest : List ℕ)
      → s ≡ front ++ (c ∷ rest)
      → All p front
      → p c ≡ false
      → Scanned p s

Scanned-cons : (p : ℕ → Bool) (c : ℕ) (s : List ℕ) → p c ≡ true → Scanned p s → Scanned p (c ∷ s)
Scanned-cons p c s e (whole a) = whole (e, a)
Scanned-cons p c s e (stops front d rest f a g) =
    stops (c ∷ front) d rest (ap (λ xs. c ∷ xs) f) (e, a) g

pub scan-Scanned : (p : ℕ → Bool) (s : List ℕ) → Scanned p s
scan-Scanned p [] = whole tt
scan-Scanned p (c ∷ s) = elim (Bool-cases (p c)) [
  | inl e ↦ Scanned-cons p c s e (scan-Scanned p s)
  | inr e ↦ stops [] c s refl tt e
]

pub drop_while-whole : (p : ℕ → Bool) (s : List ℕ) → All p s → drop_while p s ≡ []
unfolding drop_while
drop_while-whole p [] a = refl
drop_while-whole p (c ∷ s) (e, a) = rw e (drop_while-whole p s a)

pub take_while-whole : (p : ℕ → Bool) (s : List ℕ) → All p s → take_while p s ≡ s
unfolding take_while
take_while-whole p [] a = refl
take_while-whole p (c ∷ s) (e, a) = rw e (ap (λ xs. c ∷ xs) (take_while-whole p s a))

-- A scan that stops stops at the same place when more bytes follow.
module _ (p : ℕ → Bool) (s front rest : List ℕ) (c : ℕ) (e : s ≡ front ++ (c ∷ rest))
    (a : All p front) (stop : p c ≡ false) where
  pub take_while-stops : take_while p s ≡ front
  take_while-stops = ap (take_while p) e ∙ take_while-append p front (c ∷ rest) a stop

  pub drop_while-stops : drop_while p s ≡ c ∷ rest
  drop_while-stops = ap (drop_while p) e ∙ drop_while-append p front (c ∷ rest) a stop

  more_lem : (more : List ℕ) → s ++ more ≡ front ++ (c ∷ (rest ++ more))
  more_lem more = ap (λ xs. xs ++ more) e ∙ append_assoc front (c ∷ rest) more

  pub take_while-more : (more : List ℕ) → take_while p (s ++ more) ≡ front
  take_while-more more =
      ap (take_while p) (more_lem more) ∙ take_while-append p front (c ∷ (rest ++ more)) a stop

  pub drop_while-more : (more : List ℕ) → drop_while p (s ++ more) ≡ c ∷ (rest ++ more)
  drop_while-more more =
      ap (drop_while p) (more_lem more) ∙ drop_while-append p front (c ∷ (rest ++ more)) a stop

  pub length-stops : length s ≡ length front + suc (length rest)
  length-stops = ap length e ∙ length-append front (c ∷ rest)
