-- ===== src/Scheduler/Queues.antt =====
-- The queues of the scheduler: the ready queue and the list of the tasks parked in the poller.
use sprout_lang.Prelude.{
  ℕ, Bool, true, false, ◌||◌, ◌==◌, List, [], ◌∷◌, ◌++◌, ◌≡◌, refl, sym, ap, ◌∙◌, inl, inr,
  Bool-cases, ==_iff, arith,
}
use sprout_lang.Scheduler.{linked, unlink}

abbrev pub NoTwice : List ℕ → Type 0
NoTwice [] = Unit
NoTwice (x ∷ xs) = (linked x xs ≡ false) × NoTwice xs

-- No task is linked twice into a list, or into both.
pub record Queues (io ready : List ℕ) : Type 0 where
  pub once_ready : NoTwice ready
  pub once_io : NoTwice io
  pub apart : (t : ℕ) → linked t io ≡ true → linked t ready ≡ false

or_assoc : (a b c : Bool) → ((a || b) || c) ≡ (a || (b || c))
or_assoc true b c = refl
or_assoc false b c = refl

or_false : (a : Bool) → (a || false) ≡ a
or_false true = refl
or_false false = refl

or_parts : (a b : Bool) → (a || b) ≡ false → (a ≡ false) × (b ≡ false)
or_parts true b h = cc h
or_parts false b h = (refl, h)

-- The same task is linked or not.
other_task : (w t : ℕ) (xs : List ℕ) → linked w xs ≡ false → linked t xs ≡ true → (w == t) ≡ false
other_task w t xs out h = elim (Bool-cases (w == t)) [
  | inl e ↦ let same = ap (λ x. linked x xs) ((==_iff w t).0 e) in cc (same, out, h)
  | inr e ↦ e
]

pub linked-append : (t : ℕ) (xs ys : List ℕ) → linked t (xs ++ ys) ≡ (linked t xs || linked t ys)
unfolding linked
linked-append t [] ys = refl
linked-append t (x ∷ xs) ys =
    ap (λ b. x == t || b) (linked-append t xs ys)
    ∙ sym (or_assoc (x == t) (linked t xs) (linked t ys))

pub linked-snoc : (t w : ℕ) (xs : List ℕ) → linked t (xs ++ (w ∷ [])) ≡ (linked t xs || w == t)
unfolding linked
linked-snoc t w xs = linked-append t xs (w ∷ []) ∙ ap (λ b. linked t xs || b) (or_false (w == t))

pub linked-unlink :
    (t w : ℕ) (xs : List ℕ) → (w == t) ≡ false → linked t (unlink w xs) ≡ linked t xs
unfolding linked unlink
linked-unlink t w [] h = refl
linked-unlink t w (x ∷ xs) h = elim (Bool-cases (x == w)) [
  | inl e ↦ let other : (x == t) ≡ false = ground arith in rw (e, other)
  | inr e ↦ rw e (ap (λ b. x == t || b) (linked-unlink t w xs h))
]

NoTwice-snoc : (t : ℕ) (xs : List ℕ) → NoTwice xs → linked t xs ≡ false → NoTwice (xs ++ (t ∷ []))
unfolding linked
NoTwice-snoc t [] h k = (refl, tt)
NoTwice-snoc t (x ∷ xs) (fresh, h) k = elim (Bool-cases (x == t)) [
  | inl e ↦ let off = (or_parts (x == t) (linked t xs) k).0 in cc (e, off)
  | inr e ↦
      let off = or_parts (x == t) (linked t xs) k in
      let other : (t == x) ≡ false = ground arith in
      (linked-snoc x t xs ∙ (ap (λ b. b || t == x) fresh ∙ other), NoTwice-snoc t xs h off.1)
]

pub unlink-linked : (t : ℕ) (xs : List ℕ) → NoTwice xs → linked t (unlink t xs) ≡ false
unfolding linked unlink
unlink-linked t [] h = refl
unlink-linked t (x ∷ xs) (fresh, h) = elim (Bool-cases (x == t)) [
  | inl e ↦ rw e (ap (λ y. linked y xs) (sym ((==_iff x t).0 e)) ∙ fresh)
  | inr e ↦ rw (e, e, unlink-linked t xs h)
]

pub NoTwice-unlink : (t : ℕ) (xs : List ℕ) → NoTwice xs → NoTwice (unlink t xs)
unfolding unlink
NoTwice-unlink t [] h = tt
NoTwice-unlink t (x ∷ xs) (fresh, h) = elim (Bool-cases (x == t)) [
  | inl e ↦ rw e h
  | inr e ↦
      let other : (t == x) ≡ false = ground arith in
      rw e (linked-unlink x t xs other ∙ fresh, NoTwice-unlink t xs h)
]

pub Queues-run_later :
    (io ready : List ℕ) (w : ℕ)
    → Queues io ready
    → linked w io ≡ false
    → linked w ready ≡ false
    → Queues io (ready ++ (w ∷ []))
Queues-run_later io ready w q out fresh = record {
  once_ready = NoTwice-snoc w ready q.once_ready fresh;
  once_io = q.once_io;
  apart = λ t linked_io.
      let other : (w == t) ≡ false = other_task w t io out linked_io in
      linked-snoc t w ready ∙ (ap (λ b. b || w == t) (q.apart t linked_io) ∙ other);
}

-- A parked task that becomes ready.
pub Queues-move :
    (io ready : List ℕ) (w : ℕ)
    → Queues io ready
    → linked w io ≡ true
    → Queues (unlink w io) (ready ++ (w ∷ []))
Queues-move io ready w q parked = record {
  once_ready = NoTwice-snoc w ready q.once_ready (q.apart w parked);
  once_io = NoTwice-unlink w io q.once_io;
  apart = λ t linked_io.
      let other = other_task w t (unlink w io) (unlink-linked w io q.once_io) linked_io in
      let before = sym (linked-unlink t w io other) ∙ linked_io in
      linked-snoc t w ready ∙ (ap (λ b. b || w == t) (q.apart t before) ∙ other);
}
