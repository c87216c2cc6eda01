-- ===== src/Scheduler/Mine.antt =====
-- The tasks that a walk of a cancellation drops, and what it does with the poller for them.
use mathlib.Core.Bool.{not}
use sprout_lang.Prelude.{
  ℕ, ◌+◌, if◌then◌else◌, arith, Bool, true, false, ◌&&◌, ◌||◌, ◌==◌, List, [], ◌∷◌, ◌≡◌, refl, ap,
  inl, inr, Bool-cases, ==_iff,
}
use sprout_lang.Scheduler.{Scheduler, PollCall, linked}
use sprout_lang.Scheduler.Drop.{mine}
use sprout_lang.Scheduler.Reclaim.{teardown}
use sprout_lang.Scheduler.Kept.{Kept}

pub same_mine : (c : ℕ) (s s' : Scheduler) (t : ℕ) → Kept s s' → mine c s' t ≡ mine c s t
same_mine c s s' t k = rw (k.scope_kept t, k.current_kept)

pub and_true : (a : Bool) → (a && true) ≡ a
and_true true = refl
and_true false = refl

pub and_false : (a : Bool) → (a && false) ≡ false
and_false true = refl
and_false false = refl

-- How many of the tasks the walk drops, and its calls of the poller, in front of the older ones.
abbrev pub count_mine : ℕ → Scheduler → List ℕ → ℕ
count_mine c s [] = 0
count_mine c s (t ∷ ts) = (if mine c s t then 1 else 0) + count_mine c s ts

abbrev pub teardown_all : ℕ → Scheduler → List ℕ → List PollCall → List PollCall
teardown_all c s [] older = older
teardown_all c s (t ∷ ts) older =
    teardown_all c s ts (if mine c s t then teardown (s.tasks t) older else older)

pub dropped_one :
    (a b r m : Bool)
    → (b ≡ true → m ≡ true)
    → ((a && not b) && not (r && m)) ≡ (a && not ((b || r) && m))
dropped_one false b r m h = refl
dropped_one true false r m h = refl
dropped_one true true r true h = refl
dropped_one true true r false h = cc (h refl)

pub skipped_one :
    (a b r m : Bool) → (b ≡ true → m ≡ false) → (a && not (r && m)) ≡ (a && not ((b || r) && m))
skipped_one a false r m h = refl
skipped_one a true r true h = cc (h refl)
skipped_one a true true false h = refl
skipped_one a true false false h = refl

pub first_linked : (t : ℕ) (ts : List ℕ) → linked t (t ∷ ts) ≡ true
unfolding linked
first_linked t ts = rw ((==_iff t t).1 refl)

pub rest_linked : (t x : ℕ) (ts : List ℕ) → linked x ts ≡ true → linked x (t ∷ ts) ≡ true
unfolding linked
rest_linked t x ts h = elim (Bool-cases (t == x)) [ inl e ↦ rw e | inr e ↦ rw (e, h) ]

-- Schedulers that agree on the tasks of a list.
abbrev pub SameOn : List ℕ → Scheduler → Scheduler → Type 0
SameOn ts s s' = (x : ℕ) → linked x ts ≡ true → s'.tasks x ≡ s.tasks x

pub count_mine-SameOn :
    (c : ℕ) (ts : List ℕ) (s s' : Scheduler)
    → s'.current ≡ s.current
    → SameOn ts s s'
    → count_mine c s' ts ≡ count_mine c s ts
count_mine-SameOn c [] s s' e h = refl
count_mine-SameOn c (t ∷ ts) s s' e h =
    rw (e, h t (first_linked t ts))
      (ap (λ n. (if mine c s t then 1 else 0) + n)
        (count_mine-SameOn c ts s s' e (λ x x_in. h x (rest_linked t x ts x_in))))

pub teardown_all-SameOn :
    (c : ℕ) (ts : List ℕ) (s s' : Scheduler) (older : List PollCall)
    → s'.current ≡ s.current
    → SameOn ts s s'
    → teardown_all c s' ts older ≡ teardown_all c s ts older
teardown_all-SameOn c [] s s' older e h = refl
teardown_all-SameOn c (t ∷ ts) s s' older e h =
    rw (e, h t (first_linked t ts))
      (teardown_all-SameOn c ts s s' (if mine c s t then teardown (s.tasks t) older else older) e
        (λ x x_in. h x (rest_linked t x ts x_in)))

pub other_than :
    (t x : ℕ) (ts : List ℕ) → linked t ts ≡ false → linked x ts ≡ true → (x == t) ≡ false
other_than t x ts out x_in = elim (Bool-cases (x == t)) [
  | inl same ↦ cc (ap (λ y. linked y ts) ((==_iff x t).0 same), out, x_in)
  | inr other ↦ other
]

pub other_way : (t x : ℕ) → (t == x) ≡ false → (x == t) ≡ false
other_way t x h = ground arith

pub mine_scope : (c : ℕ) (s : Scheduler) (t : ℕ) → mine c s t ≡ true → (s.tasks t).scope ≡ c
mine_scope c s t own = (==_iff (s.tasks t).scope c).0 (ground arith)
