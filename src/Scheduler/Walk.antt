-- ===== src/Scheduler/Walk.antt =====
-- drop_mine: the walk of a cancellation over a list of tasks that are parked in the poller.
use mathlib.Core.Bool.{not}
use sprout_lang.Prelude.{
  ℕ, ◌-◌, if◌then◌else◌, arith, true, false, ◌&&◌, ◌||◌, ◌==◌, List, [], ◌∷◌, ◌≡◌, refl, sym, ap,
  ◌∙◌, inl, inr, Bool-cases, ==_iff, ok, ◌>>=◌,
}
use sprout_lang.Scheduler.{Scheduler, linked}
use sprout_lang.Scheduler.Queues.{NoTwice, NoTwice-unlink}
use sprout_lang.Scheduler.Wakes.{moved_io}
use sprout_lang.Scheduler.Drop.{
  awaited_by_other, has_child, reclaim, force_drop_parked, mine, drop_mine,
}
use sprout_lang.Scheduler.Reclaim.{
  torn_down, teardown, reclaim-here, reclaim-there, reclaim-live, reclaim-calls,
}
use sprout_lang.Scheduler.Kept.{Kept, Kept-nothing, Kept-trans, Kept-reclaim, reclaim-io}
use sprout_lang.Scheduler.Mine.{
  same_mine, and_true, and_false, count_mine, teardown_all, dropped_one, skipped_one, first_linked,
  rest_linked, SameOn, count_mine-SameOn, teardown_all-SameOn, other_than, other_way, mine_scope,
}

-- No other task waits for the task, and it has no deadline of its own.
pub record Droppable (s : Scheduler) (t : ℕ) : Type 0 where
  pub not_awaited : awaited_by_other (s.tasks t).awaiter s.current ≡ false
  pub no_child : has_child (s.tasks t).deadline_child ≡ false

pub Droppable-Kept : (s s' : Scheduler) (t : ℕ) → Kept s s' → Droppable s t → Droppable s' t
Droppable-Kept s s' t k d = record {
  not_awaited = rw (k.awaiter_kept t, k.current_kept) d.not_awaited;
  no_child = rw (k.child_kept t) d.no_child;
}

drops : (s : Scheduler) (t : ℕ) → Droppable s t → force_drop_parked t s ≡ ok (reclaim t s)
unfolding force_drop_parked
drops s t d = rw (d.not_awaited, d.no_child)

-- The scheduler after a walk over `ts`.
pub record Walked (c : ℕ) (ts : List ℕ) (s s' : Scheduler) : Type 0 where
  pub kept : Kept s s'
  pub io_of : (x : ℕ) → linked x s'.io ≡ (linked x s.io && not (linked x ts && mine c s x))
  pub tasks_of :
      (x : ℕ)
      → s'.tasks x ≡ (if linked x ts && mine c s x then torn_down (s.tasks x) else s.tasks x)
  pub live_of : (s'.scopes c).live ≡ (s.scopes c).live - count_mine c s ts
  pub calls_of : s'.calls ≡ teardown_all c s ts s.calls

abbrev pub EachDroppable : ℕ → List ℕ → Scheduler → Type 0
EachDroppable c ts s = (t : ℕ) → linked t ts ≡ true → mine c s t ≡ true → Droppable s t

dropped-tasks :
    (c t : ℕ) (ts : List ℕ) (s s' : Scheduler)
    → linked t ts ≡ false
    → mine c s t ≡ true
    → Walked c ts (reclaim t s) s'
    → (x : ℕ)
    → s'.tasks x ≡ (if linked x (t ∷ ts) && mine c s x then torn_down (s.tasks x) else s.tasks x)
unfolding linked
dropped-tasks c t ts s s' out own w x = elim (Bool-cases (t == x)) [
  | inl same ↦
      let e : x ≡ t = sym ((==_iff t x).0 same) in
      rw (e, (==_iff t t).1 refl, own) (w.tasks_of t ∙ rw out (reclaim-here t s))
  | inr other ↦
      let same = same_mine c s (reclaim t s) x (Kept-reclaim t s) in
      let there = reclaim-there t x s (other_way t x other) in
      rw (other, ← same, ← there) (w.tasks_of x)
]

left-tasks :
    (c t : ℕ) (ts : List ℕ) (s s' : Scheduler)
    → mine c s t ≡ false
    → Walked c ts s s'
    → (x : ℕ)
    → s'.tasks x ≡ (if linked x (t ∷ ts) && mine c s x then torn_down (s.tasks x) else s.tasks x)
unfolding linked
left-tasks c t ts s s' other w x = elim (Bool-cases (t == x)) [
  | inl same ↦
      let not_mine : mine c s x ≡ false = ap (mine c s) (sym ((==_iff t x).0 same)) ∙ other in
      rw (not_mine, and_false (t == x || linked x ts))
        (w.tasks_of x ∙ rw (not_mine, and_false (linked x ts)))
  | inr apart ↦ rw apart (w.tasks_of x)
]

-- The walk, behind a task that it dropped or left.
dropped-Walked :
    (c t : ℕ) (ts : List ℕ) (s s' : Scheduler)
    → NoTwice s.io
    → linked t ts ≡ false
    → mine c s t ≡ true
    → Walked c ts (reclaim t s) s'
    → Walked c (t ∷ ts) s s'
unfolding linked
dropped-Walked c t ts s s' once out own w = record {
  tasks_of = dropped-tasks c t ts s s' out own w;
  live_of =
      let same : SameOn ts s (reclaim t s) =
        λ x x_in. reclaim-there t x s (other_than t x ts out x_in) in
      rw own (
        omega (
          arith,
          w.live_of,
          reclaim-live t c s (mine_scope c s t own),
          count_mine-SameOn c ts s (reclaim t s) (Kept-reclaim t s).current_kept same,
        ));
  calls_of =
      let same : SameOn ts s (reclaim t s) =
        λ x x_in. reclaim-there t x s (other_than t x ts out x_in) in
      rw own (
        w.calls_of
        ∙ (ap (teardown_all c (reclaim t s) ts) (reclaim-calls t s)
            ∙ teardown_all-SameOn c ts s (reclaim t s) (teardown (s.tasks t) s.calls)
                (Kept-reclaim t s).current_kept same));
  kept = Kept-trans s (reclaim t s) s' (Kept-reclaim t s) w.kept;
  io_of = λ x.
      let before : linked x (reclaim t s).io ≡ (linked x s.io && not (t == x)) =
        ap (linked x) (reclaim-io t s) ∙ moved_io t x s.io once in
      let same = same_mine c s (reclaim t s) x (Kept-reclaim t s) in
      w.io_of x
      ∙ (ap (λ b. b && not (linked x ts && mine c (reclaim t s) x)) before
          ∙ (ap (λ m. (linked x s.io && not (t == x)) && not (linked x ts && m)) same
              ∙ dropped_one (linked x s.io) (t == x) (linked x ts) (mine c s x)
                  (λ e. ap (mine c s) (sym ((==_iff t x).0 e)) ∙ own)));
}

left-Walked :
    (c t : ℕ) (ts : List ℕ) (s s' : Scheduler)
    → mine c s t ≡ false
    → Walked c ts s s'
    → Walked c (t ∷ ts) s s'
unfolding linked
left-Walked c t ts s s' other w = record {
  tasks_of = left-tasks c t ts s s' other w;
  live_of = rw other (omega (arith, w.live_of));
  calls_of = rw other w.calls_of;
  kept = w.kept;
  io_of = λ x.
      w.io_of x
      ∙ skipped_one (linked x s.io) (t == x) (linked x ts) (mine c s x)
          (λ e. ap (mine c s) (sym ((==_iff t x).0 e)) ∙ other);
}

pub drop_mine-Walked :
    (c : ℕ) (ts : List ℕ) (s : Scheduler)
    → NoTwice s.io
    → NoTwice ts
    → EachDroppable c ts s
    → (s' : Scheduler) × (drop_mine c ts s ≡ ok s') × Walked c ts s s'
unfolding drop_mine linked
drop_mine-Walked c [] s once apart d = (
  s,
  refl,
  record {
    kept = Kept-nothing s;
    io_of = λ x. sym (and_true (linked x s.io));
    tasks_of = λ x. refl;
    live_of = omega arith;
    calls_of = refl;
  },
)
drop_mine-Walked c (t ∷ ts) s once (out, apart) d = elim (Bool-cases (mine c s t)) [
  | inl own ↦
      let s1 = reclaim t s in
      let k = Kept-reclaim t s in
      let once1 : NoTwice s1.io = rw (reclaim-io t s) (NoTwice-unlink t s.io once) in
      let (s', run, w) = drop_mine-Walked c ts s1 once1 apart (λ x x_in x_own.
        Droppable-Kept s s1 x k
          (d x (rest_linked t x ts x_in) (sym (same_mine c s s1 x k) ∙ x_own))) in
      (
        s',
        rw own (ap (λ o. o >>= drop_mine c ts) (drops s t (d t (first_linked t ts) own)) ∙ run),
        dropped-Walked c t ts s s' once out own w,
      )
  | inr other ↦
      let (s', run, w) =
        drop_mine-Walked c ts s once apart (λ x x_in x_own. d x (rest_linked t x ts x_in) x_own) in
      (s', rw other run, left-Walked c t ts s s' other w)
]
