-- ===== src/Scheduler/Wakes.antt =====
-- A batch of events of the poller.
use mathlib.Core.Bool.{not}
use sprout_lang.Prelude.{
  ℕ, Bool, true, false, ◌&&◌, ◌||◌, ◌==◌, List, [], ◌∷◌, ◌++◌, ◌≡◌, refl, sym, ap, ◌∙◌, inl, inr,
  Bool-cases, ==_iff,
}
use sprout_lang.Scheduler.{
  Scheduler, resume, linked, unlink, run_later, io_list_remove, stop_timer, wake, wake_all,
}
use sprout_lang.Scheduler.Queues.{
  NoTwice, Queues, Queues-move, linked-snoc, linked-unlink, unlink-linked,
}

-- The poller reported the task.
unfoldable pub reported : ℕ → List (ℕ × Bool) → Bool
reported t [] = false
reported t ((w, is_timer) ∷ events) = w == t || reported t events

pub stop_timer-io : (t : ℕ) (s : Scheduler) → (stop_timer t s).io ≡ s.io
unfolding stop_timer
stop_timer-io t s = elim (Bool-cases (s.tasks t).timer_dead) [ inl e ↦ rw e | inr e ↦ rw e ]

pub stop_timer-ready : (t : ℕ) (s : Scheduler) → (stop_timer t s).ready ≡ s.ready
unfolding stop_timer
stop_timer-ready t s = elim (Bool-cases (s.tasks t).timer_dead) [ inl e ↦ rw e | inr e ↦ rw e ]

-- The queues `io'` and `ready'` after an event for `w`.
record Woken (w : ℕ) (io ready io' ready' : List ℕ) : Type 0 where
  pub queues : Queues io' ready'
  io_of : (t : ℕ) → linked t io' ≡ (linked t io && not (w == t))
  ready_of : (t : ℕ) → linked t ready' ≡ (linked t ready || linked t io && w == t)

and_false : (a : Bool) → (a && false) ≡ false
and_false true = refl
and_false false = refl

and_true : (a : Bool) → (a && true) ≡ a
and_true true = refl
and_true false = refl

or_nothing : (a : Bool) → (a || false) ≡ a
or_nothing true = refl
or_nothing false = refl

same_linked : (w t : ℕ) (xs : List ℕ) → (w == t) ≡ true → linked t xs ≡ linked w xs
same_linked w t xs e = ap (λ x. linked x xs) (sym ((==_iff w t).0 e))

-- A task that is linked where `w` is, or is not `w`.
linked_one : (w t : ℕ) (io : List ℕ) → linked w io ≡ true → (linked t io && w == t) ≡ (w == t)
linked_one w t io parked = elim (Bool-cases (w == t)) [
  | inl e ↦ let there = same_linked w t io e ∙ parked in rw (e, there)
  | inr e ↦ rw e (and_false (linked t io))
]

linked_none : (w t : ℕ) (io : List ℕ) → linked w io ≡ false → (linked t io && w == t) ≡ false
linked_none w t io out = elim (Bool-cases (w == t)) [
  | inl e ↦ let absent = same_linked w t io e ∙ out in rw absent
  | inr e ↦ rw e (and_false (linked t io))
]

pub moved_io :
    (w t : ℕ) (io : List ℕ) → NoTwice io → linked t (unlink w io) ≡ (linked t io && not (w == t))
moved_io w t io once = elim (Bool-cases (w == t)) [
  | inl e ↦
      let gone = same_linked w t (unlink w io) e ∙ unlink-linked w io once in
      rw e (gone ∙ sym (and_false (linked t io)))
  | inr e ↦ let kept = linked-unlink t w io e in rw e (kept ∙ sym (and_true (linked t io)))
]

moved_ready :
    (w t : ℕ) (io ready : List ℕ)
    → linked w io ≡ true
    → linked t (ready ++ (w ∷ [])) ≡ (linked t ready || linked t io && w == t)
moved_ready w t io ready parked =
    linked-snoc t w ready ∙ ap (λ b. linked t ready || b) (sym (linked_one w t io parked))

left_io :
    (w t : ℕ) (io : List ℕ) → linked w io ≡ false → linked t io ≡ (linked t io && not (w == t))
left_io w t io out = elim (Bool-cases (w == t)) [
  | inl e ↦ let absent = same_linked w t io e ∙ out in rw absent
  | inr e ↦ rw e (sym (and_true (linked t io)))
]

left_ready :
    (w t : ℕ) (io ready : List ℕ)
    → linked w io ≡ false
    → linked t ready ≡ (linked t ready || linked t io && w == t)
left_ready w t io ready out =
    sym (ap (λ b. linked t ready || b) (linked_none w t io out) ∙ or_nothing (linked t ready))

resume-Woken :
    (w : ℕ) (is_timer : Bool) (s : Scheduler)
    → Queues s.io s.ready
    → Woken w s.io s.ready (resume w is_timer s).io (resume w is_timer s).ready
unfolding resume run_later io_list_remove
resume-Woken w is_timer s q = elim (Bool-cases (linked w s.io)) [
  | inl parked ↦ rw parked (record {
    queues = Queues-move s.io s.ready w q parked;
    io_of = λ t. moved_io w t s.io q.once_io;
    ready_of = λ t. moved_ready w t s.io s.ready parked;
  })
  | inr out ↦ rw out (record {
    queues = q;
    io_of = λ t. left_io w t s.io out;
    ready_of = λ t. left_ready w t s.io s.ready out;
  })
]

as_before :
    (w : ℕ) (io ready io0 ready0 io' ready' : List ℕ)
    → io ≡ io0
    → ready ≡ ready0
    → Woken w io ready io' ready'
    → Woken w io0 ready0 io' ready'
as_before w io ready io0 ready0 io' ready' e f h = rw (← e, ← f) h

wake-Woken :
    (w : ℕ) (is_timer : Bool) (s : Scheduler)
    → Queues s.io s.ready
    → Woken w s.io s.ready (wake (w, is_timer) s).io (wake (w, is_timer) s).ready
unfolding wake
wake-Woken w false s q = resume-Woken w false s q
wake-Woken w true s q =
    as_before w (stop_timer w s).io (stop_timer w s).ready s.io s.ready
      (resume w true (stop_timer w s)).io (resume w true (stop_timer w s)).ready (stop_timer-io w s)
      (stop_timer-ready w s)
      (resume-Woken w true (stop_timer w s) (rw (stop_timer-io w s, stop_timer-ready w s) q))

and_not : (a b r : Bool) → ((a && not b) && not r) ≡ (a && not (b || r))
and_not true true r = refl
and_not true false r = refl
and_not false b r = refl

or_and : (p a b r : Bool) → ((p || a && b) || (a && not b) && r) ≡ (p || a && (b || r))
or_and true a b r = refl
or_and false true true r = refl
or_and false true false r = refl
or_and false false b r = refl

-- A batch of events keeps every task in one place of one queue at most, however often the poller
-- reports a task; exactly the parked tasks that it reports become ready, and the others stay as
-- they are.
pub wake_all-Queues :
    (events : List (ℕ × Bool)) (s : Scheduler)
    → Queues s.io s.ready
    → Queues (wake_all events s).io (wake_all events s).ready
      × ((t : ℕ)
          → (linked t (wake_all events s).io ≡ (linked t s.io && not (reported t events)))
            × (linked t (wake_all events s).ready
                ≡ (linked t s.ready || linked t s.io && reported t events)))
unfolding wake_all reported
wake_all-Queues [] s q = (
  q,
  λ t. (
    sym (and_true (linked t s.io)),
    sym (
        ap (λ b. linked t s.ready || b) (and_false (linked t s.io))
        ∙ or_nothing (linked t s.ready)),
  ),
)
wake_all-Queues ((w, is_timer) ∷ events) s q =
    let woken = wake-Woken w is_timer s q in
    let (q', each) = wake_all-Queues events (wake (w, is_timer) s) woken.queues in
    (
      q',
      λ t. (
        (each t).0
            ∙ (ap (λ b. b && not (reported t events)) (woken.io_of t)
                ∙ and_not (linked t s.io) (w == t) (reported t events)),
        (each t).1
            ∙ (ap (λ b. b || linked t (wake (w, is_timer) s).io && reported t events)
                  (woken.ready_of t)
                ∙ (ap (λ b. (linked t s.ready || linked t s.io && w == t) || b && reported t events)
                      (woken.io_of t)
                    ∙ or_and (linked t s.ready) (linked t s.io) (w == t) (reported t events))),
      ),
    )
