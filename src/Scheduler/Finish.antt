-- ===== src/Scheduler/Finish.antt =====
-- The end of a task: task_trampoline after the body has returned.
use sprout_lang.Prelude.{
  ℕ, ◌-◌, Bool, true, false, ◌||◌, ◌==◌, Option, none, some, List, [], ◌∷◌, ◌++◌, ◌≡◌, refl, sym,
  ap, ◌∙◌, inl, inr, Bool-cases, ==_iff, arith,
}
use sprout_lang.Scheduler.{
  TaskScope, Scheduler, put_green, put_scope, linked, run_later, io_list_remove, stop_timer,
  waits_for, wake_awaiter, wake_joiner, leave_scope, task_trampoline,
}
use sprout_lang.Scheduler.Queues.{
  Queues, Queues-move, Queues-run_later, linked-snoc, unlink-linked, linked-unlink,
}
use sprout_lang.Scheduler.Wakes.{stop_timer-io, stop_timer-ready}

-- The queues `io` and `ready` when `aw` was woken, if they were `io0` and `ready0`.
record Awake (aw : ℕ) (io0 ready0 io ready : List ℕ) : Type 0 where
  pub queues : Queues io ready
  is_ready : linked aw ready ≡ true
  unparked : linked aw io ≡ false
  others_io : (t : ℕ) → (aw == t) ≡ false → linked t io ≡ linked t io0
  others_ready : (t : ℕ) → (aw == t) ≡ false → linked t ready ≡ linked t ready0

or_true : (a : Bool) → (a || true) ≡ true
or_true true = refl
or_true false = refl

or_false : (a : Bool) → (a || false) ≡ a
or_false true = refl
or_false false = refl

other-snoc : (t w : ℕ) (xs : List ℕ) → (w == t) ≡ false → linked t (xs ++ (w ∷ [])) ≡ linked t xs
other-snoc t w xs other =
    linked-snoc t w xs ∙ (ap (λ b. linked t xs || b) other ∙ or_false (linked t xs))

linked-last : (t : ℕ) (xs : List ℕ) → linked t (xs ++ (t ∷ [])) ≡ true
linked-last t xs =
    linked-snoc t t xs ∙ (ap (λ b. linked t xs || b) ((==_iff t t).1 refl) ∙ or_true (linked t xs))

wake_awaiter-Awake :
    (t aw : ℕ) (s : Scheduler)
    → Queues s.io s.ready
    → (linked aw s.io ≡ false → linked aw s.ready ≡ waits_for (s.tasks aw).deadline_child t)
    → Awake aw s.io s.ready (wake_awaiter t (some aw) s).io (wake_awaiter t (some aw) s).ready
unfolding wake_awaiter run_later io_list_remove
wake_awaiter-Awake t aw s q place = elim (Bool-cases (linked aw s.io)) [
  | inl parked ↦
      rw (parked, stop_timer-io aw s, stop_timer-ready aw s)
        (record {
          queues = Queues-move s.io s.ready aw q parked;
          is_ready = linked-last aw s.ready;
          unparked = unlink-linked aw s.io q.once_io;
          others_io = λ t' other. linked-unlink t' aw s.io other;
          others_ready = λ t' other. other-snoc t' aw s.ready other;
        })
  | inr out ↦ elim (Bool-cases (waits_for (s.tasks aw).deadline_child t)) [
    | inl harvested ↦
        rw (out, harvested)
          (record {
            queues = q;
            is_ready = place out ∙ harvested;
            unparked = out;
            others_io = λ t' other. refl;
            others_ready = λ t' other. refl;
          })
    | inr ordinary ↦
        rw (out, ordinary)
          (record {
            queues = Queues-run_later s.io s.ready aw q out (place out ∙ ordinary);
            is_ready = linked-last aw s.ready;
            unparked = out;
            others_io = λ t' other. refl;
            others_ready = λ t' other. other-snoc t' aw s.ready other;
          })
  ]
]

stop_timer-scopes : (t : ℕ) (s : Scheduler) → (stop_timer t s).scopes ≡ s.scopes
unfolding stop_timer
stop_timer-scopes t s = elim (Bool-cases (s.tasks t).timer_dead) [ inl e ↦ rw e | inr e ↦ rw e ]

wake_awaiter-scopes : (t aw : ℕ) (s : Scheduler) → (wake_awaiter t (some aw) s).scopes ≡ s.scopes
unfolding wake_awaiter run_later io_list_remove
wake_awaiter-scopes t aw s = elim (Bool-cases (linked aw s.io)) [
  | inl parked ↦ rw parked (stop_timer-scopes aw s)
  | inr out ↦ elim (Bool-cases (waits_for (s.tasks aw).deadline_child t)) [
    | inl harvested ↦ rw (out, harvested)
    | inr ordinary ↦ rw (out, ordinary)
  ]
]

-- The joiner of a scope is in neither queue.
abbrev pub JoinerOut : Option ℕ → List ℕ → List ℕ → Type 0
JoinerOut none io ready = Unit
JoinerOut (some j) io ready = (linked j io ≡ false) × (linked j ready ≡ false)

abbrev pub JoinerReady : Option ℕ → ℕ → List ℕ → Type 0
JoinerReady none live ready = Unit
JoinerReady (some j) live ready = live ≡ 1 → linked j ready ≡ true

-- What a task leaves: the queues, with its awaiter and the joiner that waits for it in them.
pub record Left (aw live : ℕ) (waiter : Option ℕ) (io ready : List ℕ) : Type 0 where
  pub queues : Queues io ready
  pub awaiter_ready : linked aw ready ≡ true
  pub joiner_ready : JoinerReady waiter live ready

still-linked : (t w : ℕ) (xs : List ℕ) → linked t xs ≡ true → linked t (xs ++ (w ∷ [])) ≡ true
still-linked t w xs h = linked-snoc t w xs ∙ ap (λ b. b || w == t) h

wake_joiner-Left :
    (aw c live : ℕ) (k : TaskScope) (waiter : Option ℕ) (s : Scheduler)
    → k.live ≡ live - 1
    → Queues s.io s.ready
    → linked aw s.ready ≡ true
    → JoinerOut waiter s.io s.ready
    → Left aw live waiter (wake_joiner c k waiter s).io (wake_joiner c k waiter s).ready
unfolding run_later
wake_joiner-Left aw c live k none s e q h out = record {
  queues = q;
  awaiter_ready = h;
  joiner_ready = tt;
}
wake_joiner-Left aw c live k (some j) s e q h (io_out, ready_out) =
    elim (Bool-cases (k.live == 0)) [
      | inl last ↦ rw last (record {
        queues = Queues-run_later s.io s.ready j q io_out ready_out;
        awaiter_ready = still-linked aw j s.ready h;
        joiner_ready = λ one. linked-last j s.ready;
      })
      | inr others ↦ rw others (record {
        queues = q;
        awaiter_ready = h;
        joiner_ready = λ one.
            let zero_left : k.live ≡ 0 = omega (arith, e, one) in
            let zero_test = (==_iff k.live 0).1 zero_left in cc (zero_test, others);
      })
    ]

leave_scope-Left :
    (aw c : ℕ) (s : Scheduler)
    → Queues s.io s.ready
    → linked aw s.ready ≡ true
    → JoinerOut (s.scopes c).waiter s.io s.ready
    → Left aw (s.scopes c).live (s.scopes c).waiter (leave_scope c s).io (leave_scope c s).ready
unfolding leave_scope
leave_scope-Left aw c s q h out =
    let k = record (s.scopes c) { live = (s.scopes c).live - 1 } in
    wake_joiner-Left aw c (s.scopes c).live k (s.scopes c).waiter (put_scope c k s) refl q h out

-- The joiner is another task than the awaiter.
abbrev pub OtherJoiner : ℕ → Option ℕ → Type 0
OtherJoiner aw none = Unit
OtherJoiner aw (some j) = (aw == j) ≡ false

joiner_still_out :
    (aw : ℕ) (waiter : Option ℕ) (io0 ready0 io ready : List ℕ)
    → Awake aw io0 ready0 io ready
    → OtherJoiner aw waiter
    → JoinerOut waiter io0 ready0
    → JoinerOut waiter io ready
joiner_still_out aw none io0 ready0 io ready h other out = tt
joiner_still_out aw (some j) io0 ready0 io ready h other (io_out, ready_out) =
    (h.others_io j other ∙ io_out, h.others_ready j other ∙ ready_out)

abbrev finished : ℕ → Scheduler → Scheduler
finished t s = put_green t (record (s.tasks t) { done = true; awaiter = none }) s

same_child :
    (t aw : ℕ) (s : Scheduler)
    → ((finished t s).tasks aw).deadline_child ≡ (s.tasks aw).deadline_child
same_child t aw s = elim (Bool-cases (aw == t)) [
  | inl e ↦ rw e (ap (λ x. (s.tasks x).deadline_child) (sym ((==_iff aw t).0 e)))
  | inr e ↦ rw e
]

-- What the scheduler relies on when the current task ends with the awaiter `aw`: an awaiter that
-- is not parked in the poller is ready already if and only if its deadline is over this task, and
-- the joiner of the scope is in no queue and another task.
pub record Ends (aw : ℕ) (s : Scheduler) : Type 0 where
  pub queues : Queues s.io s.ready
  pub awaited : (s.tasks s.current).awaiter ≡ some aw
  pub placed :
      linked aw s.io ≡ false → linked aw s.ready ≡ waits_for (s.tasks aw).deadline_child s.current
  pub joiner_out : JoinerOut (s.scopes (s.tasks s.current).scope).waiter s.io s.ready
  pub other_joiner : OtherJoiner aw (s.scopes (s.tasks s.current).scope).waiter

woken_awaiter :
    (aw : ℕ) (s : Scheduler)
    → Ends aw s
    → Awake aw s.io s.ready
        (wake_awaiter s.current (some aw) (finished s.current s)).io
        (wake_awaiter s.current (some aw) (finished s.current s)).ready
woken_awaiter aw s h = wake_awaiter-Awake s.current aw (finished s.current s) h.queues (λ out.
    h.placed out ∙ ap (λ child. waits_for child s.current) (sym (same_child s.current aw s)))

-- When a task with an awaiter ends, no task is twice in a queue or in both queues, the awaiter is
-- ready, and so is the joiner of the scope if this was the last task of it: each of the three ways
-- in which an awaiter waits makes it ready exactly once.
pub task_trampoline-Left :
    (aw : ℕ) (s : Scheduler)
    → Ends aw s
    → Left aw
        (s.scopes (s.tasks s.current).scope).live
        (s.scopes (s.tasks s.current).scope).waiter
        (task_trampoline s).io
        (task_trampoline s).ready
unfolding task_trampoline
task_trampoline-Left aw s h =
    let c = (s.tasks s.current).scope in
    let s' = wake_awaiter s.current (some aw) (finished s.current s) in
    let awake = woken_awaiter aw s h in
    let same = ap (λ f. f c) (wake_awaiter-scopes s.current aw (finished s.current s)) in
    let out =
      joiner_still_out aw (s.scopes c).waiter s.io s.ready s'.io s'.ready awake h.other_joiner
        h.joiner_out in
    rw (h.awaited, ← same) (leave_scope-Left aw c s' awake.queues awake.is_ready (rw same out))
