-- ===== src/Scheduler/Examples.antt =====
-- The theorems on the scheduler on concrete queues.
use mathlib.Core.Bool.{not}
use sprout_lang.Prelude.{
  inl, inr, Bool-cases, ℕ, Bool, true, false, ◌&&◌, ◌||◌, ◌==◌, if◌then◌else◌, some, none, List, [],
  ◌∷◌, ◌≡◌, refl, ok, arith,
}
use sprout_lang.Scheduler.{
  remove_fd, GreenTask, TaskScope, Scheduler, new_task, reason_none, linked, wake_all,
  task_trampoline,
}
use sprout_lang.Scheduler.Drop.{mine, cancel_parked}
use sprout_lang.Scheduler.Walk.{Droppable}
use sprout_lang.Scheduler.Cancel.{cancel_parked_lem}
use sprout_lang.Scheduler.Queues.{Queues}
use sprout_lang.Scheduler.Wakes.{reported, wake_all-Queues}
use sprout_lang.Scheduler.Finish.{Ends, Left, task_trampoline-Left}
use sprout_lang.Scheduler.Rounds.{Operation, yield, fork, finish}
use sprout_lang.Scheduler.Reclaim.{torn_down}

-- Task 5 runs, awaited by task 3, whose deadline over it runs; task 9 joins their scope.
abbrev some_task : ℕ → GreenTask
some_task t =
    if t == 5
    then record (new_task 0 true) { awaiter = some 3 }
    else if t == 3
    then record (new_task 1 false) { deadline_child = some 5; timer_id = 8 }
    else new_task 0 false

abbrev some_scope : ℕ → TaskScope
some_scope c = record { live = 1; waiter = some 9; forks = 5 ∷ []; reason = reason_none; owner = 9 }

abbrev two_and_two : Scheduler
two_and_two = record {
  tasks = some_task;
  scopes = some_scope;
  io = 3 ∷ 4 ∷ [];
  ready = 1 ∷ 2 ∷ [];
  current = 5;
  calls = [];
}

-- The owner of scope 2 runs and cancels it: task 3 is of the scope, task 4 is not.
abbrev cancelling : Scheduler
cancelling = record {
  tasks = λ t. if t == 3 then new_task 2 false else new_task 0 false;
  scopes = some_scope;
  io = 3 ∷ 4 ∷ [];
  ready = 1 ∷ [];
  current = 9;
  calls = [];
}

cancelling-Droppable :
    (t : ℕ) → linked t cancelling.io ≡ true → mine 2 cancelling t ≡ true → Droppable cancelling t
cancelling-Droppable t t_in t_own = elim (Bool-cases (t == 3)) [
  | inl e ↦ record { not_awaited = rw e; no_child = rw e }
  | inr e ↦ record { not_awaited = rw e; no_child = rw e }
]

cancel_parked_lem_example :
    (s' : Scheduler) × (cancel_parked 2 cancelling ≡ ok s')
    × (s'.ready ≡ cancelling.ready)
    × ((t : ℕ) → linked t s'.io ≡ (linked t cancelling.io && not (mine 2 cancelling t)))
    × ((t : ℕ)
        → s'.tasks t ≡ (
            if linked t cancelling.io && mine 2 cancelling t
            then torn_down (cancelling.tasks t)
            else cancelling.tasks t))
    × ((s'.scopes 2).live ≡ 0)
    × (s'.calls ≡ remove_fd none 0 ∷ [])
unfolding linked
cancel_parked_lem_example =
    cancel_parked_lem 2 cancelling refl (refl, (refl, tt)) cancelling-Droppable

two_and_two-Queues : Queues two_and_two.io two_and_two.ready
unfolding linked
two_and_two-Queues = record {
  once_ready = (refl, (refl, tt));
  once_io = (refl, (refl, tt));
  apart = λ t h. ground arith;
}

-- The timer and the descriptor of task 3 in one batch.
abbrev both_events : List (ℕ × Bool)
both_events = (3, true) ∷ (3, false) ∷ []

wake_all-Queues_example :
    Queues (wake_all both_events two_and_two).io (wake_all both_events two_and_two).ready
    × ((t : ℕ)
        → (linked t (wake_all both_events two_and_two).io
            ≡ (linked t two_and_two.io && not (reported t both_events)))
          × (linked t (wake_all both_events two_and_two).ready
              ≡ (linked t two_and_two.ready || linked t two_and_two.io && reported t both_events)))
wake_all-Queues_example = wake_all-Queues both_events two_and_two two_and_two-Queues

two_and_two-Ends : Ends 3 two_and_two
unfolding linked
two_and_two-Ends = record {
  queues = two_and_two-Queues;
  awaited = refl;
  placed = λ out. cc out;
  joiner_out = (refl, refl);
  other_joiner = refl;
}

task_trampoline-Left_example :
    Left 3 1 (some 9) (task_trampoline two_and_two).io (task_trampoline two_and_two).ready
task_trampoline-Left_example = task_trampoline-Left 3 two_and_two two_and_two-Ends

-- Task 1 yields, and then task 2 forks a task and ends.
abbrev two_turns : List (List Operation)
two_turns = (yield ∷ []) ∷ (fork 7 0 ∷ finish ∷ []) ∷ []

abbrev three_ready : Scheduler
three_ready = record two_and_two { ready = 1 ∷ 2 ∷ 6 ∷ [] }
