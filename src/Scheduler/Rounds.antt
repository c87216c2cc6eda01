-- ===== src/Scheduler/Rounds.antt =====
-- The rounds of pump_loop: every ready task has its turn.
use sprout_lang.Prelude.{ℕ, List, [], ◌∷◌, ◌++◌, ◌≡◌, Outcome, ok, fail, ◌>>=◌}
use sprout_lang.Scheduler.{
  Scheduler, io_list_push, run_later, pump_round, task_trampoline, __scope_spawn, __task_fork,
  __task_await, task_yield, __scope_join,
}

-- What a running task can call. `wake_task` is the rq_push of an operation of a channel, on the task
-- whose wait it ends; `park` is the push of the task onto the poller's list; `finish` is the end of the
-- task's body. Cancellations and deadlines are not among them.
pub data Operation : Type 0 where
  spawn : ℕ → ℕ → Operation
  fork : ℕ → ℕ → Operation
  await : ℕ → Operation
  join : ℕ → Operation
  wake_task : ℕ → Operation
  park : Operation
  yield : Operation
  finish : Operation

unfoldable pub perform : Operation → Scheduler → Outcome Scheduler
perform (spawn t c) s = ok (__scope_spawn t c s)
perform (fork t c) s = ok (__task_fork t c s)
perform (await t) s = __task_await t s
perform (join c) s = ok (__scope_join c s)
perform (wake_task t) s = ok (run_later t s)
perform park s = ok (io_list_push s.current s)
perform yield s = ok (task_yield s)
perform finish s = ok (task_trampoline s)

-- The turn of a task: what it calls until it parks or ends.
unfoldable pub run_turn : List Operation → Scheduler → Outcome Scheduler
run_turn [] s = ok s
run_turn (operation ∷ turn) s = perform operation s >>= run_turn turn

-- Rounds of the pump; the task that each one runs has the next of the turns.
unfoldable pub run_rounds : List (List Operation) → Scheduler → Outcome Scheduler
run_rounds [] s = ok s
run_rounds (turn ∷ turns) s = pump_round [] s >>= (λ s'. run_turn turn s' >>= run_rounds turns)

-- The ready queue of `s'` is that of `s`, with tasks behind it.
abbrev Appended : Scheduler → Scheduler → Type 0
Appended s s' = (new : List ℕ) × (s'.ready ≡ s.ready ++ new)

-- What the call of a dropped task's result says.
abbrev pub dropped_message : Outcome Scheduler
dropped_message =
    fail
      "__task_await: awaiting a task dropped by scope_cancel (a cancelled task produces no result)"

abbrev started : ℕ → List ℕ → Scheduler → Scheduler
started t rest s = record s { ready = rest; current = t }
