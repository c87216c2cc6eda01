-- ===== src/Scheduler.antt =====
-- runtime/sprout_scheduler.c: the ready queue, the tasks parked in the poller, and scopes:
-- io_list_push to rq_pop, pump_loop, task_trampoline, task_create to task_yield and __scope_join.
--
-- A task or a scope is a number. A list linked through the tasks is the list of the numbers from
-- its head, and the flags `on_io_list` and `in_rq`, which the list operations keep, are tests of
-- membership. What a task does between two parks is not modelled; an operation that parks ends
-- there. The calls of the poller and of close are kept, the newest first.
pub mod Queues
pub mod Wakes
pub mod Finish
pub mod Rounds
pub mod Drop
pub mod Kept
pub mod Reclaim
pub mod Mine
pub mod Walk
pub mod Cancel
mod Examples
use mathlib.Core.Bool.{not}
use sprout_lang.Prelude.{
  ℕ, ◌+◌, ◌-◌, Bool, true, false, ◌||◌, ltb, ◌==◌, if◌then◌else◌, Option, none, some, List, [], ◌∷◌,
  ◌++◌, Outcome, ok, fail,
}
use sprout_lang.Prelude.Memory.{set}

pub data ParkKind : Type 0 where
  park_none : ParkKind
  park_fd : ParkKind
  park_timer : ParkKind
  park_chan : ParkKind
  park_select : ParkKind
  park_fd_timer : ParkKind

pub data Reason : Type 0 where
  reason_none : Reason
  reason_cancelled : Reason
  reason_timed_out : Reason

pub record GreenTask : Type 0 where
  pub scope : ℕ
  pub awaitable : Bool
  pub done : Bool
  pub dropped : Bool
  pub awaiter : Option ℕ
  pub park_kind : ParkKind
  pub fd : Option ℕ
  pub interest : ℕ
  pub close_fd : Option ℕ
  pub timer_id : ℕ
  pub timer_dead : Bool
  pub woke_by_timer : Bool
  pub deadline_child : Option ℕ

pub record TaskScope : Type 0 where
  pub live : ℕ
  pub waiter : Option ℕ
  pub forks : List ℕ
  pub reason : Reason
  pub owner : ℕ

pub data PollCall : Type 0 where
  remove_timer : ℕ → PollCall
  remove_fd : Option ℕ → ℕ → PollCall
  close_socket : ℕ → PollCall

pub record Scheduler : Type 0 where
  pub tasks : ℕ → GreenTask
  pub scopes : ℕ → TaskScope
  pub io : List ℕ
  pub ready : List ℕ
  pub current : ℕ
  pub calls : List PollCall

abbrev pub put_green : ℕ → GreenTask → Scheduler → Scheduler
put_green t k s = record s { tasks = set s.tasks t k }

abbrev pub put_scope : ℕ → TaskScope → Scheduler → Scheduler
put_scope c k s = record s { scopes = set s.scopes c k }

abbrev pub call : PollCall → Scheduler → Scheduler
call c s = record s { calls = c ∷ s.calls }

-- Whether a task is linked into a list.
unfoldable pub linked : ℕ → List ℕ → Bool
linked t [] = false
linked t (x ∷ xs) = x == t || linked t xs

unfoldable pub unlink : ℕ → List ℕ → List ℕ
unlink t [] = []
unlink t (x ∷ xs) = let rest = unlink t xs in if x == t then xs else x ∷ rest

unfoldable pub io_list_push : ℕ → Scheduler → Scheduler
io_list_push t s = record s { io = t ∷ s.io }

unfoldable pub io_list_remove : ℕ → Scheduler → Scheduler
io_list_remove t s = record s { io = unlink t s.io }

unfoldable pub run_later : ℕ → Scheduler → Scheduler
run_later t s = record s { ready = s.ready ++ (t ∷ []) }

-- Take down the timer of a task, if it is not spent.
unfoldable pub stop_timer : ℕ → Scheduler → Scheduler
stop_timer t s =
    let task = s.tasks t in
    if task.timer_dead
    then s
    else call (remove_timer task.timer_id) (put_green t (record task { timer_dead = true }) s)

-- A task that the poller reported becomes ready, unless an event before has woken it.
unfoldable pub resume : ℕ → Bool → Scheduler → Scheduler
resume w is_timer s =
    if not (linked w s.io)
    then s
    else run_later w (
        put_green w
          (record (s.tasks w) {
            woke_by_timer = is_timer;
            park_kind = park_none;
            fd = none;
            close_fd = none;
          })
          (io_list_remove w s))

-- One event of the poller: its task, and whether a timer fired.
unfoldable pub wake : ℕ × Bool → Scheduler → Scheduler
wake (w, is_timer) s = resume w is_timer (if is_timer then stop_timer w s else s)

unfoldable pub wake_all : List (ℕ × Bool) → Scheduler → Scheduler
wake_all [] s = s
wake_all (event ∷ events) s = wake_all events (wake event s)

abbrev pub is_empty : List ℕ → Bool
is_empty [] = true
is_empty (t ∷ ts) = false

abbrev pub next_task : List (ℕ × Bool) → Scheduler → List ℕ → Outcome Scheduler
next_task events s (t ∷ rest) = ok (record s { ready = rest; current = t })
next_task events s [] =
    if is_empty s.io
    then fail "scheduler: deadlock — tasks parked with no way to make progress"
    else ok (wake_all events s)

-- A round of the pump: it runs the next task, or waits in the poller, which reports `events`.
unfoldable pub pump_round : List (ℕ × Bool) → Scheduler → Outcome Scheduler
pump_round events s = next_task events s s.ready

abbrev pub waits_for : Option ℕ → ℕ → Bool
waits_for none t = false
waits_for (some child) t = child == t

-- What the end of a task does to its awaiter.
unfoldable pub wake_awaiter : ℕ → Option ℕ → Scheduler → Scheduler
wake_awaiter t none s = s
wake_awaiter t (some aw) s =
    if linked aw s.io
    then (let s' = io_list_remove aw (stop_timer aw s) in
        run_later aw (put_green aw (record (s'.tasks aw) { park_kind = park_none }) s'))
    else if waits_for (s.tasks aw).deadline_child t
    then s
    else run_later aw s

abbrev pub wake_joiner : ℕ → TaskScope → Option ℕ → Scheduler → Scheduler
wake_joiner c k none s = s
wake_joiner c k (some joiner) s =
    if k.live == 0 then put_scope c (record k { waiter = none }) (run_later joiner s) else s

unfoldable pub leave_scope : ℕ → Scheduler → Scheduler
leave_scope c s =
    let k = s.scopes c in
    let k' = record k { live = k.live - 1 } in wake_joiner c k' k.waiter (put_scope c k' s)

-- The end of the current task, when its body has returned.
unfoldable pub task_trampoline : Scheduler → Scheduler
task_trampoline s =
    let t = s.current in
    let task = s.tasks t in
    leave_scope task.scope
      (wake_awaiter t task.awaiter (put_green t (record task { done = true; awaiter = none }) s))

abbrev pub new_task : ℕ → Bool → GreenTask
new_task c awaitable = record {
  scope = c;
  awaitable = awaitable;
  done = false;
  dropped = false;
  awaiter = none;
  park_kind = park_none;
  fd = none;
  interest = 0;
  close_fd = none;
  timer_id = 0;
  timer_dead = false;
  woke_by_timer = false;
  deadline_child = none;
}

-- `t` is the record that malloc returns.
unfoldable pub task_create : ℕ → ℕ → Bool → Scheduler → Scheduler
task_create t c awaitable s =
    let k = s.scopes c in
    put_scope c (record k { live = k.live + 1 })
      (run_later t (put_green t (new_task c awaitable) s))

unfoldable pub __scope_spawn : ℕ → ℕ → Scheduler → Scheduler
__scope_spawn t c s = task_create t c false s

unfoldable pub __task_fork : ℕ → ℕ → Scheduler → Scheduler
__task_fork t c s =
    let s' = task_create t c true s in
    put_scope c (record (s'.scopes c) { forks = t ∷ (s'.scopes c).forks }) s'

unfoldable pub __task_await : ℕ → Scheduler → Outcome Scheduler
__task_await t s =
    let task = s.tasks t in
    if task.dropped
    then fail
        "__task_await: awaiting a task dropped by scope_cancel (a cancelled task produces no result)"
    else if task.done
    then ok s
    else ok (put_green t (record task { awaiter = some s.current }) s)

unfoldable pub task_yield : Scheduler → Scheduler
task_yield s = run_later s.current s

-- Park the joiner of a scope with live tasks.
unfoldable pub __scope_join : ℕ → Scheduler → Scheduler
__scope_join c s =
    let k = s.scopes c in
    if ltb 0 k.live then put_scope c (record k { waiter = some s.current }) s else s
