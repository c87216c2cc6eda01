-- ===== src/Scheduler/Drop.antt =====
-- runtime/sprout_scheduler.c: the tasks that are parked in the poller, in force_drop_task and
-- __scope_cancel. `force_drop_parked` is what force_drop_task does with such a task;
-- `cancel_parked` is __scope_cancel as far as the end of its first walk, over the tasks in the
-- poller. The walk over the wait queues of the channels behind it, which can still abort, is not
-- modelled.
--
-- The record of a dropped task stays, marked; what is freed, also by the hook of a builtin, is not
-- modelled.
use mathlib.Core.Bool.{not}
use sprout_lang.Prelude.{
  ℕ, ◌-◌, Bool, true, false, ◌&&◌, ◌==◌, if◌then◌else◌, Option, none, some, List, [], ◌∷◌, Outcome,
  ok, fail, ◌>>=◌,
}
use sprout_lang.Scheduler.{
  ParkKind, park_timer, park_fd_timer, reason_cancelled, GreenTask, Scheduler, remove_fd,
  close_socket, call, put_green, put_scope, io_list_remove, stop_timer,
}

abbrev pub awaited_by_other : Option ℕ → ℕ → Bool
awaited_by_other none current = false
awaited_by_other (some aw) current = not (aw == current)

abbrev pub has_child : Option ℕ → Bool
has_child none = false
has_child (some child) = true

abbrev pub is_park_timer : ParkKind → Bool
is_park_timer park_timer = true
is_park_timer _ = false

abbrev pub has_timer : ParkKind → Bool
has_timer park_timer = true
has_timer park_fd_timer = true
has_timer _ = false

-- Close the descriptor that only the parked task knows.
unfoldable pub close_parked : Option ℕ → Scheduler → Scheduler
close_parked none s = s
close_parked (some fd) s = call (close_socket fd) s

abbrev pub timer_down : ℕ → Scheduler → Scheduler
timer_down t s = if has_timer (s.tasks t).park_kind then stop_timer t s else s

abbrev pub fd_down : GreenTask → Scheduler → Scheduler
fd_down task s =
    if is_park_timer task.park_kind then s else call (remove_fd task.fd task.interest) s

unfoldable pub deregister : ℕ → Scheduler → Scheduler
deregister t s =
    close_parked (s.tasks t).close_fd (io_list_remove t (fd_down (s.tasks t) (timer_down t s)))

unfoldable pub reclaim : ℕ → Scheduler → Scheduler
reclaim t s =
    let c = (s.tasks t).scope in
    let s' = deregister t s in
    let k = s'.scopes c in
    put_scope c (record k { live = k.live - 1 })
      (put_green t (record (s'.tasks t) { close_fd = none; dropped = true }) s')

unfoldable pub force_drop_parked : ℕ → Scheduler → Outcome Scheduler
force_drop_parked t s =
    if awaited_by_other (s.tasks t).awaiter s.current
    then fail
        "force_drop_task: cannot drop a task awaited by a sibling — await only from the scope owner"
    else if has_child (s.tasks t).deadline_child
    then fail
        "with_timeout: cannot time out / cancel a body blocked inside with_timeout — deadline/cancel nesting cascade is deferred"
    else ok (reclaim t s)

-- A task of the scope other than the one that cancels it.
abbrev pub mine : ℕ → Scheduler → ℕ → Bool
mine c s t = (s.tasks t).scope == c && not (t == s.current)

unfoldable pub drop_mine : ℕ → List ℕ → Scheduler → Outcome Scheduler
drop_mine c [] s = ok s
drop_mine c (t ∷ ts) s =
    let kept = drop_mine c ts s in
    if mine c s t then force_drop_parked t s >>= drop_mine c ts else kept

unfoldable pub cancel_parked : ℕ → Scheduler → Outcome Scheduler
cancel_parked c s =
    if not (s.current == (s.scopes c).owner)
    then fail "__scope_cancel: only the scope's owning task may cancel it"
    else drop_mine c s.io (put_scope c (record (s.scopes c) { reason = reason_cancelled }) s)
