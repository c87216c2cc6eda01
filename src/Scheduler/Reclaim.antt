-- ===== src/Scheduler/Reclaim.antt =====
-- What dropping a parked task does: to its record, to its scope, and with the poller.
use sprout_lang.Prelude.{
  ℕ, ◌-◌, Bool, true, false, ◌||◌, ◌==◌, if◌then◌else◌, Option, none, some, List, [], ◌∷◌, ◌++◌,
  ◌≡◌, refl, ap, ◌∙◌, inl, inr, Bool-cases, ==_iff,
}
use sprout_lang.Scheduler.{
  GreenTask, PollCall, remove_timer, remove_fd, close_socket, Scheduler, call, io_list_remove,
  stop_timer,
}
use sprout_lang.Scheduler.Drop.{
  is_park_timer, has_timer, close_parked, timer_down, fd_down, deregister, reclaim,
}

-- The record of a task that was dropped.
abbrev pub torn_down : GreenTask → GreenTask
torn_down task = record task {
  timer_dead = has_timer task.park_kind || task.timer_dead;
  close_fd = none;
  dropped = true;
}

abbrev timer_calls : GreenTask → List PollCall
timer_calls task =
    if has_timer task.park_kind
    then (if task.timer_dead then [] else remove_timer task.timer_id ∷ [])
    else []

abbrev fd_calls : GreenTask → List PollCall
fd_calls task = if is_park_timer task.park_kind then [] else remove_fd task.fd task.interest ∷ []

abbrev close_calls : Option ℕ → List PollCall
close_calls none = []
close_calls (some fd) = close_socket fd ∷ []

-- The calls that take down what a task is registered for, in front of the older ones: its timer is
-- removed if it runs, then its descriptor, and then the one that only it knows is closed.
abbrev pub teardown : GreenTask → List PollCall → List PollCall
teardown task older = close_calls task.close_fd ++ (fd_calls task ++ (timer_calls task ++ older))

field-if :
    {A : Type 0} (f : Scheduler → A) (b : Bool) (x y : Scheduler) (v : A)
    → f x ≡ v
    → f y ≡ v
    → f (if b then x else y) ≡ v
field-if f true x y v h k = h
field-if f false x y v h k = k

stop_timer-scopes : (t : ℕ) (s : Scheduler) → (stop_timer t s).scopes ≡ s.scopes
unfolding stop_timer
stop_timer-scopes t s = field-if (λ z. z.scopes) (s.tasks t).timer_dead _ _ s.scopes refl refl

timer_down-scopes : (t : ℕ) (s : Scheduler) → (timer_down t s).scopes ≡ s.scopes
timer_down-scopes t s =
    field-if (λ z. z.scopes) (has_timer (s.tasks t).park_kind) (stop_timer t s) s s.scopes
      (stop_timer-scopes t s) refl

fd_down-scopes : (task : GreenTask) (s : Scheduler) → (fd_down task s).scopes ≡ s.scopes
fd_down-scopes task s =
    field-if (λ z. z.scopes) (is_park_timer task.park_kind) s
      (call (remove_fd task.fd task.interest) s) s.scopes refl refl

fd_down-tasks : (task : GreenTask) (s : Scheduler) → (fd_down task s).tasks ≡ s.tasks
fd_down-tasks task s =
    field-if (λ z. z.tasks) (is_park_timer task.park_kind) s
      (call (remove_fd task.fd task.interest) s) s.tasks refl refl

close_parked-tasks : (fd : Option ℕ) (s : Scheduler) → (close_parked fd s).tasks ≡ s.tasks
unfolding close_parked
close_parked-tasks none s = refl
close_parked-tasks (some fd) s = refl

close_parked-scopes : (fd : Option ℕ) (s : Scheduler) → (close_parked fd s).scopes ≡ s.scopes
unfolding close_parked
close_parked-scopes none s = refl
close_parked-scopes (some fd) s = refl

deregister-tasks : (t : ℕ) (s : Scheduler) → (deregister t s).tasks ≡ (timer_down t s).tasks
unfolding deregister io_list_remove
deregister-tasks t s =
    close_parked-tasks (s.tasks t).close_fd _ ∙ fd_down-tasks (s.tasks t) (timer_down t s)

deregister-scopes : (t : ℕ) (s : Scheduler) → (deregister t s).scopes ≡ s.scopes
unfolding deregister io_list_remove
deregister-scopes t s =
    close_parked-scopes (s.tasks t).close_fd _
    ∙ (fd_down-scopes (s.tasks t) (timer_down t s) ∙ timer_down-scopes t s)

stop_timer-here :
    (t : ℕ) (s : Scheduler) → (stop_timer t s).tasks t ≡ record (s.tasks t) { timer_dead = true }
unfolding stop_timer
stop_timer-here t s = elim (Bool-cases (s.tasks t).timer_dead) [
  | inl e ↦ rw e (ap (λ d. record (s.tasks t) { timer_dead = d }) e)
  | inr e ↦ rw (e, (==_iff t t).1 refl)
]

timer_down-here :
    (t : ℕ) (s : Scheduler)
    → (timer_down t s).tasks t ≡ record (s.tasks t) {
      timer_dead = has_timer (s.tasks t).park_kind || (s.tasks t).timer_dead;
    }
timer_down-here t s = elim (Bool-cases (has_timer (s.tasks t).park_kind)) [
  | inl e ↦ rw e (stop_timer-here t s)
  | inr e ↦ rw e
]

timer_down-there :
    (t x : ℕ) (s : Scheduler) → (x == t) ≡ false → (timer_down t s).tasks x ≡ s.tasks x
unfolding stop_timer
timer_down-there t x s other =
    field-if (λ z. z.tasks x) (has_timer (s.tasks t).park_kind) (stop_timer t s) s (s.tasks x)
      (field-if (λ z. z.tasks x) (s.tasks t).timer_dead _ _ (s.tasks x) refl (rw other)) refl

abbrev marked : GreenTask → GreenTask
marked task = record task { close_fd = none; dropped = true }

pub reclaim-here : (t : ℕ) (s : Scheduler) → (reclaim t s).tasks t ≡ torn_down (s.tasks t)
unfolding reclaim
reclaim-here t s =
    rw ((==_iff t t).1 refl)
      (ap marked (ap (λ f. f t) (deregister-tasks t s) ∙ timer_down-here t s))

pub reclaim-there : (t x : ℕ) (s : Scheduler) → (x == t) ≡ false → (reclaim t s).tasks x ≡ s.tasks x
unfolding reclaim
reclaim-there t x s other =
    rw other (ap (λ f. f x) (deregister-tasks t s) ∙ timer_down-there t x s other)

pub reclaim-live :
    (t c : ℕ) (s : Scheduler)
    → (s.tasks t).scope ≡ c
    → ((reclaim t s).scopes c).live ≡ (s.scopes c).live - 1
unfolding reclaim
reclaim-live t c s e =
    rw (e, (==_iff c c).1 refl) (ap (λ f. (f c).live - 1) (deregister-scopes t s))

timer_down-calls :
    (t : ℕ) (s : Scheduler) → (timer_down t s).calls ≡ timer_calls (s.tasks t) ++ s.calls
unfolding stop_timer
timer_down-calls t s = elim (Bool-cases (has_timer (s.tasks t).park_kind)) [
  | inl e ↦ elim (Bool-cases (s.tasks t).timer_dead) [ inl d ↦ rw (e, d) | inr d ↦ rw (e, d) ]
  | inr e ↦ rw e
]

fd_down-calls :
    (task : GreenTask) (s : Scheduler) → (fd_down task s).calls ≡ fd_calls task ++ s.calls
fd_down-calls task s = elim (Bool-cases (is_park_timer task.park_kind)) [
  | inl e ↦ rw e
  | inr e ↦ rw e
]

close_parked-calls :
    (fd : Option ℕ) (s : Scheduler) → (close_parked fd s).calls ≡ close_calls fd ++ s.calls
unfolding close_parked
close_parked-calls none s = refl
close_parked-calls (some fd) s = refl

pub reclaim-calls : (t : ℕ) (s : Scheduler) → (reclaim t s).calls ≡ teardown (s.tasks t) s.calls
unfolding reclaim deregister io_list_remove
reclaim-calls t s =
    let task = s.tasks t in
    close_parked-calls task.close_fd _
    ∙ ap (λ z. close_calls task.close_fd ++ z)
        (fd_down-calls task (timer_down t s) ∙ ap (λ z. fd_calls task ++ z) (timer_down-calls t s))
