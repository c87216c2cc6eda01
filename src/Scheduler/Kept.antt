-- ===== src/Scheduler/Kept.antt =====
-- What dropping a parked task changes: its place in the list, and little else.
use sprout_lang.Prelude.{
  ℕ, Bool, true, false, ◌==◌, if◌then◌else◌, Option, none, some, List, ◌≡◌, refl, sym, ap, ◌∙◌, inl,
  inr, Bool-cases, ==_iff,
}
use sprout_lang.Prelude.Memory.{set}
use sprout_lang.Scheduler.{
  GreenTask, Scheduler, put_green, call, remove_fd, close_socket, unlink, io_list_remove,
  stop_timer,
}
use sprout_lang.Scheduler.Wakes.{stop_timer-io}
use sprout_lang.Scheduler.Drop.{
  is_park_timer, has_timer, close_parked, timer_down, fd_down, deregister, reclaim,
}

-- What dropping a task leaves as it is.
pub record Kept (s s' : Scheduler) : Type 0 where
  pub ready_kept : s'.ready ≡ s.ready
  pub current_kept : s'.current ≡ s.current
  pub scope_kept : (x : ℕ) → (s'.tasks x).scope ≡ (s.tasks x).scope
  pub awaiter_kept : (x : ℕ) → (s'.tasks x).awaiter ≡ (s.tasks x).awaiter
  pub child_kept : (x : ℕ) → (s'.tasks x).deadline_child ≡ (s.tasks x).deadline_child

pub Kept-nothing : (s : Scheduler) → Kept s s
Kept-nothing s = record {
  ready_kept = refl;
  current_kept = refl;
  scope_kept = λ x. refl;
  awaiter_kept = λ x. refl;
  child_kept = λ x. refl;
}

pub Kept-trans : (s s' s'' : Scheduler) → Kept s s' → Kept s' s'' → Kept s s''
Kept-trans s s' s'' h k = record {
  ready_kept = k.ready_kept ∙ h.ready_kept;
  current_kept = k.current_kept ∙ h.current_kept;
  scope_kept = λ x. k.scope_kept x ∙ h.scope_kept x;
  awaiter_kept = λ x. k.awaiter_kept x ∙ h.awaiter_kept x;
  child_kept = λ x. k.child_kept x ∙ h.child_kept x;
}

kept_field :
    {A : Type 0} (f : GreenTask → A) (tasks : ℕ → GreenTask) (t x : ℕ) (k : GreenTask)
    → f k ≡ f (tasks t)
    → f (set tasks t k x) ≡ f (tasks x)
kept_field f tasks t x k e = elim (Bool-cases (x == t)) [
  | inl at ↦ rw at (e ∙ ap (λ y. f (tasks y)) (sym ((==_iff x t).0 at)))
  | inr other ↦ rw other
]

-- A change of a task's other fields.
Kept-put_green :
    (t : ℕ) (k : GreenTask) (s : Scheduler)
    → k.scope ≡ (s.tasks t).scope
    → k.awaiter ≡ (s.tasks t).awaiter
    → k.deadline_child ≡ (s.tasks t).deadline_child
    → Kept s (put_green t k s)
Kept-put_green t k s a b c = record {
  ready_kept = refl;
  current_kept = refl;
  scope_kept = λ x. kept_field (λ g. g.scope) s.tasks t x k a;
  awaiter_kept = λ x. kept_field (λ g. g.awaiter) s.tasks t x k b;
  child_kept = λ x. kept_field (λ g. g.deadline_child) s.tasks t x k c;
}

Kept-stop_timer : (t : ℕ) (s : Scheduler) → Kept s (stop_timer t s)
unfolding stop_timer
Kept-stop_timer t s = elim (Bool-cases (s.tasks t).timer_dead) [
  | inl e ↦ rw e (Kept-nothing s)
  | inr e ↦
      let k = Kept-put_green t (record (s.tasks t) { timer_dead = true }) s refl refl refl in
      rw e (record {
        ready_kept = refl;
        current_kept = refl;
        scope_kept = k.scope_kept;
        awaiter_kept = k.awaiter_kept;
        child_kept = k.child_kept;
      })
]

-- The registrations of a task are taken down in four steps; each leaves the rest.
Kept-if : (b : Bool) (s x y : Scheduler) → Kept s x → Kept s y → Kept s (if b then x else y)
Kept-if true s x y h k = h
Kept-if false s x y h k = k

io-if :
    (b : Bool) (x y : Scheduler) (io : List ℕ)
    → x.io ≡ io
    → y.io ≡ io
    → (if b then x else y).io ≡ io
io-if true x y io h k = h
io-if false x y io h k = k

Kept-timer_down : (t : ℕ) (s : Scheduler) → Kept s (timer_down t s)
Kept-timer_down t s =
    Kept-if (has_timer (s.tasks t).park_kind) s (stop_timer t s) s (Kept-stop_timer t s)
      (Kept-nothing s)

pub Kept-same :
    (s s' : Scheduler)
    → s'.ready ≡ s.ready
    → s'.current ≡ s.current
    → s'.tasks ≡ s.tasks
    → Kept s s'
Kept-same s s' a b c = record {
  ready_kept = a;
  current_kept = b;
  scope_kept = λ x. ap (λ f. (f x).scope) c;
  awaiter_kept = λ x. ap (λ f. (f x).awaiter) c;
  child_kept = λ x. ap (λ f. (f x).deadline_child) c;
}

Kept-fd_down : (task : GreenTask) (s : Scheduler) → Kept s (fd_down task s)
Kept-fd_down task s =
    Kept-if (is_park_timer task.park_kind) s s (call (remove_fd task.fd task.interest) s)
      (Kept-nothing s) (Kept-same s (call (remove_fd task.fd task.interest) s) refl refl refl)

Kept-io_list_remove : (t : ℕ) (s : Scheduler) → Kept s (io_list_remove t s)
unfolding io_list_remove
Kept-io_list_remove t s = Kept-same s (io_list_remove t s) refl refl refl

Kept-close_parked : (fd : Option ℕ) (s : Scheduler) → Kept s (close_parked fd s)
unfolding close_parked
Kept-close_parked none s = Kept-nothing s
Kept-close_parked (some fd) s = Kept-same s (call (close_socket fd) s) refl refl refl

close_parked-io : (fd : Option ℕ) (s : Scheduler) → (close_parked fd s).io ≡ s.io
unfolding close_parked
close_parked-io none s = refl
close_parked-io (some fd) s = refl

Kept-deregister : (t : ℕ) (s : Scheduler) → Kept s (deregister t s)
unfolding deregister
Kept-deregister t s =
    let s1 = timer_down t s in
    let s2 = fd_down (s.tasks t) s1 in
    let s3 = io_list_remove t s2 in
    Kept-trans s s1 (close_parked (s.tasks t).close_fd s3) (Kept-timer_down t s) (
      Kept-trans s1 s2 (close_parked (s.tasks t).close_fd s3) (Kept-fd_down (s.tasks t) s1) (
        Kept-trans s2 s3 (close_parked (s.tasks t).close_fd s3) (Kept-io_list_remove t s2)
          (Kept-close_parked (s.tasks t).close_fd s3)))

deregister-io : (t : ℕ) (s : Scheduler) → (deregister t s).io ≡ unlink t s.io
unfolding deregister io_list_remove
deregister-io t s =
    let s1 = timer_down t s in
    let s2 = fd_down (s.tasks t) s1 in
    let timer =
      io-if (has_timer (s.tasks t).park_kind) (stop_timer t s) s s.io (stop_timer-io t s) refl in
    let fd =
      io-if (is_park_timer (s.tasks t).park_kind) s1
        (call (remove_fd (s.tasks t).fd (s.tasks t).interest) s1) s1.io refl refl in
    close_parked-io (s.tasks t).close_fd (io_list_remove t s2) ∙ ap (unlink t) (fd ∙ timer)

pub Kept-reclaim : (t : ℕ) (s : Scheduler) → Kept s (reclaim t s)
unfolding reclaim
Kept-reclaim t s =
    let s' = deregister t s in
    let k = record (s'.tasks t) { close_fd = none; dropped = true } in
    let c = (s.tasks t).scope in
    Kept-trans s s' (reclaim t s) (Kept-deregister t s) (
      Kept-trans s' (put_green t k s') (reclaim t s) (Kept-put_green t k s' refl refl refl)
        (Kept-same (put_green t k s') (reclaim t s) refl refl refl))

pub reclaim-io : (t : ℕ) (s : Scheduler) → (reclaim t s).io ≡ unlink t s.io
unfolding reclaim
reclaim-io t s = deregister-io t s
