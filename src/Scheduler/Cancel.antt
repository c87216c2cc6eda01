-- ===== src/Scheduler/Cancel.antt =====
-- cancel_parked on the tasks that are parked in the poller.
use mathlib.Core.Bool.{not}
use sprout_lang.Prelude.{
  ℕ, ◌-◌, if◌then◌else◌, arith, Bool, true, false, ◌&&◌, ◌==◌, ◌≡◌, refl, ◌∙◌, ==_iff, ok,
}
use sprout_lang.Scheduler.{Scheduler, put_scope, reason_cancelled, linked}
use sprout_lang.Scheduler.Queues.{NoTwice}
use sprout_lang.Scheduler.Drop.{mine, cancel_parked}
use sprout_lang.Scheduler.Reclaim.{torn_down}
use sprout_lang.Scheduler.Kept.{Kept-same}
use sprout_lang.Scheduler.Mine.{
  count_mine, teardown_all, SameOn, count_mine-SameOn, teardown_all-SameOn,
}
use sprout_lang.Scheduler.Walk.{Droppable, Droppable-Kept, drop_mine-Walked}

abbrev cancelled : ℕ → Scheduler → Scheduler
cancelled c s = put_scope c (record (s.scopes c) { reason = reason_cancelled }) s

and_self : (a m : Bool) → (a && not (a && m)) ≡ (a && not m)
and_self true m = refl
and_self false m = refl

-- When the owner of a scope cancels it, no other task waits for a task of the scope that is parked
-- in the poller, and none of those has a deadline over a body, the walk over the poller's tasks
-- ends without an abort. Exactly the tasks of the scope, the owner aside, are dropped by it: they
-- leave the list of the poller's tasks, their records are torn down and all others are as they
-- were, the scope has so many live tasks less, their registrations are taken down in the order of
-- the list, and the ready queue is as it was.
pub cancel_parked_lem :
    (c : ℕ) (s : Scheduler)
    → s.current ≡ (s.scopes c).owner
    → NoTwice s.io
    → ((t : ℕ) → linked t s.io ≡ true → mine c s t ≡ true → Droppable s t)
    → (s' : Scheduler) × (cancel_parked c s ≡ ok s')
      × (s'.ready ≡ s.ready)
      × ((t : ℕ) → linked t s'.io ≡ (linked t s.io && not (mine c s t)))
      × ((t : ℕ)
          → s'.tasks t ≡ (if linked t s.io && mine c s t then torn_down (s.tasks t) else s.tasks t))
      × ((s'.scopes c).live ≡ (s.scopes c).live - count_mine c s s.io)
      × (s'.calls ≡ teardown_all c s s.io s.calls)
unfolding cancel_parked
cancel_parked_lem c s owner once d =
    let s0 = cancelled c s in
    let k = Kept-same s s0 refl refl refl in
    let own : (s.current == (s.scopes c).owner) ≡ true =
      (==_iff s.current (s.scopes c).owner).1 owner in
    let (s', run, w) =
      drop_mine-Walked c s.io s0 once once
        (λ t t_in t_own. Droppable-Kept s s0 t k (d t t_in t_own)) in
    let same : SameOn s.io s s0 = λ x x_in. refl in
    let live : (s0.scopes c).live ≡ (s.scopes c).live = rw ((==_iff c c).1 refl) in
    (
      s',
      rw own run,
      w.kept.ready_kept,
      λ t. w.io_of t ∙ and_self (linked t s.io) (mine c s t),
      w.tasks_of,
      omega (arith, w.live_of, live, count_mine-SameOn c s.io s s0 refl same),
      w.calls_of ∙ teardown_all-SameOn c s.io s s0 s.calls refl same,
    )
