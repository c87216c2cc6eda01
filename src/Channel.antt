-- ===== src/Channel.antt =====
-- runtime/sprout_scheduler.c: the channels of the task scheduler (Chan, __chan_new to
-- __chan_select).
--
-- A task and a channel are known by a number; the system maps it to the record. A wait queue,
-- doubly linked in C, is the list of its tasks from the head. A value is a machine word, a ring
-- is its block of memory as a function of the index. `parked` holds what a task waits for, and
-- an operation that parks ends there: what the task does when it runs again is
-- `resume_send`, `resume_recv` and `resume_select`. A handle is taken for resolved, and a failed
-- allocation is left out.

pub mod Ring
pub mod Queue
pub mod Fifo
pub mod Send
pub mod Close
mod Examples
use sprout_lang.Prelude.{
  ℕ, zero, suc, ◌+◌, ◌*◌, ◌/◌, ◌%◌, Bool, true, false, ltb, ◌==◌, ◌||◌, if◌then◌else◌, List, [],
  ◌∷◌, ◌++◌, Outcome, ok, fail, ◌>>=◌,
}
use mathlib.Core.Bool.{not}
use sprout_lang.Prelude.Int.{ℤ, pos, negsuc}
pub use sprout_lang.Prelude.Memory.{set}

pub record Chan : Type 0 where
  cap : ℕ
  slots : ℕ
  count : ℕ
  head : ℕ
  tail : ℕ
  buffer : ℕ → ℕ
  senders : List ℕ
  receivers : List ℕ
  selectors : List (ℕ × ℕ)
  closed : Bool

pub data Park : Type 0 where
  running : Park
  sending : ℕ → Park
  receiving : ℕ → Park
  selecting : Park

pub record Task : Type 0 where
  chan_pending : ℕ
  chan_closed_wake : Bool
  sel_fired_index : ℕ
  sel_regs : List ℕ
  parked : Park

pub record System : Type 0 where
  chans : ℕ → Chan
  tasks : ℕ → Task
  ready : List ℕ

abbrev pub put_chan : ℕ → Chan → System → System
put_chan c ch s = record s { chans = set s.chans c ch }

abbrev pub put_task : ℕ → Task → System → System
put_task t k s = record s { tasks = set s.tasks t k }

-- A wait queue, and the ready queue, take a task at the tail.
abbrev pub chan_q_push : List ℕ → ℕ → List ℕ
chan_q_push queue t = queue ++ (t ∷ [])

abbrev pub sw_q_push : Chan → ℕ × ℕ → Chan
sw_q_push ch w = record ch { selectors = ch.selectors ++ (w ∷ []) }

abbrev pub rq_push : ℕ → System → System
rq_push t s = record s { ready = s.ready ++ (t ∷ []) }

-- Clear the park state and push on the ready queue.
unfoldable pub chan_wake : ℕ → System → System
chan_wake t s = rq_push t (put_task t (record (s.tasks t) { parked = running }) s)

unfoldable pub drop_waiter : ℕ → List (ℕ × ℕ) → List (ℕ × ℕ)
drop_waiter t [] = []
drop_waiter t ((u, i) ∷ ws) = let rest = drop_waiter t ws in if u == t then rest else (u, i) ∷ rest

-- Every registration of the task, on each channel of `sel_regs`.
unfoldable pub unlink_from : ℕ → List ℕ → (ℕ → Chan) → ℕ → Chan
unlink_from t [] chans = chans
unlink_from t (c ∷ cs) chans =
    unlink_from t cs
      (set chans c (record (chans c) { selectors = drop_waiter t ((chans c).selectors) }))

unfoldable pub select_unlink_all : ℕ → System → System
select_unlink_all t s =
    put_task t (record (s.tasks t) { sel_regs = [] })
      (record s { chans = unlink_from t ((s.tasks t).sel_regs) s.chans })

unfoldable pub select_fire : ℕ → ℕ → System → System
select_fire t fired_index s =
    chan_wake t
      (select_unlink_all t (put_task t (record (s.tasks t) { sel_fired_index = fired_index }) s))

unfoldable pub chan_ring_next : ℕ → ℕ → Outcome ℕ
chan_ring_next slots i =
    if slots == 0 then fail "chan_ring_next: channel has no buffer" else ok (suc i % slots)

-- `not_ready` is the result 0.
pub data Taken : Type 0 where
  not_ready : Taken
  got : ℕ → Taken
  ended : Taken

-- A parked sender's value moves into the slot that was freed.
unfoldable pub refill : ℕ → Chan → System → Outcome System
refill c ch s = elim (ch.senders) [
  | [] ↦ ok (put_chan c ch s)
  | sdr ∷ rest ↦ chan_ring_next ch.slots ch.tail >>= λ next. ok (
      chan_wake sdr (
        put_task sdr (record (s.tasks sdr) { chan_pending = 0 })
          (put_chan c
            (record ch {
              senders = rest;
              buffer = set ch.buffer ch.tail ((s.tasks sdr).chan_pending);
              tail = next;
              count = suc ch.count;
            })
            s)))
]

-- Rendezvous: the value of the sender parked first.
unfoldable pub hand_over : ℕ → ℕ → List ℕ → System → Taken × System
hand_over c sdr rest s = (
  got ((s.tasks sdr).chan_pending),
  chan_wake sdr (
      put_task sdr (record (s.tasks sdr) { chan_pending = 0 })
        (put_chan c (record (s.chans c) { senders = rest }) s)),
)

unfoldable pub chan_poll_take : ℕ → System → Outcome (Taken × System)
chan_poll_take c s = elim ((s.chans c).count) [
  | suc n ↦
      let ch = s.chans c in
      chan_ring_next ch.slots ch.head >>= λ next.
      refill c (record ch { buffer = set ch.buffer ch.head 0; head = next; count = n }) s
      >>= λ after. ok (got (ch.buffer ch.head), after)
  | zero ↦ elim ((s.chans c).senders) [
    | sdr ∷ rest ↦ ok (hand_over c sdr rest s)
    | [] ↦ ok (if (s.chans c).closed then ended else not_ready, s)
  ]
]

-- The new ring has the values from index 0 on, zeros behind them.
unfoldable pub want : Chan → ℕ
want ch = if ltb (ch.cap / 2) ch.slots then ch.cap else ch.slots * 2

abbrev pub grown : Chan → Chan
grown ch = record ch {
  buffer = λ i. if ltb i ch.count then ch.buffer ((ch.head + i) % ch.slots) else 0;
  slots = want ch;
  head = 0;
  tail = ch.count;
}

unfoldable pub chan_grow : Chan → Outcome Chan
chan_grow ch =
    if ch.slots == 0 || ltb ch.cap ch.slots || not (ch.count == ch.slots)
    then fail "chan_grow: channel is not a full ring below its bound"
    else ok (grown ch)

unfoldable pub new_chan : ℕ → Chan
new_chan capacity = record {
  cap = capacity;
  slots = if ltb capacity 16 then capacity else 16;
  count = 0;
  head = 0;
  tail = 0;
  buffer = λ i. 0;
  senders = [];
  receivers = [];
  selectors = [];
  closed = false;
}

unfoldable pub __chan_new : ℤ → Outcome Chan
__chan_new (negsuc n) = fail "__chan_new: capacity must be >= 0 (0 = rendezvous / unbuffered)"
__chan_new (pos capacity) = ok (new_chan capacity)

-- The tail of the ring takes the value, in a larger ring if this one is full.
unfoldable pub enqueue : ℕ → Chan → Outcome Chan
enqueue value ch = (if ch.count == ch.slots then chan_grow ch else ok ch) >>= λ room.
    chan_ring_next room.slots room.tail >>= λ next.
    ok (record room {
      buffer = set room.buffer room.tail value;
      tail = next;
      count = suc room.count;
    })

-- A waiting receiver takes the value.
unfoldable pub give : ℕ → ℕ → ℕ → List ℕ → System → System
give c value r rest s = chan_wake r (
    put_task r (record (s.tasks r) { chan_pending = value })
      (put_chan c (record (s.chans c) { receivers = rest }) s))

-- On a full channel the sender parks with its value.
unfoldable pub park_sender : ℕ → ℕ → ℕ → System → System
park_sender self c value s =
    put_task self (record (s.tasks self) { chan_pending = value; parked = sending c })
      (put_chan c (record (s.chans c) { senders = chan_q_push ((s.chans c).senders) self }) s)

unfoldable pub __chan_send : ℕ → ℕ → ℕ → System → Outcome System
__chan_send self c value s =
    if (s.chans c).closed
    then fail "__chan_send: send on closed channel"
    else elim ((s.chans c).receivers) [
      | r ∷ rest ↦ ok (give c value r rest s)
      | [] ↦ elim ((s.chans c).selectors) [
        | (st, sel_index) ∷ _ ↦ ok (
            select_fire st sel_index (
              put_task st (record (s.tasks st) { chan_pending = value; chan_closed_wake = false })
                s))
        | [] ↦
            if ltb ((s.chans c).count) ((s.chans c).cap)
            then enqueue value (s.chans c) >>= (λ ch. ok (put_chan c ch s))
            else ok (park_sender self c value s)
      ]
    ]

-- A sender that runs again: chan_close woke it, or its value was taken.
unfoldable pub resume_send : ℕ → System → Outcome System
resume_send self s =
    if (s.tasks self).chan_closed_wake then fail "__chan_send: send on closed channel" else ok s

-- `not_ready` says that the caller is parked.
unfoldable pub __chan_recv : ℕ → ℕ → System → Outcome (Taken × System)
__chan_recv self c s = chan_poll_take c s >>= λ (taken, after). elim taken [
  | not_ready ↦ ok (
    not_ready,
    put_task self (record (after.tasks self) { parked = receiving c })
        (put_chan c
          (record (after.chans c) { receivers = chan_q_push ((after.chans c).receivers) self })
          after),
  )
  | got v ↦ ok (got v, after)
  | ended ↦ ok (ended, after)
]

-- A receiver that runs again.
unfoldable pub resume_recv : ℕ → System → Taken × System
resume_recv self s =
    if (s.tasks self).chan_closed_wake
    then (ended, put_task self (record (s.tasks self) { chan_closed_wake = false }) s)
    else (
      got ((s.tasks self).chan_pending),
      put_task self (record (s.tasks self) { chan_pending = 0 }) s,
    )

-- `chan_close`: one loop over either wait queue.
unfoldable pub wake_closed : List ℕ → System → System
wake_closed [] s = s
wake_closed (t ∷ ts) s =
    wake_closed ts (chan_wake t (put_task t (record (s.tasks t) { chan_closed_wake = true }) s))

-- Its loop over the select waiters; `fuel` is the number of registrations.
unfoldable pub fire_closed : ℕ → ℕ → System → System
fire_closed zero c s = s
fire_closed (suc fuel) c s = elim ((s.chans c).selectors) [
  | [] ↦ s
  | (st, sel_index) ∷ _ ↦
      fire_closed fuel c
        (select_fire st sel_index (put_task st (record (s.tasks st) { chan_closed_wake = true }) s))
]

abbrev pub registrations : List (ℕ × ℕ) → ℕ
registrations [] = 0
registrations (w ∷ ws) = suc (registrations ws)

unfoldable pub __chan_close : ℕ → System → Outcome System
__chan_close c s =
    if (s.chans c).closed
    then fail "__chan_close: channel already closed"
    else let ch = s.chans c in
      let shut = put_chan c (record ch { closed = true; receivers = []; senders = [] }) s in
      let woken = wake_closed ch.senders (wake_closed ch.receivers shut) in
      ok (fire_closed (registrations ch.selectors) c woken)

-- The scan of `__chan_select`, from the channel at index `i` on; `none` if no channel is ready.
unfoldable pub scan_ready : ℕ → List ℕ → System → Outcome ((ℕ × Taken) × System)
scan_ready i [] s = ok ((i, not_ready), s)
scan_ready i (c ∷ cs) s =
    let rest = scan_ready (suc i) cs s in
    chan_poll_take c s >>= λ (taken, after). elim taken [
      | not_ready ↦ rest
      | got v ↦ ok ((i, got v), after)
      | ended ↦ ok ((i, ended), after)
    ]

unfoldable pub register : ℕ → ℕ → List ℕ → (ℕ → Chan) → ℕ → Chan
register self i [] chans = chans
register self i (c ∷ cs) chans =
    register self (suc i) cs (set chans c (sw_q_push (chans c) (self, i)))

unfoldable pub __chan_select : ℕ → List ℕ → System → Outcome ((ℕ × Taken) × System)
__chan_select self [] s = fail "__chan_select: empty channel list"
__chan_select self (c ∷ cs) s = scan_ready 0 (c ∷ cs) s >>= λ ((i, taken), after). elim taken [
  | not_ready ↦ ok (
    (i, not_ready),
    put_task self (record (after.tasks self) { sel_regs = c ∷ cs; parked = selecting })
        (record after { chans = register self 0 (c ∷ cs) after.chans }),
  )
  | got v ↦ ok ((i, got v), after)
  | ended ↦ ok ((i, ended), after)
]

-- A selector that runs again.
unfoldable pub resume_select : ℕ → System → (ℕ × Taken) × System
resume_select self s =
    let (taken, after) = resume_recv self s in (((s.tasks self).sel_fired_index, taken), after)
