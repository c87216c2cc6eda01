-- ===== src/Channel/Examples.antt =====
-- Channels at concrete inputs.
use sprout_lang.Prelude.Int.{negsuc}
use sprout_lang.Prelude.{fail}
use sprout_lang.Prelude.{
  ℕ, ◌+◌, false, List, [], ◌∷◌, ◌++◌, ◌≡◌, refl, ◌⊎◌, inl, inr, ok, fail, arith, ltb, if◌then◌else◌,
}
use sprout_lang.Channel.{
  Chan, Task, System, got, ended, not_ready, running, chan_poll_take, new_chan, __chan_new,
  __chan_send, __chan_close, resume_recv, resume_send,
}
use sprout_lang.Channel.Ring.{items, values}
use sprout_lang.Channel.Queue.{Absent, Distinct, pending, contents, IsValid}
use sprout_lang.Channel.Fifo.{chan_poll_take-contents, new_chan-IsValid}
use sprout_lang.Channel.Send.{__chan_send-receiver, __chan_send-contents}
use sprout_lang.Channel.Close.{In, __chan_close_lem}

abbrev idle : Task
idle = record {
  chan_pending = 0;
  chan_closed_wake = false;
  sel_fired_index = 0;
  sel_regs = [];
  parked = running;
}

-- Two slots, both in use, the oldest value in the second one, and task 5 parked with a value.
abbrev busy : Chan
busy = record {
  cap = 2;
  slots = 2;
  count = 2;
  head = 1;
  tail = 1;
  buffer = λ i. if ltb i 1 then 12 else 11;
  senders = 5 ∷ [];
  receivers = [];
  selectors = [];
  closed = false;
}

abbrev hungry : Chan
hungry = record (new_chan 2) { receivers = 3 ∷ 4 ∷ [] }

abbrev system : Chan → System
system ch = record {
  chans = λ c. ch;
  tasks = λ t. record idle { chan_pending = 10 + t };
  ready = 9 ∷ [];
}

busy-IsValid : IsValid busy
unfolding Distinct Absent
busy-IsValid = record {
  ring = record {
    within = omega arith;
    bounded = omega arith;
    allocated = λ p. p;
    head_in = λ p. omega arith;
    tail_at = refl;
  };
  full = inr refl;
  distinct = (tt, tt);
  starved = inl (refl, refl);
}

hungry-IsValid : IsValid hungry
unfolding new_chan Distinct
hungry-IsValid =
    let (h, _) = new_chan-IsValid 0 2 (system busy) in
    let r = h.ring in
    record {
      ring = record {
        within = r.within;
        bounded = r.bounded;
        allocated = r.allocated;
        head_in = r.head_in;
        tail_at = r.tail_at;
      };
      full = inl refl;
      distinct = tt;
      starved = inr (refl, refl);
    }

busy-contents : contents 0 (system busy) ≡ 11 ∷ 12 ∷ 15 ∷ []
unfolding contents items values pending
busy-contents = refl

chan_poll_take-contents_example :
    ((contents 0 (system busy) ≡ [])
      × (chan_poll_take 0 (system busy) ≡ ok (not_ready, system busy)))
    ⊎ ((v : ℕ) × (rest : List ℕ) × (after : System) × (contents 0 (system busy) ≡ v ∷ rest)
        × (chan_poll_take 0 (system busy) ≡ ok (got v, after))
        × (contents 0 after ≡ rest)
        × IsValid (after.chans 0))
chan_poll_take-contents_example = chan_poll_take-contents 0 (system busy) busy-IsValid

not_five : Absent 6 (5 ∷ [])
unfolding Absent
not_five = (refl, tt)

__chan_send-contents_example :
    (after : System) × (__chan_send 6 0 77 (system busy) ≡ ok after)
    × (contents 0 after ≡ contents 0 (system busy) ++ (77 ∷ []))
    × IsValid (after.chans 0)
__chan_send-contents_example =
    __chan_send-contents 6 0 77 (system busy) busy-IsValid refl refl refl not_five

__chan_send-receiver_example :
    (after : System) × (__chan_send 6 0 77 (system hungry) ≡ ok after)
    × (contents 0 (system hungry) ≡ [])
    × (contents 0 after ≡ [])
    × (after.ready ≡ 9 ∷ 3 ∷ [])
    × ((resume_recv 3 after).0 ≡ got 77)
unfolding new_chan
__chan_send-receiver_example =
    __chan_send-receiver 6 0 77 (system hungry) 3 (4 ∷ []) hungry-IsValid refl refl refl

__chan_close_lem_example :
    (after : System) × (__chan_close 0 (system busy) ≡ ok after)
    × (after.ready ≡ 9 ∷ 5 ∷ [])
    × (items (after.chans 0) ≡ items busy)
    × ((t : ℕ) → In t [] → (resume_recv t after).0 ≡ ended)
    × ((t : ℕ) → In t (5 ∷ []) → resume_send t after ≡ fail "__chan_send: send on closed channel")
    × ((self v : ℕ) → __chan_send self 0 v after ≡ fail "__chan_send: send on closed channel")
    × (__chan_close 0 after ≡ fail "__chan_close: channel already closed")
__chan_close_lem_example = __chan_close_lem 0 (system busy) refl refl

negative_capacity :
    __chan_new (negsuc 0) ≡ fail "__chan_new: capacity must be >= 0 (0 = rendezvous / unbuffered)"
unfolding __chan_new
negative_capacity = refl
