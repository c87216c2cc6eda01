-- ===== src/Channel/Fifo.antt =====
-- A channel is a queue: chan_poll_take, __chan_send and __chan_recv against its contents.
use mathlib.Core.List.{append_assoc, cons≢nil}
use sprout_lang.Prelude.{
  ℕ, zero, suc, ◌<◌, ltb, if◌then◌else◌, List, [], ◌∷◌, ◌++◌, ◌≡◌, refl, sym, ap, ◌∙◌, ◌⊎◌, inl,
  inr, ok, ==_iff, Bool-cases, ltb→lt, ltb_false→le, arith,
}
use sprout_lang.Channel.{
  Chan, Task, System, not_ready, got, ended, put_task, put_chan, chan_wake, refill, chan_poll_take,
  hand_over, chan_ring_next, new_chan,
}
use sprout_lang.Channel.Ring.{
  items, values, IsRing, dequeued, items-dequeued, dequeued-IsRing, enqueued, items-enqueued,
  enqueued-IsRing, positive_test,
}
use sprout_lang.Channel.Queue.{Absent, Distinct, pending, contents, IsValid, pending-set}

pub at_put : (c : ℕ) (ch : Chan) (s : System) → (put_chan c ch s).chans c ≡ ch
at_put c ch s = rw ((==_iff c c).1 refl)

pub contents-put_chan :
    (c : ℕ) (ch : Chan) (s : System)
    → contents c (put_chan c ch s) ≡ items ch ++ pending s.tasks ch.senders
unfolding contents
contents-put_chan c ch s = ap (λ d. items d ++ pending s.tasks d.senders) (at_put c ch s)

contents-put_task :
    (c t : ℕ) (k : Task) (s : System)
    → Absent t ((s.chans c).senders)
    → contents c (put_task t k s) ≡ contents c s
unfolding contents
contents-put_task c t k s h =
    ap (λ xs. items (s.chans c) ++ xs) (pending-set s.tasks t k ((s.chans c).senders) h)

chans-chan_wake : (t c : ℕ) (s : System) → (chan_wake t s).chans c ≡ s.chans c
unfolding chan_wake
chans-chan_wake t c s = refl

contents-chan_wake :
    (c t : ℕ) (s : System)
    → Absent t ((s.chans c).senders)
    → contents c (chan_wake t s) ≡ contents c s
unfolding contents chan_wake
contents-chan_wake c t s h =
    ap (λ xs. items (s.chans c) ++ xs) (pending-set s.tasks t _ ((s.chans c).senders) h)

-- A sender's value was taken: it is cleared and the sender is woken.
pub released :
    (c t : ℕ) (k : Task) (ch : Chan) (s : System)
    → Absent t ch.senders
    → let after = chan_wake t (put_task t k (put_chan c ch s)) in
      (contents c after ≡ items ch ++ pending s.tasks ch.senders) × (after.chans c ≡ ch)
unfolding chan_wake
released c t k ch s h =
    let here = at_put c ch s in
    let away : Absent t ((put_chan c ch s).chans c).senders = rw here h in
    (
      contents-chan_wake c t (put_task t k (put_chan c ch s)) away
          ∙ (contents-put_task c t k (put_chan c ch s) away ∙ contents-put_chan c ch s),
      here,
    )

pub IsRing-senders : (ch : Chan) (ts : List ℕ) → IsRing ch → IsRing (record ch { senders = ts })
IsRing-senders ch ts r = record {
  within = r.within;
  bounded = r.bounded;
  allocated = r.allocated;
  head_in = r.head_in;
  tail_at = r.tail_at;
}

List-cases : (xs : List ℕ) → (xs ≡ []) ⊎ ((y : ℕ) × (ys : List ℕ) × (xs ≡ y ∷ ys))
List-cases [] = inl refl
List-cases (x ∷ xs) = inr (x, xs, refl)

ℕ-cases : (n : ℕ) → (n ≡ 0) ⊎ ((m : ℕ) × (n ≡ suc m))
ℕ-cases zero = inl refl
ℕ-cases (suc n) = inr (n, refl)

pub ring_empty : (ch : Chan) → ch.count ≡ 0 → items ch ≡ []
unfolding items values
ring_empty ch e = rw e

Distinct-at : (xs ys : List ℕ) → xs ≡ ys → Distinct xs → Distinct ys
Distinct-at xs ys e d = rw (sym e) d

full_at :
    (ch : Chan) (t : ℕ) (ts : List ℕ) {n : ℕ}
    → ch.senders ≡ t ∷ ts
    → (ch.senders ≡ []) ⊎ (n ≡ ch.cap)
    → n ≡ ch.cap
full_at ch t ts e (inl none) = absurd (cons≢nil (sym e ∙ none))
full_at ch t ts e (inr full) = full

-- The freed slot takes the value of the first parked sender.
refill_lem :
    (c : ℕ) (ch : Chan) (s : System)
    → IsRing ch
    → ch.count < ch.slots
    → (ch.senders ≡ []) ⊎ (suc ch.count ≡ ch.cap)
    → Distinct ch.senders
    → ch.receivers ≡ []
    → ch.selectors ≡ []
    → (after : System) × (refill c ch s ≡ ok after)
      × (contents c after ≡ items ch ++ pending s.tasks ch.senders)
      × IsValid (after.chans c)
unfolding refill chan_ring_next Distinct pending items
refill_lem c ch s r room full distinct no_receiver no_selector = elim (List-cases ch.senders) [
  | inl none ↦ (
    put_chan c ch s,
    rw none,
    contents-put_chan c ch s,
    rw (at_put c ch s) (record {
      ring = r;
      full = inl none;
      distinct = distinct;
      starved = inl (no_receiver, no_selector);
    }),
  )
  | inr (sdr, rest, e) ↦
      let (absent, distinct') : Distinct (sdr ∷ rest) =
        Distinct-at ch.senders (sdr ∷ rest) e distinct in
      let v = (s.tasks sdr).chan_pending in
      let k = record (s.tasks sdr) { chan_pending = 0 } in
      let ch' = record (enqueued ch v) { senders = rest } in
      let (holds, here) = released c sdr k ch' s absent in
      (
        chan_wake sdr (put_task sdr k (put_chan c ch' s)),
        rw (e, positive_test ch.slots (omega arith)),
        holds
            ∙ (ap (λ xs. xs ++ pending s.tasks rest) (items-enqueued ch v r room)
                ∙ rw e (append_assoc (items ch) (v ∷ []) (pending s.tasks rest))),
        rw here (record {
          ring = IsRing-senders (enqueued ch v) rest (enqueued-IsRing ch v r room);
          full = inr (omega (arith, full_at ch sdr rest e full));
          distinct = distinct';
          starved = inl (no_receiver, no_selector);
        }),
      )
]

fed :
    (ch : Chan)
    → IsValid ch
    → ((ch.count ≡ 0) × (ch.senders ≡ []) → ⊥)
    → (ch.receivers ≡ []) × (ch.selectors ≡ [])
fed ch h some_value = elim (h.starved) [ inl fine ↦ fine | inr none ↦ absurd (some_value none) ]

still_full :
    (ch : Chan) (n : ℕ)
    → ch.count ≡ suc n
    → (ch.senders ≡ []) ⊎ (ch.count ≡ ch.cap)
    → (ch.senders ≡ []) ⊎ (suc n ≡ ch.cap)
still_full ch n e (inl none) = inl none
still_full ch n e (inr full) = inr (sym e ∙ full)

holds_none :
    (c : ℕ) (s : System) → (s.chans c).count ≡ 0 → (s.chans c).senders ≡ [] → contents c s ≡ []
unfolding contents pending
holds_none c s empty none = rw (ring_empty (s.chans c) empty, none)

abbrev TakesFirst : ℕ → System → Type 0
TakesFirst c s =
    (v : ℕ) × (rest : List ℕ) × (after : System) × (contents c s ≡ v ∷ rest)
    × (chan_poll_take c s ≡ ok (got v, after))
    × (contents c after ≡ rest)
    × IsValid (after.chans c)

polls_buffered :
    (c : ℕ) (s : System) (n : ℕ) (after : System)
    → (s.chans c).count ≡ suc n
    → 0 < (s.chans c).slots
    → refill c (dequeued (s.chans c) n) s ≡ ok after
    → chan_poll_take c s ≡ ok (got ((s.chans c).buffer ((s.chans c).head)), after)
unfolding chan_poll_take chan_ring_next
polls_buffered c s n after e some_slots refills =
    rw (chan_poll_take, e, positive_test ((s.chans c).slots) some_slots, refills)

polls_parked :
    (c : ℕ) (s : System) (sdr : ℕ) (rest : List ℕ)
    → (s.chans c).count ≡ 0
    → (s.chans c).senders ≡ sdr ∷ rest
    → chan_poll_take c s ≡ ok (hand_over c sdr rest s)
unfolding chan_poll_take
polls_parked c s sdr rest empty e = rw (chan_poll_take, empty, e)

polls_none :
    (c : ℕ) (s : System)
    → (s.chans c).count ≡ 0
    → (s.chans c).senders ≡ []
    → chan_poll_take c s ≡ ok (if (s.chans c).closed then ended else not_ready, s)
unfolding chan_poll_take
polls_none c s empty none = rw (chan_poll_take, empty, none)

take_buffered :
    (c : ℕ) (s : System)
    → IsValid (s.chans c)
    → (n : ℕ) → (s.chans c).count ≡ suc n
    → TakesFirst c s
unfolding contents
take_buffered c s h n e =
    let ch = s.chans c in
    let r = h.ring in
    let within = r.within in
    let (no_receiver, no_selector) = fed ch h (λ (none, _). omega arith) in
    let (after, refills, holds, valid) =
      refill_lem c (dequeued ch n) s (dequeued-IsRing ch n r e) (omega arith)
        (still_full ch n e h.full) h.distinct no_receiver no_selector in
    (
      ch.buffer ch.head,
      items (dequeued ch n) ++ pending s.tasks ch.senders,
      after,
      ap (λ xs. xs ++ pending s.tasks ch.senders) (items-dequeued ch n r e),
      polls_buffered c s n after e (omega arith) refills,
      holds,
      valid,
    )

take_parked :
    (c : ℕ) (s : System)
    → IsValid (s.chans c)
    → (s.chans c).count ≡ 0
    → (sdr : ℕ) (rest : List ℕ) → (s.chans c).senders ≡ sdr ∷ rest
    → TakesFirst c s
unfolding contents pending Distinct items hand_over
take_parked c s h empty sdr rest e =
    let ch = s.chans c in
    let (absent, distinct') : Distinct (sdr ∷ rest) =
      Distinct-at ch.senders (sdr ∷ rest) e h.distinct in
    let (no_receiver, no_selector) = fed ch h (λ (_, none). cons≢nil (sym e ∙ none)) in
    let ch' = record ch { senders = rest } in
    let k = record (s.tasks sdr) { chan_pending = 0 } in
    let (holds, here) = released c sdr k ch' s absent in
    (
      (s.tasks sdr).chan_pending,
      pending s.tasks rest,
      chan_wake sdr (put_task sdr k (put_chan c ch' s)),
      rw (ring_empty ch empty, e),
      polls_parked c s sdr rest empty e,
      holds ∙ ap (λ xs. xs ++ pending s.tasks rest) (ring_empty ch empty),
      rw here (record {
        ring = IsRing-senders ch rest h.ring;
        full = inr (full_at ch sdr rest e h.full);
        distinct = distinct';
        starved = inl (no_receiver, no_selector);
      }),
    )

-- Either a channel holds nothing, and a poll says so without a change, whether it is closed or only
-- empty; or the poll takes the value that was sent first, leaves the others in their order, and
-- keeps the channel well formed. It never aborts.
pub chan_poll_take-contents :
    (c : ℕ) (s : System)
    → IsValid (s.chans c)
    → ((contents c s ≡ [])
        × (chan_poll_take c s ≡ ok (if (s.chans c).closed then ended else not_ready, s)))
      ⊎ ((v : ℕ) × (rest : List ℕ) × (after : System) × (contents c s ≡ v ∷ rest)
          × (chan_poll_take c s ≡ ok (got v, after))
          × (contents c after ≡ rest)
          × IsValid (after.chans c))
chan_poll_take-contents c s h = elim (ℕ-cases (s.chans c).count) [
  | inl empty ↦ elim (List-cases (s.chans c).senders) [
    | inl none ↦ inl (holds_none c s empty none, polls_none c s empty none)
    | inr (sdr, rest, e) ↦ inr (take_parked c s h empty sdr rest e)
  ]
  | inr (n, e) ↦ inr (take_buffered c s h n e)
]

new-IsRing : (capacity : ℕ) → IsRing (new_chan capacity)
unfolding new_chan
new-IsRing capacity = elim (Bool-cases (ltb capacity 16)) [
  | inl small ↦
      let p = ltb→lt capacity 16 small in
      record {
        within = omega arith;
        bounded = rw small (omega arith);
        allocated = rw small (λ q. q);
        head_in = λ q. q;
        tail_at = rw small (omega arith);
      }
  | inr large ↦
      let p = ltb_false→le capacity 16 large in
      record {
        within = omega arith;
        bounded = rw large p;
        allocated = rw large (λ q. omega arith);
        head_in = λ q. q;
        tail_at = rw large refl;
      }
]

-- A new channel of any capacity is well formed and holds nothing.
pub new_chan-IsValid :
    (c capacity : ℕ) (s : System)
    → IsValid (new_chan capacity) × (contents c (put_chan c (new_chan capacity) s) ≡ [])
unfolding new_chan contents Distinct items values pending
new_chan-IsValid c capacity s = (
  record { ring = new-IsRing capacity; full = inl refl; distinct = tt; starved = inl (refl, refl) },
  contents-put_chan c (new_chan capacity) s,
)
