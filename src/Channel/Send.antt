-- ===== src/Channel/Send.antt =====
-- __chan_send: a value goes to a parked receiver, into the buffer, or stays with its sender.
use mathlib.Core.List.{append_assoc, append-nil, cons≢nil}
use sprout_lang.Prelude.{
  ℕ, true, false, ltb, List, [], ◌∷◌, ◌++◌, ◌≡◌, refl, sym, ap, ◌∙◌, ◌⊎◌, inl, inr, ok, ==_iff,
  Bool-cases, ltb→lt, ltb_false→le, arith,
}
use sprout_lang.Channel.{
  Chan, Task, System, got, set, put_chan, chan_wake, enqueue, give, park_sender, __chan_send,
  resume_recv, sending,
}
use sprout_lang.Channel.Ring.{items, IsRing, enqueue_lem}
use sprout_lang.Channel.Queue.{
  Absent, Distinct, pending, contents, IsValid, pending-snoc, Distinct-snoc,
}
use sprout_lang.Channel.Fifo.{at_put, contents-put_chan, ring_empty, released, IsRing-senders}

waiting :
    (ch : Chan) (r : ℕ) (rest : List ℕ)
    → IsValid ch
    → ch.receivers ≡ r ∷ rest
    → (ch.count ≡ 0) × (ch.senders ≡ [])
waiting ch r rest h e = elim (h.starved) [
  | inl (no_receiver, _) ↦ absurd (cons≢nil (sym e ∙ no_receiver))
  | inr nothing ↦ nothing
]

no_one : (r : ℕ) (ts : List ℕ) → ts ≡ [] → Absent r ts
unfolding Absent
no_one r ts e = rw e tt

nothing_left :
    (ch : Chan) (tasks : ℕ → Task)
    → ch.count ≡ 0
    → ch.senders ≡ []
    → items ch ++ pending tasks ch.senders ≡ []
unfolding pending
nothing_left ch tasks empty none = rw (ring_empty ch empty, none)

sends_receiver :
    (self c value : ℕ) (s : System) (r : ℕ) (rest : List ℕ)
    → (s.chans c).closed ≡ false
    → (s.chans c).receivers ≡ r ∷ rest
    → __chan_send self c value s ≡ ok (give c value r rest s)
unfolding __chan_send
sends_receiver self c value s r rest open_ e = rw (__chan_send, open_, e)

-- With a receiver parked, the channel holds nothing, and the value goes to the receiver parked
-- first: it is woken, its `chan_recv` returns the value, and the channel still holds nothing.
pub __chan_send-receiver :
    (self c value : ℕ) (s : System) (r : ℕ) (rest : List ℕ)
    → IsValid (s.chans c)
    → (s.chans c).closed ≡ false
    → (s.chans c).receivers ≡ r ∷ rest
    → (s.tasks r).chan_closed_wake ≡ false
    → (after : System) × (__chan_send self c value s ≡ ok after)
      × (contents c s ≡ [])
      × (contents c after ≡ [])
      × (after.ready ≡ s.ready ++ (r ∷ []))
      × ((resume_recv r after).0 ≡ got value)
unfolding give resume_recv contents chan_wake pending
__chan_send-receiver self c value s r rest h open_ e awake =
    let (empty, none) = waiting (s.chans c) r rest h e in
    let same = (==_iff r r).1 refl in
    let ch' = record (s.chans c) { receivers = rest } in
    let k = record (s.tasks r) { chan_pending = value } in
    let (holds, _) = released c r k ch' s (no_one r (s.chans c).senders none) in
    (
      give c value r rest s,
      sends_receiver self c value s r rest open_ e,
      nothing_left (s.chans c) s.tasks empty none,
      holds ∙ nothing_left ch' s.tasks empty none,
      refl,
      rw (same) (rw awake),
    )

sends_enqueued :
    (self c value : ℕ) (s : System) (after : Chan)
    → (s.chans c).closed ≡ false
    → (s.chans c).receivers ≡ []
    → (s.chans c).selectors ≡ []
    → ltb ((s.chans c).count) ((s.chans c).cap) ≡ true
    → enqueue value (s.chans c) ≡ ok after
    → __chan_send self c value s ≡ ok (put_chan c after s)
unfolding __chan_send
sends_enqueued self c value s after open_ e f room goes = rw (__chan_send, open_, e, f, room, goes)

sends_parked :
    (self c value : ℕ) (s : System)
    → (s.chans c).closed ≡ false
    → (s.chans c).receivers ≡ []
    → (s.chans c).selectors ≡ []
    → ltb ((s.chans c).count) ((s.chans c).cap) ≡ false
    → __chan_send self c value s ≡ ok (park_sender self c value s)
unfolding __chan_send
sends_parked self c value s open_ e f room = rw (__chan_send, open_, e, f, room)

roomy :
    (ch : Chan)
    → ltb ch.count ch.cap ≡ true
    → (ch.senders ≡ []) ⊎ (ch.count ≡ ch.cap)
    → ch.senders ≡ []
roomy ch room (inl none) = none
roomy ch room (inr full) = absurd (ground arith)

filled : (ch : Chan) → ltb ch.count ch.cap ≡ false → IsRing ch → ch.count ≡ ch.cap
filled ch h r =
    let within = r.within in
    let bounded = r.bounded in omega (arith, ltb_false→le ch.count ch.cap h)

append_two :
    (xs : List ℕ) (v : ℕ) (tasks : ℕ → Task)
    → (xs ++ (v ∷ [])) ++ pending tasks [] ≡ (xs ++ pending tasks []) ++ (v ∷ [])
unfolding pending
append_two xs v tasks =
    append-nil (xs ++ (v ∷ [])) ∙ ap (λ ys. ys ++ (v ∷ [])) (sym (append-nil xs))

contents-parked :
    (self c value : ℕ) (s : System)
    → Absent self ((s.chans c).senders)
    → contents c (park_sender self c value s) ≡ contents c s ++ (value ∷ [])
unfolding park_sender contents items
contents-parked self c value s absent =
    let ch = s.chans c in
    let ch' = record ch { senders = ch.senders ++ (self ∷ []) } in
    let k = record (s.tasks self) { chan_pending = value; parked = sending c } in
    ap (λ (d : Chan). items d ++ pending (set s.tasks self k) d.senders) (at_put c ch' s)
    ∙ (ap (λ xs. items ch ++ xs) (pending-snoc s.tasks self k ch.senders absent)
        ∙ sym (append_assoc (items ch) (pending s.tasks ch.senders) (value ∷ [])))

-- With no receiver and no selector parked, the value goes behind the values that were sent
-- before, whether there is room in the ring, the ring grows, or the sender parks with it; the
-- channel stays well formed.
pub __chan_send-contents :
    (self c value : ℕ) (s : System)
    → IsValid (s.chans c)
    → (s.chans c).closed ≡ false
    → (s.chans c).receivers ≡ []
    → (s.chans c).selectors ≡ []
    → Absent self ((s.chans c).senders)
    → (after : System) × (__chan_send self c value s ≡ ok after)
      × (contents c after ≡ contents c s ++ (value ∷ []))
      × IsValid (after.chans c)
unfolding contents park_sender items Distinct
__chan_send-contents self c value s h open_ e f absent =
    let ch = s.chans c in
    elim (Bool-cases (ltb ch.count ch.cap)) [
      | inl room ↦
          let (after, goes, holds, ring, _, _, senders, receivers, selectors, _) =
            enqueue_lem value ch h.ring (ltb→lt ch.count ch.cap room) in
          let none = roomy ch room h.full in
          (
            put_chan c after s,
            sends_enqueued self c value s after open_ e f room goes,
            contents-put_chan c after s
                ∙ rw (holds, senders, none) (append_two (items ch) value s.tasks),
            rw (at_put c after s) (record {
              ring = ring;
              full = inl (senders ∙ none);
              distinct = rw (senders ∙ none) tt;
              starved = inl (receivers ∙ e, selectors ∙ f);
            }),
          )
      | inr no_room ↦
          let ch' = record ch { senders = ch.senders ++ (self ∷ []) } in
          let k = record (s.tasks self) { chan_pending = value; parked = sending c } in
          (
            park_sender self c value s,
            sends_parked self c value s open_ e f no_room,
            contents-parked self c value s absent,
            rw (at_put c ch' s) (record {
              ring = IsRing-senders ch (ch.senders ++ (self ∷ [])) h.ring;
              full = inr (filled ch no_room h.ring);
              distinct = Distinct-snoc self ch.senders h.distinct absent;
              starved = inl (e, f);
            }),
          )
    ]
