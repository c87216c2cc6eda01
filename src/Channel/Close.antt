-- ===== src/Channel/Close.antt =====
-- __chan_close: who is woken, with what outcome, and what stays in the buffer.
use mathlib.Core.List.{append_assoc, append-nil}
use sprout_lang.Prelude.{
  ℕ, Bool, true, false, ◌==◌, List, [], ◌∷◌, ◌++◌, ◌≡◌, refl, sym, ap, ◌∙◌, ◌⊎◌, inl, inr, ok, fail,
  ==_iff, Bool-cases,
}
use sprout_lang.Channel.{
  Chan, System, ended, put_task, put_chan, chan_wake, wake_closed, fire_closed, __chan_close,
  __chan_send, resume_recv, resume_send,
}
use sprout_lang.Channel.Ring.{items}

unfoldable pub In : ℕ → List ℕ → Type 0
In t [] = ⊥
In t (u ∷ us) = (t ≡ u) ⊎ In t us

abbrev told : System → ℕ → Bool
told s t = (s.tasks t).chan_closed_wake

abbrev tell : ℕ → System → System
tell t s = chan_wake t (put_task t (record (s.tasks t) { chan_closed_wake = true }) s)

told-tell : (t u : ℕ) (s : System) → (t ≡ u) ⊎ (told s t ≡ true) → told (tell u s) t ≡ true
unfolding chan_wake
told-tell t u s (inl e) = rw (told, (==_iff t u).1 e) (rw ((==_iff u u).1 refl))
told-tell t u s (inr h) = elim (Bool-cases (t == u)) [
  | inl same ↦ rw (told, same) (rw ((==_iff u u).1 refl))
  | inr other ↦ rw (told, other) h
]

told-wake_closed :
    (t : ℕ) (ts : List ℕ) (s : System)
    → In t ts ⊎ (told s t ≡ true)
    → told (wake_closed ts s) t ≡ true
unfolding wake_closed In
told-wake_closed t [] s (inl none) = absurd none
told-wake_closed t [] s (inr h) = h
told-wake_closed t (u ∷ us) s (inl (inl e)) =
    told-wake_closed t us (tell u s) (inr (told-tell t u s (inl e)))
told-wake_closed t (u ∷ us) s (inl (inr more)) = told-wake_closed t us (tell u s) (inl more)
told-wake_closed t (u ∷ us) s (inr h) =
    told-wake_closed t us (tell u s) (inr (told-tell t u s (inr h)))

ready-wake_closed : (ts : List ℕ) (s : System) → (wake_closed ts s).ready ≡ s.ready ++ ts
unfolding wake_closed chan_wake
ready-wake_closed [] s = sym (append-nil s.ready)
ready-wake_closed (t ∷ ts) s = ready-wake_closed ts (tell t s) ∙ append_assoc s.ready (t ∷ []) ts

chans-wake_closed : (ts : List ℕ) (s : System) → (wake_closed ts s).chans ≡ s.chans
unfolding wake_closed chan_wake
chans-wake_closed [] s = refl
chans-wake_closed (t ∷ ts) s = chans-wake_closed ts (tell t s)

-- What `__chan_close` leaves where no selector is parked.
abbrev shut : ℕ → System → System
shut c s = put_chan c (record (s.chans c) { closed = true; receivers = []; senders = [] }) s

abbrev woken : ℕ → System → System
woken c s = wake_closed ((s.chans c).senders) (wake_closed ((s.chans c).receivers) (shut c s))

closes :
    (c : ℕ) (s : System)
    → (s.chans c).closed ≡ false
    → (s.chans c).selectors ≡ []
    → __chan_close c s ≡ ok (woken c s)
unfolding __chan_close fire_closed
closes c s open_ none = rw (open_, none)

chans-woken :
    (c : ℕ) (s : System)
    → (woken c s).chans c ≡ record (s.chans c) { closed = true; receivers = []; senders = [] }
chans-woken c s =
    ap (λ f. f c)
      (chans-wake_closed ((s.chans c).senders) (wake_closed ((s.chans c).receivers) (shut c s))
        ∙ chans-wake_closed ((s.chans c).receivers) (shut c s))
    ∙ rw ((==_iff c c).1 refl)

resume_recv-told : (t : ℕ) (s : System) → told s t ≡ true → (resume_recv t s).0 ≡ ended
unfolding resume_recv
resume_recv-told t s h = rw h

resume_send-told :
    (t : ℕ) (s : System)
    → told s t ≡ true
    → resume_send t s ≡ fail "__chan_send: send on closed channel"
unfolding resume_send
resume_send-told t s h = rw h

send_closed :
    (self c v : ℕ) (s : System)
    → (s.chans c).closed ≡ true
    → __chan_send self c v s ≡ fail "__chan_send: send on closed channel"
unfolding __chan_send
send_closed self c v s h = rw h

close_closed :
    (c : ℕ) (s : System)
    → (s.chans c).closed ≡ true
    → __chan_close c s ≡ fail "__chan_close: channel already closed"
unfolding __chan_close
close_closed c s h = rw h

-- On an open channel with no selector parked, closing wakes the parked receivers in their order
-- and then the parked senders. The buffered values stay. Each receiver that was parked gets
-- `Closed`, each sender that was parked aborts, and so do a later send and a second close.
pub __chan_close_lem :
    (c : ℕ) (s : System)
    → (s.chans c).closed ≡ false
    → (s.chans c).selectors ≡ []
    → (after : System) × (__chan_close c s ≡ ok after)
      × (after.ready ≡ s.ready ++ ((s.chans c).receivers ++ (s.chans c).senders))
      × (items (after.chans c) ≡ items (s.chans c))
      × ((t : ℕ) → In t ((s.chans c).receivers) → (resume_recv t after).0 ≡ ended)
      × ((t : ℕ)
          → In t ((s.chans c).senders)
          → resume_send t after ≡ fail "__chan_send: send on closed channel")
      × ((self v : ℕ) → __chan_send self c v after ≡ fail "__chan_send: send on closed channel")
      × (__chan_close c after ≡ fail "__chan_close: channel already closed")
unfolding items
__chan_close_lem c s open_ none =
    let ch = s.chans c in
    let first = wake_closed ch.receivers (shut c s) in
    let flag : ((woken c s).chans c).closed ≡ true =
      ap (λ (d : Chan). d.closed) (chans-woken c s) in
    (
      woken c s,
      closes c s open_ none,
      ready-wake_closed ch.senders first
          ∙ (ap (λ xs. xs ++ ch.senders) (ready-wake_closed ch.receivers (shut c s))
              ∙ append_assoc s.ready ch.receivers ch.senders),
      ap items (chans-woken c s),
      λ t h. resume_recv-told t (woken c s) (
          told-wake_closed t ch.senders first
            (inr (told-wake_closed t ch.receivers (shut c s) (inl h)))),
      λ t h. resume_send-told t (woken c s) (told-wake_closed t ch.senders first (inl h)),
      λ self v. send_closed self c v (woken c s) flag,
      close_closed c (woken c s) flag,
    )
