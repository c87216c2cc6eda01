-- ===== src/Channel/Ring.antt =====
-- The ring of a channel holds a list: dequeue, enqueue and chan_grow on it.
use native.Mathlib.Nat.{mod-add-mod, suc-mod, mod-lt, mod-eq_of_lt, mod-eq-sub-mod}
use sprout_lang.Prelude.{
  ℕ, suc, ◌+◌, ◌-◌, ◌/◌, ◌%◌, ◌≤◌, ◌<◌, false, ltb, ◌==◌, List, [], ◌∷◌, ◌++◌, ◌≡◌, refl, sym, ap,
  ◌∙◌, ok, inl, inr, Bool-cases, lt→ltb, le→ltb_false, ltb→lt, ltb_false→le, ==_iff, arith, ◌≢◌,
}
unfoldable pub use sprout_lang.Prelude.Memory.{values}
use sprout_lang.Prelude.Memory.{values-cong, values-shift, values-snoc, set_other, set_same}
use sprout_lang.Channel.{Chan, set, want, grown, chan_ring_next, chan_grow, enqueue}

-- What the fields of a channel's ring keep to.
pub record IsRing (ch : Chan) : Type 0 where
  pub within : ch.count ≤ ch.slots
  pub bounded : ch.slots ≤ ch.cap
  pub allocated : 0 < ch.cap → 0 < ch.slots
  pub head_in : 0 < ch.slots → ch.head < ch.slots
  pub tail_at : ch.tail ≡ (ch.head + ch.count) % ch.slots

-- The buffered values, the oldest one first.
unfoldable pub items : Chan → List ℕ
items ch = values (λ j. ch.buffer ((ch.head + j) % ch.slots)) 0 ch.count

wrap : (x n : ℕ) → n ≤ x → x < n + n → x % n ≡ x - n
wrap x n h k = mod-eq-sub-mod h ∙ mod-eq_of_lt (omega arith)

apart : (h n i k : ℕ) → h < n → i < k → k < n → (h + i) % n ≢ (h + k) % n
apart h n i k p q r e = elim (Bool-cases (ltb (h + i) n)) [
  | inl low ↦
      let at_i : (h + i) % n ≡ h + i = mod-eq_of_lt (ltb→lt (h + i) n low) in
      elim (Bool-cases (ltb (h + k) n)) [
        | inl low' ↦
            let at_k : (h + k) % n ≡ h + k = mod-eq_of_lt (ltb→lt (h + k) n low') in omega arith
        | inr high' ↦
            let far = ltb_false→le (h + k) n high' in
            let at_k = wrap (h + k) n far (omega arith) in omega arith
      ]
  | inr high ↦
      let far = ltb_false→le (h + i) n high in
      let at_i = wrap (h + i) n far (omega arith) in
      let at_k = wrap (h + k) n (omega arith) (omega arith) in omega arith
]

-- The ring without its oldest value.
abbrev pub dequeued : Chan → ℕ → Chan
dequeued ch n = record ch {
  buffer = set ch.buffer ch.head 0;
  head = suc ch.head % ch.slots;
  count = n;
}

next_slot : (h n j : ℕ) → (suc h % n + j) % n ≡ (h + suc j) % n
next_slot h n j = mod-add-mod (suc h) n j ∙ ap (λ x. x % n) (omega arith)

pub items-dequeued :
    (ch : Chan) (n : ℕ)
    → IsRing ch
    → ch.count ≡ suc n
    → items ch ≡ ch.buffer ch.head ∷ items (dequeued ch n)
unfolding items values
items-dequeued ch n r e =
    let within = r.within in
    let at_head = r.head_in (omega arith) in
    let start : ch.head + 0 ≡ ch.head = omega arith in
    rw
      (e, start, mod-eq_of_lt at_head, values-shift (λ j. ch.buffer ((ch.head + j) % ch.slots)) 0 n)
      (ap (λ xs. ch.buffer ch.head ∷ xs)
        (values-cong (λ j. ch.buffer ((ch.head + suc j) % ch.slots))
          (λ j. set ch.buffer ch.head 0 ((suc ch.head % ch.slots + j) % ch.slots)) 0 n
          (λ j p q.
            let here : (ch.head + 0) % ch.slots ≡ ch.head =
              ap (λ x. x % ch.slots) (omega arith) ∙ mod-eq_of_lt at_head in
            rw (next_slot ch.head ch.slots j) (
              sym (
                set_other ch.buffer ch.head 0 ((ch.head + suc j) % ch.slots) (λ same.
                  apart ch.head ch.slots 0 (suc j) at_head (omega arith) (omega arith)
                    (here ∙ sym same)))))))

pub dequeued-IsRing : (ch : Chan) (n : ℕ) → IsRing ch → ch.count ≡ suc n → IsRing (dequeued ch n)
dequeued-IsRing ch n r e =
    let within = r.within in
    let at_tail = r.tail_at in
    record {
      within = omega arith;
      bounded = r.bounded;
      allocated = r.allocated;
      head_in = λ p. mod-lt (suc ch.head) p;
      tail_at =
          at_tail ∙ (ap (λ k. (ch.head + k) % ch.slots) e ∙ sym (next_slot ch.head ch.slots n));
    }

-- The ring with a value behind the newest one.
abbrev pub enqueued : Chan → ℕ → Chan
enqueued ch v = record ch {
  buffer = set ch.buffer ch.tail v;
  tail = suc ch.tail % ch.slots;
  count = suc ch.count;
}

pub items-enqueued :
    (ch : Chan) (v : ℕ)
    → IsRing ch
    → ch.count < ch.slots
    → items (enqueued ch v) ≡ items ch ++ (v ∷ [])
unfolding items
items-enqueued ch v r room =
    let at_head = r.head_in (omega arith) in
    let old : ℕ → ℕ = λ j. ch.buffer ((ch.head + j) % ch.slots) in
    let new : ℕ → ℕ = λ j. set ch.buffer ch.tail v ((ch.head + j) % ch.slots) in
    let at_end : new (0 + ch.count) ≡ v =
      ap new (omega arith)
      ∙ (ap (set ch.buffer ch.tail v) (sym r.tail_at) ∙ set_same ch.buffer ch.tail v) in
    let before = values-cong new old 0 ch.count (λ j p q.
      set_other ch.buffer ch.tail v ((ch.head + j) % ch.slots) (λ same.
        apart ch.head ch.slots j ch.count at_head (omega arith) room (same ∙ r.tail_at))) in
    values-snoc new 0 ch.count
    ∙ (ap (λ xs. xs ++ (new (0 + ch.count) ∷ [])) before
        ∙ ap (λ x. values old 0 ch.count ++ (x ∷ [])) at_end)

pub enqueued-IsRing : (ch : Chan) (v : ℕ) → IsRing ch → ch.count < ch.slots → IsRing (enqueued ch v)
enqueued-IsRing ch v r room = record {
  within = omega arith;
  bounded = r.bounded;
  allocated = r.allocated;
  head_in = r.head_in;
  tail_at =
      ap (λ t. suc t % ch.slots) r.tail_at
      ∙ (sym (suc-mod (ch.head + ch.count) ch.slots) ∙ ap (λ x. x % ch.slots) (omega arith));
}

want_bounds :
    (ch : Chan) → 0 < ch.slots → ch.slots < ch.cap → (ch.slots < want ch) × (want ch ≤ ch.cap)
unfolding want
want_bounds ch p q = elim (Bool-cases (ltb (ch.cap / 2) ch.slots)) [
  | inl near ↦ rw near (q, omega arith)
  | inr far ↦
      let below = ltb_false→le (ch.cap / 2) ch.slots far in rw far (omega arith, omega arith)
]

pub positive_test : (n : ℕ) → 0 < n → (n == 0) ≡ false
positive_test n h = ground arith

abbrev grown_buffer : Chan → ℕ → ℕ
grown_buffer ch = (grown ch).buffer

grown_at :
    (ch : Chan) (j : ℕ)
    → j < ch.count
    → ch.count < want ch
    → grown_buffer ch ((0 + j) % want ch) ≡ ch.buffer ((ch.head + j) % ch.slots)
grown_at ch j p q =
    let at : (0 + j) % want ch ≡ j =
      ap (λ x. x % want ch) (omega arith) ∙ mod-eq_of_lt (omega arith) in
    ap (grown_buffer ch) at ∙ rw (lt→ltb j ch.count p)

-- chan_grow of a full ring below its bound: a larger ring of the same values.
pub chan_grow_lem :
    (ch : Chan)
    → IsRing ch
    → ch.count ≡ ch.slots
    → ch.count < ch.cap
    → (chan_grow ch ≡ ok (grown ch))
      × (items (grown ch) ≡ items ch)
      × IsRing (grown ch)
      × (ch.count < want ch)
unfolding chan_grow items
chan_grow_lem ch r full below =
    let some_slots = r.allocated (omega arith) in
    let (more, most) = want_bounds ch some_slots (omega arith) in
    (
      rw (
        positive_test ch.slots some_slots,
        le→ltb_false ch.cap ch.slots r.bounded,
        (==_iff ch.count ch.slots).1 full,
      ),
      values-cong (λ j. grown_buffer ch ((0 + j) % want ch))
          (λ j. ch.buffer ((ch.head + j) % ch.slots)) 0 ch.count
          (λ j p q. grown_at ch j (omega arith) (omega arith)),
      record {
        within = omega arith;
        bounded = most;
        allocated = λ p. omega arith;
        head_in = λ p. p;
        tail_at = sym (mod-eq_of_lt (omega arith) ∙ omega arith);
      },
      omega arith,
    )

-- Below the bound a value is enqueued: it goes behind the values that were there.
pub enqueue_lem :
    (value : ℕ) (ch : Chan)
    → IsRing ch
    → ch.count < ch.cap
    → (after : Chan) × (enqueue value ch ≡ ok after)
      × (items after ≡ items ch ++ (value ∷ []))
      × IsRing after
      × (after.count ≡ suc ch.count)
      × (after.cap ≡ ch.cap)
      × (after.senders ≡ ch.senders)
      × (after.receivers ≡ ch.receivers)
      × (after.selectors ≡ ch.selectors)
      × (after.closed ≡ ch.closed)
unfolding enqueue chan_ring_next
enqueue_lem value ch r below =
    let some_slots = r.allocated (omega arith) in
    elim (Bool-cases (ch.count == ch.slots)) [
      | inl full ↦
          let (grows, kept, ring, room) =
            chan_grow_lem ch r ((==_iff ch.count ch.slots).0 full) below in
          (
            enqueued (grown ch) value,
            rw (full, grows) (rw (positive_test (want ch) (omega arith))),
            items-enqueued (grown ch) value ring room ∙ ap (λ xs. xs ++ (value ∷ [])) kept,
            enqueued-IsRing (grown ch) value ring room,
            refl,
            refl,
            refl,
            refl,
            refl,
            refl,
          )
      | inr free ↦
          let room : ch.count < ch.slots = ground (arith, r.within) in
          (
            enqueued ch value,
            rw free (rw (positive_test ch.slots some_slots)),
            items-enqueued ch value r room,
            enqueued-IsRing ch value r room,
            refl,
            refl,
            refl,
            refl,
            refl,
            refl,
          )
    ]
