-- ===== src/Handle/Stale.antt =====
-- handle_release: a released handle never resolves again.
use Prim.Native.String.{String}
use mathlib.Core.Bool.{not}
use sprout_lang.Prelude.{
  ℕ, zero, suc, ◌<◌, ◌≤◌, false, leb, ◌==◌, ◌||◌, Option, none, some, List, [], ◌∷◌, ◌++◌, length,
  get_elem?, get_elem?-append_left, ◌≡◌, refl, sym, ap, ◌∙◌, ◌⊎◌, inl, inr, Outcome, ok, fail,
  ==_iff, Bool-cases, arith,
}
use sprout_lang.Handle.{
  HandleSlot, Handles, update, index_of, generation_of, handle_alloc, handle_release, handle_lookup,
}
use sprout_lang.Handle.Slots.{update_same, update_other}

-- What the program does to the table. An abort leaves it as it is.
pub data Op : Type 0 where
  alloc : ℕ → ℕ → Op
  release : ℕ → Op

abbrev pub after_alloc : Handles → Outcome (ℕ × Handles) → Handles
after_alloc h (ok (handle, after)) = after
after_alloc h (fail m) = h

abbrev pub after_release : Handles → Outcome Handles → Handles
after_release h (ok after) = after
after_release h (fail m) = h

unfoldable pub run : List Op → Handles → Handles
run [] h = h
run (alloc kind ptr ∷ ops) h = run ops (after_alloc h (handle_alloc kind ptr h))
run (release handle ∷ ops) h = run ops (after_release h (handle_release handle h))

-- The slot of the handle has gone on to a later generation.
abbrev pub IsStale : ℕ → Handles → Type 0
IsStale handle h =
    (slot : HandleSlot) × (get_elem? h.slots (index_of handle) ≡ some slot)
    × (generation_of handle < slot.gen)

pub Option-cases : {A : Type 0} (o : Option A) → (o ≡ none) ⊎ ((a : A) × (o ≡ some a))
Option-cases none = inl refl
Option-cases (some a) = inr (a, refl)

-- A slot that is replaced by one of no earlier generation.
IsStale-update :
    (handle : ℕ) (ss : List HandleSlot) (f g : Option ℕ) (i : ℕ) (old new : HandleSlot)
    → get_elem? ss i ≡ some old
    → old.gen ≤ new.gen
    → IsStale handle (record { slots = ss; free = f })
    → IsStale handle (record { slots = update ss i new; free = g })
IsStale-update handle ss f g i old new e le (slot, at, p) =
    elim (Bool-cases (index_of handle == i)) [
      | inl same ↦
          let here = (==_iff (index_of handle) i).0 same in
          let is_old : slot ≡ old = some-injective (sym at ∙ (ap (get_elem? ss) here ∙ e)) in
          let gens : slot.gen ≡ old.gen = ap (λ (s : HandleSlot). s.gen) is_old in
          (new, ap (get_elem? (update ss i new)) here ∙ update_same ss i old new e, omega arith)
      | inr other ↦
          (slot, update_other ss i (index_of handle) new (λ q. ground (arith, q, other)) ∙ at, p)
    ]
  where
    some-injective : {a b : HandleSlot} → some a ≡ some b → a ≡ b
    some-injective q = cc q

pub inside :
    (ss : List HandleSlot) (i : ℕ) (slot : HandleSlot) → get_elem? ss i ≡ some slot → i < length ss
inside [] i slot e = cc e
inside (s ∷ ss) zero slot e = omega arith
inside (s ∷ ss) (suc i) slot e = omega (arith, inside ss i slot e)

IsStale-append :
    (handle : ℕ) (ss : List HandleSlot) (f g : Option ℕ) (new : HandleSlot)
    → IsStale handle (record { slots = ss; free = f })
    → IsStale handle (record { slots = ss ++ (new ∷ []); free = g })
IsStale-append handle ss f g new (slot, at, p) = (
  slot,
  get_elem?-append_left ss (new ∷ []) (index_of handle) (inside ss (index_of handle) slot at) ∙ at,
  p,
)

IsStale-alloc :
    (handle kind ptr : ℕ) (ss : List HandleSlot) (free : Option ℕ)
    → let h : Handles = record { slots = ss; free = free } in
      IsStale handle h → IsStale handle (after_alloc h (handle_alloc kind ptr h))
unfolding handle_alloc
IsStale-alloc handle kind ptr ss none stale = elim (Bool-cases (leb 4294967295 (length ss))) [
  | inl out ↦ rw out stale
  | inr room ↦ rw room (IsStale-append handle ss none none _ stale)
]
IsStale-alloc handle kind ptr ss (some idx) stale = elim (Option-cases (get_elem? ss idx)) [
  | inl missing ↦ rw (after_alloc, handle_alloc, missing) stale
  | inr (slot, e) ↦
      rw (after_alloc, handle_alloc, e)
        (IsStale-update handle ss (some idx) slot.next_free idx slot
          (record slot { ptr = some ptr; kind = kind }) e (omega arith) stale)
]

IsStale-release :
    (handle other : ℕ) (h : Handles)
    → IsStale handle h
    → IsStale handle (after_release h (handle_release other h))
unfolding handle_release
IsStale-release handle other h stale = elim (Option-cases (get_elem? h.slots (index_of other))) [
  | inl missing ↦ rw (after_release, handle_release, missing) stale
  | inr (slot, e) ↦ elim (Bool-cases (slot.gen == 4294967295)) [
    | inl retired ↦
        rw (after_release, handle_release, e, retired)
          (IsStale-update handle h.slots h.free h.free (index_of other) slot
            (record slot { ptr = none }) e (omega arith) stale)
    | inr more ↦
        rw (after_release, handle_release, e, more)
          (IsStale-update handle h.slots h.free (some (index_of other)) (index_of other) slot
            (record slot { ptr = none; gen = suc slot.gen; next_free = h.free }) e (omega arith)
            stale)
  ]
]

IsStale-run :
    (handle : ℕ) (ops : List Op) (h : Handles) → IsStale handle h → IsStale handle (run ops h)
unfolding run
IsStale-run handle [] h stale = stale
IsStale-run handle (alloc kind ptr ∷ ops) h stale =
    IsStale-run handle ops (after_alloc h (handle_alloc kind ptr h))
      (IsStale-alloc handle kind ptr h.slots h.free stale)
IsStale-run handle (release other ∷ ops) h stale =
    IsStale-run handle ops (after_release h (handle_release other h))
      (IsStale-release handle other h stale)

lookup-IsStale :
    (handle kind : ℕ) (stale : String) (h : Handles)
    → IsStale handle h
    → (m : String) × (handle_lookup handle kind stale h ≡ fail m)
unfolding handle_lookup
lookup-IsStale handle kind stale h (slot, e, p) =
    elim (Bool-cases (generation_of handle == 0 || not (slot.kind == kind))) [
      | inl bad ↦ ("invalid handle", rw (handle_lookup, e, bad))
      | inr fine ↦
          let later : (slot.gen == generation_of handle) ≡ false = ground arith in
          (stale, rw (handle_lookup, e, fine, later))
    ]

-- A handle that its slot's generation belongs to is released: the release succeeds, and whatever
-- is allocated and released from then on, in whatever order, the handle never resolves again, as a
-- handle of any kind. The slot's last generation, 2^32 - 1, is left out.
pub handle_release-run :
    (handle kind : ℕ) (stale : String) (h : Handles) (slot : HandleSlot) (ops : List Op)
    → get_elem? h.slots (index_of handle) ≡ some slot
    → slot.gen ≡ generation_of handle
    → slot.gen < 4294967295
    → (after : Handles) × (handle_release handle h ≡ ok after)
      × ((m : String) × (handle_lookup handle kind stale (run ops after) ≡ fail m))
unfolding handle_release
handle_release-run handle kind stale h slot ops e live below =
    let more : (slot.gen == 4294967295) ≡ false = ground arith in
    let new : HandleSlot = record slot { ptr = none; gen = suc slot.gen; next_free = h.free } in
    let after : Handles = record {
      slots = update h.slots (index_of handle) new;
      free = some (index_of handle);
    } in
    (
      after,
      rw (handle_release, e, more),
      lookup-IsStale handle kind stale (run ops after) (
          IsStale-run handle ops after
            (new, update_same h.slots (index_of handle) slot new e, omega (arith, live))),
    )
