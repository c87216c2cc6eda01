-- ===== src/Handle/Fresh.antt =====
-- handle_alloc and handle_lookup: what a new handle and the older ones resolve to.
use Prim.Native.String.{String}
use mathlib.Core.Bool.{not}
use sprout_lang.Prelude.{
  ℕ, ◌<◌, false, leb, ◌==◌, ◌||◌, Option, none, some, List, [], ◌∷◌, ◌++◌, length, get_elem?,
  get_elem?-append_left, ◌≡◌, ◌≢◌, refl, sym, ap, ◌∙◌, inl, inr, ok, fail, ==_iff, Bool-cases,
  arith,
}
use sprout_lang.Handle.{
  HandleSlot, Handles, update, handle_make, index_of, generation_of, handle_alloc, handle_lookup,
}
use sprout_lang.Handle.Slots.{
  index_of-handle_make, generation_of-handle_make, update_same, update_other, get_elem?-end,
}
use sprout_lang.Handle.Stale.{Option-cases, inside}

-- The table has a slot to give: the first free one, which has no record and a 32-bit generation
-- from 1 on, or one past its end.
unfoldable pub Fits : List HandleSlot → Option ℕ → Type 0
Fits ss none = length ss < 4294967295
Fits ss (some idx) =
    (slot : HandleSlot) × (get_elem? ss idx ≡ some slot)
    × (slot.ptr ≡ none)
    × (0 < slot.gen)
    × (idx < 4294967295)

-- What a resolved handle says of its slot.
resolved :
    (handle kind : ℕ) (stale : String) (h : Handles) (slot : HandleSlot) (p : ℕ)
    → get_elem? h.slots (index_of handle) ≡ some slot
    → handle_lookup handle kind stale h ≡ ok p
    → slot.ptr ≢ none
unfolding handle_lookup
resolved handle kind stale h slot p e found empty = ok≢fail (sym found ∙ fails.1)
  where
    ok≢fail : {a : ℕ} {m : String} → ok a ≡ fail m → ⊥
    ok≢fail q = cc q

    fails : (m : String) × (handle_lookup handle kind stale h ≡ fail m)
    fails = elim (Bool-cases (generation_of handle == 0 || not (slot.kind == kind))) [
      | inl bad ↦ ("invalid handle", rw (handle_lookup, e, bad))
      | inr fine ↦ elim (Bool-cases (slot.gen == generation_of handle)) [
        | inl now ↦ (stale, rw (handle_lookup, e, fine, now, empty))
        | inr later ↦ (stale, rw (handle_lookup, e, fine, later))
      ]
    ]

-- A lookup reads the slot of the handle only.
lookup-slots :
    (handle kind : ℕ) (stale : String) (h g : Handles)
    → get_elem? h.slots (index_of handle) ≡ get_elem? g.slots (index_of handle)
    → handle_lookup handle kind stale h ≡ handle_lookup handle kind stale g
unfolding handle_lookup
lookup-slots handle kind stale h g e = rw (handle_lookup, e)

lookup-live :
    (gen idx kind ptr : ℕ) (stale : String) (h : Handles) (slot : HandleSlot)
    → idx < 4294967296
    → get_elem? h.slots idx ≡ some slot
    → slot.gen ≡ gen
    → 0 < gen
    → slot.kind ≡ kind
    → slot.ptr ≡ some ptr
    → handle_lookup (handle_make gen idx) kind stale h ≡ ok ptr
unfolding handle_lookup
lookup-live gen idx kind ptr stale h slot small e g p k f = rw (
  handle_lookup,
  index_of-handle_make gen idx small,
  e,
  generation_of-handle_make gen idx small,
  positive gen p,
  (==_iff slot.kind kind).1 k,
  (==_iff slot.gen gen).1 g,
  f,
)
  where
    positive : (n : ℕ) → 0 < n → (n == 0) ≡ false
    positive n q = ground arith

-- The allocation succeeds, the new handle resolves, and the old ones resolve as before.
abbrev Allocated : ℕ → ℕ → String → Handles → Type 0
Allocated kind ptr stale h =
    (handle : ℕ) × (after : Handles) × (handle_alloc kind ptr h ≡ ok (handle, after))
    × (handle_lookup handle kind stale after ≡ ok ptr)
    × ((other k p : ℕ)
        → handle_lookup other k stale h ≡ ok p
        → handle_lookup other k stale after ≡ ok p)

missing_fails :
    (handle kind : ℕ) (stale : String) (h : Handles) (p : ℕ)
    → get_elem? h.slots (index_of handle) ≡ none
    → handle_lookup handle kind stale h ≢ ok p
unfolding handle_lookup
missing_fails handle kind stale h p e found =
    let fails : handle_lookup handle kind stale h ≡ fail "invalid handle" = rw (handle_lookup, e) in
    cc (found, fails)

alloc_end :
    (kind ptr : ℕ) (stale : String) (ss : List HandleSlot)
    → length ss < 4294967295
    → Allocated kind ptr stale (record { slots = ss; free = none })
unfolding handle_alloc
alloc_end kind ptr stale ss room =
    let full : leb 4294967295 (length ss) ≡ false = ground arith in
    let new : HandleSlot = record { gen = 1; kind = kind; ptr = some ptr; next_free = none } in
    let h : Handles = record { slots = ss; free = none } in
    let after : Handles = record { slots = ss ++ (new ∷ []); free = none } in
    (
      handle_make 1 (length ss),
      after,
      rw full,
      lookup-live 1 (length ss) kind ptr stale after new (omega arith) (get_elem?-end ss new) refl
          (omega arith) refl refl,
      λ other k p found. elim (Option-cases (get_elem? ss (index_of other))) [
        | inl missing ↦ absurd (missing_fails other k stale h p missing found)
        | inr (slot, e) ↦
            sym (
              lookup-slots other k stale h after (
                sym (
                  get_elem?-append_left ss (new ∷ []) (index_of other)
                    (inside ss (index_of other) slot e))))
            ∙ found
      ],
    )

alloc_reuse :
    (kind ptr : ℕ) (stale : String) (ss : List HandleSlot) (idx : ℕ) (slot : HandleSlot)
    → get_elem? ss idx ≡ some slot
    → slot.ptr ≡ none
    → 0 < slot.gen
    → idx < 4294967295
    → Allocated kind ptr stale (record { slots = ss; free = some idx })
unfolding handle_alloc
alloc_reuse kind ptr stale ss idx slot e empty some_gen small =
    let new : HandleSlot = record slot { ptr = some ptr; kind = kind } in
    let h : Handles = record { slots = ss; free = some idx } in
    let after : Handles = record { slots = update ss idx new; free = slot.next_free } in
    (
      handle_make slot.gen idx,
      after,
      rw (handle_alloc, e),
      lookup-live slot.gen idx kind ptr stale after new (omega arith)
          (update_same ss idx slot new e) refl some_gen refl refl,
      λ other k p found. elim (Bool-cases (index_of other == idx)) [
        | inl same ↦
            let here = (==_iff (index_of other) idx).0 same in
            absurd (resolved other k stale h slot p (ap (get_elem? ss) here ∙ e) found empty)
        | inr different ↦
            sym (
              lookup-slots other k stale h after (
                sym (update_other ss idx (index_of other) new (λ q. ground (arith, q, different)))))
            ∙ found
      ],
    )

-- The table has a slot to give: the first free one, which has no record and a generation from 1
-- on, or one past its end. Then the allocation succeeds, its handle resolves to the new record as a
-- handle of its kind, and every handle that resolved before resolves to the same record as before.
pub handle_alloc_lem :
    (kind ptr : ℕ) (stale : String) (h : Handles)
    → Fits h.slots h.free
    → (handle : ℕ) × (after : Handles) × (handle_alloc kind ptr h ≡ ok (handle, after))
      × (handle_lookup handle kind stale after ≡ ok ptr)
      × ((other k p : ℕ)
          → handle_lookup other k stale h ≡ ok p
          → handle_lookup other k stale after ≡ ok p)
unfolding Fits
handle_alloc_lem kind ptr stale h fits = give h.slots h.free fits
  where
    give :
        (ss : List HandleSlot) (f : Option ℕ)
        → Fits ss f
        → Allocated kind ptr stale (record { slots = ss; free = f })
    give ss none room = alloc_end kind ptr stale ss room
    give ss (some idx) (slot, e, empty, some_gen, small) =
        alloc_reuse kind ptr stale ss idx slot e empty some_gen small
