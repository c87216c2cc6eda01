-- ===== src/Handle.antt =====
-- runtime/sprout_scheduler.c: the handle table of the scheduler (handle_make, handle_alloc,
-- handle_release, handle_lookup).
--
-- The table is the list of its slots, so its capacity, and a realloc that fails, are left out. A
-- pointer is a number, `none` is NULL, and `none` as an index is HANDLE_NONE. Generations and
-- indexes are 32-bit, and a handle has the generation above the index.
pub mod Slots
pub mod Stale
pub mod Fresh
mod Examples
use Prim.Native.Nat.{bit_or}
use Prim.Native.String.{String}
use sprout_lang.Prelude.{
  ℕ, zero, suc, ◌*◌, ◌/◌, ◌%◌, leb, ◌==◌, ◌||◌, if◌then◌else◌, Option, none, some, List, [], ◌∷◌,
  ◌++◌, length, get_elem?, Outcome, ok, fail,
}
use mathlib.Core.Bool.{not}

pub record HandleSlot : Type 0 where
  pub gen : ℕ
  pub kind : ℕ
  pub ptr : Option ℕ
  pub next_free : Option ℕ

pub record Handles : Type 0 where
  pub slots : List HandleSlot
  pub free : Option ℕ

unfoldable pub update : List HandleSlot → ℕ → HandleSlot → List HandleSlot
update [] i slot = []
update (s ∷ ss) zero slot = slot ∷ ss
update (s ∷ ss) (suc i) slot = s ∷ update ss i slot

-- `(gen << 32) | idx`
unfoldable pub handle_make : ℕ → ℕ → ℕ
handle_make gen idx = bit_or (gen * 4294967296) idx

-- `handle & 0xffffffff` and `handle >> 32`
unfoldable pub index_of : ℕ → ℕ
index_of handle = handle % 4294967296

unfoldable pub generation_of : ℕ → ℕ
generation_of handle = handle / 4294967296

unfoldable pub handle_alloc : ℕ → ℕ → Handles → Outcome (ℕ × Handles)
handle_alloc kind ptr h = elim (h.free) [
  | some idx ↦ elim (get_elem? h.slots idx) [
    | none ↦ fail "index out of the table"
    | some slot ↦ ok (
      handle_make slot.gen idx,
      record {
        slots = update h.slots idx (record slot { ptr = some ptr; kind = kind });
        free = slot.next_free;
      },
    )
  ]
  | none ↦
      if leb 4294967295 (length h.slots)
      then fail "scheduler: out of handles"
      else ok (
        handle_make 1 (length h.slots),
        record {
          slots =
              h.slots ++ (record { gen = 1; kind = kind; ptr = some ptr; next_free = none } ∷ []);
          free = none;
        },
      )
]

-- The code reads the slot without a test: its callers hold a handle of a live record. A generation
-- that is used up retires the slot.
unfoldable pub handle_release : ℕ → Handles → Outcome Handles
handle_release handle h = elim (get_elem? h.slots (index_of handle)) [
  | none ↦ fail "index out of the table"
  | some slot ↦ ok (
      if slot.gen == 4294967295
      then record h { slots = update h.slots (index_of handle) (record slot { ptr = none }) }
      else record {
        slots =
            update h.slots (index_of handle)
              (record slot { ptr = none; gen = suc slot.gen; next_free = h.free });
        free = some (index_of handle);
      })
]

unfoldable pub handle_lookup : ℕ → ℕ → String → Handles → Outcome ℕ
handle_lookup handle kind stale h = elim (get_elem? h.slots (index_of handle)) [
  | none ↦ fail "invalid handle"
  | some slot ↦
      if generation_of handle == 0 || not (slot.kind == kind)
      then fail "invalid handle"
      else if not (slot.gen == generation_of handle)
      then fail stale
      else elim (slot.ptr) [ none ↦ fail stale | some ptr ↦ ok ptr ]
]

-- HANDLE_SCOPE, HANDLE_TASK and HANDLE_CHAN are 1, 2 and 3.
unfoldable pub scope_of : ℕ → Handles → Outcome ℕ
scope_of handle h = handle_lookup handle 1 "scope used after it closed" h

unfoldable pub task_of : ℕ → Handles → Outcome ℕ
task_of handle h = handle_lookup handle 2 "task used after its scope closed" h

unfoldable pub chan_of : ℕ → Handles → Outcome ℕ
chan_of handle h = handle_lookup handle 3 "channel used after its scope closed" h
