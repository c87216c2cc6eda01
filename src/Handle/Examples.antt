-- ===== src/Handle/Examples.antt =====
-- The handle table at concrete inputs.
use Prim.Native.String.{String}
use sprout_lang.Prelude.{ℕ, none, some, [], ◌∷◌, ◌≡◌, refl, ok, fail, arith}
use sprout_lang.Handle.{
  Handles, index_of, generation_of, handle_alloc, handle_release, handle_lookup,
}
use sprout_lang.Handle.Stale.{alloc, run, handle_release-run}
use sprout_lang.Handle.Fresh.{Fits, handle_alloc_lem}

-- Slot 0 has record 70 in its third generation, slot 1 is free in its second.
abbrev table : Handles
table = record {
  slots =
      record { gen = 3; kind = 1; ptr = some 70; next_free = none }
      ∷ record { gen = 2; kind = 2; ptr = none; next_free = none }
      ∷ [];
  free = some 1;
}

table-Fits : Fits (table.slots) (table.free)
unfolding Fits
table-Fits = (_, refl, refl, omega arith, omega arith)

handle_alloc_lem_example :
    (handle : ℕ) × (after : Handles) × (handle_alloc 2 80 table ≡ ok (handle, after))
    × (handle_lookup handle 2 "gone" after ≡ ok 80)
    × ((other k p : ℕ)
        → handle_lookup other k "gone" table ≡ ok p
        → handle_lookup other k "gone" after ≡ ok p)
handle_alloc_lem_example = handle_alloc_lem 2 80 "gone" table table-Fits

-- The slot is used again by two allocations.
handle_release-run_example :
    (after : Handles) × (handle_release 12884901888 table ≡ ok after)
    × ((m : String) × (handle_lookup 12884901888 1 "gone" (run (alloc 1 90 ∷ alloc 1 91 ∷ []) after)
          ≡ fail m))
unfolding index_of generation_of
handle_release-run_example =
    handle_release-run 12884901888 1 "gone" table
      (record { gen = 3; kind = 1; ptr = some 70; next_free = none }) (alloc 1 90 ∷ alloc 1 91 ∷ [])
      refl refl (omega arith)
