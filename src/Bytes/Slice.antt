-- ===== src/Bytes/Slice.antt =====
-- bytes_slice, bytes_get, bytes_length and bytes_append.
use sprout_lang.Prelude.{
  ℕ, zero, suc, ◌+◌, ◌-◌, ◌<◌, ◌≤◌, min, true, ltb, leb, if◌then◌else◌, none, some, List, [], ◌∷◌,
  ◌++◌, ◌≡◌, refl, sym, ap, ◌∙◌, inl, inr, ok, length, get_elem?, take, drop, length-take,
  length-drop, length-append, take-append-drop, get_elem?-append_left, get_elem?-append_right,
  Bool-cases, arith,
}
use sprout_lang.Prelude.Int.{ℤ, pos}
use sprout_lang.Bytes.{bytes_length, bytes_get, clamp, bytes_slice, bytes_append}

clamped : (a b : ℕ) → (if ltb b a then b else a) ≡ min a b
clamped a b = ground arith

clamped_count : (len s c : ℕ) → s ≤ len → (if ltb len (s + c) then len - s else c) ≡ min c (len - s)
clamped_count len s c h = ground arith

-- A slice of any Bytes, with any start and count, negative and too large ones included: the value
-- is a front, the slice and a back; the front is as long as the start, cut to the range from 0 to
-- the length, and the slice as long as the count, cut to what is left.
pub bytes_slice_lem :
    (value : List ℕ) (start count : ℤ)
    → (front out back : List ℕ) × (bytes_slice (some value) start count ≡ ok out)
      × (value ≡ front ++ (out ++ back))
      × (length front ≡ min (clamp start) (length value))
      × (length out ≡ min (clamp count) (length value - length front))
unfolding bytes_slice
bytes_slice_lem value start count =
    let len = length value in
    let s = min (clamp start) len in
    let c = min (clamp count) (len - s) in
    let size = length-take s value in
    (
      take s value,
      take c (drop s value),
      drop c (drop s value),
      rw (clamped (clamp start) len, clamped_count len s (clamp count) (omega arith)),
      sym (
          ap (λ ys. take s value ++ ys) (take-append-drop c (drop s value))
          ∙ take-append-drop s value),
      omega (arith, size),
      omega (arith, size, length-take c (drop s value), length-drop s value),
    )

at_index : (xs : List ℕ) (i : ℕ) → bytes_get (some xs) (pos i) ≡ ok (get_elem? xs i)
unfolding bytes_get
at_index xs i = elim (Bool-cases (leb (length xs) i)) [
  | inl past ↦ rw past (ap ok (sym (past_end xs i past)))
  | inr inside ↦ rw inside
]
  where
    past_end : (ys : List ℕ) (j : ℕ) → leb (length ys) j ≡ true → get_elem? ys j ≡ none
    past_end [] j h = refl
    past_end (y ∷ ys) zero h = absurd (ground arith)
    past_end (y ∷ ys) (suc j) h = past_end ys j (ground arith)

-- Two Bytes appended: the length is the sum, an index below the length of the left one reads it, and
-- an index that far on reads the right one, or nothing past its end.
pub bytes_append_lem :
    (left right : List ℕ)
    → (out : List ℕ) × (bytes_append (some left) (some right) ≡ ok out)
      × (bytes_length (some out) ≡ ok (length left + length right))
      × ((i : ℕ) → i < length left → bytes_get (some out) (pos i) ≡ bytes_get (some left) (pos i))
      × ((i : ℕ) → bytes_get (some out) (pos (length left + i)) ≡ bytes_get (some right) (pos i))
unfolding bytes_append bytes_length
bytes_append_lem left right = (
  left ++ right,
  refl,
  ap ok (length-append left right),
  λ i h.
      at_index (left ++ right) i
      ∙ (ap ok (get_elem?-append_left left right i h) ∙ sym (at_index left i)),
  λ i.
      at_index (left ++ right) (length left + i)
      ∙ (ap ok (get_elem?-append_right left right i) ∙ sym (at_index right i)),
)
