-- ===== src/Text/Walks.antt =====
-- The walks over a String, on the codepoints that it encodes.
use mathlib.Core.List.{append_assoc}
use sprout_lang.Prelude.{
  take-length, take-append-drop, ℕ, zero, suc, ◌+◌, ◌-◌, ◌≤◌, Option, none, some, List, [], ◌∷◌,
  ◌++◌, length, length-append, take, drop, get_elem?, ◌≡◌, refl, sym, ap, ◌∙◌, ok, arith,
}
use sprout_lang.Prelude.Int.{ℤ, pos, negsuc, pos_part}
use sprout_lang.Text.{
  encode, count_from, skip_codepoints, char_at_from, sprout_utf8_codepoint_count, str_len,
  str_slice, str_char_at,
}
use sprout_lang.Text.Encoding.{IsScalar, Front, encode-Front, form_of}

-- The String of a list of codepoints.
unfoldable pub encode_all : List ℕ → List ℕ
encode_all [] = []
encode_all (cp ∷ cps) = encode cp ++ encode_all cps

abbrev pub AllScalar : List ℕ → Type 0
AllScalar [] = Unit
AllScalar (cp ∷ cps) = IsScalar cp × AllScalar cps

-- The codepoint at an index, which may be negative.
abbrev pub codepoint_at : List ℕ → ℤ → Option ℕ
codepoint_at cps (pos i) = get_elem? cps i
codepoint_at cps (negsuc n) = none

pub front : (cp : ℕ) (cps : List ℕ) → IsScalar cp → Front cp (encode_all cps)
front cp cps h = encode-Front cp (encode_all cps) h.in_range (form_of cp)

pub encode_all-Front :
    (cp : ℕ) (cps : List ℕ) (f : Front cp (encode_all cps))
    → encode_all (cp ∷ cps) ≡ f.first ∷ f.more ++ encode_all cps
unfolding encode_all
encode_all-Front cp cps f = rw f.bytes

count_from-encode_all :
    (fuel : ℕ) (cps : List ℕ) (n : ℕ)
    → AllScalar cps
    → length (encode_all cps) ≤ fuel
    → count_from fuel (encode_all cps) n ≡ ok (n + length cps)
unfolding count_from
count_from-encode_all zero [] n a h = ap ok (omega arith)
count_from-encode_all (suc fuel) [] n a h = unfold encode_all in ap ok (omega arith)
count_from-encode_all zero (cp ∷ cps) n (p, a) h =
    let f = front cp cps p in absurd (omega (arith, ap length (encode_all-Front cp cps f)))
count_from-encode_all (suc fuel) (cp ∷ cps) n (p, a) h =
    let f = front cp cps p in
    let shorter : length (encode_all cps) ≤ fuel =
      omega (arith, ap length (encode_all-Front cp cps f), length-append f.more (encode_all cps)) in
    rw (encode_all-Front cp cps f, f.step, f.dropped)
      (count_from-encode_all fuel cps (n + 1) a shorter ∙ ap ok (omega arith))

-- `str_len` counts the codepoints of a String.
pub str_len-encode_all :
    (cps : List ℕ) → AllScalar cps → str_len (some (encode_all cps)) ≡ ok (length cps)
unfolding str_len sprout_utf8_codepoint_count
str_len-encode_all cps a =
    count_from-encode_all (length (encode_all cps)) cps 0 a (omega arith) ∙ ap ok (omega arith)

skip_codepoints-encode_all :
    (n : ℕ) (cps : List ℕ)
    → AllScalar cps
    → skip_codepoints n (encode_all cps) ≡ ok (encode_all (drop n cps))
unfolding skip_codepoints
skip_codepoints-encode_all zero cps a = refl
skip_codepoints-encode_all (suc n) [] a = unfold encode_all in refl
skip_codepoints-encode_all (suc n) (cp ∷ cps) (p, a) =
    let f = front cp cps p in
    rw (encode_all-Front cp cps f, f.step, f.dropped) (skip_codepoints-encode_all n cps a)

char_at_from-encode_all :
    (i : ℕ) (cps : List ℕ) → AllScalar cps → char_at_from i (encode_all cps) ≡ ok (get_elem? cps i)
unfolding char_at_from
char_at_from-encode_all zero [] a = unfold encode_all in refl
char_at_from-encode_all (suc i) [] a = unfold encode_all in refl
char_at_from-encode_all zero (cp ∷ cps) (p, a) =
    let f = front cp cps p in rw (encode_all-Front cp cps f, f.step, f.decoded)
char_at_from-encode_all (suc i) (cp ∷ cps) (p, a) =
    let f = front cp cps p in
    rw (encode_all-Front cp cps f, f.step)
      (ap (char_at_from i) f.dropped ∙ char_at_from-encode_all i cps a)

-- `str_char_at` reads the codepoint at an index, and Nothing outside.
pub str_char_at-encode_all :
    (cps : List ℕ) (i : ℤ)
    → AllScalar cps
    → str_char_at (some (encode_all cps)) i ≡ ok (codepoint_at cps i)
unfolding str_char_at
str_char_at-encode_all cps (pos i) a = char_at_from-encode_all i cps a
str_char_at-encode_all cps (negsuc n) a = refl

AllScalar-drop : (n : ℕ) (cps : List ℕ) → AllScalar cps → AllScalar (drop n cps)
AllScalar-drop zero cps a = a
AllScalar-drop (suc n) [] a = tt
AllScalar-drop (suc n) (cp ∷ cps) (p, a) = AllScalar-drop n cps a

encode_all-append : (xs ys : List ℕ) → encode_all (xs ++ ys) ≡ encode_all xs ++ encode_all ys
unfolding encode_all
encode_all-append [] ys = refl
encode_all-append (x ∷ xs) ys = simp (encode_all-append xs ys, append_assoc)

-- What lies before the last `length ys` bytes.
take_before : (xs ys : List ℕ) → take (length (xs ++ ys) - length ys) (xs ++ ys) ≡ xs
take_before xs ys =
    let count : length (xs ++ ys) - length ys ≡ length xs = omega (arith, length-append xs ys) in
    rw count (take-length xs ys)

-- `str_slice` takes a range of codepoints, clamped to the String at both ends: a negative count is
-- 0, and so is a negative start, which leaves the count as it is.
pub str_slice-encode_all :
    (cps : List ℕ) (start count : ℤ)
    → AllScalar cps
    → str_slice (some (encode_all cps)) start count
      ≡ ok (encode_all (take (pos_part count) (drop (pos_part start) cps)))
unfolding str_slice
str_slice-encode_all cps start count a =
    let from = drop (pos_part start) cps in
    let parts =
      sym (encode_all-append (take (pos_part count) from) (drop (pos_part count) from))
      ∙ ap encode_all (take-append-drop (pos_part count) from) in
    rw
      (
        skip_codepoints-encode_all (pos_part start) cps a,
        skip_codepoints-encode_all (pos_part count) from (AllScalar-drop (pos_part start) cps a),
        ← parts,
      )
      (ap ok (
        take_before (encode_all (take (pos_part count) from))
          (encode_all (drop (pos_part count) from))))
