-- ===== src/Http/Utf8.antt =====
-- The text that http_headers_fill writes: valid UTF-8, in the room that its caller asked for.
use mathlib.Core.List.{append_assoc}
use sprout_lang.Prelude.{
  ℕ, zero, suc, ◌*◌, ◌≤◌, ◌<◌, true, List, [], ◌∷◌, ◌++◌, ◌≡◌, refl, sym, ap, ◌∙◌, inl, inr, length,
  length-append, AllBytes, Bool-cases, arith,
}
use sprout_lang.Text.{Verdict, valid, invalid, utf8_validate, encode}
use sprout_lang.Text.Encoding.{IsScalar}
use sprout_lang.Text.Walks.{encode_all, AllScalar}
use sprout_lang.Text.Validate.{validate-encode_all}
use sprout_lang.Text.Decode.{utf8_validate_iff}
use sprout_lang.Http.Scan.{
  Scanned, whole, stops, scan-Scanned, drop_while-whole, take_while-whole, take_while-stops,
  drop_while-stops, length-stops,
}
use sprout_lang.Http.Chunked.{in_line}
use sprout_lang.Http.HeaderText.{
  is_valid, utf8_valid, latin_1, latin_1_all, fill_line, fill_lines, http_headers_fill,
}

-- A text that is the encoding of scalar values.
abbrev Encodes : List ℕ → Type 0
Encodes text = (cps : List ℕ) × AllScalar cps × (text ≡ encode_all cps)

-- A byte, and not NUL.
abbrev pub HeaderBytes : List ℕ → Type 0
HeaderBytes [] = Unit
HeaderBytes (b ∷ s) = (b < 256) × (0 < b) × HeaderBytes s

HeaderBytes-AllBytes : (s : List ℕ) → HeaderBytes s → AllBytes s
HeaderBytes-AllBytes [] h = tt
HeaderBytes-AllBytes (b ∷ s) (small, some, h) = (small, HeaderBytes-AllBytes s h)

HeaderBytes-front : (s t : List ℕ) → HeaderBytes (s ++ t) → HeaderBytes s
HeaderBytes-front [] t h = tt
HeaderBytes-front (b ∷ s) t (small, some, h) = (small, some, HeaderBytes-front s t h)

HeaderBytes-back : (s t : List ℕ) → HeaderBytes (s ++ t) → HeaderBytes t
HeaderBytes-back [] t h = h
HeaderBytes-back (b ∷ s) t (small, some, h) = HeaderBytes-back s t h

encode_all-append : (cps dps : List ℕ) → encode_all (cps ++ dps) ≡ encode_all cps ++ encode_all dps
unfolding encode_all
encode_all-append [] dps = refl
encode_all-append (c ∷ cps) dps =
    ap (λ t. encode c ++ t) (encode_all-append cps dps)
    ∙ sym (append_assoc (encode c) (encode_all cps) (encode_all dps))

AllScalar-append : (cps dps : List ℕ) → AllScalar cps → AllScalar dps → AllScalar (cps ++ dps)
AllScalar-append [] dps h k = k
AllScalar-append (c ∷ cps) dps (s, h) k = (s, AllScalar-append cps dps h k)

Encodes-append : (s t : List ℕ) → Encodes s → Encodes t → Encodes (s ++ t)
Encodes-append s t (cps, h, e) (dps, k, f) =
    (cps ++ dps, AllScalar-append cps dps h k, rw (e, f) (sym (encode_all-append cps dps)))

byte-IsScalar : (b : ℕ) → b < 256 → 0 < b → IsScalar b
byte-IsScalar b small some = record {
  positive = some;
  in_range = omega arith;
  no_surrogate = inl (omega arith);
}

latin_1-encode : (b : ℕ) → b < 256 → latin_1 b ≡ encode b
unfolding latin_1 encode
latin_1-encode b h = ground arith

latin_1_all-Encodes : (s : List ℕ) → HeaderBytes s → Encodes (latin_1_all s)
unfolding latin_1_all encode_all
latin_1_all-Encodes [] h = ([], tt, refl)
latin_1_all-Encodes (b ∷ s) (small, some, h) =
    let (cps, k, e) = latin_1_all-Encodes s h in
    (b ∷ cps, (byte-IsScalar b small some, k), rw (latin_1-encode b small, e))

newline-Encodes : Encodes (10 ∷ [])
unfolding encode_all encode
newline-Encodes = (10 ∷ [], (byte-IsScalar 10 (omega arith) (omega arith), tt), refl)

of_is_valid : (v : Verdict) → is_valid v ≡ true → v ≡ valid
of_is_valid valid h = refl
of_is_valid (invalid reason) h = cc h

valid-Encodes : (s : List ℕ) → HeaderBytes s → utf8_valid s ≡ true → Encodes s
unfolding utf8_valid
valid-Encodes s h e =
    (utf8_validate_iff s (HeaderBytes-AllBytes s h)).0 (of_is_valid (utf8_validate s) e)

-- `end` is the newline or nothing.
fill_line-Encodes :
    (line end : List ℕ)
    → HeaderBytes (line ++ end)
    → Encodes end
    → Encodes (fill_line line (line ++ end))
unfolding fill_line
fill_line-Encodes line end h k = elim (Bool-cases (utf8_valid line)) [
  | inl e ↦ rw e (Encodes-append line end (valid-Encodes line (HeaderBytes-front line end h) e) k)
  | inr e ↦ rw e (latin_1_all-Encodes (line ++ end) h)
]

last_line-Encodes : (line : List ℕ) → HeaderBytes line → Encodes (fill_line line line)
unfolding fill_line
last_line-Encodes line h = elim (Bool-cases (utf8_valid line)) [
  | inl e ↦ rw e (valid-Encodes line h e)
  | inr e ↦ rw e (latin_1_all-Encodes line h)
]

fill_lines-Encodes :
    (fuel : ℕ) (src : List ℕ)
    → Scanned in_line src
    → HeaderBytes src
    → Encodes (fill_lines fuel src)
unfolding fill_lines encode_all
fill_lines-Encodes zero src sc h = ([], tt, refl)
fill_lines-Encodes (suc fuel) [] sc h = ([], tt, refl)
fill_lines-Encodes (suc fuel) (c ∷ s) (whole a) h =
    rw (take_while-whole in_line (c ∷ s) a, drop_while-whole in_line (c ∷ s) a)
      (last_line-Encodes (c ∷ s) h)
fill_lines-Encodes (suc fuel) (c ∷ s) (stops front d rest e a stop) h =
    let newline : d ≡ 10 = ground arith in
    let all : HeaderBytes (front ++ (d ∷ rest)) = rw (← e) h in
    let line : HeaderBytes (front ++ (d ∷ [])) =
      HeaderBytes-front (front ++ (d ∷ [])) rest (rw (append_assoc front (d ∷ []) rest) all) in
    let after : HeaderBytes rest = (HeaderBytes-back front (d ∷ rest) all).2 in
    rw
      (
        take_while-stops in_line (c ∷ s) front rest d e a stop,
        drop_while-stops in_line (c ∷ s) front rest d e a stop,
      )
      (Encodes-append (fill_line front (front ++ (d ∷ []))) (fill_lines fuel rest)
        (fill_line-Encodes front (d ∷ []) line (rw newline newline-Encodes))
        (fill_lines-Encodes fuel rest (scan-Scanned in_line rest) after))

-- The text of a header block of bytes other than NUL is valid UTF-8, whatever the bytes.
pub utf8_validate-http_headers_fill :
    (src : List ℕ) → HeaderBytes src → utf8_validate (http_headers_fill src) ≡ valid
unfolding http_headers_fill utf8_validate
utf8_validate-http_headers_fill src h =
    let (cps, k, e) = fill_lines-Encodes (length src) src (scan-Scanned in_line src) h in
    rw e (validate-encode_all (length (encode_all cps)) cps k (omega arith))

length-latin_1 : (b : ℕ) → length (latin_1 b) ≤ 2
unfolding latin_1
length-latin_1 b = ground arith

length-latin_1_all : (s : List ℕ) → length (latin_1_all s) ≤ 2 * length s
unfolding latin_1_all
length-latin_1_all [] = omega arith
length-latin_1_all (b ∷ s) =
    omega (arith, length-append (latin_1 b) (latin_1_all s), length-latin_1 b, length-latin_1_all s)

length-fill_line : (line taken : List ℕ) → length (fill_line line taken) ≤ 2 * length taken
unfolding fill_line
length-fill_line line taken = elim (Bool-cases (utf8_valid line)) [
  | inl e ↦ rw e (omega arith)
  | inr e ↦ rw e (length-latin_1_all taken)
]

length-fill_lines :
    (fuel : ℕ) (src : List ℕ) → Scanned in_line src → length (fill_lines fuel src) ≤ 2 * length src
unfolding fill_lines
length-fill_lines zero src sc = omega arith
length-fill_lines (suc fuel) [] sc = omega arith
length-fill_lines (suc fuel) (c ∷ s) (whole a) =
    rw (take_while-whole in_line (c ∷ s) a, drop_while-whole in_line (c ∷ s) a)
      (length-fill_line (c ∷ s) (c ∷ s))
length-fill_lines (suc fuel) (c ∷ s) (stops front d rest e a stop) =
    let line = fill_line front (front ++ (d ∷ [])) in
    rw
      (
        take_while-stops in_line (c ∷ s) front rest d e a stop,
        drop_while-stops in_line (c ∷ s) front rest d e a stop,
      )
      (omega (
        arith,
        length-append line (fill_lines fuel rest),
        length-fill_line front (front ++ (d ∷ [])),
        length-append front (d ∷ []),
        length-fill_lines fuel rest (scan-Scanned in_line rest),
        length-stops in_line (c ∷ s) front rest d e a stop,
      ))

-- The text of a header block of any bytes fits the room of twice its length that
-- http_headers_to_utf8 asks for.
pub length-http_headers_fill : (src : List ℕ) → length (http_headers_fill src) ≤ 2 * length src
unfolding http_headers_fill
length-http_headers_fill src = length-fill_lines (length src) src (scan-Scanned in_line src)
