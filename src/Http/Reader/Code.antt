-- ===== src/Http/Reader/Code.antt =====
-- The status code of a response whose head has arrived, when more bytes follow: strtoll and
-- http_reader_parse_head.
use sprout_lang.Prelude.{
  ℕ, suc, ◌+◌, ◌-◌, ◌≤◌, ◌<◌, Bool, true, false, ltb, ◌==◌, List, [], ◌∷◌, ◌++◌, ◌≡◌, refl, sym, ap,
  ◌∙◌, inl, inr, length, length-take, length-drop, take, drop, Bool-cases, ltb_false→le,
  take-append_left, drop-append_left, arith,
}
use sprout_lang.Prelude.Int.{ℤ}
use sprout_lang.Http.Scan.{
  take_while, drop_while, Scanned, whole, stops, scan-Scanned, drop_while-whole, take_while-whole,
  take_while-stops, drop_while-stops, take_while-more, drop_while-more, length-stops,
}
use sprout_lang.Http.Chunked.{in_line}
use sprout_lang.Http.Headers.{is_digit}
use sprout_lang.Http.Reader.Status.{strtoll, signed, number, is_c_space}
use sprout_lang.Http.Reader.{
  HttpReader, drop_cr, in_word, with_code, status_code, headers_end, http_reader_parse_head,
  http_reader_fail,
}

number-more :
    (before : ℕ) (negative : Bool) (s more : List ℕ)
    → Scanned is_digit s
    → 0 < (number before negative (take_while is_digit s)).1
    → (number before negative (take_while is_digit s)).1 < before + length s
    → number before negative (take_while is_digit (s ++ more))
      ≡ number before negative (take_while is_digit s)
unfolding take_while
number-more before negative [] more (whole a) some small = absurd (omega (arith, some))
number-more before negative (c ∷ s) more (whole a) some small =
    let used : (number before negative (take_while is_digit (c ∷ s))).1 ≡ before + length (c ∷ s) =
      ap (λ ds. (number before negative ds).1) (take_while-whole is_digit (c ∷ s) a) in
    absurd (omega (arith, used, small))
number-more before negative s more (stops front c rest e a stop) some small =
    ap (number before negative) (
      take_while-more is_digit s front rest c e a stop more
      ∙ sym (take_while-stops is_digit s front rest c e a stop))

same_number :
    (z z' : ℤ × ℕ) (before : ℕ) (negative : Bool) (s more : List ℕ)
    → z ≡ number before negative (take_while is_digit s)
    → z' ≡ number before negative (take_while is_digit (s ++ more))
    → 0 < z.1
    → z.1 < before + length s
    → z' ≡ z
same_number z z' before negative s more e e' some small =
    let used = ap (λ y. y.1) e in
    e'
    ∙ (number-more before negative s more (scan-Scanned is_digit s) (omega (arith, used, some))
          (omega (arith, used, small))
        ∙ sym e)

signed-more :
    (before c : ℕ) (s more : List ℕ)
    → 0 < (signed before (c ∷ s)).1
    → (signed before (c ∷ s)).1 < before + suc (length s)
    → signed before (c ∷ (s ++ more)) ≡ signed before (c ∷ s)
signed-more before c s more some small =
    let z = signed before (c ∷ s) in
    let z' = signed before (c ∷ (s ++ more)) in
    elim (Bool-cases (c == b'-')) [
      | inl m ↦ same_number z z' (suc before) true s more (rw m) (rw m) some (omega (arith, small))
      | inr m ↦ elim (Bool-cases (c == b'+')) [
        | inl p ↦
            same_number z z' (suc before) false s more (rw (m, p)) (rw (m, p)) some
              (omega (arith, small))
        | inr p ↦
            same_number z z' before false (c ∷ s) more (rw (m, p)) (rw (m, p)) some
              (omega (arith, small))
      ]
    ]

strtoll_text-more :
    (s more : List ℕ)
    → Scanned is_c_space s
    → 0 < (strtoll s).1
    → (strtoll s).1 < length s
    → strtoll (s ++ more) ≡ strtoll s
unfolding strtoll
strtoll_text-more s more (whole a) some small =
    let nothing : (strtoll s).1 ≡ 0 =
      ap (λ t. (signed (length (take_while is_c_space s)) t).1) (drop_while-whole is_c_space s a) in
    absurd (omega (arith, nothing, some))
strtoll_text-more s more (stops front c rest e a stop) some small =
    let now : strtoll s ≡ signed (length front) (c ∷ rest) = rw (
      take_while-stops is_c_space s front rest c e a stop,
      drop_while-stops is_c_space s front rest c e a stop,
    ) in
    let later : strtoll (s ++ more) ≡ signed (length front) (c ∷ (rest ++ more)) = rw (
      take_while-more is_c_space s front rest c e a stop more,
      drop_while-more is_c_space s front rest c e a stop more,
    ) in
    let used = ap (λ y. y.1) now in
    later
    ∙ (signed-more (length front) c rest more (omega (arith, used, some))
          (omega (arith, used, small, length-stops is_c_space s front rest c e a stop))
        ∙ sym now)

-- strtoll that ends before the end of what is there takes the same number when more bytes follow.
strtoll-more :
    (s more : List ℕ)
    → 0 < (strtoll s).1
    → (strtoll s).1 < length s
    → strtoll (s ++ more) ≡ strtoll s
strtoll-more s more = strtoll_text-more s more (scan-Scanned is_c_space s)

pub stopped : (z : HttpReader × Bool) (r' : HttpReader) → z.1 ≡ true → z ≡ (r', false) → ⊥
stopped z r' t h = let g : z.1 ≡ false = ap (λ y. y.1) h in cc (t, g)

with_code-more :
    (r r' : HttpReader) (room : ℕ) (s more headers : List ℕ)
    → room < length s
    → with_code r room headers (strtoll s) ≡ (r', false)
    → with_code r room headers (strtoll (s ++ more)) ≡ (r', false)
unfolding http_reader_fail
with_code-more r r' room s more headers fits h =
    let z = with_code r room headers (strtoll s) in
    elim (Bool-cases ((strtoll s).1 == 0)) [
      | inl e ↦ absurd (stopped z r' (rw e) h)
      | inr e ↦ elim (Bool-cases (ltb room (strtoll s).1)) [
        | inl f ↦ absurd (stopped z r' (rw (e, f)) h)
        | inr f ↦
            let some : 0 < (strtoll s).1 = ground arith in
            let inside = ltb_false→le room (strtoll s).1 f in
            ap (with_code r room headers) (strtoll-more s more some (omega (arith, inside, fits)))
            ∙ h
      ]
    ]

status_code-more :
    (r r' : HttpReader) (code text more headers : List ℕ)
    → length code < length text
    → status_code r code text headers ≡ (r', false)
    → status_code r code (text ++ more) headers ≡ (r', false)
unfolding http_reader_fail
status_code-more r r' [] text more headers fits h =
    absurd (stopped (status_code r [] text headers) r' refl h)
status_code-more r r' (space ∷ code) [] more headers fits h = absurd (omega (arith, fits))
status_code-more r r' (space ∷ code) (c ∷ text) more headers fits h =
    with_code-more r r' (length code) text more headers (omega (arith, fits)) h

length-drop_cr : (s : List ℕ) → length (drop_cr s) ≤ length s
unfolding drop_cr
length-drop_cr [] = omega arith
length-drop_cr (c ∷ []) = ground arith
length-drop_cr (c ∷ d ∷ s) = omega (arith, length-drop_cr (d ∷ s))

length-scan :
    (p : ℕ → Bool) (s : List ℕ) → length (take_while p s) + length (drop_while p s) ≡ length s
unfolding take_while drop_while
length-scan p [] = omega arith
length-scan p (c ∷ s) = elim (Bool-cases (p c)) [
  | inl e ↦ rw e (omega (arith, length-scan p s))
  | inr e ↦ rw e (omega arith)
]

-- A head that was accepted is read in the same way when more bytes follow.
pub http_reader_parse_head-more :
    (r r' : HttpReader) (bytes more : List ℕ) (blank_start : ℕ)
    → blank_start < length bytes
    → http_reader_parse_head r bytes blank_start ≡ (r', false)
    → http_reader_parse_head r (bytes ++ more) blank_start ≡ (r', false)
unfolding http_reader_parse_head
http_reader_parse_head-more r r' bytes more blank_start inside h =
    let head = take blank_start bytes in
    let line = take_while in_line head in
    let status_line = drop_cr line in
    let start = length line + 1 in
    let end = headers_end head start blank_start in
    let word = take_while in_word status_line in
    let sizes : length word + length (drop_while in_word status_line) < length bytes = omega (
      arith,
      length-scan in_word status_line,
      length-drop_cr line,
      length-scan in_line head,
      length-take blank_start bytes,
      inside,
    ) in
    rw
      (
        take-append_left blank_start bytes more (omega (arith, inside)),
        drop-append_left (length word) bytes more (omega (arith, sizes)),
      )
      (status_code-more (record r { headers_start = start; headers_len = end - start }) r'
        (drop_while in_word status_line) (drop (length word) bytes) more
        (take (end - start) (drop start head))
        (omega (arith, sizes, length-drop (length word) bytes)) h)
