-- ===== src/Http/Arrivals.antt =====
-- http_decode_chunked_body on a body of which more bytes arrive.
use Prim.Native.Nat.{bit_or}
use Prim.Native.String.{String}
use sprout_lang.Prelude.{
  ℕ, zero, suc, ◌<◌, Bool, true, false, ◌&&◌, ltb, ◌==◌, if◌then◌else◌, Option, none, some, List,
  [], ◌∷◌, ◌++◌, ◌≡◌, ◌≢◌, refl, sym, ap, ◌∙◌, ◌⊎◌, inl, inr, length, length-append, length-drop,
  take, drop, take-append_left, drop-append_left, Bool-cases, ◌*◌, ◌^◌, ==_iff, ltb_false→le,
  le→ltb_false, arith,
}
use sprout_lang.Http.Scan.{
  take_while, drop_while, All, Scanned, whole, stops, scan-Scanned, drop_while-whole,
  take_while-whole, take_while-stops, drop_while-stops, take_while-more, drop_while-more,
  length-stops,
}
use sprout_lang.Http.Chunked.{
  Chunked, decoded, failed, stuck, with_chunk, ended_early, is_line_end, in_size, in_line,
  ChunkSize, chunk_size, bad_size, parse_size, chunk_terminator, chunk_data, sized, no_digits,
  decode_chunk, decode_chunks, http_decode_chunked_body, hex_digit_value, digit_step,
}

-- A result `r` and that on more bytes: `r` says that the body ended early, or both are the same
-- and final.
data Later (r r' : Chunked) : Type 0 where
  early : r ≡ ended_early → Later r r'
  done : (out : List ℕ) → r ≡ decoded out → r' ≡ decoded out → Later r r'
  refused : (msg : String) → r ≡ failed msg false → r' ≡ failed msg false → Later r r'

Later-with_chunk :
    (bytes : List ℕ) (r r' : Chunked)
    → Later r r'
    → Later (with_chunk bytes r) (with_chunk bytes r')
Later-with_chunk bytes r r' (early e) = early (ap (with_chunk bytes) e)
Later-with_chunk bytes r r' (done out e f) =
    done (bytes ++ out) (ap (with_chunk bytes) e) (ap (with_chunk bytes) f)
Later-with_chunk bytes r r' (refused msg e f) =
    refused msg (ap (with_chunk bytes) e) (ap (with_chunk bytes) f)

bad_digit :
    (o : Option ℕ) (large : Bool) (k k' : ℕ → ChunkSize) (msg : String)
    → ((digit : ℕ) → k digit ≡ bad_size msg → k' digit ≡ bad_size msg)
    → digit_step o large k ≡ bad_size msg
    → digit_step o large k' ≡ bad_size msg
bad_digit none large k k' msg f h = h
bad_digit (some digit) true k k' msg f h = h
bad_digit (some digit) false k k' msg f h = f digit h

-- Further digits leave a size that is refused refused, for the same reason.
parse_size-bad :
    (size : ℕ) (s t : List ℕ) (msg : String)
    → parse_size size s ≡ bad_size msg
    → parse_size size (s ++ t) ≡ bad_size msg
unfolding parse_size
parse_size-bad size [] t msg h = cc h
parse_size-bad size (c ∷ s) t msg h =
    bad_digit (hex_digit_value c) (ltb 1152921504606846975 size)
      (λ digit. parse_size (bit_or (size * 2 ^ 4) digit) s)
      (λ digit. parse_size (bit_or (size * 2 ^ 4) digit) (s ++ t)) msg
      (λ digit. parse_size-bad (bit_or (size * 2 ^ 4) digit) s t msg) h

take_while-grows :
    (p : ℕ → Bool) (s t : List ℕ) → All p s → take_while p (s ++ t) ≡ s ++ take_while p t
unfolding take_while
take_while-grows p [] t a = refl
take_while-grows p (c ∷ s) t (e, a) = rw e (ap (λ xs. c ∷ xs) (take_while-grows p s t a))

module _ (go go' : List ℕ → Chunked) (more : List ℕ) where
  AgreeBelow : ℕ → Type 0
  AgreeBelow n = (t : List ℕ) → length t < n → Later (go t) (go' (t ++ more))

  lone_newline : (s : List ℕ) → chunk_terminator go' (10 ∷ s) ≡ go' s
  unfolding chunk_terminator
  lone_newline [] = refl
  lone_newline (c ∷ s) = refl

  other_terminator :
      (c : ℕ) (s : List ℕ)
      → (c == 10) ≡ false
      → (c == 13) ≡ false
      → chunk_terminator go' (c ∷ s) ≡ failed "invalid chunk terminator" false
  unfolding chunk_terminator
  other_terminator c [] n r = rw (n, r)
  other_terminator c (d ∷ s) n r = rw (n, r)

  chunk_terminator-Later :
      (s : List ℕ)
      → AgreeBelow (suc (length s))
      → Later (chunk_terminator go s) (chunk_terminator go' (s ++ more))
  unfolding chunk_terminator AgreeBelow
  chunk_terminator-Later [] h = early refl
  chunk_terminator-Later (c ∷ []) h = elim (Bool-cases (c == 10)) [
    | inl n ↦
        let step : chunk_terminator go' (c ∷ more) ≡ go' more =
          ap (λ d. chunk_terminator go' (d ∷ more)) ((==_iff c 10).0 n) ∙ lone_newline more in
        rw (n, step) (h [] (omega arith))
    | inr n ↦ elim (Bool-cases (c == 13)) [
      | inl r ↦ rw (n, r) (early refl)
      | inr r ↦
          rw (n, r, other_terminator c more n r) (refused "invalid chunk terminator" refl refl)
    ]
  ]
  chunk_terminator-Later (c0 ∷ c1 ∷ s) h = elim (Bool-cases (c0 == 13 && c1 == 10)) [
    | inl e ↦ rw e (h s (omega arith))
    | inr e ↦ elim (Bool-cases (c0 == 10)) [
      | inl n ↦ rw (e, n) (h (c1 ∷ s) (omega arith))
      | inr n ↦ rw (e, n) (refused "invalid chunk terminator" refl refl)
    ]
  ]

  chunk_data-Later :
      (size : ℕ) (s : List ℕ)
      → AgreeBelow (length s)
      → Later (chunk_data go size s) (chunk_data go' size (s ++ more))
  unfolding chunk_data AgreeBelow
  chunk_data-Later size [] h = early refl
  chunk_data-Later size (newline ∷ s) h = elim (Bool-cases (size == 0)) [
    | inl z ↦ rw z (done [] refl refl)
    | inr z ↦ elim (Bool-cases (ltb (length s) size)) [
      | inl short ↦ rw (z, short) (early refl)
      | inr enough ↦
          let fits = ltb_false→le (length s) size enough in
          let fits' : ltb (length (s ++ more)) size ≡ false =
            le→ltb_false (length (s ++ more)) size (omega (arith, length-append s more)) in
          rw
            (z, enough, fits', take-append_left size s more fits, drop-append_left size s more fits)
            (Later-with_chunk (take size s) (chunk_terminator go (drop size s))
              (chunk_terminator go' (drop size s ++ more))
              (chunk_terminator-Later (drop size s)
                (λ t small. h t (omega (arith, length-drop size s)))))
    ]
  ]

  data_line-Later :
      (size : ℕ) (s : List ℕ)
      → Scanned in_line s
      → AgreeBelow (length s)
      → Later
          (chunk_data go size (drop_while in_line s))
          (chunk_data go' size (drop_while in_line (s ++ more)))
  unfolding chunk_data AgreeBelow
  data_line-Later size s (whole a) h = rw (drop_while-whole in_line s a) (early refl)
  data_line-Later size s (stops front c rest e a stop) h =
      rw
        (
          drop_while-stops in_line s front rest c e a stop,
          drop_while-more in_line s front rest c e a stop more,
        )
        (chunk_data-Later size (c ∷ rest)
          (λ t small. h t (omega (arith, length-stops in_line s front rest c e a stop))))

  sized-Later :
      (size : ChunkSize) (s : List ℕ)
      → AgreeBelow (length s)
      → Later (sized go size s) (sized go' size (s ++ more))
  sized-Later (bad_size msg) s h = refused msg refl refl
  sized-Later (chunk_size size) s h = data_line-Later size s (scan-Scanned in_line s) h

  line-Later :
      (digits s : List ℕ)
      → AgreeBelow (length s)
      → Later
          (if no_digits digits
            then failed "invalid chunk size" false
            else sized go (parse_size 0 digits) s)
          (if no_digits digits
            then failed "invalid chunk size" false
            else sized go' (parse_size 0 digits) (s ++ more))
  line-Later [] s h = refused "invalid chunk size" refl refl
  line-Later (c ∷ digits) s h = sized-Later (parse_size 0 (c ∷ digits)) s h

  open_line-Later :
      (s : List ℕ) (size size' : ChunkSize)
      → ((msg : String) → size ≡ bad_size msg → size' ≡ bad_size msg)
      → Later (sized go size []) (sized go' size' s)
  unfolding chunk_data drop_while
  open_line-Later s (chunk_size n) size' h = early refl
  open_line-Later s (bad_size msg) size' h = refused msg refl (ap (λ z. sized go' z s) (h msg refl))

  chunk_line-Later :
      (c : ℕ) (s : List ℕ)
      → Scanned in_size (c ∷ s)
      → AgreeBelow (suc (length s))
      → Later (decode_chunk go (c ∷ s)) (decode_chunk go' (c ∷ (s ++ more)))
  unfolding decode_chunk AgreeBelow
  chunk_line-Later c s (whole a) h =
      let all = take_while-whole in_size (c ∷ s) a in
      let none_left = drop_while-whole in_size (c ∷ s) a in
      let grown = take_while-grows in_size (c ∷ s) more a in
      rw (all, none_left, grown)
        (open_line-Later (drop_while in_size (c ∷ (s ++ more))) (parse_size 0 (c ∷ s))
          (parse_size 0 (c ∷ (s ++ take_while in_size more)))
          (parse_size-bad 0 (c ∷ s) (take_while in_size more)))
  chunk_line-Later c s (stops front d rest e a stop) h =
      let size = length-stops in_size (c ∷ s) front rest d e a stop in
      rw
        (
          take_while-stops in_size (c ∷ s) front rest d e a stop,
          drop_while-stops in_size (c ∷ s) front rest d e a stop,
          take_while-more in_size (c ∷ s) front rest d e a stop more,
          drop_while-more in_size (c ∷ s) front rest d e a stop more,
        )
        (line-Later front (d ∷ rest) (λ t small. h t (omega (arith, size))))

  decode_chunk-Later :
      (s : List ℕ)
      → Scanned is_line_end s
      → AgreeBelow (length s)
      → Later
          (decode_chunk go (drop_while is_line_end s))
          (decode_chunk go' (drop_while is_line_end (s ++ more)))
  unfolding decode_chunk AgreeBelow
  decode_chunk-Later s (whole a) h = rw (drop_while-whole is_line_end s a) (early refl)
  decode_chunk-Later s (stops front c rest e a stop) h =
      let size = length-stops is_line_end s front rest c e a stop in
      rw
        (
          drop_while-stops is_line_end s front rest c e a stop,
          drop_while-more is_line_end s front rest c e a stop more,
        )
        (chunk_line-Later c rest (scan-Scanned in_size (c ∷ rest))
          (λ t small. h t (omega (arith, size))))

decode_chunks-Later :
    (fuel fuel' : ℕ) (s more : List ℕ)
    → length s < fuel
    → length (s ++ more) < fuel'
    → Later (decode_chunks fuel s) (decode_chunks fuel' (s ++ more))
unfolding decode_chunks AgreeBelow
decode_chunks-Later zero fuel' s more h h' = absurd (omega arith)
decode_chunks-Later (suc fuel) zero s more h h' = absurd (omega arith)
decode_chunks-Later (suc fuel) (suc fuel') s more h h' =
    decode_chunk-Later (decode_chunks fuel) (decode_chunks fuel') more s
      (scan-Scanned is_line_end s)
      (λ t small.
        decode_chunks-Later fuel fuel' t more (omega arith)
          (omega (arith, length-append s more, length-append t more)))

final : (r r' : Chunked) → Later r r' → (r ≡ ended_early) ⊎ (r' ≡ r)
final r r' (early e) = inl e
final r r' (done out e f) = inr (f ∙ sym e)
final r r' (refused msg e f) = inr (f ∙ sym e)

-- When more bytes arrive, a chunked body that was decoded decodes to the same bytes, and one that
-- was refused as malformed is refused with the same message; only a body that ended early can turn
-- into something else.
pub http_decode_chunked_body-more :
    (body more : List ℕ)
    → (http_decode_chunked_body body ≡ ended_early)
      ⊎ (http_decode_chunked_body (body ++ more) ≡ http_decode_chunked_body body)
unfolding http_decode_chunked_body
http_decode_chunked_body-more body more =
    final (http_decode_chunked_body body) (http_decode_chunked_body (body ++ more)) (
      decode_chunks-Later (suc (length body)) (suc (length (body ++ more))) body more (omega arith)
        (omega arith))

Later-decided : (r r' : Chunked) → Later r r' → r ≢ stuck
Later-decided r r' (early e) h = cc (e, h)
Later-decided r r' (done out e f) h = cc (e, h)
Later-decided r r' (refused msg e f) h = cc (e, h)

-- The decoder ends on every input: the rounds that it is given never run out.
pub http_decode_chunked_body-total : (body : List ℕ) → http_decode_chunked_body body ≢ stuck
unfolding http_decode_chunked_body
http_decode_chunked_body-total body =
    Later-decided (http_decode_chunked_body body)
      (decode_chunks (suc (length (body ++ []))) (body ++ []))
      (decode_chunks-Later (suc (length body)) (suc (length (body ++ []))) body [] (omega arith)
        (omega arith))
