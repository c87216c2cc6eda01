-- ===== src/Http/Reader/Feed.antt =====
-- A response that arrives in any parts: the loop that appends a part and calls http_reader_step.
use mathlib.Core.List.{append_assoc, append-nil}
use sprout_lang.Prelude.{
  ℕ, Bool, true, false, List, [], ◌∷◌, ◌++◌, ◌≡◌, refl, sym, ap, ◌∙◌, inl, inr, length-append,
  arith,
}
use sprout_lang.Http.Reader.{HttpReader, http_reader_init, http_reader_step}
use sprout_lang.Http.Reader.Resumes.{InData, http_reader_step-Resumes}

-- The loop, from the bytes in the buffer: it stops at the first step that says so, with the bytes
-- that were read by then.
pub record Reading : Type 0 where
  pub reader : HttpReader
  pub stop : Bool
  pub buffer : List ℕ

abbrev after_step : (HttpReader → Reading) → List ℕ → HttpReader × Bool → Reading
after_step go buffer (r, true) = record { reader = r; stop = true; buffer = buffer }
after_step go buffer (r, false) = go r

unfoldable pub read_parts : HttpReader → List ℕ → List (List ℕ) → Reading
read_parts r buffer [] = record { reader = r; stop = false; buffer = buffer }
read_parts r buffer (part ∷ parts) =
    after_step (λ r'. read_parts r' (buffer ++ part) parts) (buffer ++ part)
      (http_reader_step r (buffer ++ part))

abbrev pub outcome : Reading → HttpReader × Bool
outcome reading = (reading.reader, reading.stop)

-- The reader `r` has read the buffer: any further bytes it takes as the new reader does.
abbrev HasRead : HttpReader → HttpReader → List ℕ → Type 0
HasRead start r buffer =
    (more : List ℕ) → http_reader_step r (buffer ++ more) ≡ http_reader_step start (buffer ++ more)

InData-append : (r : HttpReader) (bytes more : List ℕ) → InData r bytes → InData r (bytes ++ more)
unfolding InData
InData-append r bytes more (inl h) = inl h
InData-append r bytes more (inr h) = inr (omega (arith, h, length-append bytes more))

HasRead-step :
    (start r r' : HttpReader) (buffer part : List ℕ)
    → InData r buffer
    → HasRead start r buffer
    → http_reader_step r (buffer ++ part) ≡ (r', false)
    → HasRead start r' (buffer ++ part) × InData r' (buffer ++ part)
HasRead-step start r r' buffer part place same h =
    let place' = InData-append r buffer part place in
    (
      λ more.
          (http_reader_step-Resumes r r' (buffer ++ part) more place' h).0
          ∙ (ap (http_reader_step r) (append_assoc buffer part more)
              ∙ (same (part ++ more)
                  ∙ sym (ap (http_reader_step start) (append_assoc buffer part more)))),
      (http_reader_step-Resumes r r' (buffer ++ part) [] place' h).1,
    )

whole_buffer :
    (start r : HttpReader) (buffer : List ℕ)
    → HasRead start r buffer
    → http_reader_step r buffer ≡ http_reader_step start buffer
whole_buffer start r buffer same =
    sym (ap (http_reader_step r) (append-nil buffer))
    ∙ (same [] ∙ ap (http_reader_step start) (append-nil buffer))

-- After a part, `z` is what the step on it gave.
after_parts :
    (start r : HttpReader) (buffer part : List ℕ) (parts : List (List ℕ)) (z : HttpReader × Bool)
    → InData r buffer
    → HasRead start r buffer
    → http_reader_step r (buffer ++ part) ≡ z
    → outcome (after_step (λ r'. read_parts r' (buffer ++ part) parts) (buffer ++ part) z)
      ≡ http_reader_step start
          (after_step (λ r'. read_parts r' (buffer ++ part) parts) (buffer ++ part) z).buffer
unfolding read_parts
after_parts start r buffer part parts (r', true) place same h = sym h ∙ same part
after_parts start r buffer part [] (r', false) place same h = sym h ∙ same part
after_parts start r buffer part (next ∷ parts) (r', false) place same h =
    let (same', place') = HasRead-step start r r' buffer part place same h in
    after_parts start r' (buffer ++ part) next parts
      (http_reader_step r' ((buffer ++ part) ++ next)) place' same' refl

-- However a response is cut into parts as it arrives, with one part at least, the reader ends as
-- it does after a single step on all the bytes that it has read, and stops if and only if that
-- step does.
pub read_parts-step :
    (max_header_bytes max_body_bytes : ℕ) (head_only : Bool) (part : List ℕ) (parts : List (List ℕ))
    → outcome
        (read_parts (http_reader_init max_header_bytes max_body_bytes head_only) [] (part ∷ parts))
      ≡ http_reader_step
          (http_reader_init max_header_bytes max_body_bytes head_only)
          (read_parts
            (http_reader_init max_header_bytes max_body_bytes head_only)
            []
            (part ∷ parts)).buffer
unfolding read_parts http_reader_init InData
read_parts-step max_header_bytes max_body_bytes head_only part parts =
    let start = http_reader_init max_header_bytes max_body_bytes head_only in
    after_parts start start [] part parts (http_reader_step start part) (inr (omega arith))
      (λ more. refl) refl
