-- ===== src/Http/Reader/Resumes.antt =====
-- http_reader_step on a response that arrives in parts.
use sprout_lang.Prelude.{
  ℕ, suc, ◌+◌, ◌-◌, ◌≤◌, ◌<◌, Bool, true, false, ltb, leb, if◌then◌else◌, none, List, ◌++◌, ◌≡◌,
  refl, sym, ap, ◌∙◌, ◌⊎◌, inl, inr, length, length-append, length-drop, drop, drop-append_left,
  Bool-cases, arith,
}
use sprout_lang.Http.Scan.{scan-Scanned}
use sprout_lang.Http.Chunked.{in_line}
use sprout_lang.Http.Reader.{
  HttpFraming, frame_none, frame_length, frame_chunked, frame_close, HttpReader, http_reader_fail,
  http_reader_parse_head, HeadEnd, unfinished, blank, find_blank, body_step, read_body, with_head,
  with_blank, http_reader_step, fail_body_limit, fail_header_limit,
}
use sprout_lang.Http.Reader.Code.{stopped, http_reader_parse_head-more}
use sprout_lang.Http.Reader.Blank.{Resumed, found, resumes, find_blank-Resumed, drop-add}

-- The scan stands inside the bytes that have arrived.
unfoldable pub InData : HttpReader → List ℕ → Type 0
InData r bytes = (r.head_done ≡ true) ⊎ (r.scan ≤ length bytes)

abbrev Continues : HttpReader × Bool → HttpReader → Type 0
Continues z r = z ≡ (r, false)

-- A step that goes on did not meet its limit.
unless :
    (limit : Bool) (z w : HttpReader × Bool) (r : HttpReader)
    → z.1 ≡ true
    → Continues (if limit then z else w) r
    → (limit ≡ false) × Continues w r
unless true z w r e h = absurd (stopped z r e h)
unless false z w r e h = (refl, h)

same_reader : (r r' : HttpReader) (go : Bool) → Continues (r, go) r' → r ≡ r'
same_reader r r' go h = ap (λ z. z.0) h

body_limit :
    (r r' : HttpReader) (limit : Bool)
    → Continues (if limit then http_reader_fail r fail_body_limit none else (r, false)) r'
    → r ≡ r'
unfolding http_reader_fail
body_limit r r' limit h =
    let (_, same) = unless limit (http_reader_fail r fail_body_limit none) (r, false) r' refl h in
    same_reader r r' false same

-- A body that goes on leaves the reader as it is.
body_step-same :
    (r r' : HttpReader) (got : ℕ) (framing : HttpFraming)
    → Continues (body_step r got framing) r'
    → r ≡ r'
body_step-same r r' got frame_none h = same_reader r r' true h
body_step-same r r' got frame_length h = same_reader r r' (leb r.content_length got) h
body_step-same r r' got frame_chunked h = body_limit r r' (ltb r.max_body_bytes got) h
body_step-same r r' got frame_close h = body_limit r r' (ltb r.max_body_bytes got) h

read_body-same : (r r' : HttpReader) (len : ℕ) → Continues (read_body r len) r' → r ≡ r'
unfolding read_body
read_body-same r r' len h = body_step-same r r' (len - r.body_start) r.framing h

abbrev past_head : HttpReader → HttpReader
past_head r = record r { head_done = true }

with_head-Continues :
    (z : HttpReader × Bool) (r' : HttpReader) (len : ℕ)
    → Continues (with_head z len) r'
    → (r : HttpReader) × Continues z r × (past_head r ≡ r')
with_head-Continues (r, true) r' len h = absurd (stopped (r, true) r' refl h)
with_head-Continues (r, false) r' len h = (r, refl, read_body-same (past_head r) r' len h)

abbrev at_scan : HttpReader → ℕ → ℕ → HttpReader
at_scan r scan lines = record r { scan = scan; lines = lines }

-- The scan's place is written over by what the scan finds.
with_blank-at_scan :
    (r : HttpReader) (scan lines : ℕ) (bytes : List ℕ) (end : HeadEnd)
    → with_blank (at_scan r scan lines) bytes end ≡ with_blank r bytes end
with_blank-at_scan r scan lines bytes (unfinished scan' lines') = refl
with_blank-at_scan r scan lines bytes (blank lines' start body) = refl

abbrev scan_of : HttpReader → List ℕ → HeadEnd
scan_of r bytes = find_blank (suc (length bytes)) r.scan r.lines (drop r.scan bytes)

step_of :
    (r : HttpReader) (bytes : List ℕ)
    → r.head_done ≡ false
    → http_reader_step r bytes ≡ with_blank r bytes (scan_of r bytes)
unfolding http_reader_step
step_of r bytes h = rw h

-- One step on more bytes is the step on all of them.
abbrev Resumes : HttpReader → HttpReader → List ℕ → List ℕ → Type 0
Resumes r r' bytes more =
    (http_reader_step r' (bytes ++ more) ≡ http_reader_step r (bytes ++ more)) × InData r' bytes

module _ (r : HttpReader) (bytes more : List ℕ) (open_head : r.head_done ≡ false)
    (inside : r.scan ≤ length bytes) where
  rest_lem : (seen : ℕ) → drop (r.scan + seen) bytes ≡ drop seen (drop r.scan bytes)
  rest_lem seen = drop-add r.scan seen bytes

  scan-Resumes :
      (seen lines : ℕ)
      → seen ≤ length (drop r.scan bytes)
      → scan_of r (bytes ++ more) ≡ scan_of (at_scan r (r.scan + seen) lines) (bytes ++ more)
      → Resumes r (at_scan r (r.scan + seen) lines) bytes more
  unfolding InData
  scan-Resumes seen lines few same =
      let R = at_scan r (r.scan + seen) lines in
      let all : List ℕ = bytes ++ more in
      (
        step_of R all open_head
            ∙ (with_blank-at_scan r (r.scan + seen) lines all (scan_of R all)
                ∙ (ap (with_blank r all) (sym same) ∙ sym (step_of r all open_head))),
        inr (omega (arith, few, length-drop r.scan bytes, inside)),
      )

  unfinished-Resumes :
      (r' : HttpReader) (seen lines : ℕ)
      → seen ≤ length (drop r.scan bytes)
      → scan_of r (bytes ++ more) ≡ scan_of (at_scan r (r.scan + seen) lines) (bytes ++ more)
      → Continues (with_blank r bytes (unfinished (r.scan + seen) lines)) r'
      → Resumes r r' bytes more
  unfolding http_reader_fail
  unfinished-Resumes r' seen lines few same h =
      let R = at_scan r (r.scan + seen) lines in
      let (_, goes_on) =
        unless (ltb r.max_header_bytes (length bytes)) (http_reader_fail R fail_header_limit none)
          (R, false) r' refl h in
      rw (← same_reader R r' false goes_on) (scan-Resumes seen lines few same)

  blank-Resumes :
      (r' : HttpReader) (lines start body : ℕ)
      → start < length bytes
      → scan_of r (bytes ++ more) ≡ blank lines start body
      → Continues (with_blank r bytes (blank lines start body)) r'
      → Resumes r r' bytes more
  unfolding http_reader_fail http_reader_step InData
  blank-Resumes r' lines start body before same h =
      let R = record r { scan = start; lines = lines; body_start = body } in
      let all : List ℕ = bytes ++ more in
      let (limit, goes_on) =
        unless (ltb r.max_header_bytes body) (http_reader_fail R fail_header_limit none)
          (with_head (http_reader_parse_head R bytes start) (length bytes)) r' refl h in
      let (r2, parsed, done) =
        with_head-Continues (http_reader_parse_head R bytes start) r' (length bytes) goes_on in
      let parsed' = http_reader_parse_head-more R r2 bytes more start before parsed in
      let whole_step : http_reader_step r all ≡ read_body (past_head r2) (length all) =
        step_of r all open_head ∙ rw (same, limit, parsed') in
      rw (← done) (sym whole_step, inl refl)

  step-Resumes :
      (r' : HttpReader)
      → Resumed
          (suc (length bytes))
          (suc (length (bytes ++ more)))
          r.scan
          r.lines
          (drop r.scan bytes)
          more
      → Continues (http_reader_step r bytes) r'
      → Resumes r r' bytes more
  step-Resumes r' (found lines start body f g before) h =
      let left = drop-append_left r.scan bytes more inside in
      let size = length-drop r.scan bytes in
      blank-Resumes r' lines start body (omega (arith, before, size, inside))
        (ap (find_blank (suc (length (bytes ++ more))) r.scan r.lines) left ∙ g)
        (ap (with_blank r bytes) (sym f) ∙ (sym (step_of r bytes open_head) ∙ h))
  step-Resumes r' (resumes seen lines f few g) h =
      let all : List ℕ = bytes ++ more in
      let fuel = suc (length all) in
      let size = length-drop r.scan bytes in
      let left = drop-append_left r.scan bytes more inside in
      let past : drop (r.scan + seen) all ≡ drop seen (drop r.scan bytes) ++ more =
        drop-append_left (r.scan + seen) bytes more (omega (arith, few, size, inside))
        ∙ ap (λ t. t ++ more) (rest_lem seen) in
      let enough : length (drop seen (drop r.scan bytes) ++ more) < fuel = omega (
        arith,
        length-append (drop seen (drop r.scan bytes)) more,
        length-append bytes more,
        length-drop seen (drop r.scan bytes),
        size,
      ) in
      unfinished-Resumes r' seen lines few
        (ap (find_blank fuel r.scan r.lines) left
          ∙ (g fuel enough ∙ ap (find_blank fuel (r.scan + seen) lines) (sym past)))
        (ap (with_blank r bytes) (sym f) ∙ (sym (step_of r bytes open_head) ∙ h))

body-Resumes :
    (r r' : HttpReader) (bytes more : List ℕ)
    → r.head_done ≡ true
    → Continues (http_reader_step r bytes) r'
    → Resumes r r' bytes more
unfolding InData http_reader_step
body-Resumes r r' bytes more done h =
    let step : http_reader_step r bytes ≡ read_body r (length bytes) = rw done in
    rw (← read_body-same r r' (length bytes) (sym step ∙ h)) (refl, inl done)

head-Resumes :
    (r r' : HttpReader) (bytes more : List ℕ)
    → r.head_done ≡ false
    → InData r bytes
    → Continues (http_reader_step r bytes) r'
    → Resumes r r' bytes more
unfolding InData
head-Resumes r r' bytes more open_head (inl done) h = cc (open_head, done)
head-Resumes r r' bytes more open_head (inr inside) h =
    let left = length-drop r.scan bytes in
    step-Resumes r bytes more open_head inside r'
      (find_blank-Resumed (suc (length bytes)) (suc (length (bytes ++ more))) r.scan r.lines
        (drop r.scan bytes) more (omega (arith, left))
        (omega (arith, left, length-append bytes more, length-append (drop r.scan bytes) more))
        (scan-Scanned in_line (drop r.scan bytes)))
      h

-- A step that goes on has lost nothing: the next step, when more bytes have arrived, does what one
-- step on all of them does, and its scan stands inside the bytes again.
pub http_reader_step-Resumes :
    (r r' : HttpReader) (bytes more : List ℕ)
    → InData r bytes
    → http_reader_step r bytes ≡ (r', false)
    → (http_reader_step r' (bytes ++ more) ≡ http_reader_step r (bytes ++ more)) × InData r' bytes
http_reader_step-Resumes r r' bytes more place h = elim (Bool-cases r.head_done) [
  | inl done ↦ body-Resumes r r' bytes more done h
  | inr open_head ↦ head-Resumes r r' bytes more open_head place h
]
