-- ===== src/Http/Chunked.antt =====
-- runtime/sprout_runtime.c: hex_digit_value and http_decode_chunked_body.
--
-- A failure has its message and whether the input ended early (`*incomplete`). `stuck` is the
-- model's own: the fuel of the loop ran out.
use Prim.Native.Nat.{bit_or}
use Prim.Native.String.{String}
use sprout_lang.Prelude.{
  ℕ, zero, suc, ◌+◌, ◌-◌, ◌*◌, ◌^◌, Bool, true, false, ◌&&◌, ◌||◌, ltb, leb, ◌==◌, if◌then◌else◌,
  Option, none, some, List, [], ◌∷◌, ◌++◌, length, take, drop,
}
use mathlib.Core.Bool.{not}
use sprout_lang.Http.Scan.{take_while, drop_while}

unfoldable pub hex_digit_value : ℕ → Option ℕ
hex_digit_value ch =
    if leb b'0' ch && leb ch b'9'
    then some (ch - b'0')
    else if leb b'a' ch && leb ch b'f'
    then some (10 + (ch - b'a'))
    else if leb b'A' ch && leb ch b'F'
    then some (10 + (ch - b'A'))
    else none

pub data Chunked : Type 0 where
  decoded : List ℕ → Chunked
  failed : String → Bool → Chunked
  stuck : Chunked

abbrev pub with_chunk : List ℕ → Chunked → Chunked
with_chunk bytes (decoded out) = decoded (bytes ++ out)
with_chunk bytes (failed msg incomplete) = failed msg incomplete
with_chunk bytes stuck = stuck

abbrev pub ended_early : Chunked
ended_early = failed "chunked body ended before the last chunk" true

abbrev pub is_line_end : ℕ → Bool
is_line_end c = c == 13 || c == 10

abbrev pub in_size : ℕ → Bool
in_size c = not (c == 13) && not (c == 10) && not (c == b';')

abbrev pub in_line : ℕ → Bool
in_line c = not (c == 10)

pub data ChunkSize : Type 0 where
  chunk_size : ℕ → ChunkSize
  bad_size : String → ChunkSize

abbrev pub size_max : ℕ
size_max = 18446744073709551615

-- One digit of a size; `large` is the test on the size so far, and `next` the size with it.
abbrev pub digit_step : Option ℕ → Bool → (ℕ → ChunkSize) → ChunkSize
digit_step none large next = bad_size "invalid chunk size"
digit_step (some digit) large next = if large then bad_size "chunk size too large" else next digit

-- The loop over the digits, from the size so far.
unfoldable pub parse_size : ℕ → List ℕ → ChunkSize
parse_size size [] = chunk_size size
parse_size size (c ∷ s) =
    digit_step (hex_digit_value c) (ltb 1152921504606846975 size)
      (λ digit. parse_size (bit_or (size * 2 ^ 4) digit) s)

-- The end of a chunk's data; `go` is the loop.
unfoldable pub chunk_terminator : (List ℕ → Chunked) → List ℕ → Chunked
chunk_terminator go [] = ended_early
chunk_terminator go (c ∷ []) =
    if c == 10
    then go []
    else if c == 13
    then ended_early
    else failed "invalid chunk terminator" false
chunk_terminator go (c0 ∷ c1 ∷ s) =
    if c0 == 13 && c1 == 10
    then go s
    else if c0 == 10
    then go (c1 ∷ s)
    else failed "invalid chunk terminator" false

-- Behind the digits of a size: the rest of its line, and the data.
unfoldable pub chunk_data : (List ℕ → Chunked) → ℕ → List ℕ → Chunked
chunk_data go size [] = ended_early
chunk_data go size (newline ∷ s) =
    if size == 0
    then decoded []
    else if ltb (length s) size
    then ended_early
    else with_chunk (take size s) (chunk_terminator go (drop size s))

abbrev pub sized : (List ℕ → Chunked) → ChunkSize → List ℕ → Chunked
sized go (bad_size msg) s = failed msg false
sized go (chunk_size size) s = chunk_data go size (drop_while in_line s)

abbrev pub no_digits : List ℕ → Bool
no_digits [] = true
no_digits (c ∷ s) = false

unfoldable pub decode_chunk : (List ℕ → Chunked) → List ℕ → Chunked
decode_chunk go [] = ended_early
decode_chunk go (c ∷ s) =
    let digits = take_while in_size (c ∷ s) in
    if no_digits digits
    then failed "invalid chunk size" false
    else sized go (parse_size 0 digits) (drop_while in_size (c ∷ s))

unfoldable pub decode_chunks : ℕ → List ℕ → Chunked
decode_chunks zero body = stuck
decode_chunks (suc fuel) body = decode_chunk (decode_chunks fuel) (drop_while is_line_end body)

-- Each round passes a byte at least, so one round more than there are bytes is enough fuel.
unfoldable pub http_decode_chunked_body : List ℕ → Chunked
http_decode_chunked_body body = decode_chunks (suc (length body)) body
