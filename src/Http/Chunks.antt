-- ===== src/Http/Chunks.antt =====
-- http_decode_chunked_body on bodies written in chunks as RFC 9112 says.
use sprout_lang.Prelude.{
  ℕ, zero, suc, ◌+◌, ◌-◌, ◌*◌, ◌/◌, ◌%◌, ◌≤◌, ◌<◌, true, false, ltb, ◌==◌, if◌then◌else◌, some,
  List, [], ◌∷◌, ◌++◌, ◌≡◌, refl, sym, ap, ◌∙◌, inl, inr, length, length-append, take-length,
  drop-length, Bool-cases, ltb→lt, ltb_false→le, le→ltb_false, arith,
}
use sprout_lang.Prelude.Bits.{bit_or_16}
use sprout_lang.Http.Scan.{take_while, drop_while, All, Stops, take_while-append, drop_while-append}
use sprout_lang.Http.Chunked.{
  hex_digit_value, Chunked, decoded, with_chunk, is_line_end, in_size, in_line, size_max,
  chunk_size, parse_size, chunk_terminator, chunk_data, decode_chunk, decode_chunks,
  http_decode_chunked_body,
}

unfoldable pub size_digit : ℕ → ℕ
size_digit d = if ltb d 10 then b'0' + d else b'a' + (d - 10)

-- The hexadecimal digits of a number in front of `rest`, on fuel of its size.
unfoldable pub size_digits : ℕ → ℕ → List ℕ → List ℕ
size_digits zero n rest = rest
size_digits (suc fuel) n rest =
    let more = size_digits fuel (n / 16) (size_digit (n % 16) ∷ rest) in
    if ltb n 16 then size_digit n ∷ rest else more

abbrev pub size_text : ℕ → List ℕ
size_text n = size_digits (suc n) n []

-- A chunk: what stands behind its size, and its data.
pub record Chunk : Type 0 where
  pub extension : List ℕ
  pub bytes : List ℕ

-- A chunk of some data, whose size a size_t holds, and whose extension stays in its line.
pub record IsChunk (c : Chunk) : Type 0 where
  pub some_data : 0 < length c.bytes
  pub fits : length c.bytes ≤ size_max
  pub extends : Stops in_size c.extension
  pub one_line : All in_line c.extension

abbrev pub EachIsChunk : List Chunk → Type 0
EachIsChunk [] = Unit
EachIsChunk (c ∷ chunks) = IsChunk c × EachIsChunk chunks

abbrev pub data_of : List Chunk → List ℕ
data_of [] = []
data_of (c ∷ chunks) = c.bytes ++ data_of chunks

-- The chunks in their order, the last chunk, and a trailer.
unfoldable pub write_chunks : List Chunk → List ℕ → List ℕ
write_chunks [] trailer = b'0' ∷ 13 ∷ 10 ∷ trailer
write_chunks (c ∷ chunks) trailer =
    size_text (length c.bytes)
    ++ (c.extension ++ (13 ∷ 10 ∷ (c.bytes ++ (13 ∷ 10 ∷ write_chunks chunks trailer))))

size_digit_value : (d : ℕ) → d < 16 → hex_digit_value (size_digit d) ≡ some d
unfolding hex_digit_value size_digit
size_digit_value d h = ground arith

size_digit-in_size : (d : ℕ) → d < 16 → in_size (size_digit d) ≡ true
unfolding size_digit
size_digit-in_size d h = ground arith

parse_digit :
    (size d : ℕ) (rest : List ℕ)
    → d < 16
    → size * 16 + d ≤ size_max
    → parse_size size (size_digit d ∷ rest) ≡ parse_size (size * 16 + d) rest
unfolding parse_size
parse_digit size d rest h fits =
    let small : ltb 1152921504606846975 size ≡ false =
      le→ltb_false 1152921504606846975 size (omega arith) in
    rw (size_digit_value d h, small) (ap (λ z. parse_size z rest) (bit_or_16 size d h))

parse_size-size_digits :
    (fuel n : ℕ) (rest : List ℕ)
    → n < fuel
    → n ≤ size_max
    → parse_size 0 (size_digits fuel n rest) ≡ parse_size n rest
unfolding size_digits
parse_size-size_digits zero n rest h fits = absurd (omega arith)
parse_size-size_digits (suc fuel) n rest h fits = elim (Bool-cases (ltb n 16)) [
  | inl e ↦ rw e (
      parse_digit 0 n rest (ltb→lt n 16 e) (omega arith)
      ∙ ap (λ z. parse_size z rest) (omega arith))
  | inr e ↦
      let large = ltb_false→le n 16 e in
      rw e (
        parse_size-size_digits fuel (n / 16) (size_digit (n % 16) ∷ rest) (omega arith)
          (omega arith)
        ∙ (parse_digit (n / 16) (n % 16) rest (omega arith) (omega arith)
            ∙ ap (λ z. parse_size z rest) (omega arith)))
]

size_digits-All :
    (fuel n : ℕ) (rest : List ℕ) → All in_size rest → All in_size (size_digits fuel n rest)
unfolding size_digits
size_digits-All zero n rest a = a
size_digits-All (suc fuel) n rest a = elim (Bool-cases (ltb n 16)) [
  | inl e ↦ rw e (size_digit-in_size n (ltb→lt n 16 e), a)
  | inr e ↦ rw e (
      size_digits-All fuel (n / 16) (size_digit (n % 16) ∷ rest)
        (size_digit-in_size (n % 16) (omega arith), a))
]

-- A nonempty text of digits.
data Digits (s : List ℕ) : Type 0 where
  digits : (d : ℕ) (ds : List ℕ) → s ≡ d ∷ ds → is_line_end d ≡ false → Digits s

not_end : (d : ℕ) → in_size d ≡ true → is_line_end d ≡ false
not_end d h = ground arith

of_list : (s : List ℕ) → All in_size s → 0 < length s → Digits s
of_list [] a h = absurd (omega arith)
of_list (d ∷ ds) (e, a) h = digits d ds refl (not_end d e)

length-size_digits : (fuel n : ℕ) (rest : List ℕ) → length rest ≤ length (size_digits fuel n rest)
unfolding size_digits
length-size_digits zero n rest = omega arith
length-size_digits (suc fuel) n rest = elim (Bool-cases (ltb n 16)) [
  | inl e ↦ rw e (omega arith)
  | inr e ↦ rw e (omega (arith, length-size_digits fuel (n / 16) (size_digit (n % 16) ∷ rest)))
]

size_text-some : (n : ℕ) → 0 < length (size_text n)
unfolding size_digits
size_text-some n = elim (Bool-cases (ltb n 16)) [
  | inl e ↦ rw e (omega arith)
  | inr e ↦ rw e (omega (arith, length-size_digits n (n / 16) (size_digit (n % 16) ∷ [])))
]

line_of :
    (go : List ℕ → Chunked) (n : ℕ) (text tail s : List ℕ)
    → Digits text
    → take_while in_size (text ++ tail) ≡ text
    → drop_while in_size (text ++ tail) ≡ tail
    → parse_size 0 text ≡ chunk_size n
    → drop_while in_line tail ≡ 10 ∷ s
    → decode_chunk go (drop_while is_line_end (text ++ tail)) ≡ chunk_data go n (10 ∷ s)
unfolding decode_chunk
line_of go n text tail s (digits d ds e starts) taken left size line =
    let passed : drop_while is_line_end (d ∷ (ds ++ tail)) ≡ d ∷ (ds ++ tail) =
      drop_while-append is_line_end [] (d ∷ (ds ++ tail)) tt starts in
    let taken' : take_while in_size (d ∷ (ds ++ tail)) ≡ d ∷ ds =
      ap (λ z. take_while in_size (z ++ tail)) (sym e) ∙ (taken ∙ e) in
    let left' : drop_while in_size (d ∷ (ds ++ tail)) ≡ tail =
      ap (λ z. drop_while in_size (z ++ tail)) (sym e) ∙ left in
    let size' : parse_size 0 (d ∷ ds) ≡ chunk_size n = ap (parse_size 0) (sym e) ∙ size in
    rw (e, passed, taken', left', size', line)

line_end :
    (extension s : List ℕ)
    → All in_line extension
    → drop_while in_line (extension ++ (13 ∷ 10 ∷ s)) ≡ 10 ∷ s
unfolding drop_while
line_end [] s a = refl
line_end (c ∷ extension) s (e, a) = rw e (line_end extension s a)

Stops-append :
    (extension s : List ℕ) → Stops in_size extension → Stops in_size (extension ++ (13 ∷ s))
Stops-append [] s h = refl
Stops-append (c ∷ extension) s h = h

-- A line of a size in front of the rest of its line: what decode_chunk makes of it.
size_line :
    (go : List ℕ → Chunked) (n : ℕ) (extension s : List ℕ)
    → n ≤ size_max
    → Stops in_size extension
    → All in_line extension
    → decode_chunk go (drop_while is_line_end (size_text n ++ (extension ++ (13 ∷ 10 ∷ s))))
      ≡ chunk_data go n (10 ∷ s)
unfolding parse_size
size_line go n extension s fits ext line =
    let text = size_text n in
    let tail : List ℕ = extension ++ (13 ∷ 10 ∷ s) in
    let each = size_digits-All (suc n) n [] tt in
    let stop = Stops-append extension (10 ∷ s) ext in
    line_of go n text tail s (of_list text each (size_text-some n))
      (take_while-append in_size text tail each stop)
      (drop_while-append in_size text tail each stop)
      (parse_size-size_digits (suc n) n [] (omega arith) fits) (line_end extension s line)

after_chunk :
    (go : List ℕ → Chunked) (bytes rest : List ℕ)
    → 0 < length bytes
    → chunk_data go (length bytes) (10 ∷ (bytes ++ (13 ∷ 10 ∷ rest))) ≡ with_chunk bytes (go rest)
unfolding chunk_data chunk_terminator
after_chunk go bytes rest h =
    let nonzero : (length bytes == 0) ≡ false = ground arith in
    let enough : ltb (length (bytes ++ (13 ∷ 10 ∷ rest))) (length bytes) ≡ false =
      le→ltb_false (length (bytes ++ (13 ∷ 10 ∷ rest))) (length bytes)
        (omega (arith, length-append bytes (13 ∷ 10 ∷ rest))) in
    rw (nonzero, enough, take-length bytes (13 ∷ 10 ∷ rest), drop-length bytes (13 ∷ 10 ∷ rest))

length-write_chunks :
    (c : Chunk) (chunks : List Chunk) (trailer : List ℕ)
    → length (write_chunks chunks trailer) < length (write_chunks (c ∷ chunks) trailer)
unfolding write_chunks
length-write_chunks c chunks trailer =
    let rest = write_chunks chunks trailer in
    let line : List ℕ = 13 ∷ 10 ∷ (c.bytes ++ (13 ∷ 10 ∷ rest)) in
    omega (
      arith,
      length-append (size_text (length c.bytes)) (c.extension ++ line),
      length-append c.extension line,
      length-append c.bytes (13 ∷ 10 ∷ rest),
    )

decode_chunks-write_chunks :
    (fuel : ℕ) (chunks : List Chunk) (trailer : List ℕ)
    → EachIsChunk chunks
    → length (write_chunks chunks trailer) < fuel
    → decode_chunks fuel (write_chunks chunks trailer) ≡ decoded (data_of chunks)
unfolding decode_chunks write_chunks decode_chunk take_while drop_while parse_size hex_digit_value
    chunk_data
decode_chunks-write_chunks zero chunks trailer all h = absurd (omega arith)
decode_chunks-write_chunks (suc fuel) [] trailer all h = refl
decode_chunks-write_chunks (suc fuel) (c ∷ chunks) trailer (chunk, all) h =
    let rest = write_chunks chunks trailer in
    size_line (decode_chunks fuel) (length c.bytes) c.extension (c.bytes ++ (13 ∷ 10 ∷ rest))
      chunk.fits chunk.extends chunk.one_line
    ∙ (after_chunk (decode_chunks fuel) c.bytes rest chunk.some_data
        ∙ ap (with_chunk c.bytes) (
            decode_chunks-write_chunks fuel chunks trailer all
              (omega (arith, length-write_chunks c chunks trailer))))

-- A body written in chunks of any sizes below 2^64, with extensions and a trailer of any bytes, is
-- decoded to the data of the chunks, whatever bytes the data has.
pub http_decode_chunked_body-write_chunks :
    (chunks : List Chunk) (trailer : List ℕ)
    → EachIsChunk chunks
    → http_decode_chunked_body (write_chunks chunks trailer) ≡ decoded (data_of chunks)
unfolding http_decode_chunked_body
http_decode_chunked_body-write_chunks chunks trailer all =
    decode_chunks-write_chunks (suc (length (write_chunks chunks trailer))) chunks trailer all
      (omega arith)
