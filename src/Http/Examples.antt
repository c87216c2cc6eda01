-- ===== src/Http/Examples.antt =====
-- The theorems on the HTTP client's text on concrete inputs.
use sprout_lang.Prelude.{ℕ, true, false, ◌⊎◌, List, [], ◌∷◌, ◌++◌, ◌≡◌, ◌≢◌, refl, arith}
use sprout_lang.Text.{valid, utf8_validate}
use sprout_lang.Http.Chunked.{decoded, stuck, ended_early, http_decode_chunked_body}
use sprout_lang.Http.Arrivals.{http_decode_chunked_body-more, http_decode_chunked_body-total}
use sprout_lang.Http.Chunks.{
  Chunk, EachIsChunk, write_chunks, http_decode_chunked_body-write_chunks,
}
use sprout_lang.Http.HeaderText.{http_headers_fill}
use sprout_lang.Http.Utf8.{utf8_validate-http_headers_fill}
use sprout_lang.Http.Url.{HttpUrl, parsed_url, parse_http_url}
use sprout_lang.Http.UrlText.{url_text, parse_http_url-url_text}
use sprout_lang.Http.Reader.{http_reader_init, http_reader_step}
use sprout_lang.Http.Reader.Feed.{read_parts, outcome, read_parts-step}

-- "1" and a line end that has not arrived whole, and the rest of that body.
abbrev half : List ℕ
half = b'1' ∷ 13 ∷ []

abbrev half_more : List ℕ
half_more = 10 ∷ b'x' ∷ 13 ∷ 10 ∷ b'0' ∷ 13 ∷ 10 ∷ []

http_decode_chunked_body-more_example :
    (http_decode_chunked_body half ≡ ended_early)
    ⊎ (http_decode_chunked_body (half ++ half_more) ≡ http_decode_chunked_body half)
http_decode_chunked_body-more_example = http_decode_chunked_body-more half half_more

http_decode_chunked_body-total_example : http_decode_chunked_body half ≢ stuck
http_decode_chunked_body-total_example = http_decode_chunked_body-total half

-- Two chunks, one with an extension and a NUL in its data.
abbrev two_chunks : List Chunk
two_chunks =
    record { extension = []; bytes = b'a' ∷ b'b' ∷ [] }
    ∷ record { extension = b';' ∷ b'q' ∷ []; bytes = 0 ∷ [] }
    ∷ []

two_chunks-EachIsChunk : EachIsChunk two_chunks
two_chunks-EachIsChunk = (
  record { some_data = omega arith; fits = omega arith; extends = tt; one_line = tt },
  (
    record {
      some_data = omega arith;
      fits = omega arith;
      extends = refl;
      one_line = (refl, (refl, tt));
    },
    tt,
  ),
)

http_decode_chunked_body-write_chunks_example :
    http_decode_chunked_body (write_chunks two_chunks (13 ∷ 10 ∷ []))
    ≡ decoded (b'a' ∷ b'b' ∷ 0 ∷ [])
http_decode_chunked_body-write_chunks_example =
    http_decode_chunked_body-write_chunks two_chunks (13 ∷ 10 ∷ []) two_chunks-EachIsChunk

-- A line with a byte that is no UTF-8, and one that is.
abbrev header_block : List ℕ
header_block = b'a' ∷ b':' ∷ 0xE9 ∷ 13 ∷ 10 ∷ b'b' ∷ b':' ∷ 0xC3 ∷ 0xA9 ∷ []

utf8_validate-http_headers_fill_example : utf8_validate (http_headers_fill header_block) ≡ valid
utf8_validate-http_headers_fill_example = utf8_validate-http_headers_fill header_block (
  omega arith,
  omega arith,
  (
    omega arith,
    omega arith,
    (
      omega arith,
      omega arith,
      (
        omega arith,
        omega arith,
        (
          omega arith,
          omega arith,
          (
            omega arith,
            omega arith,
            (omega arith, omega arith, (omega arith, omega arith, (omega arith, omega arith, tt))),
          ),
        ),
      ),
    ),
  ),
)

-- https://[::1]:8443/x
abbrev some_url : HttpUrl
some_url = record {
  host = b'[' ∷ b':' ∷ b':' ∷ b'1' ∷ b']' ∷ [];
  port = b'8' ∷ b'4' ∷ b'4' ∷ b'3' ∷ [];
  path = b'/' ∷ b'x' ∷ [];
  use_tls = true;
  explicit_port = true;
}

parse_http_url-url_text_example : parse_http_url (url_text some_url) ≡ parsed_url some_url
parse_http_url-url_text_example = parse_http_url-url_text some_url (record {
  has_host = refl;
  host_fits = (refl, (refl, (refl, (refl, (refl, tt)))));
  port_fits = ((refl, (refl, (refl, (refl, tt)))), (refl, (refl, (refl, (refl, tt)))), refl);
  rooted = (b'x' ∷ [], refl);
})

-- "HTTP/1.1 200 OK", a Content-Length of 2, a blank line and the body "ok", in three parts.
abbrev part_1 : List ℕ
part_1 =
    b'H' ∷ b'T' ∷ b'T' ∷ b'P' ∷ b'/' ∷ b'1' ∷ b'.' ∷ b'1' ∷ b' ' ∷ b'2' ∷ b'0' ∷ b'0' ∷ b' ' ∷ b'O'
    ∷ b'K' ∷ 13 ∷ []

abbrev part_2 : List ℕ
part_2 =
    10 ∷ b'C' ∷ b'o' ∷ b'n' ∷ b't' ∷ b'e' ∷ b'n' ∷ b't' ∷ b'-' ∷ b'L' ∷ b'e' ∷ b'n' ∷ b'g' ∷ b't'
    ∷ b'h' ∷ b':' ∷ b' ' ∷ b'2' ∷ 10 ∷ 13 ∷ 10 ∷ b'o' ∷ []

abbrev part_3 : List ℕ
part_3 = b'k' ∷ []

read_parts-step_example :
    outcome (read_parts (http_reader_init 4096 4096 false) [] (part_1 ∷ part_2 ∷ part_3 ∷ []))
    ≡ http_reader_step
        (http_reader_init 4096 4096 false)
        (read_parts (http_reader_init 4096 4096 false) [] (part_1 ∷ part_2 ∷ part_3 ∷ [])).buffer
read_parts-step_example = read_parts-step 4096 4096 false part_1 (part_2 ∷ part_3 ∷ [])
