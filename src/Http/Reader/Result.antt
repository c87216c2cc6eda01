-- ===== src/Http/Reader/Result.antt =====
-- runtime/sprout_runtime.c: the result of a read that has ended, http_reader_failure,
-- http_ok_response and http_response_result.
use Prim.Native.String.{String}
use mathlib.Core.Bool.{not}
use sprout_lang.Prelude.{
  ℕ, true, false, ltb, if◌then◌else◌, Option, none, some, List, [], ◌==◌, length, take, drop,
}
use sprout_lang.Prelude.Int.{ℤ}
use sprout_lang.Http.Chunked.{Chunked, decoded, failed, stuck, http_decode_chunked_body}
use sprout_lang.Http.Scan.{take_while}
use sprout_lang.Http.HeaderText.{http_headers_fill}
use sprout_lang.Http.Reader.{
  HttpFraming, frame_none, frame_length, frame_chunked, frame_close, HttpFail, fail_none,
  fail_no_response, fail_decode, fail_incomplete, fail_header_limit, fail_body_limit, HttpReader,
  waits, is_4xx_up,
}

-- A value of Result HttpError HttpResponse, as the runtime makes it. `unfinished` is the model's
-- own: the decoder ran out of fuel, which it never does.
pub data HttpResult : Type 0 where
  too_large : ℕ → HttpResult
  network : String → HttpResult
  incomplete : String → HttpResult
  bad_text : String → HttpResult
  bad_status : ℤ → HttpResult
  response : ℤ → List ℕ → List ℕ → HttpResult
  unfinished : HttpResult

abbrev text_of : Option String → String
text_of none = ""
text_of (some msg) = msg

abbrev failure : HttpFail → HttpReader → HttpResult
failure fail_header_limit r = too_large r.max_header_bytes
failure fail_body_limit r = too_large r.max_body_bytes
failure fail_no_response r = network "remote closed connection without response"
failure fail_incomplete r = incomplete (text_of r.fail_msg)
failure fail_decode r = bad_text (text_of r.fail_msg)
failure fail_none r = bad_text (text_of r.fail_msg)

unfoldable pub http_reader_failure : HttpReader → HttpResult
http_reader_failure r = failure r.fail r

-- The text of the headers becomes a String, which ends at its first NUL; the body keeps its bytes.
unfoldable pub http_ok_response : ℤ → List ℕ → List ℕ → HttpResult
http_ok_response status headers body = response status (take_while (λ c. not (c == 0)) headers) body

abbrev of_chunked : ℤ → List ℕ → Chunked → HttpResult
of_chunked status headers (decoded out) = http_ok_response status headers out
of_chunked status headers (failed msg true) = incomplete msg
of_chunked status headers (failed msg false) = bad_text msg
of_chunked status headers stuck = unfinished

-- The result by the framing, of the bytes behind the head.
abbrev of_framing : HttpFraming → HttpReader → List ℕ → List ℕ → HttpResult
of_framing frame_chunked r headers body =
    of_chunked r.status headers (http_decode_chunked_body body)
of_framing frame_none r headers body = http_ok_response r.status headers []
of_framing frame_length r headers body =
    http_ok_response r.status headers
      (if ltb r.content_length (length body) then take r.content_length body else body)
of_framing frame_close r headers body = http_ok_response r.status headers body

unfoldable pub http_response_result : List ℕ → HttpReader → HttpResult
http_response_result bytes r =
    if not (waits r.fail)
    then http_reader_failure r
    else if is_4xx_up r.status
    then bad_status r.status
    else of_framing r.framing r
        (http_headers_fill (take r.headers_len (drop r.headers_start bytes)))
        (drop r.body_start bytes)
