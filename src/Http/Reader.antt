-- ===== src/Http/Reader.antt =====
-- runtime/sprout_runtime.c: the reader of a response, http_reader_init to http_reader_eof.
--
-- `data` is the list of the bytes that have arrived, `data[0..len)`. A step returns the reader and
-- whether to stop reading.
pub mod Status
pub mod Code
pub mod Blank
pub mod Resumes
pub mod Feed
pub mod Result
use Prim.Native.String.{String}
use mathlib.Core.Bool.{not}
use sprout_lang.Prelude.{
  ℕ, zero, suc, ◌+◌, ◌-◌, Bool, true, false, ◌&&◌, ◌||◌, ltb, leb, ◌==◌, if◌then◌else◌, Option,
  none, some, List, [], ◌∷◌, length, get_elem?, take, drop,
}
use sprout_lang.Prelude.Int.{ℤ, pos, negsuc}
use sprout_lang.Http.Scan.{take_while, drop_while}
use sprout_lang.Http.Chunked.{in_line}
use sprout_lang.Http.Headers.{
  ascii_contains_token_ci, http_header_value_ci, http_content_length, ContentLength, no_length,
  content_bytes, invalid, no_bytes,
}
use Status.{strtoll}

pub data HttpFraming : Type 0 where
  frame_none : HttpFraming
  frame_length : HttpFraming
  frame_chunked : HttpFraming
  frame_close : HttpFraming

pub data HttpFail : Type 0 where
  fail_none : HttpFail
  fail_no_response : HttpFail
  fail_decode : HttpFail
  fail_incomplete : HttpFail
  fail_header_limit : HttpFail
  fail_body_limit : HttpFail

pub record HttpReader : Type 0 where
  pub max_header_bytes : ℕ
  pub max_body_bytes : ℕ
  pub head_only : Bool
  pub scan : ℕ
  pub lines : ℕ
  pub head_done : Bool
  pub status : ℤ
  pub headers_start : ℕ
  pub headers_len : ℕ
  pub body_start : ℕ
  pub framing : HttpFraming
  pub content_length : ℕ
  pub fail : HttpFail
  pub fail_msg : Option String

unfoldable pub http_reader_init : ℕ → ℕ → Bool → HttpReader
http_reader_init max_header_bytes max_body_bytes head_only = record {
  max_header_bytes = max_header_bytes;
  max_body_bytes = max_body_bytes;
  head_only = head_only;
  scan = 0;
  lines = 0;
  head_done = false;
  status = pos 0;
  headers_start = 0;
  headers_len = 0;
  body_start = 0;
  framing = frame_none;
  content_length = 0;
  fail = fail_none;
  fail_msg = none;
}

unfoldable pub http_reader_fail : HttpReader → HttpFail → Option String → HttpReader × Bool
http_reader_fail r kind msg = (record r { fail = kind; fail_msg = msg }, true)

-- A line less the CR at its end.
unfoldable pub drop_cr : List ℕ → List ℕ
drop_cr [] = []
drop_cr (c ∷ []) = if c == 13 then [] else c ∷ []
drop_cr (c ∷ d ∷ s) = c ∷ drop_cr (d ∷ s)

abbrev pub has_bytes : Option (List ℕ) → Bool
has_bytes none = false
has_bytes (some s) = not (no_bytes s)

abbrev pub has_token : Option (List ℕ) → List ℕ → Bool
has_token none token = false
has_token (some s) token = ascii_contains_token_ci s token

-- A value as a C string: it ends at its first NUL.
abbrev c_string : Option (List ℕ) → Option (List ℕ)
c_string none = none
c_string (some s) = some (take_while (λ c. not (c == 0)) s)

abbrev pub content_encoding_key : List ℕ
content_encoding_key =
    b'C' ∷ b'o' ∷ b'n' ∷ b't' ∷ b'e' ∷ b'n' ∷ b't' ∷ b'-' ∷ b'E' ∷ b'n' ∷ b'c' ∷ b'o' ∷ b'd' ∷ b'i'
    ∷ b'n' ∷ b'g' ∷ []

abbrev pub transfer_encoding_key : List ℕ
transfer_encoding_key =
    b'T' ∷ b'r' ∷ b'a' ∷ b'n' ∷ b's' ∷ b'f' ∷ b'e' ∷ b'r' ∷ b'-' ∷ b'E' ∷ b'n' ∷ b'c' ∷ b'o' ∷ b'd'
    ∷ b'i' ∷ b'n' ∷ b'g' ∷ []

abbrev pub identity_token : List ℕ
identity_token = b'i' ∷ b'd' ∷ b'e' ∷ b'n' ∷ b't' ∷ b'i' ∷ b't' ∷ b'y' ∷ []

abbrev pub chunked_token : List ℕ
chunked_token = b'c' ∷ b'h' ∷ b'u' ∷ b'n' ∷ b'k' ∷ b'e' ∷ b'd' ∷ []

abbrev length_framing : HttpReader → ContentLength → HttpReader × Bool
length_framing r invalid = http_reader_fail r fail_decode (some "invalid Content-Length")
length_framing r (content_bytes n) =
    if ltb r.max_body_bytes n
    then http_reader_fail (record r { content_length = n }) fail_body_limit none
    else (record r { content_length = n; framing = frame_length }, false)
length_framing r no_length = (record r { framing = frame_close }, false)

-- The framing by the headers.
unfoldable pub header_framing : HttpReader → List ℕ → HttpReader × Bool
header_framing r headers =
    let content_encoding = c_string (http_header_value_ci headers content_encoding_key) in
    let transfer_encoding = c_string (http_header_value_ci headers transfer_encoding_key) in
    if has_bytes content_encoding && not (has_token content_encoding identity_token)
    then http_reader_fail r fail_decode (some "unsupported content encoding")
    else if has_token transfer_encoding chunked_token
    then (record r { framing = frame_chunked }, false)
    else if has_bytes transfer_encoding
    then http_reader_fail r fail_decode (some "unsupported transfer encoding")
    else length_framing r (http_content_length headers)

abbrev pub is_4xx_up : ℤ → Bool
is_4xx_up (pos n) = leb 400 n
is_4xx_up (negsuc n) = false

abbrev is_status : ℤ → ℕ → Bool
is_status (pos n) code = n == code
is_status (negsuc n) code = false

-- Behind the status code.
unfoldable pub framed : HttpReader → List ℕ → HttpReader × Bool
framed r headers =
    if is_4xx_up r.status
    then (record r { framing = frame_none }, false)
    else if r.head_only || is_status r.status 204 || is_status r.status 304
    then (record r { framing = frame_none }, false)
    else header_framing r headers

abbrev pub with_code : HttpReader → ℕ → List ℕ → ℤ × ℕ → HttpReader × Bool
with_code r room headers (value, used) =
    if used == 0 || ltb room used
    then http_reader_fail (record r { status = value }) fail_decode (some "invalid status code")
    else framed (record r { status = value }) headers

abbrev pub in_word : ℕ → Bool
in_word c = not (c == b' ')

-- `code` is the status line from its first space on, `text` the data from there on.
abbrev pub status_code : HttpReader → List ℕ → List ℕ → List ℕ → HttpReader × Bool
status_code r [] text headers = http_reader_fail r fail_decode (some "invalid status line")
status_code r (space ∷ code) text headers =
    with_code r (length code) headers (strtoll (drop 1 text))

abbrev cr_at : List ℕ → ℕ → Bool
cr_at s i = elim (get_elem? s i) [ none ↦ false | some c ↦ c == 13 ]

-- The end of the header block, of a head that starts the headers at `start` and ends at `blank`.
unfoldable pub headers_end : List ℕ → ℕ → ℕ → ℕ
headers_end head start blank =
    let end = blank - 1 in
    if ltb start blank
    then if ltb start end && cr_at head (end - 1) then end - 1 else end
    else start

-- All that is read stands in front of the blank line, but for what strtoll may skip.
unfoldable pub http_reader_parse_head : HttpReader → List ℕ → ℕ → HttpReader × Bool
http_reader_parse_head r bytes blank_start =
    let head = take blank_start bytes in
    let line = take_while in_line head in
    let status_line = drop_cr line in
    let start = length line + 1 in
    let end = headers_end head start blank_start in
    let r' = record r { headers_start = start; headers_len = end - start } in
    let word = take_while in_word status_line in
    status_code r' (drop_while in_word status_line) (drop (length word) bytes)
      (take (end - start) (drop start head))

-- The scan for the blank line, from the start of a line: where it stands and the body starts, or
-- where the scan is to resume.
pub data HeadEnd : Type 0 where
  unfinished : ℕ → ℕ → HeadEnd
  blank : ℕ → ℕ → ℕ → HeadEnd

abbrev pub scan_line : ℕ → ℕ → List ℕ → List ℕ → HeadEnd → HeadEnd
scan_line scan lines line [] later = unfinished scan lines
scan_line scan lines line (newline ∷ rest) later =
    if ltb 0 lines && no_bytes (drop_cr line)
    then blank lines scan (scan + length line + 1)
    else later

-- A round passes a byte at least.
unfoldable pub find_blank : ℕ → ℕ → ℕ → List ℕ → HeadEnd
find_blank zero scan lines rest = unfinished scan lines
find_blank (suc fuel) scan lines rest =
    let line = take_while in_line rest in
    scan_line scan lines line (drop_while in_line rest)
      (find_blank fuel (scan + length line + 1) (suc lines) (drop (suc (length line)) rest))

abbrev pub body_step : HttpReader → ℕ → HttpFraming → HttpReader × Bool
body_step r got frame_none = (r, true)
body_step r got frame_length = (r, leb r.content_length got)
body_step r got frame_chunked =
    if ltb r.max_body_bytes got then http_reader_fail r fail_body_limit none else (r, false)
body_step r got frame_close =
    if ltb r.max_body_bytes got then http_reader_fail r fail_body_limit none else (r, false)

unfoldable pub read_body : HttpReader → ℕ → HttpReader × Bool
read_body r len = body_step r (len - r.body_start) r.framing

abbrev pub with_head : HttpReader × Bool → ℕ → HttpReader × Bool
with_head (r, true) len = (r, true)
with_head (r, false) len = read_body (record r { head_done = true }) len

abbrev pub with_blank : HttpReader → List ℕ → HeadEnd → HttpReader × Bool
with_blank r bytes (unfinished scan lines) =
    let r' = record r { scan = scan; lines = lines } in
    if ltb r.max_header_bytes (length bytes)
    then http_reader_fail r' fail_header_limit none
    else (r', false)
with_blank r bytes (blank lines scan body_start) =
    let r' = record r { scan = scan; lines = lines; body_start = body_start } in
    if ltb r.max_header_bytes body_start
    then http_reader_fail r' fail_header_limit none
    else with_head (http_reader_parse_head r' bytes scan) (length bytes)

unfoldable pub http_reader_step : HttpReader → List ℕ → HttpReader × Bool
http_reader_step r bytes =
    if r.head_done
    then read_body r (length bytes)
    else with_blank r bytes (find_blank (suc (length bytes)) r.scan r.lines (drop r.scan bytes))

abbrev pub waits : HttpFail → Bool
waits fail_none = true
waits _ = false

abbrev pub is_length : HttpFraming → Bool
is_length frame_length = true
is_length _ = false

abbrev pub is_close : HttpFraming → Bool
is_close frame_close = true
is_close _ = false

unfoldable pub http_reader_eof : HttpReader → ℕ → Bool → HttpReader
http_reader_eof r len tls_unclean =
    if not (waits r.fail)
    then r
    else if not r.head_done
    then if len == 0
      then (http_reader_fail r fail_no_response none).0
      else (http_reader_fail r fail_decode (some "invalid http response")).0
    else if is_length r.framing && ltb (len - r.body_start) r.content_length
    then (http_reader_fail r fail_incomplete (some "body shorter than Content-Length")).0
    else if is_close r.framing && tls_unclean
    then (http_reader_fail r fail_incomplete (some "tls closed without closure alert")).0
    else r
