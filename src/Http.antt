-- ===== src/Http.antt =====
-- runtime/sprout_runtime.c: the HTTP client's text, parse_http_url to http_headers_fill, and the
-- reader of responses, http_content_length to http_reader_eof.
--
-- A pointer into a text or a block is the rest of its bytes.
pub mod Scan
pub mod Chunked
pub mod Arrivals
pub mod Chunks
pub mod Headers
pub mod Reader
pub mod HeaderText
pub mod Utf8
pub mod Url
pub mod UrlText
mod Examples
use sprout_lang.Prelude.{ℕ, ◌+◌, ◌-◌, Bool, ◌&&◌, leb, ◌==◌, if◌then◌else◌}

unfoldable pub ascii_lower_char : ℕ → ℕ
ascii_lower_char ch = if leb b'A' ch && leb ch b'Z' then ch - b'A' + b'a' else ch

unfoldable pub ascii_ieq_char : ℕ → ℕ → Bool
ascii_ieq_char left right = ascii_lower_char left == ascii_lower_char right
