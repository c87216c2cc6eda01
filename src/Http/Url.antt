-- ===== src/Http/Url.antt =====
-- runtime/sprout_runtime.c: parse_http_url.
--
-- The URL is the bytes in front of its NUL.
use Prim.Native.String.{String}
use mathlib.Core.Bool.{not}
use sprout_lang.Prelude.{
  ℕ, Bool, true, false, ◌||◌, ◌==◌, if◌then◌else◌, Option, none, some, List, [], ◌∷◌,
}
use sprout_lang.Http.Scan.{take_while, drop_while}
use sprout_lang.Http.Headers.{no_bytes}

pub record HttpUrl : Type 0 where
  pub host : List ℕ
  pub port : List ℕ
  pub path : List ℕ
  pub use_tls : Bool
  pub explicit_port : Bool

pub data ParsedUrl : Type 0 where
  parsed_url : HttpUrl → ParsedUrl
  bad_url : String → ParsedUrl

abbrev pub http_prefix : List ℕ
http_prefix = b'h' ∷ b't' ∷ b't' ∷ b'p' ∷ b':' ∷ b'/' ∷ b'/' ∷ []

abbrev pub https_prefix : List ℕ
https_prefix = b'h' ∷ b't' ∷ b't' ∷ b'p' ∷ b's' ∷ b':' ∷ b'/' ∷ b'/' ∷ []

-- The URL behind a prefix, if it starts with it.
unfoldable pub after_prefix : List ℕ → List ℕ → Option (List ℕ)
after_prefix [] url = some url
after_prefix (p ∷ prefix) [] = none
after_prefix (p ∷ prefix) (c ∷ url) =
    let rest = after_prefix prefix url in if p == c then rest else none

abbrev pub in_authority : ℕ → Bool
in_authority c = not (c == b'/')

abbrev pub behind : ℕ → Option (List ℕ × List ℕ) → Option (List ℕ × List ℕ)
behind c none = none
behind c (some (before, after)) = some (c ∷ before, after)

abbrev pub or_here : Option (List ℕ × List ℕ) → Option (List ℕ × List ℕ) → Option (List ℕ × List ℕ)
or_here (some split) here = some split
or_here none here = here

-- What stands before and behind the last colon.
unfoldable pub last_colon : List ℕ → Option (List ℕ × List ℕ)
last_colon [] = none
last_colon (c ∷ s) = or_here (behind c (last_colon s)) (if c == b':' then some ([], s) else none)

abbrev pub default_port : Bool → List ℕ
default_port true = b'4' ∷ b'4' ∷ b'3' ∷ []
default_port false = b'8' ∷ b'0' ∷ []

abbrev pub path_or_root : List ℕ → List ℕ
path_or_root [] = b'/' ∷ []
path_or_root (c ∷ s) = c ∷ s

unfoldable pub split_authority : Bool → List ℕ → List ℕ → Option (List ℕ × List ℕ) → ParsedUrl
split_authority tls authority path (some (host, port)) =
    if no_bytes host || no_bytes port
    then bad_url "invalid host or port"
    else parsed_url (record {
      host = host;
      port = port;
      path = path_or_root path;
      use_tls = tls;
      explicit_port = true;
    })
split_authority tls authority path none = parsed_url (record {
  host = authority;
  port = default_port tls;
  path = path_or_root path;
  use_tls = tls;
  explicit_port = false;
})

unfoldable pub parse_authority : Bool → List ℕ → ParsedUrl
parse_authority tls rest =
    let authority = take_while in_authority rest in
    if no_bytes authority
    then bad_url "missing host"
    else split_authority tls authority (drop_while in_authority rest) (last_colon authority)

unfoldable pub parse_http_url : List ℕ → ParsedUrl
parse_http_url url = elim (after_prefix http_prefix url) [
  | some rest ↦ parse_authority false rest
  | none ↦ elim (after_prefix https_prefix url) [
    | some rest ↦ parse_authority true rest
    | none ↦ bad_url "unsupported url scheme"
  ]
]
