-- ===== src/Json/Service.antt =====
-- runtime/sprout_runtime.c: the strings of the analysis service's protocol, sprout_json_escape to
-- sprout_json_encode_string_array_from_vec_handle.
--
-- A pointer into a text is the rest of the list. The array is encoded from the list of its Strings,
-- so the aborts on other values are left out, as is the message of a failed parse that its caller
-- does not ask for.
use Prim.Native.Nat.{bit_and, bit_or}
use Prim.Native.String.{String}
use sprout_lang.Prelude.{
  ℕ, zero, suc, ◌+◌, ◌-◌, ◌*◌, ◌/◌, ◌^◌, Bool, ◌&&◌, ◌||◌, ltb, leb, ◌==◌, if◌then◌else◌, Option,
  none, some, List, [], ◌∷◌, ◌++◌, length, drop,
}
use mathlib.Core.Bool.{not}

-- The analysis service's own escapes.
unfoldable pub service_escape_char : ℕ → List ℕ
service_escape_char ch =
    if ch == b'\\'
    then b'\\' ∷ b'\\' ∷ []
    else if ch == b'"'
    then b'\\' ∷ b'"' ∷ []
    else if ch == 10
    then b'\\' ∷ b'n' ∷ []
    else if ch == 13
    then b'\\' ∷ b'r' ∷ []
    else if ch == 9
    then b'\\' ∷ b't' ∷ []
    else ch ∷ []

unfoldable pub sprout_json_escape : List ℕ → List ℕ
sprout_json_escape [] = []
sprout_json_escape (ch ∷ text) = service_escape_char ch ++ sprout_json_escape text

-- Its first loop: the bytes that the output has more than the text.
unfoldable pub extra : List ℕ → ℕ
extra [] = 0
extra (ch ∷ text) =
    (if ch == b'\\' || ch == b'"' || ch == 10 || ch == 13 || ch == 9 then 1 else 0) + extra text

abbrev pub is_space : ℕ → Bool
is_space c = c == b' ' || c == 10 || c == 13 || c == 9

unfoldable pub sprout_json_skip_ws : List ℕ → List ℕ
sprout_json_skip_ws [] = []
sprout_json_skip_ws (c ∷ s) = if is_space c then sprout_json_skip_ws s else c ∷ s

unfoldable pub hex_digit : ℕ → Option ℕ
hex_digit ch =
    if leb b'0' ch && leb ch b'9'
    then some (ch - b'0')
    else if leb b'a' ch && leb ch b'f'
    then some (10 + ch - b'a')
    else if leb b'A' ch && leb ch b'F'
    then some (10 + ch - b'A')
    else none

unfoldable pub next_digit : Option ℕ → ℕ → Option ℕ
next_digit none ch = none
next_digit (some value) ch = elim (hex_digit ch) [
  | none ↦ none
  | some d ↦ some (bit_or (value * 2 ^ 4) d)
]

unfoldable pub sprout_json_parse_hex4 : List ℕ → Option ℕ
sprout_json_parse_hex4 (a ∷ b ∷ c ∷ d ∷ s) =
    next_digit (next_digit (next_digit (next_digit (some 0) a) b) c) d
sprout_json_parse_hex4 _ = none

unfoldable pub sprout_json_append_utf8 : ℕ → List ℕ
sprout_json_append_utf8 cp =
    if leb cp 0x7f
    then cp ∷ []
    else if leb cp 0x7ff
    then bit_or 0xc0 (bit_and (cp / 2 ^ 6) 0x1f) ∷ bit_or 0x80 (bit_and cp 0x3f) ∷ []
    else if leb cp 0xffff
    then bit_or 0xe0 (bit_and (cp / 2 ^ 12) 0x0f)
      ∷ bit_or 0x80 (bit_and (cp / 2 ^ 6) 0x3f)
      ∷ bit_or 0x80 (bit_and cp 0x3f)
      ∷ []
    else bit_or 0xf0 (bit_and (cp / 2 ^ 18) 0x07)
      ∷ bit_or 0x80 (bit_and (cp / 2 ^ 12) 0x3f)
      ∷ bit_or 0x80 (bit_and (cp / 2 ^ 6) 0x3f)
      ∷ bit_or 0x80 (bit_and cp 0x3f)
      ∷ []

-- NULL, with the message if one is set; or the string and the pointer behind it.
pub data Parsed : Type 0 where
  null : Parsed
  error : String → Parsed
  parsed : List ℕ → List ℕ → Parsed

abbrev pub with_front : List ℕ → Parsed → Parsed
with_front bytes null = null
with_front bytes (error m) = error m
with_front bytes (parsed out rest) = parsed (bytes ++ out) rest

-- What a backslash and `c` stand for, the escape of a codepoint aside.
unfoldable pub simple_escape : ℕ → Option ℕ
simple_escape c =
    if c == b'\\' || c == b'"' || c == b'/'
    then some c
    else if c == b'b'
    then some 8
    else if c == b'f'
    then some 12
    else if c == b'n'
    then some 10
    else if c == b'r'
    then some 13
    else if c == b't'
    then some 9
    else none

-- The codepoint of the escape whose digits start `s`, and the rest behind it.
pub data Codepoint : Type 0 where
  codepoint : ℕ → List ℕ → Codepoint
  bad : String → Codepoint

unfoldable pub low_surrogate : ℕ → List ℕ → Codepoint
low_surrogate high (c0 ∷ c1 ∷ s) =
    if not (c0 == b'\\') || not (c1 == b'u')
    then bad "missing low surrogate"
    else elim (sprout_json_parse_hex4 s) [
      | none ↦ bad "invalid low surrogate"
      | some low ↦
          if ltb low 0xdc00 || ltb 0xdfff low
          then bad "invalid low surrogate"
          else codepoint (0x10000 + bit_or ((high - 0xd800) * 2 ^ 10) (low - 0xdc00)) (drop 4 s)
    ]
low_surrogate high _ = bad "missing low surrogate"

unfoldable pub unicode_escape : List ℕ → Codepoint
unicode_escape s = elim (sprout_json_parse_hex4 s) [
  | none ↦ bad "invalid unicode escape"
  | some cp ↦
      if leb 0xd800 cp && leb cp 0xdbff
      then low_surrogate cp (drop 4 s)
      else if leb 0xdc00 cp && leb cp 0xdfff
      then bad "unexpected low surrogate"
      else codepoint cp (drop 4 s)
]

-- What stands behind a backslash; `go` is the loop.
unfoldable pub parse_escape : (List ℕ → Parsed) → List ℕ → Parsed
parse_escape go [] = error "unterminated escape sequence"
parse_escape go (c ∷ s) =
    if c == b'u'
    then elim (unicode_escape s) [
      | bad m ↦ error m
      | codepoint cp rest ↦ with_front (sprout_json_append_utf8 cp) (go rest)
    ]
    else elim (simple_escape c) [
      | none ↦ error "invalid escape sequence"
      | some b ↦ with_front (b ∷ []) (go s)
    ]

-- The loop behind the opening quote. Each round passes a byte at least, so the length of the rest
-- is enough fuel.
unfoldable pub parse_body : ℕ → List ℕ → Parsed
parse_body fuel [] = null
parse_body zero (c ∷ s) = null
parse_body (suc fuel) (c ∷ s) =
    let plain = with_front (c ∷ []) (parse_body fuel s) in
    let escape = parse_escape (parse_body fuel) s in
    if c == b'"'
    then parsed [] s
    else if ltb c 0x20
    then error "invalid control character in string"
    else if c == b'\\'
    then escape
    else plain

abbrev pub open_string : List ℕ → Parsed
open_string [] = null
open_string (c ∷ s) = if c == b'"' then parse_body (length s) s else null

unfoldable pub sprout_json_parse_string_impl : List ℕ → Parsed
sprout_json_parse_string_impl text = open_string (sprout_json_skip_ws text)

abbrev pub next_item : (List ℕ → List (List ℕ)) → List ℕ → List (List ℕ)
next_item go [] = []
next_item go (c ∷ s) = if c == b',' then go s else []

-- The items of an array behind its bracket and leading spaces: those that were read when the loop
-- stops, for whatever reason. A round passes two bytes at least.
unfoldable pub array_items : ℕ → List ℕ → List (List ℕ)
array_items zero s = []
array_items (suc fuel) s = elim (sprout_json_parse_string_impl s) [
  | null ↦ []
  | error m ↦ []
  | parsed item rest ↦ item ∷ next_item (array_items fuel) (sprout_json_skip_ws rest)
]

abbrev pub closed_or_items : List ℕ → List (List ℕ)
closed_or_items [] = []
closed_or_items (c ∷ s) = if c == b']' then [] else array_items (suc (length s)) (c ∷ s)

-- sprout_json_extract_string_array behind its call of sprout_json_after_key, which is not modelled:
-- on the text from the value of the key on. `none` is NULL.
abbrev pub open_array : List ℕ → Option (List (List ℕ))
open_array [] = none
open_array (c ∷ s) = if c == b'[' then some (closed_or_items (sprout_json_skip_ws s)) else none

unfoldable pub string_array_at : List ℕ → Option (List (List ℕ))
string_array_at text = open_array (sprout_json_skip_ws text)

unfoldable pub quoted_items : List (List ℕ) → List ℕ
quoted_items [] = []
quoted_items (item ∷ []) = b'"' ∷ (sprout_json_escape item ++ (b'"' ∷ []))
quoted_items (item ∷ items) = b'"' ∷ (sprout_json_escape item ++ (b'"' ∷ b',' ∷ quoted_items items))

unfoldable pub sprout_json_encode_string_array : List (List ℕ) → List ℕ
sprout_json_encode_string_array items = b'[' ∷ (quoted_items items ++ (b']' ∷ []))
