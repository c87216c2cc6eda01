-- ===== src/Http/Headers.antt =====
-- runtime/sprout_runtime.c: the lines of a header block, ascii_contains_token_ci to
-- http_header_value_ci, http_content_length, and the text of a block, http_headers_fill.
--
-- A block, and a cursor into it, is the list of its bytes from there on. Each loop on fuel passes
-- a byte at least in a round, so the length of its bytes is enough.
use mathlib.Core.Bool.{not}
use sprout_lang.Prelude.{
  ℕ, zero, suc, ◌+◌, ◌-◌, ◌*◌, ◌/◌, Bool, true, false, ◌&&◌, ◌||◌, ltb, leb, ◌==◌, if◌then◌else◌,
  Option, none, some, List, [], ◌∷◌, length,
}
use sprout_lang.Http.{ascii_ieq_char}
use sprout_lang.Http.Scan.{take_while, drop_while}
use sprout_lang.Http.Chunked.{is_line_end, size_max}

abbrev pub is_blank : ℕ → Bool
is_blank c = c == b' ' || c == 9

abbrev pub no_bytes : List ℕ → Bool
no_bytes [] = true
no_bytes (c ∷ s) = false

-- Without the blanks at its end.
unfoldable pub trim_end : List ℕ → List ℕ
trim_end [] = []
trim_end (c ∷ s) = let rest = trim_end s in if no_bytes rest && is_blank c then [] else c ∷ rest

abbrev pub trim : List ℕ → List ℕ
trim s = trim_end (drop_while is_blank s)

unfoldable pub same_letters : List ℕ → List ℕ → Bool
same_letters [] [] = true
same_letters [] (d ∷ t) = false
same_letters (c ∷ s) [] = false
same_letters (c ∷ s) (d ∷ t) = ascii_ieq_char c d && same_letters s t

abbrev in_item : ℕ → Bool
in_item c = not (c == b',')

abbrev item_gap : ℕ → Bool
item_gap c = c == b' ' || c == 9 || c == b','

abbrev next_bytes : List ℕ → List ℕ
next_bytes [] = []
next_bytes (c ∷ s) = s

unfoldable pub token_from : ℕ → List ℕ → List ℕ → Bool
token_from zero text token = false
token_from (suc fuel) [] token = false
token_from (suc fuel) (c ∷ s) token =
    let start = drop_while item_gap (c ∷ s) in
    let rest = token_from fuel (next_bytes (drop_while in_item start)) token in
    if same_letters (trim_end (take_while in_item start)) token then true else rest

unfoldable pub ascii_contains_token_ci : List ℕ → List ℕ → Bool
ascii_contains_token_ci text token =
    if no_bytes token then false else token_from (length text) text token

pub record HttpHeaderLine : Type 0 where
  pub name : List ℕ
  pub value : List ℕ

abbrev name_and_value : List ℕ → List ℕ → HttpHeaderLine
name_and_value before after = record { name = trim before; value = trim after }

abbrev not_colon : ℕ → Bool
not_colon c = not (c == b':')

abbrev in_header : ℕ → Bool
in_header c = not (is_line_end c)

-- A line with its first colon, and the rest of the block; `later` is the rest of the walk.
abbrev header_or :
    List ℕ → List ℕ → List ℕ → Option (HttpHeaderLine × List ℕ) → Option (HttpHeaderLine × List ℕ)
header_or before [] rest later = later
header_or before (colon ∷ after) rest later = some (name_and_value before after, rest)

unfoldable pub next_header : ℕ → List ℕ → Option (HttpHeaderLine × List ℕ)
next_header zero block = none
next_header (suc fuel) [] = none
next_header (suc fuel) (c ∷ s) =
    let line = take_while in_header (c ∷ s) in
    let rest = drop_while is_line_end (drop_while in_header (c ∷ s)) in
    header_or (take_while not_colon line) (drop_while not_colon line) rest (next_header fuel rest)

unfoldable pub http_next_header : List ℕ → Option (HttpHeaderLine × List ℕ)
http_next_header block = next_header (length block) block

unfoldable pub http_header_is : HttpHeaderLine → List ℕ → Bool
http_header_is h key = same_letters h.name key

unfoldable pub value_from : ℕ → List ℕ → List ℕ → Option (List ℕ)
value_from zero block key = none
value_from (suc fuel) block key = elim (http_next_header block) [
  | none ↦ none
  | some (h, rest) ↦
      let later = value_from fuel rest key in if http_header_is h key then some h.value else later
]

unfoldable pub http_header_value_ci : List ℕ → List ℕ → Option (List ℕ)
http_header_value_ci block key = value_from (suc (length block)) block key

abbrev pub is_digit : ℕ → Bool
is_digit c = leb b'0' c && leb c b'9'

-- The number at the start of an item, and the rest; nothing if size_t cannot hold it.
unfoldable pub item_digits : ℕ → List ℕ → Option (ℕ × List ℕ)
item_digits item [] = some (item, [])
item_digits item (c ∷ p) =
    let digit = c - b'0' in
    let more = item_digits (item * 10 + digit) p in
    if is_digit c
    then if ltb ((size_max - digit) / 10) item then none else more
    else some (item, c ∷ p)

abbrev starts_digit : List ℕ → Bool
starts_digit [] = false
starts_digit (c ∷ p) = is_digit c

abbrev ends_item : List ℕ → Bool
ends_item [] = true
ends_item (c ∷ p) = c == b','

abbrev agrees : Option ℕ → ℕ → Bool
agrees none item = true
agrees (some value) item = item == value

-- Behind a comma the loop goes on.
abbrev other_items : (List ℕ → Option ℕ) → ℕ → List ℕ → Option ℕ
other_items go item [] = some item
other_items go item (comma ∷ p) = go p

-- The items of one header's value, given the value found so far; nothing is -1.
unfoldable pub length_items : ℕ → Option ℕ → List ℕ → Option ℕ
length_items zero found p = none
length_items (suc fuel) found p =
    let digits = drop_while is_blank p in
    elim (item_digits 0 digits) [
      | none ↦ none
      | some (item, rest) ↦
          let stop = drop_while is_blank rest in
          let others = other_items (length_items fuel (some item)) item stop in
          if starts_digit digits && ends_item stop && agrees found item then others else none
    ]

pub data ContentLength : Type 0 where
  no_length : ContentLength
  content_bytes : ℕ → ContentLength
  invalid : ContentLength

abbrev found_length : Option ℕ → ContentLength
found_length none = no_length
found_length (some value) = content_bytes value

abbrev pub content_length_key : List ℕ
content_length_key =
    b'C' ∷ b'o' ∷ b'n' ∷ b't' ∷ b'e' ∷ b'n' ∷ b't' ∷ b'-' ∷ b'L' ∷ b'e' ∷ b'n' ∷ b'g' ∷ b't' ∷ b'h'
    ∷ []

unfoldable pub lengths_from : ℕ → Option ℕ → List ℕ → ContentLength
lengths_from zero found block = found_length found
lengths_from (suc fuel) found block = elim (http_next_header block) [
  | none ↦ found_length found
  | some (h, rest) ↦
      let skipped = lengths_from fuel found rest in
      if http_header_is h content_length_key
      then elim (length_items (suc (length h.value)) found h.value) [
        | none ↦ invalid
        | some value ↦ lengths_from fuel (some value) rest
      ]
      else skipped
]

unfoldable pub http_content_length : List ℕ → ContentLength
http_content_length block = lengths_from (suc (length block)) none block
