-- ===== src/Json/Arrays.antt =====
-- An array of Strings written and read back: sprout_json_encode_string_array_from_vec_handle
-- against sprout_json_extract_string_array; and the space that sprout_json_escape asks for.
use mathlib.Core.List.{append_assoc}
use sprout_lang.Prelude.{
  ℕ, zero, suc, ◌+◌, ◌≤◌, ◌<◌, ◌||◌, ◌==◌, if◌then◌else◌, some, List, [], ◌∷◌, ◌++◌, ◌≡◌, refl, sym,
  ap, ◌∙◌, length, length-append, arith,
}
use sprout_lang.Json.Service.{
  null, error, parsed, sprout_json_skip_ws, service_escape_char, sprout_json_escape, extra,
  next_item, array_items, closed_or_items, string_array_at, quoted_items,
  sprout_json_encode_string_array,
}
use sprout_lang.Json.Strings.{AllServed, parse_string-sprout_json_escape}

service_escape_char-length :
    (ch : ℕ)
    → length (service_escape_char ch)
      ≡ 1 + (if ch == b'\\' || ch == b'"' || ch == 10 || ch == 13 || ch == 9 then 1 else 0)
unfolding service_escape_char
service_escape_char-length ch = ground arith

-- The first loop of sprout_json_escape counts the space that the second one fills: the output has
-- exactly the bytes of the text and those counted.
pub sprout_json_escape-length :
    (raw : List ℕ) → length (sprout_json_escape raw) ≡ length raw + extra raw
unfolding sprout_json_escape extra
sprout_json_escape-length [] = refl
sprout_json_escape-length (ch ∷ raw) = omega (
  arith,
  service_escape_char-length ch,
  length-append (service_escape_char ch) (sprout_json_escape raw),
  sprout_json_escape-length raw,
)

abbrev pub EachServed : List (List ℕ) → Type 0
EachServed [] = Unit
EachServed (item ∷ items) = AllServed item × EachServed items

-- One round of the loop of sprout_json_extract_string_array.
round_reads :
    (fuel : ℕ) (item tail : List ℕ)
    → AllServed item
    → array_items (suc fuel) (b'"' ∷ (sprout_json_escape item ++ (b'"' ∷ tail)))
      ≡ item ∷ next_item (array_items fuel) (sprout_json_skip_ws tail)
unfolding array_items
round_reads fuel item tail h =
    ap
      (λ p. elim p [
        | null ↦ []
        | error m ↦ []
        | parsed text rest ↦ text ∷ next_item (array_items fuel) (sprout_json_skip_ws rest)
      ])
      (parse_string-sprout_json_escape item tail h)

items_read :
    (fuel : ℕ) (item : List ℕ) (items : List (List ℕ)) (rest : List ℕ)
    → length items < fuel
    → EachServed (item ∷ items)
    → array_items fuel (quoted_items (item ∷ items) ++ (b']' ∷ rest)) ≡ item ∷ items
unfolding quoted_items sprout_json_skip_ws
items_read zero item items rest h served = absurd (omega arith)
items_read (suc fuel) item [] rest h (served, _) =
    ap (λ s. array_items (suc fuel) (b'"' ∷ s))
      (append_assoc (sprout_json_escape item) (b'"' ∷ []) (b']' ∷ rest))
    ∙ round_reads fuel item (b']' ∷ rest) served
items_read (suc fuel) item (next ∷ items) rest h (served, others) =
    let tail : List ℕ = quoted_items (next ∷ items) in
    ap (λ s. array_items (suc fuel) (b'"' ∷ s))
      (append_assoc (sprout_json_escape item) (b'"' ∷ b',' ∷ tail) (b']' ∷ rest))
    ∙ (round_reads fuel item (b',' ∷ (tail ++ (b']' ∷ rest))) served
        ∙ ap (λ xs. item ∷ xs) (items_read fuel next items rest (omega arith) others))

length-quoted_items : (items : List (List ℕ)) → length items ≤ length (quoted_items items)
unfolding quoted_items
length-quoted_items [] = omega arith
length-quoted_items (item ∷ []) = omega arith
length-quoted_items (item ∷ next ∷ items) = omega (
  arith,
  length-quoted_items (next ∷ items),
  length-append (sprout_json_escape item) (b'"' ∷ b',' ∷ quoted_items (next ∷ items)),
)

starts_quoted :
    (item : List ℕ) (items : List (List ℕ)) (rest : List ℕ)
    → (s : List ℕ) × (quoted_items (item ∷ items) ++ rest ≡ b'"' ∷ s)
unfolding quoted_items
starts_quoted item [] rest = ((sprout_json_escape item ++ (b'"' ∷ [])) ++ rest, refl)
starts_quoted item (next ∷ items) rest =
    ((sprout_json_escape item ++ (b'"' ∷ b',' ∷ quoted_items (next ∷ items))) ++ rest, refl)

-- A list of Strings whose only control characters are tab, newline and return: encoded as an array
-- and extracted again it is the same list, whatever follows the array.
pub extract_string_array-encode_string_array :
    (items : List (List ℕ)) (rest : List ℕ)
    → EachServed items
    → string_array_at (sprout_json_encode_string_array items ++ rest) ≡ some items
unfolding string_array_at sprout_json_encode_string_array quoted_items sprout_json_skip_ws
extract_string_array-encode_string_array [] rest h = refl
extract_string_array-encode_string_array (item ∷ items) rest h =
    let all : List ℕ = quoted_items (item ∷ items) in
    let (s, e) = starts_quoted item items (b']' ∷ rest) in
    let enough : length items < length (b'"' ∷ s) =
      omega
        (arith, length-quoted_items (item ∷ items), length-append all (b']' ∷ rest), ap length e) in
    let read : array_items (length (b'"' ∷ s)) (b'"' ∷ s) ≡ item ∷ items =
      ap (array_items (length (b'"' ∷ s))) (sym e)
      ∙ items_read (length (b'"' ∷ s)) item items rest enough h in
    ap (λ t. some (closed_or_items (sprout_json_skip_ws t))) (append_assoc all (b']' ∷ []) rest ∙ e)
    ∙ ap some read
