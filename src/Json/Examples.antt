-- ===== src/Json/Examples.antt =====
-- The theorems on JSON strings on concrete texts.
use sprout_lang.Prelude.{ℕ, some, List, [], ◌∷◌, ◌++◌, ◌≡◌, refl, inl, inr, arith}
use sprout_lang.Json.{json_string, json_append_value}
use sprout_lang.Json.Service.{
  error, parsed, sprout_json_parse_string_impl, sprout_json_escape, string_array_at,
  sprout_json_encode_string_array,
}
use sprout_lang.Json.Escapes.{IsServed}
use sprout_lang.Json.Strings.{
  AllServed, IsControl, parse_string-json_append_value, parse_string-sprout_json_escape,
  parse_string-sprout_json_escape_control,
}
use sprout_lang.Json.Arrays.{extract_string_array-encode_string_array}

abbrev no_float : ℕ → List ℕ
no_float bits = []

-- A quote, a backspace, a line feed and a letter.
abbrev mixed : List ℕ
mixed = b'"' ∷ 8 ∷ 10 ∷ b'a' ∷ []

parse_string-json_append_value_example :
    sprout_json_parse_string_impl (json_append_value no_float (json_string mixed) ++ (b',' ∷ []))
    ≡ parsed mixed (b',' ∷ [])
parse_string-json_append_value_example = parse_string-json_append_value no_float mixed (b',' ∷ [])

-- A tab and a quote.
abbrev served_text : List ℕ
served_text = 9 ∷ b'"' ∷ []

served_text-AllServed : AllServed served_text
unfolding IsServed
served_text-AllServed = (inl (inl refl), (inr (inr (omega arith)), tt))

parse_string-sprout_json_escape_example :
    sprout_json_parse_string_impl (b'"' ∷ (sprout_json_escape served_text ++ (b'"' ∷ b',' ∷ [])))
    ≡ parsed served_text (b',' ∷ [])
parse_string-sprout_json_escape_example =
    parse_string-sprout_json_escape served_text (b',' ∷ []) served_text-AllServed

backspace-IsControl : IsControl 8
backspace-IsControl = (omega arith, omega arith, omega arith, omega arith, omega arith)

parse_string-sprout_json_escape_control_example :
    sprout_json_parse_string_impl
      (b'"' ∷ (sprout_json_escape (served_text ++ (8 ∷ b'a' ∷ [])) ++ (b'"' ∷ [])))
    ≡ error "invalid control character in string"
parse_string-sprout_json_escape_control_example =
    parse_string-sprout_json_escape_control served_text (b'a' ∷ []) [] 8 served_text-AllServed
      backspace-IsControl

extract_string_array-encode_string_array_example :
    string_array_at (sprout_json_encode_string_array (served_text ∷ [] ∷ []) ++ (b'}' ∷ []))
    ≡ some (served_text ∷ [] ∷ [])
extract_string_array-encode_string_array_example =
    extract_string_array-encode_string_array (served_text ∷ [] ∷ []) (b'}' ∷ [])
      (served_text-AllServed, (tt, tt))
