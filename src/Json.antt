-- ===== src/Json.antt =====
-- runtime/sprout_runtime.c: JSON output, json_append_hex4 to json_append_value.
--
-- A text is the bytes before its NUL. A value of the Sprout type Json is a tree, so the aborts on
-- other constructors are left out; the text of a Double by `%.17g`, which fits the buffer of 64
-- bytes, is a parameter.
pub mod Service
pub mod Escapes
pub mod Strings
pub mod Arrays
mod Examples
use Prim.Native.Nat.{bit_and}
use sprout_lang.Prelude.{
  ℕ, zero, suc, ◌+◌, ◌-◌, ◌/◌, ◌%◌, ◌^◌, Bool, true, false, ◌||◌, ltb, length, ◌==◌, if◌then◌else◌,
  List, [], ◌∷◌, ◌++◌,
}
use sprout_lang.Prelude.Int.{ℤ, pos, negsuc}

unfoldable pub hex : ℕ → ℕ
hex d = if ltb d 10 then b'0' + d else b'a' + (d - 10)

unfoldable pub json_append_hex4 : ℕ → List ℕ
json_append_hex4 value =
    b'\\' ∷ b'u' ∷ b'0' ∷ b'0' ∷ hex (bit_and (value / 2 ^ 4) 0x0f) ∷ hex (bit_and value 0x0f) ∷ []

unfoldable pub escape_char : ℕ → List ℕ
escape_char ch =
    if ch == b'"'
    then b'\\' ∷ b'"' ∷ []
    else if ch == b'\\'
    then b'\\' ∷ b'\\' ∷ []
    else if ch == 8
    then b'\\' ∷ b'b' ∷ []
    else if ch == 12
    then b'\\' ∷ b'f' ∷ []
    else if ch == 10
    then b'\\' ∷ b'n' ∷ []
    else if ch == 13
    then b'\\' ∷ b'r' ∷ []
    else if ch == 9
    then b'\\' ∷ b't' ∷ []
    else if ltb ch 0x20
    then json_append_hex4 ch
    else ch ∷ []

unfoldable pub escape_all : List ℕ → List ℕ
escape_all [] = []
escape_all (ch ∷ raw) = escape_char ch ++ escape_all raw

unfoldable pub json_append_escaped_string : List ℕ → List ℕ
json_append_escaped_string raw = b'"' ∷ (escape_all raw ++ (b'"' ∷ []))

mutual
  pub data Json : Type 0 where
    json_null : Json
    json_bool : Bool → Json
    json_int : ℤ → Json
    json_float : ℕ → Json
    json_string : List ℕ → Json
    json_array : JsonItems → Json
    json_object : JsonFields → Json

  pub data JsonItems : Type 0 where
    json_array_nil : JsonItems
    json_array_cons : Json → JsonItems → JsonItems

  pub data JsonFields : Type 0 where
    json_object_nil : JsonFields
    json_object_cons : List ℕ → Json → JsonFields → JsonFields

-- `%lld`: the digits of a number, on fuel of its size, in front of `rest`.
unfoldable pub digits_of : ℕ → ℕ → List ℕ → List ℕ
digits_of zero n rest = rest
digits_of (suc fuel) n rest =
    let more = digits_of fuel (n / 10) ((b'0' + n % 10) ∷ rest) in
    if ltb n 10 then (b'0' + n) ∷ rest else more

unfoldable pub int_text : ℤ → List ℕ
int_text (pos n) = digits_of (suc n) n []
int_text (negsuc n) = b'-' ∷ digits_of (suc (suc n)) (suc n) []

abbrev pub shows_float : ℕ → Bool
shows_float c =
    c == b'.' || c == b'e' || c == b'E' || c == b'n' || c == b'N' || c == b'i' || c == b'I'

abbrev has_float_sign : List ℕ → Bool
has_float_sign [] = false
has_float_sign (c ∷ text) = shows_float c || has_float_sign text

unfoldable pub append_dot_zero_if_bare_int : ℕ → List ℕ → List ℕ
append_dot_zero_if_bare_int cap text =
    if has_float_sign text
    then text
    else if ltb (length text + 2) cap
    then text ++ (b'.' ∷ b'0' ∷ [])
    else text

module _ (float_text : ℕ → List ℕ) where
  unfoldable mutual
    pub json_append_value : Json → List ℕ
    json_append_value json_null = b'n' ∷ b'u' ∷ b'l' ∷ b'l' ∷ []
    json_append_value (json_bool true) = b't' ∷ b'r' ∷ b'u' ∷ b'e' ∷ []
    json_append_value (json_bool false) = b'f' ∷ b'a' ∷ b'l' ∷ b's' ∷ b'e' ∷ []
    json_append_value (json_int n) = int_text n
    json_append_value (json_float bits) = append_dot_zero_if_bare_int 64 (float_text bits)
    json_append_value (json_string raw) = json_append_escaped_string raw
    json_append_value (json_array items) = b'[' ∷ (json_append_array true items ++ (b']' ∷ []))
    json_append_value (json_object fields) = b'{' ∷ (json_append_object true fields ++ (b'}' ∷ []))

    pub json_append_array : Bool → JsonItems → List ℕ
    json_append_array first json_array_nil = []
    json_append_array first (json_array_cons item items) =
        (if first then [] else b',' ∷ [])
        ++ (json_append_value item ++ json_append_array false items)

    pub json_append_object : Bool → JsonFields → List ℕ
    json_append_object first json_object_nil = []
    json_append_object first (json_object_cons name value fields) =
        (if first then [] else b',' ∷ [])
        ++ (json_append_escaped_string name
            ++ (b':' ∷ (json_append_value value ++ json_append_object false fields)))
