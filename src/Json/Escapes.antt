-- ===== src/Json/Escapes.antt =====
-- One escape read back: what parse_body does with the escape of a character.
use Prim.Native.Nat.{bit_and}
use sprout_lang.Prelude.{
  ℕ, suc, ◌/◌, ◌^◌, ◌≤◌, ◌<◌, Bool, true, false, ltb, leb, ◌==◌, Option, none, some, List, [], ◌∷◌,
  ◌++◌, ◌≡◌, refl, sym, ap, ◌∙◌, ◌⊎◌, inl, inr, length, Bool-cases, ltb→lt, ==_iff, arith,
}
use sprout_lang.Prelude.Bits.{every, every-holds}
use sprout_lang.Json.{hex, json_append_hex4, escape_char}
use sprout_lang.Json.Service.{
  hex_digit, next_digit, sprout_json_parse_hex4, sprout_json_append_utf8, with_front, simple_escape,
  codepoint, unicode_escape, parse_escape, parse_body, service_escape_char,
}

-- The four digits of a control character read back, by evaluation over all 32 of them.
abbrev reads_back : ℕ → Option ℕ → Bool
reads_back ch none = false
reads_back ch (some value) = value == ch

abbrev digits : ℕ → List ℕ → List ℕ
digits ch rest = b'0' ∷ b'0' ∷ hex (bit_and (ch / 2 ^ 4) 0x0f) ∷ hex (bit_and ch 0x0f) ∷ rest

hex4_table : every (λ ch. reads_back ch (sprout_json_parse_hex4 (digits ch []))) 32 ≡ true
unfolding every sprout_json_parse_hex4 next_digit hex_digit hex
hex4_table = refl

of_reads_back : (ch : ℕ) (o : Option ℕ) → reads_back ch o ≡ true → o ≡ some ch
of_reads_back ch none h = cc h
of_reads_back ch (some value) h = ap some ((==_iff value ch).0 h)

hex4_digits : (ch : ℕ) (rest : List ℕ) → ch < 32 → sprout_json_parse_hex4 (digits ch rest) ≡ some ch
unfolding sprout_json_parse_hex4
hex4_digits ch rest h =
    of_reads_back ch (sprout_json_parse_hex4 (digits ch []))
      (every-holds (λ c. reads_back c (sprout_json_parse_hex4 (digits c []))) 32 ch hex4_table h)

unicode_digits :
    (ch : ℕ) (rest : List ℕ) → ch < 32 → unicode_escape (digits ch rest) ≡ codepoint ch rest
unfolding unicode_escape
unicode_digits ch rest h =
    let high : leb 0xd800 ch ≡ false = ground arith in
    let low : leb 0xdc00 ch ≡ false = ground arith in
    rw (unicode_escape, hex4_digits ch rest h, high, low)

ascii : (ch : ℕ) → ch < 32 → sprout_json_append_utf8 ch ≡ ch ∷ []
unfolding sprout_json_append_utf8
ascii ch h = ground arith

hex4_reads :
    (fuel ch : ℕ) (rest : List ℕ)
    → ch < 32
    → parse_body (suc fuel) (json_append_hex4 ch ++ rest)
      ≡ with_front (ch ∷ []) (parse_body fuel rest)
unfolding parse_body parse_escape json_append_hex4
hex4_reads fuel ch rest h = rw (unicode_digits ch rest h, ascii ch h)

-- A backslash and the letter of a character.
letter_reads :
    (fuel ch letter : ℕ) (rest : List ℕ)
    → simple_escape letter ≡ some ch
    → (letter == b'u') ≡ false
    → parse_body (suc fuel) (b'\\' ∷ letter ∷ rest) ≡ with_front (ch ∷ []) (parse_body fuel rest)
unfolding parse_body parse_escape
letter_reads fuel ch letter rest e no_unicode = rw (no_unicode, e)

plain_reads :
    (fuel ch : ℕ) (rest : List ℕ)
    → (ch == b'"') ≡ false
    → (ch == b'\\') ≡ false
    → ltb ch 0x20 ≡ false
    → parse_body (suc fuel) (ch ∷ rest) ≡ with_front (ch ∷ []) (parse_body fuel rest)
unfolding parse_body
plain_reads fuel ch rest quote slash control = rw (quote, slash, control)

-- How a character is written: by a letter, by its code, or as it is.
data Written (ch : ℕ) (text : List ℕ) : Type 0 where
  letter :
      (c : ℕ)
      → text ≡ b'\\' ∷ c ∷ []
      → simple_escape c ≡ some ch
      → (c == b'u') ≡ false
      → Written ch text
  code : text ≡ json_append_hex4 ch → ch < 32 → Written ch text
  plain :
      text ≡ ch ∷ []
      → (ch == b'"') ≡ false
      → (ch == b'\\') ≡ false
      → ltb ch 0x20 ≡ false
      → Written ch text

Written-reads :
    (fuel ch : ℕ) (text rest : List ℕ)
    → Written ch text
    → parse_body (suc fuel) (text ++ rest) ≡ with_front (ch ∷ []) (parse_body fuel rest)
Written-reads fuel ch text rest (letter c e f g) = rw e (letter_reads fuel ch c rest f g)
Written-reads fuel ch text rest (code e h) = rw e (hex4_reads fuel ch rest h)
Written-reads fuel ch text rest (plain e f g h) = rw e (plain_reads fuel ch rest f g h)

by_letter :
    (ch c : ℕ) {d : ℕ} (text : List ℕ)
    → (ch == d) ≡ true
    → text ≡ b'\\' ∷ c ∷ []
    → simple_escape c ≡ some d
    → (c == b'u') ≡ false
    → Written ch text
by_letter ch c {d} text e f g h = letter c f (g ∙ ap some (sym ((==_iff ch d).0 e))) h

escape_char-Written : (ch : ℕ) → Written ch (escape_char ch)
unfolding escape_char simple_escape
escape_char-Written ch = elim (Bool-cases (ch == b'"')) [
  | inl e ↦ by_letter ch b'"' (escape_char ch) e (rw e) refl refl
  | inr n0 ↦ elim (Bool-cases (ch == b'\\')) [
    | inl e ↦ by_letter ch b'\\' (escape_char ch) e (rw (n0, e)) refl refl
    | inr n1 ↦ elim (Bool-cases (ch == 8)) [
      | inl e ↦ by_letter ch b'b' (escape_char ch) e (rw (n0, n1, e)) refl refl
      | inr n2 ↦ elim (Bool-cases (ch == 12)) [
        | inl e ↦ by_letter ch b'f' (escape_char ch) e (rw (n0, n1, n2, e)) refl refl
        | inr n3 ↦ elim (Bool-cases (ch == 10)) [
          | inl e ↦ by_letter ch b'n' (escape_char ch) e (rw (n0, n1, n2, n3, e)) refl refl
          | inr n4 ↦ elim (Bool-cases (ch == 13)) [
            | inl e ↦ by_letter ch b'r' (escape_char ch) e (rw (n0, n1, n2, n3, n4, e)) refl refl
            | inr n5 ↦ elim (Bool-cases (ch == 9)) [
              | inl e ↦
                  by_letter ch b't' (escape_char ch) e (rw (n0, n1, n2, n3, n4, n5, e)) refl refl
              | inr n6 ↦ elim (Bool-cases (ltb ch 0x20)) [
                | inl c ↦ code (rw (n0, n1, n2, n3, n4, n5, n6, c)) (ltb→lt ch 32 c)
                | inr p ↦ plain (rw (n0, n1, n2, n3, n4, n5, n6, p)) n0 n1 p
              ]
            ]
          ]
        ]
      ]
    ]
  ]
]

-- One round of the parser reads one escaped character back.
pub escape_char_reads :
    (fuel ch : ℕ) (rest : List ℕ)
    → parse_body (suc fuel) (escape_char ch ++ rest) ≡ with_front (ch ∷ []) (parse_body fuel rest)
escape_char_reads fuel ch rest =
    Written-reads fuel ch (escape_char ch) rest (escape_char-Written ch)

-- The service's escapes, of the characters that they serve.
unfoldable pub IsServed : ℕ → Type 0
IsServed ch = ((ch ≡ 9) ⊎ (ch ≡ 10)) ⊎ ((ch ≡ 13) ⊎ (32 ≤ ch))

service_escape_char-Written : (ch : ℕ) → IsServed ch → Written ch (service_escape_char ch)
unfolding service_escape_char simple_escape IsServed
service_escape_char-Written ch h = elim (Bool-cases (ch == b'\\')) [
  | inl e ↦ by_letter ch b'\\' (service_escape_char ch) e (rw e) refl refl
  | inr n0 ↦ elim (Bool-cases (ch == b'"')) [
    | inl e ↦ by_letter ch b'"' (service_escape_char ch) e (rw (n0, e)) refl refl
    | inr n1 ↦ elim (Bool-cases (ch == 10)) [
      | inl e ↦ by_letter ch b'n' (service_escape_char ch) e (rw (n0, n1, e)) refl refl
      | inr n2 ↦ elim (Bool-cases (ch == 13)) [
        | inl e ↦ by_letter ch b'r' (service_escape_char ch) e (rw (n0, n1, n2, e)) refl refl
        | inr n3 ↦ elim (Bool-cases (ch == 9)) [
          | inl e ↦ by_letter ch b't' (service_escape_char ch) e (rw (n0, n1, n2, n3, e)) refl refl
          | inr n4 ↦ plain (rw (n0, n1, n2, n3, n4)) n1 n0 (ground arith)
        ]
      ]
    ]
  ]
]

pub service_escape_char_reads :
    (fuel ch : ℕ) (rest : List ℕ)
    → IsServed ch
    → parse_body (suc fuel) (service_escape_char ch ++ rest)
      ≡ with_front (ch ∷ []) (parse_body fuel rest)
service_escape_char_reads fuel ch rest h =
    Written-reads fuel ch (service_escape_char ch) rest (service_escape_char-Written ch h)

Written-grows : (ch : ℕ) (text : List ℕ) → Written ch text → 1 ≤ length text
unfolding json_append_hex4
Written-grows ch text (letter c e f g) = rw e (omega arith)
Written-grows ch text (code e h) = rw e (omega arith)
Written-grows ch text (plain e f g h) = rw e (omega arith)

pub escape_char-grows : (ch : ℕ) → 1 ≤ length (escape_char ch)
escape_char-grows ch = Written-grows ch (escape_char ch) (escape_char-Written ch)

pub service_escape_char-grows : (ch : ℕ) → 1 ≤ length (service_escape_char ch)
unfolding service_escape_char
service_escape_char-grows ch = ground arith
