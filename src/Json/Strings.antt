-- ===== src/Json/Strings.antt =====
-- Strings written and read back: json_append_escaped_string and sprout_json_escape against
-- sprout_json_parse_string_impl.
use mathlib.Core.List.{append_assoc, append-nil}
use sprout_lang.Prelude.{
  ℕ, zero, suc, ◌+◌, ◌-◌, ◌≤◌, ◌<◌, true, false, ltb, ◌==◌, List, [], ◌∷◌, ◌++◌, ◌≡◌, ◌≢◌, refl,
  sym, ap, ◌∙◌, length, length-append, arith,
}
use sprout_lang.Json.{
  escape_char, escape_all, json_append_escaped_string, json_string, json_append_value,
}
use sprout_lang.Json.Service.{
  Parsed, null, error, parsed, with_front, parse_body, sprout_json_parse_string_impl,
  sprout_json_skip_ws, sprout_json_escape, service_escape_char,
}
use sprout_lang.Json.Escapes.{
  escape_char_reads, escape_char-grows, service_escape_char-grows, IsServed,
  service_escape_char_reads,
}

closes : (fuel : ℕ) (rest : List ℕ) → 0 < fuel → parse_body fuel (b'"' ∷ rest) ≡ parsed [] rest
unfolding parse_body
closes zero rest h = absurd (omega arith)
closes (suc fuel) rest h = refl

-- Text that ends in its own closing quote, on fuel for its characters and the quote.
body_reads :
    (fuel : ℕ) (raw rest : List ℕ)
    → length raw < fuel
    → parse_body fuel (escape_all raw ++ (b'"' ∷ rest)) ≡ parsed raw rest
unfolding escape_all
body_reads fuel [] rest h = closes fuel rest (omega arith)
body_reads zero (ch ∷ raw) rest h = absurd (omega arith)
body_reads (suc fuel) (ch ∷ raw) rest h =
    ap (parse_body (suc fuel)) (append_assoc (escape_char ch) (escape_all raw) (b'"' ∷ rest))
    ∙ (escape_char_reads fuel ch (escape_all raw ++ (b'"' ∷ rest))
        ∙ ap (with_front (ch ∷ [])) (body_reads fuel raw rest (omega arith)))

pub length-escape_all : (raw : List ℕ) → length raw ≤ length (escape_all raw)
unfolding escape_all
length-escape_all [] = omega arith
length-escape_all (ch ∷ raw) = omega (
  arith,
  length-escape_all raw,
  escape_char-grows ch,
  length-append (escape_char ch) (escape_all raw),
)

-- A String that the JSON output writes is read back whole, whatever its bytes and whatever follows
-- it, control characters, quotes and backslashes included.
pub parse_string-json_append_value :
    (float_text : ℕ → List ℕ) (raw rest : List ℕ)
    → sprout_json_parse_string_impl (json_append_value float_text (json_string raw) ++ rest)
      ≡ parsed raw rest
unfolding json_append_value json_append_escaped_string sprout_json_parse_string_impl
    sprout_json_skip_ws
parse_string-json_append_value float_text raw rest =
    let text : List ℕ = escape_all raw ++ (b'"' ∷ []) in
    let whole = append_assoc (escape_all raw) (b'"' ∷ []) rest in
    let size = length-append (escape_all raw) (b'"' ∷ rest) in
    ap (λ s. parse_body (length s) s) whole
    ∙ body_reads (length (escape_all raw ++ (b'"' ∷ rest))) raw rest
        (omega (arith, length-escape_all raw))

abbrev pub AllServed : List ℕ → Type 0
AllServed [] = Unit
AllServed (ch ∷ raw) = IsServed ch × AllServed raw

-- Fuel for the characters, and `fuel` more.
abbrev more : List ℕ → ℕ → ℕ
more [] fuel = fuel
more (ch ∷ raw) fuel = suc (more raw fuel)

more_lem : (raw : List ℕ) (fuel : ℕ) → more raw fuel ≡ length raw + fuel
more_lem [] fuel = omega arith
more_lem (ch ∷ raw) fuel = omega (arith, more_lem raw fuel)

with_front_nothing : (p : Parsed) → p ≡ with_front [] p
with_front_nothing null = refl
with_front_nothing (error m) = refl
with_front_nothing (parsed out rest) = refl

with_front_one :
    (ch : ℕ) (raw : List ℕ) (p : Parsed)
    → with_front (ch ∷ []) (with_front raw p) ≡ with_front (ch ∷ raw) p
with_front_one ch raw null = refl
with_front_one ch raw (error m) = refl
with_front_one ch raw (parsed out rest) = refl

served_front :
    (fuel : ℕ) (raw tail : List ℕ)
    → AllServed raw
    → parse_body (more raw fuel) (sprout_json_escape raw ++ tail)
      ≡ with_front raw (parse_body fuel tail)
unfolding sprout_json_escape
served_front fuel [] tail h = with_front_nothing (parse_body fuel tail)
served_front fuel (ch ∷ raw) tail (served, h) =
    ap (parse_body (suc (more raw fuel)))
      (append_assoc (service_escape_char ch) (sprout_json_escape raw) tail)
    ∙ (service_escape_char_reads (more raw fuel) ch (sprout_json_escape raw ++ tail) served
        ∙ (ap (with_front (ch ∷ [])) (served_front fuel raw tail h)
            ∙ with_front_one ch raw (parse_body fuel tail)))

length-sprout_json_escape : (raw : List ℕ) → length raw ≤ length (sprout_json_escape raw)
unfolding sprout_json_escape
length-sprout_json_escape [] = omega arith
length-sprout_json_escape (ch ∷ raw) = omega (
  arith,
  length-sprout_json_escape raw,
  service_escape_char-grows ch,
  length-append (service_escape_char ch) (sprout_json_escape raw),
)

-- The fuel of the parser, in the form of the lemmas above.
fuel_for :
    (raw tail : List ℕ)
    → 0 < length tail
    → (fuel : ℕ) × (0 < fuel) × (length (sprout_json_escape raw ++ tail) ≡ more raw fuel)
fuel_for raw tail h =
    let size = length-append (sprout_json_escape raw) tail in
    let grows = length-sprout_json_escape raw in
    let fuel = length (sprout_json_escape raw ++ tail) - length raw in
    (fuel, omega arith, omega (arith, more_lem raw fuel))

-- Text without other control characters than tab, newline and return: quoted and escaped by the
-- analysis service's code, it is read back whole, whatever follows.
pub parse_string-sprout_json_escape :
    (raw rest : List ℕ)
    → AllServed raw
    → sprout_json_parse_string_impl (b'"' ∷ (sprout_json_escape raw ++ (b'"' ∷ rest)))
      ≡ parsed raw rest
unfolding sprout_json_parse_string_impl sprout_json_skip_ws
parse_string-sprout_json_escape raw rest h =
    let (fuel, enough, e) = fuel_for raw (b'"' ∷ rest) (omega arith) in
    ap (λ n. parse_body n (sprout_json_escape raw ++ (b'"' ∷ rest))) e
    ∙ (served_front fuel raw (b'"' ∷ rest) h
        ∙ (ap (with_front raw) (closes fuel rest enough)
            ∙ ap (λ xs. parsed xs rest) (append-nil raw)))

escape-append :
    (xs ys : List ℕ)
    → sprout_json_escape (xs ++ ys) ≡ sprout_json_escape xs ++ sprout_json_escape ys
unfolding sprout_json_escape
escape-append [] ys = refl
escape-append (x ∷ xs) ys =
    ap (λ zs. service_escape_char x ++ zs) (escape-append xs ys)
    ∙ sym (append_assoc (service_escape_char x) (sprout_json_escape xs) (sprout_json_escape ys))

refuses :
    (fuel c : ℕ) (tail : List ℕ)
    → 0 < fuel
    → c < 32
    → parse_body fuel (c ∷ tail) ≡ error "invalid control character in string"
unfolding parse_body
refuses zero c tail h small = absurd (omega arith)
refuses (suc fuel) c tail h small =
    let quote : (c == b'"') ≡ false = ground arith in
    let control : ltb c 0x20 ≡ true = ground arith in rw (quote, control)

abbrev pub IsControl : ℕ → Type 0
IsControl c = (c < 32) × (0 < c) × (c ≢ 9) × (c ≢ 10) × (c ≢ 13)

IsControl-raw : (c : ℕ) → IsControl c → service_escape_char c ≡ c ∷ []
unfolding service_escape_char
IsControl-raw c (small, positive, tab, newline, return) = ground arith

raw_control :
    (front back tail : List ℕ) (c : ℕ)
    → IsControl c
    → sprout_json_escape (front ++ (c ∷ back)) ++ tail
      ≡ sprout_json_escape front ++ (c ∷ (sprout_json_escape back ++ tail))
unfolding sprout_json_escape
raw_control front back tail c h =
    rw (escape-append front (c ∷ back), IsControl-raw c h, append_assoc (sprout_json_escape front))

-- Any other control character goes out as it is: the first one in a text, such as a backspace or a
-- form feed, makes the runtime's own parser refuse the string that the service's code wrote.
pub parse_string-sprout_json_escape_control :
    (front back rest : List ℕ) (c : ℕ)
    → AllServed front
    → IsControl c
    → sprout_json_parse_string_impl
        (b'"' ∷ (sprout_json_escape (front ++ (c ∷ back)) ++ (b'"' ∷ rest)))
      ≡ error "invalid control character in string"
unfolding sprout_json_parse_string_impl sprout_json_skip_ws
parse_string-sprout_json_escape_control front back rest c h control =
    let after : List ℕ = sprout_json_escape back ++ (b'"' ∷ rest) in
    let (fuel, enough, e) = fuel_for front (c ∷ after) (omega arith) in
    ap (λ s. parse_body (length s) s) (raw_control front back (b'"' ∷ rest) c control)
    ∙ (ap (λ n. parse_body n (sprout_json_escape front ++ (c ∷ after))) e
        ∙ (served_front fuel front (c ∷ after) h
            ∙ ap (with_front front) (refuses fuel c after enough (control.0))))
