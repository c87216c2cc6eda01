-- ===== src/Text.antt =====
-- runtime/sprout_runtime.c: UTF-8 text. A Sprout String is the bytes before its NUL terminator,
-- and a pointer into it is the rest of the list; reading at or past the end gives the NUL.
--
-- `x & m` and `x | y` are `bit_and` and `bit_or`, `x << k` is `x * 2 ^ k`, `x >> k` is
-- `x / 2 ^ k`. Allocation, rooting and the choice of an out-of-memory message are left out.
pub mod Bytes
pub mod Steps
pub mod Encoding
pub mod Walks
pub mod Validate
pub mod Decode
pub mod Chars
pub mod Search
mod Examples
use Prim.Native.Nat.{bit_and, bit_or}
use Prim.Native.String.{String}
use mathlib.Core.Bool.{not}
use sprout_lang.Prelude.{
  ℕ, zero, suc, ◌+◌, ◌-◌, ◌*◌, ◌/◌, Bool, true, false, ◌&&◌, ◌||◌, ltb, leb, ◌==◌, if◌then◌else◌,
  Option, none, some, List, [], ◌∷◌, length, take, drop, ◌⊎◌, inl, inr, Outcome, ok, fail, ◌>>=◌,
}
use sprout_lang.Prelude.Int.{ℤ, pos, negsuc, pos_part}

-- `s[k]`, with the terminator past the end.
abbrev pub char_at : List ℕ → ℕ → ℕ
char_at [] k = 0
char_at (b ∷ s) zero = b
char_at (b ∷ s) (suc k) = char_at s k

unfoldable pub sprout_utf8_char_width : ℕ → Outcome ℕ
sprout_utf8_char_width lead =
    if bit_and lead 0x80 == 0
    then ok 1
    else if bit_and lead 0xE0 == 0xC0
    then ok 2
    else if bit_and lead 0xF0 == 0xE0
    then ok 3
    else if bit_and lead 0xF8 == 0xF0
    then ok 4
    else fail "str_utf8: invalid UTF-8 lead byte"

-- `(b & 0xC0) == 0x80`
unfoldable pub sprout_utf8_is_cont : ℕ → Bool
sprout_utf8_is_cont b = bit_and b 0xC0 == 0x80

-- The loop `for (k = …; k < width; k++)`, on the number of rounds left.
unfoldable pub check_continuations : ℕ → List ℕ → ℕ → Outcome ℕ
check_continuations zero s width = ok width
check_continuations (suc rounds) s width =
    let rest = check_continuations rounds s width in
    if sprout_utf8_is_cont (char_at s (width - suc rounds))
    then rest
    else fail "str_utf8: truncated or malformed UTF-8 sequence"

unfoldable pub sprout_utf8_step : List ℕ → Outcome ℕ
sprout_utf8_step s = do
  width ← sprout_utf8_char_width (char_at s 0)
  check_continuations (width - 1) s width

unfoldable pub sprout_utf8_decode_at : List ℕ → ℕ → ℕ
sprout_utf8_decode_at u width =
    if width == 1
    then char_at u 0
    else if width == 2
    then bit_or (bit_and (char_at u 0) 0x1F * 64) (bit_and (char_at u 1) 0x3F)
    else if width == 3
    then bit_or (bit_or (bit_and (char_at u 0) 0x0F * 4096) (bit_and (char_at u 1) 0x3F * 64))
        (bit_and (char_at u 2) 0x3F)
    else bit_or
        (bit_or (bit_or (bit_and (char_at u 0) 0x07 * 262144) (bit_and (char_at u 1) 0x3F * 4096))
          (bit_and (char_at u 2) 0x3F * 64))
        (bit_and (char_at u 3) 0x3F)

-- The walks take fuel, which is the number of bytes left: each step passes at least one.
unfoldable pub count_from : ℕ → List ℕ → ℕ → Outcome ℕ
count_from zero s count = ok count
count_from (suc fuel) [] count = ok count
count_from (suc fuel) (b ∷ s) count = do
  width ← sprout_utf8_step (b ∷ s)
  count_from fuel (drop width (b ∷ s)) (count + 1)

unfoldable pub sprout_utf8_codepoint_count : List ℕ → Outcome ℕ
unfolding count_from
sprout_utf8_codepoint_count s = count_from (length s) s 0

-- `none` is a NULL pointer.
unfoldable pub str_len : Option (List ℕ) → Outcome ℕ
str_len none = fail "str_len: null input"
str_len (some s) = sprout_utf8_codepoint_count s

-- Walk `count` codepoints at most, stopping at the NUL: what is left of the string.
unfoldable pub skip_codepoints : ℕ → List ℕ → Outcome (List ℕ)
skip_codepoints zero s = ok s
skip_codepoints (suc count) [] = ok []
skip_codepoints (suc count) (b ∷ s) = do
  width ← sprout_utf8_step (b ∷ s)
  skip_codepoints count (drop width (b ∷ s))

-- `start` and `count` are clamped at 0; the slice is what lies between the two walks.
unfoldable pub str_slice : Option (List ℕ) → ℤ → ℤ → Outcome (List ℕ)
str_slice none start count = fail "str_slice: null input"
str_slice (some s) start count = do
  from ← skip_codepoints (pos_part start) s
  to ← skip_codepoints (pos_part count) from
  ok (take (length from - length to) from)

unfoldable pub char_at_from : ℕ → List ℕ → Outcome (Option ℕ)
char_at_from index [] = ok none
char_at_from zero (b ∷ s) = do
  width ← sprout_utf8_step (b ∷ s)
  ok (some (sprout_utf8_decode_at (b ∷ s) width))
char_at_from (suc index) (b ∷ s) = do
  width ← sprout_utf8_step (b ∷ s)
  char_at_from index (drop width (b ∷ s))

unfoldable pub str_char_at : Option (List ℕ) → ℤ → Outcome (Option ℕ)
str_char_at none index = fail "str_char_at: null input"
str_char_at (some s) (negsuc n) = ok none
str_char_at (some s) (pos index) = char_at_from index s

unfoldable pub sprout_validate_codepoint : ℤ → Bool
sprout_validate_codepoint (negsuc n) = false
sprout_validate_codepoint (pos cp) =
    if ltb 0x10FFFF cp then false else if leb 0xD800 cp && leb cp 0xDFFF then false else true

-- The bytes that `char_to_string` writes to its buffer, for a codepoint that passed the check.
unfoldable pub encode : ℕ → List ℕ
encode cp =
    if leb cp 0x7F
    then cp ∷ []
    else if leb cp 0x7FF
    then bit_or 0xC0 (cp / 64) ∷ bit_or 0x80 (bit_and cp 0x3F) ∷ []
    else if leb cp 0xFFFF
    then bit_or 0xE0 (cp / 4096)
      ∷ bit_or 0x80 (bit_and (cp / 64) 0x3F)
      ∷ bit_or 0x80 (bit_and cp 0x3F)
      ∷ []
    else bit_or 0xF0 (cp / 262144)
      ∷ bit_or 0x80 (bit_and (cp / 4096) 0x3F)
      ∷ bit_or 0x80 (bit_and (cp / 64) 0x3F)
      ∷ bit_or 0x80 (bit_and cp 0x3F)
      ∷ []

unfoldable pub char_to_string : ℤ → Outcome (List ℕ)
char_to_string ch =
    if sprout_validate_codepoint ch
    then (if pos_part ch == 0
        then fail "char_to_string: NUL cannot be in a String"
        else ok (encode (pos_part ch)))
    else fail "char_to_string: codepoint out of Unicode range"

unfoldable pub char_from_codepoint : ℤ → Outcome ℤ
char_from_codepoint codepoint =
    if sprout_validate_codepoint codepoint
    then ok codepoint
    else fail "char_from_codepoint: codepoint out of Unicode range"

-- What `utf8_validate` reports: 1, or 0 and the reason.
pub data Verdict : Type 0 where
  valid : Verdict
  invalid : String → Verdict

-- One round of the loop per unit of fuel; the tests are made in the order of the source.
unfoldable pub validate_from : ℕ → List ℕ → Verdict
unfolding sprout_utf8_is_cont
validate_from zero s = valid
validate_from (suc fuel) [] = valid
validate_from (suc fuel) (b0 ∷ s) =
    let b1 = char_at s 0 in
    let b2 = char_at s 1 in
    let b3 = char_at s 2 in
    let one = validate_from fuel s in
    let two = validate_from fuel (drop 1 s) in
    let three = validate_from fuel (drop 2 s) in
    let four = validate_from fuel (drop 3 s) in
    if b0 == 0
    then invalid "decoded string contains NUL byte"
    else if leb b0 0x7F
    then one
    else if bit_and b0 0xE0 == 0xC0
    then (if leb (length s) 0
        then invalid "truncated UTF-8 sequence"
        else if not (sprout_utf8_is_cont b1) || ltb b0 0xC2
        then invalid "invalid UTF-8 sequence"
        else two)
    else if bit_and b0 0xF0 == 0xE0
    then (if leb (length s) 1
        then invalid "truncated UTF-8 sequence"
        else if not (sprout_utf8_is_cont b1) || not (sprout_utf8_is_cont b2)
        then invalid "invalid UTF-8 sequence"
        else if b0 == 0xE0 && ltb b1 0xA0 || b0 == 0xED && leb 0xA0 b1
        then invalid "invalid UTF-8 sequence"
        else three)
    else if bit_and b0 0xF8 == 0xF0
    then (if leb (length s) 2
        then invalid "truncated UTF-8 sequence"
        else if not (sprout_utf8_is_cont b1)
            || not (sprout_utf8_is_cont b2)
            || not (sprout_utf8_is_cont b3)
        then invalid "invalid UTF-8 sequence"
        else if b0 == 0xF0 && ltb b1 0x90 || b0 == 0xF4 && leb 0x90 b1 || ltb 0xF4 b0
        then invalid "invalid UTF-8 sequence"
        else four)
    else invalid "invalid UTF-8 sequence"

unfoldable pub utf8_validate : List ℕ → Verdict
unfolding validate_from
utf8_validate bs = validate_from (length bs) bs

-- `Err` of the reason, or `Ok` of the same bytes as a String.
unfoldable pub bytes_to_utf8 : Option (List ℕ) → Outcome (String ⊎ List ℕ)
bytes_to_utf8 none = fail "bytes_to_utf8: null bytes"
bytes_to_utf8 (some bs) =
    ok (elim (utf8_validate bs) [ valid ↦ inr bs | invalid reason ↦ inl reason ])
