-- ===== src/Text/Search.antt =====
-- runtime/sprout_runtime.c: the byte-wise reads of a String, and the search for one in another.
use Prim.Native.Nat.{bit_and}
use sprout_lang.Prelude.{
  ℕ, zero, suc, ◌+◌, ◌-◌, Bool, true, false, ◌&&◌, ltb, leb, ◌==◌, if◌then◌else◌, Option, none,
  some, List, [], ◌∷◌, length, get_elem?, take, drop, Outcome, ok, fail, ◌>>=◌,
}
use sprout_lang.Prelude.Int.{ℤ, pos, negsuc}
use sprout_lang.Text.{char_at, sprout_utf8_step}

-- The header check of a debug run is left out.
unfoldable pub str_byte_len : Option (List ℕ) → Outcome ℕ
str_byte_len none = fail "str_byte_len: null input"
str_byte_len (some s) = ok (length s)

-- The test of the header's kind is left out: the argument is a String.
unfoldable pub str_byte_at_unboxed : Option (List ℕ) → ℤ → Outcome (Option ℕ)
str_byte_at_unboxed none i = fail "str_byte_at: null input"
str_byte_at_unboxed (some s) (negsuc n) = ok none
str_byte_at_unboxed (some s) (pos i) = ok (if leb (length s) i then none else get_elem? s i)

abbrev pub is_continuation : ℕ → Bool
is_continuation b = bit_and b 0xC0 == 0x80

unfoldable pub slice_at : List ℕ → ℕ → ℕ → Outcome (List ℕ)
slice_at s byte_start byte_len =
    let total = length s in
    let bs = if ltb total byte_start then total else byte_start in
    let bl = if ltb total (bs + byte_len) then total - bs else byte_len in
    if ltb 0 bs && ltb bs total && is_continuation (char_at s bs)
    then fail "str_slice_bytes: byte_start splits a UTF-8 codepoint"
    else if ltb (bs + bl) total && is_continuation (char_at s (bs + bl))
    then fail "str_slice_bytes: byte_start+byte_len splits a UTF-8 codepoint"
    else ok (take bl (drop bs s))

unfoldable pub str_slice_bytes : Option (List ℕ) → ℤ → ℤ → Outcome (List ℕ)
str_slice_bytes none byte_start byte_len = fail "str_slice_bytes: null input"
str_slice_bytes (some s) (pos byte_start) (pos byte_len) = slice_at s byte_start byte_len
str_slice_bytes (some s) _ _ = fail "str_slice_bytes: byte_start/byte_len must be >= 0"

-- `strncmp(s, prefix, n) == 0` where the prefix has `n` bytes and no NUL.
unfoldable pub starts_with : List ℕ → List ℕ → Bool
starts_with s [] = true
starts_with [] (p ∷ prefix) = false
starts_with (b ∷ s) (p ∷ prefix) = b == p && starts_with s prefix

unfoldable pub str_starts_with_at_byte : Option (List ℕ) → ℤ → Option (List ℕ) → Outcome Bool
str_starts_with_at_byte none byte_pos prefix = fail "str_starts_with_at_byte: null input"
str_starts_with_at_byte (some s) byte_pos none = fail "str_starts_with_at_byte: null input"
str_starts_with_at_byte (some s) (negsuc n) (some prefix) = ok false
str_starts_with_at_byte (some s) (pos at) (some prefix) =
    ok (if ltb (length s) at then false else starts_with (drop at s) prefix)

-- The distance to the first occurrence: `strstr`.
unfoldable pub strstr : List ℕ → List ℕ → Option ℕ
strstr [] needle = if starts_with [] needle then some 0 else none
strstr (b ∷ s) needle =
    let rest = strstr s needle in
    if starts_with (b ∷ s) needle then some 0 else elim rest [ none ↦ none | some n ↦ some (suc n) ]

-- The codepoints that start before the byte `prefix_len`, from the byte `i` on; a round passes a
-- byte at least, so `prefix_len` rounds are enough fuel.
unfoldable pub count_before : ℕ → List ℕ → ℕ → ℕ → ℕ → Outcome ℕ
count_before zero s i prefix_len count = ok count
count_before (suc fuel) s i prefix_len count =
    if leb prefix_len i
    then ok count
    else sprout_utf8_step (drop i s) >>= λ width.
        count_before fuel s (i + width) prefix_len (count + 1)

unfoldable pub str_find : Option (List ℕ) → Option (List ℕ) → Outcome ℤ
str_find none needle = fail "str_find: null input"
str_find (some haystack) none = fail "str_find: null input"
str_find (some haystack) (some needle) = elim (strstr haystack needle) [
  | none ↦ ok (negsuc 0)
  | some prefix_len ↦ count_before prefix_len haystack 0 prefix_len 0 >>= (λ count. ok (pos count))
]
