-- ===== src/Bytes.antt =====
-- runtime/sprout_runtime.c: the Bytes values and the byte builder of stdlib.bytes.
--
-- A Bytes value is the list of its bytes, `none` where a handle is NULL. A builder has its
-- length and its chunks; the count of the chunks is the length of their list, and a chunk is NULL
-- where it is `none`. Allocation and garbage collection roots are left out.
pub mod Words
pub mod Slice
mod Examples
pub mod Build
use sprout_lang.Prelude.{
  ℕ, suc, ◌+◌, ◌-◌, ◌*◌, ◌/◌, ◌%◌, ◌^◌, ltb, leb, ◌==◌, if◌then◌else◌, Option, none, some, List, [],
  ◌∷◌, ◌++◌, length, get_elem?, take, drop, Outcome, ok, fail, ◌>>=◌,
}
use sprout_lang.Prelude.Int.{ℤ, pos, negsuc, sub_ℕ, ◌-ℤ◌}

unfoldable pub bytes_length : Option (List ℕ) → Outcome ℕ
bytes_length none = fail "bytes_length: null bytes"
bytes_length (some value) = ok (length value)

unfoldable pub bytes_get : Option (List ℕ) → ℤ → Outcome (Option ℕ)
bytes_get none index = fail "bytes_get: null bytes"
bytes_get (some value) (negsuc n) = ok none
bytes_get (some value) (pos i) = ok (if leb (length value) i then none else get_elem? value i)

-- A negative number counts as 0.
abbrev pub clamp : ℤ → ℕ
clamp (pos n) = n
clamp (negsuc n) = 0

unfoldable pub bytes_slice : Option (List ℕ) → ℤ → ℤ → Outcome (List ℕ)
bytes_slice none start count = fail "bytes_slice: null bytes"
bytes_slice (some value) start count =
    let len = length value in
    let s = if ltb len (clamp start) then len else clamp start in
    let c = if ltb len (s + clamp count) then len - s else clamp count in ok (take c (drop s value))

unfoldable pub bytes_append : Option (List ℕ) → Option (List ℕ) → Outcome (List ℕ)
bytes_append none right = fail "bytes_append: null bytes"
bytes_append (some left) none = fail "bytes_append: null bytes"
bytes_append (some left) (some right) = ok (left ++ right)

unfoldable pub bytes_singleton : ℤ → Outcome (List ℕ)
bytes_singleton (negsuc n) = fail "bytes_singleton: byte out of range"
bytes_singleton (pos n) =
    if ltb 255 n then fail "bytes_singleton: byte out of range" else ok (n ∷ [])

pub record BuilderVal : Type 0 where
  pub len : ℕ
  pub chunks : List (Option (List ℕ))

unfoldable pub bytes_builder_bytes : Option (List ℕ) → Outcome BuilderVal
bytes_builder_bytes none = fail "bytes_builder_bytes: null bytes"
bytes_builder_bytes (some value) =
    ok (record { len = length value; chunks = if length value == 0 then [] else some value ∷ [] })

-- The divisor is positive in every call. `/` and `%` of C round to 0, so a negative dividend with
-- a remainder goes down by one more.
unfoldable pub sprout_div_floor : ℤ → ℕ → ℤ
sprout_div_floor (pos n) right = pos (n / right)
sprout_div_floor (negsuc n) right =
    if suc n % right == 0 then sub_ℕ 0 (suc n / right) else sub_ℕ 0 (suc n / right) -ℤ pos 1

abbrev pub times_256 : ℤ → ℤ
times_256 (pos q) = pos (q * 256)
times_256 (negsuc q) = sub_ℕ 0 (suc q * 256)

-- The cast to unsigned char.
unfoldable pub unsigned_char : ℤ → ℕ
unsigned_char (pos n) = n % 256
unsigned_char (negsuc n) = 255 - n % 256

unfoldable pub builder_mod_256 : ℤ → ℕ
builder_mod_256 value = unsigned_char (value -ℤ times_256 (sprout_div_floor value 256))

unfoldable pub bytes_builder_u16_be : ℤ → BuilderVal
bytes_builder_u16_be value = record {
  len = 2;
  chunks = some (builder_mod_256 (sprout_div_floor value 256) ∷ builder_mod_256 value ∷ []) ∷ [];
}

unfoldable pub bytes_builder_u32_be : ℤ → BuilderVal
bytes_builder_u32_be value = record {
  len = 4;
  chunks =
      some (
        builder_mod_256 (sprout_div_floor value 16777216)
        ∷ builder_mod_256 (sprout_div_floor value 65536)
        ∷ builder_mod_256 (sprout_div_floor value 256)
        ∷ builder_mod_256 value
        ∷ [])
      ∷ [];
}

-- A builder without chunks gives the other one back. The sum is a size_t.
unfoldable pub joined : BuilderVal → BuilderVal → BuilderVal
joined left right =
    if length left.chunks == 0
    then right
    else if length right.chunks == 0
    then left
    else record { len = (left.len + right.len) % 2 ^ 64; chunks = left.chunks ++ right.chunks }

unfoldable pub bytes_builder_append : Option BuilderVal → Option BuilderVal → Outcome BuilderVal
bytes_builder_append none right = fail "bytes_builder_append: null builder"
bytes_builder_append (some left) none = fail "bytes_builder_append: null builder"
bytes_builder_append (some left) (some right) = ok (joined left right)

-- The loop over the chunks, each copied behind the ones before, into a buffer that has `room` bytes
-- left. C writes past the buffer where a chunk is longer than that, and returns bytes that nothing
-- has set where the chunks do not fill it: both are failures here.
unfoldable pub copy_chunks : List (Option (List ℕ)) → ℕ → Outcome (List ℕ)
copy_chunks [] room = if room == 0 then ok [] else fail "the end of the buffer is not set"
copy_chunks (none ∷ chunks) room = fail "bytes_builder_build: null chunk"
copy_chunks (some chunk ∷ chunks) room =
    let rest = copy_chunks chunks (room - length chunk) in
    if ltb room (length chunk)
    then fail "a write past the end of the buffer"
    else rest >>= λ copied. ok (chunk ++ copied)

-- The Bytes value, whose length is that of its buffer.
unfoldable pub bytes_builder_build : Option BuilderVal → Outcome (List ℕ)
bytes_builder_build none = fail "bytes_builder_build: null builder"
bytes_builder_build (some value) = copy_chunks value.chunks value.len
