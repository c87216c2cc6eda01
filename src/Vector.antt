-- ===== src/Vector.antt =====
-- runtime/sprout_runtime.c: the vectors (vector_empty to vector_from_list), the persistent
-- operations and those in place.
--
-- An object has its length, its capacity, whether its elements stand in its own block, the NOSCAN
-- mark and the words of its elements. `fresh` is what a new block holds, which the code does not
-- clear. The heap maps a handle to its object; `none` is the NULL handle. The roots and the write
-- barrier of the garbage collector, its reuse of a vacated inline area, and failed allocations
-- below the size limit are left out.
pub mod Elements
pub mod InPlace
pub mod Copies
mod Examples
use sprout_lang.Prelude.{
  ℕ, zero, suc, ◌+◌, ◌-◌, ◌*◌, Bool, false, ◌&&◌, ltb, leb, ◌==◌, if◌then◌else◌, Option, none, some,
  List, [], ◌∷◌, length, Outcome, ok, fail, ◌>>=◌,
}
use mathlib.Core.Bool.{not}
use sprout_lang.Prelude.Int.{ℤ, pos, negsuc}
use sprout_lang.Prelude.Memory.{set}

pub record VectorVal : Type 0 where
  pub len : ℕ
  pub cap : ℕ
  pub inline_data : Bool
  pub noscan : Bool
  pub words : ℕ → ℕ

-- `memcpy` of `n` words from index 0, to index `at`.
unfoldable pub copy : ℕ → ℕ → (ℕ → ℕ) → (ℕ → ℕ) → ℕ → ℕ
copy at n src dst i = if leb at i && ltb i (at + n) then src (i - at) else dst i

-- SPROUT_VEC_inline_dataINE_MAX is 508.
unfoldable pub sprout_alloc_vector_sized : ℕ → (ℕ → ℕ) → VectorVal
sprout_alloc_vector_sized count fresh = record {
  len = 0;
  cap = count;
  inline_data = not (count == 0) && leb count 508;
  noscan = false;
  words = fresh;
}

unfoldable pub vector_empty : (ℕ → ℕ) → VectorVal
vector_empty fresh = sprout_alloc_vector_sized 0 fresh

unfoldable pub vector_length : Option VectorVal → Outcome ℕ
vector_length none = fail "vector_length: null vector"
vector_length (some v) = ok v.len

unfoldable pub vector_get : Option VectorVal → ℤ → Outcome (Option ℕ)
vector_get none index = fail "vector_get: null vector"
vector_get (some v) (negsuc n) = ok none
vector_get (some v) (pos i) = ok (if leb v.len i then none else some (v.words i))

unfoldable pub vector_get_direct : Option VectorVal → ℤ → Outcome ℕ
vector_get_direct none index = fail "vector_get_direct: null vector"
vector_get_direct (some v) (negsuc n) = fail "vector_get_direct: index out of bounds"
vector_get_direct (some v) (pos i) =
    if leb v.len i then fail "vector_get_direct: index out of bounds" else ok (v.words i)

-- The store of `vector_set`, where the index is in range.
unfoldable pub store : ℤ → ℕ → ℕ → (ℕ → ℕ) → ℕ → ℕ
store (negsuc n) value len words = words
store (pos i) value len words = if ltb i len then set words i value else words

unfoldable pub vector_set : (ℕ → ℕ) → Option VectorVal → ℤ → ℕ → Outcome VectorVal
vector_set fresh none index value = fail "vector_set: null vector"
vector_set fresh (some src) index value =
    let out : VectorVal = record (sprout_alloc_vector_sized src.len fresh) {
      noscan = src.noscan;
    } in
    ok (
      if src.len == 0 then out else record out {
        words = store index value src.len (copy 0 src.len src.words fresh);
        len = src.len;
      })

unfoldable pub vector_append : (ℕ → ℕ) → Option VectorVal → ℕ → Outcome VectorVal
vector_append fresh none value = fail "vector_append: null vector"
vector_append fresh (some src) value = ok (record (sprout_alloc_vector_sized (src.len + 1) fresh) {
  noscan = src.noscan;
  words = set (copy 0 src.len src.words fresh) src.len value;
  len = src.len + 1;
})

unfoldable pub vector_concat : (ℕ → ℕ) → Option VectorVal → Option VectorVal → Outcome VectorVal
vector_concat fresh none b = fail "vector_concat: null vector"
vector_concat fresh (some va) none = fail "vector_concat: null vector"
vector_concat fresh (some va) (some vb) =
    ok (record (sprout_alloc_vector_sized (va.len + vb.len) fresh) {
      noscan = va.noscan && vb.noscan;
      words = copy va.len vb.len vb.words (copy 0 va.len va.words fresh);
      len = va.len + vb.len;
    })

-- The loop from index `i` on.
unfoldable pub fill : ℕ → List ℕ → (ℕ → ℕ) → ℕ → ℕ
fill i [] words = words
fill i (w ∷ ws) words = fill (suc i) ws (set words i w)

unfoldable pub vector_from_list : (ℕ → ℕ) → List ℕ → VectorVal
vector_from_list fresh list = record (sprout_alloc_vector_sized (length list) fresh) {
  words = fill 0 list fresh;
  len = length list;
}

-- A negative count is a size that no allocation has.
unfoldable pub vec_make_filled : (ℕ → ℕ) → ℤ → ℕ → Outcome VectorVal
vec_make_filled fresh (negsuc n) val = fail "vec_make_filled: out of memory"
vec_make_filled fresh (pos n) val =
    ok (record (sprout_alloc_vector_sized n fresh) { words = copy 0 n (λ i. val) fresh; len = n })

-- The operations in place. Handle 0 is NULL.
unfoldable pub vector_mutset : ℕ → ℤ → ℕ → (ℕ → VectorVal) → Outcome (ℕ → VectorVal)
vector_mutset zero index value heap = fail "vector_mutset: null vector"
vector_mutset (suc h) (negsuc n) value heap = fail "vector_mutset: index out of bounds"
vector_mutset (suc h) (pos i) value heap =
    let v = heap (suc h) in
    if leb v.len i
    then fail "vector_mutset: index out of bounds"
    else ok (set heap (suc h) (record v { words = set v.words i value }))

-- A new buffer of the larger capacity with the elements; `realloc` keeps the old capacity's words.
unfoldable pub grow : (ℕ → ℕ) → VectorVal → VectorVal
grow fresh v = record v {
  cap = if v.cap == 0 then 8 else v.cap * 2;
  words = copy 0 (if v.inline_data then v.len else v.cap) v.words fresh;
  inline_data = false;
}

-- The limit is SIZE_MAX / 8 / 2.
unfoldable pub vector_push : (ℕ → ℕ) → ℕ → ℕ → (ℕ → VectorVal) → Outcome (ℕ → VectorVal)
vector_push fresh zero value heap = fail "vector_push: null vector"
vector_push fresh (suc h) value heap =
    (if leb ((heap (suc h)).cap) ((heap (suc h)).len)
      then (if ltb 1152921504606846975 ((heap (suc h)).cap)
          then fail "vector_push: vector too large"
          else ok (grow fresh (heap (suc h))))
      else ok (heap (suc h)))
    >>= λ v. ok (set heap (suc h) (record v { words = set v.words v.len value; len = v.len + 1 }))

abbrev pub clamp : ℤ → ℕ
clamp (pos k) = k
clamp (negsuc k) = 0

-- The slots from `n` to the length are cleared.
unfoldable pub vector_truncate : ℕ → ℤ → (ℕ → VectorVal) → Outcome (ℕ → VectorVal)
vector_truncate zero n heap = fail "vector_truncate: null vector"
vector_truncate (suc h) n heap =
    let v = heap (suc h) in
    let keep = clamp n in
    ok (
      if leb v.len keep
      then heap
      else set heap (suc h) (record v {
        words = λ i. if leb keep i && ltb i v.len then 0 else v.words i;
        len = keep;
      }))
