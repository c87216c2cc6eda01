-- ===== src/Bytes/Examples.antt =====
-- Bytes and builders at concrete inputs.
use sprout_lang.Prelude.{ℕ, some, List, [], ◌∷◌, ◌++◌, ◌≡◌, refl, ok, length, AllBytes, arith}
use sprout_lang.Prelude.Int.{negsuc}
use sprout_lang.Bytes.{BuilderVal, bytes_builder_append, bytes_builder_build, bytes_builder_u32_be}
use sprout_lang.Bytes.Build.{IsValid, AllPresent, total, bytes_builder_append_lem}
use sprout_lang.Bytes.Words.{big_endian, modulo, bytes_builder_u32_be_lem}

abbrev one_chunk : BuilderVal
one_chunk = record { len = 2; chunks = some (1 ∷ 2 ∷ []) ∷ [] }

abbrev two_chunks : BuilderVal
two_chunks = record { len = 3; chunks = some (3 ∷ []) ∷ some (4 ∷ 5 ∷ []) ∷ [] }

one_chunk-IsValid : IsValid one_chunk
unfolding AllPresent total
one_chunk-IsValid = record { present = tt; filled = refl }

two_chunks-IsValid : IsValid two_chunks
unfolding AllPresent total
two_chunks-IsValid = record { present = tt; filled = refl }

bytes_builder_append_lem_example :
    (both : BuilderVal) × (left right : List ℕ) × (bytes_builder_append
        (some one_chunk)
        (some two_chunks)
      ≡ ok both)
    × IsValid both
    × (bytes_builder_build (some one_chunk) ≡ ok left)
    × (bytes_builder_build (some two_chunks) ≡ ok right)
    × (bytes_builder_build (some both) ≡ ok (left ++ right))
    × (length (left ++ right) ≡ both.len)
bytes_builder_append_lem_example =
    bytes_builder_append_lem one_chunk two_chunks one_chunk-IsValid two_chunks-IsValid (omega arith)

-- -2 in 32 bits.
bytes_builder_u32_be_lem_example :
    (out : List ℕ) × (bytes_builder_build (some (bytes_builder_u32_be (negsuc 1))) ≡ ok out)
    × (length out ≡ 4)
    × AllBytes out
    × (big_endian 0 out ≡ 4294967294)
unfolding modulo
bytes_builder_u32_be_lem_example = bytes_builder_u32_be_lem (negsuc 1)
