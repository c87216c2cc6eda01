-- ===== src/Sha256/Blocks.antt =====
-- SHA-256 as FIPS 180-4 states it around the compression function, for which sha256_transform
-- stands: the padded message, cut into blocks of 64 bytes.
use sprout_lang.Prelude.{
  ℕ, zero, suc, ◌-◌, ◌*◌, ◌/◌, ◌%◌, List, ◌∷◌, ◌++◌, ◌≡◌, length, take, drop, take-length,
  drop-length,
}
use sprout_lang.Sha256.{HashState, sha256_transform, sha256_init, zeros, length_bytes, digest_bytes}

-- `n` blocks of a list of bytes.
unfoldable pub compress : ℕ → HashState → List ℕ → HashState
compress zero s bytes = s
compress (suc n) s bytes = compress n (sha256_transform s (take 64 bytes)) (drop 64 bytes)

-- The message, a bit 1, zeros up to eight bytes below a multiple of 64, and the length in bits.
unfoldable pub padded : List ℕ → List ℕ
padded msg = msg ++ (0x80 ∷ (zeros ((119 - length msg % 64) % 64) ++ length_bytes (length msg * 8)))

unfoldable pub hash : List ℕ → List ℕ
hash msg = digest_bytes (compress (length (padded msg) / 64) (sha256_init.state) (padded msg))

-- A list splits at a length.
take_exact : (n : ℕ) (xs ys : List ℕ) → length xs ≡ n → take n (xs ++ ys) ≡ xs
take_exact n xs ys e = rw (← e) (take-length xs ys)

drop_exact : (n : ℕ) (xs ys : List ℕ) → length xs ≡ n → drop n (xs ++ ys) ≡ ys
drop_exact n xs ys e = rw (← e) (drop-length xs ys)

pub compress-block :
    (n : ℕ) (s : HashState) (block rest : List ℕ)
    → length block ≡ 64
    → compress (suc n) s (block ++ rest) ≡ compress n (sha256_transform s block) rest
unfolding compress
compress-block n s block rest e = rw (take_exact 64 block rest e, drop_exact 64 block rest e)
