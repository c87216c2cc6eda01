-- ===== src/Sha256/Hmac.antt =====
-- hmac_sha256_digest against RFC 2104.
use Prim.Native.Nat.{bit_xor}
use sprout_lang.Prelude.{
  ℕ, suc, ◌+◌, ◌*◌, ◌<◌, ltb, if◌then◌else◌, List, [], ◌∷◌, ◌++◌, ◌≡◌, refl, sym, ap, inl, inr,
  length, length-append, map, Bool-cases, ltb_false→le, arith,
}
use sprout_lang.Sha256.{
  sha256_init, sha256_update, sha256_final, sha256_digest, hmac_sha256_digest, fill_to, word_bytes,
  digest_bytes, two_64,
}
use sprout_lang.Sha256.Blocks.{hash}
use sprout_lang.Sha256.Update.{sha256_update-append}
use sprout_lang.Sha256.Digest.{sha256_digest-eq-hash, length-fill_to}

-- The key of one block: hashed first where it is longer, then filled up with zeros.
unfoldable pub block_key : List ℕ → List ℕ
block_key key = fill_to 64 (if ltb 64 (length key) then hash key else key)

unfoldable pub hmac : List ℕ → List ℕ → List ℕ
hmac key msg = hash (
    map (λ k. bit_xor k 0x5c) (block_key key)
    ++ hash (map (λ k. bit_xor k 0x36) (block_key key) ++ msg))

length-map : (f : ℕ → ℕ) (xs : List ℕ) → length (map f xs) ≡ length xs
length-map f [] = refl
length-map f (x ∷ xs) = ap suc (length-map f xs)

pub length-hash : (msg : List ℕ) → length (hash msg) ≡ 32
unfolding hash digest_bytes word_bytes
length-hash msg = refl

-- Two updates are the update by both.
digest_twice :
    (xs ys : List ℕ)
    → sha256_final (sha256_update (sha256_update sha256_init xs) ys) ≡ sha256_digest (xs ++ ys)
unfolding sha256_digest
digest_twice xs ys = ap sha256_final (sym (sha256_update-append xs ys sha256_init))

same_key :
    (key : List ℕ)
    → length key * 8 < two_64
    → fill_to 64 (if ltb 64 (length key) then sha256_digest key else key) ≡ block_key key
unfolding block_key
same_key key small =
    ap (λ xs. fill_to 64 (if ltb 64 (length key) then xs else key))
      (sha256_digest-eq-hash key small)

length-block_key : (key : List ℕ) → length (block_key key) ≡ 64
unfolding block_key
length-block_key key = elim (Bool-cases (ltb 64 (length key))) [
  | inl long ↦ rw long (length-fill_to 64 (hash key) (omega (arith, length-hash key)))
  | inr short ↦ rw short (length-fill_to 64 key (omega (arith, ltb_false→le 64 (length key) short)))
]

-- The MAC is the construction of RFC 2104 over sha256_digest's hash, for a key of fewer than 2^64
-- bits and a message in front of which a block of 64 bytes still stays below 2^64 bits.
pub hmac_sha256_digest-eq-hmac :
    (key msg : List ℕ)
    → length key * 8 < two_64
    → (64 + length msg) * 8 < two_64
    → hmac_sha256_digest key msg ≡ hmac key msg
unfolding hmac_sha256_digest hmac
hmac_sha256_digest-eq-hmac key msg small_key small =
    let inner_key = map (λ k. bit_xor k 0x36) (block_key key) in
    let outer_key = map (λ k. bit_xor k 0x5c) (block_key key) in
    let size = length-block_key key in
    let inner_size = length-map (λ k. bit_xor k 0x36) (block_key key) in
    let outer_size = length-map (λ k. bit_xor k 0x5c) (block_key key) in
    let inner : sha256_digest (inner_key ++ msg) ≡ hash (inner_key ++ msg) =
      sha256_digest-eq-hash (inner_key ++ msg) (omega (arith, length-append inner_key msg)) in
    let digest = hash (inner_key ++ msg) in
    let outer : sha256_digest (outer_key ++ digest) ≡ hash (outer_key ++ digest) =
      sha256_digest-eq-hash (outer_key ++ digest)
        (omega (arith, length-append outer_key digest, length-hash (inner_key ++ msg))) in
    rw (same_key key small_key, digest_twice inner_key msg, inner, digest_twice outer_key digest)
      outer
