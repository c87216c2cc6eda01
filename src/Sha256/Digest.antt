-- ===== src/Sha256/Digest.antt =====
-- sha256_digest computes the hash that FIPS 180-4 states.
use mathlib.Core.List.{append_assoc, append-nil}
use sprout_lang.Prelude.{
  ℕ, zero, suc, ◌+◌, ◌-◌, ◌*◌, ◌/◌, ◌%◌, ◌≤◌, ◌<◌, ltb, List, [], ◌∷◌, ◌++◌, ◌≡◌, refl, sym, ap,
  ◌∙◌, inl, inr, length, length-append, Bool-cases, ltb→lt, ltb_false→le, arith,
}
use sprout_lang.Sha256.{
  HashState, Sha256Ctx, sha256_transform, sha256_init, sha256_update, sha256_final, sha256_digest,
  zeros, fill_to, length_bytes, last_block, digest_bytes, two_64,
}
use sprout_lang.Sha256.Blocks.{compress, compress-block, padded, hash}
use sprout_lang.Sha256.Update.{Absorbs, sha256_update-Absorbs}

zeros-add : (a b : ℕ) → zeros (a + b) ≡ zeros a ++ zeros b
unfolding zeros
zeros-add zero b = ap zeros (omega arith)
zeros-add (suc a) b =
    let count : suc a + b ≡ suc (a + b) = omega arith in
    rw count (ap (λ xs. 0 ∷ xs) (zeros-add a b))

pub length-zeros : (n : ℕ) → length (zeros n) ≡ n
unfolding zeros
length-zeros zero = refl
length-zeros (suc n) = ap suc (length-zeros n)

length-length_bytes : (n : ℕ) → length (length_bytes n) ≡ 8
unfolding length_bytes
length-length_bytes n = refl

pub length-fill_to : (n : ℕ) (block : List ℕ) → length block ≤ n → length (fill_to n block) ≡ n
unfolding fill_to
length-fill_to n block h =
    omega (arith, length-append block (zeros (n - length block)), length-zeros (n - length block))

-- The bytes behind a message of `len` bytes.
abbrev padding : ℕ → List ℕ
padding len = 0x80 ∷ (zeros ((119 - len % 64) % 64) ++ length_bytes (len * 8))

-- The padding fits into this block, or goes on into one more.
one_block :
    (block : List ℕ) (len : ℕ)
    → length block ≡ len % 64
    → length block + 1 ≤ 56
    → block ++ padding len ≡ fill_to 56 (block ++ (0x80 ∷ [])) ++ length_bytes (len * 8)
unfolding fill_to
one_block block len e h =
    let size = length-append block (0x80 ∷ []) in
    let count : (119 - len % 64) % 64 ≡ 56 - length (block ++ (0x80 ∷ [])) = omega arith in
    rw count (simp (append_assoc))

two_blocks :
    (block : List ℕ) (len : ℕ)
    → length block ≡ len % 64
    → 56 < length block + 1
    → block ++ padding len
      ≡ fill_to 64 (block ++ (0x80 ∷ [])) ++ (fill_to 56 [] ++ length_bytes (len * 8))
unfolding fill_to
two_blocks block len e h =
    let size = length-append block (0x80 ∷ []) in
    let count : (119 - len % 64) % 64 ≡ (64 - length (block ++ (0x80 ∷ []))) + 56 = omega arith in
    rw (count, zeros-add (64 - length (block ++ (0x80 ∷ []))) 56) (simp (append_assoc))

length-padding : (len : ℕ) → length (padding len) ≡ 9 + (119 - len % 64) % 64
length-padding len =
    let z = (119 - len % 64) % 64 in
    omega (
      arith,
      length-append (zeros z) (length_bytes (len * 8)),
      length-zeros z,
      length-length_bytes (len * 8),
    )

hash_one :
    (s : HashState) (block : List ℕ)
    → length block ≡ 64
    → compress 1 s block ≡ sha256_transform s block
unfolding compress
hash_one s block e = ap (compress 1 s) (sym (append-nil block)) ∙ compress-block 0 s block [] e

-- The last block, or the last two, as the code hashes them.
final_one :
    (s : HashState) (block : List ℕ) (len : ℕ)
    → length block ≡ len % 64
    → length block + 1 ≤ 56
    → compress 1 s (block ++ padding len) ≡ last_block s (len * 8) (block ++ (0x80 ∷ []))
unfolding last_block
final_one s block len e h =
    let front = fill_to 56 (block ++ (0x80 ∷ [])) in
    let size = length-append block (0x80 ∷ []) in
    let fills = length-fill_to 56 (block ++ (0x80 ∷ [])) (omega arith) in
    ap (compress 1 s) (one_block block len e h)
    ∙ hash_one s (front ++ length_bytes (len * 8))
        (omega (arith, length-append front (length_bytes (len * 8)), length-length_bytes (len * 8)))

final_two :
    (s : HashState) (block : List ℕ) (len : ℕ)
    → length block ≡ len % 64
    → length block < 64
    → 56 < length block + 1
    → compress 2 s (block ++ padding len)
      ≡ last_block (sha256_transform s (fill_to 64 (block ++ (0x80 ∷ [])))) (len * 8) []
unfolding last_block
final_two s block len e short h =
    let size = length-append block (0x80 ∷ []) in
    let full = length-fill_to 64 (block ++ (0x80 ∷ [])) (omega arith) in
    let front = fill_to 56 [] in
    ap (compress 2 s) (two_blocks block len e h)
    ∙ (compress-block 1 s (fill_to 64 (block ++ (0x80 ∷ []))) (front ++ length_bytes (len * 8)) full
        ∙ hash_one (sha256_transform s (fill_to 64 (block ++ (0x80 ∷ []))))
            (front ++ length_bytes (len * 8))
            (omega (
              arith,
              length-append front (length_bytes (len * 8)),
              length-length_bytes (len * 8),
              length-fill_to 56 [] (omega arith),
            )))

-- The digest of a context that absorbed a message is its hash.
pub sha256_final-eq-hash :
    (ctx : Sha256Ctx) (msg : List ℕ)
    → Absorbs sha256_init msg ctx
    → length msg * 8 < two_64
    → sha256_final ctx ≡ hash msg
unfolding sha256_final hash padded sha256_init
sha256_final-eq-hash ctx msg h small =
    let len = length msg in
    let r = length ctx.block in
    let short = h.short in
    let sizes = h.sizes in
    let bits = h.bits in
    let rest : r ≡ len % 64 = omega arith in
    let count : (ctx.bitlen + r * 8) % two_64 ≡ len * 8 = omega arith in
    let size = length-append ctx.block (0x80 ∷ []) in
    let whole = length-append msg (padding len) in
    let pad = length-padding len in
    rw count (
      ap digest_bytes (elim (Bool-cases (ltb 56 (length (ctx.block ++ (0x80 ∷ []))))) [
        | inl long ↦
            let many : length (msg ++ padding len) / 64 ≡ h.blocks + 2 =
              ground (arith, ltb→lt 56 (length (ctx.block ++ (0x80 ∷ []))) long) in
            rw (long, many)
              (sym (
                h.hashes 2 (padding len)
                ∙ final_two ctx.state ctx.block len rest short
                    (ground (arith, ltb→lt 56 (length (ctx.block ++ (0x80 ∷ []))) long))))
        | inr fits ↦
            let many : length (msg ++ padding len) / 64 ≡ h.blocks + 1 =
              ground (arith, ltb_false→le 56 (length (ctx.block ++ (0x80 ∷ []))) fits) in
            rw (fits, many)
              (sym (
                h.hashes 1 (padding len)
                ∙ final_one ctx.state ctx.block len rest
                    (ground (arith, ltb_false→le 56 (length (ctx.block ++ (0x80 ∷ []))) fits))))
      ]))

-- For a message of fewer than 2^64 bits, the digest is built as FIPS 180-4 says: the blocks of the
-- padded message, put through sha256_transform in their order.
pub sha256_digest-eq-hash : (msg : List ℕ) → length msg * 8 < two_64 → sha256_digest msg ≡ hash msg
unfolding sha256_digest sha256_init
sha256_digest-eq-hash msg small =
    sha256_final-eq-hash (sha256_update sha256_init msg) msg
      (sha256_update-Absorbs msg sha256_init (omega arith) (omega arith)) small
