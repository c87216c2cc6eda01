-- ===== src/Sha256/Update.antt =====
-- sha256_update: what a context has taken in, whatever the cuts between the calls.
use mathlib.Core.List.{append_assoc, append-nil}
use sprout_lang.Prelude.{
  ℕ, suc, ◌+◌, ◌*◌, ◌%◌, ◌<◌, ◌==◌, List, [], ◌∷◌, ◌++◌, ◌≡◌, refl, sym, ap, ◌∙◌, inl, inr, length,
  length-append, Bool-cases, arith,
}
use sprout_lang.Sha256.{Sha256Ctx, sha256_transform, sha256_push, sha256_update, two_64}
use sprout_lang.Sha256.Blocks.{compress, compress-block}

-- The context `after` comes from `ctx` by the bytes `msg`: `n` blocks are hashed, and what is left
-- is in the block.
pub record Absorbs (ctx : Sha256Ctx) (msg : List ℕ) (after : Sha256Ctx) : Type 0 where
  pub blocks : ℕ
  pub short : length after.block < 64
  pub sizes : length ctx.block + length msg ≡ 64 * blocks + length after.block
  pub bits : after.bitlen ≡ (ctx.bitlen + 512 * blocks) % two_64
  pub hashes :
      (k : ℕ) (tail : List ℕ)
      → compress (blocks + k) ctx.state ((ctx.block ++ msg) ++ tail)
        ≡ compress k after.state (after.block ++ tail)

next_byte :
    (block : List ℕ) (byte : ℕ) (msg tail : List ℕ)
    → (block ++ (byte ∷ msg)) ++ tail ≡ (block ++ (byte ∷ [])) ++ (msg ++ tail)
next_byte block byte msg tail = simp (append_assoc)

one_more : (n k : ℕ) → suc n + k ≡ suc (n + k)
one_more n k = omega arith

Absorbs-nothing :
    (ctx : Sha256Ctx) → length ctx.block < 64 → ctx.bitlen < two_64 → Absorbs ctx [] ctx
Absorbs-nothing ctx short bits = record {
  blocks = 0;
  short = short;
  sizes = omega arith;
  bits = omega arith;
  hashes = λ k tail.
      ap (λ n. compress n ctx.state ((ctx.block ++ []) ++ tail)) (omega arith)
      ∙ ap (λ xs. compress k ctx.state (xs ++ tail)) (append-nil ctx.block);
}

Absorbs-block :
    (ctx after : Sha256Ctx) (byte : ℕ) (msg : List ℕ)
    → length (ctx.block ++ (byte ∷ [])) ≡ 64
    → Absorbs
        (record {
          state = sha256_transform ctx.state (ctx.block ++ (byte ∷ []));
          bitlen = (ctx.bitlen + 512) % two_64;
          block = [];
        })
        msg
        after
    → Absorbs ctx (byte ∷ msg) after
Absorbs-block ctx after byte msg full h = record {
  blocks = suc h.blocks;
  short = h.short;
  sizes = omega (arith, h.sizes, length-append ctx.block (byte ∷ []));
  bits = omega (arith, h.bits);
  hashes = λ k tail.
      ap (λ n. compress n ctx.state ((ctx.block ++ (byte ∷ msg)) ++ tail)) (one_more h.blocks k)
      ∙ (ap (compress (suc (h.blocks + k)) ctx.state) (next_byte ctx.block byte msg tail)
          ∙ (compress-block (h.blocks + k) ctx.state (ctx.block ++ (byte ∷ [])) (msg ++ tail) full
              ∙ h.hashes k tail));
}

Absorbs-byte :
    (ctx after : Sha256Ctx) (byte : ℕ) (msg : List ℕ)
    → Absorbs (record ctx { block = ctx.block ++ (byte ∷ []) }) msg after
    → Absorbs ctx (byte ∷ msg) after
Absorbs-byte ctx after byte msg h = record {
  blocks = h.blocks;
  short = h.short;
  sizes = omega (arith, h.sizes, length-append ctx.block (byte ∷ []));
  bits = h.bits;
  hashes = λ k tail.
      ap (λ xs. compress (h.blocks + k) ctx.state (xs ++ tail))
        (sym (append_assoc ctx.block (byte ∷ []) msg))
      ∙ h.hashes k tail;
}

pub sha256_update-Absorbs :
    (msg : List ℕ) (ctx : Sha256Ctx)
    → length ctx.block < 64
    → ctx.bitlen < two_64
    → Absorbs ctx msg (sha256_update ctx msg)
unfolding sha256_update sha256_push
sha256_update-Absorbs [] ctx short bits = Absorbs-nothing ctx short bits
sha256_update-Absorbs (byte ∷ msg) ctx short bits =
    let size = length-append ctx.block (byte ∷ []) in
    let block : List ℕ = ctx.block ++ (byte ∷ []) in
    elim (Bool-cases (length block == 64)) [
      | inl full ↦
          let hashed : Sha256Ctx = record {
            state = sha256_transform ctx.state block;
            bitlen = (ctx.bitlen + 512) % two_64;
            block = [];
          } in
          rw full (
            Absorbs-block ctx (sha256_update hashed msg) byte msg (ground arith)
              (sha256_update-Absorbs msg hashed (omega arith) (omega arith)))
      | inr more ↦
          let longer : Sha256Ctx = record ctx { block = block } in
          rw more (
            Absorbs-byte ctx (sha256_update longer msg) byte msg
              (sha256_update-Absorbs msg longer (ground arith) bits))
    ]

pub sha256_update-append :
    (xs ys : List ℕ) (ctx : Sha256Ctx)
    → sha256_update ctx (xs ++ ys) ≡ sha256_update (sha256_update ctx xs) ys
unfolding sha256_update
sha256_update-append [] ys ctx = refl
sha256_update-append (x ∷ xs) ys ctx = sha256_update-append xs ys (sha256_push ctx x)
