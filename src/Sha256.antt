-- ===== src/Sha256.antt =====
-- runtime/sprout_runtime.c: SHA-256 and HMAC-SHA-256 of stdlib.crypto.
--
-- A uint32_t is a number below 2^32, its sums are cut by `% 2^32`, and `~x` is 2^32 - 1 - x. The
-- part of `data` in use, its first `datalen` bytes, is a list, so `datalen` is its length. The
-- message schedule is built with the newest word first.
pub mod Blocks
pub mod Update
pub mod Digest
pub mod Hmac
mod Examples
use Prim.Native.Nat.{bit_and, bit_or, bit_xor}
use sprout_lang.Prelude.{
  ℕ, zero, suc, ◌+◌, ◌-◌, ◌*◌, ◌/◌, ◌%◌, ◌^◌, ltb, ◌==◌, if◌then◌else◌, Option, none, some, List,
  [], ◌∷◌, ◌++◌, length, get_elem?, map,
}
use mathlib.Core.List.{reverse}

abbrev pub two_32 : ℕ
two_32 = 4294967296

unfoldable pub crypto_rotr32 : ℕ → ℕ → ℕ
crypto_rotr32 x n = bit_or (x / 2 ^ n) (x * 2 ^ (32 - n) % two_32)

unfoldable pub crypto_ch : ℕ → ℕ → ℕ → ℕ
crypto_ch x y z = bit_xor (bit_and x y) (bit_and (4294967295 - x) z)

unfoldable pub crypto_maj : ℕ → ℕ → ℕ → ℕ
crypto_maj x y z = bit_xor (bit_xor (bit_and x y) (bit_and x z)) (bit_and y z)

unfoldable pub crypto_sig0 : ℕ → ℕ
crypto_sig0 x = bit_xor (bit_xor (crypto_rotr32 x 7) (crypto_rotr32 x 18)) (x / 2 ^ 3)

unfoldable pub crypto_sig1 : ℕ → ℕ
crypto_sig1 x = bit_xor (bit_xor (crypto_rotr32 x 17) (crypto_rotr32 x 19)) (x / 2 ^ 10)

unfoldable pub crypto_ep0 : ℕ → ℕ
crypto_ep0 x = bit_xor (bit_xor (crypto_rotr32 x 2) (crypto_rotr32 x 13)) (crypto_rotr32 x 22)

unfoldable pub crypto_ep1 : ℕ → ℕ
crypto_ep1 x = bit_xor (bit_xor (crypto_rotr32 x 6) (crypto_rotr32 x 11)) (crypto_rotr32 x 25)

pub record HashState : Type 0 where
  pub a : ℕ
  pub b : ℕ
  pub c : ℕ
  pub d : ℕ
  pub e : ℕ
  pub f : ℕ
  pub g : ℕ
  pub h : ℕ

pub record Sha256Ctx : Type 0 where
  pub state : HashState
  pub bitlen : ℕ
  pub block : List ℕ

unfoldable pub sha256_k : List ℕ
sha256_k =
    0x428a2f98 ∷ 0x71374491 ∷ 0xb5c0fbcf ∷ 0xe9b5dba5 ∷ 0x3956c25b ∷ 0x59f111f1 ∷ 0x923f82a4
    ∷ 0xab1c5ed5 ∷ 0xd807aa98 ∷ 0x12835b01 ∷ 0x243185be ∷ 0x550c7dc3 ∷ 0x72be5d74 ∷ 0x80deb1fe
    ∷ 0x9bdc06a7 ∷ 0xc19bf174 ∷ 0xe49b69c1 ∷ 0xefbe4786 ∷ 0x0fc19dc6 ∷ 0x240ca1cc ∷ 0x2de92c6f
    ∷ 0x4a7484aa ∷ 0x5cb0a9dc ∷ 0x76f988da ∷ 0x983e5152 ∷ 0xa831c66d ∷ 0xb00327c8 ∷ 0xbf597fc7
    ∷ 0xc6e00bf3 ∷ 0xd5a79147 ∷ 0x06ca6351 ∷ 0x14292967 ∷ 0x27b70a85 ∷ 0x2e1b2138 ∷ 0x4d2c6dfc
    ∷ 0x53380d13 ∷ 0x650a7354 ∷ 0x766a0abb ∷ 0x81c2c92e ∷ 0x92722c85 ∷ 0xa2bfe8a1 ∷ 0xa81a664b
    ∷ 0xc24b8b70 ∷ 0xc76c51a3 ∷ 0xd192e819 ∷ 0xd6990624 ∷ 0xf40e3585 ∷ 0x106aa070 ∷ 0x19a4c116
    ∷ 0x1e376c08 ∷ 0x2748774c ∷ 0x34b0bcb5 ∷ 0x391c0cb3 ∷ 0x4ed8aa4a ∷ 0x5b9cca4f ∷ 0x682e6ff3
    ∷ 0x748f82ee ∷ 0x78a5636f ∷ 0x84c87814 ∷ 0x8cc70208 ∷ 0x90befffa ∷ 0xa4506ceb ∷ 0xbef9a3f7
    ∷ 0xc67178f2 ∷ []

-- The first sixteen words, big-endian, put in front of `m`.
unfoldable pub load_words : List ℕ → List ℕ → List ℕ
load_words (x ∷ y ∷ z ∷ w ∷ bytes) m =
    load_words bytes (bit_or (bit_or (bit_or (x * 2 ^ 24) (y * 2 ^ 16)) (z * 2 ^ 8)) w ∷ m)
load_words _ m = m

abbrev word : Option ℕ → ℕ
word none = 0
word (some w) = w

-- One word of the schedule: `m[i - 2]` is the second of the list, and so on.
unfoldable pub next_word : List ℕ → ℕ
next_word m =
    (crypto_sig1 (word (get_elem? m 1))
      + word (get_elem? m 6)
      + crypto_sig0 (word (get_elem? m 14))
      + word (get_elem? m 15))
    % two_32

unfoldable pub extend : ℕ → List ℕ → List ℕ
extend zero m = m
extend (suc rounds) m = extend rounds (next_word m ∷ m)

unfoldable pub round : HashState → ℕ → ℕ → HashState
round s k m =
    let t1 = (s.h + crypto_ep1 s.e + crypto_ch s.e s.f s.g + k + m) % two_32 in
    let t2 = (crypto_ep0 s.a + crypto_maj s.a s.b s.c) % two_32 in
    record {
      a = (t1 + t2) % two_32;
      b = s.a;
      c = s.b;
      d = s.c;
      e = (s.d + t1) % two_32;
      f = s.e;
      g = s.f;
      h = s.g;
    }

unfoldable pub rounds : List ℕ → List ℕ → HashState → HashState
rounds (k ∷ ks) (m ∷ ms) s = rounds ks ms (round s k m)
rounds _ _ s = s

unfoldable pub sha256_transform : HashState → List ℕ → HashState
sha256_transform s bytes =
    let t = rounds sha256_k (reverse (extend 48 (load_words bytes []))) s in
    record {
      a = (s.a + t.a) % two_32;
      b = (s.b + t.b) % two_32;
      c = (s.c + t.c) % two_32;
      d = (s.d + t.d) % two_32;
      e = (s.e + t.e) % two_32;
      f = (s.f + t.f) % two_32;
      g = (s.g + t.g) % two_32;
      h = (s.h + t.h) % two_32;
    }

unfoldable pub sha256_init : Sha256Ctx
sha256_init = record {
  state = record {
    a = 0x6a09e667;
    b = 0xbb67ae85;
    c = 0x3c6ef372;
    d = 0xa54ff53a;
    e = 0x510e527f;
    f = 0x9b05688c;
    g = 0x1f83d9ab;
    h = 0x5be0cd19;
  };
  bitlen = 0;
  block = [];
}

abbrev pub two_64 : ℕ
two_64 = 18446744073709551616

unfoldable pub sha256_push : Sha256Ctx → ℕ → Sha256Ctx
sha256_push ctx byte =
    let block = ctx.block ++ (byte ∷ []) in
    if length block == 64
    then record {
      state = sha256_transform ctx.state block;
      bitlen = (ctx.bitlen + 512) % two_64;
      block = [];
    }
    else record ctx { block = block }

unfoldable pub sha256_update : Sha256Ctx → List ℕ → Sha256Ctx
sha256_update ctx [] = ctx
sha256_update ctx (byte ∷ bytes) = sha256_update (sha256_push ctx byte) bytes

unfoldable pub zeros : ℕ → List ℕ
zeros zero = []
zeros (suc n) = 0 ∷ zeros n

-- `while (i < n) data[i++] = 0x00`
unfoldable pub fill_to : ℕ → List ℕ → List ℕ
fill_to n block = block ++ zeros (n - length block)

unfoldable pub length_bytes : ℕ → List ℕ
length_bytes n =
    bit_and (n / 2 ^ 56) 0xff
    ∷ bit_and (n / 2 ^ 48) 0xff
    ∷ bit_and (n / 2 ^ 40) 0xff
    ∷ bit_and (n / 2 ^ 32) 0xff
    ∷ bit_and (n / 2 ^ 24) 0xff
    ∷ bit_and (n / 2 ^ 16) 0xff
    ∷ bit_and (n / 2 ^ 8) 0xff
    ∷ bit_and (n / 2 ^ 0) 0xff
    ∷ []

unfoldable pub word_bytes : ℕ → List ℕ
word_bytes w =
    bit_and (w / 2 ^ 24) 0xff
    ∷ bit_and (w / 2 ^ 16) 0xff
    ∷ bit_and (w / 2 ^ 8) 0xff
    ∷ bit_and w 0xff
    ∷ []

unfoldable pub digest_bytes : HashState → List ℕ
digest_bytes s =
    word_bytes s.a
    ++ (word_bytes s.b
        ++ (word_bytes s.c
            ++ (word_bytes s.d
                ++ (word_bytes s.e ++ (word_bytes s.f ++ (word_bytes s.g ++ word_bytes s.h))))))

-- The last block, of a context whose bit length is final and whose block fits in front of it.
unfoldable pub last_block : HashState → ℕ → List ℕ → HashState
last_block state bitlen block = sha256_transform state (fill_to 56 block ++ length_bytes bitlen)

unfoldable pub sha256_final : Sha256Ctx → List ℕ
sha256_final ctx =
    let bitlen = (ctx.bitlen + length ctx.block * 8) % two_64 in
    let block = ctx.block ++ (0x80 ∷ []) in
    digest_bytes (
      if ltb 56 (length block)
      then last_block (sha256_transform ctx.state (fill_to 64 block)) bitlen []
      else last_block ctx.state bitlen block)

unfoldable pub sha256_digest : List ℕ → List ℕ
sha256_digest bytes = sha256_final (sha256_update sha256_init bytes)

unfoldable pub hmac_sha256_digest : List ℕ → List ℕ → List ℕ
hmac_sha256_digest key msg =
    let key' = if ltb 64 (length key) then sha256_digest key else key in
    let key_block = fill_to 64 key' in
    let inner =
      sha256_final
        (sha256_update (sha256_update sha256_init (map (λ k. bit_xor k 0x36) key_block)) msg) in
    sha256_final
      (sha256_update (sha256_update sha256_init (map (λ k. bit_xor k 0x5c) key_block)) inner)
