-- ===== src/Sha256/Examples.antt =====
-- SHA-256 and HMAC at concrete inputs.
use sprout_lang.Prelude.{ℕ, List, [], ◌∷◌, ◌≡◌, refl, arith}
use sprout_lang.Sha256.{
  sha256_init, sha256_update, sha256_final, sha256_digest, hmac_sha256_digest, digest_bytes,
  word_bytes, sha256_push, last_block, sha256_transform, rounds, sha256_k, extend, load_words,
  fill_to, zeros, length_bytes, round, crypto_ep1, crypto_ch, crypto_ep0, crypto_maj, crypto_rotr32,
  crypto_sig0, crypto_sig1, next_word,
}
use sprout_lang.Sha256.Blocks.{hash}
use sprout_lang.Sha256.Digest.{sha256_digest-eq-hash}
use sprout_lang.Sha256.Hmac.{hmac, hmac_sha256_digest-eq-hmac}

-- "abc"
abbrev abc : List ℕ
abc = 97 ∷ 98 ∷ 99 ∷ []

-- The first test vector of FIPS 180-4.
digest-abc :
    sha256_digest abc
    ≡ 0xba ∷ 0x78 ∷ 0x16 ∷ 0xbf ∷ 0x8f ∷ 0x01 ∷ 0xcf ∷ 0xea ∷ 0x41 ∷ 0x41 ∷ 0x40 ∷ 0xde ∷ 0x5d
      ∷ 0xae ∷ 0x22 ∷ 0x23 ∷ 0xb0 ∷ 0x03 ∷ 0x61 ∷ 0xa3 ∷ 0x96 ∷ 0x17 ∷ 0x7a ∷ 0x9c ∷ 0xb4 ∷ 0x10
      ∷ 0xff ∷ 0x61 ∷ 0xf2 ∷ 0x00 ∷ 0x15 ∷ 0xad ∷ []
unfolding sha256_digest sha256_final digest_bytes word_bytes sha256_update sha256_push sha256_init
    last_block sha256_transform rounds sha256_k extend load_words fill_to zeros length_bytes round
    crypto_ep1 crypto_ch crypto_ep0 crypto_maj crypto_rotr32 crypto_sig0 crypto_sig1 next_word
digest-abc = refl

sha256_digest-eq-hash_example : sha256_digest abc ≡ hash abc
sha256_digest-eq-hash_example = sha256_digest-eq-hash abc (omega arith)

hmac_sha256_digest-eq-hmac_example : hmac_sha256_digest (7 ∷ 8 ∷ []) abc ≡ hmac (7 ∷ 8 ∷ []) abc
hmac_sha256_digest-eq-hmac_example =
    hmac_sha256_digest-eq-hmac (7 ∷ 8 ∷ []) abc (omega arith) (omega arith)
