-- ===== src/Crypto/Blocks.antt =====
-- `SoftwareCryptoProvider::Sha256Impl` against FIPS 180-4: the loop over indices, which makes no copy of
-- the message, and the padded message cut into blocks.
use zonal_zero_trust_auth.Base.{
  ℕ, zero, suc, ◌*◌, ◌/◌, ◌≤◌, ◌<◌, ◌≡◌, refl, sym, ap, ◌∙◌, List, [], ◌∷◌, ◌++◌, length, take,
  drop, drop-drop, All, All-take, All-drop, arith,
}
use zonal_zero_trust_auth.Platform.{Bytes}
use zonal_zero_trust_auth.Crypto.Constants.{Words8}
use zonal_zero_trust_auth.Crypto.Endian.{store_be32_lem}
use zonal_zero_trust_auth.Crypto.Sha256.{
  padded_len, process_blocks, store_words, store_digest, sha256_impl,
}
use zonal_zero_trust_auth.Crypto.Fips.{pad, blocks, hash_block, hash_blocks, be32, be_words, sha256}
use zonal_zero_trust_auth.Crypto.Fips
use zonal_zero_trust_auth.Crypto.Digest.{initial_lem, process_block-hash_block}
use zonal_zero_trust_auth.Crypto.Padding.{IsShort, length-pad, pad-bytes, fill_block-pad}

hash_blocks-append :
    (v : Words8) (bs : List Bytes) (b : Bytes)
    → hash_blocks v (bs ++ b ∷ []) ≡ hash_block (hash_blocks v bs) b
unfolding hash_blocks
hash_blocks-append v [] b = refl
hash_blocks-append v (c ∷ bs) b = hash_blocks-append (hash_block v c) bs b

blocks-suc :
    (k : ℕ) (xs : Bytes) → blocks (suc k) xs ≡ blocks k xs ++ take 64 (drop (k * 64) xs) ∷ []
unfolding blocks
blocks-suc zero xs = refl
blocks-suc (suc k) xs =
    let next : drop (k * 64) (drop 64 xs) ≡ drop (suc k * 64) xs =
      drop-drop (k * 64) 64 xs ∙ ap (λ n. drop n xs) (omega arith) in
    ap (◌∷◌ (take 64 xs))
      (blocks-suc k (drop 64 xs) ∙ ap (λ b. blocks k (drop 64 xs) ++ take 64 b ∷ []) next)

-- The words go out with their most significant byte first.
store_words-be_words : (ws : List ℕ) → store_words ws ≡ be_words ws
unfolding store_words be_words
store_words-be_words [] = refl
store_words-be_words (w ∷ ws) =
    ap (λ bs. bs ++ store_words ws) (store_be32_lem w)
    ∙ ap (λ bs. be32 w ++ bs) (store_words-be_words ws)

module _ (input : Bytes) (h : IsShort input) (bytes : All (λ b. b < 256) input) where
  process_blocks-hash_blocks :
      (k : ℕ)
      → k * 64 ≤ padded_len (length input)
      → process_blocks input k ≡ hash_blocks Fips.initial (blocks k (pad input))
  unfolding process_blocks hash_blocks blocks
  process_blocks-hash_blocks zero hk = initial_lem
  process_blocks-hash_blocks (suc k) hk =
      let block = take 64 (drop (k * 64) (pad input)) in
      let byte = λ (b : ℕ). b < 256 in
      let typed : All byte block =
        All-take byte 64 (drop (k * 64) (pad input))
          (All-drop byte (k * 64) (pad input) (pad-bytes input bytes)) in
      rw
        (
          fill_block-pad input h (k * 64) 64 (omega arith),
          process_blocks-hash_blocks k (omega arith),
        )
        (process_block-hash_block block (hash_blocks Fips.initial (blocks k (pad input))) typed
          ∙ sym (
              ap (hash_blocks Fips.initial) (blocks-suc k (pad input))
              ∙ hash_blocks-append Fips.initial (blocks k (pad input)) block))

  -- For every message of bytes whose length in bits is a 64-bit number, the provider's digest, made
  -- without a copy of the message, is its SHA-256 as FIPS 180-4 describes it: padding, blocks, message
  -- schedule, rounds and the constants from the roots of primes, none of them taken from the program.
  pub sha256_impl-sha256 : sha256_impl input ≡ sha256 input
  unfolding sha256_impl sha256 store_digest
  sha256_impl-sha256 =
      let n = padded_len (length input) / 64 in
      let v = hash_blocks Fips.initial (blocks (length (pad input) / 64) (pad input)) in
      ap store_digest (
        process_blocks-hash_blocks n (omega arith)
        ∙ ap (λ m. hash_blocks Fips.initial (blocks (m / 64) (pad input)))
            (sym (length-pad input h)))
      ∙ store_words-be_words (v.a ∷ v.b ∷ v.c ∷ v.d ∷ v.e ∷ v.f ∷ v.g ∷ v.h ∷ [])
