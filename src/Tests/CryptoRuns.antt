-- ===== src/Tests/CryptoRuns.antt =====
-- Runs of the software provider.
use zonal_zero_trust_auth.Base.{
  ◌≡◌, ◌≢◌, ◌↔◌, ◌+◌, ◌/◌, some, length, ◌≤◌, ◌<◌, ◌^◌, ◌%◌, refl, [], ◌∷◌, ◌++◌, arith, take, drop,
}
use zonal_zero_trust_auth.Platform.{
  Bytes, CryptoStatus, CryptoSignature, IsArray, nonce_len, sha256_digest_len, ecc_signature_len,
  zeros,
}
use zonal_zero_trust_auth.Crypto.Constants.{sha256_init_hash, mock_ecc_public_key, mock_master_salt}
use zonal_zero_trust_auth.Crypto.Provider.{generate_random_nonce, verify_ecc_signature}
use zonal_zero_trust_auth.Crypto.Bounds.{IsArray-append, sha256_impl-IsArray, padded_len_lem}
use zonal_zero_trust_auth.Crypto.Lfsr.{drawn, generate_random_nonce_lem}
use zonal_zero_trust_auth.Crypto.Signature.{r_part, s_part, verify_ecc_signature_lem}
use zonal_zero_trust_auth.Crypto.Words.{load_be32, store_be32}
use zonal_zero_trust_auth.Crypto.Endian.{be_word, load_be32-store_be32}
use zonal_zero_trust_auth.Crypto.Fips.{sha256}
use zonal_zero_trust_auth.Crypto.Blocks.{sha256_impl-sha256}
use zonal_zero_trust_auth.Crypto.Loop.{block_loop, block_loop_ends}
use zonal_zero_trust_auth.Crypto.Sha256.{
  padded_len, sha256_impl, padded_byte, fill_block, load_words, next_word, extend_words,
  message_schedule, compress_round, compress_rounds, process_block, process_blocks, store_words,
  store_digest,
}

abbrev abc : Bytes
abc = 0x61 ∷ 0x62 ∷ 0x63 ∷ []

abbrev abc_digest : Bytes
abc_digest =
    0xba ∷ 0x78 ∷ 0x16 ∷ 0xbf ∷ 0x8f ∷ 0x01 ∷ 0xcf ∷ 0xea ∷ 0x41 ∷ 0x41 ∷ 0x40 ∷ 0xde ∷ 0x5d ∷ 0xae
    ∷ 0x22 ∷ 0x23 ∷ 0xb0 ∷ 0x03 ∷ 0x61 ∷ 0xa3 ∷ 0x96 ∷ 0x17 ∷ 0x7a ∷ 0x9c ∷ 0xb4 ∷ 0x10 ∷ 0xff
    ∷ 0x61 ∷ 0xf2 ∷ 0x00 ∷ 0x15 ∷ 0xad ∷ []

-- The digest of "abc" in FIPS 180-4.
abc_run : sha256_impl abc ≡ abc_digest
unfolding sha256_impl padded_byte fill_block load_words next_word extend_words message_schedule
    compress_round compress_rounds process_block process_blocks store_words store_digest
abc_run = refl

generate_random_nonce_lem_example :
    let out = generate_random_nonce (drawn 0 2) (zeros nonce_len) in
    IsArray nonce_len out.1 × (out.2 ≢ 0) × (out.2 < 2 ^ 32)
generate_random_nonce_lem_example = generate_random_nonce_lem 0 2 (zeros nonce_len) (omega arith)

padded_len_lem_example :
    (padded_len 56 % 64 ≡ 0) × (56 + 9 ≤ padded_len 56) × (padded_len 56 < 56 + 9 + 64)
padded_len_lem_example = padded_len_lem 56 (omega arith)

unfoldable signed : CryptoSignature
signed = r_part abc_digest ++ s_part abc_digest

signed-IsArray : IsArray ecc_signature_len signed
unfolding signed
signed-IsArray =
    IsArray-append 32 32 (r_part abc_digest) (s_part abc_digest)
      (sha256_impl-IsArray (abc_digest ++ mock_master_salt))
      (sha256_impl-IsArray (mock_master_salt ++ abc_digest))

verify_ecc_signature_lem_example :
    let out = verify_ecc_signature 1 abc_digest signed mock_ecc_public_key in
    ((out.0 ≡ CryptoStatus.ok) ↔ (
      (mock_ecc_public_key ≡ mock_ecc_public_key)
      × (take sha256_digest_len signed ≡ r_part abc_digest)
      × (drop sha256_digest_len signed ≡ s_part abc_digest)))
    × (out.1 ≡ 1)
verify_ecc_signature_lem_example =
    verify_ecc_signature_lem 1 abc_digest signed mock_ecc_public_key signed-IsArray (omega arith)

load_be32-store_be32_example :
    let bytes : Bytes = 0x12 ∷ 0x34 ∷ 0x56 ∷ 0x78 ∷ [] in
    (load_be32 bytes 0 ≡ be_word 0x12 0x34 0x56 0x78)
    × (store_be32 (load_be32 bytes 0) ≡ bytes)
    × (load_be32 (store_be32 0x9abcdef0) 0 ≡ 0x9abcdef0)
load_be32-store_be32_example =
    load_be32-store_be32 0x12 0x34 0x56 0x78 0x9abcdef0 (omega arith) (omega arith) (omega arith)
      (omega arith) (omega arith)

sha256_impl-sha256_example : sha256_impl abc ≡ sha256 abc
sha256_impl-sha256_example = sha256_impl-sha256 abc (omega arith) (omega arith)

block_loop_ends_example :
    block_loop 2 abc 0 sha256_init_hash ≡ some (process_blocks abc (padded_len (length abc) / 64))
block_loop_ends_example = block_loop_ends abc 2 (omega arith)
