-- ===== src/Crypto/Bounds.antt =====
-- What the primitives return are arrays of the sizes that the interface declares.
use zonal_zero_trust_auth.Base.{
  ℕ, ◌+◌, ◌*◌, ◌/◌, ◌%◌, ◌^◌, ◌≤◌, ◌<◌, ◌≡◌, refl, ◌∙◌, List, [], ◌∷◌, ◌++◌, arith, length,
  All-append, length-append,
}
use zonal_zero_trust_auth.Platform.{Bytes, IsArray, sha256_digest_len}
use zonal_zero_trust_auth.Crypto.Words.{word_bytes, store_be32, bswap32}
use zonal_zero_trust_auth.Crypto.Constants.{Words8}
use zonal_zero_trust_auth.Crypto.Sha256.{
  process_blocks, store_words, store_digest, sha256_impl, padded_len,
}

pub IsArray-append :
    (m n : ℕ) (xs ys : Bytes) → IsArray m xs → IsArray n ys → IsArray (m + n) (xs ++ ys)
IsArray-append m n xs ys hx hy =
    (omega (arith, length-append xs ys, hx.0, hy.0), All-append (λ b. b < 256) xs ys hx.1 hy.1)

pub word_bytes-IsArray : (w : ℕ) → IsArray 4 (word_bytes w)
word_bytes-IsArray w = (refl, (omega arith, (omega arith, (omega arith, (omega arith, tt)))))

store_be32-IsArray : (w : ℕ) → IsArray 4 (store_be32 w)
store_be32-IsArray w = word_bytes-IsArray (bswap32 w)

store_words-IsArray : (ws : List ℕ) → IsArray (4 * length ws) (store_words ws)
unfolding store_words
store_words-IsArray [] = (refl, tt)
store_words-IsArray (w ∷ ws) =
    let joined =
      IsArray-append 4 (4 * length ws) (store_be32 w) (store_words ws) (store_be32-IsArray w)
        (store_words-IsArray ws) in
    (joined.0 ∙ omega arith, joined.1)

store_digest-IsArray : (v : Words8) → IsArray sha256_digest_len (store_digest v)
unfolding store_digest
store_digest-IsArray v = store_words-IsArray (v.a ∷ v.b ∷ v.c ∷ v.d ∷ v.e ∷ v.f ∷ v.g ∷ v.h ∷ [])

-- A digest is an array of 32 bytes.
pub sha256_impl-IsArray : (input : Bytes) → IsArray sha256_digest_len (sha256_impl input)
unfolding sha256_impl
sha256_impl-IsArray input =
    store_digest-IsArray (process_blocks input (padded_len (length input) / 64))

-- The padded length of a message that fits the address space with its padding is a positive number of
-- whole blocks, has room for the message, the byte 0x80 and the eight bytes of the length, and is the
-- least such number.
pub padded_len_lem :
    (n : ℕ)
    → n + 72 < 2 ^ 64
    → (padded_len n % 64 ≡ 0) × (n + 9 ≤ padded_len n) × (padded_len n < n + 9 + 64)
padded_len_lem n h = (omega arith, omega arith, omega arith)
