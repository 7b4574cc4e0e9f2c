-- ===== src/Crypto/Sha256.antt =====
-- src/CryptoPlatformInterface.cpp, `SoftwareCryptoProvider::Sha256Impl`.
use Prim.Native.Nat.{bit_and, bit_xor}
use zonal_zero_trust_auth.Base.{
  ℕ, zero, suc, ◌+◌, ◌-◌, ◌*◌, ◌/◌, ◌%◌, ◌^◌, List, [], ◌∷◌, ◌++◌, length, get_or, ltb, leb, ◌==◌,
  if◌then◌else◌,
}
use zonal_zero_trust_auth.Platform.{Bytes, Sha256Digest}
use zonal_zero_trust_auth.Crypto.Words.{add32, not32, rotr32, shr32, load_be32, store_be32}
use zonal_zero_trust_auth.Crypto.Constants.{Words8, sha256_k, sha256_init_hash}

-- `bit_len`, a `uint64_t`.
abbrev pub bit_len : ℕ → ℕ
bit_len data_len = data_len * 8 % 2 ^ 64

-- `((data_len + 9U + 63U) / 64U) * 64U`
abbrev pub padded_len : ℕ → ℕ
padded_len data_len = (data_len + 9 + 63) % 2 ^ 64 / 64 * 64

-- The byte at an index of the padded message.
unfoldable pub padded_byte : Bytes → ℕ → ℕ
padded_byte input idx =
    let n = length input in
    if ltb idx n
    then get_or input idx 0
    else if idx == n
    then 0x80
    else if leb (padded_len n - 8) idx
    then bit_len n / 2 ^ ((7 - (idx - (padded_len n - 8))) * 8) % 256
    else 0

-- The first `j` bytes of the block at `block_start`.
unfoldable pub fill_block : Bytes → ℕ → ℕ → Bytes
fill_block input block_start zero = []
fill_block input block_start (suc j) =
    fill_block input block_start j ++ padded_byte input (block_start + j) ∷ []

-- `w[0]` to `w[t - 1]`, from the block.
unfoldable pub load_words : Bytes → ℕ → List ℕ
load_words block zero = []
load_words block (suc t) = load_words block t ++ load_be32 block (t * 4) ∷ []

abbrev pub small_sigma0 : ℕ → ℕ
small_sigma0 x = bit_xor (bit_xor (rotr32 x 7) (rotr32 x 18)) (shr32 x 3)

abbrev pub small_sigma1 : ℕ → ℕ
small_sigma1 x = bit_xor (bit_xor (rotr32 x 17) (rotr32 x 19)) (shr32 x 10)

-- `w[t]` for `t` from 16 on.
unfoldable pub next_word : List ℕ → ℕ → ℕ
next_word w t =
    let s0 = small_sigma0 (get_or w (t - 15) 0) in
    let s1 = small_sigma1 (get_or w (t - 2) 0) in
    add32 (add32 (add32 (get_or w (t - 16) 0) s0) (get_or w (t - 7) 0)) s1

-- The schedule after so many rounds behind the first 16 words.
unfoldable pub extend_words : List ℕ → ℕ → List ℕ
extend_words w zero = w
extend_words w (suc k) = let rest = extend_words w k in rest ++ next_word rest (16 + k) ∷ []

unfoldable pub message_schedule : Bytes → List ℕ
message_schedule block = extend_words (load_words block 16) 48

-- One round of the compression.
unfoldable pub compress_round : List ℕ → ℕ → Words8 → Words8
compress_round w t v =
    let s1 = bit_xor (bit_xor (rotr32 v.e 6) (rotr32 v.e 11)) (rotr32 v.e 25) in
    let ch = bit_xor (bit_and v.e v.f) (bit_and (not32 v.e) v.g) in
    let temp1 = add32 (add32 (add32 (add32 v.h s1) ch) (get_or sha256_k t 0)) (get_or w t 0) in
    let s0 = bit_xor (bit_xor (rotr32 v.a 2) (rotr32 v.a 13)) (rotr32 v.a 22) in
    let maj = bit_xor (bit_xor (bit_and v.a v.b) (bit_and v.a v.c)) (bit_and v.b v.c) in
    let temp2 = add32 s0 maj in
    record {
      a = add32 temp1 temp2;
      b = v.a;
      c = v.b;
      d = v.c;
      e = add32 v.d temp1;
      f = v.e;
      g = v.f;
      h = v.g;
    }

-- The working variables after `t` rounds.
unfoldable pub compress_rounds : List ℕ → ℕ → Words8 → Words8
compress_rounds w zero v = v
compress_rounds w (suc t) v = compress_round w t (compress_rounds w t v)

-- What one block does to the hash state.
unfoldable pub process_block : Bytes → Words8 → Words8
process_block block v =
    let out = compress_rounds (message_schedule block) 64 v in
    record {
      a = add32 v.a out.a;
      b = add32 v.b out.b;
      c = add32 v.c out.c;
      d = add32 v.d out.d;
      e = add32 v.e out.e;
      f = add32 v.f out.f;
      g = add32 v.g out.g;
      h = add32 v.h out.h;
    }

-- The hash state after so many blocks.
unfoldable pub process_blocks : Bytes → ℕ → Words8
process_blocks input zero = sha256_init_hash
process_blocks input (suc k) = process_block (fill_block input (k * 64) 64) (process_blocks input k)

-- The loop that stores the words, one behind the other.
unfoldable pub store_words : List ℕ → Bytes
store_words [] = []
store_words (w ∷ ws) = store_be32 w ++ store_words ws

unfoldable pub store_digest : Words8 → Sha256Digest
store_digest v = store_words (v.a ∷ v.b ∷ v.c ∷ v.d ∷ v.e ∷ v.f ∷ v.g ∷ v.h ∷ [])

-- The loop over the blocks makes `padded_len / 64` rounds.
unfoldable pub sha256_impl : Bytes → Sha256Digest
sha256_impl input = store_digest (process_blocks input (padded_len (length input) / 64))
