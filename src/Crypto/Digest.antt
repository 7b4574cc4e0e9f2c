-- ===== src/Crypto/Digest.antt =====
-- The program's constants, schedule and rounds against those of FIPS 180-4.
use zonal_zero_trust_auth.Base.{
  ℕ, zero, suc, ◌+◌, ◌*◌, ◌%◌, ◌^◌, ◌<◌, ◌≡◌, refl, ap, ◌∙◌, List, get_or, All, All-get_or, arith,
}
use zonal_zero_trust_auth.Platform.{Bytes}
use zonal_zero_trust_auth.Crypto.Words.{add32, load_be32}
use zonal_zero_trust_auth.Crypto.Endian.{load_be32-be_word}
use zonal_zero_trust_auth.Crypto.Constants.{Words8, sha256_k, sha256_init_hash}
use zonal_zero_trust_auth.Crypto.Sha256.{
  load_words, next_word, extend_words, message_schedule, compress_round, compress_rounds,
  process_block,
}
use zonal_zero_trust_auth.Crypto.Fips
use zonal_zero_trust_auth.Crypto.Fips.{k_words}

k_words_lem : sha256_k ≡ k_words
unfolding k_words
k_words_lem = refl

pub initial_lem : sha256_init_hash ≡ Fips.initial
unfolding Fips.initial
initial_lem = refl

add32_four :
    (a b c d e : ℕ) → add32 (add32 (add32 (add32 a b) c) d) e ≡ (a + b + c + d + e) % 2 ^ 32
add32_four a b c d e = omega arith

compress_round-round :
    (w : List ℕ) (t : ℕ) (v : Words8)
    → compress_round w t v ≡ Fips.round (get_or sha256_k t 0) (get_or w t 0) v
unfolding compress_round Fips.round
compress_round-round w t v =
    let k = get_or sha256_k t 0 in
    rw (add32_four v.h (Fips.big_sigma1 v.e) (Fips.ch v.e v.f v.g) k (get_or w t 0)) refl

compress_rounds-rounds :
    (w : List ℕ) (t : ℕ) (v : Words8) → compress_rounds w t v ≡ Fips.rounds w t v
unfolding compress_rounds Fips.rounds
compress_rounds-rounds w zero v = refl
compress_rounds-rounds w (suc t) v =
    compress_round-round w t (compress_rounds w t v)
    ∙ ap (Fips.round (get_or sha256_k t 0) (get_or w t 0)) (compress_rounds-rounds w t v)
    ∙ ap (λ ks. Fips.round (get_or ks t 0) (get_or w t 0) (Fips.rounds w t v)) k_words_lem

next_word_lem : (w : List ℕ) (t : ℕ) → next_word w t ≡ Fips.schedule_word w t
unfolding next_word
next_word_lem w t = omega arith

extend_words-extend : (w : List ℕ) (k : ℕ) → extend_words w k ≡ Fips.extend w k
unfolding extend_words Fips.extend
extend_words-extend w zero = refl
extend_words-extend w (suc k) =
    rw (extend_words-extend w k, next_word_lem (Fips.extend w k) (16 + k)) refl

load_be32-block_word :
    (block : Bytes) (t : ℕ)
    → All (λ b. b < 256) block
    → load_be32 block (t * 4) ≡ Fips.block_word block t
load_be32-block_word block t h =
    let byte : (i : ℕ) → get_or block i 0 < 256 =
      λ i. All-get_or (λ b. b < 256) block i 0 h (omega arith) in
    load_be32-be_word (get_or block (t * 4) 0) (get_or block (t * 4 + 1) 0)
      (get_or block (t * 4 + 2) 0) (get_or block (t * 4 + 3) 0) (byte (t * 4)) (byte (t * 4 + 1))
      (byte (t * 4 + 2)) (byte (t * 4 + 3))
    ∙ omega arith

load_words-block_words :
    (block : Bytes) (n : ℕ)
    → All (λ b. b < 256) block
    → load_words block n ≡ Fips.block_words block n
unfolding load_words Fips.block_words
load_words-block_words block zero h = refl
load_words-block_words block (suc n) h =
    rw (load_words-block_words block n h, load_be32-block_word block n h) refl

pub process_block-hash_block :
    (block : Bytes) (v : Words8)
    → All (λ b. b < 256) block
    → process_block block v ≡ Fips.hash_block v block
unfolding process_block Fips.hash_block message_schedule Fips.schedule
process_block-hash_block block v h =
    let w = Fips.extend (Fips.block_words block 16) 48 in
    rw
      (
        load_words-block_words block 16 h,
        extend_words-extend (Fips.block_words block 16) 48,
        compress_rounds-rounds w 64 v,
      )
      (λ i. record {
        a = add_comm v.a ((Fips.rounds w 64 v).a) i;
        b = add_comm v.b ((Fips.rounds w 64 v).b) i;
        c = add_comm v.c ((Fips.rounds w 64 v).c) i;
        d = add_comm v.d ((Fips.rounds w 64 v).d) i;
        e = add_comm v.e ((Fips.rounds w 64 v).e) i;
        f = add_comm v.f ((Fips.rounds w 64 v).f) i;
        g = add_comm v.g ((Fips.rounds w 64 v).g) i;
        h = add_comm v.h ((Fips.rounds w 64 v).h) i;
      })
  where
    add_comm : (x y : ℕ) → add32 x y ≡ (y + x) % 2 ^ 32
    add_comm x y = omega arith
