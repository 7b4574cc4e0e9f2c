-- ===== src/Crypto/Fips.antt =====
-- SHA-256 as FIPS 180-4 describes it, written from the standard: constants from the fractional parts of
-- roots of primes, padding, blocks, the schedule and the rounds. Nothing here is the program's but
-- the record of the eight words.
use Prim.Native.Nat.{bit_and, bit_or, bit_xor}
use zonal_zero_trust_auth.Base.{
  ℕ, zero, suc, ◌+◌, ◌-◌, ◌*◌, ◌/◌, ◌%◌, ◌^◌, List, [], ◌∷◌, ◌++◌, length, get_or, take, drop,
  replicate, leb, if◌then◌else◌,
}
use zonal_zero_trust_auth.Platform.{Bytes}
use zonal_zero_trust_auth.Crypto.Constants.{Words8}

-- The integer part of the root: the largest number whose power is at most the bound, found digit by
-- digit from the most significant one.
unfoldable pub root : ℕ → ℕ → ℕ → ℕ → ℕ
root power bound zero acc = acc
root power bound (suc k) acc =
    root power bound k (if leb ((acc + 2 ^ k) ^ power) bound then acc + 2 ^ k else acc)

-- The first 32 bits of the fractional part of a square root and of a cube root.
unfoldable pub sqrt_word : ℕ → ℕ
unfolding root
sqrt_word prime = root 2 (prime * 2 ^ 64) 40 0 % 2 ^ 32

unfoldable pub cbrt_word : ℕ → ℕ
unfolding root
cbrt_word prime = root 3 (prime * 2 ^ 96) 40 0 % 2 ^ 32

-- Section 4.2.2: of the cube roots of the first 64 primes.
abbrev primes : List ℕ
primes =
    2 ∷ 3 ∷ 5 ∷ 7 ∷ 11 ∷ 13 ∷ 17 ∷ 19 ∷ 23 ∷ 29 ∷ 31 ∷ 37 ∷ 41 ∷ 43 ∷ 47 ∷ 53 ∷ 59 ∷ 61 ∷ 67 ∷ 71
    ∷ 73 ∷ 79 ∷ 83 ∷ 89 ∷ 97 ∷ 101 ∷ 103 ∷ 107 ∷ 109 ∷ 113 ∷ 127 ∷ 131 ∷ 137 ∷ 139 ∷ 149 ∷ 151 ∷ 157
    ∷ 163 ∷ 167 ∷ 173 ∷ 179 ∷ 181 ∷ 191 ∷ 193 ∷ 197 ∷ 199 ∷ 211 ∷ 223 ∷ 227 ∷ 229 ∷ 233 ∷ 239 ∷ 241
    ∷ 251 ∷ 257 ∷ 263 ∷ 269 ∷ 271 ∷ 277 ∷ 281 ∷ 283 ∷ 293 ∷ 307 ∷ 311 ∷ []

words_of : (ℕ → ℕ) → List ℕ → List ℕ
words_of f [] = []
words_of f (x ∷ xs) = f x ∷ words_of f xs

unfoldable pub k_words : List ℕ
unfolding cbrt_word words_of
k_words = words_of cbrt_word primes

-- Section 5.3.3: of the square roots of the first eight primes.
unfoldable pub initial : Words8
unfolding sqrt_word
initial = record {
  a = sqrt_word 2;
  b = sqrt_word 3;
  c = sqrt_word 5;
  d = sqrt_word 7;
  e = sqrt_word 11;
  f = sqrt_word 13;
  g = sqrt_word 17;
  h = sqrt_word 19;
}

-- Section 4.1.2: the six functions on words.
abbrev pub rotr : ℕ → ℕ → ℕ
rotr n x = bit_or (x / 2 ^ n) (x * 2 ^ (32 - n) % 2 ^ 32)

abbrev pub xor3 : ℕ → ℕ → ℕ → ℕ
xor3 x y z = bit_xor (bit_xor x y) z

abbrev pub ch : ℕ → ℕ → ℕ → ℕ
ch x y z = bit_xor (bit_and x y) (bit_and (2 ^ 32 - 1 - x) z)

abbrev pub maj : ℕ → ℕ → ℕ → ℕ
maj x y z = xor3 (bit_and x y) (bit_and x z) (bit_and y z)

abbrev pub big_sigma0 : ℕ → ℕ
big_sigma0 x = xor3 (rotr 2 x) (rotr 13 x) (rotr 22 x)

abbrev pub big_sigma1 : ℕ → ℕ
big_sigma1 x = xor3 (rotr 6 x) (rotr 11 x) (rotr 25 x)

abbrev pub sigma0 : ℕ → ℕ
sigma0 x = xor3 (rotr 7 x) (rotr 18 x) (x / 2 ^ 3)

abbrev pub sigma1 : ℕ → ℕ
sigma1 x = xor3 (rotr 17 x) (rotr 19 x) (x / 2 ^ 10)

-- Section 5.1.1: the bit 1, then as few bits 0 as leave 64 bits in the last block, then the length in
-- bits as a 64-bit number, the most significant byte first.
abbrev pub be64 : ℕ → Bytes
be64 v =
    v / 2 ^ 56 % 256
    ∷ v / 2 ^ 48 % 256
    ∷ v / 2 ^ 40 % 256
    ∷ v / 2 ^ 32 % 256
    ∷ v / 2 ^ 24 % 256
    ∷ v / 2 ^ 16 % 256
    ∷ v / 2 ^ 8 % 256
    ∷ v % 256
    ∷ []

unfoldable pub pad : Bytes → Bytes
pad message =
    message
    ++ (0x80 ∷ (replicate ((119 - length message % 64) % 64) 0 ++ be64 (8 * length message)))

-- Section 5.2.1: the blocks of 512 bits, and the sixteen words of a block.
unfoldable pub blocks : ℕ → Bytes → List Bytes
blocks zero xs = []
blocks (suc k) xs = take 64 xs ∷ blocks k (drop 64 xs)

abbrev pub block_word : Bytes → ℕ → ℕ
block_word block t =
    get_or block (t * 4) 0 * 2 ^ 24
    + get_or block (t * 4 + 1) 0 * 2 ^ 16
    + get_or block (t * 4 + 2) 0 * 2 ^ 8
    + get_or block (t * 4 + 3) 0

unfoldable pub block_words : Bytes → ℕ → List ℕ
block_words block zero = []
block_words block (suc t) = block_words block t ++ block_word block t ∷ []

-- Section 6.2.2, step 1: the message schedule, for the words from 16 on.
abbrev pub schedule_word : List ℕ → ℕ → ℕ
schedule_word w t =
    (sigma1 (get_or w (t - 2) 0)
      + get_or w (t - 7) 0
      + sigma0 (get_or w (t - 15) 0)
      + get_or w (t - 16) 0)
    % 2 ^ 32

unfoldable pub extend : List ℕ → ℕ → List ℕ
extend w zero = w
extend w (suc k) = let v = extend w k in v ++ schedule_word v (16 + k) ∷ []

unfoldable pub schedule : Bytes → List ℕ
schedule block = extend (block_words block 16) 48

-- Step 3: one round.
unfoldable pub round : ℕ → ℕ → Words8 → Words8
round k w v =
    let t1 = (v.h + big_sigma1 v.e + ch v.e v.f v.g + k + w) % 2 ^ 32 in
    let t2 = (big_sigma0 v.a + maj v.a v.b v.c) % 2 ^ 32 in
    record {
      a = (t1 + t2) % 2 ^ 32;
      b = v.a;
      c = v.b;
      d = v.c;
      e = (v.d + t1) % 2 ^ 32;
      f = v.e;
      g = v.f;
      h = v.g;
    }

unfoldable pub rounds : List ℕ → ℕ → Words8 → Words8
rounds w zero v = v
rounds w (suc t) v = round (get_or k_words t 0) (get_or w t 0) (rounds w t v)

-- Step 4: the intermediate hash value after a block.
unfoldable pub hash_block : Words8 → Bytes → Words8
hash_block v block =
    let out = rounds (schedule block) 64 v in
    record {
      a = (out.a + v.a) % 2 ^ 32;
      b = (out.b + v.b) % 2 ^ 32;
      c = (out.c + v.c) % 2 ^ 32;
      d = (out.d + v.d) % 2 ^ 32;
      e = (out.e + v.e) % 2 ^ 32;
      f = (out.f + v.f) % 2 ^ 32;
      g = (out.g + v.g) % 2 ^ 32;
      h = (out.h + v.h) % 2 ^ 32;
    }

unfoldable pub hash_blocks : Words8 → List Bytes → Words8
hash_blocks v [] = v
hash_blocks v (block ∷ rest) = hash_blocks (hash_block v block) rest

-- The eight words, the most significant byte first.
abbrev pub be32 : ℕ → Bytes
be32 w = w / 2 ^ 24 % 256 ∷ w / 2 ^ 16 % 256 ∷ w / 2 ^ 8 % 256 ∷ w % 256 ∷ []

unfoldable pub be_words : List ℕ → Bytes
be_words [] = []
be_words (w ∷ ws) = be32 w ++ be_words ws

unfoldable pub sha256 : Bytes → Bytes
sha256 message =
    let padded = pad message in
    let v = hash_blocks initial (blocks (length padded / 64) padded) in
    be_words (v.a ∷ v.b ∷ v.c ∷ v.d ∷ v.e ∷ v.f ∷ v.g ∷ v.h ∷ [])
