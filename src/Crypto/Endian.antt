-- ===== src/Crypto/Endian.antt =====
-- Big-endian loads and stores: what the byte swap makes of a word, and that a store and a load undo
-- each other.
use Prim.Native.Nat.{bit_and, bit_or}
use zonal_zero_trust_auth.Base.{ℕ, ◌+◌, ◌*◌, ◌/◌, ◌%◌, ◌^◌, ◌<◌, ◌≡◌, refl, ap, ◌∙◌, [], ◌∷◌, arith}
use zonal_zero_trust_auth.Base.Masks.{bit_or_add, bit_and_shift, bit_and_byte}
use zonal_zero_trust_auth.Crypto.Words.{
  bswap32, shl32, shr32, word_bytes, bytes_word, load_be32, store_be32,
}

-- The word of four bytes, the most significant one first.
abbrev pub be_word : ℕ → ℕ → ℕ → ℕ → ℕ
be_word a b c d = ((a * 2 ^ 8 + b) * 2 ^ 8 + c) * 2 ^ 8 + d

-- The bytes of a word, from the lowest.
abbrev b0 : ℕ → ℕ
b0 x = x % 256

abbrev b1 : ℕ → ℕ
b1 x = x / 2 ^ 8 % 256

abbrev b2 : ℕ → ℕ
b2 x = x / 2 ^ 16 % 256

abbrev b3 : ℕ → ℕ
b3 x = x / 2 ^ 24 % 256

mask1 : (x : ℕ) → bit_and x 0xff00 ≡ b1 x * 2 ^ 8
mask1 x = bit_and_shift 8 x 255 ∙ ap (λ r. r * 2 ^ 8) (bit_and_byte (x / 2 ^ 8))

mask2 : (x : ℕ) → bit_and x 0xff0000 ≡ b2 x * 2 ^ 16
mask2 x = bit_and_shift 16 x 255 ∙ ap (λ r. r * 2 ^ 16) (bit_and_byte (x / 2 ^ 16))

mask3 : (x : ℕ) → bit_and x 0xff000000 ≡ b3 x * 2 ^ 24
mask3 x = bit_and_shift 24 x 255 ∙ ap (λ r. r * 2 ^ 24) (bit_and_byte (x / 2 ^ 24))

-- The four bytes, put together from the highest.
joined :
    (a b c d : ℕ)
    → a < 256
    → b < 256
    → c < 256
    → d < 256
    → bit_or (bit_or (bit_or (a * 2 ^ 24) (b * 2 ^ 16)) (c * 2 ^ 8)) d ≡ be_word a b c d
joined a b c d ha hb hc hd =
    let two = bit_or_add 24 a (b * 2 ^ 16) (omega arith) in
    let three : bit_or (a * 2 ^ 24 + b * 2 ^ 16) (c * 2 ^ 8) ≡ a * 2 ^ 24 + b * 2 ^ 16 + c * 2 ^ 8 =
      ap (λ r. bit_or r (c * 2 ^ 8)) (split16 a b)
      ∙ bit_or_add 16 (a * 2 ^ 8 + b) (c * 2 ^ 8) (omega arith)
      ∙ omega arith in
    let four : bit_or (a * 2 ^ 24 + b * 2 ^ 16 + c * 2 ^ 8) d ≡ be_word a b c d =
      ap (λ r. bit_or r d) (split8 a b c)
      ∙ bit_or_add 8 (a * 2 ^ 16 + b * 2 ^ 8 + c) d (omega arith)
      ∙ omega arith in
    ap (λ r. bit_or (bit_or r (c * 2 ^ 8)) d) two ∙ ap (λ r. bit_or r d) three ∙ four
  where
    split16 : (a b : ℕ) → a * 2 ^ 24 + b * 2 ^ 16 ≡ (a * 2 ^ 8 + b) * 2 ^ 16
    split16 a b = omega arith

    split8 :
        (a b c : ℕ) → a * 2 ^ 24 + b * 2 ^ 16 + c * 2 ^ 8 ≡ (a * 2 ^ 16 + b * 2 ^ 8 + c) * 2 ^ 8
    split8 a b c = omega arith

-- The swap reverses the bytes.
bswap32-be_word : (x : ℕ) → bswap32 x ≡ be_word (b0 x) (b1 x) (b2 x) (b3 x)
bswap32-be_word x =
    let h0 : shl32 (bit_and x 0xff) 24 ≡ b0 x * 2 ^ 24 =
      ap (λ r. shl32 r 24) (bit_and_byte x) ∙ omega arith in
    let h1 : shl32 (bit_and x 0xff00) 8 ≡ b1 x * 2 ^ 16 =
      ap (λ r. shl32 r 8) (mask1 x) ∙ omega arith in
    let h2 : shr32 (bit_and x 0xff0000) 8 ≡ b2 x * 2 ^ 8 =
      ap (λ r. shr32 r 8) (mask2 x) ∙ omega arith in
    let h3 : shr32 (bit_and x 0xff000000) 24 ≡ b3 x =
      ap (λ r. shr32 r 24) (mask3 x) ∙ omega arith in
    rw (h0, h1, h2, h3)
      (joined (b0 x) (b1 x) (b2 x) (b3 x) (omega arith) (omega arith) (omega arith) (omega arith))

be_word-bytes :
    (a b c d : ℕ)
    → a < 256
    → b < 256
    → c < 256
    → d < 256
    → word_bytes (be_word d c b a) ≡ a ∷ b ∷ c ∷ d ∷ []
be_word-bytes a b c d ha hb hc hd =
    let w0 : b0 (be_word d c b a) ≡ a = omega arith in
    let w1 : b1 (be_word d c b a) ≡ b = omega arith in
    let w2 : b2 (be_word d c b a) ≡ c = omega arith in
    let w3 : b3 (be_word d c b a) ≡ d = omega arith in rw (w0, w1, w2, w3) refl

-- A load of four bytes is the word that they spell, the most significant byte first.
pub load_be32-be_word :
    (a b c d : ℕ)
    → a < 256
    → b < 256
    → c < 256
    → d < 256
    → load_be32 (a ∷ b ∷ c ∷ d ∷ []) 0 ≡ be_word a b c d
load_be32-be_word a b c d ha hb hc hd =
    let w = bytes_word (a ∷ b ∷ c ∷ d ∷ []) 0 in
    let w0 : b0 w ≡ a = omega arith in
    let w1 : b1 w ≡ b = omega arith in
    let w2 : b2 w ≡ c = omega arith in
    let w3 : b3 w ≡ d = omega arith in bswap32-be_word w ∙ rw (w0, w1, w2, w3) refl

-- A store writes the bytes of the word, the most significant one first.
pub store_be32_lem : (w : ℕ) → store_be32 w ≡ b3 w ∷ b2 w ∷ b1 w ∷ b0 w ∷ []
store_be32_lem w =
    ap word_bytes (bswap32-be_word w)
    ∙ be_word-bytes (b3 w) (b2 w) (b1 w) (b0 w) (omega arith) (omega arith) (omega arith)
        (omega arith)

-- Loads and stores are big-endian and undo each other: four bytes are loaded as the word that they
-- spell with the most significant byte first, a store of that word writes them again, and a 32-bit word
-- that is stored is loaded again.
pub load_be32-store_be32 :
    (a b c d w : ℕ)
    → a < 256
    → b < 256
    → c < 256
    → d < 256
    → w < 2 ^ 32
    → let bytes = a ∷ b ∷ c ∷ d ∷ [] in
      (load_be32 bytes 0 ≡ be_word a b c d)
      × (store_be32 (load_be32 bytes 0) ≡ bytes)
      × (load_be32 (store_be32 w) 0 ≡ w)
load_be32-store_be32 a b c d w ha hb hc hd h =
    let loaded = load_be32-be_word a b c d ha hb hc hd in
    (
      loaded,
      ap store_be32 loaded ∙ ap word_bytes (bswap32-be_word (be_word a b c d)) ∙ swapped,
      ap (λ bytes. load_be32 bytes 0) (store_be32_lem w)
          ∙ load_be32-be_word (b3 w) (b2 w) (b1 w) (b0 w) (omega arith) (omega arith) (omega arith)
              (omega arith)
          ∙ omega arith,
    )
  where
    swapped :
        word_bytes (
          be_word
            (b0 (be_word a b c d))
            (b1 (be_word a b c d))
            (b2 (be_word a b c d))
            (b3 (be_word a b c d)))
        ≡ a ∷ b ∷ c ∷ d ∷ []
    swapped =
        let w0 : b0 (be_word a b c d) ≡ d = omega arith in
        let w1 : b1 (be_word a b c d) ≡ c = omega arith in
        let w2 : b2 (be_word a b c d) ≡ b = omega arith in
        let w3 : b3 (be_word a b c d) ≡ a = omega arith in
        rw (w0, w1, w2, w3) (be_word-bytes a b c d ha hb hc hd)
