-- ===== src/Crypto/Words.antt =====
-- src/CryptoPlatformInterface.cpp: rotation, byte swap, and big-endian loads and stores. The host is
-- little-endian: `std::memcpy` of a word puts its lowest byte first.
use Prim.Native.Nat.{bit_and, bit_or}
use zonal_zero_trust_auth.Base.{ℕ, ◌+◌, ◌-◌, ◌*◌, ◌/◌, ◌%◌, ◌^◌, [], ◌∷◌, get_or}
use zonal_zero_trust_auth.Platform.{Bytes}

-- `x << n` and `x >> n` on `uint32_t`.
abbrev pub shl32 : ℕ → ℕ → ℕ
shl32 x n = x * 2 ^ n % 2 ^ 32

abbrev pub shr32 : ℕ → ℕ → ℕ
shr32 x n = x / 2 ^ n

abbrev pub add32 : ℕ → ℕ → ℕ
add32 x y = (x + y) % 2 ^ 32

-- `~x` on `uint32_t`.
abbrev pub not32 : ℕ → ℕ
not32 x = 2 ^ 32 - 1 - x

abbrev pub rotr32 : ℕ → ℕ → ℕ
rotr32 x n = bit_or (shr32 x n) (shl32 x (32 - n))

abbrev pub bswap32 : ℕ → ℕ
bswap32 x =
    bit_or
      (bit_or (bit_or (shl32 (bit_and x 0x000000ff) 24) (shl32 (bit_and x 0x0000ff00) 8))
        (shr32 (bit_and x 0x00ff0000) 8))
      (shr32 (bit_and x 0xff000000) 24)

-- `std::memcpy` between a word and its four bytes.
abbrev pub word_bytes : ℕ → Bytes
word_bytes w = w % 256 ∷ w / 2 ^ 8 % 256 ∷ w / 2 ^ 16 % 256 ∷ w / 2 ^ 24 % 256 ∷ []

abbrev pub bytes_word : Bytes → ℕ → ℕ
bytes_word p i =
    get_or p i 0
    + get_or p (i + 1) 0 * 2 ^ 8
    + get_or p (i + 2) 0 * 2 ^ 16
    + get_or p (i + 3) 0 * 2 ^ 24

abbrev pub load_be32 : Bytes → ℕ → ℕ
load_be32 p i = bswap32 (bytes_word p i)

abbrev pub store_be32 : ℕ → Bytes
store_be32 w = word_bytes (bswap32 w)
