-- ===== src/Version.antt =====
-- include/zzta/ZztaVersion.hpp: the version numbers, the packed version word, the
-- strings, and the check that a build makes against the numbers.
use Prim.Native.Nat.{bit_or}
use Prim.Native.String.{String}
use zonal_zero_trust_auth.Base.{
  ℕ, ◌+◌, ◌*◌, ◌%◌, ◌^◌, ◌≤◌, ◌<◌, ◌≡◌, ◌↔◌, ◌⊎◌, ap, ◌∙◌, Bool, ◌&&◌, ◌==◌, leb, arith,
}
use zonal_zero_trust_auth.Base.Masks.{bit_or_add}
use zonal_zero_trust_auth.Crypto.Words.{shl32, shr32}

abbrev pub vendor_id : ℕ
vendor_id = 0xf001

abbrev pub module_id : ℕ
module_id = 0x0101

abbrev pub sw_major_version : ℕ
sw_major_version = 1

abbrev pub sw_minor_version : ℕ
sw_minor_version = 0

abbrev pub sw_patch_version : ℕ
sw_patch_version = 0

-- The initialiser of `kVersionWord`, for any three numbers.
abbrev pub pack : ℕ → ℕ → ℕ → ℕ
pack major minor patch = bit_or (bit_or (shl32 major 16) (shl32 minor 8)) patch

abbrev pub version_word : ℕ
version_word = pack sw_major_version sw_minor_version sw_patch_version

-- The strings, without the NUL at their end.
abbrev pub version_string : String
version_string = "zzta/1.0.0"

abbrev pub component_string : String
component_string = "norxs zonal-zero-trust-authenticator v1.0.0 (c) 2026 norxs Technology LLC"

-- The static assertion on the word.
abbrev pub word_fits : Bool
word_fits = leb version_word 0x00ffffff

-- `buf[0]`, `buf[1]` and `buf[2]` of the documented use: the bytes read out of a word.
abbrev pub unpack : ℕ → ℕ × ℕ × ℕ
unpack word = (shr32 word 16 % 256, shr32 word 8 % 256, word % 256)

-- `ZZTA_CHECK_VERSION`, with its casts to a byte.
abbrev pub check_version : ℕ → ℕ → ℕ → Bool
check_version exp_major exp_minor exp_patch =
    sw_major_version == exp_major % 256
    && sw_minor_version == exp_minor % 256
    && sw_patch_version == exp_patch % 256

-- A packed word is a sum.
pack_lem :
    (major minor patch : ℕ)
    → major < 256
    → minor < 256
    → patch < 256
    → pack major minor patch ≡ (major * 2 ^ 8 + minor) * 2 ^ 8 + patch
pack_lem major minor patch ha hb hc =
    let high : shl32 major 16 ≡ major * 2 ^ 8 * 2 ^ 8 = omega arith in
    let mid : shl32 minor 8 ≡ minor * 2 ^ 8 = omega arith in
    let two : bit_or (major * 2 ^ 8 * 2 ^ 8) (minor * 2 ^ 8) ≡ (major * 2 ^ 8 + minor) * 2 ^ 8 =
      ap (λ m. bit_or m (minor * 2 ^ 8)) (shift16 major)
      ∙ bit_or_add 16 major (minor * 2 ^ 8) (omega arith)
      ∙ omega arith in
    rw (high, mid, two) (bit_or_add 8 (major * 2 ^ 8 + minor) patch (omega arith))
  where
    shift16 : (a : ℕ) → a * 2 ^ 8 * 2 ^ 8 ≡ a * 2 ^ 16
    shift16 a = omega arith

-- The order of versions: by major number, then by minor number, then by patch number.
abbrev pub IsOlder : ℕ × ℕ × ℕ → ℕ × ℕ × ℕ → Type 0
IsOlder (a, b, c) (d, e, f) = (a < d) ⊎ (a ≡ d) × (b < e) ⊎ (a ≡ d) × (b ≡ e) × (c < f)

-- Of three bytes each, a word has at most 24 bits and gives the bytes back, and the order of the words is
-- the order of the versions.
pub unpack-pack :
    (a b c d e f : ℕ)
    → a < 256
    → b < 256
    → c < 256
    → d < 256
    → e < 256
    → f < 256
    → (pack a b c ≤ 0xffffff)
      × (unpack (pack a b c) ≡ (a, b, c))
      × ((pack a b c < pack d e f) ↔ IsOlder (a, b, c) (d, e, f))
unpack-pack a b c d e f ha hb hc hd he hf =
    let word = pack_lem a b c ha hb hc in
    let other = pack_lem d e f hd he hf in
    let high : shr32 (pack a b c) 16 % 256 ≡ a = ap (λ w. shr32 w 16 % 256) word ∙ omega arith in
    let mid : shr32 (pack a b c) 8 % 256 ≡ b = ap (λ w. shr32 w 8 % 256) word ∙ omega arith in
    let low : pack a b c % 256 ≡ c = ap (λ w. w % 256) word ∙ omega arith in
    (
      omega (arith, word),
      λ i. (high i, mid i, low i),
      (λ h. ground (arith, word, other, h), λ o. ground (arith, word, other)),
    )
