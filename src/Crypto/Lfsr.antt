-- ===== src/Crypto/Lfsr.antt =====
-- The nonce generator: its register is never 0 and stays a 32-bit word.
use Prim.Native.Nat.{bit_and}
use zonal_zero_trust_auth.Base.{
  ℕ, zero, suc, ◌*◌, ◌/◌, ◌%◌, ◌^◌, ◌<◌, ◌≡◌, ◌≢◌, refl, sym, ◌∙◌, [], arith, Bool-cases, inl, inr,
  ◌==◌, ==_iff,
}
use zonal_zero_trust_auth.Base.Bits.{bit_xor-eq_zero, bit_xor-lt, bit_and_one}
use zonal_zero_trust_auth.Platform.{Nonce, IsArray, nonce_len}
use zonal_zero_trust_auth.Crypto.Words.{word_bytes}
use zonal_zero_trust_auth.Crypto.Bounds.{IsArray-append, word_bytes-IsArray}
use zonal_zero_trust_auth.Crypto.Provider.{lfsr_seed, lfsr_next, lfsr_words, generate_random_nonce}

-- A register that can go on: a 32-bit word other than 0.
abbrev pub IsRegister : ℕ → Type 0
IsRegister s = (s ≢ 0) × (s < 2 ^ 32)

pub lfsr_seed-IsRegister : (seed : ℕ) → seed < 2 ^ 32 → IsRegister (lfsr_seed seed)
unfolding lfsr_seed
lfsr_seed-IsRegister seed h = ground arith

pub lfsr_next-IsRegister : (s : ℕ) → IsRegister s → IsRegister (lfsr_next s)
unfolding lfsr_next
lfsr_next-IsRegister s (nz, small) = elim (Bool-cases (bit_and s 1 == 0)) [
  | inl even ↦
      let e : s % 2 ≡ 0 = sym (bit_and_one s) ∙ (==_iff (bit_and s 1) 0).0 even in
      rw even (λ z. omega arith, omega arith)
  | inr odd ↦ rw odd (
    λ z. (let same = bit_xor-eq_zero (s / 2) 0xb4000000 z in omega (arith, same)),
    bit_xor-lt 32 (s / 2) 0xb4000000 (omega arith) (omega arith),
  )
]

pub lfsr_words-IsArray : (s k : ℕ) → IsArray (4 * k) (lfsr_words s k).0
unfolding lfsr_words
lfsr_words-IsArray s zero = (refl, tt)
lfsr_words-IsArray s (suc k) =
    let next = lfsr_next (lfsr_words s k).1 in
    let joined =
      IsArray-append (4 * k) 4 (lfsr_words s k).0 (word_bytes next) (lfsr_words-IsArray s k)
        (word_bytes-IsArray next) in
    (joined.0 ∙ omega arith, joined.1)

lfsr_words-IsRegister : (s k : ℕ) → IsRegister s → IsRegister (lfsr_words s k).1
unfolding lfsr_words
lfsr_words-IsRegister s zero r = r
lfsr_words-IsRegister s (suc k) r =
    lfsr_next-IsRegister (lfsr_words s k).1 (lfsr_words-IsRegister s k r)

-- The register after so many nonces from a provider with the given seed.
unfoldable pub drawn : ℕ → ℕ → ℕ
drawn seed zero = lfsr_seed seed
drawn seed (suc k) = (generate_random_nonce (drawn seed k) []).2

drawn-IsRegister : (seed k : ℕ) → seed < 2 ^ 32 → IsRegister (drawn seed k)
unfolding drawn generate_random_nonce
drawn-IsRegister seed zero h = lfsr_seed-IsRegister seed h
drawn-IsRegister seed (suc k) h = lfsr_words-IsRegister (drawn seed k) 8 (drawn-IsRegister seed k h)

-- From a provider with any 32-bit seed, and however many nonces were drawn before, a draw fills the
-- whole nonce with bytes and leaves the register a 32-bit word other than 0, so that the sequence never
-- gets stuck at 0.
pub generate_random_nonce_lem :
    (seed k : ℕ) (old : Nonce)
    → seed < 2 ^ 32
    → let out = generate_random_nonce (drawn seed k) old in
      IsArray nonce_len out.1 × (out.2 ≢ 0) × (out.2 < 2 ^ 32)
unfolding generate_random_nonce
generate_random_nonce_lem seed k old h =
    let r = lfsr_words-IsRegister (drawn seed k) 8 (drawn-IsRegister seed k h) in
    (lfsr_words-IsArray (drawn seed k) 8, r.0, r.1)
