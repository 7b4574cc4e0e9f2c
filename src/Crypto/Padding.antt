-- ===== src/Crypto/Padding.antt =====
-- The padded message of FIPS 180-4, and the loop that makes its bytes one at a time.
use zonal_zero_trust_auth.Base.{
  ℕ, zero, suc, ◌+◌, ◌-◌, ◌*◌, ◌/◌, ◌%◌, ◌^◌, ◌≤◌, ◌<◌, ◌≡◌, refl, sym, ap, ◌∙◌, ◌∷◌, ◌++◌, length,
  get_or, take, drop, length-append, All, All-append, length-replicate, get_or-replicate,
  length-drop, get_or-drop, take-suc, get_or-append_left, get_or-append_right, ltb, leb, ◌==◌,
  arith, Bool-cases, inl, inr,
}
use zonal_zero_trust_auth.Platform.{Bytes, zeros}
use zonal_zero_trust_auth.Crypto.Sha256.{bit_len, padded_len, padded_byte, fill_block}
use zonal_zero_trust_auth.Crypto.Bounds.{padded_len_lem}
use zonal_zero_trust_auth.Crypto.Fips.{be64, pad}

be64_byte : (v j : ℕ) → j < 8 → get_or (be64 v) j 0 ≡ v / 2 ^ ((7 - j) * 8) % 256
be64_byte v zero h = refl
be64_byte v (suc zero) h = refl
be64_byte v (suc (suc zero)) h = refl
be64_byte v (suc (suc (suc zero))) h = refl
be64_byte v (suc (suc (suc (suc zero)))) h = refl
be64_byte v (suc (suc (suc (suc (suc zero))))) h = refl
be64_byte v (suc (suc (suc (suc (suc (suc zero)))))) h = refl
be64_byte v (suc (suc (suc (suc (suc (suc (suc zero))))))) h = omega arith
be64_byte v (suc (suc (suc (suc (suc (suc (suc (suc j)))))))) h = absurd (omega arith)

-- A message whose length in bits is a 64-bit number, as the standard demands.
abbrev pub IsShort : Bytes → Type 0
IsShort input = 8 * length input < 2 ^ 64

-- The number of zeros after the byte 0x80.
abbrev gap : ℕ → ℕ
gap n = (119 - n % 64) % 64

gap-padded_len : (n : ℕ) → 8 * n < 2 ^ 64 → gap n + n + 9 ≡ padded_len n
gap-padded_len n h = omega arith

bit_len_lem : (n : ℕ) → 8 * n < 2 ^ 64 → bit_len n ≡ 8 * n
bit_len_lem n h = omega arith

-- The padded message consists of bytes.
pub pad-bytes : (input : Bytes) → All (λ b. b < 256) input → All (λ b. b < 256) (pad input)
unfolding pad
pad-bytes input h =
    let n = length input in
    let byte = λ (b : ℕ). b < 256 in
    All-append byte input (0x80 ∷ (zeros (gap n) ++ be64 (8 * n))) h
      (omega arith, All-append byte (zeros (gap n)) (be64 (8 * n)) (zero_bytes (gap n)) last)
  where
    zero_bytes : (k : ℕ) → All (λ b. b < 256) (zeros k)
    zero_bytes zero = tt
    zero_bytes (suc k) = (omega arith, zero_bytes k)

    last : All (λ b. b < 256) (be64 (8 * length input))
    last = omega arith

module _ (input : Bytes) (h : IsShort input) where
  pub length-pad : length (pad input) ≡ padded_len (length input)
  unfolding pad
  length-pad =
      let n = length input in
      let (whole, room, least) = padded_len_lem n (omega arith) in
      omega (
        arith,
        length-append input (0x80 ∷ (zeros (gap n) ++ be64 (8 * n))),
        length-append (zeros (gap n)) (be64 (8 * n)),
        length-replicate {A = ℕ} (gap n) 0,
      )

  -- The loop's byte at an index is the padded message's.
  padded_byte-pad :
      (i : ℕ) → i < padded_len (length input) → padded_byte input i ≡ get_or (pad input) i 0
  unfolding padded_byte pad
  padded_byte-pad i hi =
      let n = length input in
      let (whole, room, least) = padded_len_lem n (omega arith) in
      let k = gap n in
      let last = zeros k ++ be64 (8 * n) in
      elim (Bool-cases (ltb i n)) [
        | inl t ↦ rw t (sym (get_or-append_left input (0x80 ∷ last) i 0 (ground arith)))
        | inr f ↦ elim (Bool-cases (i == n)) [
          | inl t ↦ rw (f, t) (sym (get_or-append_right input (0x80 ∷ last) i 0 0 (ground arith)))
          | inr g ↦ elim (Bool-cases (leb (padded_len n - 8) i)) [
            | inl t ↦
                rw (f, g, t)
                  (ap (λ b. b / 2 ^ ((7 - (i - (padded_len n - 8))) * 8) % 256) (bit_len_lem n h)
                    ∙ sym (
                        get_or-append_right input (0x80 ∷ last) i (suc (i - n - 1)) 0 (ground arith)
                        ∙ get_or-append_right (zeros k) (be64 (8 * n)) (i - n - 1)
                            (i - (padded_len n - 8)) 0
                            (ground (arith, length-replicate {A = ℕ} k 0))
                        ∙ be64_byte (8 * n) (i - (padded_len n - 8)) (ground arith)))
            | inr e ↦
                rw (f, g, e)
                  (sym (
                    get_or-append_right input (0x80 ∷ last) i (suc (i - n - 1)) 0 (ground arith)
                    ∙ get_or-append_left (zeros k) (be64 (8 * n)) (i - n - 1) 0
                        (ground (arith, length-replicate {A = ℕ} k 0))
                    ∙ get_or-replicate k (i - n - 1) 0))
          ]
        ]
      ]

  -- The loop's block is a stretch of the padded message.
  pub fill_block-pad :
      (start j : ℕ)
      → start + j ≤ padded_len (length input)
      → fill_block input start j ≡ take j (drop start (pad input))
  unfolding fill_block
  fill_block-pad start zero hj = refl
  fill_block-pad start (suc j) hj =
      let inside : j < length (drop start (pad input)) =
        omega (arith, length-drop start (pad input), length-pad) in
      let next : padded_byte input (start + j) ≡ get_or (drop start (pad input)) j 0 =
        padded_byte-pad (start + j) (omega arith) ∙ sym (get_or-drop start (pad input) j 0) in
      let rest = fill_block-pad start j (omega arith) in
      rw (rest, next) (sym (take-suc j (drop start (pad input)) 0 inside))
