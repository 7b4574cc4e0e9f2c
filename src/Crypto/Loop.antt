-- ===== src/Crypto/Loop.antt =====
-- `SoftwareCryptoProvider::Sha256Impl`, the loop over the blocks as the code runs it: it ends by its
-- condition on `block_start`, a `std::size_t` of 64 bits.
use zonal_zero_trust_auth.Base.{
  ℕ, zero, suc, ◌+◌, ◌*◌, ◌/◌, ◌%◌, ◌^◌, ◌≤◌, ◌<◌, ◌≡◌, ap, Option, none, some, length, ltb,
  if◌then◌else◌, arith, Bool-cases, inl, inr,
}
use zonal_zero_trust_auth.Platform.{Bytes}
use zonal_zero_trust_auth.Crypto.Constants.{Words8, sha256_init_hash}
use zonal_zero_trust_auth.Crypto.Sha256.{padded_len, fill_block, process_block, process_blocks}

-- `none` means that the fuel ran out.
unfoldable pub block_loop : ℕ → Bytes → ℕ → Words8 → Option Words8
block_loop zero input block_start v = none
block_loop (suc fuel) input block_start v =
    let rest =
      block_loop fuel input ((block_start + 64) % 2 ^ 64)
        (process_block (fill_block input block_start 64) v) in
    if ltb block_start (padded_len (length input)) then rest else some v

module _ (input : Bytes) where
  abbrev rounds : ℕ
  rounds = padded_len (length input) / 64

  block_loop-process_blocks :
      (fuel k : ℕ)
      → k ≤ rounds
      → rounds < k + fuel
      → block_loop fuel input (k * 64) (process_blocks input k) ≡ some (process_blocks input rounds)
  unfolding block_loop process_blocks
  block_loop-process_blocks zero k hk enough = absurd (omega arith)
  block_loop-process_blocks (suc fuel) k hk enough =
      elim (Bool-cases (ltb (k * 64) (padded_len (length input)))) [
        | inr done ↦
            let last : k ≡ rounds = ground arith in
            rw done (ap (λ j. some (process_blocks input j)) last)
        | inl more ↦
            let next : (k * 64 + 64) % 2 ^ 64 ≡ suc k * 64 = ground arith in
            rw (more, next) (block_loop-process_blocks fuel (suc k) (ground arith) (omega arith))
      ]

  -- The loop over the blocks ends for every message, even one whose padded length wraps: the index of a
  -- block never wraps, and any fuel above the number of blocks gives the hash state that
  -- `padded_len / 64` rounds give.
  pub block_loop_ends :
      (fuel : ℕ)
      → padded_len (length input) / 64 < fuel
      → block_loop fuel input 0 sha256_init_hash
        ≡ some (process_blocks input (padded_len (length input) / 64))
  unfolding process_blocks
  block_loop_ends fuel enough = block_loop-process_blocks fuel 0 (omega arith) (omega arith)
