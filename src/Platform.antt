-- ===== src/Platform.antt =====
-- include/zzta/CryptoPlatformInterface.hpp: the sizes, the byte arrays, the status codes and the
-- interface of a cryptographic platform.
-- A `std::array<uint8_t, N>` is a list of numbers; `IsArray N` says that it has N elements, each a
-- byte. A method of the interface takes the platform's own state and the old contents of its out
-- parameter, and returns its status, the new contents and the new state.
use zonal_zero_trust_auth.Base.{ℕ, ◌<◌, ◌≡◌, List, Option, All, length, replicate}

abbrev pub sha256_digest_len : ℕ
sha256_digest_len = 32

abbrev pub nonce_len : ℕ
nonce_len = 32

abbrev pub ecc_signature_len : ℕ
ecc_signature_len = 64

abbrev pub session_key_len : ℕ
session_key_len = 32

abbrev pub client_id_len : ℕ
client_id_len = 8

abbrev pub ecc_public_key_len : ℕ
ecc_public_key_len = 33

abbrev pub Bytes : Type 0
Bytes = List ℕ

abbrev pub Nonce : Type 0
Nonce = Bytes

abbrev pub Sha256Digest : Type 0
Sha256Digest = Bytes

abbrev pub CryptoSignature : Type 0
CryptoSignature = Bytes

abbrev pub SessionKey : Type 0
SessionKey = Bytes

abbrev pub EccPublicKey : Type 0
EccPublicKey = Bytes

abbrev pub ClientId : Type 0
ClientId = Bytes

abbrev pub IsArray : ℕ → Bytes → Type 0
IsArray n xs = (length xs ≡ n) × All (λ b. b < 256) xs

abbrev pub IsClientId : ClientId → Type 0
IsClientId = IsArray client_id_len

-- `array.fill(0x00U)`.
abbrev pub zeros : ℕ → Bytes
zeros n = replicate n 0

pub data CryptoStatus : Type 0 where
  ok invalid_param hw_fault verify_failed not_supported internal_error : CryptoStatus

pub record CryptoPlatform : Type 1 where
  pub State : Type 0
  pub generate_random_nonce : State → Nonce → CryptoStatus × Nonce × State
  -- The data pointer is `none` for `nullptr`.
  pub compute_sha256 : State → Option Bytes → Sha256Digest → CryptoStatus × Sha256Digest × State
  pub verify_ecc_signature :
      State → Sha256Digest → CryptoSignature → EccPublicKey → CryptoStatus × State
  pub derive_session_key : State → Nonce → ClientId → SessionKey → CryptoStatus × SessionKey × State
