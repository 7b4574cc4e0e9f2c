-- ===== src/Crypto/Constants.antt =====
-- src/CryptoPlatformInterface.cpp: the constants of SHA-256, of the key derivation and of the mock
-- signature scheme.
use zonal_zero_trust_auth.Base.{ℕ, List, [], ◌∷◌}
use zonal_zero_trust_auth.Platform.{Bytes, EccPublicKey}

abbrev pub sha256_k : List ℕ
sha256_k =
    0x428a2f98 ∷ 0x71374491 ∷ 0xb5c0fbcf ∷ 0xe9b5dba5 ∷ 0x3956c25b ∷ 0x59f111f1 ∷ 0x923f82a4
    ∷ 0xab1c5ed5 ∷ 0xd807aa98 ∷ 0x12835b01 ∷ 0x243185be ∷ 0x550c7dc3 ∷ 0x72be5d74 ∷ 0x80deb1fe
    ∷ 0x9bdc06a7 ∷ 0xc19bf174 ∷ 0xe49b69c1 ∷ 0xefbe4786 ∷ 0x0fc19dc6 ∷ 0x240ca1cc ∷ 0x2de92c6f
    ∷ 0x4a7484aa ∷ 0x5cb0a9dc ∷ 0x76f988da ∷ 0x983e5152 ∷ 0xa831c66d ∷ 0xb00327c8 ∷ 0xbf597fc7
    ∷ 0xc6e00bf3 ∷ 0xd5a79147 ∷ 0x06ca6351 ∷ 0x14292967 ∷ 0x27b70a85 ∷ 0x2e1b2138 ∷ 0x4d2c6dfc
    ∷ 0x53380d13 ∷ 0x650a7354 ∷ 0x766a0abb ∷ 0x81c2c92e ∷ 0x92722c85 ∷ 0xa2bfe8a1 ∷ 0xa81a664b
    ∷ 0xc24b8b70 ∷ 0xc76c51a3 ∷ 0xd192e819 ∷ 0xd6990624 ∷ 0xf40e3585 ∷ 0x106aa070 ∷ 0x19a4c116
    ∷ 0x1e376c08 ∷ 0x2748774c ∷ 0x34b0bcb5 ∷ 0x391c0cb3 ∷ 0x4ed8aa4a ∷ 0x5b9cca4f ∷ 0x682e6ff3
    ∷ 0x748f82ee ∷ 0x78a5636f ∷ 0x84c87814 ∷ 0x8cc70208 ∷ 0x90befffa ∷ 0xa4506ceb ∷ 0xbef9a3f7
    ∷ 0xc67178f2 ∷ []

-- The working variables a to h, or the words h[0] to h[7].
pub record Words8 : Type 0 where
  pub a : ℕ
  pub b : ℕ
  pub c : ℕ
  pub d : ℕ
  pub e : ℕ
  pub f : ℕ
  pub g : ℕ
  pub h : ℕ

abbrev pub sha256_init_hash : Words8
sha256_init_hash = record {
  a = 0x6a09e667;
  b = 0xbb67ae85;
  c = 0x3c6ef372;
  d = 0xa54ff53a;
  e = 0x510e527f;
  f = 0x9b05688c;
  g = 0x1f83d9ab;
  h = 0x5be0cd19;
}

-- ASCII "zzta-session-v1"
abbrev pub hkdf_info : Bytes
hkdf_info = 122 ∷ 122 ∷ 116 ∷ 97 ∷ 45 ∷ 115 ∷ 101 ∷ 115 ∷ 115 ∷ 105 ∷ 111 ∷ 110 ∷ 45 ∷ 118 ∷ 49 ∷ []

abbrev pub mock_master_salt : Bytes
mock_master_salt =
    0xa3 ∷ 0x7f ∷ 0x92 ∷ 0xd1 ∷ 0xe4 ∷ 0x05 ∷ 0xb8 ∷ 0xc6 ∷ 0x2a ∷ 0xf3 ∷ 0x19 ∷ 0x88 ∷ 0x4e ∷ 0xd7
    ∷ 0x60 ∷ 0x3b ∷ 0x11 ∷ 0xfc ∷ 0x22 ∷ 0x59 ∷ 0x87 ∷ 0xae ∷ 0xd4 ∷ 0xc0 ∷ 0x53 ∷ 0x7a ∷ 0xe9
    ∷ 0xb2 ∷ 0x6e ∷ 0x14 ∷ 0xf8 ∷ 0x9d ∷ []

abbrev pub mock_ecc_public_key : EccPublicKey
mock_ecc_public_key =
    0x02 ∷ 0x6b ∷ 0x17 ∷ 0xd1 ∷ 0xf2 ∷ 0xe1 ∷ 0x2c ∷ 0x42 ∷ 0x47 ∷ 0xf8 ∷ 0xbc ∷ 0xe6 ∷ 0xe5 ∷ 0x63
    ∷ 0xa4 ∷ 0x40 ∷ 0xf2 ∷ 0x77 ∷ 0x03 ∷ 0x7d ∷ 0x81 ∷ 0x2d ∷ 0xeb ∷ 0x33 ∷ 0xa0 ∷ 0xf4 ∷ 0xa1
    ∷ 0x39 ∷ 0x45 ∷ 0xd8 ∷ 0x98 ∷ 0xc2 ∷ 0x96 ∷ []
