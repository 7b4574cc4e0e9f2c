-- ===== src/Tests/Data.antt =====
-- The data of the tests: two clients, their keys, and a platform whose digest is the head of its
-- input and whose signatures are digests.
use zonal_zero_trust_auth.Base.{
  ℕ, ◌+◌, ◌%◌, List, [], ◌∷◌, none, some, replicate, take, if◌then◌else◌, arith,
}
use zonal_zero_trust_auth.Platform.{
  ClientId, IsClientId, CryptoPlatform, CryptoStatus, client_id_len, nonce_len, session_key_len,
  ecc_public_key_len,
}
use zonal_zero_trust_auth.ConstantTime.{same_bytes}
use zonal_zero_trust_auth.Engine.{KnownPeerEntry, SpdmSessionToken}

abbrev pub alice : ClientId
alice = replicate client_id_len 7

abbrev pub bob : ClientId
bob = replicate client_id_len 9

pub alice-IsClientId : IsClientId alice
alice-IsClientId = omega arith

pub bob-IsClientId : IsClientId bob
bob-IsClientId = omega arith

abbrev pub peers : List KnownPeerEntry
peers =
    record { client_id = alice; public_key = replicate ecc_public_key_len 2 }
    ∷ record { client_id = bob; public_key = replicate ecc_public_key_len 3 }
    ∷ []

abbrev pub token_of : ClientId → SpdmSessionToken
token_of x = record {
  client_id = x;
  session_nonce = replicate nonce_len 5;
  session_key = replicate session_key_len 6;
}

unfoldable pub toy : CryptoPlatform
toy = record {
  State = ℕ;
  generate_random_nonce = λ s old. (CryptoStatus.ok, replicate nonce_len (s % 256), s + 1);
  compute_sha256 = λ s input digest. elim input [
    | none ↦ (CryptoStatus.invalid_param, digest, s)
    | some bytes ↦ (CryptoStatus.ok, take 32 bytes, s)
  ];
  verify_ecc_signature = λ s digest signature key. (
    if same_bytes digest (take 32 signature) then CryptoStatus.ok else CryptoStatus.verify_failed,
    s,
  );
  derive_session_key = λ s nonce x key. (CryptoStatus.ok, nonce, s);
}
