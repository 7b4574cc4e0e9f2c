-- ===== src/Crypto.antt =====
-- src/CryptoPlatformInterface.cpp: the software provider behind the platform interface.
pub mod Words
pub mod Endian
pub mod Constants
pub mod Sha256
pub mod Provider
pub mod Lfsr
pub mod Bounds
pub mod Signature
pub mod Hkdf
pub mod Padding
pub mod Fips
pub mod Digest
pub mod Blocks
pub mod Loop
