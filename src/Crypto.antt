-- ===== src/Crypto.antt =====
-- src/80s/crypto.c: encryption, keys and signatures, over OpenSSL.
pub mod Engine
pub mod Cipher
pub mod Library
pub mod Balance
pub mod Keys
pub mod Sign
pub mod Tls
mod Tests
mod LibraryTests
