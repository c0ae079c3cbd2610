-- ===== src/Keybox.antt =====
-- hwcrypto/keybox: the mock key box wrapping and the service in front of it.
pub mod Unwrap
pub mod Service
