-- ===== src/Hwrng.antt =====
-- The random number service: hwcrypto/hwrng_srv.c, and the fake device of
-- hwcrypto/hwrng_srv_fake_provider.c.
pub mod Service
pub mod Fake
