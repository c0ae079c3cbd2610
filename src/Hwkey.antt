-- ===== src/Hwkey.antt =====
-- hwcrypto/hwkey_srv.c: the key service. `Model` has its data, `Token` the access tokens, `Handles`
-- the list of opaque handles and the key slots, `Derived` the key slots that decrypt their key, and
-- `Service` the commands and the event handlers. `Provider` is hwcrypto/hwkey_srv_fake_provider.c.
pub mod Model
pub mod Token
pub mod Handles
pub mod Derived
pub mod Service
pub mod Provider
