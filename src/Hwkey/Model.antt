-- ===== src/Hwkey/Model.antt =====
-- The data of hwcrypto/hwkey_srv.c and hwcrypto/hwkey_srv_priv.h. `W` is the state of what the
-- service calls: the random number device, the allocator, and the providers of keys.
use trusty_app_sample.Common.{Bool, List, Run, ℕ, ℤ}

-- A `uuid_t` is only compared.
abbrev pub Uuid : Type 0
Uuid = ℕ

-- The results of the key service; `device rc` is an error of the random number device, which
-- `get_key_handle` passes on as it is.
pub data Status : Type 0 where
  no_error generic not_found bad_len not_implemented already_exists : Status
  device : ℤ → Status

-- What a handler leaves: its result, the key buffer, and `*klen`.
pub record KeyOut : Type 0 where
  pub status : Status
  pub kbuf : List ℕ
  pub klen : ℕ

-- A provider of a key, called with the key buffer and `*klen`.
abbrev pub Retriever : Type 0 → Type 0
Retriever W = List ℕ → ℕ → W → Run (KeyOut × W)

-- `struct hwkey_opaque_handle_data`, its `priv` being part of the retriever.
pub record OpaqueData (W : Type 0) : Type 0 where
  pub allowed_uuids : List Uuid
  pub retriever : Retriever W

-- `handler` of a key slot, with what it reads through `priv`: no handler, `get_key_handle`, or a
-- handler of the provider.
pub data Handler (W : Type 0) : Type 0 where
  no_handler : Handler W
  key_handle : OpaqueData W → Handler W
  provider : Retriever W → Handler W

-- `struct hwkey_keyslot`. The bytes of `key_id` stand without the terminating zero.
pub record Keyslot (W : Type 0) : Type 0 where
  pub key_id : List ℕ
  pub uuid : Uuid
  pub handler : Handler W

-- `struct hwkey_chan_ctx`, at the address `addr`.
pub record Context : Type 0 where
  pub addr : ℕ
  pub chan : ℕ
  pub uuid : Uuid

-- `struct opaque_handle_node`. A key slot is known by its index in the table; `handle` is what its
-- `priv` points to. `owner` is the address of a context.
pub record Node (W : Type 0) : Type 0 where
  pub key_slot : ℕ
  pub handle : OpaqueData W
  pub owner : ℕ
  pub token : List ℕ

-- `HWKEY_OPAQUE_HANDLE_SIZE`, `HWKEY_MAX_PAYLOAD_SIZE`, `HWKEY_DERIVED_KEY_MAX_SIZE`
abbrev pub handle_size : ℕ
handle_size = 32

abbrev pub max_payload_size : ℕ
max_payload_size = 2048

abbrev pub derived_key_max_size : ℕ
derived_key_max_size = 32

-- `hwrng_dev_get_rng_data` for a number of bytes, and `calloc` of a node.
pub record Device (W : Type 0) : Type 0 where
  pub get_rng_data : ℕ → W → ℤ × List ℕ × W
  pub calloc : W → Bool × W
