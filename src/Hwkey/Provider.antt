-- ===== src/Hwkey/Provider.antt =====
-- The handlers of hwcrypto/hwkey_srv_fake_provider.c. HKDF, the OpenSSL cipher context, the memory of
-- a uuid, the files of the app loader's keys and the state of the system are parameters.
pub mod Data
pub mod Keys
pub mod Tidy
pub mod Slots
pub mod Tests
use trusty_app_sample.Common.{
  Bool, List, Run, assert, fault, if◌then◌else◌, leb, length, ltb, not, ok, out_of_bounds, overlay,
  take, ℕ, ◌&&◌, ◌+◌, ◌==◌, ◌>>=◌, ◌>>◌,
}
use trusty_app_sample.Hwkey.Model.{KeyOut, Retriever, Uuid, bad_len, generic, no_error, not_found}
use trusty_app_sample.Hwkey.Derived.{DerivedData, Evp, hwkey_get_derived_key}
use trusty_app_sample.Hwkey.Handles.{eq_bytes}
use trusty_app_sample.Hwkey.Service.{clear, store}
use trusty_app_sample.Hwkey.Provider.Data.{
  exp_okm, fake_device_key, ikm, info, kak_salt, rpmb_salt, salt, unittest_encrypted_key32,
  unittest_key32,
}

-- `HKDF` with SHA-256, for the length of the output, the secret, the salt and the information: its
-- success, and the output.
abbrev pub Hkdf : Type 0
Hkdf = (out_len : ℕ) → (secret salt info : List ℕ) → Bool × List ℕ

-- The calls on the cipher context of the RPMB key, each with its success. `encrypt_update` gives the
-- bytes that it writes, also if it fails.
pub record Encryption (W : Type 0) : Type 0 where
  pub encrypt_init : (key : List ℕ) → W → Bool × W
  pub no_padding : W → Bool × W
  pub key_length : ℕ
  pub encrypt_update : List ℕ → W → Bool × List ℕ × W
  pub encrypt_final : W → Bool × W
  pub cleanup : W → W

-- `struct apploader_key`: the bytes of a file that the build includes, and what the symbol of their
-- size holds.
pub record ApploaderKey : Type 0 where
  pub key_data : List ℕ
  pub key_size : ℕ

-- The first bytes of an object can be read.
abbrev pub assert_readable : ℕ → List ℕ → Run (Unit {0})
assert_readable n bytes = if leb n (length bytes) then ok tt else fault out_of_bounds

pub hkdf_self_test : Hkdf → Bool
hkdf_self_test hkdf =
    let (res, okm) = hkdf (length exp_okm) ikm salt info in res && eq_bytes okm exp_okm

module _ {W : Type 0} where
  -- The parameters `kbuf_len` and `klen` are the length of the buffer and `*klen`.
  pub get_unittest_key32 : Retriever W
  get_unittest_key32 kbuf klen w =
      assert (leb (length unittest_key32) (length kbuf))
      >> ok (
        record {
          status = no_error;
          kbuf = overlay unittest_key32 kbuf;
          klen = length unittest_key32;
        },
        w,
      )

  module _ (hkdf : Hkdf) (uuid_bytes : Uuid → List ℕ) where
    -- `HKDF` writes `ikm_len` bytes to the key buffer, and on failure `memset` clears as many.
    pub derive_key_v1 : Uuid → (ikm_data : List ℕ) → Retriever W
    unfolding store clear
    derive_key_v1 uuid ikm_data kbuf klen w =
        let (good, out) = hkdf (length ikm_data) fake_device_key (uuid_bytes uuid) ikm_data in
        if length ikm_data == 0
        then ok (record { status = bad_len; kbuf = kbuf; klen = 0 }, w)
        else if not good
        then clear (length ikm_data) kbuf
          >>= (λ buf. ok (record { status = generic; kbuf = buf; klen = 0 }, w))
        else store out kbuf
          >>= (λ buf. ok (record { status = no_error; kbuf = buf; klen = length ikm_data }, w))

    -- `uuid` is the uuid of the key slot.
    pub get_km_kak_key : Uuid → Retriever W
    unfolding derive_key_v1
    get_km_kak_key uuid kbuf klen w =
        if ltb (length kbuf) (length kak_salt)
        then ok (record { status = bad_len; kbuf = kbuf; klen = klen }, w)
        else derive_key_v1 uuid kak_salt kbuf klen w

  module _ (enc : Encryption W) where
    abbrev pub rpmb_failed : List ℕ → ℕ → W → Run (KeyOut × W)
    rpmb_failed kbuf klen w =
        ok (record { status = generic; kbuf = kbuf; klen = klen }, enc.cleanup w)

    -- From the check of the size of the buffer on.
    rpmb_encrypt : Retriever W
    unfolding store
    rpmb_encrypt kbuf klen w =
        let (updated, text, w₁) = enc.encrypt_update rpmb_salt w in
        let (finished, w₂) = enc.encrypt_final w₁ in
        if ltb (length kbuf) (32 + enc.key_length)
        then rpmb_failed kbuf klen w
        else if not updated
        then store text kbuf >>= (λ buf. rpmb_failed buf klen w₁)
        else store text kbuf >>= (λ buf.
          if not (length text == 32)
          then rpmb_failed buf klen w₁
          else if not finished
          then rpmb_failed buf klen w₂
          else ok (record { status = no_error; kbuf = buf; klen = 32 }, enc.cleanup w₂))

    pub get_rpmb_ss_auth_key : Retriever W
    unfolding rpmb_encrypt
    get_rpmb_ss_auth_key kbuf klen w =
        let (started, w₁) = enc.encrypt_init fake_device_key w in
        let (padding, w₂) = enc.no_padding w₁ in
        if not started
        then rpmb_failed kbuf klen w₁
        else if not padding
        then rpmb_failed kbuf klen w₂
        else rpmb_encrypt kbuf klen w₂

  pub unittest_derived_data : DerivedData W
  unfolding get_unittest_key32
  unittest_derived_data = record {
    encrypted_key_data = unittest_encrypted_key32;
    encrypted_key_size = 48;
    retriever = get_unittest_key32;
  }

  -- `derived_keyslot_handler`, and `get_derived_key_opaque`: the derived key of the unit tests.
  -- `key_len` is what the uninitialized `key_len` of `hwkey_get_derived_key` holds.
  pub derived_keyslot_handler : Evp W → (key_len : ℕ) → Retriever W
  unfolding unittest_derived_data
  derived_keyslot_handler evp key_len kbuf klen w =
      hwkey_get_derived_key evp unittest_derived_data kbuf klen key_len w

  -- `memcpy` reads `*key_size_ptr` bytes of the data.
  pub get_apploader_key : ApploaderKey → Retriever W
  unfolding store
  get_apploader_key key kbuf klen w =
      assert (leb key.key_size (length kbuf))
      >> assert_readable key.key_size key.key_data
      >> store (take key.key_size key.key_data) kbuf
      >>= λ buf. ok (record { status = no_error; kbuf = buf; klen = key.key_size }, w)

  -- The handlers take the key that `priv` of their slot, or of the data of a handle, points to.
  pub get_apploader_sign_key : ApploaderKey → Retriever W
  unfolding get_apploader_key
  get_apploader_sign_key priv kbuf klen w = get_apploader_key priv kbuf klen w

  pub get_apploader_key_opaque : ApploaderKey → Retriever W
  unfolding get_apploader_key
  get_apploader_key_opaque priv kbuf klen w = get_apploader_key priv kbuf klen w

  -- `loading_unlocked` is `system_state_app_loading_unlocked`.
  pub get_apploader_sign_unlocked_key :
      (loading_unlocked : W → Bool × W) → ApploaderKey → Retriever W
  unfolding get_apploader_key
  get_apploader_sign_unlocked_key loading_unlocked priv kbuf klen w =
      let (unlocked, w₁) = loading_unlocked w in
      if unlocked
      then get_apploader_key priv kbuf klen w₁
      else ok (record { status = not_found; kbuf = kbuf; klen = klen }, w₁)
