-- ===== src/Hwkey/Provider/Slots.antt =====
-- The handlers of hwkey_srv_fake_provider.c that call ciphers or included files: each keeps to its
-- part of the key buffer, as the key service asks of a provider.
use trusty_app_sample.Common.{
  Bool, Bool-cases, List, Returns, [], arith, false, inl, inr, leb, length, length-take, ltb, refl,
  take, true, ℕ, ◌%◌, ◌+◌, ◌==◌, ◌≡◌, ◌≤◌,
}
use trusty_app_sample.Hwkey.Model.{Uuid, generic, max_payload_size, no_error, not_found}
use trusty_app_sample.Hwkey.Handles.Tidy.{IsTidy, IsTidyOut, overlay-IsTidyOut, unchanged-IsTidyOut}
use trusty_app_sample.Hwkey.Derived.{Evp}
use trusty_app_sample.Hwkey.Derived.Tidy.{DecryptsBlocks, hwkey_get_derived_key-IsTidy}
use trusty_app_sample.Hwkey.Provider.{
  ApploaderKey, Encryption, Hkdf, derived_keyslot_handler, get_apploader_key,
  get_apploader_key_opaque, get_apploader_sign_key, get_apploader_sign_unlocked_key, get_km_kak_key,
  get_rpmb_ss_auth_key, get_unittest_key32, rpmb_encrypt, rpmb_failed, unittest_derived_data,
}
use trusty_app_sample.Hwkey.Provider.Data.{fake_device_key, kak_salt, rpmb_salt}
use trusty_app_sample.Hwkey.Provider.Tidy.{FillsOutput, derive_key_v1-IsTidy}
use trusty_app_sample.Hwkey.Service.{store}

-- What OpenSSL documents of AES in CBC mode without padding: for whole blocks as many bytes from
-- the update, if it succeeds, and an end that succeeds then. And an update of whole blocks that
-- fails does so before it writes.
pub record EncryptsBlocks {W : Type 0} (enc : Encryption W) : Type 0 where
  pub whole :
      (text : List ℕ) (w : W)
      → length text % 16 ≡ 0
      → (enc.encrypt_update text w).0 ≡ true
      → length (enc.encrypt_update text w).1 ≡ length text
  pub failed :
      (text : List ℕ) (w : W)
      → length text % 16 ≡ 0
      → (enc.encrypt_update text w).0 ≡ false
      → (enc.encrypt_update text w).1 ≡ []
  pub finishes :
      (text : List ℕ) (w : W)
      → length text % 16 ≡ 0
      → (enc.encrypt_update text w).0 ≡ true
      → (enc.encrypt_final (enc.encrypt_update text w).2).0 ≡ true

-- The build includes a file with its size, and the key buffer has room for the key.
pub record IsIncluded (k : ApploaderKey) : Type 0 where
  pub size : k.key_size ≡ length k.key_data
  pub fits : k.key_size ≤ max_payload_size

module _ {W : Type 0} where
  module _ (enc : Encryption W) (encrypts : EncryptsBlocks enc) where
    failed_tidy :
        (kbuf : List ℕ) (klen : ℕ) (w : W)
        → klen ≤ length kbuf
        → Returns (λ r. IsTidyOut kbuf r.0) (rpmb_failed enc kbuf klen w)
    failed_tidy kbuf klen w h = unchanged-IsTidyOut generic kbuf klen h

    rpmb_encrypt-IsTidy : IsTidy (rpmb_encrypt enc)
    unfolding rpmb_encrypt store
    rpmb_encrypt-IsTidy kbuf klen w full h =
        let u = enc.encrypt_update rpmb_salt w in
        elim (Bool-cases (ltb (length kbuf) (32 + enc.key_length))) [
          | inl short ↦ rw short (failed_tidy kbuf klen w h)
          | inr enough ↦ elim (Bool-cases u.0) [
            | inr failed ↦
                let room : leb 0 (length kbuf) ≡ true = ground arith in
                rw (enough, failed, encrypts.failed rpmb_salt w refl failed, room)
                  (failed_tidy kbuf klen u.2 h)
            | inl updated ↦
                let n : length u.1 ≡ 32 = encrypts.whole rpmb_salt w refl updated in
                let fits : leb (length u.1) (length kbuf) ≡ true = ground (arith, n, full) in
                let hit : (length u.1 == 32) ≡ true = ground (arith, n) in
                rw (enough, updated, fits, hit, encrypts.finishes rpmb_salt w refl updated)
                  (overlay-IsTidyOut no_error kbuf u.1 32 n (omega (arith, full)))
          ]
        ]

    pub get_rpmb_ss_auth_key-IsTidy : IsTidy (get_rpmb_ss_auth_key enc)
    unfolding get_rpmb_ss_auth_key
    get_rpmb_ss_auth_key-IsTidy kbuf klen w full h =
        let i = enc.encrypt_init fake_device_key w in
        let p = enc.no_padding i.1 in
        elim (Bool-cases i.0) [
          | inr failed ↦ rw failed (failed_tidy kbuf klen i.1 h)
          | inl started ↦ elim (Bool-cases p.0) [
            | inr failed ↦ rw (started, failed) (failed_tidy kbuf klen p.1 h)
            | inl padding ↦ rw (started, padding) (rpmb_encrypt-IsTidy kbuf klen p.1 full h)
          ]
        ]

  pub get_km_kak_key-IsTidy :
      (hkdf : Hkdf) (uuid_bytes : Uuid → List ℕ) (uuid : Uuid)
      → FillsOutput hkdf
      → IsTidy (get_km_kak_key {W = W} hkdf uuid_bytes uuid)
  unfolding get_km_kak_key
  get_km_kak_key-IsTidy hkdf uuid_bytes uuid fills kbuf klen w full h =
      let enough : ltb (length kbuf) (length kak_salt) ≡ false = ground (arith, full) in
      rw enough
        (derive_key_v1-IsTidy hkdf uuid_bytes fills uuid kak_salt (omega arith) kbuf klen w full h)

  pub derived_keyslot_handler-IsTidy :
      (evp : Evp W) (key_len : ℕ)
      → DecryptsBlocks evp
      → IsTidy (derived_keyslot_handler evp key_len)
  unfolding derived_keyslot_handler unittest_derived_data get_unittest_key32
  derived_keyslot_handler-IsTidy evp key_len decrypts =
      hwkey_get_derived_key-IsTidy evp unittest_derived_data key_len decrypts refl refl (λ w. tt)

  module _ (k : ApploaderKey) (included : IsIncluded k) where
    get_apploader_key-IsTidy : IsTidy {W = W} (get_apploader_key k)
    unfolding get_apploader_key
    get_apploader_key-IsTidy kbuf klen w full h =
        let taken : length (take k.key_size k.key_data) ≡ k.key_size =
          ground (arith, length-take k.key_size k.key_data, included.size) in
        let room : leb k.key_size (length kbuf) ≡ true = ground (arith, full, included.fits) in
        let there : leb k.key_size (length k.key_data) ≡ true = ground (arith, included.size) in
        let stored : leb (length (take k.key_size k.key_data)) (length kbuf) ≡ true =
          ground (arith, taken, full, included.fits) in
        rw (room, there, stored)
          (overlay-IsTidyOut no_error kbuf (take k.key_size k.key_data) k.key_size taken
            (omega (arith, full, included.fits)))

    pub get_apploader_sign_key-IsTidy : IsTidy {W = W} (get_apploader_sign_key k)
    unfolding get_apploader_sign_key
    get_apploader_sign_key-IsTidy = get_apploader_key-IsTidy

    pub get_apploader_key_opaque-IsTidy : IsTidy {W = W} (get_apploader_key_opaque k)
    unfolding get_apploader_key_opaque
    get_apploader_key_opaque-IsTidy = get_apploader_key-IsTidy

    pub get_apploader_sign_unlocked_key-IsTidy :
        (loading_unlocked : W → Bool × W)
        → IsTidy (get_apploader_sign_unlocked_key loading_unlocked k)
    unfolding get_apploader_sign_unlocked_key
    get_apploader_sign_unlocked_key-IsTidy loading_unlocked kbuf klen w full h =
        elim (Bool-cases (loading_unlocked w).0) [
          | inl unlocked ↦
              rw unlocked (get_apploader_key-IsTidy kbuf klen (loading_unlocked w).1 full h)
          | inr locked ↦ rw locked (unchanged-IsTidyOut not_found kbuf klen h)
        ]
