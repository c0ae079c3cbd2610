-- ===== src/Hwkey/Provider/Tidy.antt =====
-- The providers of hwkey_srv_fake_provider.c keep to their part of the key buffer.
use trusty_app_sample.Common.{
  Bool-cases, List, arith, inl, inr, leb, length, refl, true, ℕ, ◌*◌, ◌==◌, ◌≡◌, ◌≤◌,
}
use trusty_app_sample.Hwkey.Model.{Uuid, bad_len, max_payload_size, no_error}
use trusty_app_sample.Hwkey.Handles.Tidy.{IsTidy, overlay-IsTidyOut, unchanged-IsTidyOut}
use trusty_app_sample.Hwkey.Provider.{Hkdf, derive_key_v1, get_unittest_key32}
use trusty_app_sample.Hwkey.Provider.Data.{fake_device_key, unittest_key32}

-- HKDF with SHA-256 gives outputs of up to 255 digests, in the length that is asked for.
unfoldable pub FillsOutput : Hkdf → Type 0
FillsOutput hkdf =
    (n : ℕ) (secret salt info : List ℕ)
    → n ≤ 255 * 32
    → ((hkdf n secret salt info).0 ≡ true) × (length (hkdf n secret salt info).1 ≡ n)

module _ {W : Type 0} where
  pub get_unittest_key32-IsTidy : IsTidy (get_unittest_key32 {W = W})
  unfolding get_unittest_key32
  get_unittest_key32-IsTidy kbuf klen w full h =
      let room : leb (length unittest_key32) (length kbuf) ≡ true = ground (arith, full) in
      rw room (overlay-IsTidyOut no_error kbuf unittest_key32 32 refl (omega (arith, full)))

  module _ (hkdf : Hkdf) (uuid_bytes : Uuid → List ℕ) (fills : FillsOutput hkdf) where
    -- `derive_key_v1` returns for every input key material that fits a message, and leaves the key
    -- buffer of the service behind the derived key as it was: it can stand for the key derivation
    -- in the key service. This holds if HKDF succeeds for outputs of up to 255 digests and writes
    -- as many bytes as it is asked for.
    pub derive_key_v1-IsTidy :
        (uuid : Uuid) (ikm_data : List ℕ)
        → length ikm_data ≤ max_payload_size
        → IsTidy (derive_key_v1 {W = W} hkdf uuid_bytes uuid ikm_data)
    unfolding derive_key_v1 FillsOutput
    derive_key_v1-IsTidy uuid ikm_data small kbuf klen w full h =
        let n = length ikm_data in
        let r = hkdf n fake_device_key (uuid_bytes uuid) ikm_data in
        let f = fills n fake_device_key (uuid_bytes uuid) ikm_data (omega (arith, small)) in
        let room : leb (length r.1) (length kbuf) ≡ true = ground (arith, full, f.1, small) in
        elim (Bool-cases (n == 0)) [
          | inl empty ↦ rw empty (unchanged-IsTidyOut bad_len kbuf 0 (omega arith))
          | inr given ↦
              rw (given, f.0, room)
                (overlay-IsTidyOut no_error kbuf r.1 n f.1 (omega (arith, full, small)))
        ]
