-- ===== src/Hwkey/Provider/Keys.antt =====
-- The tables of hwcrypto/hwkey_srv_fake_provider.c, for every way to build them, and its start.
pub mod Sound
pub mod Owners
use trusty_app_sample.Common.{
  Bool, List, Option, Run, [], aborted, false, fault, if◌then◌else◌, is_some, none, some, ℕ, ◌++◌,
  ◌==◌, ◌||◌, ◌∷◌,
}
use trusty_app_sample.Hwkey.Model.{Handler, Keyslot, Retriever, Uuid, key_handle, provider}
use trusty_app_sample.Hwkey.Derived.{Evp}
use trusty_app_sample.Hwkey.Service.{Server, hwkey_install_keys}
use trusty_app_sample.Hwkey.Provider.{
  ApploaderKey, Encryption, Hkdf, derived_keyslot_handler, get_apploader_key_opaque,
  get_apploader_sign_key, get_apploader_sign_unlocked_key, get_km_kak_key, get_rpmb_ss_auth_key,
  get_unittest_key32, hkdf_self_test,
}
use trusty_app_sample.Hwkey.Provider.Data.{
  derived_key32_id, encrypt_key_0_id, encrypt_key_1_id, hwaes_opaque_handle_id, key32_id, km_kak_id,
  opaque_derived_id, opaque_handle2_id, opaque_handle_id, opaque_handle_noaccess_id,
  rpmb_ss_auth_key_id, sign_key_0_id, sign_key_1_id,
}

-- The uuids of the applications.
pub record Apps : Type 0 where
  pub ss : Uuid
  pub km : Uuid
  pub hwaes : Uuid
  pub gatekeeper : Uuid
  pub apploader : Uuid
  pub hwcrypto_unittest : Uuid
  pub hwaes_unittest : Uuid
  pub hwbcc : Uuid
  pub hwbcc_unittest : Uuid

-- A signing key of the app loader, with `APPLOADER_SIGN_KEY_0_UNLOCKED_ONLY` or the same of key 1.
pub record SignKey : Type 0 where
  pub key : ApploaderKey
  pub unlocked_only : Bool

-- The macros of the build: `WITH_HWCRYPTO_UNITTEST`, and which files of keys there are.
pub record Build : Type 0 where
  pub unittest : Bool
  pub sign_key_0 : Option SignKey
  pub sign_key_1 : Option SignKey
  pub encrypt_key_0 : Option ApploaderKey
  pub encrypt_key_1 : Option ApploaderKey

-- `APPLOADER_HAS_SIGNING_KEYS` or `APPLOADER_HAS_ENCRYPTION_KEYS`
abbrev pub has_apploader_keys : Build → Bool
has_apploader_keys build =
    is_some build.sign_key_0
    || is_some build.sign_key_1
    || is_some build.encrypt_key_0
    || is_some build.encrypt_key_1

module _ {W : Type 0} where
  abbrev opaque : List Uuid → Retriever W → Handler W
  opaque uuids f = key_handle (record { allowed_uuids = uuids; retriever = f })

  -- `APPLOADER_SIGN_KEY_0_HANDLER`, and the same of key 1.
  abbrev pub sign_key_handler : (loading_unlocked : W → Bool × W) → SignKey → Retriever W
  sign_key_handler loading_unlocked k =
      if k.unlocked_only
      then get_apploader_sign_unlocked_key loading_unlocked k.key
      else get_apploader_sign_key k.key

  pub sign_key_slots :
      (loading_unlocked : W → Bool × W)
      → Apps
      → (key_id : List ℕ) → Option SignKey
      → List (Keyslot W)
  unfolding get_apploader_sign_unlocked_key get_apploader_sign_key
  sign_key_slots loading_unlocked apps key_id none = []
  sign_key_slots loading_unlocked apps key_id (some k) =
      record {
        key_id = key_id;
        uuid = apps.apploader;
        handler = provider (sign_key_handler loading_unlocked k);
      }
      ∷ []

  pub encrypt_key_slots : Apps → (key_id : List ℕ) → Option ApploaderKey → List (Keyslot W)
  unfolding get_apploader_key_opaque
  encrypt_key_slots apps key_id none = []
  encrypt_key_slots apps key_id (some k) =
      record {
        key_id = key_id;
        uuid = apps.apploader;
        handler = opaque (apps.hwaes ∷ []) (get_apploader_key_opaque k);
      }
      ∷ []

  pub unittest_slots : Evp W → (key_len : ℕ) → Apps → List (Keyslot W)
  unfolding derived_keyslot_handler
  unittest_slots evp key_len apps =
      record {
        key_id = key32_id;
        uuid = apps.hwcrypto_unittest;
        handler = provider get_unittest_key32;
      }
      ∷ record {
        key_id = derived_key32_id;
        uuid = apps.hwcrypto_unittest;
        handler = provider (derived_keyslot_handler evp key_len);
      }
      ∷ record {
        key_id = opaque_handle_id;
        uuid = apps.hwcrypto_unittest;
        handler = opaque (apps.hwcrypto_unittest ∷ []) get_unittest_key32;
      }
      ∷ record {
        key_id = opaque_handle2_id;
        uuid = apps.hwcrypto_unittest;
        handler = opaque (apps.hwcrypto_unittest ∷ []) get_unittest_key32;
      }
      ∷ record {
        key_id = opaque_handle_noaccess_id;
        uuid = apps.hwcrypto_unittest;
        handler = opaque [] get_unittest_key32;
      }
      ∷ record {
        key_id = opaque_derived_id;
        uuid = apps.hwcrypto_unittest;
        handler = opaque (apps.hwcrypto_unittest ∷ []) (derived_keyslot_handler evp key_len);
      }
      ∷ record {
        key_id = hwaes_opaque_handle_id;
        uuid = apps.hwaes_unittest;
        handler = opaque (apps.hwaes ∷ []) get_unittest_key32;
      }
      ∷ []

-- What the provider is built from and calls. `key_len` is what the uninitialized `key_len` of
-- `hwkey_get_derived_key` holds.
pub record Platform (W : Type 0) : Type 0 where
  pub hkdf : Hkdf
  pub uuid_bytes : Uuid → List ℕ
  pub enc : Encryption W
  pub evp : Evp W
  pub key_len : ℕ
  pub loading_unlocked : W → Bool × W
  pub apps : Apps
  pub build : Build

module _ {W : Type 0} (p : Platform W) where
  -- `_keys`
  pub keys : List (Keyslot W)
  unfolding get_km_kak_key get_rpmb_ss_auth_key sign_key_slots encrypt_key_slots unittest_slots
  keys =
      record {
        key_id = rpmb_ss_auth_key_id;
        uuid = p.apps.ss;
        handler = provider (get_rpmb_ss_auth_key p.enc);
      }
      ∷ record {
        key_id = km_kak_id;
        uuid = p.apps.km;
        handler = provider (get_km_kak_key p.hkdf p.uuid_bytes p.apps.km);
      }
      ∷ (sign_key_slots p.loading_unlocked p.apps sign_key_0_id p.build.sign_key_0
          ++ (sign_key_slots p.loading_unlocked p.apps sign_key_1_id p.build.sign_key_1
              ++ (encrypt_key_slots p.apps encrypt_key_0_id p.build.encrypt_key_0
                  ++ (encrypt_key_slots p.apps encrypt_key_1_id p.build.encrypt_key_1
                      ++ (if p.build.unittest
                          then unittest_slots p.evp p.key_len p.apps
                          else [])))))

  -- `hwkey_init_srv_provider`, up to the start of the service.
  pub hwkey_init_srv_provider : Server W → Run (Server W)
  unfolding hkdf_self_test keys
  hwkey_init_srv_provider s =
      if hkdf_self_test p.hkdf then hwkey_install_keys keys s else fault aborted

pub allowed_clients : Apps → Build → List Uuid
allowed_clients apps build =
    apps.ss
    ∷ apps.km
    ∷ apps.hwaes
    ∷ apps.gatekeeper
    ∷ ((if has_apploader_keys build then apps.apploader ∷ [] else [])
        ++ (apps.hwcrypto_unittest
            ∷ ((if build.unittest then apps.hwaes_unittest ∷ [] else [])
                ++ (apps.hwbcc ∷ apps.hwbcc_unittest ∷ []))))

is_listed : Uuid → List Uuid → Bool
is_listed uuid [] = false
is_listed uuid (u ∷ us) = u == uuid || is_listed uuid us

pub hwkey_client_allowed : Apps → Build → Uuid → Bool
unfolding is_listed allowed_clients
hwkey_client_allowed apps build uuid = is_listed uuid (allowed_clients apps build)
