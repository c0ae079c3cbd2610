-- ===== src/Hwkey/Provider/Tests.antt =====
-- The fake provider with a derivation that gives zeros.
use trusty_app_sample.Common.{
  All, [], arith, false, if◌then◌else◌, length, length-replicate, none, refl, replicate, some, true,
  ℕ, ◌==◌, ◌∷◌, ◌≡◌,
}
use trusty_app_sample.Hwkey.Service.{Server}
use trusty_app_sample.Hwkey.Service.Tests.{service, service-IsSound}
use trusty_app_sample.Hwkey.Service.Invariant.{IsSound}
use trusty_app_sample.Hwkey.Derived.{Evp}
use trusty_app_sample.Hwkey.Provider.Keys.{Apps, Build, Platform, keys}
use trusty_app_sample.Hwkey.Provider.Keys.Sound.{IsDocumented}
use trusty_app_sample.Hwkey.Provider.Keys.Owners.{Connects, keys-Connects}
use trusty_app_sample.Hwkey.Provider.Data.{exp_okm}
use trusty_app_sample.Hwkey.Handles.Tidy.{IsTidy}
use trusty_app_sample.Hwkey.Handles.{eq_bytes}
use trusty_app_sample.Hwkey.Provider.{Encryption, Hkdf, derive_key_v1, hkdf_self_test}
use trusty_app_sample.Hwkey.Provider.Tidy.{FillsOutput, derive_key_v1-IsTidy}

abbrev zeros : Hkdf
zeros n secret _ _ = (true, replicate n 0)

zeros-FillsOutput : FillsOutput zeros
unfolding FillsOutput
zeros-FillsOutput n secret _ _ h = (refl, length-replicate {A = ℕ} n 0)

derive_key_v1-IsTidy_example : IsTidy (derive_key_v1 {W = ℕ} zeros (λ u. u ∷ []) 3 (1 ∷ 2 ∷ []))
derive_key_v1-IsTidy_example =
    derive_key_v1-IsTidy zeros (λ u. u ∷ []) zeros-FillsOutput 3 (1 ∷ 2 ∷ []) (omega arith)

-- A derivation that knows the answer of the self-test, and gives zeros for other lengths.
abbrev pub tested : Hkdf
tested n secret _ _ = (true, if n == length exp_okm then exp_okm else replicate n 0)

pub tested-FillsOutput : FillsOutput tested
unfolding FillsOutput
tested-FillsOutput n secret _ _ h = (refl, ground (arith, length-replicate {A = ℕ} n 0))

-- Ciphers that copy.
abbrev pub copying : Encryption ℕ
copying = record {
  encrypt_init = λ key w. (true, w);
  no_padding = λ w. (true, w);
  key_length = 32;
  encrypt_update = λ text w. (true, text, w);
  encrypt_final = λ w. (true, w);
  cleanup = λ w. w;
}

abbrev pub copying_evp : Evp ℕ
copying_evp = record {
  ctx_new = λ w. (true, w);
  decrypt_init = λ c key iv w. (true, w);
  iv_length = λ c. 16;
  set_padding = λ w. (true, w);
  decrypt_update = λ text w. (true, text, w);
  decrypt_final = λ w. (true, 0, w);
  ctx_free = λ w. w;
}

abbrev pub apps : Apps
apps = record {
  ss = 1;
  km = 2;
  hwaes = 3;
  gatekeeper = 4;
  apploader = 9;
  hwcrypto_unittest = 5;
  hwaes_unittest = 6;
  hwbcc = 7;
  hwbcc_unittest = 8;
}

-- A signing key that is given only while app loading is unlocked, and an encryption key.
abbrev pub build : Build
build = record {
  unittest = true;
  sign_key_0 =
      some (record { key = record { key_data = 1 ∷ 2 ∷ []; key_size = 2 }; unlocked_only = true });
  sign_key_1 = none;
  encrypt_key_0 = none;
  encrypt_key_1 = some (record { key_data = 3 ∷ []; key_size = 1 });
}

abbrev pub platform : Platform ℕ
platform = record {
  hkdf = tested;
  uuid_bytes = λ u. u ∷ [];
  enc = copying;
  evp = copying_evp;
  key_len = 0;
  loading_unlocked = λ w. (false, w);
  apps = apps;
  build = build;
}

abbrev pub bare_service : Server ℕ
bare_service = record service { key_slots = none }

pub bare_service-IsSound : IsSound bare_service
bare_service-IsSound = record {
  handles = service-IsSound.handles;
  nodes = tt;
  slots = tt;
  key_size = service-IsSound.key_size;
  req_size = service-IsSound.req_size;
  clean = service-IsSound.clean;
}

pub hkdf_self_test-tested : hkdf_self_test tested ≡ true
unfolding hkdf_self_test eq_bytes
hkdf_self_test-tested = refl

pub platform-IsDocumented : IsDocumented platform
platform-IsDocumented = record {
  tested = hkdf_self_test-tested;
  fills = tested-FillsOutput;
  encrypts = record { whole = λ t w h u. refl; failed = λ t w h u. cc; finishes = λ t w h u. refl };
  decrypts = record {
    iv_size = λ c. refl;
    whole = λ t w h u. refl;
    failed = λ t w h u. cc;
    no_rest = λ t w h u. (refl, refl);
  };
  included = record {
    sign_0 = record { size = refl; fits = omega arith };
    sign_1 = tt;
    encrypt_0 = tt;
    encrypt_1 = record { size = refl; fits = omega arith };
  };
}

keys-Connects_example : All (Connects apps build) (keys platform)
keys-Connects_example = keys-Connects platform
