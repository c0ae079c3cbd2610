-- ===== src/Hwkey/Provider/Keys/Sound.antt =====
-- The key slots of hwkey_srv_fake_provider.c, for every way to build them, keep the key service sound.
use trusty_app_sample.Common.{Option, none, some, true, ◌≡◌}
use trusty_app_sample.Hwkey.Derived.Tidy.{DecryptsBlocks}
use trusty_app_sample.Hwkey.Provider.{ApploaderKey, hkdf_self_test}
use trusty_app_sample.Hwkey.Provider.Keys.{Build, Platform, SignKey}
use trusty_app_sample.Hwkey.Provider.Tidy.{FillsOutput}
use trusty_app_sample.Hwkey.Provider.Slots.{EncryptsBlocks, IsIncluded}

abbrev pub IsIncludedKey : Option ApploaderKey → Type 0
IsIncludedKey none = Unit
IsIncludedKey (some k) = IsIncluded k

abbrev pub IsIncludedSign : Option SignKey → Type 0
IsIncludedSign none = Unit
IsIncludedSign (some k) = IsIncluded k.key

pub record AreIncluded (build : Build) : Type 0 where
  pub sign_0 : IsIncludedSign build.sign_key_0
  pub sign_1 : IsIncludedSign build.sign_key_1
  pub encrypt_0 : IsIncludedKey build.encrypt_key_0
  pub encrypt_1 : IsIncludedKey build.encrypt_key_1

-- What is relied on of the platform.
pub record IsDocumented {W : Type 0} (p : Platform W) : Type 0 where
  pub tested : hkdf_self_test p.hkdf ≡ true
  pub fills : FillsOutput p.hkdf
  pub encrypts : EncryptsBlocks p.enc
  pub decrypts : DecryptsBlocks p.evp
  pub included : AreIncluded p.build
