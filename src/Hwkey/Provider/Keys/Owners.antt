-- ===== src/Hwkey/Provider/Keys/Owners.antt =====
-- The tables of hwkey_srv_fake_provider.c agree: who owns a key slot or may read its key can connect.
use trusty_app_sample.Common.{
  All, All-append, All-optional, Bool, Bool-cases, List, Option, [], arith, inl, inr, is_some, none,
  refl, some, true, ℕ, ◌≡◌,
}
use trusty_app_sample.Hwkey.Model.{Handler, Keyslot, Uuid, key_handle, no_handler, provider}
use trusty_app_sample.Hwkey.Provider.Data.{
  encrypt_key_0_id, encrypt_key_1_id, sign_key_0_id, sign_key_1_id,
}
use trusty_app_sample.Hwkey.Provider.Keys.{
  Apps, Build, Platform, SignKey, allowed_clients, encrypt_key_slots, has_apploader_keys,
  hwkey_client_allowed, is_listed, keys, sign_key_slots, unittest_slots,
}
use trusty_app_sample.Hwkey.Derived.{Evp}
use trusty_app_sample.Hwkey.Provider.{ApploaderKey}

-- Who may read the key behind a handle that a handler gives.
abbrev pub readers : {W : Type 0} → Handler W → List Uuid
readers no_handler = []
readers (key_handle handle) = handle.allowed_uuids
readers (provider f) = []

module _ (apps : Apps) (build : Build) where
  abbrev pub Allowed : Uuid → Type 0
  Allowed u = hwkey_client_allowed apps build u ≡ true

  -- The owner of a slot can connect, and so can whoever may read the key behind its handle.
  abbrev pub Connects : {W : Type 0} → Keyslot W → Type 0
  Connects s = Allowed s.uuid × All Allowed (readers s.handler)

  ss-Allowed : Allowed apps.ss
  unfolding hwkey_client_allowed allowed_clients is_listed
  ss-Allowed = ground arith

  km-Allowed : Allowed apps.km
  unfolding hwkey_client_allowed allowed_clients is_listed
  km-Allowed = ground arith

  hwaes-Allowed : Allowed apps.hwaes
  unfolding hwkey_client_allowed allowed_clients is_listed
  hwaes-Allowed = ground arith

  apploader-Allowed : has_apploader_keys build ≡ true → Allowed apps.apploader
  unfolding hwkey_client_allowed allowed_clients is_listed
  apploader-Allowed h = rw h (ground arith)

  hwcrypto_unittest-Allowed : Allowed apps.hwcrypto_unittest
  unfolding hwkey_client_allowed allowed_clients is_listed
  hwcrypto_unittest-Allowed = elim (Bool-cases (has_apploader_keys build)) [
    | inl h ↦ rw h (ground arith)
    | inr h ↦ rw h (ground arith)
  ]

  hwaes_unittest-Allowed : build.unittest ≡ true → Allowed apps.hwaes_unittest
  unfolding hwkey_client_allowed allowed_clients is_listed
  hwaes_unittest-Allowed t = elim (Bool-cases (has_apploader_keys build)) [
    | inl h ↦ rw (h, t) (ground arith)
    | inr h ↦ rw (h, t) (ground arith)
  ]

  sign_key_slots-Connects :
      {W : Type 0} (loading_unlocked : W → Bool × W) (key_id : List ℕ) (k : Option SignKey)
      → (is_some k ≡ true → Allowed apps.apploader)
      → All Connects (sign_key_slots loading_unlocked apps key_id k)
  unfolding sign_key_slots
  sign_key_slots-Connects loading_unlocked key_id none h = tt
  sign_key_slots-Connects loading_unlocked key_id (some k) h = ((h refl, tt), tt)

  encrypt_key_slots-Connects :
      (W : Type 0) (key_id : List ℕ) (k : Option ApploaderKey)
      → (is_some k ≡ true → Allowed apps.apploader)
      → All (Connects {W = W}) (encrypt_key_slots apps key_id k)
  unfolding encrypt_key_slots
  encrypt_key_slots-Connects W key_id none h = tt
  encrypt_key_slots-Connects W key_id (some k) h = ((h refl, (hwaes-Allowed, tt)), tt)

  unittest_slots-Connects :
      {W : Type 0} (evp : Evp W) (key_len : ℕ)
      → build.unittest ≡ true
      → All Connects (unittest_slots evp key_len apps)
  unfolding unittest_slots
  unittest_slots-Connects evp key_len t =
      let test = hwcrypto_unittest-Allowed in
      (
        (test, tt),
        (
          (test, tt),
          (
            (test, (test, tt)),
            (
              (test, (test, tt)),
              (
                (test, tt),
                ((test, (test, tt)), ((hwaes_unittest-Allowed t, (hwaes-Allowed, tt)), tt)),
              ),
            ),
          ),
        ),
      )

module _ {W : Type 0} (p : Platform W) where
  -- However the provider is built, the tables of the key slots and of the clients agree: the owner
  -- of every key slot is allowed to connect to the key service, and so is every application that
  -- may read the key behind a handle of the slot.
  pub keys-Connects : All (Connects p.apps p.build) (keys p)
  unfolding keys
  keys-Connects =
      let apps = p.apps in
      let build = p.build in
      let sign = sign_key_slots-Connects apps build p.loading_unlocked in
      let encrypt = encrypt_key_slots-Connects apps build W in
      let more = All-append (λ (s : Keyslot W). Connects apps build s) in
      (
        (ss-Allowed apps build, tt),
        (
          (km-Allowed apps build, tt),
          more _ _
              (sign sign_key_0_id build.sign_key_0 (λ e. apploader-Allowed apps build (rw e refl)))
              (more _ _
                (sign sign_key_1_id build.sign_key_1
                  (λ e. apploader-Allowed apps build (ground (arith, e))))
                (more _ _
                  (encrypt encrypt_key_0_id build.encrypt_key_0
                    (λ e. apploader-Allowed apps build (ground (arith, e))))
                  (more _ _
                    (encrypt encrypt_key_1_id build.encrypt_key_1
                      (λ e. apploader-Allowed apps build (ground (arith, e))))
                    (All-optional _ build.unittest _
                      (unittest_slots-Connects apps build p.evp p.key_len))))),
        ),
      )
