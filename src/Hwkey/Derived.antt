-- ===== src/Hwkey/Derived.antt =====
-- `hwkey_get_derived_key` of hwcrypto/hwkey_srv.c, over the cipher calls of the OpenSSL library.
pub mod Bounds
pub mod Tidy
use trusty_app_sample.Common.{
  Bool, List, Option, Run, assert, drop, if◌then◌else◌, leb, length, ltb, none, not, ok, overlay,
  replicate, some, take, ℕ, ◌-◌, ◌==◌, ◌>>=◌, ◌>>◌,
}
use trusty_app_sample.Hwkey.Service.{store}
use trusty_app_sample.Hwkey.Model.{
  KeyOut, Retriever, Status, bad_len, derived_key_max_size, generic, no_error,
}

pub data Cipher : Type 0 where
  aes_128_cbc aes_256_cbc : Cipher

-- `struct hwkey_derived_keyslot_data`, its `priv` being part of the retriever.
pub record DerivedData (W : Type 0) : Type 0 where
  pub encrypted_key_data : List ℕ
  pub encrypted_key_size : ℕ
  pub retriever : Retriever W

-- The calls on an `EVP_CIPHER_CTX`, each with its success. `decrypt_update` gives the bytes that it
-- writes, also if it fails, and `decrypt_final` how many it would write.
pub record Evp (W : Type 0) : Type 0 where
  pub ctx_new : W → Bool × W
  pub decrypt_init : Cipher → (key iv : Option (List ℕ)) → W → Bool × W
  pub iv_length : Cipher → ℕ
  pub set_padding : W → Bool × W
  pub decrypt_update : List ℕ → W → Bool × List ℕ × W
  pub decrypt_final : W → Bool × ℕ × W
  pub ctx_free : W → W

module _ {W : Type 0} (evp : Evp W) (data_ : DerivedData W) (kbuf : List ℕ) (klen : ℕ) where
  -- `*data->encrypted_key_size_ptr - iv_length`, `unsigned int`
  abbrev pub plain_size : ℕ → ℕ
  plain_size iv_length = data_.encrypted_key_size - iv_length

  -- `rc` with the buffer as it is and `*klen` not assigned.
  abbrev pub give_up : Status → (List ℕ) → W → KeyOut × W
  give_up rc buf w = (record { status = rc; kbuf = buf; klen = klen }, evp.ctx_free w)

  -- From `EVP_DecryptUpdate` to the label `out`. What a failing update has written is in the buffer.
  update_and_final : (iv_length : ℕ) → W → Run (KeyOut × W)
  unfolding store
  update_and_final iv_length w =
      let n = plain_size iv_length in
      let (updated, plain, w₁) =
        evp.decrypt_update (take n (drop iv_length data_.encrypted_key_data)) w in
      let (finished, out_len, w₂) = evp.decrypt_final w₁ in
      if updated
      then assert (length plain == n)
        >> (if finished
            then assert (out_len == 0)
              >> ok (
                record { status = no_error; kbuf = overlay plain kbuf; klen = n },
                evp.ctx_free w₂,
              )
            else ok (give_up generic (overlay plain kbuf) w₂))
      else (store plain kbuf >>= λ buf. ok (give_up generic buf w₁))

  -- From the first `EVP_DecryptInit_ex` on.
  decrypt_key : Cipher → (key : List ℕ) → W → Run (KeyOut × W)
  unfolding update_and_final
  decrypt_key cipher key w =
      let iv_length = evp.iv_length cipher in
      let (started, w₁) = evp.decrypt_init cipher none none w in
      let (keyed, w₂) =
        evp.decrypt_init cipher (some key) (some (take iv_length data_.encrypted_key_data)) w₁ in
      let (padding, w₃) = evp.set_padding w₂ in
      if not started
      then ok (give_up generic kbuf w₁)
      else if leb data_.encrypted_key_size iv_length
      then ok (give_up generic kbuf w₁)
      else if ltb (length kbuf) (plain_size iv_length)
      then ok (give_up bad_len kbuf w₁)
      else if not keyed
      then ok (give_up generic kbuf w₂)
      else if not padding
      then ok (give_up generic kbuf w₃)
      else update_and_final iv_length w₃

  -- `switch (key_len)`
  pub cipher_of : ℕ → Option Cipher
  cipher_of key_len =
      if key_len == 16 then some aes_128_cbc else if key_len == 32 then some aes_256_cbc else none

  start_decrypt : (key : List ℕ) → Option Cipher → W → Run (KeyOut × W)
  unfolding decrypt_key
  start_decrypt key none w = ok (record { status = generic; kbuf = kbuf; klen = klen }, w)
  start_decrypt key (some cipher) w =
      let (created, w') = evp.ctx_new w in
      if created
      then decrypt_key cipher key w'
      else ok (record { status = generic; kbuf = kbuf; klen = klen }, w')

  with_key : KeyOut × W → Run (KeyOut × W)
  unfolding start_decrypt cipher_of
  with_key (key, w) = elim key.status [
    | no_error ↦ start_decrypt (take key.klen key.kbuf) (cipher_of key.klen) w
    | error ↦ ok (record { status = error; kbuf = kbuf; klen = klen }, w)
  ]

  -- `key_len` is what the uninitialised variable of that name holds.
  unfoldable pub hwkey_get_derived_key : (key_len : ℕ) → W → Run (KeyOut × W)
  unfolding with_key
  hwkey_get_derived_key key_len w =
      data_.retriever (replicate derived_key_max_size 0) key_len w >>= with_key
