-- ===== src/Hwkey/Derived/Tidy.antt =====
-- `hwkey_get_derived_key` over a cipher library that decrypts whole blocks: it keeps to its part of
-- the key buffer, and no assertion fails.
use trusty_app_sample.Common.{
  Bool-cases, IsSafe, List, Option, Returns, Returns-bind, [], arith, drop, false, inl, inr, leb,
  length, length-drop, length-take, ltb, none, refl, replicate, some, take, true, ℕ, ◌%◌, ◌-◌, ◌==◌,
  ◌∙◌, ◌≡◌, ◌≤◌,
}
use trusty_app_sample.Hwkey.Service.{store}
use trusty_app_sample.Hwkey.Model.{
  KeyOut, Status, already_exists, bad_len, derived_key_max_size, device, generic, no_error,
  not_found, not_implemented,
}
use trusty_app_sample.Hwkey.Handles.Tidy.{IsTidy, IsTidyOut, overlay-IsTidyOut, unchanged-IsTidyOut}
use trusty_app_sample.Hwkey.Derived.{
  Cipher, DerivedData, Evp, cipher_of, decrypt_key, give_up, hwkey_get_derived_key, start_decrypt,
  update_and_final, with_key,
}

-- What OpenSSL documents of AES in CBC mode without padding: an initialization vector of 16 bytes,
-- and for whole blocks as many bytes from the update, if it succeeds, and none from the end. And
-- an update of whole blocks that fails does so before it writes.
pub record DecryptsBlocks {W : Type 0} (evp : Evp W) : Type 0 where
  pub iv_size : (c : Cipher) → evp.iv_length c ≡ 16
  pub whole :
      (text : List ℕ) (w : W)
      → length text % 16 ≡ 0
      → (evp.decrypt_update text w).0 ≡ true
      → length (evp.decrypt_update text w).1 ≡ length text
  pub failed :
      (text : List ℕ) (w : W)
      → length text % 16 ≡ 0
      → (evp.decrypt_update text w).0 ≡ false
      → (evp.decrypt_update text w).1 ≡ []
  pub no_rest :
      (text : List ℕ) (w : W)
      → length text % 16 ≡ 0
      → (evp.decrypt_update text w).0 ≡ true
      → ((evp.decrypt_final (evp.decrypt_update text w).2).0 ≡ true)
        × ((evp.decrypt_final (evp.decrypt_update text w).2).1 ≡ 0)

module _ {W : Type 0} (evp : Evp W) (data_ : DerivedData W) (kbuf : List ℕ) (klen : ℕ)
    (decrypts : DecryptsBlocks evp)
    (size : length data_.encrypted_key_data ≡ data_.encrypted_key_size)
    (aligned : data_.encrypted_key_size % 16 ≡ 0) (small : klen ≤ length kbuf) where
  abbrev Tidy : KeyOut × W → Type 0
  Tidy r = IsTidyOut kbuf r.0

  error-Tidy : (rc : Status) (w : W) → Tidy (record { status = rc; kbuf = kbuf; klen = klen }, w)
  error-Tidy rc w = unchanged-IsTidyOut rc kbuf klen small

  update_and_final-Tidy :
      (w : W)
      → data_.encrypted_key_size - 16 ≤ length kbuf
      → Returns Tidy (update_and_final evp data_ kbuf klen 16 w)
  unfolding update_and_final store
  update_and_final-Tidy w fits =
      let n = data_.encrypted_key_size - 16 in
      let text = take n (drop 16 data_.encrypted_key_data) in
      let u = evp.decrypt_update text w in
      let text_size : length text ≡ n = omega (
        arith,
        length-take n (drop 16 data_.encrypted_key_data),
        length-drop 16 data_.encrypted_key_data,
        size,
      ) in
      let blocks : length text % 16 ≡ 0 = omega (arith, text_size, aligned) in
      elim (Bool-cases u.0) [
        | inr failed ↦
            let room : leb 0 (length kbuf) ≡ true = ground arith in
            rw (failed, decrypts.failed text w blocks failed, room)
              (error-Tidy generic (evp.ctx_free u.2))
        | inl updated ↦
            let out_size : length u.1 ≡ n = decrypts.whole text w blocks updated ∙ text_size in
            let finish = decrypts.no_rest text w blocks updated in
            let hit : (length u.1 == n) ≡ true = ground (arith, out_size) in
            rw (updated, hit, finish.0, finish.1)
              (overlay-IsTidyOut no_error kbuf u.1 n out_size fits)
      ]

  decrypt_key-Tidy :
      (cipher : Cipher) (key : List ℕ) (w : W)
      → Returns Tidy (decrypt_key evp data_ kbuf klen cipher key w)
  unfolding decrypt_key
  decrypt_key-Tidy cipher key w =
      let i = evp.decrypt_init cipher none none w in
      let k = evp.decrypt_init cipher (some key) (some (take 16 data_.encrypted_key_data)) i.1 in
      let p = evp.set_padding k.1 in
      let bad : (rc : Status) (w' : W) → Tidy (give_up evp data_ kbuf klen rc kbuf w') =
        λ rc w'. error-Tidy rc (evp.ctx_free w') in
      rw (decrypts.iv_size cipher) (elim (Bool-cases i.0) [
        | inr e₁ ↦ rw e₁ (bad generic i.1)
        | inl e₁ ↦ elim (Bool-cases (leb data_.encrypted_key_size 16)) [
          | inl e₂ ↦ rw (e₁, e₂) (bad generic i.1)
          | inr e₂ ↦ elim (Bool-cases (ltb (length kbuf) (data_.encrypted_key_size - 16))) [
            | inl e₃ ↦ rw (e₁, e₂, e₃) (bad bad_len i.1)
            | inr e₃ ↦ elim (Bool-cases k.0) [
              | inr e₄ ↦ rw (e₁, e₂, e₃, e₄) (bad generic k.1)
              | inl e₄ ↦ elim (Bool-cases p.0) [
                | inr e₅ ↦ rw (e₁, e₂, e₃, e₄, e₅) (bad generic p.1)
                | inl e₅ ↦ rw (e₁, e₂, e₃, e₄, e₅) (update_and_final-Tidy p.1 (ground arith))
              ]
            ]
          ]
        ]
      ])

  start_decrypt-Tidy :
      (key : List ℕ) (c : Option Cipher) (w : W)
      → Returns Tidy (start_decrypt evp data_ kbuf klen key c w)
  unfolding start_decrypt
  start_decrypt-Tidy key none w = error-Tidy generic w
  start_decrypt-Tidy key (some cipher) w = elim (Bool-cases (evp.ctx_new w).0) [
    | inr e ↦ rw e (error-Tidy generic (evp.ctx_new w).1)
    | inl e ↦ rw e (decrypt_key-Tidy cipher key (evp.ctx_new w).1)
  ]

  -- By the result of the provider of the key.
  with_key-Tidy :
      (rc : Status) (r : KeyOut) (w : W)
      → r.status ≡ rc
      → Returns Tidy (with_key evp data_ kbuf klen (r, w))
  unfolding with_key
  with_key-Tidy no_error r w e =
      rw (e, with_key)
        (start_decrypt-Tidy (take r.klen r.kbuf) (cipher_of evp data_ kbuf klen r.klen) w)
  with_key-Tidy generic r w e = rw (e, with_key) (error-Tidy generic w)
  with_key-Tidy not_found r w e = rw (e, with_key) (error-Tidy not_found w)
  with_key-Tidy bad_len r w e = rw (e, with_key) (error-Tidy bad_len w)
  with_key-Tidy not_implemented r w e = rw (e, with_key) (error-Tidy not_implemented w)
  with_key-Tidy already_exists r w e = rw (e, with_key) (error-Tidy already_exists w)
  with_key-Tidy (device rc) r w e = rw (e, with_key) (error-Tidy (device rc) w)

module _ {W : Type 0} (evp : Evp W) (data_ : DerivedData W) (key_len : ℕ)
    (decrypts : DecryptsBlocks evp)
    (size : length data_.encrypted_key_data ≡ data_.encrypted_key_size)
    (aligned : data_.encrypted_key_size % 16 ≡ 0)
    (returns : (w : W)
      → IsSafe (data_.retriever (replicate derived_key_max_size 0) key_len w)) where
  pub hwkey_get_derived_key-IsTidy :
      IsTidy (λ kbuf klen w. hwkey_get_derived_key evp data_ kbuf klen key_len w)
  unfolding hwkey_get_derived_key
  hwkey_get_derived_key-IsTidy kbuf klen w full small =
      Returns-bind (λ _. Unit) (λ r. IsTidyOut kbuf r.0)
        (data_.retriever (replicate derived_key_max_size 0) key_len w)
        (with_key evp data_ kbuf klen) (returns w)
        (λ r e h.
          with_key-Tidy evp data_ kbuf klen decrypts size aligned small r.0.status r.0 r.1 refl)
