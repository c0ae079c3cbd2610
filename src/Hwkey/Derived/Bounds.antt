-- ===== src/Hwkey/Derived/Bounds.antt =====
-- What `hwkey_get_derived_key` leaves in the key buffer.
use trusty_app_sample.Common.{
  Bool-cases, Ensures, Ensures-bind, List, Option, arith, drop, drop-length_append, false, inl, inr,
  leb, length, length-overlay, ltb, none, overlay, refl, replicate, some, subst, take, true, ℕ,
  ℕ_discrete, ◌-◌, ◌==◌, ◌≡◌, ◌≢◌, ◌≤◌,
}
use trusty_app_sample.Hwkey.Service.{store}
use trusty_app_sample.Hwkey.Model.{
  KeyOut, Status, already_exists, bad_len, device, generic, no_error, not_found, not_implemented,
}
use trusty_app_sample.Hwkey.Derived.{
  Cipher, DerivedData, Evp, cipher_of, decrypt_key, give_up, hwkey_get_derived_key, plain_size,
  start_decrypt, update_and_final, with_key,
}

-- Between the buffer and `*klen` at the call, and what is left of them: on success the key fits the
-- buffer and nothing behind it is touched, and otherwise the length is not assigned.
pub record IsBounded (kbuf : List ℕ) (klen : ℕ) (out : KeyOut) : Type 0 where
  pub size : length out.kbuf ≡ length kbuf
  pub fits : out.status ≡ no_error → out.klen ≤ length kbuf
  pub rest : out.status ≡ no_error → drop out.klen out.kbuf ≡ drop out.klen kbuf
  pub unassigned : out.status ≢ no_error → out.klen ≡ klen

failed-IsBounded :
    (kbuf : List ℕ) (klen : ℕ) (rc : Status)
    → rc ≢ no_error
    → IsBounded kbuf klen (record { status = rc; kbuf = kbuf; klen = klen })
failed-IsBounded kbuf klen rc h = record {
  size = refl;
  fits = λ e. absurd (h e);
  rest = λ e. refl;
  unassigned = λ e. refl;
}

module _ {W : Type 0} (evp : Evp W) (data_ : DerivedData W) (kbuf : List ℕ) (klen : ℕ) where
  abbrev Bounds : KeyOut × W → Type 0
  Bounds r = IsBounded kbuf klen r.0

  error_bounded :
      (rc : Status) (w : W)
      → rc ≢ no_error
      → Bounds (record { status = rc; kbuf = kbuf; klen = klen }, w)
  error_bounded rc w h = failed-IsBounded kbuf klen rc h

  update_and_final-IsBounded :
      (iv_length : ℕ) (w : W)
      → plain_size evp data_ kbuf klen iv_length ≤ length kbuf
      → Ensures Bounds (update_and_final evp data_ kbuf klen iv_length w)
  unfolding update_and_final store
  update_and_final-IsBounded iv_length w h =
      let n = data_.encrypted_key_size - iv_length in
      let u = evp.decrypt_update (take n (drop iv_length data_.encrypted_key_data)) w in
      let f = evp.decrypt_final u.2 in
      elim (Bool-cases u.0) [
        | inr no_update ↦ elim (Bool-cases (leb (length u.1) (length kbuf))) [
          | inr over ↦ rw (no_update, over) tt
          | inl room ↦
              rw (no_update, room)
                (record {
                  size = length-overlay u.1 kbuf (ground (arith, room));
                  fits = λ e. cc;
                  rest = λ e. cc;
                  unassigned = λ e. refl;
                })
        ]
        | inl updated ↦ elim (ℕ_discrete (length u.1) n) [
          | no ne ↦ let miss : (length u.1 == n) ≡ false = ground arith in rw (updated, miss) tt
          | yes eq ↦
              let hit : (length u.1 == n) ≡ true = ground arith in
              let whole : length (overlay u.1 kbuf) ≡ length kbuf =
                length-overlay u.1 kbuf (omega arith) in
              elim (Bool-cases f.0) [
                | inr no_final ↦
                    rw (updated, hit, no_final)
                      (record {
                        size = whole;
                        fits = λ e. cc;
                        rest = λ e. cc;
                        unassigned = λ e. refl;
                      })
                | inl finished ↦ elim (Bool-cases (f.1 == 0)) [
                  | inr more ↦ rw (updated, hit, finished, more) tt
                  | inl done ↦
                      rw (updated, hit, finished, done)
                        (record {
                          size = whole;
                          fits = λ e. h;
                          rest = λ e.
                              subst (λ k. drop k (overlay u.1 kbuf) ≡ drop k kbuf) eq
                                (drop-length_append u.1 (drop (length u.1) kbuf));
                          unassigned = λ e. absurd (e refl);
                        })
                ]
              ]
        ]
      ]

  decrypt_key-IsBounded :
      (cipher : Cipher) (key : List ℕ) (w : W)
      → Ensures Bounds (decrypt_key evp data_ kbuf klen cipher key w)
  unfolding decrypt_key
  decrypt_key-IsBounded cipher key w =
      let iv_length = evp.iv_length cipher in
      let i = evp.decrypt_init cipher none none w in
      let k =
        evp.decrypt_init cipher (some key) (some (take iv_length data_.encrypted_key_data)) i.1 in
      let p = evp.set_padding k.1 in
      let bad : (rc : Status) (w' : W)
          → rc ≢ no_error
          → Bounds (give_up evp data_ kbuf klen rc kbuf w') =
        λ rc w' h. error_bounded rc (evp.ctx_free w') h in
      elim (Bool-cases i.0) [
        | inr e₁ ↦ rw e₁ (bad generic i.1 (λ e. cc))
        | inl e₁ ↦ elim (Bool-cases (leb data_.encrypted_key_size iv_length)) [
          | inl e₂ ↦ rw (e₁, e₂) (bad generic i.1 (λ e. cc))
          | inr e₂ ↦ elim (Bool-cases (ltb (length kbuf) (data_.encrypted_key_size - iv_length))) [
            | inl e₃ ↦ rw (e₁, e₂, e₃) (bad bad_len i.1 (λ e. cc))
            | inr e₃ ↦ elim (Bool-cases k.0) [
              | inr e₄ ↦ rw (e₁, e₂, e₃, e₄) (bad generic k.1 (λ e. cc))
              | inl e₄ ↦ elim (Bool-cases p.0) [
                | inr e₅ ↦ rw (e₁, e₂, e₃, e₄, e₅) (bad generic p.1 (λ e. cc))
                | inl e₅ ↦
                    rw (e₁, e₂, e₃, e₄, e₅)
                      (update_and_final-IsBounded iv_length p.1 (ground arith))
              ]
            ]
          ]
        ]
      ]

  start_decrypt-IsBounded :
      (key : List ℕ) (c : Option Cipher) (w : W)
      → Ensures Bounds (start_decrypt evp data_ kbuf klen key c w)
  unfolding start_decrypt
  start_decrypt-IsBounded key none w = error_bounded generic w (λ e. cc)
  start_decrypt-IsBounded key (some cipher) w = elim (Bool-cases (evp.ctx_new w).0) [
    | inr e ↦ rw e (error_bounded generic (evp.ctx_new w).1 (λ e. cc))
    | inl e ↦ rw e (decrypt_key-IsBounded cipher key (evp.ctx_new w).1)
  ]

  with_key-IsBounded : (r : KeyOut × W) → Ensures Bounds (with_key evp data_ kbuf klen r)
  unfolding with_key
  with_key-IsBounded (r, w) = go r.status refl
    where
      go : (s : Status) → r.status ≡ s → Ensures Bounds (with_key evp data_ kbuf klen (r, w))
      go no_error e =
          rw (e, with_key)
            (start_decrypt-IsBounded (take r.klen r.kbuf) (cipher_of evp data_ kbuf klen r.klen) w)
      go generic e = rw (e, with_key) (error_bounded generic w (λ q. cc))
      go not_found e = rw (e, with_key) (error_bounded not_found w (λ q. cc))
      go bad_len e = rw (e, with_key) (error_bounded bad_len w (λ q. cc))
      go not_implemented e = rw (e, with_key) (error_bounded not_implemented w (λ q. cc))
      go already_exists e = rw (e, with_key) (error_bounded already_exists w (λ q. cc))
      go (device rc) e = rw (e, with_key) (error_bounded (device rc) w (λ q. cc))

  -- Whatever the cipher library and the provider of the key do, if the call ends: on success the
  -- derived key fits the buffer and nothing behind it is touched; otherwise `*klen` is not
  -- assigned. The buffer keeps its size.
  pub hwkey_get_derived_key-IsBounded :
      (key_len : ℕ) (w : W)
      → Ensures (λ r. IsBounded kbuf klen r.0) (hwkey_get_derived_key evp data_ kbuf klen key_len w)
  unfolding hwkey_get_derived_key
  hwkey_get_derived_key-IsBounded key_len w =
      Ensures-bind Bounds (data_.retriever (replicate 32 0) key_len w)
        (with_key evp data_ kbuf klen) (λ r e. with_key-IsBounded r)
