-- ===== src/Keybox/Unwrap/Tests.antt =====
-- `keybox_unwrap` on the bytes 1, 2, 3.
use trusty_app_sample.Common.{List, [], arith, length, ok, read, refl, write, ℕ, ◌∷◌, ◌≡◌}
use trusty_app_sample.Keybox.Unwrap.{checksum_loop, keybox_unwrap, mask_loop, success, unwrap_fail}
use trusty_app_sample.Keybox.Unwrap.Spec.{wrap, xor_all}
use trusty_app_sample.Keybox.Unwrap.Laws.{
  keybox_unwrap-eq-outcome, keybox_unwrap-wrap, keybox_unwrap_tampered,
}

abbrev plain : List ℕ
plain = 1 ∷ 2 ∷ 3 ∷ []

abbrev message : List ℕ
message = 0x43 ∷ 0x40 ∷ 0x41 ∷ 0x42 ∷ []

abbrev buffer : List ℕ
buffer = 9 ∷ 9 ∷ 9 ∷ 9 ∷ []

wrap-plain : wrap plain ≡ message
unfolding wrap xor_all
wrap-plain = refl

unwrap-message :
    keybox_unwrap message 4 buffer 4 0
    ≡ ok (record { status = success; plaintext = 1 ∷ 2 ∷ 3 ∷ 9 ∷ []; plaintext_len = 3 })
unfolding keybox_unwrap checksum_loop mask_loop read write
unwrap-message = refl

keybox_unwrap-eq-outcome_example :
    keybox_unwrap (0x43 ∷ 0x40 ∷ 0x03 ∷ 7 ∷ []) 3 buffer 4 0
    ≡ ok (record { status = success; plaintext = 1 ∷ 2 ∷ 9 ∷ 9 ∷ []; plaintext_len = 2 })
unfolding xor_all
keybox_unwrap-eq-outcome_example =
    keybox_unwrap-eq-outcome (0x43 ∷ 0x40 ∷ 0x03 ∷ 7 ∷ []) buffer 3 0 (omega arith) (omega arith)
      (omega arith)

keybox_unwrap-wrap_example :
    keybox_unwrap (wrap plain) (length (wrap plain)) buffer 4 0
    ≡ ok (record { status = success; plaintext = 1 ∷ 2 ∷ 3 ∷ 9 ∷ []; plaintext_len = 3 })
keybox_unwrap-wrap_example = keybox_unwrap-wrap plain buffer 0 (omega arith)

-- The second byte is changed.
keybox_unwrap_tampered_example :
    keybox_unwrap (0x43 ∷ 0x50 ∷ 0x41 ∷ 0x42 ∷ []) 4 buffer 4 0
    ≡ ok (record { status = unwrap_fail; plaintext = buffer; plaintext_len = 0 })
unfolding keybox_unwrap checksum_loop mask_loop read write
keybox_unwrap_tampered_example =
    keybox_unwrap_tampered message buffer 0 1 0x40 0x50 (omega arith) refl refl (omega arith)
