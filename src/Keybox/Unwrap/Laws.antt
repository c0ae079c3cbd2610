-- ===== src/Keybox/Unwrap/Laws.antt =====
-- What `keybox_unwrap` returns: the loops against the format, byte by byte.
use trusty_app_sample.Common.{
  ==_self, List, Returns, [], ap, append_assoc, arith, bit_xor, drop, get_elem?, if◌then◌else◌,
  length, length-append, length-map, length-set, length-take, map, ok, overlay, read, read-append,
  refl, set, some, subst, sym, take, take-append-drop, take-length, take-length_append, write,
  write-append, ℕ, ◌++◌, ◌+◌, ◌-◌, ◌<◌, ◌==◌, ◌∙◌, ◌∷◌, ◌≡◌, ◌≢◌, ◌≤◌, ◌⊎◌,
}
use trusty_app_sample.Common.Xor.{
  bit_xor-zero, bit_xor_assoc, bit_xor_cancel, bit_xor_cancel_left, bit_xor_comm, bit_xor_self,
  zero-bit_xor,
}
use trusty_app_sample.Keybox.Unwrap.{
  Unwrapped, checksum_loop, invalid_request, keybox_unwrap, mask_loop, success, unwrap_fail,
}
use trusty_app_sample.Keybox.Unwrap.Spec.{
  map-mask-mask, mask, wrap, xor_all, xor_all-append, xor_all-set, xor_all-singleton,
}

read_at :
    (w pre : List ℕ) (b : ℕ) (body post : List ℕ) (i : ℕ)
    → w ≡ pre ++ (b ∷ body ++ post)
    → i ≡ length pre
    → read w i ≡ ok b
read_at w pre b body post i e h = rw (e, h) (read-append pre b (body ++ post))

write_at :
    (done : List ℕ) (o v : ℕ) (out : List ℕ) (i : ℕ)
    → i ≡ length done
    → write (done ++ o ∷ out) i v ≡ ok ((done ++ v ∷ []) ++ out)
write_at done o v out i h = rw (h, append_assoc done (v ∷ []) out) (write-append done o v out)

-- The loop over `body`, which stands behind the `i` bytes of `pre`.
checksum_loop_lem :
    (w pre body post : List ℕ) (i c : ℕ)
    → w ≡ pre ++ (body ++ post)
    → i ≡ length pre
    → checksum_loop w (length body) i c ≡ ok (bit_xor c (xor_all body))
unfolding checksum_loop xor_all
checksum_loop_lem w pre [] post i c e h = ap ok (sym (bit_xor-zero c))
checksum_loop_lem w pre (b ∷ body) post i c e h =
    rw (read_at w pre b body post i e h, ← bit_xor_assoc c b (xor_all body))
      (checksum_loop_lem w (pre ++ b ∷ []) body post (i + 1) (bit_xor c b)
        (e ∙ sym (append_assoc pre (b ∷ []) (body ++ post)))
        (omega (arith, h, length-append pre (b ∷ []))))

-- The loop has written `done`, and writes the masked `body` over the start of `out`.
mask_loop_lem :
    (w pre body post done out : List ℕ) (i : ℕ)
    → w ≡ pre ++ (body ++ post)
    → i ≡ length pre
    → i ≡ length done
    → length body ≤ length out
    → mask_loop w (length body) i (done ++ out) ≡ ok (done ++ overlay (map mask body) out)
unfolding mask_loop
mask_loop_lem w pre [] post done out i e h g l = refl
mask_loop_lem w pre (b ∷ body) post done [] i e h g l = absurd (omega arith)
mask_loop_lem w pre (b ∷ body) post done (o ∷ out) i e h g l =
    let next =
      mask_loop_lem w (pre ++ b ∷ []) body post (done ++ mask b ∷ []) out (i + 1)
        (e ∙ sym (append_assoc pre (b ∷ []) (body ++ post)))
        (omega (arith, h, length-append pre (b ∷ [])))
        (omega (arith, g, length-append done (mask b ∷ []))) (omega arith) in
    rw (read_at w pre b body post i e h, write_at done o (mask b) out i g, next)
      (ap ok (append_assoc done (mask b ∷ []) (overlay (map mask body) out)))

-- On a message `body ++ c ∷ rest` of `length body + 1` bytes and an output buffer that holds the
-- body: the masked body, if `c` is its exclusive or, and else the buffer as it was.
pub keybox_unwrap_lem :
    (body : List ℕ) (c : ℕ) (rest out : List ℕ) (n : ℕ)
    → length body ≤ length out
    → keybox_unwrap (body ++ c ∷ rest) (length body + 1) out (length out) n
      ≡ ok (
          if xor_all body == c
          then record {
            status = success;
            plaintext = overlay (map mask body) out;
            plaintext_len = length body;
          }
          else record { status = unwrap_fail; plaintext = out; plaintext_len = n })
unfolding keybox_unwrap
keybox_unwrap_lem body c rest out n h =
    let k : length body + 1 - 1 ≡ length body = omega arith in
    ground (
      arith,
      k,
      checksum_loop_lem (body ++ c ∷ rest) [] body (c ∷ rest) 0 0 refl refl,
      zero-bit_xor (xor_all body),
      mask_loop_lem (body ++ c ∷ rest) [] body (c ∷ rest) [] out 0 refl refl refl h,
      read-append body c rest,
    )

snoc_cases : (m : List ℕ) → 0 < length m → (body : List ℕ) × (c : ℕ) × (m ≡ body ++ c ∷ [])
snoc_cases [] h = elim h [ ]
snoc_cases (x ∷ []) h = ([], x, refl)
snoc_cases (x ∷ y ∷ m) h =
    let (body, c, e) = snoc_cases (y ∷ m) (omega arith) in (x ∷ body, c, ap (◌∷◌ x) e)

xor_all-snoc : (body : List ℕ) (c : ℕ) → (xor_all body == c) ≡ (xor_all (body ++ c ∷ []) == 0)
xor_all-snoc body c =
    rw (xor_all-append body (c ∷ []), xor_all-singleton c)
      (ground (
        arith,
        bit_xor_self c,
        bit_xor_cancel_left c (xor_all body) c,
        bit_xor_comm c (xor_all body),
        bit_xor_cancel (xor_all body) c,
        zero-bit_xor c,
      ))

-- What is left when the bytes `m` are the message: the masked bytes but the last, if the exclusive
-- or of all is 0.
abbrev pub outcome : List ℕ → List ℕ → ℕ → Unwrapped
outcome m out n =
    if xor_all m == 0
    then record {
      status = success;
      plaintext = overlay (map mask (take (length m - 1) m)) out;
      plaintext_len = length m - 1;
    }
    else record { status = unwrap_fail; plaintext = out; plaintext_len = n }

snoc_lem :
    (m body : List ℕ) (c : ℕ) (rest out : List ℕ) (n : ℕ)
    → m ≡ body ++ c ∷ []
    → length m ≤ length out + 1
    → keybox_unwrap (m ++ rest) (length m) out (length out) n ≡ ok (outcome m out n)
snoc_lem m body c rest out n e h =
    let len : length m ≡ length body + 1 =
      omega (arith, ap length e, length-append body (c ∷ [])) in
    let pre : take (length body + 1 - 1) (body ++ c ∷ []) ≡ body =
      (ap (λ k. take k (body ++ c ∷ [])) (omega arith)) ∙ take-length_append body (c ∷ []) in
    let l' : length body ≤ length out = omega arith in
    rw (len, e, append_assoc body (c ∷ []) rest)
      (ground (arith, keybox_unwrap_lem body c rest out n l', xor_all-snoc body c, pre, len))

-- For every message in a buffer, and an output buffer that has room for all but its last byte: the
-- result depends on the exclusive or of the message's bytes alone. If it is 0, the output starts
-- with the masked bytes and keeps the rest; otherwise the output is untouched and the result is
-- `unwrap_fail`. The program is not stopped.
pub keybox_unwrap-eq-outcome :
    (wrapped out : List ℕ) (len n : ℕ)
    → 0 < len
    → len ≤ length wrapped
    → len ≤ length out + 1
    → keybox_unwrap wrapped len out (length out) n ≡ ok (outcome (take len wrapped) out n)
keybox_unwrap-eq-outcome wrapped out len n p h g =
    let l : length (take len wrapped) ≡ len = omega (arith, length-take len wrapped) in
    let (body, c, e) = snoc_cases (take len wrapped) (omega arith) in
    subst (λ k. keybox_unwrap wrapped k out (length out) n ≡ ok (outcome (take len wrapped) out n))
      l
      (subst
        (λ w.
          keybox_unwrap w (length (take len wrapped)) out (length out) n
          ≡ ok (outcome (take len wrapped) out n))
        (take-append-drop len wrapped)
        (snoc_lem (take len wrapped) body c (drop len wrapped) out n e (omega arith)))

-- A message without bytes, or too long for the output buffer, is an invalid request, and nothing
-- is written.
pub keybox_unwrap-invalid :
    (wrapped out : List ℕ) (len n : ℕ)
    → (len ≡ 0) ⊎ (length out + 1 < len)
    → keybox_unwrap wrapped len out (length out) n
      ≡ ok (record { status = invalid_request; plaintext = out; plaintext_len = n })
unfolding keybox_unwrap
keybox_unwrap-invalid wrapped out len n h = ground arith

length-wrap : (plain : List ℕ) → length (wrap plain) ≡ length plain + 1
unfolding wrap
length-wrap plain =
    omega
      (arith, length-append (map mask plain) (xor_all (map mask plain) ∷ []), length-map plain mask)

-- What `wrap` makes of a plaintext is unwrapped to that plaintext, which stands at the start of the
-- output buffer, if the buffer is large enough.
pub keybox_unwrap-wrap :
    (plain out : List ℕ) (n : ℕ)
    → length plain ≤ length out
    → keybox_unwrap (wrap plain) (length (wrap plain)) out (length out) n
      ≡ ok
          (record { status = success; plaintext = overlay plain out; plaintext_len = length plain })
unfolding wrap
keybox_unwrap-wrap plain out n h =
    let l = length-map plain mask in
    let snoc = length-append (map mask plain) (xor_all (map mask plain) ∷ []) in
    let k : length (map mask plain ++ xor_all (map mask plain) ∷ []) ≡ length (map mask plain) + 1 =
      omega (arith, snoc) in
    rw (
      k,
      keybox_unwrap_lem (map mask plain) (xor_all (map mask plain)) [] out n (omega (arith, l)),
      ==_self (xor_all (map mask plain)),
      map-mask-mask plain,
      l,
    )

whole :
    (m out : List ℕ) (n : ℕ)
    → 0 < length m
    → length m ≤ length out + 1
    → keybox_unwrap m (length m) out (length out) n ≡ ok (outcome m out n)
whole m out n p h =
    keybox_unwrap-eq-outcome m out (length m) n p (omega arith) h
    ∙ ap (λ t. ok (outcome t out n)) (take-length m)

accepted_lem : (m out : List ℕ) (n : ℕ) → (outcome m out n).status ≡ success → xor_all m ≡ 0
accepted_lem m out n h = ground arith

rejected_lem :
    (m out : List ℕ) (n : ℕ)
    → xor_all m ≢ 0
    → ok (outcome m out n)
      ≡ ok (record { status = unwrap_fail; plaintext = out; plaintext_len = n })
rejected_lem m out n h = ground arith

-- If a message is accepted, every message that differs from it in exactly one byte fails to unwrap:
-- the result is `unwrap_fail`, and nothing is written.
pub keybox_unwrap_tampered :
    (m out : List ℕ) (n i x v : ℕ)
    → length m ≤ length out + 1
    → Returns (λ u. u.status ≡ success) (keybox_unwrap m (length m) out (length out) n)
    → get_elem? m i ≡ some x
    → v ≢ x
    → keybox_unwrap (set m i v) (length m) out (length out) n
      ≡ ok (record { status = unwrap_fail; plaintext = out; plaintext_len = n })
keybox_unwrap_tampered [] out n i x v h s e ne = cc
keybox_unwrap_tampered (y ∷ ys) out n i x v h s e ne =
    let m = y ∷ ys in
    let m' = set m i v in
    let l : length m' ≡ length m = length-set m i v in
    let accepted : xor_all m ≡ 0 = accepted_lem m out n (rw (whole m out n (omega arith) h) at s) in
    let differs : xor_all m' ≢ 0 = (λ z. ne (xor_all-set m i x v e (z ∙ sym accepted))) in
    rw (← l) (rw (whole m' out n (omega arith) (omega arith)) (rejected_lem m' out n differs))
