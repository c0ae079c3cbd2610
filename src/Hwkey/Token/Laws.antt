-- ===== src/Hwkey/Token/Laws.antt =====
-- The tokens that the loop makes.
use trusty_app_sample.Common.{
  All, Bool-cases, List, Run, [], ap, append_assoc, arith, drop, false, if◌then◌else◌, inl, inr,
  is_zero, length, length-append, length-overlay, length-take, ltb, ok, overlay, read, read-append,
  refl, replicate, set, subst, suc, sym, take, true, zero, ℕ, ◌++◌, ◌+◌, ◌<◌, ◌==◌, ◌∙◌, ◌∷◌, ◌≡◌,
  ◌≢◌, ◌≤◌,
}
use trusty_app_sample.Hwkey.Model.{Device}
use trusty_app_sample.Hwkey.Token.{
  Made, all_zero, failed, fill_token, is_empty_token, made, make_token, strnlen,
}

-- A token: 31 bytes that are not 0, and a terminating 0.
pub record IsToken (t : List ℕ) : Type 0 where
  pub text : List ℕ
  pub terminated : t ≡ text ++ 0 ∷ []
  pub size : length text ≡ 31
  pub nonzero : All (λ c. c ≢ 0) text

-- The bytes that differ from 0.
unfoldable pub nonzero_bytes : List ℕ → List ℕ
nonzero_bytes [] = []
nonzero_bytes (b ∷ bs) = if b == 0 then nonzero_bytes bs else b ∷ nonzero_bytes bs

nonzero_bytes-All : (bs : List ℕ) → All (λ c. c ≢ 0) (nonzero_bytes bs)
unfolding nonzero_bytes
nonzero_bytes-All [] = tt
nonzero_bytes-All (b ∷ bs) = ground (arith, nonzero_bytes-All bs)

All-take : (n : ℕ) (xs : List ℕ) → All (λ c. c ≢ 0) xs → All (λ c. c ≢ 0) (take n xs)
All-take zero xs h = tt
All-take (suc n) [] h = tt
All-take (suc n) (x ∷ xs) h = (h.0, All-take n xs h.1)

set-append : (xs : List ℕ) (y v : ℕ) (ys : List ℕ) → set (xs ++ y ∷ ys) (length xs) v ≡ xs ++ v ∷ ys
set-append [] y v ys = refl
set-append (x ∷ xs) y v ys = ap (◌∷◌ x) (set-append xs y v ys)

-- From the offset on, the loop writes the next bytes that are not 0, as many as there is room for.
fill_token_lem :
    (bs : List ℕ) (k offset : ℕ) (done rest : List ℕ)
    → offset ≡ length done
    → offset + k ≡ 31
    → length rest ≡ suc k
    → fill_token bs (offset, done ++ rest) ≡ (
      offset + length (take k (nonzero_bytes bs)),
      done ++ overlay (take k (nonzero_bytes bs)) rest,
    )
unfolding fill_token nonzero_bytes
fill_token_lem [] zero offset done rest e h l = ap (λ n. (n, done ++ rest)) (omega arith)
fill_token_lem [] (suc k) offset done rest e h l = ap (λ n. (n, done ++ rest)) (omega arith)
fill_token_lem (b ∷ bs) zero offset done rest e h l = ground arith
fill_token_lem (b ∷ bs) (suc k) offset done [] e h l = absurd (omega arith)
fill_token_lem (b ∷ bs) (suc k) offset done (o ∷ rest) e h l =
    let room : ltb offset 31 ≡ true = ground arith in
    let written : set (done ++ o ∷ rest) offset b ≡ (done ++ b ∷ []) ++ rest =
      rw (e, append_assoc done (b ∷ []) rest) (set-append done o b rest) in
    elim (Bool-cases (b == 0)) [
      | inl z ↦ rw (room, z) (fill_token_lem bs (suc k) offset done (o ∷ rest) e h l)
      | inr nz ↦
          rw
            (
              room,
              nz,
              written,
              fill_token_lem bs k (offset + 1) (done ++ b ∷ []) rest
                  (omega (arith, e, length-append done (b ∷ []))) (omega arith) (omega arith),
            )
            (ground (arith, append_assoc done (b ∷ []) (overlay (take k (nonzero_bytes bs)) rest)))
    ]

-- A token that is being made: 31 bytes of any value, and a terminating 0.
pub record IsRoom (t : List ℕ) : Type 0 where
  pub text : List ℕ
  pub terminated : t ≡ text ++ 0 ∷ []
  pub size : length text ≡ 31

-- One pass of the loop writes the first 31 bytes that are not 0, or all if there are fewer.
fill_token-zero :
    (bs text : List ℕ)
    → length text ≡ 31
    → fill_token bs (0, text ++ 0 ∷ [])
      ≡ (length (take 31 (nonzero_bytes bs)), overlay (take 31 (nonzero_bytes bs)) (text ++ 0 ∷ []))
fill_token-zero bs text l =
    fill_token_lem bs 31 0 [] (text ++ 0 ∷ []) refl refl
      (omega (arith, length-append text (0 ∷ [])))
    ∙ ap (λ n. (n, overlay (take 31 (nonzero_bytes bs)) (text ++ 0 ∷ []))) (omega arith)

drop-append : (n : ℕ) (xs ys : List ℕ) → n ≤ length xs → drop n (xs ++ ys) ≡ drop n xs ++ ys
drop-append zero xs ys h = refl
drop-append (suc n) [] ys h = absurd (omega arith)
drop-append (suc n) (x ∷ xs) ys h = drop-append n xs ys (omega arith)

-- Writing at most 31 bytes over the start leaves room for the terminating 0.
overlay-IsRoom : (src : List ℕ) {t : List ℕ} → length src ≤ 31 → IsRoom t → IsRoom (overlay src t)
overlay-IsRoom src {t} h r = record {
  text = overlay src r.text;
  terminated =
      rw (r.terminated, drop-append (length src) r.text (0 ∷ []) (omega (arith, r.size)))
        (sym (append_assoc src (drop (length src) r.text) (0 ∷ [])));
  size = omega (arith, length-overlay src r.text (omega (arith, r.size)), r.size);
}

drop-length : (n : ℕ) (xs : List ℕ) → length xs ≡ n → drop n xs ≡ []
drop-length zero [] e = refl
drop-length zero (x ∷ xs) e = absurd (omega arith)
drop-length (suc n) [] e = refl
drop-length (suc n) (x ∷ xs) e = drop-length n xs (omega arith)

-- When all 31 places are written, the result is a token.
overlay-IsToken :
    (src : List ℕ) {t : List ℕ}
    → length src ≡ 31
    → All (λ c. c ≢ 0) src
    → IsRoom t
    → IsToken (overlay src t)
overlay-IsToken src {t} l a r = record {
  text = src;
  terminated = rw (
    r.terminated,
    drop-append (length src) r.text (0 ∷ []) (omega (arith, r.size)),
    drop-length (length src) r.text (omega (arith, r.size)),
  );
  size = l;
  nonzero = a;
}

-- What a pass over the random bytes writes.
unfoldable pub chosen : List ℕ → List ℕ
chosen bs = take 31 (nonzero_bytes bs)

chosen-le : (bs : List ℕ) → length (chosen bs) ≤ 31
unfolding chosen
chosen-le bs = omega (arith, length-take 31 (nonzero_bytes bs))

fill_token-IsRoom :
    (bs : List ℕ) {t : List ℕ}
    → IsRoom t
    → fill_token bs (0, t) ≡ (length (chosen bs), overlay (chosen bs) t)
unfolding chosen
fill_token-IsRoom bs r = rw r.terminated (fill_token-zero bs r.text r.size)

-- One round of the `while (1)` loop.
pub make_token_step :
    {W : Type 0} (dev : Device W) (fuel : ℕ) (t : List ℕ) (w : W)
    → IsRoom t
    → let (rc, bs, w') = dev.get_rng_data 34 w in
      make_token dev (suc fuel) t w ≡ (
        if is_zero rc
        then if length (chosen bs) == 31
          then ok (made (overlay (chosen bs) t), w')
          else make_token dev fuel (overlay (chosen bs) t) w'
        else ok (failed rc, w'))
unfolding make_token
make_token_step dev fuel t w r = ground (arith, fill_token-IsRoom (dev.get_rng_data 34 w).1 r)

made_token :
    {W : Type 0} {t t' : List ℕ} {w w' : W}
    → ◌≡◌ {A = Run (Made × W)} (ok (made t, w)) (ok (made t', w'))
    → t ≡ t'
made_token e = cc

-- From a buffer of 31 bytes and a terminating 0, whatever the device returns and however many
-- rounds it takes: a token that is made has 31 bytes that are not 0, and a terminating 0.
pub make_token-IsToken :
    {W : Type 0} (dev : Device W) (fuel : ℕ) (t : List ℕ) (w : W) {w' : W} {t' : List ℕ}
    → IsRoom t
    → make_token dev fuel t w ≡ ok (made t', w')
    → IsToken t'
make_token-IsToken dev zero t w r e = unfold make_token in (cc)
make_token-IsToken {W} dev (suc fuel) t w {w'} {t'} r e =
    let bs = (dev.get_rng_data 34 w).1 in
    let e' = sym (make_token_step dev fuel t w r) ∙ e in
    elim (Bool-cases (is_zero (dev.get_rng_data 34 w).0)) [
      | inr bad ↦ cc (rw bad at e')
      | inl good ↦ elim (Bool-cases (length (chosen bs) == 31)) [
        | inl full ↦ subst IsToken (made_token (rw (good, full) at e')) (
            overlay-IsToken (chosen bs) (ground arith)
              (unfold chosen in All-take 31 (nonzero_bytes bs) (nonzero_bytes-All bs)) r)
        | inr short ↦
            make_token-IsToken dev fuel (overlay (chosen bs) t) (dev.get_rng_data 34 w).2
              (overlay-IsRoom (chosen bs) (chosen-le bs) r) (rw (good, short) at e')
      ]
    ]

-- A round in which the device delivers 31 bytes that are not 0 ends the loop.
pub make_token-ends :
    {W : Type 0} (dev : Device W) (fuel : ℕ) (t : List ℕ) (w : W)
    → IsRoom t
    → is_zero (dev.get_rng_data 34 w).0 ≡ true
    → 31 ≤ length (nonzero_bytes (dev.get_rng_data 34 w).1)
    → let (rc, bs, w') = dev.get_rng_data 34 w in
      make_token dev (suc fuel) t w ≡ ok (made (overlay (chosen bs) t), w')
make_token-ends dev fuel t w r z h =
    let bs = (dev.get_rng_data 34 w).1 in
    let full : length (chosen bs) ≡ 31 =
      unfold chosen in omega (arith, length-take 31 (nonzero_bytes bs), h) in
    make_token_step dev fuel t w r ∙ ground arith

all_zero-token :
    (text : List ℕ) → 0 < length text → All (λ c. c ≢ 0) text → all_zero (text ++ 0 ∷ []) ≡ false
unfolding all_zero
all_zero-token [] p a = elim p [ ]
all_zero-token (c ∷ text) p a = ground arith

strnlen-token : (text : List ℕ) → All (λ c. c ≢ 0) text → strnlen (text ++ 0 ∷ []) ≡ length text
unfolding strnlen
strnlen-token [] a = refl
strnlen-token (c ∷ text) a = ground (arith, strnlen-token text a.1)

-- A token passes the check of `is_empty_token`, and is not empty.
pub is_empty_token-IsToken : {t : List ℕ} → IsToken t → is_empty_token t ≡ ok false
unfolding is_empty_token
is_empty_token-IsToken v = rw v.terminated (
    ground (
      arith,
      all_zero-token v.text (omega (arith, v.size)) v.nonzero,
      strnlen-token v.text v.nonzero,
      v.size,
    ))

pub is_empty_token-new : is_empty_token (replicate 32 0) ≡ ok true
unfolding is_empty_token
is_empty_token-new = refl

pub new-IsRoom : IsRoom (replicate 32 0)
new-IsRoom = record { text = replicate 31 0; terminated = refl; size = refl }

pub read_last-IsToken : {t : List ℕ} → IsToken t → read t 31 ≡ ok 0
read_last-IsToken v = rw (v.terminated, ← v.size) (read-append v.text 0 [])
