-- ===== src/Hwaes.antt =====
-- The AES service: hwaes/main.c. The key service and the OpenSSL cipher context are what the
-- operation calls; `W` is their state.
pub mod Checks
pub mod Outcome
mod Tests
use trusty_app_sample.Common.{
  Bool, List, Option, Run, [], assert, false, fault, if◌then◌else◌, is_neg, is_some, is_zero,
  length, ltb, none, not, null_pointer, ok, read, replicate, some, take, true, ℕ, ℤ, ◌%◌, ◌-◌, ◌==◌,
  ◌>>=◌, ◌>>◌, ◌||◌,
}

pub data Status : Type 0 where
  no_error generic invalid_args io not_implemented : Status

pub data Mode : Type 0 where
  cbc gcm : Mode
  other_mode : ℕ → Mode

pub data KeyType : Type 0 where
  plaintext_key opaque_handle : KeyType

pub data Cipher : Type 0 where
  aes_128_cbc aes_256_cbc aes_128_gcm aes_256_gcm : Cipher

-- `struct hwaes_arg_in` and `struct hwaes_arg_out`: a pointer, with the bytes that it points to, and a
-- length.
pub record Arg : Type 0 where
  pub data_ptr : Option (List ℕ)
  pub len : ℕ

-- `struct hwaes_aes_op_args`; `no_padding` is `padding == HWAES_NO_PADDING`.
pub record Args : Type 0 where
  pub no_padding : Bool
  pub key : Arg
  pub key_type : KeyType
  pub iv : Arg
  pub aad : Arg
  pub text_in : Arg
  pub text_out : Arg
  pub tag_in : Arg
  pub tag_out : Arg
  pub mode : Mode
  pub encrypt : Bool

-- What an operation leaves: its result, and the bytes that it wrote to `text_out` and `tag_out`.
pub record Done (W : Type 0) : Type 0 where
  pub rc : Status
  pub text : Option (List ℕ)
  pub tag : Option (List ℕ)
  pub world : W

-- The connection to the key service. `get_keyslot_data` gets a name, a buffer and its size, and gives
-- its result, the buffer and the size of the key.
pub record KeyService (W : Type 0) : Type 0 where
  pub connect : W → ℤ × W
  pub get_keyslot_data : (session : ℤ) (name buf : List ℕ) (len : ℕ) → W → ℤ × List ℕ × ℕ × W
  pub disconnect : (session : ℤ) → W → W

-- The calls on the `EVP_CIPHER_CTX`, each with its success. `update` gives the bytes that it
-- writes and `get_tag` those of the tag, also if they fail.
pub record Evp (W : Type 0) : Type 0 where
  pub reset : W → W
  pub cipher_init : Cipher → (key iv : Option (List ℕ)) → (encrypt : Bool) → W → Bool × W
  pub block_size : W → ℕ
  pub iv_length : W → ℕ
  pub set_padding : W → Bool × W
  pub update_aad : List ℕ → W → Bool × W
  pub set_tag : List ℕ → W → Bool × W
  pub update : List ℕ → W → Bool × List ℕ × W
  pub final : W → Bool × W
  pub get_tag : (len : ℕ) → W → Bool × List ℕ × W

pub is_no_error : Status → Bool
is_no_error no_error = true
is_no_error _ = false

pub hwaes_check_arg : Arg → Status
hwaes_check_arg arg = if arg.len == 0 || not (is_some arg.data_ptr) then invalid_args else no_error

-- `hwaes_check_arg_in(arg) == HWAES_NO_ERROR`
pub is_present : Arg → Bool
unfolding hwaes_check_arg is_no_error
is_present arg = is_no_error (hwaes_check_arg arg)

-- The checks at the start, in their order.
pub check_args : Args → Status
unfolding is_present
check_args args =
    if not args.no_padding
    then not_implemented
    else if not (is_present args.key)
    then hwaes_check_arg args.key
    else if not (is_present args.text_in)
    then hwaes_check_arg args.text_in
    else if not (is_present args.text_out)
    then hwaes_check_arg args.text_out
    else if not (args.text_in.len == args.text_out.len)
    then invalid_args
    else no_error

-- A check that ends with a value, or refuses.
pub data Checked (A : Type 0) : Type 0 where
  refused : Status → Checked A
  passed : A → Checked A

cbc_cipher : (key_len : ℕ) → Option Cipher
cbc_cipher n = if n == 16 then some aes_128_cbc else if n == 32 then some aes_256_cbc else none

gcm_cipher : (key_len : ℕ) → Option Cipher
gcm_cipher n = if n == 16 then some aes_128_gcm else if n == 32 then some aes_256_gcm else none

-- The checks in CBC mode, with the cipher for the length of the key.
cbc_checks : Args → Option Cipher → Checked Cipher
cbc_checks args none = refused invalid_args
cbc_checks args (some c) =
    if is_present args.aad
    then refused invalid_args
    else if is_present args.tag_in || is_present args.tag_out
    then refused invalid_args
    else passed c

-- The checks in GCM mode, when encrypting or not.
gcm_checks : Args → (encrypt : Bool) → Option Cipher → Checked Cipher
gcm_checks args encrypt none = refused invalid_args
gcm_checks args true (some c) =
    if is_present args.tag_in
    then refused invalid_args
    else if not (is_present args.tag_out)
    then refused invalid_args
    else passed c
gcm_checks args false (some c) =
    if not (is_present args.tag_in)
    then refused invalid_args
    else if is_present args.tag_out
    then refused invalid_args
    else passed c

-- The selection of the cipher, and the checks that depend on the mode.
pub check_mode : Args → (key_len : ℕ) → Mode → Checked Cipher
unfolding cbc_checks gcm_checks
check_mode args n cbc = cbc_checks args (cbc_cipher n)
check_mode args n gcm = gcm_checks args args.encrypt (gcm_cipher n)
check_mode args n (other_mode m) = refused not_implemented

-- The bytes of an argument.
abbrev pub bytes : Arg → List ℕ
bytes arg = elim arg.data_ptr [ none ↦ [] | some d ↦ take arg.len d ]

-- What is at a pointer that may be null.
abbrev bytes_at : Option (List ℕ) → (len : ℕ) → Option (List ℕ)
bytes_at none len = none
bytes_at (some d) len = some (take len d)

abbrev pub stop : {W : Type 0} → Status → W → Done W
stop rc w = record { rc = rc; text = none; tag = none; world = w }

-- The next call, unless there was an error.
abbrev pub and_then : {W : Type 0} → Status × W → (W → Status × W) → Status × W
and_then (no_error, w) k = k w
and_then (rc, w) k = (rc, w)

module _ {W : Type 0} (hwkey : KeyService W) (evp : Evp W) (key_max handle_max : ℕ) where
  -- The key that the key service gives for the handle; `last` is the last byte of the handle.
  ask_key : Args → (last : ℕ) → W → Run (Checked (List ℕ) × W)
  ask_key args last w =
      let (session, w₁) = hwkey.connect w in
      let (rc, buf, len, w₂) =
        hwkey.get_keyslot_data session (bytes args.key) (replicate key_max 0) key_max w₁ in
      if not (last == 0)
      then ok (refused invalid_args, w)
      else if is_neg session
      then ok (refused generic, w₁)
      else if not (is_zero rc)
      then ok (refused io, hwkey.disconnect session w₂)
      else ok (passed (take len buf), hwkey.disconnect session w₂)

  -- The key: the argument, or what the key service gives for the handle that the argument holds.
  fetch_key : Args → W → Run (Checked (List ℕ) × W)
  unfolding ask_key
  fetch_key args w = elim args.key_type [
    | plaintext_key ↦ ok (passed (bytes args.key), w)
    | opaque_handle ↦
        if ltb handle_max args.key.len
        then ok (refused invalid_args, w)
        else elim args.key.data_ptr [
          | none ↦ fault null_pointer
          | some d ↦ read d (args.key.len - 1) >>= λ last. ask_key args last w
        ]
  ]

  -- From `EVP_CIPHER_CTX_reset` to `EVP_CIPHER_CTX_set_padding`.
  init_cipher : Args → Cipher → (key : List ℕ) → W → Status × W
  init_cipher args cipher key w =
      let (started, w₁) = evp.cipher_init cipher none none args.encrypt (evp.reset w) in
      let (keyed, w₂) =
        evp.cipher_init cipher (some key) (bytes_at args.iv.data_ptr (evp.iv_length w₁))
          args.encrypt w₁ in
      let (padding, w₃) = evp.set_padding w₂ in
      if not started
      then (generic, w₁)
      else if not (args.text_in.len % evp.block_size w₁ == 0)
      then (invalid_args, w₁)
      else if not (evp.iv_length w₁ == args.iv.len)
      then (invalid_args, w₁)
      else if not keyed
      then (generic, w₂)
      else if not padding
      then (generic, w₃)
      else (no_error, w₃)

  -- A call on an argument that may be missing.
  abbrev pub feed : Arg → (List ℕ → W → Bool × W) → W → Status × W
  feed arg call w =
      if is_present arg
      then (let (done, w₁) = call (bytes arg) w in (if done then no_error else generic, w₁))
      else (no_error, w)

  -- From `EVP_CipherUpdate` for the text to the end.
  run_cipher : Args → W → Run (Done W)
  run_cipher args w =
      let (updated, text, w₁) = evp.update (bytes args.text_in) w in
      let (finished, w₂) = evp.final w₁ in
      let (tagged, tag, w₃) = evp.get_tag args.tag_out.len w₂ in
      if not updated
      then ok (record { rc = generic; text = some text; tag = none; world = w₁ })
      else assert (length text == args.text_out.len)
        >> (if not finished
            then ok (record { rc = generic; text = some text; tag = none; world = w₂ })
            else if not (is_present args.tag_out)
            then ok (record { rc = no_error; text = some text; tag = none; world = w₂ })
            else if not tagged
            then ok (record { rc = generic; text = some text; tag = some tag; world = w₃ })
            else ok (record { rc = no_error; text = some text; tag = some tag; world = w₃ }))

  -- The operation once the cipher is selected; `ctx` is whether `cipher_ctx` is not null.
  with_cipher : (ctx : Bool) → Args → (key : List ℕ) → W → Checked Cipher → Run (Done W)
  unfolding init_cipher run_cipher
  with_cipher ctx args key w (refused rc) = ok (stop rc w)
  with_cipher ctx args key w (passed cipher) =
      let (rc, w₁) =
        and_then (and_then (init_cipher args cipher key w) (feed args.aad evp.update_aad))
          (feed args.tag_in evp.set_tag) in
      assert ctx >> (if is_no_error rc then run_cipher args w₁ else ok (stop rc w₁))

  -- The operation once the key is there.
  start_cipher : (ctx : Bool) → Args → (key : List ℕ) → W → Run (Done W)
  unfolding check_mode with_cipher
  start_cipher ctx args key w = with_cipher ctx args key w (check_mode args (length key) args.mode)

  with_key : (ctx : Bool) → Args → Checked (List ℕ) × W → Run (Done W)
  unfolding start_cipher
  with_key ctx args (refused rc, w) = ok (stop rc w)
  with_key ctx args (passed key, w) = start_cipher ctx args key w

  pub hwaes_aes_op : (ctx : Bool) → Args → W → Run (Done W)
  unfolding check_args fetch_key with_key
  hwaes_aes_op ctx args w =
      if not (is_no_error (check_args args))
      then ok (stop (check_args args) w)
      else fetch_key args w >>= with_key ctx args

-- `crypt_init`, for a `cipher_ctx` that is null or not and an allocation that succeeds or not: the new
-- `cipher_ctx`.
pub crypt_init : (ctx allocated : Bool) → Run Bool
crypt_init ctx allocated = assert (not ctx) >> assert allocated >> ok allocated

pub crypt_shutdown : Bool → Bool
crypt_shutdown ctx = false

-- `main`, over the results of `tipc_hset_create`, `add_hwaes_service` and the event loop: the exit
-- status, and `cipher_ctx`.
pub main : (created : Bool) (added : ℤ) (allocated : Bool) (looped : ℤ) → Run (Bool × Bool)
unfolding crypt_init crypt_shutdown
main created added allocated looped =
    if not created
    then ok (false, false)
    else if not (is_zero added)
    then ok (false, false)
    else crypt_init false allocated >>= λ ctx. ok (is_zero looped, crypt_shutdown ctx)
