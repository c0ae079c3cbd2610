-- ===== src/Hwkey/Service/Tests.antt =====
-- The events of the key service at small sizes.
use trusty_app_sample.Common.{
  Event, Returns, [], arith, inl, inr, length-replicate, no_event, ok, pos, refl, replicate, some,
  true, ℕ, ℤ, ◌>>=◌, ◌∙◌, ◌∷◌, ◌≡◌,
}
use trusty_app_sample.Hwkey.Model.{Retriever, no_error}
use trusty_app_sample.Hwkey.Handles.Slots.{lookup_key}
use trusty_app_sample.Hwkey.Handles.Tests.{
  client, fake, find_slot-client, find_slot-reader, first_lookup, first_token, reader, shared_key,
  two_bytes, two_bytes-IsTidy, two_slots,
}
use trusty_app_sample.Hwkey.Service.{
  Kdf, Protocol, Received, Reply, Server, hwkey_chan_handle_msg, hwkey_chan_handler,
  hwkey_ctx_close, reply_and_clear,
}
use trusty_app_sample.Hwkey.Service.Invariant.{AreZero-replicate, IsSound}
use trusty_app_sample.Hwkey.Service.Events.{hwkey_chan_handler-IsSound}
use trusty_app_sample.Hwkey.Service.Requests.{answer, get_keyslot-eq-lookup}
use trusty_app_sample.Hwkey.Service.TokenReply.{no_key, received}
use trusty_app_sample.Hwkey.Service.Session.{answer_token, token_session}
use trusty_app_sample.Hwkey.Handles.Lookup.{first_reader}
use trusty_app_sample.Hwkey.Derived.{DerivedData, Evp, hwkey_get_derived_key}
use trusty_app_sample.Hwkey.Derived.Bounds.{IsBounded, hwkey_get_derived_key-IsBounded}
use trusty_app_sample.Hwrng.Fake.Tokens.{fake-Delivers}

abbrev pub numbers : Protocol
numbers = record {
  get_keyslot = 0;
  derive = 2;
  resp_bit = 1;
  kdf_best = 0;
  kdf_v1 = 1;
  msg_size = 12;
}

abbrev pub deliver : Reply → ℕ → ℤ × ℕ
deliver r w = (pos 0, w)

abbrev pub derive_two : Kdf ℕ
derive_two uuid ikm = two_bytes

abbrev pub service : Server ℕ
service = record {
  contexts = client ∷ [];
  opaque_handles = [];
  key_slots = some two_slots;
  req_data = replicate 2049 0;
  key_data = replicate 2048 0;
  closed = [];
  sent = [];
  world = 0;
}

pub service-IsSound : IsSound service
service-IsSound = record {
  handles = record { tokens = tt; distinct = tt; owners = tt };
  nodes = tt;
  slots = (two_bytes-IsTidy, (two_bytes-IsTidy, tt));
  key_size = length-replicate {A = ℕ} 2048 0;
  req_size = length-replicate {A = ℕ} 2049 0;
  clean = AreZero-replicate 2048;
}

-- A request for the key slot with the key id 107.
abbrev pub ask : Received
ask = record {
  rc = pos 13;
  hdr = record { cmd = 0; arg1 = 0; status = no_error };
  payload = 107 ∷ [];
}

abbrev pub message : Event
message = record no_event { msg = true }

hwkey_chan_handler-IsSound_example :
    Returns IsSound (
      hwkey_chan_handler numbers deliver fake 1 derive_two (λ ev. ok tt) message client ask service)
hwkey_chan_handler-IsSound_example =
    hwkey_chan_handler-IsSound numbers deliver fake 1 derive_two client
      (fake-Delivers (λ w. true) 0) (λ uuid ikm h. two_bytes-IsTidy) (λ ev. ok tt) message ask
      service refl (omega arith) (inr (refl, omega arith)) service-IsSound (inl refl)

abbrev small : Server ℕ
small = record service { req_data = replicate 8 9; key_data = replicate 32 0 }

get_keyslot-eq-lookup_example :
    hwkey_chan_handle_msg numbers deliver fake 1 derive_two client ask small ≡ (
      lookup_key fake 1 client [] (replicate 32 0) 0 (107 ∷ []) two_slots 0 >>= λ q.
      answer numbers deliver client ask.hdr
        (record small { opaque_handles = q.1; world = q.2; req_data = 107 ∷ 0 ∷ replicate 6 9 })
        q.0)
get_keyslot-eq-lookup_example =
    get_keyslot-eq-lookup numbers deliver fake 1 derive_two client ask small two_slots tt refl refl
      (omega arith) refl (omega arith) (omega arith)

-- A cipher library that gives the ciphertext back.
abbrev plain_evp : Evp ℕ
plain_evp = record {
  ctx_new = λ w. (true, w);
  decrypt_init = λ c key iv w. (true, w);
  iv_length = λ c. 2;
  set_padding = λ w. (true, w);
  decrypt_update = λ text w. (true, text, w);
  decrypt_final = λ w. (true, 0, w);
  ctx_free = λ w. w;
}

abbrev sixteen : Retriever ℕ
sixteen kbuf klen w = ok (record { status = no_error; kbuf = kbuf; klen = 16 }, w)

abbrev encrypted : DerivedData ℕ
encrypted = record {
  encrypted_key_data = 0 ∷ 0 ∷ 7 ∷ 8 ∷ [];
  encrypted_key_size = 4;
  retriever = sixteen;
}

hwkey_get_derived_key-IsBounded_example :
    IsBounded (1 ∷ 2 ∷ 3 ∷ []) 0 (record { status = no_error; kbuf = 7 ∷ 8 ∷ 3 ∷ []; klen = 2 })
unfolding hwkey_get_derived_key
hwkey_get_derived_key-IsBounded_example =
    hwkey_get_derived_key-IsBounded plain_evp encrypted (1 ∷ 2 ∷ 3 ∷ []) 0 32 0

abbrev ask_handle : Received
ask_handle = record ask { payload = 104 ∷ [] }

abbrev send_token : Received
send_token = record ask { rc = pos 44; payload = first_token }

abbrev token_reply : Reply
token_reply = record {
  chan = 4;
  hdr = record { cmd = 1; arg1 = 0; status = no_error };
  payload = first_token;
}

abbrev with_token : Server ℕ
with_token = record service {
  opaque_handles =
      record { key_slot = 1; handle = shared_key; owner = 9; token = first_token } ∷ [];
  req_data = 104 ∷ 0 ∷ replicate 2047 0;
  sent = token_reply ∷ [];
  world = 34;
}

with_token_lem :
    hwkey_chan_handle_msg numbers deliver fake 1 derive_two client ask_handle service
    ≡ ok (pos 0, with_token)
unfolding answer
with_token_lem =
    get_keyslot-eq-lookup numbers deliver fake 1 derive_two client ask_handle service two_slots tt
      refl refl (omega arith) refl (omega arith) (omega arith)
    ∙ rw (first_lookup (replicate 2048 0)) refl

token_session_example :
    (hwkey_chan_handle_msg numbers deliver fake 1 derive_two reader send_token with_token
      ≡ answer_token numbers deliver reader send_token shared_key with_token)
    × (hwkey_chan_handle_msg numbers deliver fake 1 derive_two reader send_token
          (hwkey_ctx_close client with_token)
        ≡ reply_and_clear numbers deliver reader send_token.hdr
            (no_key (replicate 2048 0))
            (received send_token (hwkey_ctx_close client with_token)))
unfolding first_reader
token_session_example =
    token_session numbers deliver fake 1 derive_two two_slots client reader ask_handle send_token
      service with_token 1 shared_key (pos 0) token_reply service-IsSound refl
      (record { rc = refl; fits = omega arith; cmd = refl; room = omega arith }) find_slot-client
      with_token_lem refl refl
      (record { rc = refl; fits = omega arith; cmd = refl; room = omega arith }) refl
      find_slot-reader refl
