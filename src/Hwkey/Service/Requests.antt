-- ===== src/Hwkey/Service/Requests.antt =====
-- The answer to a request for a key slot.
use trusty_app_sample.Common.{
  All, Bool-cases, List, Run, arith, bit_or, drop, drop-lt, fault, if◌then◌else◌, inl, inr, leb,
  length, length-replicate, ok, out_of_bounds, overlay, pos, refl, replicate, size_sub, some, suc,
  take, true, write, write-append, ℕ, ℤ, ◌++◌, ◌+◌, ◌<◌, ◌==◌, ◌>>=◌, ◌^◌, ◌∙◌, ◌∷◌, ◌≡◌, ◌≤◌,
}
use trusty_app_sample.Hwkey.Model.{Context, Device, KeyOut, Keyslot}
use trusty_app_sample.Hwkey.Handles.Lookup.{IsTokenNode}
use trusty_app_sample.Hwkey.Handles.Slots.{handle_slots-eq-lookup, lookup_key}
use trusty_app_sample.Hwkey.Service.{
  Header, Kdf, Protocol, Received, Reply, Server, clear, dispatch_cmd, hwkey_chan_handle_msg,
  hwkey_handle_get_keyslot_cmd, hwkey_send_rsp, reply_and_clear, store,
}

overlay-terminated :
    (payload buf : List ℕ)
    → length payload < length buf
    → write (overlay payload buf) (length payload) 0
      ≡ ok (payload ++ 0 ∷ drop (suc (length payload)) buf)
overlay-terminated payload buf h =
    let (b, e) = drop-lt (length payload) buf h in
    rw e (write-append payload b 0 (drop (suc (length payload)) buf))

bind_ext :
    {A B : Type 0} (m : Run A) (f g : A → Run B) → ((a : A) → f a ≡ g a) → (m >>= f) ≡ (m >>= g)
bind_ext (ok a) f g h = h a
bind_ext (fault x) f g h = refl

module _ {W : Type 0} (k : Protocol) (send : Reply → W → ℤ × W) where
  -- What a service that sends the result of a lookup is to do: the key, as long as it says, goes out
  -- in one reply on the client's channel, marked as a response, with the status of the lookup, and
  -- the key buffer is left with zeros where the key was. A longer key than the buffer is no key.
  unfoldable pub answer : Context → Header → Server W → KeyOut → Run (ℤ × Server W)
  answer ctx hdr s out =
      let rsp : Reply = record {
        chan = ctx.chan;
        hdr = record { cmd = bit_or hdr.cmd k.resp_bit; arg1 = hdr.arg1; status = out.status };
        payload = take out.klen out.kbuf;
      } in
      if leb out.klen (length out.kbuf)
      then ok (
        (send rsp s.world).0,
        record {
          contexts = s.contexts;
          opaque_handles = s.opaque_handles;
          key_slots = s.key_slots;
          req_data = s.req_data;
          key_data = replicate out.klen 0 ++ drop out.klen out.kbuf;
          closed = s.closed;
          sent = rsp ∷ s.sent;
          world = (send rsp s.world).1;
        },
      )
      else fault out_of_bounds

  reply_and_clear-eq-answer :
      (ctx : Context) (hdr : Header) (out : KeyOut) (s : Server W)
      → reply_and_clear k send ctx hdr out s ≡ answer ctx hdr s out
  unfolding reply_and_clear hwkey_send_rsp clear answer
  reply_and_clear-eq-answer ctx hdr out s = elim (Bool-cases (leb out.klen (length out.kbuf))) [
    | inl fits ↦ rw (fits, length-replicate {A = ℕ} out.klen 0) refl
    | inr over ↦ rw over refl
  ]

  module _ (dev : Device W) (fuel : ℕ) (kdf : Kdf W) (ctx : Context) where
    pub hwkey_chan_handle_msg_lem :
        (r : Received) (s : Server W) (slots : List (Keyslot W))
        → All IsTokenNode s.opaque_handles
        → s.key_slots ≡ some slots
        → r.rc ≡ pos (k.msg_size + length r.payload)
        → k.msg_size + length r.payload < 2 ^ 64
        → r.hdr.cmd ≡ k.get_keyslot
        → length r.payload < length s.req_data
        → 32 ≤ length s.key_data
        → hwkey_chan_handle_msg k send dev fuel kdf ctx r s ≡ (
            lookup_key dev fuel ctx s.opaque_handles s.key_data 0 r.payload slots s.world >>= λ q.
            reply_and_clear k send ctx r.hdr q.0 (record s {
              opaque_handles = q.1;
              world = q.2;
              req_data = r.payload ++ 0 ∷ drop (suc (length r.payload)) s.req_data;
            }))
    unfolding hwkey_chan_handle_msg dispatch_cmd hwkey_handle_get_keyslot_cmd store
    hwkey_chan_handle_msg_lem r s slots a e rc w cmd room key_room =
        let n = length r.payload in
        let size : size_sub (k.msg_size + n) k.msg_size ≡ n = omega (arith, w) in
        let fits : leb n (length s.req_data) ≡ true = ground arith in
        let get : (r.hdr.cmd == k.get_keyslot) ≡ true = ground arith in
        rw (rc, hwkey_chan_handle_msg)
          (rw (fits) (
            rw (size) (
              rw (get, overlay-terminated r.payload s.req_data room)
                (rw (
                  e,
                  handle_slots-eq-lookup dev fuel ctx s.opaque_handles s.key_data 0 r.payload
                      (drop (suc n) s.req_data) slots s.world a key_room,
                )))))

    -- With a token in each node and room for one in the key buffer, a request for a key slot whose
    -- payload fits its buffer is answered with the specified lookup for exactly the bytes of its
    -- payload: the bytes of earlier requests that are still in the buffer do not change the answer.
    -- The key goes out in one reply to the client, with the status of the lookup, and its bytes
    -- are zeros in the key buffer afterwards, whether the reply could be sent or not.
    pub get_keyslot-eq-lookup :
        (r : Received) (s : Server W) (slots : List (Keyslot W))
        → All IsTokenNode s.opaque_handles
        → s.key_slots ≡ some slots
        → r.rc ≡ pos (k.msg_size + length r.payload)
        → k.msg_size + length r.payload < 2 ^ 64
        → r.hdr.cmd ≡ k.get_keyslot
        → length r.payload < length s.req_data
        → 32 ≤ length s.key_data
        → hwkey_chan_handle_msg k send dev fuel kdf ctx r s ≡ (
            lookup_key dev fuel ctx s.opaque_handles s.key_data 0 r.payload slots s.world >>= λ q.
            answer ctx r.hdr
              (record s {
                opaque_handles = q.1;
                world = q.2;
                req_data = r.payload ++ 0 ∷ drop (suc (length r.payload)) s.req_data;
              })
              q.0)
    get_keyslot-eq-lookup r s slots a e rc w cmd room key_room =
        hwkey_chan_handle_msg_lem r s slots a e rc w cmd room key_room
        ∙ bind_ext (lookup_key dev fuel ctx s.opaque_handles s.key_data 0 r.payload slots s.world) _
            _
            (λ q. reply_and_clear-eq-answer ctx r.hdr q.0 (record s {
              opaque_handles = q.1;
              world = q.2;
              req_data = r.payload ++ 0 ∷ drop (suc (length r.payload)) s.req_data;
            }))
