-- ===== src/Hwkey/Service/Events.antt =====
-- Every event keeps the key service sound, and none stops it.
use trusty_app_sample.Common.{
  Bool, Bool-cases, Event, List, Option, Returns, Returns-bind, Run, arith, inl, inr, is_neg, leb,
  length, length-overlay, length-replicate, length-set, length-take, ltb, negsuc, none, ok, pos,
  refl, replicate, size_sub, some, take, true, write, ℕ, ℤ, ◌+◌, ◌<◌, ◌==◌, ◌^◌, ◌∷◌, ◌≡◌, ◌≤◌, ◌⊎◌,
}
use trusty_app_sample.Hwkey.Model.{Context, Device, Uuid, max_payload_size}
use trusty_app_sample.Hwkey.Handles.Tidy.{Delivers, IsTidy}
use trusty_app_sample.Hwkey.Service.{
  Header, Kdf, Protocol, Received, Reply, Server, clear, dispatch_cmd, hwkey_chan_handle_msg,
  hwkey_chan_handler, hwkey_handle_derive_key_cmd, hwkey_port_handler, hwkey_send_rsp, store,
}
use trusty_app_sample.Hwkey.Service.Invariant.{
  HasContext, IsSound, IsValid-mono, Keeps, derive_key-IsSound, get_keyslot-IsSound,
  hwkey_ctx_close-IsSound,
}

-- What `tipc_recv_hdr_payload` promises: an error, or the size of the header and of a payload that
-- fits the buffer it was given.
abbrev pub IsReceived : Protocol → Received → Type 0
IsReceived k r =
    (is_neg r.rc ≡ true)
    ⊎ (r.rc ≡ pos (k.msg_size + length r.payload)) × (length r.payload ≤ max_payload_size)

clear_size :
    (n : ℕ) (buf : List ℕ) → n ≤ length buf → Returns (λ b. length b ≡ length buf) (clear n buf)
unfolding clear
clear_size n buf h =
    let fits : leb n (length buf) ≡ true = ground arith in
    let l : length (replicate {A = ℕ} n 0) ≡ n = length-replicate n 0 in
    rw fits (length-overlay (replicate n 0) buf (omega arith))

store_size :
    (src buf : List ℕ)
    → length src ≤ length buf
    → Returns (λ b. length b ≡ length buf) (store src buf)
unfolding store
store_size src buf h =
    let fits : leb (length src) (length buf) ≡ true = ground arith in
    rw fits (length-overlay src buf h)

write_size :
    (buf : List ℕ) (n v : ℕ) → n < length buf → Returns (λ b. length b ≡ length buf) (write buf n v)
unfolding write
write_size buf n v h =
    let fits : ltb n (length buf) ≡ true = ground arith in rw fits (length-set buf n v)

module _ {W : Type 0} where
  with_req_data :
      (s : Server W) (req : List ℕ)
      → IsSound s
      → length req ≡ max_payload_size + 1
      → IsSound (record s { req_data = req })
  with_req_data s req v e = record {
    handles = v.handles;
    nodes = v.nodes;
    slots = v.slots;
    key_size = v.key_size;
    req_size = e;
    clean = v.clean;
  }

  module _ (k : Protocol) (send : Reply → W → ℤ × W) (dev : Device W) (fuel : ℕ) (kdf : Kdf W)
      (ctx : Context) (delivers : Delivers dev fuel)
      (kdf_tidy : (uuid : Uuid) (ikm : List ℕ)
        → length ikm ≤ max_payload_size
        → IsTidy (kdf uuid ikm)) where
    dispatch_cmd-IsSound :
        (hdr : Header) (n : ℕ) (s : Server W)
        → n ≤ max_payload_size
        → IsSound s
        → HasContext s.contexts ctx.addr
        → Returns (Keeps s) (dispatch_cmd k send dev fuel kdf ctx hdr n s)
    unfolding dispatch_cmd hwkey_send_rsp
    dispatch_cmd-IsSound hdr n s h v live =
        let room = v.req_size in
        elim (Bool-cases (hdr.cmd == k.get_keyslot)) [
          | inl get ↦ rw get (
              Returns-bind (λ b. length b ≡ length s.req_data) (Keeps s) (write s.req_data n 0) _
                (write_size s.req_data n 0 (omega arith))
                (λ req e l.
                  get_keyslot-IsSound k send dev fuel kdf ctx delivers kdf_tidy hdr
                    (record s { req_data = req }) (with_req_data s req v (omega arith)) live))
          | inr no_get ↦ elim (Bool-cases (hdr.cmd == k.derive)) [
            | inl der ↦
                rw (no_get, der)
                  (Returns-bind (Keeps s) (Keeps s)
                    (hwkey_handle_derive_key_cmd k send dev fuel kdf ctx hdr (take n s.req_data) s)
                    _
                    (derive_key-IsSound k send dev fuel kdf ctx delivers kdf_tidy hdr
                      (take n s.req_data) s (omega (arith, length-take n s.req_data)) v)
                    (λ r e q.
                      Returns-bind (λ b. length b ≡ length r.1.req_data) (Keeps s)
                        (clear n r.1.req_data) _
                        (clear_size n r.1.req_data (omega (arith, q.0.req_size)))
                        (λ req e' l.
                          (with_req_data r.1 req q.0 (omega (arith, q.0.req_size)), q.1))))
            | inr unsupported ↦
                rw (no_get, unsupported)
                  (
                    record {
                      handles = v.handles;
                      nodes = v.nodes;
                      slots = v.slots;
                      key_size = v.key_size;
                      req_size = v.req_size;
                      clean = v.clean;
                    },
                    refl,
                  )
          ]
        ]

    handle_msg-IsSound :
        (r : Received) (s : Server W)
        → k.msg_size < 2 ^ 63
        → IsReceived k r
        → IsSound s
        → HasContext s.contexts ctx.addr
        → Returns (Keeps s) (hwkey_chan_handle_msg k send dev fuel kdf ctx r s)
    unfolding hwkey_chan_handle_msg
    handle_msg-IsSound r s w (inl bad) v live = go r.rc refl
      where
        go :
            (rc : ℤ)
            → r.rc ≡ rc
            → Returns (Keeps s) (hwkey_chan_handle_msg k send dev fuel kdf ctx r s)
        go (pos n) e = cc
        go (negsuc n) e = rw (e, hwkey_chan_handle_msg) (v, refl)
    handle_msg-IsSound r s w (inr (e, fits)) v live =
        let n = length r.payload in
        let size : size_sub (k.msg_size + n) k.msg_size ≡ n = omega arith in
        rw (e, hwkey_chan_handle_msg)
          (Returns-bind (λ b. length b ≡ length s.req_data) (Keeps s) (store r.payload s.req_data) _
            (store_size r.payload s.req_data (omega (arith, v.req_size)))
            (λ req e' l. rw size (
              dispatch_cmd-IsSound r.hdr n (record s { req_data = req }) fits
                (with_req_data s req v (omega (arith, v.req_size))) live)))

    -- The handler of a channel of a live context, from a sound state, for an event that is no
    -- channel error and, if a message is received, one of the announced size that fits the buffer:
    -- it returns, with no failed assertion, no access outside a buffer and no call of a null
    -- handler; the list of handles stays valid for the contexts that are left, and the key buffer
    -- is zero again. This holds if the providers return and keep to their part of the buffer, and
    -- the token loop ends.
    pub hwkey_chan_handler-IsSound :
        (handle_chan_errors : Event → Run (Unit {0})) (ev : Event) (r : Received) (s : Server W)
        → handle_chan_errors ev ≡ ok tt
        → k.msg_size < 2 ^ 63
        → IsReceived k r
        → IsSound s
        → HasContext s.contexts ctx.addr
        → Returns IsSound (hwkey_chan_handler k send dev fuel kdf handle_chan_errors ev ctx r s)
    unfolding hwkey_chan_handler
    hwkey_chan_handler-IsSound errors ev r s no_fault w recv v live = elim (Bool-cases ev.hup) [
      | inl hup ↦ rw (no_fault, hup) (hwkey_ctx_close-IsSound ctx s v)
      | inr open_ ↦ elim (Bool-cases ev.msg) [
        | inr idle ↦ rw (no_fault, open_, idle) v
        | inl msg ↦
            rw (no_fault, open_, msg)
              (Returns-bind (Keeps s) IsSound (hwkey_chan_handle_msg k send dev fuel kdf ctx r s) _
                (handle_msg-IsSound r s w recv v live)
                (λ q e h. elim (Bool-cases (is_neg q.0)) [
                  | inl bad ↦ rw bad (hwkey_ctx_close-IsSound ctx q.1 h.0)
                  | inr good ↦ rw good h.0
                ]))
      ]
    ]

  attached-IsSound :
      (c : Context) (s : Server W) → IsSound s → IsSound (record s { contexts = c ∷ s.contexts })
  attached-IsSound c s v = record {
    handles = IsValid-mono _ _ s.opaque_handles (λ a h. inr h) v.handles;
    nodes = v.nodes;
    slots = v.slots;
    key_size = v.key_size;
    req_size = v.req_size;
    clean = v.clean;
  }

  refused-IsSound :
      (s : Server W) (closed : List ℕ) → IsSound s → IsSound (record s { closed = closed })
  refused-IsSound s closed v = record {
    handles = v.handles;
    nodes = v.nodes;
    slots = v.slots;
    key_size = v.key_size;
    req_size = v.req_size;
    clean = v.clean;
  }

  -- From a sound state and for an event that is no port error, a connection is accepted or refused
  -- with the service sound, whatever `accept`, `calloc` and `set_cookie` return.
  pub hwkey_port_handler-IsSound :
      (errors : Event → Run (Unit {0})) (allowed : Uuid → Bool) (ev : Event) (accepted : ℤ)
      (peer : Uuid) (fresh : Option ℕ) (cookie : ℤ) (s : Server W)
      → errors ev ≡ ok tt
      → IsSound s
      → Returns IsSound (hwkey_port_handler errors allowed ev accepted peer fresh cookie s)
  unfolding hwkey_port_handler
  hwkey_port_handler-IsSound errors allowed ev (negsuc e) peer fresh cookie s h v =
      elim (Bool-cases ev.ready) [ inl r ↦ rw (h, r) v | inr r ↦ rw (h, r) v ]
  hwkey_port_handler-IsSound errors allowed ev (pos chan) peer none cookie s h v =
      elim (Bool-cases ev.ready) [
        | inr r ↦ rw (h, r) v
        | inl r ↦ elim (Bool-cases (allowed peer)) [
          | inl a ↦ rw (h, r, a) (refused-IsSound s (chan ∷ s.closed) v)
          | inr a ↦ rw (h, r, a) (refused-IsSound s (chan ∷ s.closed) v)
        ]
      ]
  hwkey_port_handler-IsSound errors allowed ev (pos chan) peer (some addr) cookie s h v =
      let c : Context = record { addr = addr; chan = chan; uuid = peer } in
      let t = record s { contexts = c ∷ s.contexts } in
      elim (Bool-cases ev.ready) [
        | inr r ↦ rw (h, r) v
        | inl r ↦ elim (Bool-cases (allowed peer)) [
          | inr a ↦ rw (h, r, a) (refused-IsSound s (chan ∷ s.closed) v)
          | inl a ↦ elim (Bool-cases (is_neg cookie)) [
            | inl n ↦ rw (h, r, a, n) (hwkey_ctx_close-IsSound c t (attached-IsSound c s v))
            | inr n ↦ rw (h, r, a, n) (attached-IsSound c s v)
          ]
        ]
      ]
