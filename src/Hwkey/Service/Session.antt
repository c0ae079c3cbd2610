-- ===== src/Hwkey/Service/Session.antt =====
-- A session with an opaque key: its owner is given a token, and a client that may read the key sends
-- that token.
use trusty_app_sample.Common.{
  All, All-append, Bool-cases, List, Option, Run, [], ap, arith, fault, if◌then◌else◌, inl, inr,
  length, none, ok, refl, some, subst, sym, take, true, ℕ, ℤ, ◌++◌, ◌+◌, ◌>>=◌, ◌∙◌, ◌∷◌, ◌≡◌, ◌≤◌,
}
use trusty_app_sample.Hwkey.Model.{
  Context, Device, KeyOut, Keyslot, Node, OpaqueData, key_handle, max_payload_size, no_error,
}
use trusty_app_sample.Hwkey.Handles.Close.{All-delete_owned}
use trusty_app_sample.Hwkey.Handles.Lifecycle.{
  delete_owned-append, first_reader-append, first_reader-delete_owned, names_token-IsToken,
}
use trusty_app_sample.Hwkey.Service.{
  Kdf, Protocol, Received, Reply, Server, hwkey_chan_handle_msg, hwkey_ctx_close, reply_and_clear,
}
use trusty_app_sample.Hwkey.Handles.Lookup.{IsTokenNode, first_reader, names_token}
use trusty_app_sample.Hwkey.Handles.Slots.{find_slot, lookup_key}
use trusty_app_sample.Hwkey.Service.Requests.{hwkey_chan_handle_msg_lem}
use trusty_app_sample.Hwkey.Handles.{
  delete_owned, is_allowed_to_read_opaque_key, keep_nodes, new_node,
}
use trusty_app_sample.Hwkey.Service.Invariant.{IsSound}
use trusty_app_sample.Hwkey.Service.TokenReply.{IsKeyRequest, ask-HasToken, no_key, received}

module _ {W : Type 0} where
  bind_keep :
      {B : Type 0} (nodes : List (Node W)) (m : Run (KeyOut × W))
      (f : KeyOut × List (Node W) × W → Run B)
      → (m >>= keep_nodes nodes >>= f) ≡ (m >>= λ q. f (q.0, nodes, q.1))
  bind_keep nodes (ok a) f = refl
  bind_keep nodes (fault x) f = refl

  bind_reader :
      {B : Type 0} (nodes : List (Node W)) (out : KeyOut) (w : W) (kbuf : List ℕ)
      (f : KeyOut × List (Node W) × W → Run B) (n : Option (Node W))
      → (elim n [
        | none ↦ ok (out, nodes, w)
        | some n ↦ n.handle.retriever kbuf 0 w >>= keep_nodes nodes
      ]
          >>= f)
        ≡ elim n [
          | none ↦ f (out, nodes, w)
          | some n ↦ n.handle.retriever kbuf 0 w >>= λ q. f (q.0, nodes, q.1)
        ]
  bind_reader nodes out w kbuf f none = refl
  bind_reader nodes out w kbuf f (some n) = bind_keep nodes (n.handle.retriever kbuf 0 w) f

  module _ (k : Protocol) (send : Reply → W → ℤ × W) where
    -- The answer to a client that sends a token: the key behind it, if the client may read it.
    abbrev pub answer_token : Context → Received → OpaqueData W → Server W → Run (ℤ × Server W)
    answer_token ctx msg handle t =
        if is_allowed_to_read_opaque_key ctx.uuid handle
        then handle.retriever t.key_data 0 t.world >>= (λ q.
          reply_and_clear k send ctx msg.hdr q.0 (record (received msg t) { world = q.1 }))
        else reply_and_clear k send ctx msg.hdr (no_key t.key_data) (received msg t)

  module _ (k : Protocol) (send : Reply → W → ℤ × W) (dev : Device W) (fuel : ℕ) (kdf : Kdf W)
      (slots : List (Keyslot W)) where
    -- A request that is no key slot's is answered by the first node that the client may read.
    token_request :
        (ctx : Context) (r : Received) (s : Server W)
        → All IsTokenNode s.opaque_handles
        → s.key_slots ≡ some slots
        → length s.req_data ≡ max_payload_size + 1
        → 32 ≤ length s.key_data
        → IsKeyRequest k r
        → find_slot ctx r.payload 0 slots ≡ none
        → hwkey_chan_handle_msg k send dev fuel kdf ctx r s
          ≡ elim (first_reader ctx.uuid r.payload s.opaque_handles) [
            | none ↦ reply_and_clear k send ctx r.hdr (no_key s.key_data) (received r s)
            | some n ↦ n.handle.retriever s.key_data 0 s.world >>= λ q.
                reply_and_clear k send ctx r.hdr q.0 (record (received r s) { world = q.1 })
          ]
    unfolding lookup_key
    token_request ctx r s a slots_at size key_size h f =
        hwkey_chan_handle_msg_lem k send dev fuel kdf ctx r s slots a slots_at h.rc h.fits h.cmd
          (omega (arith, h.room, size)) key_size
        ∙ rw (f, lookup_key)
            (bind_reader s.opaque_handles (no_key s.key_data) s.world s.key_data _
              (first_reader ctx.uuid r.payload s.opaque_handles))

    answered :
        (client : Context) (msg : Received) (t : Server W) (n : Node W)
        → first_reader client.uuid msg.payload t.opaque_handles
          ≡ (if is_allowed_to_read_opaque_key client.uuid n.handle then some n else none)
        → elim (first_reader client.uuid msg.payload t.opaque_handles) [
          | none ↦ reply_and_clear k send client msg.hdr (no_key t.key_data) (received msg t)
          | some n ↦ n.handle.retriever t.key_data 0 t.world >>= λ q.
              reply_and_clear k send client msg.hdr q.0 (record (received msg t) { world = q.1 })
        ]
          ≡ answer_token k send client msg n.handle t
    answered client msg t n e =
        rw e (elim (Bool-cases (is_allowed_to_read_opaque_key client.uuid n.handle)) [
          | inl may ↦ rw may refl
          | inr may_not ↦ rw may_not refl
        ])

    after_close :
        (owner client : Context) (msg : Received) (s t : Server W) (n : Node W)
        → IsSound s
        → s.key_slots ≡ some slots
        → t.opaque_handles ≡ s.opaque_handles ++ n ∷ []
        → n.owner ≡ owner.addr
        → t.key_slots ≡ s.key_slots
        → length t.req_data ≡ max_payload_size + 1
        → 32 ≤ length t.key_data
        → IsKeyRequest k msg
        → find_slot client msg.payload 0 slots ≡ none
        → first_reader client.uuid msg.payload s.opaque_handles ≡ none
        → hwkey_chan_handle_msg k send dev fuel kdf client msg (hwkey_ctx_close owner t)
          ≡ reply_and_clear k send client msg.hdr
              (no_key t.key_data)
              (received msg (hwkey_ctx_close owner t))
    unfolding hwkey_ctx_close
    after_close owner client msg s t n v slots_at nodes owned same size key_room h no_slot unused =
        let left : delete_owned owner.addr t.opaque_handles
            ≡ delete_owned owner.addr s.opaque_handles =
          ap (delete_owned owner.addr) nodes
          ∙ delete_owned-append owner.addr s.opaque_handles n owned in
        token_request client msg (hwkey_ctx_close owner t)
          (subst (All IsTokenNode) (sym left)
            (All-delete_owned owner.addr IsTokenNode s.opaque_handles v.handles.tokens))
          (same ∙ slots_at) size key_room h no_slot
        ∙ rw
            (ap (first_reader client.uuid msg.payload) left
              ∙ first_reader-delete_owned client.uuid msg.payload owner.addr s.opaque_handles
                  unused)
            refl

    -- A token opens its key, and nothing after its owner is closed. The owner of the slot of an
    -- opaque key has asked a sound service for it and has been answered with `no_error`. Then
    -- whoever sends the bytes of the answer as a request is given the key behind the slot, if
    -- the slot allows it to read that key, and `not_found` if not; and after the channel of the
    -- owner is closed, everyone is given `not_found`. For a client for which the bytes are no
    -- name of a key slot and no token that was given before.
    pub token_session :
        (owner client : Context) (ask msg : Received) (s t : Server W) (slot : ℕ)
        (handle : OpaqueData W) (rc : ℤ) (rsp : Reply)
        → IsSound s
        → s.key_slots ≡ some slots
        → IsKeyRequest k ask
        → find_slot owner ask.payload 0 slots ≡ some (slot, key_handle handle)
        → hwkey_chan_handle_msg k send dev fuel kdf owner ask s ≡ ok (rc, t)
        → t.sent ≡ rsp ∷ s.sent
        → rsp.hdr.status ≡ no_error
        → IsKeyRequest k msg
        → msg.payload ≡ rsp.payload
        → find_slot client msg.payload 0 slots ≡ none
        → first_reader client.uuid msg.payload s.opaque_handles ≡ none
        → (hwkey_chan_handle_msg k send dev fuel kdf client msg t
            ≡ answer_token k send client msg handle t)
          × (hwkey_chan_handle_msg k send dev fuel kdf client msg (hwkey_ctx_close owner t)
              ≡ reply_and_clear k send client msg.hdr
                  (no_key t.key_data)
                  (received msg (hwkey_ctx_close owner t)))
    token_session owner client ask msg s t slot handle rc rsp v slots_at h f e sent good h' same
          no_slot unused =
        let g =
          ask-HasToken k send dev fuel kdf slots owner ask s slot handle rc t rsp v slots_at h f e
            sent good in
        let n : Node W = record (new_node owner.addr slot handle) { token = g.token } in
        let named : names_token (take 31 g.token) msg.payload ≡ true =
          rw (same ∙ g.payload) (names_token-IsToken g.is_token) in
        (
          token_request client msg t
                (subst (All IsTokenNode) (sym g.nodes) (
                  All-append IsTokenNode s.opaque_handles (n ∷ []) v.handles.tokens
                    (g.is_token, tt)))
                (g.slots_at ∙ slots_at) g.req_size g.key_room h' no_slot
              ∙ answered client msg t n (
                  ap (first_reader client.uuid msg.payload) g.nodes
                  ∙ first_reader-append client.uuid msg.payload s.opaque_handles n unused named),
          after_close owner client msg s t n v slots_at g.nodes refl g.slots_at g.req_size
              g.key_room h' no_slot unused,
        )
