-- ===== src/Hwkey/Service/TokenReply.antt =====
-- What asking for an opaque key leaves: a node whose token was sent to the owner of the slot.
use trusty_app_sample.Common.{
  Bool-cases, Fault, List, Run, [], ap, arith, drop, fault, inl, inr, leb, length, length-append,
  length-drop, length-overlay, length-replicate, ok, overlay, pos, refl, replicate, some, suc, sym,
  take, ℕ, ℤ, ◌++◌, ◌+◌, ◌<◌, ◌>>=◌, ◌^◌, ◌∙◌, ◌∷◌, ◌≡◌, ◌≤◌,
}
use trusty_app_sample.Hwkey.Model.{
  Context, Device, KeyOut, Keyslot, OpaqueData, handle_size, key_handle, max_payload_size, no_error,
  not_found,
}
use trusty_app_sample.Hwkey.Handles.Lifecycle.{lookup_key-IsGranted, ok_eq, take-overlay_token}
use trusty_app_sample.Hwkey.Service.{
  Header, Kdf, Protocol, Received, Reply, Server, clear, hwkey_chan_handle_msg, hwkey_send_rsp,
  reply_and_clear,
}
use trusty_app_sample.Hwkey.Handles.Slots.{find_slot, lookup_key}
use trusty_app_sample.Hwkey.Service.Requests.{hwkey_chan_handle_msg_lem}
use trusty_app_sample.Hwkey.Handles.{new_node}
use trusty_app_sample.Hwkey.Token.Laws.{IsToken}
use trusty_app_sample.Hwkey.Service.Invariant.{IsSound}

-- A message that asks for a key slot, or for the key behind a token.
pub record IsKeyRequest (k : Protocol) (r : Received) : Type 0 where
  pub rc : r.rc ≡ pos (k.msg_size + length r.payload)
  pub fits : k.msg_size + length r.payload < 2 ^ 64
  pub cmd : r.hdr.cmd ≡ k.get_keyslot
  pub room : length r.payload ≤ max_payload_size

abbrev pub no_key : List ℕ → KeyOut
no_key kbuf = record { status = not_found; kbuf = kbuf; klen = 0 }

bind_inv :
    {A B : Type 0} (m : Run A) (f : A → Run B) (b : B)
    → (m >>= f) ≡ ok b
    → (a : A) × (m ≡ ok a) × (f a ≡ ok b)
bind_inv (ok a) f b e = (a, refl, e)
bind_inv (fault x) f b e = cc

-- What the answer to the owner of an opaque key slot leaves, if it is a token.
pub record HasToken {W : Type 0} (owner : Context) (slot : ℕ) (handle : OpaqueData W) (rsp : Reply)
    (s t : Server W) : Type 0 where
  pub token : List ℕ
  pub is_token : IsToken token
  pub nodes :
      t.opaque_handles
      ≡ s.opaque_handles ++ record (new_node owner.addr slot handle) { token = token } ∷ []
  pub slots_at : t.key_slots ≡ s.key_slots
  pub req_size : length t.req_data ≡ max_payload_size + 1
  pub key_room : 32 ≤ length t.key_data
  pub payload : rsp.payload ≡ token

sent_token :
    {t : List ℕ} (kbuf : List ℕ) (out : KeyOut)
    → out.klen ≡ handle_size
    → out.kbuf ≡ overlay t kbuf
    → IsToken t
    → take out.klen out.kbuf ≡ t
sent_token kbuf out n e v = rw (n, e) (take-overlay_token kbuf v)

head_eq : {A : Type 0} {x y : A} {xs ys : List A} → x ∷ xs ≡ y ∷ ys → x ≡ y
head_eq p = cc

clear-size : (n : ℕ) (buf after : List ℕ) → clear n buf ≡ ok after → length after ≡ length buf
unfolding clear
clear-size n buf after e = elim (Bool-cases (leb n (length buf))) [
  | inl fits ↦
      ap length (sym (ok_eq (rw fits at e)))
      ∙ length-overlay (replicate n 0) buf (ground (arith, length-replicate {A = ℕ} n 0))
  | inr over ↦ absurd (no_fault (rw over at e))
]
  where
    no_fault : {x : Fault} {a : List ℕ} → fault x ≡ ok a → ⊥
    no_fault p = cc

token_size : {t : List ℕ} → IsToken t → length t ≡ 32
token_size v = omega (arith, ap length v.terminated, length-append v.text (0 ∷ []), v.size)

module _ {W : Type 0} where
  -- The server when a request has been received.
  abbrev pub received : Received → Server W → Server W
  received r s = record s { req_data = r.payload ++ 0 ∷ drop (suc (length r.payload)) s.req_data }

  module _ (k : Protocol) (send : Reply → W → ℤ × W) where
    -- What a reply changes.
    pub record IsReplied (hdr : Header) (out : KeyOut) (s t : Server W) : Type 0 where
      pub nodes : t.opaque_handles ≡ s.opaque_handles
      pub slots : t.key_slots ≡ s.key_slots
      pub req : t.req_data ≡ s.req_data
      pub key_size : length t.key_data ≡ length out.kbuf
      pub reply :
          (rsp : Reply) × (t.sent ≡ rsp ∷ s.sent)
          × (rsp.payload ≡ take out.klen out.kbuf)
          × (rsp.hdr.status ≡ out.status)

    reply_and_clear-IsReplied :
        (ctx : Context) (hdr : Header) (out : KeyOut) (s : Server W) (rc : ℤ) (t : Server W)
        → reply_and_clear k send ctx hdr out s ≡ ok (rc, t)
        → IsReplied hdr out s t
    unfolding reply_and_clear hwkey_send_rsp
    reply_and_clear-IsReplied ctx hdr out s rc t e =
        let (key_data, cleared, p) = bind_inv (clear out.klen out.kbuf) _ (rc, t) e in
        let q = sym (ap (λ x. x.1) (ok_eq p)) in
        record {
          nodes = ap (λ x. x.opaque_handles) q;
          slots = ap (λ x. x.key_slots) q;
          req = ap (λ x. x.req_data) q;
          key_size = ap (λ x. length x.key_data) q ∙ clear-size out.klen out.kbuf key_data cleared;
          reply = (_, ap (λ x. x.sent) q, refl, refl);
        }

    module _ (dev : Device W) (fuel : ℕ) (kdf : Kdf W) (slots : List (Keyslot W)) where
      received_size :
          (r : Received) (s : Server W)
          → length s.req_data ≡ max_payload_size + 1
          → length r.payload ≤ max_payload_size
          → length (received r s).req_data ≡ max_payload_size + 1
      received_size r s size room = omega (
        arith,
        length-append r.payload (0 ∷ drop (suc (length r.payload)) s.req_data),
        length-drop (suc (length r.payload)) s.req_data,
      )

      pub ask-HasToken :
          (owner : Context) (ask : Received) (s : Server W) (slot : ℕ) (handle : OpaqueData W)
          (rc : ℤ) (t : Server W) (rsp : Reply)
          → IsSound s
          → s.key_slots ≡ some slots
          → IsKeyRequest k ask
          → find_slot owner ask.payload 0 slots ≡ some (slot, key_handle handle)
          → hwkey_chan_handle_msg k send dev fuel kdf owner ask s ≡ ok (rc, t)
          → t.sent ≡ rsp ∷ s.sent
          → rsp.hdr.status ≡ no_error
          → HasToken owner slot handle rsp s t
      ask-HasToken owner ask s slot handle rc t rsp v slots_at h f e sent good =
          let run =
            sym (
              hwkey_chan_handle_msg_lem k send dev fuel kdf owner ask s slots v.handles.tokens
                slots_at h.rc h.fits h.cmd (omega (arith, h.room, v.req_size))
                (omega (arith, v.key_size)))
            ∙ e in
          let (q, looked, replied) =
            bind_inv
              (lookup_key dev fuel owner s.opaque_handles s.key_data 0 ask.payload slots s.world) _
              (rc, t) run in
          let r =
            reply_and_clear-IsReplied owner ask.hdr q.0
              (record (received ask s) { opaque_handles = q.1; world = q.2 }) rc t replied in
          let (rsp', sent', payload', status') = r.reply in
          let same : rsp' ≡ rsp = head_eq (sym sent' ∙ sent) in
          let g =
            lookup_key-IsGranted dev fuel owner s.opaque_handles s.key_data ask.payload 0 slot
              handle slots s.world q.0 q.1 q.2 f looked
              (sym status' ∙ ap (λ x. x.hdr.status) same ∙ good) in
          record {
            token = g.token;
            is_token = g.is_token;
            nodes = r.nodes ∙ g.list;
            slots_at = r.slots;
            key_room =
                let kept : length (overlay g.token s.key_data) ≡ length s.key_data =
                  length-overlay g.token s.key_data
                    (omega (arith, v.key_size, token_size g.is_token)) in
                omega (arith, r.key_size, ap length g.kbuf_after, kept, v.key_size);
            req_size = ap length r.req ∙ received_size ask s v.req_size h.room;
            payload =
                sym (ap (λ x. x.payload) same)
                ∙ payload'
                ∙ sent_token s.key_data q.0 g.klen_after g.kbuf_after g.is_token;
          }
