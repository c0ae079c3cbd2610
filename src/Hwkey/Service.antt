-- ===== src/Hwkey/Service.antt =====
-- The commands, the event handlers and the start of the key service in hwcrypto/hwkey_srv.c. The
-- contexts are a list; a context is taken from it by its address.
pub mod Invariant
pub mod Events
pub mod Requests
pub mod TokenReply
pub mod Session
pub mod Install
pub mod Tests
use trusty_app_sample.Common.{
  Bool, Event, List, Option, Run, [], assert, bit_or, fault, if◌then◌else◌, is_neg, is_some,
  is_zero, leb, length, ltb, negsuc, none, not, ok, out_of_bounds, overlay, pos, replicate,
  size_sub, some, take, write, ℕ, ℤ, ◌==◌, ◌>>=◌, ◌>>◌, ◌∷◌,
}
use trusty_app_sample.Hwkey.Model.{
  Context, Device, KeyOut, Keyslot, Node, Retriever, Status, Uuid, not_implemented,
}
use trusty_app_sample.Hwkey.Handles.{delete_owned, handle_slots}

-- Numbers of interface/hwkey/hwkey.h.
pub record Protocol : Type 0 where
  -- `HWKEY_GET_KEYSLOT`, `HWKEY_DERIVE`, `HWKEY_RESP_BIT`
  pub get_keyslot : ℕ
  pub derive : ℕ
  pub resp_bit : ℕ
  -- `HWKEY_KDF_VERSION_BEST`, `HWKEY_KDF_VERSION_1`
  pub kdf_best : ℕ
  pub kdf_v1 : ℕ
  -- `sizeof(struct hwkey_msg)`
  pub msg_size : ℕ

-- `struct hwkey_msg`, as far as the service reads or writes it.
pub record Header : Type 0 where
  pub cmd : ℕ
  pub arg1 : ℕ
  pub status : Status

-- What `tipc_recv_hdr_payload` gives: its result, the header, and the payload bytes.
pub record Received : Type 0 where
  pub rc : ℤ
  pub hdr : Header
  pub payload : List ℕ

pub record Reply : Type 0 where
  pub chan : ℕ
  pub hdr : Header
  pub payload : List ℕ

-- The static variables, the live contexts, the closed handles and the replies sent, newest first.
pub record Server (W : Type 0) : Type 0 where
  pub contexts : List Context
  pub opaque_handles : List (Node W)
  pub key_slots : Option (List (Keyslot W))
  pub req_data : List ℕ
  pub key_data : List ℕ
  pub closed : List ℕ
  pub sent : List Reply
  pub world : W

-- `derive_key_v1`, of the provider, for a uuid and the input key material.
abbrev pub Kdf : Type 0 → Type 0
Kdf W = Uuid → List ℕ → Retriever W

-- `memset(buf, 0, n)`
unfoldable pub clear : ℕ → List ℕ → Run (List ℕ)
clear n buf = if leb n (length buf) then ok (overlay (replicate n 0) buf) else fault out_of_bounds

-- `memcpy` of a payload into a buffer.
unfoldable pub store : List ℕ → List ℕ → Run (List ℕ)
store src buf = if leb (length src) (length buf) then ok (overlay src buf) else fault out_of_bounds

remove_context : ℕ → List Context → List Context
remove_context addr [] = []
remove_context addr (c ∷ cs) =
    let rest = remove_context addr cs in if c.addr == addr then rest else c ∷ rest

module _ {W : Type 0} where
  pub hwkey_ctx_close : Context → Server W → Server W
  unfolding remove_context
  hwkey_ctx_close ctx s = record s {
    opaque_handles = delete_owned ctx.addr s.opaque_handles;
    contexts = remove_context ctx.addr s.contexts;
    closed = ctx.chan ∷ s.closed;
  }

  module _ (k : Protocol) (send : Reply → W → ℤ × W) where
    pub hwkey_send_rsp : Context → Header → (rsp_data : List ℕ) → Server W → ℤ × Server W
    hwkey_send_rsp ctx hdr rsp_data s =
        let rsp : Reply = record {
          chan = ctx.chan;
          hdr = record hdr { cmd = bit_or hdr.cmd k.resp_bit };
          payload = rsp_data;
        } in
        let (rc, w) = send rsp s.world in (rc, record s { world = w; sent = rsp ∷ s.sent })

    -- The end of both commands: the reply, and then the key buffer is sanitized.
    pub reply_and_clear : Context → Header → KeyOut → Server W → Run (ℤ × Server W)
    unfolding hwkey_send_rsp clear
    reply_and_clear ctx hdr out s =
        let (rc, s') =
          hwkey_send_rsp ctx (record hdr { status = out.status }) (take out.klen out.kbuf) s in
        clear out.klen out.kbuf >>= λ key_data. ok (rc, record s' { key_data = key_data })

    module _ (dev : Device W) (fuel : ℕ) (kdf : Kdf W) where
      -- `slot_id` is the request buffer.
      pub hwkey_handle_get_keyslot_cmd : Context → Header → Server W → Run (ℤ × Server W)
      unfolding reply_and_clear
      hwkey_handle_get_keyslot_cmd ctx hdr s = do
        (out, nodes, w) ←
            handle_slots dev fuel ctx s.opaque_handles s.key_data 0 s.req_data s.key_slots s.world
        reply_and_clear ctx hdr out (record s { opaque_handles = nodes; world = w })

      -- `HWKEY_KDF_VERSION_BEST` stands for version 1, the only one.
      abbrev pub kdf_version : ℕ → ℕ
      kdf_version v = if v == k.kdf_best then k.kdf_v1 else v

      pub hwkey_handle_derive_key_cmd :
          Context → Header → (ikm_data : List ℕ) → Server W → Run (ℤ × Server W)
      unfolding reply_and_clear
      hwkey_handle_derive_key_cmd ctx hdr ikm_data s =
          let hdr' = record hdr { arg1 = kdf_version hdr.arg1 } in
          if hdr'.arg1 == k.kdf_v1
          then kdf ctx.uuid ikm_data s.key_data (length s.key_data) s.world
            >>= (λ r. reply_and_clear ctx hdr' r.0 (record s { world = r.1 }))
          else reply_and_clear ctx hdr'
              (record { status = not_implemented; kbuf = s.key_data; klen = 0 }) s

      -- The request is in `req_data`; `n` is the length of its payload.
      pub dispatch_cmd : Context → Header → (n : ℕ) → Server W → Run (ℤ × Server W)
      unfolding hwkey_handle_get_keyslot_cmd hwkey_handle_derive_key_cmd
      dispatch_cmd ctx hdr n s =
          if hdr.cmd == k.get_keyslot
          then write s.req_data n 0
            >>= (λ req. hwkey_handle_get_keyslot_cmd ctx hdr (record s { req_data = req }))
          else if hdr.cmd == k.derive
          then hwkey_handle_derive_key_cmd ctx hdr (take n s.req_data) s
            >>= (λ r. clear n r.1.req_data >>= λ req. ok (r.0, record (r.1) { req_data = req }))
          else ok (hwkey_send_rsp ctx (record hdr { status = not_implemented }) [] s)

      pub hwkey_chan_handle_msg : Context → Received → Server W → Run (ℤ × Server W)
      unfolding store dispatch_cmd
      hwkey_chan_handle_msg ctx r s = elim r.rc [
        | negsuc e ↦ ok (negsuc e, s)
        | pos rc ↦ store r.payload s.req_data >>= λ req.
            dispatch_cmd ctx r.hdr (size_sub rc k.msg_size) (record s { req_data = req })
      ]

      abbrev pub close_on_error : Context → ℤ × Server W → Server W
      close_on_error ctx (rc, s) = if is_neg rc then hwkey_ctx_close ctx s else s

      -- The event is for a live context, and `r` is what a receive gives if there is a message. The
      -- first assertions are those of `invoke` in `App`, which has the handle of the event.
      pub hwkey_chan_handler :
          (handle_chan_errors : Event → Run (Unit {0}))
          → Event
          → Context
          → Received
          → Server W
          → Run (Server W)
      unfolding hwkey_chan_handle_msg hwkey_ctx_close
      hwkey_chan_handler handle_chan_errors ev ctx r s =
          handle_chan_errors ev
          >> (if ev.hup
              then ok (hwkey_ctx_close ctx s)
              else if ev.msg
              then hwkey_chan_handle_msg ctx r s >>= (λ q. ok (close_on_error ctx q))
              else ok s)

  -- `accepted` is what `accept` gives, with the peer's uuid; `fresh` is the address that `calloc`
  -- gives, if any; `cookie` is the result of `set_cookie`.
  pub hwkey_port_handler :
      (handle_port_errors : Event → Run (Unit {0})) (client_allowed : Uuid → Bool)
      → Event
      → (accepted : ℤ) (peer_uuid : Uuid) (fresh : Option ℕ) (cookie : ℤ) → Server W
      → Run (Server W)
  unfolding hwkey_ctx_close
  hwkey_port_handler handle_port_errors client_allowed ev accepted peer_uuid fresh cookie s =
      handle_port_errors ev >> ok (if ev.ready then connect accepted else s)
    where
      attach : Context → Server W
      attach ctx =
          let s' = record s { contexts = ctx ∷ s.contexts } in
          if is_neg cookie then hwkey_ctx_close ctx s' else s'

      connect : ℤ → Server W
      connect (negsuc e) = s
      connect (pos chan) =
          if client_allowed peer_uuid
          then elim fresh [
            | none ↦ record s { closed = chan ∷ s.closed }
            | some addr ↦ attach (record { addr = addr; chan = chan; uuid = peer_uuid })
          ]
          else record s { closed = chan ∷ s.closed }

  -- The key slots are installed once, and there is at least one.
  pub hwkey_install_keys : List (Keyslot W) → Server W → Run (Server W)
  hwkey_install_keys keys s = do
    assert (not (is_some s.key_slots))
    assert (ltb 0 (length keys))
    ok (record s { key_slots = some keys })

-- The result, and the handle that is closed again when `set_cookie` fails.
pub hwkey_start_service : (created cookie : ℤ) → ℤ × Option ℕ
hwkey_start_service (negsuc e) cookie = (negsuc e, none)
hwkey_start_service (pos port) cookie =
    if is_zero cookie then (pos 0, none) else (cookie, some port)
