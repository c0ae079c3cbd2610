-- ===== src/Keybox/Service.antt =====
-- hwcrypto/keybox/srv.c: the service that takes wrapped key boxes over a channel. What `tipc_*`,
-- `accept`, `set_cookie`, `port_create` and `calloc` return are arguments.
pub mod Requests
pub mod Channels
mod Tests
use trusty_app_sample.Common.{
  Bool, Event, IsSafe, List, Option, Run, bit_or, false, fault, if◌then◌else◌, is_neg, is_zero, ltb,
  negsuc, none, ok, pos, size_sub, some, take, true, use_after_free, ℕ, ℤ, ◌+◌, ◌==◌, ◌>>=◌, ◌>>◌,
  ◌^◌, ◌∷◌, ◌≡◌,
}
use trusty_app_sample.Keybox.Unwrap.{
  Status, Unwrapped, internal_error, invalid_request, keybox_unwrap, success, unwrap_fail,
}

-- Sizes and numbers of interface/keybox/keybox.h.
pub record Interface : Type 0 where
  -- `KEYBOX_MAX_SIZE`
  pub max_size : ℕ
  -- `sizeof(struct keybox_req)` and `sizeof(struct keybox_unwrap_req)`
  pub req_size : ℕ
  pub unwrap_req_size : ℕ
  -- `KEYBOX_CMD_UNWRAP` and `KEYBOX_CMD_RSP_BIT`
  pub cmd_unwrap : ℕ
  pub rsp_bit : ℕ

-- `struct full_keybox_unwrap_req`: the header's `wrapped_keybox_len`, and the bytes behind it.
pub record UnwrapReq : Type 0 where
  pub wrapped_keybox_len : ℕ
  pub wrapped_keybox : List ℕ

-- `sizeof(struct full_keybox_req)`, whose members leave no padding.
abbrev pub full_req_size : Interface → ℕ
full_req_size k = k.req_size + (k.unwrap_req_size + k.max_size)

-- A message that is sent: `struct keybox_resp` alone, or the whole answer and its payload.
pub data Message : Type 0 where
  header : (cmd : ℕ) (status : Status) → Message
  unwrapped : (cmd : ℕ) (status : Status) (unwrapped_keybox_len : ℕ) (payload : List ℕ) → Message

-- `__builtin_add_overflow` on `uint64_t`: `none` when the sum does not fit.
add_overflow : ℕ → ℕ → Option ℕ
add_overflow a b = if ltb (a + b) (2 ^ 64) then some (a + b) else none

module _ (k : Interface) (send : Message → ℤ) where
  abbrev pub refuse : Status → ℤ × Message
  refuse s =
      (send (header (bit_or k.cmd_unwrap k.rsp_bit) s), header (bit_or k.cmd_unwrap k.rsp_bit) s)

  -- The end of `keybox_handle_unwrap`: the whole answer on success, and `out:` otherwise.
  answer : Unwrapped → ℤ × Message
  answer u = elim u.status [
    | success ↦ (send full, full)
    | invalid_request ↦ refuse invalid_request
    | unwrap_fail ↦ refuse unwrap_fail
    | internal_error ↦ refuse internal_error
  ]
    where
      full : Message
      full =
          unwrapped (bit_or k.cmd_unwrap k.rsp_bit) success u.plaintext_len
            (take u.plaintext_len u.plaintext)

  -- `output` is the uninitialised buffer on the stack.
  pub keybox_handle_unwrap : (output : List ℕ) → UnwrapReq → (req_size : ℕ) → Run (ℤ × Message)
  unfolding add_overflow answer
  keybox_handle_unwrap output req req_size =
      if ltb req_size k.unwrap_req_size
      then ok (refuse invalid_request)
      else elim (add_overflow req.wrapped_keybox_len k.unwrap_req_size) [
        | none ↦ ok (refuse invalid_request)
        | some computed_size ↦
            if computed_size == req_size
            then keybox_unwrap req.wrapped_keybox req.wrapped_keybox_len output k.max_size 0
              >>= (λ u. ok (answer u))
            else ok (refuse invalid_request)
      ]

-- What `tipc_recv1` leaves in `struct full_keybox_req`, with its result.
pub record Received : Type 0 where
  pub rc : ℤ
  pub cmd : ℕ
  pub unwrap : UnwrapReq

module _ (k : Interface) (send : Message → ℤ) where
  abbrev pub status_of : ℤ → Status
  status_of rc = if is_neg rc then internal_error else success

  -- `rsp` of the default case.
  abbrev pub invalid_rsp : ℕ → Message
  invalid_rsp cmd = header (bit_or cmd k.rsp_bit) invalid_request

  -- The status, and the message that was sent.
  pub keybox_handle_msg : (output : List ℕ) → Received → Run (Status × Option Message)
  keybox_handle_msg output r = elim r.rc [
    | negsuc e ↦ ok (internal_error, none)
    | pos n ↦
        if r.cmd == k.cmd_unwrap
        then keybox_handle_unwrap k send output r.unwrap (size_sub n k.req_size)
          >>= (λ sent. ok (status_of sent.0, some sent.1))
        else ok (status_of (send (invalid_rsp r.cmd)), some (invalid_rsp r.cmd))
  ]

-- `struct keybox_chan_ctx` of a channel: allocated, or closed and freed.
pub data Context : Type 0 where
  live freed : Context

-- `close(ctx->chan)` reads the context, so it faults on one that is freed.
pub keybox_shutdown : Context → Run Context
keybox_shutdown live = ok freed
keybox_shutdown freed = fault use_after_free

-- `if (rc)`: the status as a C condition; `KEYBOX_STATUS_SUCCESS` is 0.
abbrev pub is_failure : Status → Bool
is_failure success = false
is_failure _ = true

module _ (handle_chan_errors : Event → Run (Unit {0})) (handle_msg : Run Status) where
  abbrev pub shutdown_if : Bool → Context → Run Context
  shutdown_if true c = keybox_shutdown c
  shutdown_if false c = ok c

  -- The first assertions, that there is a context and that the event is of its channel, are those of
  -- `invoke` in `App`, which has the handle of the event.
  pub keybox_chan_handler : Event → Context → Run Context
  keybox_chan_handler ev ctx = do
    handle_chan_errors ev
    rc ← if ev.msg then handle_msg else ok success
    ctx' ← shutdown_if ev.hup ctx
    shutdown_if (is_failure rc) ctx'

-- The channels with a context, and the handles that were closed.
pub record Server : Type 0 where
  pub contexts : List ℕ
  pub closed : List ℕ

-- `accepted` is what `accept` returns, `allocated` whether `calloc` succeeds, and `cookie` what
-- `set_cookie` returns.
pub keybox_port_handler :
    (handle_port_errors : Event → Run (Unit {0})) (accepted : ℤ) (allocated : Bool) (cookie : ℤ)
    → Event
    → Server
    → Run Server
keybox_port_handler handle_port_errors accepted allocated cookie ev s = do
  handle_port_errors ev
  ok (if ev.ready then connect accepted else s)
  where
    connect : ℤ → Server
    connect (negsuc e) = s
    connect (pos chan) =
        if allocated
        then if is_zero cookie
          then record s { contexts = chan ∷ s.contexts }
          else record s { closed = chan ∷ s.closed }
        else record s { closed = chan ∷ s.closed }

-- The result, and the port that is kept open. The result of `set_cookie` is not looked at, and
-- without a port `close` is called on `INVALID_IPC_HANDLE`, which changes nothing.
pub keybox_start_service : (created : ℤ) → ℤ × Option ℕ
keybox_start_service (negsuc e) = (negsuc e, none)
keybox_start_service (pos port) = (pos 0, some port)

pub keybox_port_handler-IsSafe :
    (errors : Event → Run (Unit {0})) (accepted : ℤ) (allocated : Bool) (cookie : ℤ) (ev : Event)
    (s : Server)
    → errors ev ≡ ok tt
    → IsSafe (keybox_port_handler errors accepted allocated cookie ev s)
unfolding keybox_port_handler
keybox_port_handler-IsSafe errors accepted allocated cookie ev s e = rw e tt
