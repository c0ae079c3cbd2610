-- ===== src/Hwrng/Service.antt =====
-- hwcrypto/hwrng_srv.c. A context is in the list `hwrng_req_list` or not, so the state keeps two
-- lists of contexts. What `tipc_*`, `accept`, `set_cookie` and `calloc` return are arguments, and so
-- is the device, over a state `W`. `size_t` has 64 bits.
-- A context that is freed is one in neither list: that a handler gets one that is in a list is said
-- where it is relied on, and no fault stands for the use of one that is freed.
pub mod Pass
pub mod Drain
pub mod Account
pub mod Contexts
pub mod Events
pub mod Requests
pub mod Runs
pub mod Contract
mod Tests
use trusty_app_sample.Common.{
  Bool, Event, IsSafe, List, Option, Run, [], false, if◌then◌else◌, is_some, is_zero, ltb, negsuc,
  none, ok, pos, some, true, ℕ, ℤ, ◌%◌, ◌++◌, ◌+◌, ◌-◌, ◌==◌, ◌>>◌, ◌^◌, ◌∷◌, ◌≡◌,
}

-- `MAX_HWRNG_MSG_SIZE`
abbrev pub max_msg_size : ℕ
max_msg_size = 4096

-- `struct hwrng_chan_ctx`, at the address `addr`.
pub record Context : Type 0 where
  pub addr : ℕ
  pub chan : ℕ
  pub req_size : ℕ
  pub send_blocked : Bool

-- `tipc_send1`: the result is not negative, `ERR_NOT_ENOUGH_BUFFER`, or another error.
pub data Send : Type 0 where
  sent not_enough_buffer send_failed : Send

-- `hwrng_dev_get_rng_data` for a number of bytes, and `tipc_send1` to a channel.
pub record World (W : Type 0) : Type 0 where
  pub get_rng_data : ℕ → W → ℤ × List ℕ × W
  pub send : ℕ → List ℕ → W → Send × W

-- `if (len > MAX_HWRNG_MSG_SIZE) len = MAX_HWRNG_MSG_SIZE;`
pub chunk : ℕ → ℕ
chunk req_size = if ltb max_msg_size req_size then max_msg_size else req_size

-- What becomes of a context of the list in one round of `hwrng_handle_req_queue`: it stays in the
-- list, it stays after a part was sent, it leaves the list, or it is closed.
pub data Fate : Type 0 where
  waits : Context → Fate
  continues : Context → List ℕ → Fate
  done : Context → List ℕ → Fate
  closes : Fate

-- A context after `len` bytes were sent to it.
abbrev after_send : Context → ℕ → List ℕ → Fate
after_send ctx len bytes =
    let ctx' = record ctx { req_size = ctx.req_size - len } in
    if ctx'.req_size == 0 then done ctx' bytes else continues ctx' bytes

module _ {W : Type 0} (world : World W) where
  -- The body of the loop in `hwrng_handle_req_queue`.
  pub serve : Context → W → Fate × W
  unfolding chunk
  serve ctx w =
      let len = chunk ctx.req_size in
      let (rc, rng_data, w₁) = world.get_rng_data len w in
      let (result, w₂) = world.send ctx.chan rng_data w₁ in
      if ctx.send_blocked
      then (waits ctx, w)
      else if is_zero rc
      then (
        elim result [
          | sent ↦ after_send ctx len rng_data
          | not_enough_buffer ↦ waits (record ctx { send_blocked = true })
          | send_failed ↦ closes
        ],
        w₂,
      )
      else (closes, w₁)

-- The lists of contexts, the closed handles, and what was sent, in order of the channels served.
pub record Queue : Type 0 where
  pub pending : List Context
  pub idle : List Context
  pub closed : List ℕ
  pub replies : List (ℕ × List ℕ)
  pub need_more : Bool

-- The rest of the list after one context.
abbrev pub collect : Context → Fate → Queue → Queue
collect ctx (waits c) q = record q { pending = c ∷ q.pending }
collect ctx (continues c bytes) q = record q {
  pending = c ∷ q.pending;
  replies = (ctx.chan, bytes) ∷ q.replies;
  need_more = true;
}
collect ctx (done c bytes) q = record q {
  idle = c ∷ q.idle;
  replies = (ctx.chan, bytes) ∷ q.replies;
}
collect ctx closes q = record q { closed = ctx.chan ∷ q.closed }

module _ {W : Type 0} (world : World W) where
  -- The loop: `list_for_every_entry_safe` goes on with the entry that came next at the start of the
  -- round, and a round takes at most its own entry from the list.
  pub hwrng_handle_req_queue : List Context → W → Queue × W
  unfolding serve
  hwrng_handle_req_queue [] w =
      (record { pending = []; idle = []; closed = []; replies = []; need_more = false }, w)
  hwrng_handle_req_queue (ctx ∷ list) w =
      let (fate, w₁) = serve world ctx w in
      let (rest, w₂) = hwrng_handle_req_queue list w₁ in (collect ctx fate rest, w₂)

-- The contexts in the list and outside it, the closed handles, and the replies, newest last.
pub record Server (W : Type 0) : Type 0 where
  pub pending : List Context
  pub idle : List Context
  pub closed : List ℕ
  pub replies : List (ℕ × List ℕ)
  pub world_state : W

module _ {W : Type 0} (world : World W) where
  -- The result of `hwrng_handle_req_queue` is not looked at.
  pub hwrng_kick_req_queue : Server W → Server W
  unfolding hwrng_handle_req_queue
  hwrng_kick_req_queue s =
      let (q, w) = hwrng_handle_req_queue world s.pending s.world_state in
      record {
        pending = q.pending;
        idle = q.idle ++ s.idle;
        closed = q.closed ++ s.closed;
        replies = s.replies ++ q.replies;
        world_state = w;
      }

abbrev find_context : ℕ → List Context → Option Context
find_context addr [] = none
find_context addr (c ∷ cs) =
    let rest = find_context addr cs in if c.addr == addr then some c else rest

abbrev remove_context : ℕ → List Context → List Context
remove_context addr [] = []
remove_context addr (c ∷ cs) =
    let rest = remove_context addr cs in if c.addr == addr then rest else c ∷ rest

abbrev update_context : ℕ → (Context → Context) → List Context → List Context
update_context addr f [] = []
update_context addr f (c ∷ cs) =
    let rest = update_context addr f cs in if c.addr == addr then f c ∷ rest else c ∷ rest

-- `struct hwrng_req` with its `len`, or the error of `tipc_recv1`.
pub data Received : Type 0 where
  request : (len : ℕ) → Received
  recv_failed : ℤ → Received

-- The sum is a `size_t`.
abbrev extend : ℕ → Context → Context
extend len c = record c { req_size = (c.req_size + len) % 2 ^ 64 }

-- `ctx->send_blocked = false`
abbrev unblock : Context → Context
unblock c = record c { send_blocked = false }

module _ {W : Type 0} where
  pub hwrng_close_chan : Context → Server W → Server W
  hwrng_close_chan ctx s = record s {
    closed = ctx.chan ∷ s.closed;
    pending = remove_context ctx.addr s.pending;
    idle = remove_context ctx.addr s.idle;
  }

  pub hwrng_chan_handle_msg : Context → Received → Server W → ℤ × Server W
  hwrng_chan_handle_msg ctx (recv_failed rc) s = (rc, s)
  hwrng_chan_handle_msg ctx (request len) s = (
    pos 0,
    if is_some (find_context ctx.addr s.pending)
        then record s { pending = update_context ctx.addr (extend len) s.pending }
        else record s {
          pending = s.pending ++ record ctx { req_size = len } ∷ [];
          idle = remove_context ctx.addr s.idle;
        },
  )

  abbrev unblock_chan : ℕ → Server W → Server W
  unblock_chan addr s = record s {
    pending = update_context addr unblock s.pending;
    idle = update_context addr unblock s.idle;
  }

  -- `ctx` is the context as it is when the event comes. The first assertions are those of `invoke` in
  -- `App`, which has the handle of the event.
  pub hwrng_chan_handler :
      World W
      → (handle_chan_errors : Event → Run (Unit {0})) → Event
      → Context
      → Received
      → Server W
      → Run (Server W)
  unfolding hwrng_kick_req_queue hwrng_close_chan hwrng_chan_handle_msg
  hwrng_chan_handler world handle_chan_errors ev ctx r s =
      handle_chan_errors ev >> ok (hwrng_kick_req_queue world handled)
    where
      ctx' : Context
      ctx' = if ev.send_unblocked then unblock ctx else ctx

      unblocked : Server W
      unblocked = if ev.send_unblocked then unblock_chan ctx.addr s else s

      after_msg : Server W
      after_msg =
          let (rc, s') = hwrng_chan_handle_msg ctx' r unblocked in
          if is_zero rc then s' else hwrng_close_chan ctx' s'

      handled : Server W
      handled = if ev.hup then hwrng_close_chan ctx s else if ev.msg then after_msg else unblocked

  -- `fresh` is the address that `calloc` gives, if any.
  pub hwrng_port_handler :
      (handle_port_errors : Event → Run (Unit {0}))
      → Event
      → (accepted : ℤ) (fresh : Option ℕ) (cookie : ℤ) → Server W
      → Run (Server W)
  hwrng_port_handler handle_port_errors ev accepted fresh cookie s =
      handle_port_errors ev >> ok (if ev.ready then connect accepted else s)
    where
      connect : ℤ → Server W
      connect (negsuc e) = s
      connect (pos chan) = elim fresh [
        | none ↦ record s { closed = chan ∷ s.closed }
        | some addr ↦
            if is_zero cookie
            then record s {
              idle =
                  record { addr = addr; chan = chan; req_size = 0; send_blocked = false } ∷ s.idle;
            }
            else record s { closed = chan ∷ s.closed }
      ]

-- The result, and the port that is closed again if the device cannot be initialized. The result of
-- `set_cookie` is not looked at.
pub hwrng_start_service : (created device : ℤ) → ℤ × Option ℕ
hwrng_start_service (negsuc e) device = (negsuc e, none)
hwrng_start_service (pos port) device =
    if is_zero device then (pos 0, none) else (device, some port)

module _ {W : Type 0} where
  pub hwrng_chan_handler-IsSafe :
      (world : World W) (errors : Event → Run (Unit {0})) (ev : Event) (ctx : Context)
      (r : Received) (s : Server W)
      → errors ev ≡ ok tt
      → IsSafe (hwrng_chan_handler world errors ev ctx r s)
  unfolding hwrng_chan_handler
  hwrng_chan_handler-IsSafe world errors ev ctx r s e = rw e tt

  pub hwrng_port_handler-IsSafe :
      (errors : Event → Run (Unit {0})) (ev : Event) (accepted : ℤ) (fresh : Option ℕ) (cookie : ℤ)
      (s : Server W)
      → errors ev ≡ ok tt
      → IsSafe (hwrng_port_handler errors ev accepted fresh cookie s)
  unfolding hwrng_port_handler
  hwrng_port_handler-IsSafe errors ev accepted fresh cookie s e = rw e tt
