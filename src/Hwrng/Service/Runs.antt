-- ===== src/Hwrng/Service/Runs.antt =====
-- The random number service over its events: every channel is sent exactly the bytes that its client
-- has asked for, as long as it is not closed.
use trusty_app_sample.Common.{
  Bool-cases, Event, Option, Returns, Run, arith, false, if◌then◌else◌, inl, inr, is_zero, negsuc,
  none, ok, pos, refl, some, ℕ, ℤ, ◌∷◌, ◌≡◌,
}
use trusty_app_sample.Hwrng.Service.{
  Context, Received, Server, World, hwrng_chan_handle_msg, hwrng_chan_handler, hwrng_close_chan,
  hwrng_kick_req_queue, hwrng_port_handler, recv_failed, request, unblock, unblock_chan,
}
use trusty_app_sample.Hwrng.Service.Pass.{Fills}
use trusty_app_sample.Hwrng.Service.Contexts.{
  count_at-none, find_context-update_context, update_context-none,
}
use trusty_app_sample.Hwrng.Service.Requests.{extended-Moves, queued-Moves}
use trusty_app_sample.Hwrng.Service.Events.{
  IsLive, IsSmall, IsWellFormed, Moves, Moves-self, Moves-then, asked_by, hwrng_close_chan-Moves,
  hwrng_kick_req_queue-Moves, live, nothing, unblock_chan-Moves,
}
use trusty_app_sample.Hwrng.Service.Account.{addr_of, chan_of, closings, count_at}

-- What an event asks for on a channel.
abbrev pub event_asked : Event → Context → Received → ℕ → ℕ
event_asked ev ctx r x = if ev.hup then 0 else if ev.msg then asked_by ctx r x else 0

module _ {W : Type 0} where
  chan_handle_msg-Moves :
      (ctx : Context) (r : Received) (s : Server W)
      → IsWellFormed s
      → IsLive ctx s
      → IsSmall ctx r
      → Moves s (hwrng_chan_handle_msg ctx r s).1 (asked_by ctx r)
  unfolding hwrng_chan_handle_msg
  chan_handle_msg-Moves ctx (recv_failed rc) s v l h = Moves-self s v
  chan_handle_msg-Moves ctx (request len) s v (inl l) h = rw l (extended-Moves ctx len s v l h)
  chan_handle_msg-Moves ctx (request len) s v (inr (n, l)) h = rw n (queued-Moves ctx len s v n l)

  IsLive-unblock :
      (ctx : Context) (s : Server W) → IsLive ctx s → IsLive (unblock ctx) (unblock_chan ctx.addr s)
  IsLive-unblock ctx s (inl l) =
      inl (find_context-update_context ctx.addr unblock s.pending ctx (λ c. (refl, refl)) l)
  IsLive-unblock ctx s (inr (n, l)) = inr (
    rw (update_context-none ctx.addr unblock s.pending (count_at-none ctx.addr s.pending n)) n,
    find_context-update_context ctx.addr unblock s.idle ctx (λ c. (refl, refl)) l,
  )

  -- A message, and the close of the channel when it cannot be received.
  abbrev after_receive : Context → Received → Server W → Server W
  after_receive ctx r s =
      let (rc, t) = hwrng_chan_handle_msg ctx r s in
      if is_zero rc then t else hwrng_close_chan ctx t

  after_receive-Moves :
      (ctx : Context) (r : Received) (s : Server W)
      → IsWellFormed s
      → IsLive ctx s
      → IsSmall ctx r
      → Moves s (after_receive ctx r s) (asked_by ctx r)
  unfolding hwrng_chan_handle_msg
  after_receive-Moves ctx (request len) s v l h = chan_handle_msg-Moves ctx (request len) s v l h
  after_receive-Moves ctx (recv_failed rc) s v l h = elim (Bool-cases (is_zero rc)) [
    | inl z ↦ rw z (Moves-self s v)
    | inr n ↦ rw n (hwrng_close_chan-Moves ctx s v l)
  ]

  behind : (s t u : Server W) (f : ℕ → ℕ) → Moves s t nothing → Moves t u f → Moves s u f
  behind s t u f m n =
      let k = Moves-then s t u nothing f m n in
      record {
        well_formed = k.well_formed;
        closed = k.closed;
        bounded = λ x. omega (arith, k.bounded x);
        kept = λ x e. omega (arith, k.kept x e);
      }

  module _ (world : World W) (fills : Fills world) where
    -- The pass at the end of every event.
    kicked : (s t : Server W) (f : ℕ → ℕ) → Moves s t f → Moves s (hwrng_kick_req_queue world t) f
    kicked s t f m =
        let k =
          Moves-then s t _ f nothing m (hwrng_kick_req_queue-Moves world t fills m.well_formed) in
        record {
          well_formed = k.well_formed;
          closed = k.closed;
          bounded = λ x. omega (arith, k.bounded x);
          kept = λ x e. omega (arith, k.kept x e);
        }

    IsSmall-unblock : (ctx : Context) (r : Received) → IsSmall ctx r → IsSmall (unblock ctx) r
    IsSmall-unblock ctx (request len) h = h
    IsSmall-unblock ctx (recv_failed rc) h = h

    -- One event for a live context, which is no channel error, with a device that fills its buffers
    -- and requests whose sizes fit a `size_t`.
    pub hwrng_chan_handler-Moves :
        (errors : Event → Run (Unit {0})) (ev : Event) (ctx : Context) (r : Received) (s : Server W)
        → errors ev ≡ ok tt
        → IsWellFormed s
        → IsLive ctx s
        → IsSmall ctx r
        → Returns
            (λ t. Moves s t (event_asked ev ctx r))
            (hwrng_chan_handler world errors ev ctx r s)
    unfolding hwrng_chan_handler
    hwrng_chan_handler-Moves errors ev ctx r s e v l h = elim (Bool-cases ev.hup) [
      | inl hup ↦ rw (e, hup) (kicked s _ nothing (hwrng_close_chan-Moves ctx s v l))
      | inr up ↦ elim (Bool-cases ev.send_unblocked) [
        | inr same ↦ elim (Bool-cases ev.msg) [
          | inl msg ↦ rw (e, up, same, msg) (kicked s _ _ (after_receive-Moves ctx r s v l h))
          | inr none_ ↦ rw (e, up, same, none_) (kicked s s nothing (Moves-self s v))
        ]
        | inl free ↦
            let t = unblock_chan ctx.addr s in
            let m = unblock_chan-Moves ctx.addr s v in
            elim (Bool-cases ev.msg) [
              | inl msg ↦
                  rw (e, up, free, msg)
                    (kicked s _ _ (
                      behind s t _ (asked_by ctx r) m (
                        after_receive-Moves (unblock ctx) r t m.well_formed (IsLive-unblock ctx s l)
                          (IsSmall-unblock ctx r h))))
              | inr none_ ↦ rw (e, up, free, none_) (kicked s t nothing m)
            ]
      ]
    ]

  -- The address and the channel of a connection are those of no context.
  abbrev pub IsNew : ℤ → Option ℕ → Server W → Type 0
  IsNew (pos chan) (some addr) s = (live addr_of addr s ≡ 0) × (live chan_of chan s ≡ 0)
  IsNew _ _ s = Unit

  refused-Moves :
      (s : Server W) (chan : ℕ)
      → IsWellFormed s
      → Moves s (record s { closed = chan ∷ s.closed }) nothing
  unfolding closings
  refused-Moves s chan v = record {
    well_formed = record { addrs = v.addrs; chans = v.chans; at_rest = v.at_rest };
    closed = λ x. ground arith;
    bounded = λ x. omega arith;
    kept = λ x e. omega arith;
  }

  attached-Moves :
      (s : Server W) (addr chan : ℕ)
      → IsWellFormed s
      → live addr_of addr s ≡ 0
      → live chan_of chan s ≡ 0
      → Moves s
          (record s {
            idle = record { addr = addr; chan = chan; req_size = 0; send_blocked = false } ∷ s.idle;
          })
          nothing
  unfolding count_at
  attached-Moves s addr chan v a c = record {
    well_formed = record {
      addrs = λ b. ground (arith, v.addrs b, a);
      chans = λ x. ground (arith, v.chans x, c);
      at_rest = (refl, v.at_rest);
    };
    closed = λ x. omega arith;
    bounded = λ x. omega arith;
    kept = λ x e. omega arith;
  }

  pub hwrng_port_handler-Moves :
      (errors : Event → Run (Unit {0})) (ev : Event) (accepted : ℤ) (fresh : Option ℕ) (cookie : ℤ)
      (s : Server W)
      → errors ev ≡ ok tt
      → IsWellFormed s
      → IsNew accepted fresh s
      → Returns (λ t. Moves s t nothing) (hwrng_port_handler errors ev accepted fresh cookie s)
  unfolding hwrng_port_handler
  hwrng_port_handler-Moves errors ev (negsuc x) fresh cookie s e v n = elim (Bool-cases ev.ready) [
    | inl ready ↦ rw (e, ready) (Moves-self s v)
    | inr idle ↦ rw (e, idle) (Moves-self s v)
  ]
  hwrng_port_handler-Moves errors ev (pos chan) none cookie s e v n = elim (Bool-cases ev.ready) [
    | inl ready ↦ rw (e, ready) (refused-Moves s chan v)
    | inr idle ↦ rw (e, idle) (Moves-self s v)
  ]
  hwrng_port_handler-Moves errors ev (pos chan) (some addr) cookie s e v n =
      elim (Bool-cases ev.ready) [
        | inr idle ↦ rw (e, idle) (Moves-self s v)
        | inl ready ↦ elim (Bool-cases (is_zero cookie)) [
          | inl set_ ↦ rw (e, ready, set_) (attached-Moves s addr chan v n.0 n.1)
          | inr bad ↦ rw (e, ready, bad) (refused-Moves s chan v)
        ]
      ]
