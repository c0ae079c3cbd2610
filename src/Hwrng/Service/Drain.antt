-- ===== src/Hwrng/Service/Drain.antt =====
-- How many passes a request takes, when nothing fails.
use trusty_app_sample.Common.{
  All, List, [], arith, false, is_zero, refl, subst, suc, true, zero, ℕ, ◌*◌, ◌+◌, ◌-◌, ◌<◌, ◌∷◌,
  ◌≡◌, ◌≤◌,
}
use trusty_app_sample.Hwrng.Service.{
  Context, Queue, Server, World, after_send, chunk, collect, hwrng_handle_req_queue,
  hwrng_kick_req_queue, sent, serve,
}

-- The device and the channels always succeed.
pub record Serves {W : Type 0} (world : World W) : Type 0 where
  pub gives : (n : ℕ) (w : W) → is_zero (world.get_rng_data n w).0 ≡ true
  pub sends : (chan : ℕ) (bytes : List ℕ) (w : W) → (world.send chan bytes w).0 ≡ sent

-- The contexts of a list are not blocked, and want at most `n` bytes.
abbrev pub IsReady : ℕ → Context → Type 0
IsReady n c = (c.send_blocked ≡ false) × (c.req_size ≤ n)

module _ {W : Type 0} (world : World W) where
  -- The list after a number of passes.
  pub passes : ℕ → List Context → W → List Context × W
  passes zero list w = (list, w)
  passes (suc n) list w = let (q, w') = hwrng_handle_req_queue world list w in passes n q.pending w'

  module _ (serves : Serves world) where
    served_lem :
        (ctx : Context) (w : W)
        → ctx.send_blocked ≡ false
        → (serve world ctx w).0
          ≡ after_send ctx (chunk ctx.req_size) (world.get_rng_data (chunk ctx.req_size) w).1
    unfolding serve
    served_lem ctx w free =
        let g = world.get_rng_data (chunk ctx.req_size) w in
        ground (arith, serves.gives (chunk ctx.req_size) w, serves.sends ctx.chan g.1 g.2)

    collect-IsReady :
        (n : ℕ) (ctx : Context) (bytes : List ℕ) (q : Queue)
        → IsReady (n + 4096) ctx
        → All (λ c. IsReady n c × (0 < c.req_size)) q.pending
        → All
            (λ c. IsReady n c × (0 < c.req_size))
            (collect ctx (after_send ctx (chunk ctx.req_size) bytes) q).pending
    unfolding chunk
    collect-IsReady n ctx bytes q r a = ground arith

    pass-IsReady :
        (n : ℕ) (list : List Context) (w : W)
        → All (IsReady (n + 4096)) list
        → All (λ c. IsReady n c × (0 < c.req_size)) (hwrng_handle_req_queue world list w).0.pending
    unfolding hwrng_handle_req_queue
    pass-IsReady n [] w a = tt
    pass-IsReady n (ctx ∷ list) w a = rw (served_lem ctx w a.0.0) (
        collect-IsReady n ctx _ (hwrng_handle_req_queue world list (serve world ctx w).1).0 a.0
          (pass-IsReady n list (serve world ctx w).1 a.1))

    nothing_left :
        (list : List Context) → All (λ c. IsReady 0 c × (0 < c.req_size)) list → list ≡ []
    nothing_left [] a = refl
    nothing_left (c ∷ cs) a = absurd (omega (arith, a.0.0.1, a.0.1))

    forget :
        (n : ℕ) (list : List Context)
        → All (λ c. IsReady n c × (0 < c.req_size)) list
        → All (IsReady n) list
    forget n [] a = tt
    forget n (c ∷ cs) a = (a.0.0, forget n cs a.1)

    -- If nothing fails and no channel is blocked, `k + 1` passes serve every request of up to
    -- `4096 * (k + 1)` bytes: the list is empty.
    pub passes_drain :
        (k : ℕ) (list : List Context) (w : W)
        → All (IsReady (k * 4096 + 4096)) list
        → (passes (suc k) list w).0 ≡ []
    unfolding passes
    passes_drain zero list w a = nothing_left _ (pass-IsReady 0 list w a)
    passes_drain (suc k) list w a =
        let bound : suc k * 4096 ≡ k * 4096 + 4096 = omega arith in
        passes_drain k _ (hwrng_handle_req_queue world list w).1 (
          subst (λ n. All (IsReady n) (hwrng_handle_req_queue world list w).0.pending) bound
            (forget (suc k * 4096) _ (pass-IsReady (suc k * 4096) list w a)))

    -- If nothing fails, one event makes one pass, whatever is left to do: a request for more than
    -- 4096 bytes that is alone in the list, on a channel that is not blocked, is still in it after
    -- the pass, with 4096 bytes less to go, although the pass reports that more is needed.
    pub hwrng_kick_req_queue_leaves :
        (s : Server W) (ctx : Context)
        → s.pending ≡ ctx ∷ []
        → ctx.send_blocked ≡ false
        → 4096 < ctx.req_size
        → ((hwrng_kick_req_queue world s).pending
            ≡ record ctx { req_size = ctx.req_size - 4096 } ∷ [])
          × ((hwrng_handle_req_queue world s.pending s.world_state).0.need_more ≡ true)
    unfolding hwrng_kick_req_queue hwrng_handle_req_queue chunk
    hwrng_kick_req_queue_leaves s ctx e free more =
        rw e (ground (arith, served_lem ctx s.world_state free))
