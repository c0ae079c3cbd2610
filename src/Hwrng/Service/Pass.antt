-- ===== src/Hwrng/Service/Pass.antt =====
-- One round of the loop over the list of requests: what it may do to the context that it serves.
use trusty_app_sample.Common.{
  Bool-cases, List, arith, inl, inr, is_zero, length, refl, true, ℕ, ◌+◌, ◌<◌, ◌≡◌, ◌≤◌,
}
use trusty_app_sample.Hwrng.Service.{
  Context, Fate, Send, World, after_send, chunk, closes, continues, done, not_enough_buffer,
  send_failed, sent, serve, waits,
}

module _ {W : Type 0} (world : World W) where
  -- The device fills the buffer if it succeeds.
  abbrev pub Fills : Type 0
  Fills =
      (n : ℕ) (w : W)
      → is_zero (world.get_rng_data n w).0 ≡ true
      → length (world.get_rng_data n w).1 ≡ n

-- What a round may do to a context: bytes sent and bytes still wanted add up, a message is no
-- longer than 4096 bytes, and the context leaves the list exactly if it wants no more.
abbrev pub IsFair : Context → Fate → Type 0
IsFair ctx (waits c) = (c.req_size ≡ ctx.req_size) × (c.chan ≡ ctx.chan)
IsFair ctx (continues c bytes) =
    (c.req_size + length bytes ≡ ctx.req_size) × (length bytes ≤ 4096) × (0 < c.req_size)
IsFair ctx (done c bytes) = (length bytes ≡ ctx.req_size) × (length bytes ≤ 4096) × (c.req_size ≡ 0)
IsFair ctx closes = Unit

chunk-le : (n : ℕ) → (chunk n ≤ 4096) × (chunk n ≤ n)
unfolding chunk
chunk-le n = ground arith

after_send-IsFair :
    (ctx : Context) (len : ℕ) (bytes : List ℕ)
    → length bytes ≡ len
    → len ≤ 4096
    → len ≤ ctx.req_size
    → IsFair ctx (after_send ctx len bytes)
after_send-IsFair ctx len bytes e h g = ground arith

module _ {W : Type 0} (world : World W) (fills : Fills world) where
  pub serve-IsFair : (ctx : Context) (w : W) → IsFair ctx (serve world ctx w).0
  unfolding serve
  serve-IsFair ctx w =
      let len = chunk ctx.req_size in
      let g = world.get_rng_data len w in
      elim (Bool-cases ctx.send_blocked) [
        | inl blocked ↦ rw blocked (refl, refl)
        | inr free ↦ elim (Bool-cases (is_zero g.0)) [
          | inr failed ↦ rw (free, failed) tt
          | inl filled ↦
              rw (free, filled)
                (result_lem (world.send ctx.chan g.1 g.2).0 (
                  after_send-IsFair ctx len g.1 (fills len w filled) (chunk-le ctx.req_size).0
                    (chunk-le ctx.req_size).1))
        ]
      ]
    where
      result_lem :
          (r : Send)
          → IsFair ctx
              (after_send ctx (chunk ctx.req_size) (world.get_rng_data (chunk ctx.req_size) w).1)
          → IsFair ctx (elim r [
            | sent ↦
                after_send ctx (chunk ctx.req_size) (world.get_rng_data (chunk ctx.req_size) w).1
            | not_enough_buffer ↦ waits (record ctx { send_blocked = true })
            | send_failed ↦ closes
          ])
      result_lem sent h = h
      result_lem not_enough_buffer h = (refl, refl)
      result_lem send_failed h = tt
