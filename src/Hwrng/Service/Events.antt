-- ===== src/Hwrng/Service/Events.antt =====
-- What an event does to the accounts of all channels of the random number service.
use trusty_app_sample.Common.{
  arith, if◌then◌else◌, inl, inr, none, refl, some, ℕ, ◌+◌, ◌<◌, ◌==◌, ◌^◌, ◌∷◌, ◌≡◌, ◌≤◌, ◌⊎◌,
}
use trusty_app_sample.Hwrng.Service.{
  Context, Received, Server, World, find_context, hwrng_close_chan, hwrng_handle_req_queue,
  hwrng_kick_req_queue, recv_failed, remove_context, request, unblock, unblock_chan,
}
use trusty_app_sample.Hwrng.Service.Pass.{Fills}
use trusty_app_sample.Hwrng.Service.Account.{
  IsAtRest, IsAtRest-append, addr_of, chan_of, closings, closings-append, count_at, count_at-append,
  got, got-append, hwrng_handle_req_queue-IsAccounted, owed,
}
use trusty_app_sample.Hwrng.Service.Contexts.{
  IsAtRest-remove_context, IsAtRest-update_context, count_at-none, count_at-remove_context,
  count_at-update_context, owed-remove_context, owed-update_context_same, remove_context-none,
}

abbrev pub nothing : ℕ → ℕ
nothing x = 0

-- What a message asks for on a channel.
abbrev pub asked_by : Context → Received → ℕ → ℕ
asked_by ctx (request len) x = if ctx.chan == x then len else 0
asked_by ctx (recv_failed rc) x = 0

-- The sum of the sizes fits a `size_t`.
abbrev pub IsSmall : Context → Received → Type 0
IsSmall ctx (request len) = ctx.req_size + len < 2 ^ 64
IsSmall ctx (recv_failed rc) = Unit

module _ {W : Type 0} where
  -- The contexts with a key that are allocated: each is in the list of requests or outside it.
  abbrev pub live : (Context → ℕ) → ℕ → Server W → ℕ
  live key a s = count_at key a s.pending + count_at key a s.idle

  -- Between two events: an address and a channel belong to one context at most, and a context
  -- outside the list waits for nothing.
  pub record IsWellFormed (s : Server W) : Type 0 where
    pub addrs : (a : ℕ) → live addr_of a s ≤ 1
    pub chans : (x : ℕ) → live chan_of x s ≤ 1
    pub at_rest : IsAtRest s.idle

  -- What was sent to a channel and what it still waits for.
  abbrev pub account : ℕ → Server W → ℕ
  account x s = got x s.replies + owed x s.pending

  -- A step keeps the server well formed, never takes back that a channel was closed, and adds to the
  -- account of a channel at most what is asked, and exactly that if it does not close the channel.
  pub record Moves (s t : Server W) (asked : ℕ → ℕ) : Type 0 where
    pub well_formed : IsWellFormed t
    pub closed : (x : ℕ) → closings x s.closed ≤ closings x t.closed
    pub bounded : (x : ℕ) → account x t ≤ account x s + asked x
    pub kept :
        (x : ℕ) → closings x t.closed ≡ closings x s.closed → account x t ≡ account x s + asked x

  pub Moves-self : (s : Server W) → IsWellFormed s → Moves s s nothing
  Moves-self s v = record {
    well_formed = v;
    closed = λ x. omega arith;
    bounded = λ x. omega arith;
    kept = λ x e. omega arith;
  }

  pub Moves-then :
      (s t u : Server W) (f g : ℕ → ℕ) → Moves s t f → Moves t u g → Moves s u (λ x. f x + g x)
  Moves-then s t u f g m n = record {
    well_formed = n.well_formed;
    closed = λ x. omega (arith, m.closed x, n.closed x);
    bounded = λ x. omega (arith, m.bounded x, n.bounded x);
    kept = λ x e. omega (
      arith,
      m.closed x,
      n.closed x,
      m.kept x (omega (arith, m.closed x, n.closed x)),
      n.kept x (omega (arith, m.closed x, n.closed x)),
    );
  }

  -- The context that an event is for.
  abbrev pub IsLive : Context → Server W → Type 0
  IsLive ctx s =
      (find_context ctx.addr s.pending ≡ some ctx)
      ⊎ ((find_context ctx.addr s.pending ≡ none) × (find_context ctx.addr s.idle ≡ some ctx))

  pub hwrng_kick_req_queue-Moves :
      (world : World W) (s : Server W)
      → Fills world
      → IsWellFormed s
      → Moves s (hwrng_kick_req_queue world s) nothing
  unfolding hwrng_kick_req_queue
  hwrng_kick_req_queue-Moves world s fills v =
      let q = (hwrng_handle_req_queue world s.pending s.world_state).0 in
      let p = hwrng_handle_req_queue-IsAccounted world s.pending s.world_state fills in
      record {
        well_formed = record {
          addrs = λ a. omega (arith, v.addrs a, p.addrs a, count_at-append addr_of a q.idle s.idle);
          chans = λ x. omega (arith, v.chans x, p.chans x, count_at-append chan_of x q.idle s.idle);
          at_rest = IsAtRest-append q.idle s.idle p.at_rest v.at_rest;
        };
        closed = λ x. omega (arith, closings-append x q.closed s.closed);
        bounded = λ x. omega (arith, p.bounded x, got-append x s.replies q.replies);
        kept = λ x e. omega (
          arith,
          p.kept x (omega (arith, closings-append x q.closed s.closed)),
          got-append x s.replies q.replies,
        );
      }

  pub unblock_chan-Moves :
      (a : ℕ) (s : Server W) → IsWellFormed s → Moves s (unblock_chan a s) nothing
  unblock_chan-Moves a s v = record {
    well_formed = record {
      addrs = λ b. omega (
        arith,
        v.addrs b,
        count_at-update_context a addr_of b unblock s.pending (λ c. refl),
        count_at-update_context a addr_of b unblock s.idle (λ c. refl),
      );
      chans = λ x. omega (
        arith,
        v.chans x,
        count_at-update_context a chan_of x unblock s.pending (λ c. refl),
        count_at-update_context a chan_of x unblock s.idle (λ c. refl),
      );
      at_rest = IsAtRest-update_context a unblock s.idle (λ c. refl) v.at_rest;
    };
    closed = λ x. omega arith;
    bounded = λ x.
        omega
          (arith, owed-update_context_same a x unblock s.pending (λ c. (refl, refl)) (λ c. refl));
    kept = λ x e.
        omega
          (arith, owed-update_context_same a x unblock s.pending (λ c. (refl, refl)) (λ c. refl));
  }

  closed_account :
      (ctx : Context) (s : Server W) (x : ℕ)
      → IsWellFormed s
      → IsLive ctx s
      → closings x (ctx.chan ∷ s.closed) ≡ closings x s.closed
      → got x s.replies + owed x (remove_context ctx.addr s.pending) ≡ account x s + 0
  unfolding closings
  closed_account ctx s x v (inl l) e =
      let one : count_at addr_of ctx.addr s.pending ≤ 1 = omega (arith, v.addrs ctx.addr) in
      ground (arith, owed-remove_context ctx.addr x s.pending ctx one l)
  closed_account ctx s x v (inr (n, l)) e =
      rw (remove_context-none ctx.addr s.pending (count_at-none ctx.addr s.pending n)) (omega arith)

  closed_bound :
      (ctx : Context) (s : Server W) (x : ℕ)
      → IsWellFormed s
      → IsLive ctx s
      → got x s.replies + owed x (remove_context ctx.addr s.pending) ≤ account x s + 0
  closed_bound ctx s x v (inl l) =
      let one : count_at addr_of ctx.addr s.pending ≤ 1 = omega (arith, v.addrs ctx.addr) in
      ground (arith, owed-remove_context ctx.addr x s.pending ctx one l)
  closed_bound ctx s x v (inr (n, l)) =
      rw (remove_context-none ctx.addr s.pending (count_at-none ctx.addr s.pending n)) (omega arith)

  pub hwrng_close_chan-Moves :
      (ctx : Context) (s : Server W)
      → IsWellFormed s
      → IsLive ctx s
      → Moves s (hwrng_close_chan ctx s) nothing
  unfolding hwrng_close_chan closings
  hwrng_close_chan-Moves ctx s v l = record {
    well_formed = record {
      addrs = λ b. omega (
        arith,
        v.addrs b,
        count_at-remove_context ctx.addr addr_of b s.pending,
        count_at-remove_context ctx.addr addr_of b s.idle,
      );
      chans = λ x. omega (
        arith,
        v.chans x,
        count_at-remove_context ctx.addr chan_of x s.pending,
        count_at-remove_context ctx.addr chan_of x s.idle,
      );
      at_rest = IsAtRest-remove_context ctx.addr s.idle v.at_rest;
    };
    closed = λ x. ground arith;
    bounded = λ x. closed_bound ctx s x v l;
    kept = λ x e. closed_account ctx s x v l e;
  }
