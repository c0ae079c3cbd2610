-- ===== src/Hwrng/Service/Requests.antt =====
-- What a request does to the accounts: it is added to what the channel waits for.
use trusty_app_sample.Common.{[], arith, none, refl, some, ℕ, ◌++◌, ◌+◌, ◌<◌, ◌^◌, ◌∷◌, ◌≡◌}
use trusty_app_sample.Hwrng.Service.{
  Context, Server, extend, find_context, remove_context, request, update_context,
}
use trusty_app_sample.Hwrng.Service.Account.{
  addr_of, chan_of, count_at, count_at-append, owed, owed-append,
}
use trusty_app_sample.Hwrng.Service.Contexts.{
  IsAtRest-remove_context, count_at-remove_context, count_at-removed, count_at-update_context,
  owed-update_context,
}
use trusty_app_sample.Hwrng.Service.Events.{IsWellFormed, Moves, asked_by}

module _ {W : Type 0} where
  pub extended-Moves :
      (ctx : Context) (len : ℕ) (s : Server W)
      → IsWellFormed s
      → find_context ctx.addr s.pending ≡ some ctx
      → ctx.req_size + len < 2 ^ 64
      → Moves s
          (record s { pending = update_context ctx.addr (extend len) s.pending })
          (asked_by ctx (request len))
  extended-Moves ctx len s v l small = record {
    well_formed = record {
      addrs = λ b. omega (
        arith,
        v.addrs b,
        count_at-update_context ctx.addr addr_of b (extend len) s.pending (λ c. refl),
      );
      chans = λ x. omega (
        arith,
        v.chans x,
        count_at-update_context ctx.addr chan_of x (extend len) s.pending (λ c. refl),
      );
      at_rest = v.at_rest;
    };
    closed = λ x. omega arith;
    bounded = λ x. ground (
      arith,
      owed-update_context ctx.addr x (extend len) s.pending ctx (omega (arith, v.addrs ctx.addr)) l,
      small,
    );
    kept = λ x e. ground (
      arith,
      owed-update_context ctx.addr x (extend len) s.pending ctx (omega (arith, v.addrs ctx.addr)) l,
      small,
    );
  }

  pub queued-Moves :
      (ctx : Context) (len : ℕ) (s : Server W)
      → IsWellFormed s
      → find_context ctx.addr s.pending ≡ none
      → find_context ctx.addr s.idle ≡ some ctx
      → Moves s
          (record s {
            pending = s.pending ++ record ctx { req_size = len } ∷ [];
            idle = remove_context ctx.addr s.idle;
          })
          (asked_by ctx (request len))
  unfolding count_at owed
  queued-Moves ctx len s v n l = record {
    well_formed = record {
      addrs = λ b. ground (
        arith,
        v.addrs b,
        count_at-append addr_of b s.pending (record ctx { req_size = len } ∷ []),
        count_at-removed ctx.addr addr_of s.idle ctx (omega (arith, v.addrs ctx.addr)) l,
        count_at-remove_context ctx.addr addr_of b s.idle,
      );
      chans = λ x. ground (
        arith,
        v.chans x,
        count_at-append chan_of x s.pending (record ctx { req_size = len } ∷ []),
        count_at-removed ctx.addr chan_of s.idle ctx (omega (arith, v.addrs ctx.addr)) l,
        count_at-remove_context ctx.addr chan_of x s.idle,
      );
      at_rest = IsAtRest-remove_context ctx.addr s.idle v.at_rest;
    };
    closed = λ x. omega arith;
    bounded = λ x. ground (arith, owed-append x s.pending (record ctx { req_size = len } ∷ []));
    kept = λ x e. ground (arith, owed-append x s.pending (record ctx { req_size = len } ∷ []));
  }
