-- ===== src/Hwrng/Service/Tests.antt =====
-- The random number service at small sizes.
use trusty_app_sample.Common.{
  List, Returns, [], arith, false, inr, no_event, ok, pos, refl, some, true, ℕ, ◌+◌, ◌∷◌, ◌≡◌,
}
use trusty_app_sample.Hwrng.Fake.{hwrng_dev_get_rng_data}
use trusty_app_sample.Hwrng.Fake.Laws.{length-fill_from}
use trusty_app_sample.Hwrng.Service.{
  Context, Server, World, hwrng_chan_handler, hwrng_handle_req_queue, hwrng_kick_req_queue,
  hwrng_port_handler, request, sent,
}
use trusty_app_sample.Hwrng.Service.Pass.{Fills}
use trusty_app_sample.Hwrng.Service.Drain.{
  Serves, hwrng_kick_req_queue_leaves, passes, passes_drain,
}
use trusty_app_sample.Hwrng.Service.Contract.{
  Accounts, Input, all_asked, on_chan, on_port, run, run-IsWellFormed, started,
}
use trusty_app_sample.Hwrng.Service.Account.{closings, count_at, got, owed}
use trusty_app_sample.Hwrng.Service.Events.{IsWellFormed}

-- The fake device, and channels that take every message.
abbrev open_world : World ℕ
open_world = record { get_rng_data = hwrng_dev_get_rng_data; send = λ chan bytes w. (sent, w) }

open_world-Fills : Fills open_world
unfolding hwrng_dev_get_rng_data
open_world-Fills n w z = length-fill_from n w

open_world-Serves : Serves open_world
unfolding hwrng_dev_get_rng_data
open_world-Serves = record { gives = λ n w. refl; sends = λ chan bytes w. refl }

abbrev caller : (chan req_size : ℕ) → Context
caller chan n = record { addr = chan; chan = chan; req_size = n; send_blocked = false }

abbrev two_callers : List Context
two_callers = caller 1 3 ∷ caller 2 5000 ∷ []

abbrev server : Server ℕ
server = record {
  pending = caller 2 5000 ∷ [];
  idle = [];
  closed = [];
  replies = [];
  world_state = 0;
}

passes_drain_example : (passes open_world 2 two_callers 0).0 ≡ []
passes_drain_example =
    passes_drain open_world open_world-Serves 1 two_callers 0
      ((refl, omega arith), ((refl, omega arith), tt))

hwrng_kick_req_queue_leaves_example :
    ((hwrng_kick_req_queue open_world server).pending ≡ caller 2 904 ∷ [])
    × ((hwrng_handle_req_queue open_world server.pending 0).0.need_more ≡ true)
hwrng_kick_req_queue_leaves_example =
    hwrng_kick_req_queue_leaves open_world open_world-Serves server (caller 2 5000) refl refl
      (omega arith)

-- A client connects at address 9 on channel 5 and asks for 5000 bytes.
abbrev connects_and_asks : List Input
connects_and_asks =
    on_port (record no_event { ready = true }) (pos 5) (some 9) (pos 0)
    ∷ on_chan (record no_event { msg = true })
        (record { addr = 9; chan = 5; req_size = 0; send_blocked = false }) (request 5000)
    ∷ []

run-IsWellFormed_example :
    Returns
      (λ t.
        IsWellFormed t
        × ((x : ℕ)
            → Accounts
                (closings x t.closed)
                (got x t.replies + owed x t.pending)
                (all_asked connects_and_asks x)))
      (run open_world (λ ev. ok tt) connects_and_asks (started 0))
unfolding hwrng_port_handler hwrng_chan_handler count_at
run-IsWellFormed_example =
    run-IsWellFormed open_world (λ ev. ok tt) connects_and_asks 0 open_world-Fills
      ((refl, (refl, refl)), ((refl, inr (refl, refl), omega arith), tt))
