-- ===== src/App/Tests.antt =====
-- A run of the event loop of the application.
use trusty_app_sample.Common.{
  Event, List, [], no_event, none, ok, pos, replicate, some, true, ℕ, ◌∷◌,
}
use trusty_app_sample.Hwkey.Service.Tests.{ask, deliver, derive_two, message, numbers, service}
use trusty_app_sample.Hwkey.Handles.Tests.{client, fake}
use trusty_app_sample.Hwrng.Service.{sent}
use trusty_app_sample.Hwkey.Provider.Tests.{bare_service}
use trusty_app_sample.App.{App, Calls, Proc, Wakeup, box_port, key_chan}

abbrev calls : Calls ℕ
calls = record {
  protocol = numbers;
  key_send = deliver;
  device = fake;
  fuel = 1;
  kdf = derive_two;
  allowed = λ u. true;
  rng = record { get_rng_data = λ n w. (pos 0, replicate n 0, w); send = λ c bs w. (sent, w) };
  interface_ = record {
    max_size = 4;
    req_size = 4;
    unwrap_req_size = 8;
    cmd_unwrap = 2;
    rsp_bit = 1;
  };
  box_send = λ m. pos 0;
  output = replicate 4 0;
  chan_errors = λ ev. ok tt;
  port_errors = λ ev. ok tt;
}

abbrev running : App ℕ
running = record {
  key = service;
  rng = record { pending = []; idle = []; closed = []; replies = []; world_state = 0 };
  box = record { contexts = 7 ∷ []; closed = [] };
  closed = [];
  world = 0;
}

abbrev wakeup : Event → Proc → Wakeup Proc
wakeup ev p = record { rc = pos 0; handle = 3; event = ev; proc = some p }

-- A handle without a handler.
abbrev stray : Wakeup Proc
stray = record { rc = pos 0; handle = 3; event = record no_event { ready = true }; proc = none }

-- A stray event, and then a request for a key slot.
abbrev events : List (Wakeup Proc)
events = stray ∷ record (wakeup message (key_chan client ask)) { handle = 4 } ∷ []

abbrev at_start : App ℕ
at_start = record running { key = bare_service }

-- A connection to the keybox service.
abbrev connection : List (Wakeup Proc)
connection = wakeup (record no_event { ready = true }) (box_port (pos 4) true (pos 0)) ∷ []
