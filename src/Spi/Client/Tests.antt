-- ===== src/Spi/Client/Tests.antt =====
-- The transfer of the test at small sizes.
use trusty_app_sample.Common.{
  List, Run, [], false, fault, negsuc, none, ok, pos, some, ℕ, ℤ, ◌++◌, ◌+◌, ◌∷◌,
}
use trusty_app_sample.Spi.Driver.{Code, System}
use trusty_app_sample.Spi.Driver.Requests.{Request, clock, deselect, select, transaction, transfer}
use trusty_app_sample.Spi.Client.{SpiDev}

abbrev device : System
device = record {
  dev = record { addr = 1; cmds = none; num_cmds = 0; curr_cmd = 0; loopback = false };
  owner = none;
  num_devs = 1;
  memory = λ a. a;
  slept = [];
  live = 4;
}

-- A client library in which the commands that wait are a list.
record Queued : Type 0 where
  requests : List Request
  system : System

abbrev rand : ℕ → ℕ → ℕ
rand seed i = seed + i

abbrev add_request : Request → Queued → ℤ × Queued
add_request r q = (pos 0, record q { requests = q.requests ++ (r ∷ []) })

abbrev handed_over : Run (Code × System) → Queued → ℤ × Queued
handed_over (ok (rc, s)) q = (pos 0, record { requests = []; system = s })
handed_over (fault e) q = (negsuc 0, q)

abbrev over_driver : SpiDev Queued
over_driver = record {
  add_set_clk = add_request clock;
  add_cs_assert = add_request select;
  add_data_xfer = λ len. add_request (transfer (some 100) (some 200) len);
  tx = 100;
  rx = 200;
  add_cs_deassert = add_request deselect;
  exec_cmds = λ q. handed_over (transaction rand q.requests q.system) q;
  memory = λ q. q.system.memory;
  set_memory = λ m q. record q { system = record (q.system) { memory = m } };
}
