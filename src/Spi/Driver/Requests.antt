-- ===== src/Spi/Driver/Requests.antt =====
-- Requests to the SPI driver: how a client queues them in a sequence, and what each does.
use trusty_app_sample.Common.{
  List, Option, Run, [], if◌then◌else◌, is_some, length, none, ok, some, true, ℕ, ◌+◌, ◌>>=◌, ◌∷◌,
}
use trusty_app_sample.Spi.Driver.{
  Code, Entry, System, call_exec, cs_assert, cs_deassert, delay, delay_ns, set_clk,
  spi_req_cs_assert, spi_req_cs_deassert, spi_req_delay, spi_req_set_clk, spi_req_xfer,
  spi_seq_begin, spi_seq_commit, xfer, xfer_args,
}

pub data Request : Type 0 where
  clock select deselect : Request
  transfer : (tx rx : Option ℕ) (len : ℕ) → Request
  pause : ℕ → Request

-- The call that queues a request, when there is memory.
unfoldable pub issue : Request → System → Run (Code × System)
issue clock s = spi_req_set_clk s
issue select s = spi_req_cs_assert s
issue deselect s = spi_req_cs_deassert s
issue (transfer tx rx len) s = spi_req_xfer true tx rx len s
issue (pause ns) s = spi_req_delay true ns s

unfoldable pub issue_all : List Request → System → Run System
issue_all [] s = ok s
issue_all (r ∷ rs) s = issue r s >>= λ q. issue_all rs q.1

-- A client's use of the driver.
unfoldable pub transaction : (rand : ℕ → ℕ → ℕ) → List Request → System → Run (Code × System)
transaction rand rs s = do
  (rc, s₁) ← spi_seq_begin true (length rs) s
  s₂ ← issue_all rs s₁
  spi_seq_commit rand s₂

-- The request done at once, on the bus and the memory.
unfoldable pub perform : (rand : ℕ → ℕ → ℕ) → Request → System → Run System
perform rand clock s = call_exec rand set_clk none s
perform rand select s = call_exec rand cs_assert none s
perform rand deselect s = call_exec rand cs_deassert none s
perform rand (transfer tx rx len) s = call_exec rand xfer (some (xfer_args tx rx len)) s
perform rand (pause ns) s = call_exec rand delay (some (delay_ns ns)) s

unfoldable pub perform_all : (rand : ℕ → ℕ → ℕ) → List Request → System → Run System
perform_all rand [] s = ok s
perform_all rand (r ∷ rs) s = perform rand r s >>= perform_all rand rs

unfoldable pub blank : Entry
blank = record { exec = none; priv = none }

unfoldable pub entry_of : Request → Entry
entry_of clock = record { exec = some set_clk; priv = none }
entry_of select = record { exec = some cs_assert; priv = none }
entry_of deselect = record { exec = some cs_deassert; priv = none }
entry_of (transfer tx rx len) = record { exec = some xfer; priv = some (xfer_args tx rx len) }
entry_of (pause ns) = record { exec = some delay; priv = some (delay_ns ns) }

-- The blocks that the queued requests hold.
unfoldable pub blocks : List Request → ℕ
unfolding entry_of
blocks [] = 0
blocks (r ∷ rs) = if is_some (entry_of r).priv then blocks rs + 1 else blocks rs

-- The system while a sequence is queued.
abbrev pub busy : System → List Entry → (n c l : ℕ) → System
busy s cmds n c l = record s {
  dev = record (s.dev) { cmds = some cmds; num_cmds = n; curr_cmd = c };
  live = s.live + l;
}

-- A device on which no sequence is queued.
unfoldable pub idle : System → System
idle s = record s { dev = record (s.dev) { cmds = none; num_cmds = 0; curr_cmd = 0 } }
