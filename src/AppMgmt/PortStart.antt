-- ===== src/AppMgmt/PortStart.antt =====
-- app-mgmt-test/port-start-srv: a server that obeys commands on one channel, among them to close its
-- port and to open it again. What the system calls return are arguments.
pub mod Balance
use trusty_app_sample.Common.{
  Bool, List, Run, [], assert, false, if◌then◌else◌, is_neg, is_zero, negsuc, not, ok, pos, true, ℕ,
  ℤ, ◌&&◌, ◌==◌, ◌>>=◌, ◌>>◌, ◌∷◌,
}
use trusty_app_sample.AppMgmt.Ledger.{Ledger, close, hold, no_handles}

-- `CMD_*` of app_mgmt_test.h
pub data Cmd : Type 0 where
  cmd_nop cmd_close_port cmd_exit cmd_other : Cmd
  cmd_open_port : Cmd

-- `RSP_*`
pub data Rsp : Type 0 where
  rsp_ok rsp_cmd_failed rsp_invalid_cmd : Rsp

-- The handles, and the variable `start_port` of main.
pub record Srv : Type 0 where
  pub ledger : Ledger
  pub start_port : ℕ

-- What the calls of one command return: close, port_create and tipc_send1, by the answer.
pub record CmdCalls : Type 0 where
  pub close_rc : ℤ
  pub create_rc : ℤ
  pub send_rc : Rsp → ℤ

close_start : Srv → Srv
close_start s = record s { ledger = close s.start_port s.ledger }

reopen : ℤ → Srv → Rsp × Bool × Srv
reopen (negsuc e) s = (rsp_cmd_failed, true, s)
reopen (pos port) s = (rsp_ok, false, record { ledger = hold port s.ledger; start_port = port })

-- The switch of handle_cmd: the answer, `done`, and the state.
obey : Cmd → CmdCalls → Srv → Rsp × Bool × Srv
unfolding close_start reopen
obey cmd_nop c s = (rsp_ok, false, s)
obey cmd_close_port c s =
    if is_zero c.close_rc
    then (rsp_ok, false, close_start s)
    else (rsp_cmd_failed, true, close_start s)
obey cmd_open_port c s = reopen c.create_rc s
obey cmd_exit c s = (rsp_ok, true, s)
obey cmd_other c s = (rsp_invalid_cmd, true, s)

unfoldable pub handle_cmd : Cmd → CmdCalls → Srv → Bool × Srv
unfolding obey
handle_cmd cmd c s =
    let (rsp, done, s') = obey cmd c s in (if is_neg (c.send_rc rsp) then true else done, s')

-- A wait of the loop that succeeds: its result, whether it is the shutdown port, whether there is a
-- message, what tipc_recv1 returns, and the command.
pub record Turn : Type 0 where
  pub wait_rc : ℕ
  pub at_shutdown : Bool
  pub is_msg : Bool
  pub recv_rc : ℤ
  pub cmd : Cmd
  pub calls : CmdCalls

-- The loop of main: it ends at a turn, or at the wait that fails with -(e + 1) behind the turns.
unfoldable pub serve : (e : ℕ) → List Turn → Srv → ℤ × Srv
unfolding handle_cmd
serve e [] s = (negsuc e, s)
serve e (t ∷ ts) s =
    let next = handle_cmd t.cmd t.calls s in
    let rest = serve e ts next.1 in
    if t.at_shutdown
    then (pos t.wait_rc, s)
    else if not t.is_msg
    then (pos t.wait_rc, s)
    else if is_neg t.recv_rc
    then (t.recv_rc, s)
    else if next.0
    then (pos 0, next.1)
    else rest

-- The setup: the results of both handle_set_create, of port_create and handle_set_ctrl for the
-- three ports, of the first wait with its event, of accept and of the last handle_set_ctrl.
pub record Setup : Type 0 where
  pub port_hset : ℤ
  pub start : ℤ × ℤ
  pub ctrl : ℤ × ℤ
  pub mixed_hset : ℤ
  pub shutdown : ℤ × ℤ
  pub wait_port : ℤ × Bool
  pub accept : ℤ
  pub add_channel : ℤ

added : ℤ → ℕ → Srv → ℤ × Srv
added ctrl port s =
    if is_neg ctrl
    then (ctrl, record s { ledger = close port (hold port s.ledger) })
    else (pos port, record s { ledger = hold port s.ledger })

-- The name of the port is a constant, and so not null.
unfoldable pub prepare_port : ℕ → ℤ × ℤ → Srv → Run (ℤ × Srv)
unfolding added
prepare_port hset calls s =
    assert (not (hset == 0))
    >> ok (elim calls.0 [ negsuc e ↦ (negsuc e, s) | pos port ↦ added calls.1 port s ])

-- What is left to do with a handle, and `close` behind it.
with_handle : ℕ → (ℕ → Srv → Run (ℤ × Srv)) → Srv → Run (ℤ × Srv)
with_handle h body s = body h s >>= λ r. ok (r.0, record (r.1) { ledger = close h r.1.ledger })

-- If the result is a handle, it goes on with it.
on_handle : (ℕ → Srv → Run (ℤ × Srv)) → ℤ × Srv → Run (ℤ × Srv)
unfolding with_handle
on_handle body (negsuc e, s) = ok (negsuc e, s)
on_handle body (pos h, s) = with_handle h body s

-- A handle that the call itself gives.
fresh : ℤ → Srv → ℤ × Srv
fresh (negsuc e) s = (negsuc e, s)
fresh (pos h) s = (pos h, record s { ledger = hold h s.ledger })

module _ (c : Setup) (e : ℕ) (turns : List Turn) where
  channel_stage : ℕ → Srv → Run (ℤ × Srv)
  channel_stage channel s =
      ok (if is_neg c.add_channel then (c.add_channel, s) else serve e turns s)

  shutdown_stage : ℕ → Srv → Run (ℤ × Srv)
  unfolding channel_stage on_handle fresh
  shutdown_stage shutdown_port s =
      if not (is_zero c.wait_port.0 && c.wait_port.1)
      then ok (c.wait_port.0, s)
      else on_handle channel_stage (fresh c.accept s)

  mixed_stage : ℕ → Srv → Run (ℤ × Srv)
  unfolding shutdown_stage
  mixed_stage mixed_hset s = prepare_port mixed_hset c.shutdown s >>= on_handle shutdown_stage

  ctrl_stage : ℕ → Srv → Run (ℤ × Srv)
  unfolding mixed_stage
  ctrl_stage ctrl_port s = on_handle mixed_stage (fresh c.mixed_hset s)

  -- `start_port` is the variable, so that its value at the end is closed.
  start_stage : ℕ → ℤ × Srv → Run (ℤ × Srv)
  unfolding ctrl_stage close_start
  start_stage port_hset (negsuc x, s) = ok (negsuc x, s)
  start_stage port_hset (pos port, s) =
      prepare_port port_hset c.ctrl (record s { start_port = port }) >>= λ r.
      on_handle ctrl_stage r >>= λ q. ok (q.0, close_start q.1)

  hset_stage : ℕ → Srv → Run (ℤ × Srv)
  unfolding start_stage
  hset_stage port_hset s = prepare_port port_hset c.start s >>= start_stage port_hset

  unfoldable pub main : Run (ℤ × Srv)
  unfolding hset_stage
  main = on_handle hset_stage (fresh c.port_hset (record { ledger = no_handles; start_port = 0 }))
