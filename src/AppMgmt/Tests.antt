-- ===== src/AppMgmt/Tests.antt =====
-- Runs of the servers of the application management test.
use trusty_app_sample.Common.{Returns, [], false, negsuc, pos, refl, true, ◌∷◌, ◌≡◌}
use trusty_app_sample.AppMgmt.PortStart.{
  Cmd, CmdCalls, Setup, Turn, cmd_close_port, cmd_exit, cmd_nop, cmd_open_port, prepare_port, serve,
  main as port_start_main,
}
use trusty_app_sample.AppMgmt.PortStart.Balance.{main-IsBalanced}
use trusty_app_sample.AppMgmt.PortWaiter.{main-closed, Calls as WaiterCalls, main as waiter_main}

-- The receive of the answer fails.
abbrev no_answer : WaiterCalls
no_answer = record {
  connect = pos 3;
  port_create = pos 4;
  wait_port = (pos 0, true);
  accept = pos 5;
  send_cmd = pos 1;
  wait_rsp = (pos 0, true);
  recv_rsp = (negsuc 7, 0);
  send_rsp = λ r. pos 1;
}

main-closed_example : (waiter_main no_answer).1.closed ≡ 5 ∷ 4 ∷ 3 ∷ []
unfolding waiter_main
main-closed_example = main-closed no_answer

abbrev good_calls : CmdCalls
good_calls = record { close_rc = pos 0; create_rc = pos 9; send_rc = λ r. pos 1 }

abbrev turn : Cmd → Turn
turn cmd = record {
  wait_rc = 0;
  at_shutdown = false;
  is_msg = true;
  recv_rc = pos 1;
  cmd = cmd;
  calls = good_calls;
}

abbrev setup : Setup
setup = record {
  port_hset = pos 1;
  start = (pos 2, pos 0);
  ctrl = (pos 3, pos 0);
  mixed_hset = pos 4;
  shutdown = (pos 5, pos 0);
  wait_port = (pos 0, true);
  accept = pos 6;
  add_channel = pos 0;
}

main-IsBalanced_example :
    Returns
      (λ r. r.1.ledger.closed ≡ r.1.ledger.opened)
      (port_start_main setup 0 (turn cmd_nop ∷ turn cmd_exit ∷ []))
main-IsBalanced_example =
    main-IsBalanced setup 0 (turn cmd_nop ∷ turn cmd_exit ∷ []) (tt, (tt, tt)) refl refl

-- The port that a command has closed is closed again at the end.
closed_twice :
    Returns
      (λ r. r.1.ledger.closed ≡ 2 ∷ 6 ∷ 5 ∷ 4 ∷ 3 ∷ 2 ∷ 1 ∷ [])
      (port_start_main setup 0 (turn cmd_close_port ∷ turn cmd_exit ∷ []))
unfolding port_start_main prepare_port serve
closed_twice = refl

-- The port from before is not closed when a command opens it again.
never_closed :
    Returns
      (λ r. r.1.ledger.closed ≡ 6 ∷ 5 ∷ 4 ∷ 3 ∷ 9 ∷ 1 ∷ [])
      (port_start_main setup 0 (turn cmd_open_port ∷ turn cmd_exit ∷ []))
unfolding port_start_main prepare_port serve
never_closed = refl
