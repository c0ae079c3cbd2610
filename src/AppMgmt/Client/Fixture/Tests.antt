-- ===== src/AppMgmt/Client/Fixture/Tests.antt =====
-- A test of app-mgmt-test/client/main.c on a kernel that serves it well.
use trusty_app_sample.Common.{
  Bool, arith, false, if◌then◌else◌, negsuc, no_event, pos, refl, suc, true, ℕ, ℤ, ◌≡◌,
}
use trusty_app_sample.AppMgmt.Ledger.{no_handles}
use trusty_app_sample.AppMgmt.Client.{
  Port, Sys, Test, apploader_port, boot_start_port, ctrl_port, load_app, never_start_port,
  port_waiter_port, restart_port, shutdown_port, start_fail_port, start_port,
}
use trusty_app_sample.AppMgmt.Client.Fixture.{
  no_chans, pending_positive, run_steps, run_test, set_up,
}
use trusty_app_sample.AppMgmt.Client.Fixture.Occupied.{is_tidy}
use trusty_app_sample.AppMgmt.Client.Fixture.SetUp.{GivesHandles}
use trusty_app_sample.AppMgmt.Client.Fixture.Closes.{IsCleared, Settles, run_test-Settles}

-- A kernel that numbers its handles from 1 on, on which the server runs as the tests expect: it is
-- not running behind a test, leaves a bounded wait alone, and answers each command.
abbrev pub kernel_connect : Port → Bool → Bool → ℕ → ℤ × ℕ
kernel_connect ctrl_port is_async wait_for_port w = (negsuc 1, w)
kernel_connect shutdown_port is_async wait_for_port w = (negsuc 1, w)
kernel_connect _ is_async wait_for_port w = (pos (suc w), suc w)

abbrev pub kernel : Sys ℕ
kernel = record {
  connect = kernel_connect;
  wait = λ chan is_bounded w.
      (if is_bounded then negsuc 12 else pos 0, record no_event { ready = true; msg = true }, w);
  send1 = λ chan cmd w. (pos 1, w);
  recv1 = λ chan w. (pos 1, 0, w);
  send_request = λ chan cmd size memref w. (pos 12, w);
  get_msg = λ chan w. (pos 0, 8, w);
  read_msg = λ chan w. (pos 8, 1, 0, w);
  put_msg = λ chan w. w;
  memref_create = λ size w. (pos (suc w), suc w);
  nanosleep = λ w. w;
  round_up = λ n. n;
  load_cmd = 0;
  resp_bit = 1;
  err_timed_out = negsuc 12;
  request_size = 12;
  resp_size = 8;
  no_error = 0;
  already_exists = 6;
  verification_failed = 4;
  loading_unlocked = λ w. (false, w);
}

kernel-GivesHandles : GivesHandles kernel
unfolding GivesHandles
kernel-GivesHandles apploader_port a b w = ground arith
kernel-GivesHandles start_port a b w = ground arith
kernel-GivesHandles never_start_port a b w = ground arith
kernel-GivesHandles boot_start_port a b w = ground arith
kernel-GivesHandles restart_port a b w = ground arith
kernel-GivesHandles start_fail_port a b w = ground arith
kernel-GivesHandles port_waiter_port a b w = ground arith
kernel-GivesHandles ctrl_port a b w = refl
kernel-GivesHandles shutdown_port a b w = refl

abbrev pub at_start : Test ℕ
at_start = record { failed = false; ledger = no_handles; chans = no_chans; world = 0 }

-- The channels hold what the stack held.
abbrev unset : Test ℕ
unset = record at_start { chans = record { main = pos 4; pend = pos 4; waiting = negsuc 2 } }

run_test-Settles_example :
    Settles 4 (run_test kernel 100 pending_positive unset)
    × IsCleared (run_steps kernel pending_positive (set_up kernel 100 unset))
unfolding is_tidy load_app
run_test-Settles_example =
    run_test-Settles kernel 100 pending_positive unset 4 kernel-GivesHandles refl refl refl refl

run_test_passes : (run_test kernel 100 pending_positive at_start).failed ≡ false
unfolding run_test
run_test_passes = refl
