-- ===== src/AppMgmt/Client/Boot.antt =====
-- The tests of app-mgmt-test/client/main.c that use no fixture. Each is a function of the test that
-- runs; `app_size` is the size of the package that it loads.
pub mod Closes
mod Tests
use trusty_app_sample.Common.{
  Bool, false, if◌then◌else◌, is_neg, is_zero, not, true, ℕ, ℤ, ◌&&◌, ◌==◌, ◌||◌,
}
use trusty_app_sample.AppMgmt.Client.{
  Port, Sys, Test, boot_start_port, chan_send_cmd, close_chan, cmd_exit, ctrl_port, eq_pos, fail,
  is_loaded, load_app, never_start_port, open_chan, port_start_srv_running, port_waiter_port,
  restart_port, rsp_ok, start_fail_port, start_port,
}

module _ {W : Type 0} (sys : Sys W) where
  -- The start of most tests: the application is loaded, now or before.
  pub load_then : (app_size : ℕ) → (Test W → Test W) → Test W → Test W
  unfolding load_app
  load_then app_size body t =
      let (error, t₁) = load_app sys app_size t in
      if t₁.failed then fail t₁ else if not (is_loaded sys error) then fail t₁ else body t₁

  -- `ASSERT_EQ(error, expected)` behind a load.
  pub load_expecting : (app_size expected : ℕ) → Test W → Test W
  unfolding load_app
  load_expecting app_size expected t =
      let (error, t₁) = load_app sys app_size t in
      if t₁.failed then fail t₁ else if not (error == expected) then fail t₁ else t₁

  pub double_load : (app_size : ℕ) → Test W → Test W
  unfolding load_then load_expecting
  double_load app_size t = load_then app_size (load_expecting app_size sys.already_exists) t

  -- A connection that is closed at once, and is expected or not.
  pub probe : Port → (expected : Bool) → Test W → Test W
  unfolding open_chan
  probe port expected t =
      let (rc, t₁) = open_chan sys port true false t in
      close_chan rc (if (if expected then is_neg rc else not (is_neg rc)) then fail t₁ else t₁)

  pub boot_start_negative : (app_size : ℕ) → Test W → Test W
  unfolding load_then probe
  boot_start_negative app_size t = load_then app_size (probe never_start_port false) t

  pub boot_start_positive : (app_size : ℕ) → Test W → Test W
  unfolding load_then probe
  boot_start_positive app_size t = load_then app_size (probe boot_start_port true) t

  pub port_start_negative : (app_size : ℕ) → Test W → Test W
  unfolding load_then probe
  port_start_negative app_size t = load_then app_size (probe ctrl_port false) t

  -- `chan` is shut down by the other side.
  pub is_hung_up : (chan : ℤ) → (is_bounded : Bool) → W → Bool × W
  is_hung_up chan is_bounded w =
      let (rc, ev, w') = sys.wait chan is_bounded w in (is_zero rc && ev.hup, w')

  -- Behind a failed second connection `chan` is closed again.
  pub restarts : Test W → Test W
  unfolding open_chan is_hung_up
  restarts t =
      let (chan, t₁) = open_chan sys restart_port true true t in
      let (hup, w) = is_hung_up chan false t₁.world in
      let t₂ = record t₁ { world = w } in
      let (chan₂, t₃) = open_chan sys restart_port true true (close_chan chan t₂) in
      if is_neg chan
      then fail t₁
      else if not hup
      then close_chan chan (fail t₂)
      else if is_neg chan₂
      then close_chan chan (fail t₃)
      else close_chan chan₂ t₃

  pub app_restart_positive : (app_size : ℕ) → Test W → Test W
  unfolding load_then restarts
  app_restart_positive app_size t = load_then app_size restarts t

  pub exits : Test W → Test W
  unfolding open_chan chan_send_cmd port_start_srv_running
  exits t =
      let (chan, t₁) = open_chan sys start_port false false t in
      let t₂ = chan_send_cmd sys chan cmd_exit t₁ in
      let (running, t₃) = port_start_srv_running sys t₂ in
      if is_neg chan
      then fail t₁
      else if t₂.failed
      then close_chan chan (fail t₂)
      else if running
      then close_chan chan (fail t₃)
      else close_chan chan t₃

  pub app_restart_negative : (app_size : ℕ) → Test W → Test W
  unfolding load_then exits
  app_restart_negative app_size t = load_then app_size exits t

  -- One of the two connections, which is not closed if it is not shut down.
  pub fails_to_start : Test W → Test W
  unfolding open_chan is_hung_up
  fails_to_start t =
      let (chan, t₁) = open_chan sys start_fail_port true false t in
      let (hup, w) = is_hung_up chan true t₁.world in
      let t₂ = record t₁ { world = w } in
      if is_neg chan then fail t₁ else if not hup then fail t₂ else close_chan chan t₂

  -- The second connection is tried only if the first was shut down.
  pub fails_twice : Test W → Test W
  unfolding fails_to_start
  fails_twice t = let t₁ = fails_to_start t in if t₁.failed then t₁ else fails_to_start t₁

  pub port_start_fail : (app_size : ℕ) → Test W → Test W
  unfolding load_then fails_twice
  port_start_fail app_size t = load_then app_size fails_twice t

  pub unsigned_app : (app_size : ℕ) → Test W → Test W
  unfolding load_expecting
  unsigned_app app_size t = load_expecting app_size sys.verification_failed t

  -- The application with the key of developers loads only in an unlocked system.
  pub unlocked_dev_load : (app_size : ℕ) → Test W → Test W
  unfolding load_app
  unlocked_dev_load app_size t =
      let (error, t₁) = load_app sys app_size t in
      let (unlocked, w) = sys.loading_unlocked t₁.world in
      let t₂ = record t₁ { world = w } in
      let expected = if unlocked then is_loaded sys error else error == sys.verification_failed in
      if t₁.failed then fail t₁ else if not expected then fail t₂ else t₂

  -- The assertions on the answer of port-waiter-srv, which may come after the channel is ready.
  pub answered : (chan : ℤ) → W → Bool × W
  answered chan w =
      let (rc, ev, w₁) = sys.wait chan true w in
      let (rc₂, ev₂, w₂) = sys.wait chan false w₁ in
      let w' = if ev.msg then w₁ else w₂ in
      let (size, rsp, w₃) = sys.recv1 chan w' in
      if not (is_zero rc && ev.ready)
      then (false, w₁)
      else if not (ev.msg || (is_zero rc₂ && ev₂.msg))
      then (false, w₂)
      else (eq_pos size 1 && rsp == rsp_ok, w₃)

  pub ask_waiter : Test W → Test W
  unfolding open_chan answered
  ask_waiter t =
      let (chan, t₁) = open_chan sys port_waiter_port true true t in
      let (good, w) = answered chan t₁.world in
      let t₂ = record t₁ { world = w } in
      if is_neg chan then fail t₁ else close_chan chan (if good then t₂ else fail t₂)

  -- The sizes of both packages.
  pub load_both : (waiter_size start_size : ℕ) → Test W → Test W
  unfolding load_then load_expecting ask_waiter
  load_both waiter_size start_size t =
      load_then waiter_size
        (λ u.
          let v = load_expecting start_size sys.no_error u in if v.failed then v else ask_waiter v)
        t

  -- `skip` is the static variable, which stays set for the next run.
  pub wait_connect_for_port : (skip : Bool) → (waiter_size start_size : ℕ) → Test W → Bool × Test W
  unfolding port_start_srv_running load_both
  wait_connect_for_port skip waiter_size start_size t =
      let (running, t₁) = port_start_srv_running sys t in
      if skip
      then (true, t)
      else if running
      then (true, fail t₁)
      else (true, load_both waiter_size start_size t₁)
