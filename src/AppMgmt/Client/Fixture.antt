-- ===== src/AppMgmt/Client/Fixture.antt =====
-- The fixture AppMgrPortStart of app-mgmt-test/client/main.c, and its tests as lists of steps.
pub mod Occupied
pub mod Steps
pub mod SetUp
pub mod Closes
pub mod Tests
use trusty_app_sample.Common.{
  List, [], false, if◌then◌else◌, is_neg, is_zero, not, true, ℕ, ◌&&◌, ◌||◌, ◌∷◌,
}
use trusty_app_sample.AppMgmt.Client.{
  ChanIdx, Chans, Sys, Test, chan_at, chan_send_cmd, close_chan, cmd_close_port, cmd_exit,
  cmd_open_port, eq_handle, fail, invalid_handle, is_loaded, is_positive, load_app, main_chan,
  open_chan, pend_chan, port_start_srv_running, set_chan, shutdown_port, start_port, wait_chan,
}

-- The calls that the tests of the fixture make.
pub data Step : Type 0 where
  establish : ChanIdx → Step
  closing : ChanIdx → Step
  command : ChanIdx → (cmd : ℕ) → Step
  exiting : ChanIdx → Step
  wait_exit : ChanIdx → Step

abbrev pub no_chans : Chans
no_chans = record { main = invalid_handle; pend = invalid_handle; waiting = invalid_handle }

module _ {W : Type 0} (sys : Sys W) where
  pub send_cmd : ChanIdx → (cmd : ℕ) → Test W → Test W
  unfolding chan_send_cmd
  send_cmd idx cmd t = if t.failed then t else chan_send_cmd sys (chan_at idx t.chans) cmd t

  -- A connection that is handled after all is left open.
  pub establish_unhandled_channel : ChanIdx → Test W → Test W
  unfolding open_chan
  establish_unhandled_channel idx t =
      let (chan, t₁) = open_chan sys start_port true false t in
      let (rc, ev, w) = sys.wait chan true t₁.world in
      if t.failed
      then t
      else if is_neg chan
      then fail t₁
      else if not (eq_handle rc sys.err_timed_out)
      then fail (record t₁ { world = w })
      else record t₁ { world = w; chans = set_chan idx chan t₁.chans }

  pub close_channel : ChanIdx → Test W → Test W
  close_channel idx t = if t.failed then t else record (close_chan (chan_at idx t.chans) t) {
    chans = set_chan idx invalid_handle t.chans;
  }

  pub send_exit : ChanIdx → Test W → Test W
  unfolding send_cmd close_channel
  send_exit idx t = if t.failed then t else close_channel idx (send_cmd idx cmd_exit t)

  pub wait_and_exit : ChanIdx → Test W → Test W
  unfolding send_exit
  wait_and_exit idx t =
      let (rc, ev, w) = sys.wait (chan_at idx t.chans) false t.world in
      let t₁ = record t { world = w } in
      if t.failed then t else if not (is_zero rc && ev.ready) then fail t₁ else send_exit idx t₁

  pub perform : Step → Test W → Test W
  unfolding establish_unhandled_channel close_channel send_cmd send_exit wait_and_exit
  perform (establish idx) t = establish_unhandled_channel idx t
  perform (closing idx) t = close_channel idx t
  perform (command idx cmd) t = send_cmd idx cmd t
  perform (exiting idx) t = send_exit idx t
  perform (wait_exit idx) t = wait_and_exit idx t

  -- The body of a test.
  pub run_steps : List Step → Test W → Test W
  unfolding perform
  run_steps [] t = t
  run_steps (step ∷ steps) t = run_steps steps (perform step t)

  -- The shutdown of a server that an earlier test has left.
  pub shut_down : Test W → Test W
  unfolding open_chan
  shut_down t =
      let (chan, t₁) = open_chan sys shutdown_port true false t in
      let (rc, ev, w) = sys.wait chan false t₁.world in
      let t₂ = close_chan chan (record t₁ { world = w }) in
      if not (is_positive chan) then t₁ else if is_neg rc || not ev.hup then fail t₂ else t₂

  -- The end of the set-up, from the check that the server is not running on.
  pub connect_main : Test W → Test W
  unfolding port_start_srv_running open_chan
  connect_main t =
      let (running, t₁) = port_start_srv_running sys t in
      let (chan, t₂) = open_chan sys start_port false false t₁ in
      if running
      then fail t₁
      else if is_neg chan
      then fail t₂
      else record t₂ { chans = record t₂.chans { main = chan } }

  pub set_up : (app_size : ℕ) → Test W → Test W
  unfolding load_app shut_down connect_main
  set_up app_size t =
      let (error, t₁) = load_app sys app_size t in
      let t₂ = shut_down (record t₁ { chans = no_chans }) in
      if t₁.failed
      then fail t₁
      else if not (is_loaded sys error)
      then fail t₁
      else if t₂.failed
      then t₂
      else connect_main t₂

  abbrev pub close_all : Test W → Test W
  close_all t = close_chan t.chans.waiting (close_chan t.chans.pend (close_chan t.chans.main t))

  pub tear_down : Test W → Test W
  unfolding port_start_srv_running
  tear_down t =
      let (running, t₁) = port_start_srv_running sys t in
      if t.failed
      then close_all (fail t)
      else if running
          || not (
              eq_handle t₁.chans.main invalid_handle
              && eq_handle t₁.chans.pend invalid_handle
              && eq_handle t₁.chans.waiting invalid_handle)
      then close_all (fail t₁)
      else close_all t₁

  -- A test of the fixture. The steps do nothing after a failure, so that it makes no difference
  -- whether the test framework still runs them after a set-up that fails.
  pub run_test : (app_size : ℕ) → List Step → Test W → Test W
  unfolding set_up run_steps tear_down
  run_test app_size steps t = tear_down (run_steps steps (set_up app_size t))

-- The tests, in the order of the file.
abbrev pub pending_negative : List Step
pending_negative = establish pend_chan ∷ closing pend_chan ∷ exiting main_chan ∷ []

abbrev pub pending_positive : List Step
pending_positive = establish pend_chan ∷ exiting main_chan ∷ wait_exit pend_chan ∷ []

abbrev pub waiting_negative : List Step
waiting_negative =
    command main_chan cmd_close_port
    ∷ establish wait_chan
    ∷ closing wait_chan
    ∷ exiting main_chan
    ∷ []

abbrev pub waiting_positive : List Step
waiting_positive =
    command main_chan cmd_close_port
    ∷ establish wait_chan
    ∷ exiting main_chan
    ∷ wait_exit wait_chan
    ∷ []

abbrev pub pending_to_waiting_negative : List Step
pending_to_waiting_negative =
    establish pend_chan
    ∷ command main_chan cmd_close_port
    ∷ closing pend_chan
    ∷ exiting main_chan
    ∷ []

abbrev pub pending_to_waiting_positive : List Step
pending_to_waiting_positive =
    establish pend_chan
    ∷ command main_chan cmd_close_port
    ∷ exiting main_chan
    ∷ wait_exit pend_chan
    ∷ []

abbrev pub waiting_to_pending_negative : List Step
waiting_to_pending_negative =
    command main_chan cmd_close_port
    ∷ establish wait_chan
    ∷ command main_chan cmd_open_port
    ∷ closing wait_chan
    ∷ exiting main_chan
    ∷ []

abbrev pub waiting_to_pending_positive : List Step
waiting_to_pending_positive =
    command main_chan cmd_close_port
    ∷ establish wait_chan
    ∷ command main_chan cmd_open_port
    ∷ exiting main_chan
    ∷ wait_exit wait_chan
    ∷ []

abbrev pub pending_waiting_negative : List Step
pending_waiting_negative =
    establish pend_chan
    ∷ command main_chan cmd_close_port
    ∷ establish wait_chan
    ∷ closing pend_chan
    ∷ closing wait_chan
    ∷ exiting main_chan
    ∷ []

abbrev pub pending_waiting_positive : List Step
pending_waiting_positive =
    establish pend_chan
    ∷ command main_chan cmd_close_port
    ∷ establish wait_chan
    ∷ exiting main_chan
    ∷ wait_exit pend_chan
    ∷ wait_exit wait_chan
    ∷ []

abbrev pub pending_closed_waiting_positive : List Step
pending_closed_waiting_positive =
    establish pend_chan
    ∷ command main_chan cmd_close_port
    ∷ establish wait_chan
    ∷ closing pend_chan
    ∷ exiting main_chan
    ∷ wait_exit wait_chan
    ∷ []

abbrev pub pending_waiting_closed_positive : List Step
pending_waiting_closed_positive =
    establish pend_chan
    ∷ command main_chan cmd_close_port
    ∷ establish wait_chan
    ∷ closing wait_chan
    ∷ exiting main_chan
    ∷ wait_exit pend_chan
    ∷ []

abbrev pub port_start_tests : List (List Step)
port_start_tests =
    pending_negative ∷ pending_positive ∷ waiting_negative ∷ waiting_positive
    ∷ pending_to_waiting_negative ∷ pending_to_waiting_positive ∷ waiting_to_pending_negative
    ∷ waiting_to_pending_positive ∷ pending_waiting_negative ∷ pending_waiting_positive
    ∷ pending_closed_waiting_positive ∷ pending_waiting_closed_positive ∷ []
