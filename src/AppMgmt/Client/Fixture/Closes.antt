-- ===== src/AppMgmt/Client/Fixture/Closes.antt =====
-- A test of the fixture AppMgrPortStart, from its set-up to its tear-down, closes what it opens.
use trusty_app_sample.Common.{
  All, Bool, List, arith, false, if_both, not, refl, true, ℕ, ◌&&◌, ◌||◌, ◌≡◌, ◌≤◌,
}
use trusty_app_sample.AppMgmt.Client.{
  Chans, Sys, Test, close_handle, eq_handle, fail, invalid_handle, is_loaded, load_app, main_chan,
  pend_chan, port_start_srv_running, wait_chan,
}
use trusty_app_sample.AppMgmt.Client.Held.{
  Owes, Owes-fail, nothing, one, opened, times, times-close_handle, used,
}
use trusty_app_sample.AppMgmt.Client.Loading.{port_start_srv_running-Owes}
use trusty_app_sample.AppMgmt.Client.Fixture.Occupied.{is_tidy}
use trusty_app_sample.AppMgmt.Client.Fixture.{
  Step, close_all, no_chans, port_start_tests, run_steps, run_test, set_up, tear_down,
}
use trusty_app_sample.AppMgmt.Client.Fixture.Steps.{run_steps-IsRun}
use trusty_app_sample.AppMgmt.Ledger.{no_handles}
use trusty_app_sample.AppMgmt.Client.Fixture.SetUp.{GivesHandles, set_up-IsRun, with_main}

-- At the end of a test: with a failed assertion no handle was closed more often than it was opened,
-- and without one each was closed as often.
abbrev pub AtMost : (failed : Bool) → ℕ → ℕ → Type 0
AtMost true m n = m ≤ n
AtMost false m n = m ≡ n

abbrev pub Settles : {W : Type 0} → ℕ → Test W → Type 0
Settles h t = AtMost t.failed (times h t.ledger.closed) (times h t.ledger.opened)

at_most : (b : Bool) (m n : ℕ) → m ≤ n → (b ≡ false → m ≡ n) → AtMost b m n
at_most true m n le eq = le
at_most false m n le eq = eq refl

-- If no assertion has failed, no channel is left.
abbrev AreCleared : (failed : Bool) → Chans → Type 0
AreCleared true cs = Unit
AreCleared false cs =
    (cs.main ≡ invalid_handle) × (cs.pend ≡ invalid_handle) × (cs.waiting ≡ invalid_handle)

abbrev pub IsCleared : {W : Type 0} → Test W → Type 0
IsCleared t = AreCleared t.failed t.chans

all_cleared :
    (b : Bool) (cs : Chans)
    → (b ≡ false
        → (cs.main ≡ invalid_handle) × (cs.pend ≡ invalid_handle) × (cs.waiting ≡ invalid_handle))
    → AreCleared b cs
all_cleared true cs f = tt
all_cleared false cs f = f refl

module _ {W : Type 0} (sys : Sys W) where
  -- What `close` at the end does with what the test still holds.
  close_all-used :
      (h : ℕ) (t : Test W)
      → (times h (close_all sys t).ledger.closed ≡ used h t)
        × (times h (close_all sys t).ledger.opened ≡ opened h t)
  close_all-used h t =
      let l₁ = close_handle t.chans.main t.ledger in
      let l₂ = close_handle t.chans.pend l₁ in
      let a = times-close_handle h t.chans.main t.ledger in
      let b = times-close_handle h t.chans.pend l₁ in
      let c = times-close_handle h t.chans.waiting l₂ in
      (omega (arith, a.0, b.0, c.0), omega (arith, a.1, b.1, c.1))

  module _ (s : Test W) (unused : s.ledger ≡ no_handles) (fresh : s.chans ≡ no_chans) where
    start_used : (h : ℕ) → (used h s ≡ 0) × (opened h s ≡ 0)
    unfolding times one
    start_used h = (rw (unused, fresh) (omega arith), rw unused refl)

    close_all-Settles : (h : ℕ) (t : Test W) → Owes nothing s t → Settles h (close_all sys t)
    close_all-Settles h t a =
        let z = start_used h in
        let c = close_all-used h t in
        at_most t.failed _ _ (omega (arith, z.0, z.1, c.0, c.1, a.bounded h))
          (λ e. omega (arith, z.0, z.1, c.0, c.1, a.exact e h))

    tear_down-Settles : (h : ℕ) (t : Test W) → Owes nothing s t → Settles h (tear_down sys t)
    unfolding tear_down
    tear_down-Settles h t a =
        let r = port_start_srv_running sys t in
        let b = port_start_srv_running-Owes sys nothing s t a in
        let failing = λ (u : Test W) (c : Owes nothing s u).
          close_all-Settles h (fail u) (Owes-fail nothing nothing s u (λ x. omega arith) c) in
        if_both (Settles h) t.failed _ _ (λ bad. failing t a)
          (λ good.
            if_both (Settles h)
              (r.0
                || not (
                    eq_handle r.1.chans.main invalid_handle
                    && eq_handle r.1.chans.pend invalid_handle
                    && eq_handle r.1.chans.waiting invalid_handle))
              _ _ (λ left. failing r.1 b) (λ done. close_all-Settles h r.1 b))

  -- A test of the fixture whose app is loaded, from its set-up to its tear-down, whatever the other
  -- system calls return and whatever its channels hold before the set-up: it closes no handle more
  -- often than it has opened it, and if no assertion of it fails, it closes each exactly as often;
  -- and behind its steps, if no assertion has failed, none of the three channels is left, so that
  -- the tear-down's check of them holds. For steps that put a connection only where there is none
  -- and leave none, from no handles, and with no handle that has the number 0. An app that is not
  -- loaded is left out: then the set-up ends before it sets the channels, and the tear-down closes
  -- what they hold (app-mgmt-test/client/main.c:416).
  pub run_test-Settles :
      (app_size : ℕ) (steps : List Step) (s : Test W) (h : ℕ)
      → GivesHandles sys
      → is_tidy steps with_main ≡ true
      → s.ledger ≡ no_handles
      → (load_app sys app_size s).1.failed ≡ false
      → is_loaded sys (load_app sys app_size s).0 ≡ true
      → Settles h (run_test sys app_size steps s)
        × IsCleared (run_steps sys steps (set_up sys app_size s))
  unfolding run_test
  run_test-Settles app_size steps s h gives tidy unused loads known =
      let s' : Test W = record s { chans = no_chans } in
      let v =
        run_steps-IsRun s' sys steps with_main (set_up sys app_size s) tidy
          (set_up-IsRun sys gives s app_size loads known) in
      (
        tear_down-Settles s' unused refl h (run_steps sys steps (set_up sys app_size s)) v.owes,
        all_cleared (run_steps sys steps (set_up sys app_size s)).failed _
            (λ e. (v.empty e main_chan refl, v.empty e pend_chan refl, v.empty e wait_chan refl)),
      )

-- The tests of the file are such lists of steps.
pub port_start_tests_tidy : All (λ steps. is_tidy steps with_main ≡ true) port_start_tests
unfolding is_tidy
port_start_tests_tidy = (
  refl,
  (refl, (refl, (refl, (refl, (refl, (refl, (refl, (refl, (refl, (refl, (refl, tt))))))))))),
)
