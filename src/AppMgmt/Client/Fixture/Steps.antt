-- ===== src/AppMgmt/Client/Fixture/Steps.antt =====
-- The steps of the fixture AppMgrPortStart keep account of the handles.
use trusty_app_sample.Common.{
  List, [], ap, arith, false, if_both, is_neg, is_zero, not, refl, sym, true, ℕ, ℤ, ◌&&◌, ◌+◌, ◌∙◌,
  ◌∷◌, ◌≡◌,
}
use trusty_app_sample.AppMgmt.Client.{
  ChanIdx, Sys, Test, chan_at, chan_send_cmd, close_chan, cmd_exit, eq_handle, fail, invalid_handle,
  open_chan, set_chan, start_port,
}
use trusty_app_sample.AppMgmt.Client.Held.{
  Owes, Owes-fail, Owes-settle, Owes-world, held-set_chan, nothing, one, times-close_handle,
}
use trusty_app_sample.AppMgmt.Client.Loading.{open_chan-Owes}
use trusty_app_sample.AppMgmt.Client.Fixture.Occupied.{
  Empty, Empty-set, Occupied, after, and_both, is_free, is_occupied, is_tidy, none_occupied,
  set_occupied, true_false,
}
use trusty_app_sample.AppMgmt.Client.Fixture.{
  Step, close_channel, closing, command, establish, establish_unhandled_channel, exiting, perform,
  run_steps, send_cmd, send_exit, wait_and_exit, wait_exit,
}

module _ {W : Type 0} (s : Test W) where
  -- The account of a test since `s`, and the channels that it is not holding.
  pub record IsRun (o : Occupied) (t : Test W) : Type 0 where
    pub owes : Owes nothing s t
    pub empty : t.failed ≡ false → (j : ChanIdx) → Empty o t.chans j

  pub failed-IsRun : (o : Occupied) (t : Test W) → t.failed ≡ true → Owes nothing s t → IsRun o t
  failed-IsRun o t bad a = record { owes = a; empty = λ e. true_false (sym bad ∙ e) }

  pub Owes-store :
      (idx : ChanIdx) (c : ℤ) (u : Test W) (w : W)
      → chan_at idx u.chans ≡ invalid_handle
      → Owes (λ h. nothing h + one h c) s u
      → Owes nothing s (record u { world = w; chans = set_chan idx c u.chans })
  unfolding one
  Owes-store idx c u w free a = record {
    bounded = λ h. omega (arith, a.bounded h, held-set_chan h idx c u.chans, ap (one h) free);
    before = a.before;
    exact = λ e h. omega (arith, a.exact e h, held-set_chan h idx c u.chans, ap (one h) free);
  }

  Owes-release :
      (idx : ChanIdx) (t : Test W)
      → Owes nothing s t
      → Owes nothing s (record (close_chan (chan_at idx t.chans) t) {
        chans = set_chan idx invalid_handle t.chans;
      })
  unfolding one
  Owes-release idx t a =
      let c = chan_at idx t.chans in
      record {
        bounded = λ h.
            let m = times-close_handle h c t.ledger in
            omega (arith, a.bounded h, held-set_chan h idx invalid_handle t.chans, m.0, m.1);
        before = a.before;
        exact = λ e h.
            let m = times-close_handle h c t.ledger in
            omega (arith, a.exact e h, held-set_chan h idx invalid_handle t.chans, m.0, m.1);
      }

  module _ (sys : Sys W) (o : Occupied) where
    establish-IsRun :
        (idx : ChanIdx) (t : Test W)
        → is_occupied idx o ≡ false
        → IsRun o t
        → IsRun (set_occupied idx true o) (establish_unhandled_channel sys idx t)
    unfolding establish_unhandled_channel open_chan
    establish-IsRun idx t free v =
        let o' = set_occupied idx true o in
        let c = open_chan sys start_port true false t in
        let w = sys.wait c.0 true c.1.world in
        let a = open_chan-Owes sys nothing s start_port true false t v.owes in
        let k = λ (h : ℕ). nothing h + one h c.0 in
        let u = record (c.1) { world = w.2 } in
        if_both (IsRun o') t.failed _ _ (λ bad. failed-IsRun o' t bad v.owes)
          (λ good.
            if_both (IsRun o') (is_neg c.0) _ _
              (λ refused.
                failed-IsRun o' (fail c.1) refl (Owes-fail k nothing s c.1 (λ h. omega arith) a))
              (λ given.
                if_both (IsRun o') (not (eq_handle w.0 sys.err_timed_out)) _ _
                  (λ handled.
                    failed-IsRun o' (fail u) refl
                      (Owes-fail k nothing s u (λ h. omega arith) (Owes-world k s c.1 w.2 a)))
                  (λ pending. record {
                    owes = Owes-store idx c.0 c.1 w.2 (v.empty good idx free) a;
                    empty =
                        λ e. Empty-set idx true c.0 o t.chans (λ b. true_false b) (v.empty good);
                  })))

    close_channel-IsRun :
        (idx : ChanIdx) (t : Test W)
        → IsRun o t
        → IsRun (set_occupied idx false o) (close_channel sys idx t)
    unfolding close_channel
    close_channel-IsRun idx t v =
        let o' = set_occupied idx false o in
        if_both (IsRun o') t.failed _ _ (λ bad. failed-IsRun o' t bad v.owes)
          (λ good. record {
            owes = Owes-release idx t v.owes;
            empty = λ e. Empty-set idx false invalid_handle o t.chans (λ b. refl) (v.empty good);
          })

    send_cmd-IsRun :
        (idx : ChanIdx) (cmd : ℕ) (t : Test W) → IsRun o t → IsRun o (send_cmd sys idx cmd t)
    unfolding send_cmd chan_send_cmd
    send_cmd-IsRun idx cmd t v =
        if_both (IsRun o) t.failed _ _ (λ bad. v)
          (λ good.
            if_both (IsRun o) t.failed _ _ (λ bad. v)
              (λ good'. record {
                owes = Owes-settle nothing s t _ good v.owes;
                empty = λ e. v.empty good;
              }))

    send_exit-IsRun :
        (idx : ChanIdx) (t : Test W)
        → IsRun o t
        → IsRun (set_occupied idx false o) (send_exit sys idx t)
    unfolding send_exit
    send_exit-IsRun idx t v =
        if_both (IsRun (set_occupied idx false o)) t.failed _ _
          (λ bad. failed-IsRun (set_occupied idx false o) t bad v.owes)
          (λ good.
            close_channel-IsRun idx (send_cmd sys idx cmd_exit t) (send_cmd-IsRun idx cmd_exit t v))

    wait_and_exit-IsRun :
        (idx : ChanIdx) (t : Test W)
        → IsRun o t
        → IsRun (set_occupied idx false o) (wait_and_exit sys idx t)
    unfolding wait_and_exit
    wait_and_exit-IsRun idx t v =
        let o' = set_occupied idx false o in
        let w = sys.wait (chan_at idx t.chans) false t.world in
        let t₁ = record t { world = w.2 } in
        let a = Owes-world nothing s t w.2 v.owes in
        if_both (IsRun o') t.failed _ _ (λ bad. failed-IsRun o' t bad v.owes)
          (λ good.
            if_both (IsRun o') (not (is_zero w.0 && w.1.ready)) _ _
              (λ other.
                failed-IsRun o' (fail t₁) refl
                  (Owes-fail nothing nothing s t₁ (λ h. omega arith) a))
              (λ ready. send_exit-IsRun idx t₁ (record { owes = a; empty = v.empty })))

    perform-IsRun :
        (step : Step) (t : Test W)
        → is_free step o ≡ true
        → IsRun o t
        → IsRun (after step o) (perform sys step t)
    unfolding perform
    perform-IsRun (establish idx) t free v = establish-IsRun idx t (ground (arith, free)) v
    perform-IsRun (closing idx) t free v = close_channel-IsRun idx t v
    perform-IsRun (command idx cmd) t free v = send_cmd-IsRun idx cmd t v
    perform-IsRun (exiting idx) t free v = send_exit-IsRun idx t v
    perform-IsRun (wait_exit idx) t free v = wait_and_exit-IsRun idx t v

  -- After a tidy list of steps with no failed assertion, no channel is left.
  pub run_steps-IsRun :
      (sys : Sys W) (steps : List Step) (o : Occupied) (t : Test W)
      → is_tidy steps o ≡ true
      → IsRun o t
      → IsRun (record { main = false; pend = false; waiting = false }) (run_steps sys steps t)
  unfolding run_steps is_tidy
  run_steps-IsRun sys [] o t tidy v = record {
    owes = v.owes;
    empty = λ e j. λ none. v.empty e j (none_occupied o tidy j);
  }
  run_steps-IsRun sys (step ∷ steps) o t tidy v =
      let both = and_both _ _ tidy in
      run_steps-IsRun sys steps (after step o) (perform sys step t) both.1
        (perform-IsRun sys o step t both.0 v)
