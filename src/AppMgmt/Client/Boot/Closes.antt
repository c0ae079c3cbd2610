-- ===== src/AppMgmt/Client/Boot/Closes.antt =====
-- The tests of app-mgmt-test/client/main.c that use no fixture close what they open.
use trusty_app_sample.Common.{
  All, Bool, List, [], arith, false, if_both, if◌then◌else◌, is_neg, le_refl, not, true, ℕ, ◌+◌,
  ◌==◌, ◌∷◌,
}
use trusty_app_sample.AppMgmt.Client.{
  Port, Sys, Test, boot_start_port, chan_send_cmd, cmd_exit, ctrl_port, fail, is_loaded, load_app,
  never_start_port, open_chan, port_start_srv_running, port_waiter_port, start_fail_port,
  start_port,
}
use trusty_app_sample.AppMgmt.Client.Held.{
  Owes, Owes-close, Owes-fail, Owes-self, Owes-world, nothing, one,
}
use trusty_app_sample.AppMgmt.Client.Loading.{
  chan_send_cmd-Owes, load_app-Owes, open_chan-Owes, port_start_srv_running-Owes,
}
use trusty_app_sample.AppMgmt.Client.Boot.{
  answered, app_restart_negative, ask_waiter, boot_start_negative, boot_start_positive, double_load,
  exits, fails_to_start, fails_twice, is_hung_up, load_both, load_expecting, load_then,
  port_start_fail, port_start_negative, probe, unlocked_dev_load, unsigned_app,
  wait_connect_for_port,
}

module _ {W : Type 0} (sys : Sys W) (s : Test W) where
  fail-Owes : (t : Test W) → Owes nothing s t → Owes nothing s (fail t)
  fail-Owes t a = Owes-fail nothing nothing s t (λ h. omega arith) a

  load_then-Owes :
      (app_size : ℕ) (body : Test W → Test W) (t : Test W)
      → ((u : Test W) → Owes nothing s u → Owes nothing s (body u))
      → Owes nothing s t
      → Owes nothing s (load_then sys app_size body t)
  unfolding load_then
  load_then-Owes app_size body t f a =
      let P = Owes nothing s in
      let r = load_app sys app_size t in
      let b = load_app-Owes sys nothing s app_size t a in
      if_both P r.1.failed _ _ (λ bad. fail-Owes r.1 b)
        (λ good.
          if_both P (not (is_loaded sys r.0)) _ _ (λ bad. fail-Owes r.1 b) (λ known. f r.1 b))

  load_expecting-Owes :
      (app_size expected : ℕ) (t : Test W)
      → Owes nothing s t
      → Owes nothing s (load_expecting sys app_size expected t)
  unfolding load_expecting
  load_expecting-Owes app_size expected t a =
      let P = Owes nothing s in
      let r = load_app sys app_size t in
      let b = load_app-Owes sys nothing s app_size t a in
      if_both P r.1.failed _ _ (λ bad. fail-Owes r.1 b)
        (λ good. if_both P (not (r.0 == expected)) _ _ (λ bad. fail-Owes r.1 b) (λ known. b))

  probe-Owes :
      (port : Port) (expected : Bool) (t : Test W)
      → Owes nothing s t
      → Owes nothing s (probe sys port expected t)
  unfolding probe
  probe-Owes port expected t a =
      let c = open_chan sys port true false t in
      let k = λ (h : ℕ). nothing h + one h c.0 in
      let b = open_chan-Owes sys nothing s port true false t a in
      Owes-close k nothing c.0 s _ (λ h. omega arith)
        (if_both (Owes k s) (if expected then is_neg c.0 else not (is_neg c.0)) _ _
          (λ bad. Owes-fail k k s c.1 (λ h. le_refl _) b) (λ good. b))

  exits-Owes : (t : Test W) → Owes nothing s t → Owes nothing s (exits sys t)
  unfolding exits
  exits-Owes t a =
      let P = Owes nothing s in
      let c = open_chan sys start_port false false t in
      let k = λ (h : ℕ). nothing h + one h c.0 in
      let b = open_chan-Owes sys nothing s start_port false false t a in
      let t₂ = chan_send_cmd sys c.0 cmd_exit c.1 in
      let d = chan_send_cmd-Owes sys k s c.0 cmd_exit c.1 b in
      let r = port_start_srv_running sys t₂ in
      let e = port_start_srv_running-Owes sys k s t₂ d in
      let closing =
        λ (u : Test W) (x : Owes k s u). Owes-close k nothing c.0 s u (λ h. omega arith) x in
      if_both P (is_neg c.0) _ _ (λ bad. Owes-fail k nothing s c.1 (λ h. omega arith) b)
        (λ given.
          if_both P t₂.failed _ _ (λ bad. closing (fail t₂) (Owes-fail k k s t₂ (λ h. le_refl _) d))
            (λ sent.
              if_both P r.0 _ _
                (λ running. closing (fail r.1) (Owes-fail k k s r.1 (λ h. le_refl _) e))
                (λ stopped. closing r.1 e)))

  fails_to_start-Owes : (t : Test W) → Owes nothing s t → Owes nothing s (fails_to_start sys t)
  unfolding fails_to_start
  fails_to_start-Owes t a =
      let P = Owes nothing s in
      let c = open_chan sys start_fail_port true false t in
      let k = λ (h : ℕ). nothing h + one h c.0 in
      let b = open_chan-Owes sys nothing s start_fail_port true false t a in
      let r = is_hung_up sys c.0 true c.1.world in
      let t₂ = record (c.1) { world = r.1 } in
      let d = Owes-world k s c.1 r.1 b in
      if_both P (is_neg c.0) _ _ (λ bad. Owes-fail k nothing s c.1 (λ h. omega arith) b)
        (λ given.
          if_both P (not r.0) _ _ (λ bad. Owes-fail k nothing s t₂ (λ h. omega arith) d)
            (λ hup. Owes-close k nothing c.0 s t₂ (λ h. omega arith) d))

  fails_twice-Owes : (t : Test W) → Owes nothing s t → Owes nothing s (fails_twice sys t)
  unfolding fails_twice
  fails_twice-Owes t a =
      let b = fails_to_start-Owes t a in
      if_both (Owes nothing s) (fails_to_start sys t).failed _ _ (λ bad. b)
        (λ good. fails_to_start-Owes (fails_to_start sys t) b)

  ask_waiter-Owes : (t : Test W) → Owes nothing s t → Owes nothing s (ask_waiter sys t)
  unfolding ask_waiter
  ask_waiter-Owes t a =
      let c = open_chan sys port_waiter_port true true t in
      let k = λ (h : ℕ). nothing h + one h c.0 in
      let b = open_chan-Owes sys nothing s port_waiter_port true true t a in
      let r = answered sys c.0 c.1.world in
      let t₂ = record (c.1) { world = r.1 } in
      let d = Owes-world k s c.1 r.1 b in
      if_both (Owes nothing s) (is_neg c.0) _ _
        (λ bad. Owes-fail k nothing s c.1 (λ h. omega arith) b)
        (λ given.
          Owes-close k nothing c.0 s _ (λ h. omega arith)
            (if_both (Owes k s) r.0 _ _ (λ good. d) (λ bad. Owes-fail k k s t₂ (λ h. le_refl _) d)))

  load_both-Owes :
      (waiter_size start_size : ℕ) (t : Test W)
      → Owes nothing s t
      → Owes nothing s (load_both sys waiter_size start_size t)
  unfolding load_both
  load_both-Owes waiter_size start_size t a =
      load_then-Owes waiter_size _ t
        (λ u b.
          let v = load_expecting sys start_size sys.no_error u in
          let c = load_expecting-Owes start_size sys.no_error u b in
          if_both (Owes nothing s) v.failed _ _ (λ bad. c) (λ good. ask_waiter-Owes v c))
        a

module _ {W : Type 0} (sys : Sys W) where
  -- The tests without a fixture, but for app_restart_positive.
  abbrev pub boot_tests : (skip : Bool) → (waiter_size app_size : ℕ) → List (Test W → Test W)
  boot_tests skip waiter_size app_size =
      double_load sys app_size
      ∷ (λ t. (wait_connect_for_port sys skip waiter_size app_size t).1)
      ∷ boot_start_negative sys app_size
      ∷ boot_start_positive sys app_size
      ∷ app_restart_negative sys app_size
      ∷ port_start_fail sys app_size
      ∷ port_start_negative sys app_size
      ∷ unsigned_app sys app_size
      ∷ unlocked_dev_load sys app_size
      ∷ []

  wait_connect-Owes :
      (skip : Bool) (waiter_size start_size : ℕ) (t : Test W)
      → Owes nothing t (wait_connect_for_port sys skip waiter_size start_size t).1
  unfolding wait_connect_for_port
  wait_connect-Owes skip waiter_size start_size t =
      let P = λ (r : Bool × Test W). Owes nothing t r.1 in
      let r = port_start_srv_running sys t in
      let a = port_start_srv_running-Owes sys nothing t t (Owes-self t) in
      if_both P skip _ _ (λ again. Owes-self t)
        (λ first.
          if_both P r.0 _ _ (λ running. fail-Owes sys t r.1 a)
            (λ stopped. load_both-Owes sys t waiter_size start_size r.1 a))

  unlocked_dev_load-Owes :
      (app_size : ℕ) (t : Test W) → Owes nothing t (unlocked_dev_load sys app_size t)
  unfolding unlocked_dev_load
  unlocked_dev_load-Owes app_size t =
      let r = load_app sys app_size t in
      let u = sys.loading_unlocked r.1.world in
      let a = load_app-Owes sys nothing t app_size t (Owes-self t) in
      let b = Owes-world nothing t r.1 u.1 a in
      if_both (Owes nothing t) r.1.failed _ _ (λ bad. fail-Owes sys t r.1 a)
        (λ good.
          if_both (Owes nothing t)
            (not (if u.0 then is_loaded sys r.0 else r.0 == sys.verification_failed)) _ _
            (λ other. fail-Owes sys t (record (r.1) { world = u.1 }) b) (λ expected. b))

  -- Whatever the system calls return, none of these tests closes a handle more often than it has
  -- opened it, and each that ends with no failed assertion has closed every handle exactly as often
  -- as it has opened it.
  pub boot_tests-Owes :
      (skip : Bool) (waiter_size app_size : ℕ) (t : Test W)
      → All (λ test. Owes nothing t (test t)) (boot_tests skip waiter_size app_size)
  unfolding double_load boot_start_negative boot_start_positive app_restart_negative port_start_fail
      port_start_negative unsigned_app
  boot_tests-Owes skip waiter_size app_size t =
      let start = Owes-self t in
      let loaded =
        λ (body : Test W → Test W) (f : (u : Test W) → Owes nothing t u → Owes nothing t (body u)).
          load_then-Owes sys t app_size body t f start in
      (
        loaded _ (load_expecting-Owes sys t app_size sys.already_exists),
        (
          wait_connect-Owes skip waiter_size app_size t,
          (
            loaded _ (probe-Owes sys t never_start_port false),
            (
              loaded _ (probe-Owes sys t boot_start_port true),
              (
                loaded _ (exits-Owes sys t),
                (
                  loaded _ (fails_twice-Owes sys t),
                  (
                    loaded _ (probe-Owes sys t ctrl_port false),
                    (
                      load_expecting-Owes sys t app_size sys.verification_failed t start,
                      (unlocked_dev_load-Owes app_size t, tt),
                    ),
                  ),
                ),
              ),
            ),
          ),
        ),
      )
