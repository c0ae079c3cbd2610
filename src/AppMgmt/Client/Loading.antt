-- ===== src/AppMgmt/Client/Loading.antt =====
-- What load_app of app-mgmt-test/client/main.c opens, it closes.
use trusty_app_sample.Common.{
  Bool, arith, false, if_both, is_zero, le_refl, not, refl, true, ℕ, ℤ, ◌&&◌, ◌+◌, ◌==◌, ◌∙◌, ◌≡◌,
}
use trusty_app_sample.AppMgmt.Client.{
  Port, Sys, Test, apploader_port, chan_send_cmd, ctrl_port, exchange_load, fail, hold_new,
  is_positive, load_app, open_chan, port_start_srv_running, read_apploader_response,
  recv_apploader_response, send_apploader_request, talk,
}
use trusty_app_sample.AppMgmt.Client.Held.{
  Owes, Owes-close, Owes-fail, Owes-hold, Owes-settle, Owes-world, one,
}

-- A part that keeps what is owed since `s`.
module _ {W : Type 0} (sys : Sys W) (k : ℕ → ℕ) (s : Test W) where
  pub open_chan-Owes :
      (port : Port) (is_async wait_for_port : Bool) (t : Test W)
      → Owes k s t
      → let r = open_chan sys port is_async wait_for_port t in Owes (λ h. k h + one h r.0) s r.1
  unfolding open_chan
  open_chan-Owes port is_async wait_for_port t a =
      let r = sys.connect port is_async wait_for_port t.world in Owes-hold k r.0 s t r.1 a

  pub chan_send_cmd-Owes :
      (chan : ℤ) (cmd : ℕ) (t : Test W) → Owes k s t → Owes k s (chan_send_cmd sys chan cmd t)
  unfolding chan_send_cmd
  chan_send_cmd-Owes chan cmd t a =
      if_both (Owes k s) t.failed _ _ (λ bad. a)
        (λ good. Owes-settle k s t (talk sys chan cmd t.world) good a)

  send_apploader_request-Owes :
      (chan : ℤ) (cmd size : ℕ) (memref : ℤ) (t : Test W)
      → Owes k s t
      → Owes k s (send_apploader_request sys chan cmd size memref t)
  unfolding send_apploader_request
  send_apploader_request-Owes chan cmd size memref t a =
      if_both (Owes k s) t.failed _ _ (λ bad. a) (λ good. Owes-settle k s t _ good a)

  recv_apploader_response-Owes :
      (chan : ℤ) (cmd : ℕ) (t : Test W)
      → Owes k s t
      → Owes k s (recv_apploader_response sys chan cmd t).1
  unfolding recv_apploader_response
  recv_apploader_response-Owes chan cmd t a =
      let P = λ (r : ℕ × Test W). Owes k s r.1 in
      let waited = sys.wait chan false t.world in
      let got = sys.get_msg chan waited.2 in
      let read = read_apploader_response sys chan cmd got.1 got.2 in
      if_both P t.failed _ _ (λ bad. a)
        (λ good.
          let done = λ (r : Bool × W). Owes-settle k s t r good a in
          if_both P (not (is_zero waited.0 && waited.1.msg)) _ _ (λ no_msg. done (false, waited.2))
            (λ msg.
              if_both P (not (is_zero got.0)) _ _ (λ no_msg. done (false, got.2))
                (λ there. done (read.1, sys.put_msg chan read.2))))

  exchange_load-Owes :
      (chan memref : ℤ) (app_size : ℕ) (t : Test W)
      → Owes k s t
      → Owes k s (exchange_load sys chan memref app_size t).1
  unfolding exchange_load
  exchange_load-Owes chan memref app_size t a =
      let P = λ (r : ℕ × Test W). Owes k s r.1 in
      let t₁ = send_apploader_request sys chan sys.load_cmd app_size memref t in
      let r = recv_apploader_response sys chan sys.load_cmd t₁ in
      let sent = send_apploader_request-Owes chan sys.load_cmd app_size memref t a in
      let received = recv_apploader_response-Owes chan sys.load_cmd t₁ sent in
      if_both P t₁.failed _ _ (λ bad. Owes-fail k k s t₁ (λ h. le_refl _) sent)
        (λ good.
          if_both P r.1.failed _ _ (λ bad. Owes-fail k k s r.1 (λ h. le_refl _) received)
            (λ good'.
              if_both P (r.0 == sys.no_error) _ _ (λ new. Owes-world k s r.1 _ received)
                (λ old. received)))

module _ {W : Type 0} (sys : Sys W) (k : ℕ → ℕ) (s : Test W) where
  pub port_start_srv_running-Owes :
      (t : Test W) → Owes k s t → Owes k s (port_start_srv_running sys t).1
  unfolding port_start_srv_running
  port_start_srv_running-Owes t a =
      let t' = record t { world = sys.nanosleep t.world } in
      let c = open_chan sys ctrl_port true false t' in
      Owes-close (λ h. k h + one h c.0) k c.0 s c.1 (λ h. omega arith)
        (open_chan-Owes sys k s ctrl_port true false t' (Owes-world k s t _ a))

  pub load_app-Owes :
      (app_size : ℕ) (t : Test W) → Owes k s t → Owes k s (load_app sys app_size t).1
  unfolding load_app
  load_app-Owes app_size t a =
      let P = λ (r : ℕ × Test W). Owes k s r.1 in
      let c = open_chan sys apploader_port false true t in
      let m = sys.memref_create (sys.round_up app_size) c.1.world in
      let t₂ = record (c.1) { ledger = hold_new m.0 c.1.ledger; world = m.1 } in
      let k₁ = λ (h : ℕ). k h + one h c.0 in
      let k₂ = λ (h : ℕ). k₁ h + one h m.0 in
      let a₁ = open_chan-Owes sys k s apploader_port false true t a in
      let a₂ = Owes-hold k₁ m.0 s c.1 m.1 a₁ in
      if_both P (not (is_positive c.0)) _ _ (λ bad. Owes-fail k₁ k s c.1 (λ h. omega arith) a₁)
        (λ good.
          if_both P (not (is_positive m.0)) _ _
            (λ bad.
              Owes-close k₁ k c.0 s (fail t₂) (λ h. omega arith)
                (Owes-fail k₂ k₁ s t₂ (λ h. omega arith) a₂))
            (λ good'.
              Owes-close k₁ k c.0 s _ (λ h. omega arith)
                (Owes-close k₂ k₁ m.0 s _ (λ h. omega arith)
                  (exchange_load-Owes sys k₂ s c.0 m.0 app_size t₂ a₂))))

-- The fixture's handles are left as they are.
module _ {W : Type 0} (sys : Sys W) where
  request_chans :
      (chan : ℤ) (cmd size : ℕ) (memref : ℤ) (t : Test W)
      → (send_apploader_request sys chan cmd size memref t).chans ≡ t.chans
  unfolding send_apploader_request
  request_chans chan cmd size memref t =
      if_both (λ (u : Test W). u.chans ≡ t.chans) t.failed _ _ (λ bad. refl) (λ good. refl)

  response_chans :
      (chan : ℤ) (cmd : ℕ) (t : Test W) → (recv_apploader_response sys chan cmd t).1.chans ≡ t.chans
  unfolding recv_apploader_response
  response_chans chan cmd t =
      let P = λ (r : ℕ × Test W). r.1.chans ≡ t.chans in
      let waited = sys.wait chan false t.world in
      let got = sys.get_msg chan waited.2 in
      if_both P t.failed _ _ (λ bad. refl)
        (λ good.
          if_both P (not (is_zero waited.0 && waited.1.msg)) _ _ (λ no_msg. refl)
            (λ msg. if_both P (not (is_zero got.0)) _ _ (λ no_msg. refl) (λ there. refl)))

  exchange_load-chans :
      (chan memref : ℤ) (app_size : ℕ) (t : Test W)
      → (exchange_load sys chan memref app_size t).1.chans ≡ t.chans
  unfolding exchange_load
  exchange_load-chans chan memref app_size t =
      let P = λ (r : ℕ × Test W). r.1.chans ≡ t.chans in
      let t₁ = send_apploader_request sys chan sys.load_cmd app_size memref t in
      let r = recv_apploader_response sys chan sys.load_cmd t₁ in
      let sent = request_chans chan sys.load_cmd app_size memref t in
      let received = response_chans chan sys.load_cmd t₁ ∙ sent in
      if_both P t₁.failed _ _ (λ bad. sent)
        (λ good.
          if_both P r.1.failed _ _ (λ bad. received)
            (λ good'. if_both P (r.0 == sys.no_error) _ _ (λ new. received) (λ old. received)))

  pub load_app-chans : (app_size : ℕ) (t : Test W) → (load_app sys app_size t).1.chans ≡ t.chans
  unfolding load_app open_chan
  load_app-chans app_size t =
      let P = λ (r : ℕ × Test W). r.1.chans ≡ t.chans in
      let c = open_chan sys apploader_port false true t in
      let m = sys.memref_create (sys.round_up app_size) c.1.world in
      if_both P (not (is_positive c.0)) _ _ (λ bad. refl)
        (λ good.
          if_both P (not (is_positive m.0)) _ _ (λ bad. refl)
            (λ good'.
              exchange_load-chans c.0 m.0 app_size
                (record (c.1) { ledger = hold_new m.0 c.1.ledger; world = m.1 })))
