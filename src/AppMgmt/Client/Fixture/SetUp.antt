-- ===== src/AppMgmt/Client/Fixture/SetUp.antt =====
-- The set-up of the fixture AppMgrPortStart keeps account of the handles.
use trusty_app_sample.Common.{
  Bool, ap, arith, false, if_both, is_neg, is_zero, ltb, negsuc, not, pos, refl, suc, sym, true,
  zero, ℕ, ℤ, ◌+◌, ◌||◌, ◌∙◌, ◌≡◌,
}
use trusty_app_sample.AppMgmt.Client.{
  ChanIdx, Chans, Port, Sys, Test, chan_at, close_chan, fail, invalid_handle, is_loaded,
  is_positive, load_app, main_chan, open_chan, pend_chan, port_start_srv_running, set_chan,
  shutdown_port, start_port, wait_chan,
}
use trusty_app_sample.AppMgmt.Client.Held.{
  Owes, Owes-close, Owes-fail, Owes-self, Owes-world, held, nothing, one,
}
use trusty_app_sample.AppMgmt.Client.Loading.{
  load_app-Owes, load_app-chans, open_chan-Owes, port_start_srv_running-Owes,
}
use trusty_app_sample.AppMgmt.Client.Fixture.Occupied.{Empty, Occupied, true_false}
use trusty_app_sample.AppMgmt.Client.Fixture.{connect_main, no_chans, set_up, shut_down}
use trusty_app_sample.AppMgmt.Client.Fixture.Steps.{IsRun, Owes-store, failed-IsRun}

abbrev pub with_main : Occupied
with_main = record { main = true; pend = false; waiting = false }

-- The kernel gives no handle with the number 0.
unfoldable pub GivesHandles : {W : Type 0} → Sys W → Type 0
GivesHandles {W} sys =
    (port : Port) (is_async wait_for_port : Bool) (w : W)
    → is_zero (sys.connect port is_async wait_for_port w).0 ≡ false

one_none : (h : ℕ) (c : ℤ) → is_positive c ≡ false → is_zero c ≡ false → one h c ≡ 0
unfolding one
one_none h (pos zero) p z = true_false z
one_none h (pos (suc n)) p z = let q : ltb 0 (suc n) ≡ true = ground arith in true_false (sym q ∙ p)
one_none h (negsuc e) p z = refl

only_main :
    (j : ChanIdx) (c : ℤ) (cs : Chans) → cs ≡ no_chans → Empty with_main (set_chan main_chan c cs) j
only_main main_chan c cs fresh e = true_false e
only_main pend_chan c cs fresh e = ap (λ x. x.pend) fresh
only_main wait_chan c cs fresh e = ap (λ x. x.waiting) fresh

-- An account since `s` does not depend on what the channels hold, if they are the same.
Owes-reset :
    {W : Type 0} (s t : Test W)
    → t.chans ≡ s.chans
    → Owes nothing s t
    → Owes nothing (record s { chans = no_chans }) (record t { chans = no_chans })
Owes-reset s t same a = record {
  bounded = λ h. omega (arith, a.bounded h, ap (held h) same);
  before = a.before;
  exact = λ z h. omega (arith, a.exact z h, ap (held h) same);
}

module _ {W : Type 0} (sys : Sys W) where
  shut_down-chans : (t : Test W) → (shut_down sys t).chans ≡ t.chans
  unfolding shut_down
  shut_down-chans t = ground arith

  module _ (gives : GivesHandles sys) (s : Test W) where
    shut_down-Owes : (t : Test W) → Owes nothing s t → Owes nothing s (shut_down sys t)
    unfolding shut_down open_chan GivesHandles
    shut_down-Owes t a =
        let c = open_chan sys shutdown_port true false t in
        let w = sys.wait c.0 false c.1.world in
        let t₁ = record (c.1) { world = w.2 } in
        let t₂ = close_chan c.0 t₁ in
        let k = λ (h : ℕ). nothing h + one h c.0 in
        let b = open_chan-Owes sys nothing s shutdown_port true false t a in
        let d = Owes-close k nothing c.0 s t₁ (λ h. omega arith) (Owes-world k s c.1 w.2 b) in
        if_both (Owes nothing s) (not (is_positive c.0)) _ _
          (λ none. record {
            bounded = λ h. omega (arith, b.bounded h);
            before = b.before;
            exact = λ e h. omega (
              arith,
              b.exact e h,
              one_none h c.0 (ground (arith, none)) (gives shutdown_port true false t.world),
            );
          })
          (λ there.
            if_both (Owes nothing s) (is_neg w.0 || not w.1.hup) _ _
              (λ bad. Owes-fail nothing nothing s t₂ (λ h. omega arith) d) (λ good. d))

    connect_main-IsRun :
        (t : Test W)
        → t.chans ≡ no_chans
        → Owes nothing s t
        → IsRun s with_main (connect_main sys t)
    unfolding connect_main port_start_srv_running open_chan
    connect_main-IsRun t fresh a =
        let P = IsRun s with_main in
        let r = port_start_srv_running sys t in
        let c = open_chan sys start_port false false r.1 in
        let k = λ (h : ℕ). nothing h + one h c.0 in
        let b = port_start_srv_running-Owes sys nothing s t a in
        let d = open_chan-Owes sys nothing s start_port false false r.1 b in
        let main_free : chan_at main_chan c.1.chans ≡ invalid_handle = ap (λ x. x.main) fresh in
        if_both P r.0 _ _
          (λ running.
            failed-IsRun s with_main (fail r.1) refl
              (Owes-fail nothing nothing s r.1 (λ h. omega arith) b))
          (λ stopped.
            if_both P (is_neg c.0) _ _
              (λ refused.
                failed-IsRun s with_main (fail c.1) refl
                  (Owes-fail k nothing s c.1 (λ h. omega arith) d))
              (λ given. record {
                owes = Owes-store s main_chan c.0 c.1 c.1.world main_free d;
                empty = λ e j. only_main j c.0 c.1.chans fresh;
              }))

  -- For an app that is loaded: what the channels held before plays no part.
  pub set_up-IsRun :
      (gives : GivesHandles sys) (s : Test W) (app_size : ℕ)
      → (load_app sys app_size s).1.failed ≡ false
      → is_loaded sys (load_app sys app_size s).0 ≡ true
      → IsRun (record s { chans = no_chans }) with_main (set_up sys app_size s)
  unfolding set_up
  set_up-IsRun gives s app_size loads known =
      let s' : Test W = record s { chans = no_chans } in
      let P = IsRun s' with_main in
      let r = load_app sys app_size s in
      let t₁ = record (r.1) { chans = no_chans } in
      let t₂ = shut_down sys t₁ in
      let a =
        Owes-reset s r.1 (load_app-chans sys app_size s)
          (load_app-Owes sys nothing s app_size s (Owes-self s)) in
      let b = shut_down-Owes gives s' t₁ a in
      if_both P r.1.failed _ _ (λ bad. true_false (sym bad ∙ loads))
        (λ good.
          if_both P (not (is_loaded sys r.0)) _ _ (λ bad. true_false (sym bad ∙ ap not known))
            (λ there.
              if_both P t₂.failed _ _ (λ bad. failed-IsRun s' with_main t₂ bad b)
                (λ down. connect_main-IsRun gives s' t₂ (shut_down-chans t₁) b)))
