-- ===== src/AppMgmt/Client/Held.antt =====
-- The handles of app-mgmt-test/client/main.c: what a part of a test opens, it closes or keeps.
use trusty_app_sample.Common.{
  Bool, List, [], arith, false, if◌then◌else◌, negsuc, pos, refl, true, ℕ, ℤ, ◌++◌, ◌+◌, ◌==◌, ◌∷◌,
  ◌≡◌, ◌≤◌,
}
use trusty_app_sample.AppMgmt.Ledger.{Ledger}
use trusty_app_sample.AppMgmt.Client.{
  ChanIdx, Chans, Test, chan_at, close_chan, close_handle, fail, hold_new, main_chan, pend_chan,
  set_chan, settle, wait_chan,
}

-- How often a handle is in a list.
unfoldable pub times : ℕ → List ℕ → ℕ
times h [] = 0
times h (x ∷ xs) = let rest = times h xs in if x == h then 1 + rest else rest

unfoldable pub one : ℕ → ℤ → ℕ
one h (pos x) = if x == h then 1 else 0
one h (negsuc e) = 0

times-append : (h : ℕ) (xs ys : List ℕ) → times h (xs ++ ys) ≡ times h xs + times h ys
unfolding times
times-append h [] ys = omega arith
times-append h (x ∷ xs) ys = ground (arith, times-append h xs ys)

-- The handles that the fixture holds.
abbrev pub held : ℕ → Chans → ℕ
held h cs = one h cs.main + one h cs.pend + one h cs.waiting

pub times-hold_new :
    (h : ℕ) (c : ℤ) (l : Ledger)
    → (times h (hold_new c l).opened ≡ times h l.opened + one h c)
      × (times h (hold_new c l).closed ≡ times h l.closed)
unfolding times one
times-hold_new h (pos x) l = (ground arith, refl)
times-hold_new h (negsuc e) l = (omega arith, refl)

pub times-close_handle :
    (h : ℕ) (c : ℤ) (l : Ledger)
    → (times h (close_handle c l).closed ≡ times h l.closed + one h c)
      × (times h (close_handle c l).opened ≡ times h l.opened)
unfolding times one
times-close_handle h (pos x) l = (ground (arith, times-append h l.closed (x ∷ [])), refl)
times-close_handle h (negsuc e) l = (omega arith, refl)

pub held-set_chan :
    (h : ℕ) (idx : ChanIdx) (c : ℤ) (cs : Chans)
    → held h (set_chan idx c cs) + one h (chan_at idx cs) ≡ held h cs + one h c
held-set_chan h main_chan c cs = omega arith
held-set_chan h pend_chan c cs = omega arith
held-set_chan h wait_chan c cs = omega arith

abbrev pub nothing : ℕ → ℕ
nothing h = 0

module _ {W : Type 0} where
  -- What was closed, or is held for the tear-down, and what was opened.
  abbrev pub used : ℕ → Test W → ℕ
  used h t = times h t.ledger.closed + held h t.chans

  abbrev pub opened : ℕ → Test W → ℕ
  opened h t = times h t.ledger.opened

  -- From `t` to `u` no handle is used that was not opened, and with no failed assertion all that was
  -- opened is used, but for the handles `k` that are left to be closed.
  pub record Owes (k : ℕ → ℕ) (t u : Test W) : Type 0 where
    pub bounded : (h : ℕ) → used h u + opened h t + k h ≤ opened h u + used h t
    pub before : u.failed ≡ false → t.failed ≡ false
    pub exact : u.failed ≡ false → (h : ℕ) → used h u + opened h t + k h ≡ opened h u + used h t

  pub Owes-self : (t : Test W) → Owes nothing t t
  Owes-self t = record { bounded = λ h. omega arith; before = λ e. e; exact = λ e h. omega arith }

  pub Owes-world :
      (k : ℕ → ℕ) (t u : Test W) (w : W) → Owes k t u → Owes k t (record u { world = w })
  Owes-world k t u w a = record { bounded = a.bounded; before = a.before; exact = a.exact }

  pub Owes-settle :
      (k : ℕ → ℕ) (t u : Test W) (r : Bool × W)
      → u.failed ≡ false
      → Owes k t u
      → Owes k t (settle r u)
  Owes-settle k t u r good a = record {
    bounded = a.bounded;
    before = λ e. a.before good;
    exact = λ e. a.exact good;
  }

  pub Owes-fail :
      (k j : ℕ → ℕ) (t u : Test W) → ((h : ℕ) → j h ≤ k h) → Owes k t u → Owes j t (fail u)
  Owes-fail k j t u less a = record {
    bounded = λ h. omega (arith, a.bounded h, less h);
    before = λ e. absurd (true_false e);
    exact = λ e. absurd (true_false e);
  }
    where
      true_false : true ≡ false → ⊥
      true_false e = cc

  pub Owes-hold :
      (k : ℕ → ℕ) (c : ℤ) (t u : Test W) (w : W)
      → Owes k t u
      → Owes (λ h. k h + one h c) t (record u { ledger = hold_new c u.ledger; world = w })
  Owes-hold k c t u w a = record {
    bounded = λ h. let m = times-hold_new h c u.ledger in omega (arith, m.0, m.1, a.bounded h);
    before = a.before;
    exact = λ e h. let m = times-hold_new h c u.ledger in omega (arith, m.0, m.1, a.exact e h);
  }

  pub Owes-close :
      (k j : ℕ → ℕ) (c : ℤ) (t u : Test W)
      → ((h : ℕ) → k h ≡ one h c + j h)
      → Owes k t u
      → Owes j t (close_chan c u)
  Owes-close k j c t u same a = record {
    bounded = λ h.
        let m = times-close_handle h c u.ledger in omega (arith, m.0, m.1, same h, a.bounded h);
    before = a.before;
    exact = λ e h.
        let m = times-close_handle h c u.ledger in omega (arith, m.0, m.1, same h, a.exact e h);
  }
