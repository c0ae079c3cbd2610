-- ===== src/AppMgmt/PortWaiter.antt =====
-- app-mgmt-test/port-waiter-srv: it waits for a port, and passes the answer of that port's server on
-- to its client. What the system calls return is a record of arguments.
use trusty_app_sample.Common.{
  Bool, Bool-cases, arith, false, if◌then◌else◌, inl, inr, is_zero, negsuc, not, pos, subst, sym, ℕ,
  ℤ, ◌&&◌, ◌==◌, ◌≡◌,
}
use trusty_app_sample.AppMgmt.Ledger.{
  IsBalanced, IsBalanced-bracket, IsBalanced-closed, IsBalanced-self, Ledger, close, hold,
  no_handles,
}

-- The results of connect, port_create, both waits with the event that they wait for, accept, both
-- sends, and the receive with the byte that it leaves.
pub record Calls : Type 0 where
  pub connect : ℤ
  pub port_create : ℤ
  pub wait_port : ℤ × Bool
  pub accept : ℤ
  pub send_cmd : ℤ
  pub wait_rsp : ℤ × Bool
  pub recv_rsp : ℤ × ℕ
  pub send_rsp : ℕ → ℤ

abbrev is_one : ℤ → Bool
is_one (pos n) = n == 1
is_one (negsuc n) = false

module _ (c : Calls) where
  -- From the exit command on, with what is closed at `err_send_cmd`.
  exchange : (chandle : ℕ) → Ledger → ℤ × Ledger
  exchange chandle l =
      let done = close chandle l in
      if not (is_one c.send_cmd)
      then (c.send_cmd, done)
      else if not (is_zero c.wait_rsp.0 && c.wait_rsp.1)
      then (c.wait_rsp.0, done)
      else if not (is_one c.recv_rsp.0)
      then (c.recv_rsp.0, done)
      else if not (is_one (c.send_rsp c.recv_rsp.1))
      then (c.send_rsp c.recv_rsp.1, done)
      else (pos 0, done)

  accepted : ℤ → Ledger → ℤ × Ledger
  unfolding exchange
  accepted (negsuc e) l = (negsuc e, l)
  accepted (pos chandle) l = exchange chandle (hold chandle l)

  wait_client : Ledger → ℤ × Ledger
  unfolding accepted
  wait_client l =
      if not (is_zero c.wait_port.0 && c.wait_port.1)
      then (c.wait_port.0, l)
      else accepted c.accept l

  created : ℤ → Ledger → ℤ × Ledger
  unfolding wait_client
  created (negsuc e) l = (negsuc e, l)
  created (pos phandle) l = let end = wait_client (hold phandle l) in (end.0, close phandle end.1)

  connected : ℤ → Ledger → ℤ × Ledger
  unfolding created
  connected (negsuc e) l = (negsuc e, l)
  connected (pos shandle) l =
      let end = created c.port_create (hold shandle l) in (end.0, close shandle end.1)

  unfoldable pub main : ℤ × Ledger
  unfolding connected
  main = connected c.connect no_handles

  exchange_closes : (h : ℕ) (l : Ledger) → (exchange h l).1 ≡ close h l
  unfolding exchange
  exchange_closes h l = ground arith

  exchange-IsBalanced : (h : ℕ) (l : Ledger) → IsBalanced l (exchange h (hold h l)).1
  exchange-IsBalanced h l =
      subst (IsBalanced l) (sym (exchange_closes h (hold h l)))
        (IsBalanced-bracket h l (hold h l) (IsBalanced-self (hold h l)))

  accepted-IsBalanced : (rc : ℤ) (l : Ledger) → IsBalanced l (accepted rc l).1
  unfolding accepted
  accepted-IsBalanced (negsuc e) l = IsBalanced-self l
  accepted-IsBalanced (pos h) l = exchange-IsBalanced h l

  wait_client-IsBalanced : (l : Ledger) → IsBalanced l (wait_client l).1
  unfolding wait_client
  wait_client-IsBalanced l = elim (Bool-cases (is_zero c.wait_port.0 && c.wait_port.1)) [
    | inl e ↦ rw e (accepted-IsBalanced c.accept l)
    | inr e ↦ rw e (IsBalanced-self l)
  ]

  created-IsBalanced : (rc : ℤ) (l : Ledger) → IsBalanced l (created rc l).1
  unfolding created
  created-IsBalanced (negsuc e) l = IsBalanced-self l
  created-IsBalanced (pos h) l =
      IsBalanced-bracket h l (wait_client (hold h l)).1 (wait_client-IsBalanced (hold h l))

  connected-IsBalanced : (rc : ℤ) (l : Ledger) → IsBalanced l (connected rc l).1
  unfolding connected
  connected-IsBalanced (negsuc e) l = IsBalanced-self l
  connected-IsBalanced (pos h) l =
      IsBalanced-bracket h l (created c.port_create (hold h l)).1
        (created-IsBalanced c.port_create (hold h l))

  -- Whatever the system calls return, the server has closed at its end exactly the handles that it
  -- has opened, each once and the last one first.
  pub main-closed : main.1.closed ≡ main.1.opened
  unfolding main
  main-closed = IsBalanced-closed main.1 (connected-IsBalanced c.connect no_handles)
