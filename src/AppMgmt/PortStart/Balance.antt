-- ===== src/AppMgmt/PortStart/Balance.antt =====
-- What the server of app-mgmt-test/port-start-srv closes at its end.
use trusty_app_sample.Common.{
  All, Bool-cases, List, Returns, Returns-bind, Returns-map, Run, [], arith, false, fault, inl, inr,
  is_neg, is_zero, negsuc, ok, pos, refl, subst, suc, sym, zero, ℕ, ℤ, ◌&&◌, ◌==◌, ◌>>=◌, ◌∷◌, ◌≡◌,
}
use trusty_app_sample.AppMgmt.Ledger.{
  IsBalanced, IsBalanced-bracket, IsBalanced-closed, IsBalanced-self, close, hold, no_handles,
}
use trusty_app_sample.AppMgmt.PortStart.{
  Cmd, CmdCalls, Setup, Srv, Turn, added, channel_stage, close_start, cmd_close_port, cmd_exit,
  cmd_nop, cmd_open_port, cmd_other, ctrl_stage, fresh, handle_cmd, hset_stage, main, mixed_stage,
  obey, on_handle, prepare_port, serve, shutdown_stage, start_stage, with_handle,
}

-- A command that leaves the port alone.
abbrev pub IsPlain : Cmd → Type 0
IsPlain cmd_close_port = ⊥
IsPlain cmd_open_port = ⊥
IsPlain _ = Unit

obey_plain : (cmd : Cmd) (c : CmdCalls) (s : Srv) → IsPlain cmd → (obey cmd c s).2 ≡ s
unfolding obey
obey_plain cmd_nop c s p = refl
obey_plain cmd_close_port c s p = absurd p
obey_plain cmd_open_port c s p = absurd p
obey_plain cmd_exit c s p = refl
obey_plain cmd_other c s p = refl

handle_cmd_plain : (cmd : Cmd) (c : CmdCalls) (s : Srv) → IsPlain cmd → (handle_cmd cmd c s).1 ≡ s
unfolding handle_cmd
handle_cmd_plain cmd c s p = obey_plain cmd c s p

serve_plain :
    (e : ℕ) (ts : List Turn) (s : Srv) → All (λ t. IsPlain t.cmd) ts → (serve e ts s).1 ≡ s
unfolding serve
serve_plain e [] s p = refl
serve_plain e (t ∷ ts) s p =
    let same = handle_cmd_plain t.cmd t.calls s p.0 in
    let later = serve_plain e ts (handle_cmd t.cmd t.calls s).1 p.1 in ground (arith, same, later)

-- The part between is balanced and keeps the variable `start_port`.
abbrev IsKept : Srv → ℤ × Srv → Type 0
IsKept s r = IsBalanced s.ledger r.1.ledger × (r.1.start_port ≡ s.start_port)

abbrev Keeps : (ℕ → Srv → Run (ℤ × Srv)) → Type 0
Keeps body = (h : ℕ) (s : Srv) → Returns (IsKept s) (body h s)

abbrev holding : ℕ → Srv → Srv
holding h s = record s { ledger = hold h s.ledger }

with_handle-IsKept :
    (h : ℕ) (body : ℕ → Srv → Run (ℤ × Srv)) (s : Srv)
    → ((t : Srv) → Returns (IsKept t) (body h t))
    → Returns (IsKept s) (with_handle h body (holding h s))
unfolding with_handle
with_handle-IsKept h body s k =
    Returns-bind (IsKept (holding h s)) (IsKept s) (body h (holding h s)) _ (k (holding h s))
      (λ r e q. (IsBalanced-bracket h s.ledger r.1.ledger q.0, q.1))

fresh-IsKept :
    (rc : ℤ) (body : ℕ → Srv → Run (ℤ × Srv)) (s : Srv)
    → ((h : ℕ) → rc ≡ pos h → (t : Srv) → Returns (IsKept t) (body h t))
    → Returns (IsKept s) (on_handle body (fresh rc s))
unfolding on_handle fresh
fresh-IsKept (negsuc e) body s k = (IsBalanced-self s.ledger, refl)
fresh-IsKept (pos h) body s k = with_handle-IsKept h body s (k h refl)

-- A port is added to the handle set, or closed again.
prepare_port-IsKept :
    (hset : ℕ) (created ctrl : ℤ) (body : ℕ → Srv → Run (ℤ × Srv)) (s : Srv)
    → (hset == 0) ≡ false
    → Keeps body
    → Returns (IsKept s) (prepare_port hset (created, ctrl) s >>= on_handle body)
unfolding prepare_port added on_handle
prepare_port-IsKept hset (negsuc x) ctrl body s z k = rw z (IsBalanced-self s.ledger, refl)
prepare_port-IsKept hset (pos port) (negsuc x) body s z k = rw z (
  IsBalanced-bracket port s.ledger (hold port s.ledger) (IsBalanced-self (hold port s.ledger)),
  refl,
)
prepare_port-IsKept hset (pos port) (pos x) body s z k =
    rw z (with_handle-IsKept port body s (k port))

-- What handle_set_create gives is no null handle.
abbrev pub IsHandle : ℤ → Type 0
IsHandle rc = is_zero rc ≡ false

handle_not_null : (m : ℕ) → IsHandle (pos m) → (m == 0) ≡ false
handle_not_null zero h = h
handle_not_null (suc m) h = ground arith

bind_assoc : {A : Type 0} (m : Run A) (f g : A → Run A) → (m >>= λ a. f a >>= g) ≡ (m >>= f) >>= g
bind_assoc (ok a) f g = refl
bind_assoc (fault x) f g = refl

module _ (c : Setup) (e : ℕ) (turns : List Turn) (plain : All (λ t. IsPlain t.cmd) turns) where
  channel_stage-Keeps : Keeps (channel_stage c e turns)
  unfolding channel_stage
  channel_stage-Keeps h s = elim (Bool-cases (is_neg c.add_channel)) [
    | inl bad ↦ rw bad (IsBalanced-self s.ledger, refl)
    | inr good ↦ rw (good, serve_plain e turns s plain) (IsBalanced-self s.ledger, refl)
  ]

  shutdown_stage-Keeps : Keeps (shutdown_stage c e turns)
  unfolding shutdown_stage
  shutdown_stage-Keeps h s = elim (Bool-cases (is_zero c.wait_port.0 && c.wait_port.1)) [
    | inl up ↦
        rw up (fresh-IsKept c.accept (channel_stage c e turns) s (λ h e'. channel_stage-Keeps h))
    | inr no_event_ ↦ rw no_event_ (IsBalanced-self s.ledger, refl)
  ]

  mixed_stage-IsKept :
      (h : ℕ) (s : Srv) → (h == 0) ≡ false → Returns (IsKept s) (mixed_stage c e turns h s)
  unfolding mixed_stage
  mixed_stage-IsKept h s z =
      prepare_port-IsKept h c.shutdown.0 c.shutdown.1 (shutdown_stage c e turns) s z
        shutdown_stage-Keeps

  ctrl_stage-Keeps : IsHandle c.mixed_hset → Keeps (ctrl_stage c e turns)
  unfolding ctrl_stage
  ctrl_stage-Keeps z h s =
      fresh-IsKept c.mixed_hset (mixed_stage c e turns) s
        (λ m e' t. mixed_stage-IsKept m t (handle_not_null m (subst IsHandle e' z)))

  -- The port that is behind `start_port`, until it is closed.
  start_stage-IsBalanced :
      (port port_hset : ℕ) (s : Srv)
      → IsHandle c.mixed_hset
      → (port_hset == 0) ≡ false
      → Returns
          (λ r. IsBalanced s.ledger r.1.ledger)
          (start_stage c e turns port_hset (pos port, holding port s))
  unfolding start_stage close_start
  start_stage-IsBalanced port port_hset s m z =
      let t = record (holding port s) { start_port = port } in
      let started = prepare_port port_hset c.ctrl t in
      subst (Returns (λ r. IsBalanced s.ledger r.1.ledger))
        (sym
          (bind_assoc started (on_handle (ctrl_stage c e turns)) (λ q. ok (q.0, close_start q.1))))
        (Returns-bind (IsKept t) (λ r. IsBalanced s.ledger r.1.ledger)
          (started >>= on_handle (ctrl_stage c e turns)) _
          (prepare_port-IsKept port_hset c.ctrl.0 c.ctrl.1 (ctrl_stage c e turns) t z
            (ctrl_stage-Keeps m))
          (λ q e' k.
            subst (λ p. IsBalanced s.ledger (close p q.1.ledger)) (sym k.1)
              (IsBalanced-bracket port s.ledger q.1.ledger k.0)))

  hset_stage-IsBalanced :
      (start start_ctrl : ℤ) (h : ℕ) (s : Srv)
      → IsHandle c.mixed_hset
      → (h == 0) ≡ false
      → Returns
          (λ r. IsBalanced s.ledger r.1.ledger)
          (prepare_port h (start, start_ctrl) s >>= start_stage c e turns h)
  unfolding prepare_port added start_stage
  hset_stage-IsBalanced (negsuc x) sc h s m z = rw z (IsBalanced-self s.ledger)
  hset_stage-IsBalanced (pos port) (negsuc x) h s m z =
      rw z (
        IsBalanced-bracket port s.ledger (hold port s.ledger)
          (IsBalanced-self (hold port s.ledger)))
  hset_stage-IsBalanced (pos port) (pos x) h s m z = rw z (start_stage-IsBalanced port h s m z)

  on_handle-IsBalanced :
      (rc : ℤ) (s : Srv)
      → IsHandle rc
      → IsHandle c.mixed_hset
      → Returns
          (λ r. IsBalanced s.ledger r.1.ledger)
          (on_handle (hset_stage c e turns) (fresh rc s))
  unfolding on_handle fresh with_handle hset_stage
  on_handle-IsBalanced (negsuc x) s h m = IsBalanced-self s.ledger
  on_handle-IsBalanced (pos p) s h m =
      Returns-bind (λ r. IsBalanced (hold p s.ledger) r.1.ledger)
        (λ r. IsBalanced s.ledger r.1.ledger) (hset_stage c e turns p (holding p s)) _
        (hset_stage-IsBalanced c.start.0 c.start.1 p (holding p s) m (handle_not_null p h))
        (λ r x b. IsBalanced-bracket p s.ledger r.1.ledger b)

-- With commands that leave the port alone, and handle sets that are no null handles, the server
-- ends with no failed assertion and has closed exactly the handles that it has opened, each once
-- and the last one first, wherever its setup or its channel fails.
pub main-IsBalanced :
    (c : Setup) (e : ℕ) (turns : List Turn)
    → All (λ t. IsPlain t.cmd) turns
    → IsHandle c.port_hset
    → IsHandle c.mixed_hset
    → Returns (λ r. r.1.ledger.closed ≡ r.1.ledger.opened) (main c e turns)
unfolding main
main-IsBalanced c e turns plain h m =
    Returns-map (λ r. IsBalanced no_handles r.1.ledger) (λ r. r.1.ledger.closed ≡ r.1.ledger.opened)
      _ (on_handle-IsBalanced c e turns plain c.port_hset _ h m)
      (λ r b. IsBalanced-closed r.1.ledger b)
