-- ===== src/AppMgmt/Small.antt =====
-- The small servers of app-mgmt-test: restart-srv, never-start-srv and
-- port-start-fail-srv; dev-only-srv only logs. What the system calls return are arguments.
use trusty_app_sample.Common.{Bool, if◌then◌else◌, is_neg, is_zero, negsuc, not, pos, ℤ, ◌&&◌}
use trusty_app_sample.AppMgmt.Ledger.{Ledger, close, hold, no_handles}

-- The result, and the handles.
abbrev pub End : Type 0
End = ℤ × Ledger

-- What a wait returns, with whether the event is `IPC_HANDLE_POLL_READY`.
abbrev pub is_ready : ℤ × Bool → Bool
is_ready (rc, ready) = is_zero rc && ready

-- `port_create` and `wait`; the port is left to the end of the process.
pub restart_main : (create : ℤ) (waited : ℤ × Bool) → End
restart_main (negsuc e) waited = (negsuc e, no_handles)
restart_main (pos port) waited = (if is_ready waited then pos 0 else waited.0, hold port no_handles)

-- never-start-srv and port-start-fail-srv, which take the result of `wait` for a channel.
pub never_start_main : (create : ℤ) (waited : ℤ × Bool) (close_rc : ℤ) → End
never_start_main (negsuc e) waited close_rc = (negsuc e, no_handles)
never_start_main (pos port) (pos rc, ready) close_rc =
    if not (is_ready (pos rc, ready))
    then (pos rc, hold port no_handles)
    else (if is_neg close_rc then close_rc else pos 0, close rc (hold port no_handles))
never_start_main (pos port) (negsuc e, ready) close_rc = (negsuc e, hold port no_handles)
