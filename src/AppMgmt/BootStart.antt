-- ===== src/AppMgmt/BootStart.antt =====
-- app-mgmt-test/boot-start-srv: it accepts channels and closes them. What the system calls return are
-- arguments.
use trusty_app_sample.Common.{
  Bool, List, Option, [], arith, if_both, if◌then◌else◌, is_neg, negsuc, none, not, pos, some, ℕ, ℤ,
  ◌+◌, ◌∷◌, ◌≡◌,
}
use trusty_app_sample.AppMgmt.Ledger.{Ledger, close, hold, no_handles}
use trusty_app_sample.AppMgmt.Client.Held.{times, times-close_handle, times-hold_new}
use trusty_app_sample.AppMgmt.Small.{End, is_ready}

-- What `accept` returns: `ERR_CHANNEL_CLOSED`, another error, or a channel.
pub data Accepted : Type 0 where
  channel_closed : Accepted
  accept_failed : (e : ℕ) → Accepted
  channel : ℕ → Accepted

-- What the calls of one round of the loop return.
pub record Round : Type 0 where
  pub waited : ℤ × Bool
  pub accepted : Accepted
  pub close_rc : ℤ

-- The end of a round, behind `accept`.
abbrev answer : Accepted → (close_rc : ℤ) → Ledger → Option ℤ × Ledger
answer channel_closed close_rc l = (none, l)
answer (accept_failed e) close_rc l = (some (negsuc e), l)
answer (channel c) close_rc l =
    (if is_neg close_rc then some close_rc else none, close c (hold c l))

-- A round: the result if it ends the loop, and the handles.
pub round : Round → Ledger → Option ℤ × Ledger
round r l = if not (is_ready r.waited) then (some r.waited.0, l) else answer r.accepted r.close_rc l

abbrev go_on : Option ℤ × Ledger → End → End
go_on (some rc, l) rest = (rc, l)
go_on (none, l) rest = rest

-- `while (true)`, which ends in a round or at the wait behind the rounds, which fails with
-- -(e + 1).
unfoldable pub serve : (e : ℕ) → List Round → Ledger → End
unfolding round
serve e [] l = (negsuc e, l)
serve e (r ∷ rs) l = let next = round r l in let rest = serve e rs next.1 in go_on next rest

pub boot_start_main : (create : ℤ) (e : ℕ) → List Round → End
unfolding serve
boot_start_main (negsuc x) e rounds = (negsuc x, no_handles)
boot_start_main (pos port) e rounds = serve e rounds (hold port no_handles)

-- Between the two, each handle is closed as often as it is opened.
abbrev pub IsCounted : Ledger → Ledger → Type 0
IsCounted l l' =
    (h : ℕ) → times h l'.closed + times h l.opened ≡ times h l'.opened + times h l.closed

accepted-IsCounted : (c : ℕ) (l : Ledger) → IsCounted l (close c (hold c l))
accepted-IsCounted c l h =
    let a = times-hold_new h (pos c) l in
    let b = times-close_handle h (pos c) (hold c l) in omega (arith, a.0, a.1, b.0, b.1)

answer-IsCounted : (a : Accepted) (close_rc : ℤ) (l : Ledger) → IsCounted l (answer a close_rc l).1
answer-IsCounted channel_closed close_rc l h = omega arith
answer-IsCounted (accept_failed e) close_rc l h = omega arith
answer-IsCounted (channel c) close_rc l h = accepted-IsCounted c l h

round-IsCounted : (r : Round) (l : Ledger) → IsCounted l (round r l).1
unfolding round
round-IsCounted r l =
    if_both (λ (x : Option ℤ × Ledger). IsCounted l x.1) (not (is_ready r.waited)) _ _
      (λ idle h. omega arith) (λ ready. answer-IsCounted r.accepted r.close_rc l)

go_on-IsCounted :
    (next : Option ℤ × Ledger) (l : Ledger) (rest : End)
    → IsCounted l next.1
    → IsCounted next.1 rest.1
    → IsCounted l (go_on next rest).1
go_on-IsCounted (some x, m) l rest a b = a
go_on-IsCounted (none, m) l rest a b = λ h. omega (arith, a h, b h)

serve-IsCounted : (e : ℕ) (rounds : List Round) (l : Ledger) → IsCounted l (serve e rounds l).1
unfolding serve
serve-IsCounted e [] l = λ h. omega arith
serve-IsCounted e (r ∷ rs) l =
    let next = round r l in
    go_on-IsCounted next l (serve e rs next.1) (round-IsCounted r l) (serve-IsCounted e rs next.1)

-- However its rounds go and wherever it ends, the server has closed each channel that it has
-- accepted as often as it has accepted it, and has left open only its port.
pub boot_start_main-IsCounted :
    (port e : ℕ) (rounds : List Round)
    → IsCounted (hold port no_handles) (boot_start_main (pos port) e rounds).1
unfolding boot_start_main
boot_start_main-IsCounted port e rounds = serve-IsCounted e rounds (hold port no_handles)
