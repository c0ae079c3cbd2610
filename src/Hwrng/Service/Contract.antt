-- ===== src/Hwrng/Service/Contract.antt =====
-- The contract of the random number service over a whole run of events.
use trusty_app_sample.Common.{
  Ensures, Event, List, Option, Returns, Returns-bind, Returns-map, Run, [], arith, ok, refl, subst,
  suc, zero, ℕ, ℤ, ◌+◌, ◌>>=◌, ◌∷◌, ◌≡◌, ◌≤◌,
}
use trusty_app_sample.Hwrng.Service.{
  Context, Received, Server, World, hwrng_chan_handler, hwrng_port_handler,
}
use trusty_app_sample.Hwrng.Service.Pass.{Fills}
use trusty_app_sample.Hwrng.Service.Account.{closings, count_at, got, owed}
use trusty_app_sample.Hwrng.Service.Events.{
  IsLive, IsSmall, IsWellFormed, Moves, Moves-self, Moves-then,
}
use trusty_app_sample.Hwrng.Service.Runs.{
  IsNew, event_asked, hwrng_chan_handler-Moves, hwrng_port_handler-Moves,
}

-- An event of a channel or of the port, with what the system calls of its handler return.
pub data Input : Type 0 where
  on_chan : Event → Context → Received → Input
  on_port : Event → (accepted : ℤ) (fresh : Option ℕ) (cookie : ℤ) → Input

-- What an event asks for on a channel, and what the events of a run ask for.
abbrev asked : Input → ℕ → ℕ
asked (on_chan ev ctx r) x = event_asked ev ctx r x
asked (on_port ev accepted fresh cookie) x = 0

unfoldable pub all_asked : List Input → ℕ → ℕ
all_asked [] x = 0
all_asked (i ∷ is) x = asked i x + all_asked is x

-- The service when it starts.
abbrev pub started : {W : Type 0} → W → Server W
started w = record { pending = []; idle = []; closed = []; replies = []; world_state = w }

module _ {W : Type 0} (world : World W) (errors : Event → Run (Unit {0})) where
  abbrev pub step : Input → Server W → Run (Server W)
  step (on_chan ev ctx r) s = hwrng_chan_handler world errors ev ctx r s
  step (on_port ev accepted fresh cookie) s = hwrng_port_handler errors ev accepted fresh cookie s

  unfoldable pub run : List Input → Server W → Run (Server W)
  run [] s = ok s
  run (i ∷ is) s = step i s >>= run is

  -- An event that the library can give in a state: no error event; for a channel its context, with
  -- a request whose size fits a `size_t` with what is left; for the port a channel and an address
  -- that are in no use.
  abbrev pub Fits : Input → Server W → Type 0
  Fits (on_chan ev ctx r) s = (errors ev ≡ ok tt) × IsLive ctx s × IsSmall ctx r
  Fits (on_port ev accepted fresh cookie) s = (errors ev ≡ ok tt) × IsNew accepted fresh s

  abbrev pub FitsRun : List Input → Server W → Type 0
  FitsRun [] s = Unit
  FitsRun (i ∷ is) s = Fits i s × Ensures (FitsRun is) (step i s)

  module _ (fills : Fills world) where
    step-Moves :
        (i : Input) (s : Server W)
        → IsWellFormed s
        → Fits i s
        → Returns (λ t. Moves s t (asked i)) (step i s)
    step-Moves (on_chan ev ctx r) s v (e, l, h) =
        hwrng_chan_handler-Moves world fills errors ev ctx r s e v l h
    step-Moves (on_port ev accepted fresh cookie) s v (e, n) =
        hwrng_port_handler-Moves errors ev accepted fresh cookie s e v n

    run-Moves :
        (is : List Input) (s : Server W)
        → IsWellFormed s
        → FitsRun is s
        → Returns (λ t. Moves s t (all_asked is)) (run is s)
    unfolding run all_asked
    run-Moves [] s v f = Moves-self s v
    run-Moves (i ∷ is) s v f =
        Returns-bind (λ t. Moves s t (asked i)) (λ u. Moves s u (all_asked (i ∷ is))) (step i s)
          (run is) (step-Moves i s v f.0)
          (λ t e m.
            Returns-map (λ u. Moves t u (all_asked is)) (λ u. Moves s u (all_asked (i ∷ is)))
              (run is t) (run-Moves is t m.well_formed (subst (λ m. Ensures (FitsRun is) m) e f.1))
              (λ u n. Moves-then s t u (asked i) (all_asked is) m n))

-- The account of a channel, by how often it was closed: what was sent to it and what it waits for are
-- at most what was asked for, and exactly that if it was never closed.
abbrev pub Accounts : (closed : ℕ) → (sent_and_owed asked : ℕ) → Type 0
Accounts zero sent_and_owed asked = sent_and_owed ≡ asked
Accounts (suc n) sent_and_owed asked = sent_and_owed ≤ asked

accounts : (closed m n : ℕ) → m ≤ n → (closed ≡ 0 → m ≡ n) → Accounts closed m n
accounts zero m n le f = f refl
accounts (suc closed) m n le f = le

-- From its start on and over every run of events that fit, the service returns from each event, no
-- two contexts share an address or a channel, and every channel was sent at most as many bytes as
-- were asked for on it, less those that are still queued for it, and exactly as many if it was never
-- closed: nothing is lost. With a device that fills its buffers.
pub run-IsWellFormed :
    {W : Type 0} (world : World W) (errors : Event → Run (Unit {0})) (is : List Input) (w : W)
    → Fills world
    → FitsRun world errors is (started w)
    → Returns
        (λ t.
          IsWellFormed t
          × ((x : ℕ)
              → Accounts
                  (closings x t.closed)
                  (got x t.replies + owed x t.pending)
                  (all_asked is x)))
        (run world errors is (started w))
unfolding closings owed got count_at
run-IsWellFormed world errors is w fills f =
    Returns-map (λ t. Moves (started w) t (all_asked is)) _ (run world errors is (started w))
      (run-Moves world errors fills is (started w)
        (record { addrs = λ a. omega arith; chans = λ x. omega arith; at_rest = tt }) f)
      (λ t m. (
        m.well_formed,
        λ x.
            accounts (closings x t.closed) _ _ (omega (arith, m.bounded x))
              (λ e. omega (arith, m.kept x e)),
      ))
