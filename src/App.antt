-- ===== src/App.antt =====
-- The application hwcrypto/main.c: its start, its event loop, and the three services in one
-- process. wait_any and the registrations of the handlers are parameters: a registered handler is
-- a value of the model, with what the system calls of its event return. The first assertions of
-- the handlers of channels, on the handle of an event, stand in `invoke`, which has the handle.
pub mod Fits
pub mod Sound
pub mod Start
mod Tests
use trusty_app_sample.Common.{
  Bool, Event, List, Option, Run, [], assert, if◌then◌else◌, is_neg, is_zero, none, not, ok, some,
  ℕ, ℤ, ◌==◌, ◌>>=◌, ◌>>◌, ◌||◌, ◌∷◌, ◌≡◌,
}
use trusty_app_sample.Hwkey.Model.{Device, Uuid, Context as KeyContext}
use trusty_app_sample.Hwkey.Service.{
  Kdf, Protocol, Reply, hwkey_chan_handler, hwkey_port_handler, Server as KeyServer,
  Received as KeyReceived,
}
use trusty_app_sample.Hwrng.Service.{
  World, hwrng_chan_handler, hwrng_port_handler, Server as RngServer, Context as RngContext,
  Received as RngReceived,
}
use trusty_app_sample.Keybox.Unwrap.{Status as BoxStatus}
use trusty_app_sample.Keybox.Service.{
  Interface, Message, freed, keybox_chan_handler, keybox_handle_msg, keybox_port_handler, live,
  Server as BoxServer, Received as BoxReceived, Context as BoxContext,
}

-- `ev->event == IPC_HANDLE_POLL_NONE`
abbrev pub is_none_event : Event → Bool
is_none_event ev = not (ev.ready || ev.error || ev.hup || ev.msg || ev.send_unblocked)

-- What a wait gives: its result, the handle and the event, and the handler behind the cookie, if
-- there is one.
pub record Wakeup (P : Type 0) : Type 0 where
  pub rc : ℤ
  pub handle : ℕ
  pub event : Event
  pub proc : Option P

module _ {S P : Type 0} (invoke : P → (handle : ℕ) → Event → S → Run S) (close : ℕ → S → S) where
  unfoldable pub dispatch_event : Wakeup P → S → Run S
  dispatch_event u s =
      if is_none_event u.event
      then ok s
      else elim u.proc [ none ↦ ok (close u.handle s) | some proc ↦ invoke proc u.handle u.event s ]

  -- The loop over the wakeups that come; `none` when it still waits.
  unfoldable pub event_loop : List (Wakeup P) → S → Run (Option ℤ × S)
  event_loop [] s = ok (none, s)
  event_loop (u ∷ us) s =
      let next = dispatch_event u s in
      if is_neg u.rc
      then ok (some u.rc, s)
      else if is_zero u.rc
      then next >>= event_loop us
      else event_loop us s

  -- main: the results of the starts of the services, the key provider's start, and the loop.
  unfoldable pub main :
      (hwrng_rc keybox_rc : ℤ) (init_srv_provider : S → Run S)
      → List (Wakeup P)
      → S
      → Run (Option ℤ × S)
  main hwrng_rc keybox_rc init_srv_provider us s =
      if not (is_zero hwrng_rc)
      then ok (some hwrng_rc, s)
      else (init_srv_provider s >>= λ s'.
          if not (is_zero keybox_rc) then ok (some keybox_rc, s') else event_loop us s')

-- The states of the services, over one device and allocator, and the handles that the loop closed.
pub record App (W : Type 0) : Type 0 where
  pub key : KeyServer W
  pub rng : RngServer W
  pub box : BoxServer
  pub closed : List ℕ
  pub world : W

-- A registered handler, with what the calls of this event return.
pub data Proc : Type 0 where
  key_port : (accepted : ℤ) (peer : Uuid) (fresh : Option ℕ) (cookie : ℤ) → Proc
  key_chan : KeyContext → KeyReceived → Proc
  rng_port : (accepted : ℤ) (fresh : Option ℕ) (cookie : ℤ) → Proc
  rng_chan : RngContext → RngReceived → Proc
  box_port : (accepted : ℤ) (allocated : Bool) (cookie : ℤ) → Proc
  box_chan : (chan : ℕ) → BoxReceived → Proc

-- What the services call, and the constants of their interfaces.
pub record Calls (W : Type 0) : Type 0 where
  pub protocol : Protocol
  pub key_send : Reply → W → ℤ × W
  pub device : Device W
  pub fuel : ℕ
  pub kdf : Kdf W
  pub allowed : Uuid → Bool
  pub rng : World W
  pub interface_ : Interface
  pub box_send : Message → ℤ
  -- The buffer on the stack of the keybox service.
  pub output : List ℕ
  pub chan_errors : Event → Run (Unit {0})
  pub port_errors : Event → Run (Unit {0})

abbrev remove_chan : ℕ → List ℕ → List ℕ
remove_chan chan [] = []
remove_chan chan (c ∷ cs) = let rest = remove_chan chan cs in if c == chan then rest else c ∷ rest

-- The context of a channel of the keybox service: freed, unless it is in the list.
unfoldable pub box_context : ℕ → List ℕ → BoxContext
box_context chan [] = freed
box_context chan (c ∷ cs) = let rest = box_context chan cs in if c == chan then live else rest

-- The channel has a context.
abbrev pub HasBox : ℕ → List ℕ → Type 0
HasBox chan cs = box_context chan cs ≡ live

module _ {W : Type 0} (calls : Calls W) where
  with_key : App W → KeyServer W → App W
  with_key s t = record s { key = t; world = t.world }

  with_rng : App W → RngServer W → App W
  with_rng s t = record s { rng = t; world = t.world_state }

  with_box : App W → ℕ → BoxContext → App W
  with_box s chan live = s
  with_box s chan freed = record s {
    box = record { contexts = remove_chan chan s.box.contexts; closed = chan ∷ s.box.closed };
  }

  box_msg : BoxReceived → Run BoxStatus
  box_msg r =
      keybox_handle_msg calls.interface_ calls.box_send calls.output r >>= λ answered. ok answered.0

  -- A handler of a channel asserts first that the event is one of its channel.
  unfoldable pub invoke : Proc → (handle : ℕ) → Event → App W → Run (App W)
  unfolding with_key with_rng with_box box_msg box_context
  invoke (key_port accepted peer fresh cookie) handle ev s =
      hwkey_port_handler calls.port_errors calls.allowed ev accepted peer fresh cookie
        (record (s.key) { world = s.world })
      >>= λ t. ok (with_key s t)
  invoke (key_chan ctx r) handle ev s =
      assert (handle == ctx.chan)
      >> hwkey_chan_handler calls.protocol calls.key_send calls.device calls.fuel calls.kdf
          calls.chan_errors ev ctx r (record (s.key) { world = s.world })
      >>= λ t. ok (with_key s t)
  invoke (rng_port accepted fresh cookie) handle ev s =
      hwrng_port_handler calls.port_errors ev accepted fresh cookie
        (record (s.rng) { world_state = s.world })
      >>= λ t. ok (with_rng s t)
  invoke (rng_chan ctx r) handle ev s =
      assert (handle == ctx.chan)
      >> hwrng_chan_handler calls.rng calls.chan_errors ev ctx r
          (record (s.rng) { world_state = s.world })
      >>= λ t. ok (with_rng s t)
  invoke (box_port accepted allocated cookie) handle ev s =
      keybox_port_handler calls.port_errors accepted allocated cookie ev s.box >>= λ t.
      ok (record s { box = t })
  invoke (box_chan chan r) handle ev s =
      assert (handle == chan)
      >> keybox_chan_handler calls.chan_errors (box_msg r) ev (box_context chan s.box.contexts)
      >>= λ c. ok (with_box s chan c)

  abbrev pub close_handle : ℕ → App W → App W
  close_handle handle s = record s { closed = handle ∷ s.closed }
