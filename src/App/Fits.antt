-- ===== src/App/Fits.antt =====
-- What is relied on in the event loop of hwcrypto/main.c: the calls of the services, and the events
-- that the library can give in a state.
use trusty_app_sample.Common.{
  Bool, Event, List, Option, Returns, Run, [], false, fault, is_neg, is_zero, length, negsuc, none,
  ok, pos, refl, some, true, use_after_free, ℕ, ◌&&◌, ◌<◌, ◌>>=◌, ◌^◌, ◌||◌, ◌∷◌, ◌≡◌, ◌≤◌, ◌⊎◌,
}
use trusty_app_sample.Hwkey.Model.{Uuid, max_payload_size}
use trusty_app_sample.Hwkey.Handles.Tidy.{Delivers, IsTidy}
use trusty_app_sample.Hwkey.Service.Invariant.{HasContext, IsSound}
use trusty_app_sample.Hwkey.Service.Events.{IsReceived as IsReceivedKey}
use trusty_app_sample.Hwrng.Service.Pass.{Fills}
use trusty_app_sample.Hwrng.Service.Events.{IsLive, IsSmall, IsWellFormed}
use trusty_app_sample.Hwrng.Service.Runs.{IsNew}
use trusty_app_sample.Keybox.Service.{full_req_size, Received as BoxReceived}
use trusty_app_sample.Keybox.Service.Requests.{reply, IsReceived as IsReceivedBox}
use trusty_app_sample.App.{
  App, Calls, HasBox, Proc, Wakeup, box_chan, box_port, close_handle, dispatch_event, invoke,
  key_chan, key_port, rng_chan, rng_port,
}

module _ {W : Type 0} where
  -- What the loop relies on: the token loop ends, the key derivation keeps to its part of the key
  -- buffer, the random number device fills its buffers, and sizes that C can hold.
  pub record IsContract (calls : Calls W) : Type 0 where
    pub delivers : Delivers calls.device calls.fuel
    pub tidy :
        (uuid : Uuid) (ikm : List ℕ) → length ikm ≤ max_payload_size → IsTidy (calls.kdf uuid ikm)
    pub msg_size : calls.protocol.msg_size < 2 ^ 63
    pub output_size : length calls.output ≡ calls.interface_.max_size
    pub req_size : full_req_size calls.interface_ < 2 ^ 64
    pub fills : Fills calls.rng

  -- A receive of the keybox service that fails, or gives a message within its buffer.
  abbrev pub IsBoxMessage : Calls W → BoxReceived → Type 0
  IsBoxMessage calls r =
      ((e : ℕ) × (r.rc ≡ negsuc e)) ⊎ ((n : ℕ) × IsReceivedBox calls.interface_ r n)

  -- A message that cannot be received, or whose answer cannot be sent.
  unfoldable pub box_fails : Calls W → BoxReceived → Bool
  box_fails calls r = elim r.rc [
    | negsuc e ↦ true
    | pos n ↦ is_neg (calls.box_send (reply calls.interface_ r n))
  ]

  -- An event that the library can give to a handler in this state: no error event, and the handle
  -- is the channel's of the context. For a channel of the key service a live context and a message
  -- within its buffer; of the random number service a live context, with a request whose size fits
  -- a `size_t` with what is left; of the keybox service a context that is not freed, and a receive
  -- that fails or a message within its buffer. For the port of the random number service a channel
  -- and an address that are in no use.
  abbrev pub Fits : Calls W → App W → (handle : ℕ) → Event → Proc → Type 0
  Fits calls s handle ev (key_port accepted peer fresh cookie) = calls.port_errors ev ≡ ok tt
  Fits calls s handle ev (key_chan ctx r) =
      (calls.chan_errors ev ≡ ok tt)
      × (handle ≡ ctx.chan)
      × IsReceivedKey calls.protocol r
      × HasContext s.key.contexts ctx.addr
  Fits calls s handle ev (rng_port accepted fresh cookie) =
      (calls.port_errors ev ≡ ok tt)
      × IsNew accepted fresh (record (s.rng) { world_state = s.world })
  Fits calls s handle ev (rng_chan ctx r) =
      (calls.chan_errors ev ≡ ok tt) × (handle ≡ ctx.chan) × IsLive ctx s.rng × IsSmall ctx r
  Fits calls s handle ev (box_port accepted allocated cookie) = calls.port_errors ev ≡ ok tt
  Fits calls s handle ev (box_chan chan r) =
      (calls.chan_errors ev ≡ ok tt)
      × (handle ≡ chan)
      × IsBoxMessage calls r
      × HasBox chan s.box.contexts

  -- An event with no handler fits.
  abbrev pub FitsProc : Calls W → App W → (handle : ℕ) → Event → Option Proc → Type 0
  FitsProc calls s handle ev none = Unit
  FitsProc calls s handle ev (some p) = Fits calls s handle ev p

  -- Every event of a run fits the state in which it comes.
  abbrev pub FitsRun : Calls W → List (Wakeup Proc) → App W → Type 0
  FitsRun calls [] s = Unit
  FitsRun calls (u ∷ us) s =
      (is_zero u.rc ≡ true
        → FitsProc calls s u.handle u.event u.proc
          × ((t : App W)
              → dispatch_event (invoke calls) (close_handle calls) u s ≡ ok t
              → FitsRun calls us t))
      × (is_zero u.rc ≡ false → FitsRun calls us s)

  -- Between two events: the invariants of the key service and of the random number service.
  pub record IsSoundApp (s : App W) : Type 0 where
    pub key : IsSound s.key
    pub rng : IsWellFormed s.rng

  -- A hang-up of a keybox channel together with a message that cannot be received or answered.
  abbrev pub frees_twice : Calls W → Event → Option Proc → Bool
  frees_twice calls ev (some (box_chan chan r)) = ev.hup && (ev.msg && box_fails calls r)
  frees_twice calls ev _ = false

  unfoldable pub any_frees_twice : Calls W → List (Wakeup Proc) → Bool
  any_frees_twice calls [] = false
  any_frees_twice calls (u ∷ us) = frees_twice calls u.event u.proc || any_frees_twice calls us

-- The run ends with a value that satisfies the predicate; or it is stopped by the use of something
-- freed, which only happens if `twice`.
abbrev pub Holds {ℓ} : {A : Type ℓ} → (twice : Bool) → (A → Type 0) → Run A → Type 0
Holds twice P (ok a) = P a
Holds twice P (fault e) = (e ≡ use_after_free) × (twice ≡ true)

pub Holds-bind {ℓ κ} :
    {A : Type ℓ} {B : Type κ} (b c : Bool) (P : A → Type 0) (Q : B → Type 0) (m : Run A)
    (f : A → Run B)
    → (b ≡ true → c ≡ true)
    → Holds b P m
    → ((a : A) → m ≡ ok a → P a → Holds c Q (f a))
    → Holds c Q (m >>= f)
Holds-bind b c P Q (ok a) f w h k = k a refl h
Holds-bind b c P Q (fault e) f w h k = (h.0, w h.1)

pub Holds-weaken {ℓ} :
    {A : Type ℓ} (b c : Bool) (P : A → Type 0) (m : Run A)
    → (b ≡ true → c ≡ true)
    → Holds b P m
    → Holds c P m
Holds-weaken b c P (ok a) w h = h
Holds-weaken b c P (fault e) w h = (h.0, w h.1)

pub Returns-Holds {ℓ} :
    {A : Type ℓ} (b : Bool) (P : A → Type 0) (m : Run A) → Returns P m → Holds b P m
Returns-Holds b P (ok a) h = h
Returns-Holds b P (fault e) h = absurd h
