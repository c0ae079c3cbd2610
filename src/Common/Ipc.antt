-- ===== src/Common/Ipc.antt =====
-- What the services see of the IPC layer: the event bits of `uevent_t`, and the handles that they
-- hold. The calls themselves are not part of the repository; their results are arguments.
use mathlib.Core.Bool.{Bool, false}

-- `ev->event`, by its `IPC_HANDLE_POLL_*` bits.
pub record Event : Type 0 where
  pub ready : Bool
  pub error : Bool
  pub hup : Bool
  pub msg : Bool
  pub send_unblocked : Bool

abbrev pub no_event : Event
no_event = record { ready = false; error = false; hup = false; msg = false; send_unblocked = false }
