-- ===== src/Spi/Client/Expected.antt =====
-- The transfer of the test over the driver: the bytes that the test expects are those that the
-- driver writes.
use trusty_app_sample.Common.{List, [], ok, some, ℕ, ◌++◌, ◌∷◌, ◌≡◌}
use trusty_app_sample.Spi.Driver.{Code, System}
use trusty_app_sample.Spi.Driver.Requests.{Request, clock, deselect, select, transaction, transfer}
use trusty_app_sample.Spi.Client.{SpiDev}

-- What is relied on of the client library and of the server behind it, for a view of the commands that
-- wait and of the system of the driver: a command is queued behind those that wait, the test shares the
-- memory of the device, and the execution hands the queue to the driver, which begins a sequence, fills
-- it and commits it.
pub record HandsOver {W : Type 0} (rand : ℕ → ℕ → ℕ) (dev : SpiDev W) (requests : W → List Request)
    (system : W → System) : Type 0 where
  pub clocks :
      (w : W)
      → (requests (dev.add_set_clk w).1 ≡ requests w ++ clock ∷ [])
        × (system (dev.add_set_clk w).1 ≡ system w)
  pub selects :
      (w : W)
      → (requests (dev.add_cs_assert w).1 ≡ requests w ++ select ∷ [])
        × (system (dev.add_cs_assert w).1 ≡ system w)
  pub transfers :
      (len : ℕ) (w : W)
      → (requests (dev.add_data_xfer len w).1
          ≡ requests w ++ transfer (some dev.tx) (some dev.rx) len ∷ [])
        × (system (dev.add_data_xfer len w).1 ≡ system w)
  pub deselects :
      (w : W)
      → (requests (dev.add_cs_deassert w).1 ≡ requests w ++ deselect ∷ [])
        × (system (dev.add_cs_deassert w).1 ≡ system w)
  pub shares : (w : W) → dev.memory w ≡ (system w).memory
  pub stores :
      (m : ℕ → ℕ) (w : W)
      → (requests (dev.set_memory m w) ≡ requests w)
        × (system (dev.set_memory m w) ≡ record (system w) { memory = m })
  pub executes :
      (w : W) (rc : Code) (s : System)
      → transaction rand (requests w) (system w) ≡ ok (rc, s)
      → system (dev.exec_cmds w).1 ≡ s

abbrev sequence : (tx rx len : ℕ) → List Request
sequence tx rx len = clock ∷ select ∷ transfer (some tx) (some rx) len ∷ deselect ∷ []

module _ {W : Type 0} (rand : ℕ → ℕ → ℕ) (dev : SpiDev W) (requests : W → List Request)
    (system : W → System) (over : HandsOver rand dev requests system) where
  -- The commands of a transfer.
  abbrev commands : ℕ → W → W
  commands len w =
      (dev.add_cs_deassert (dev.add_data_xfer len (dev.add_cs_assert (dev.add_set_clk w).1).1).1).1
