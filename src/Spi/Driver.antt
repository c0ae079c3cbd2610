-- ===== src/Spi/Driver.antt =====
-- spi/swspi-srv/driver/swspi.c and swspi.h. The memory of the client is a function from addresses to
-- bytes; `live` counts the blocks that are allocated and not freed; `rand` stands for the numbers
-- that `rand` gives after `srand`.
pub mod Requests
pub mod Queueing
pub mod Sequence
pub mod Overflow
mod Tests
use trusty_app_sample.Common.{
  Bool, List, Option, Run, [], assert, bit_or, bit_xor, false, fault, if◌then◌else◌, is_some, leb,
  ltb, none, not, null_call, null_pointer, ok, out_of_bounds, read, replicate, some, suc, true,
  write, zero, ℕ, ◌%◌, ◌&&◌, ◌*◌, ◌+◌, ◌-◌, ◌/◌, ◌==◌, ◌>>=◌, ◌>>◌, ◌^◌, ◌∷◌,
}

-- `struct spi_req_xfer_args`, and the argument of a delay.
pub data Priv : Type 0 where
  xfer_args : (tx rx : Option ℕ) (len : ℕ) → Priv
  delay_ns : ℕ → Priv

-- The functions that `exec` points to.
pub data Exec : Type 0 where
  set_clk cs_assert cs_deassert xfer delay : Exec

-- `struct spi_seq_entry`
pub record Entry : Type 0 where
  pub exec : Option Exec
  pub priv : Option Priv

-- `struct spi_dev_ctx`, at the address `addr`, without the pointer to the bus.
pub record Dev : Type 0 where
  pub addr : ℕ
  pub cmds : Option (List Entry)
  pub num_cmds : ℕ
  pub curr_cmd : ℕ
  pub loopback : Bool

-- A device with the bus that it is on (`owner` is the address of a device), the memory, the delays
-- that were slept, newest first, and the live allocations.
pub record System : Type 0 where
  pub dev : Dev
  pub owner : Option ℕ
  pub num_devs : ℕ
  pub memory : ℕ → ℕ
  pub slept : List ℕ
  pub live : ℕ

-- `NO_ERROR` and `ERR_NO_MEMORY`
pub data Code : Type 0 where
  no_error no_memory : Code

pub spi_is_bus_shared : System → Bool
spi_is_bus_shared s = ltb 1 s.num_devs

spi_dev_seq_active : Dev → Bool
spi_dev_seq_active d = is_some d.cmds

-- `dev->cmds`, where it is read through.
abbrev cmds_of : Dev → Run (List Entry)
cmds_of d = elim d.cmds [ none ↦ fault null_pointer | some cmds ↦ ok cmds ]

-- `dev->cmds[dev->curr_cmd]` gets a function, and an argument if there is one; `dev->curr_cmd++`.
fill_entry : Exec → Option Priv → System → Run System
fill_entry f arg s = do
  cmds ← cmds_of s.dev
  e ← read cmds s.dev.curr_cmd
  cmds' ←
      write cmds s.dev.curr_cmd
        (record { exec = some f; priv = elim arg [ none ↦ e.priv | some a ↦ some a ] })
  ok (record s { dev = record (s.dev) { cmds = some cmds'; curr_cmd = s.dev.curr_cmd + 1 } })

-- The assertions at the start of a request.
abbrev assert_room : Dev → Run (Unit {0})
assert_room d = assert (spi_dev_seq_active d) >> assert (ltb d.curr_cmd d.num_cmds)

pub spi_req_set_clk : System → Run (Code × System)
unfolding fill_entry
spi_req_set_clk s = do s' ← fill_entry set_clk none s; ok (no_error, s')

pub spi_req_cs_assert : System → Run (Code × System)
unfolding fill_entry spi_dev_seq_active
spi_req_cs_assert s = do assert_room s.dev; s' ← fill_entry cs_assert none s; ok (no_error, s')

pub spi_req_cs_deassert : System → Run (Code × System)
unfolding fill_entry spi_dev_seq_active
spi_req_cs_deassert s = do assert_room s.dev; s' ← fill_entry cs_deassert none s; ok (no_error, s')

-- `allocated` is whether `malloc` succeeds.
pub spi_req_xfer : (allocated : Bool) (tx rx : Option ℕ) (len : ℕ) → System → Run (Code × System)
unfolding fill_entry spi_dev_seq_active
spi_req_xfer allocated tx rx len s = do
  assert_room s.dev
  if allocated
      then fill_entry xfer (some (xfer_args tx rx len)) (record s { live = s.live + 1 })
        >>= (λ s'. ok (no_error, s'))
      else ok (no_memory, s)

pub spi_req_delay : (allocated : Bool) (ns : ℕ) → System → Run (Code × System)
unfolding fill_entry
spi_req_delay allocated ns s =
    if allocated
    then fill_entry delay (some (delay_ns ns)) (record s { live = s.live + 1 })
      >>= (λ s'. ok (no_error, s'))
    else ok (no_memory, s)

-- The 8-bit digest, one byte at a time: a rotation to the right, and an exclusive or.
abbrev pub digest_byte : ℕ → ℕ → ℕ
digest_byte digest b = bit_xor (bit_or (digest / 2) ((digest % 2) * 2 ^ 7)) b

unfoldable pub digest_from : (digest : ℕ) → List ℕ → ℕ
digest_from digest [] = digest
digest_from digest (b ∷ buf) = digest_from (digest_byte digest b) buf

unfoldable pub digest : List ℕ → ℕ
unfolding digest_from
digest buf = digest_from 0 buf

-- The bytes at `len` addresses from `a` on, and a function that writes such a range.
unfoldable pub load : (ℕ → ℕ) → (a len : ℕ) → List ℕ
load memory a zero = []
load memory a (suc n) = memory a ∷ load memory (a + 1) n

unfoldable pub fill_range : (a len : ℕ) → (ℕ → ℕ) → (ℕ → ℕ) → ℕ → ℕ
fill_range a len f memory p = if leb a p && ltb p (a + len) then f (p - a) else memory p

-- `rand_buf`: the bytes of the range after `srand(seed)`.
unfoldable pub rand_byte : (rand : ℕ → ℕ → ℕ) → (seed i : ℕ) → ℕ
rand_byte rand seed i = rand seed i % 0xff

module _ (rand : ℕ → ℕ → ℕ) where
  -- The memory after `spi_req_exec_xfer`.
  unfoldable pub exec_xfer_memory : Bool → (tx rx : Option ℕ) (len : ℕ) → (ℕ → ℕ) → ℕ → ℕ
  exec_xfer_memory loopback tx none len memory = memory
  exec_xfer_memory true none (some rx) len memory = fill_range rx len (λ i. 0) memory
  exec_xfer_memory true (some tx) (some rx) len memory =
      fill_range rx len (λ i. memory (tx + i)) memory
  exec_xfer_memory false none (some rx) len memory = fill_range rx len (rand_byte rand 0) memory
  exec_xfer_memory false (some tx) (some rx) len memory =
      fill_range rx len (rand_byte rand (digest (load memory tx len))) memory

  -- `dev->bus->owner == dev`
  abbrev pub is_owner : Option ℕ → ℕ → Bool
  is_owner none addr = false
  is_owner (some o) addr = o == addr

  -- The call of `exec` with `priv`; an argument of another kind is read outside its block.
  unfoldable pub call_exec : Exec → Option Priv → System → Run System
  unfolding exec_xfer_memory
  call_exec set_clk priv s = ok s
  call_exec cs_assert priv s =
      assert (not (is_some s.owner)) >> ok (record s { owner = some s.dev.addr })
  call_exec cs_deassert priv s =
      assert (is_owner s.owner s.dev.addr) >> ok (record s { owner = none })
  call_exec xfer none s = fault null_pointer
  call_exec xfer (some (delay_ns ns)) s = fault out_of_bounds
  call_exec xfer (some (xfer_args tx rx len)) s =
      ok (record s { memory = exec_xfer_memory s.dev.loopback tx rx len s.memory })
  call_exec delay none s = fault null_pointer
  call_exec delay (some (xfer_args tx rx len)) s = fault out_of_bounds
  call_exec delay (some (delay_ns ns)) s = ok (record s { slept = ns ∷ s.slept })

  abbrev exec_entry : Entry → System → Run System
  exec_entry e s = elim e.exec [ none ↦ fault null_call | some f ↦ call_exec f e.priv s ]

  -- The loop of `spi_seq_commit` with `k` rounds left; no request changes `dev->cmds`.
  commit_loop : List Entry → (k i : ℕ) → System → Run System
  commit_loop cmds zero i s = ok s
  commit_loop cmds (suc k) i s = do
    e ← read cmds i
    s' ← exec_entry e s
    commit_loop cmds k (i + 1) s'

-- The blocks that the loop of `spi_seq_free` frees, with `k` rounds left.
free_loop : List Entry → (k i : ℕ) → Run ℕ
free_loop cmds zero i = ok 0
free_loop cmds (suc k) i = do
  e ← read cmds i
  n ← free_loop cmds k (i + 1)
  ok (if is_some e.priv then n + 1 else n)

spi_seq_free : System → Run System
unfolding free_loop
spi_seq_free s = do
  cmds ← cmds_of s.dev
  n ← free_loop cmds s.dev.num_cmds 0
  ok (record s {
    dev = record (s.dev) { cmds = none; num_cmds = 0; curr_cmd = 0 };
    live = s.live - n - 1;
  })

-- `allocated` is whether `calloc` succeeds; its entries hold null pointers.
pub spi_seq_begin : (allocated : Bool) (num_cmds : ℕ) → System → Run (Code × System)
unfolding spi_dev_seq_active
spi_seq_begin allocated num_cmds s = do
  assert (not (spi_dev_seq_active s.dev))
  ok (
      if allocated
      then (
        no_error,
        record s {
          dev = record (s.dev) {
            cmds = some (replicate num_cmds (record { exec = none; priv = none }));
            num_cmds = num_cmds;
          };
          live = s.live + 1;
        },
      )
      else (no_memory, s))

pub spi_seq_commit : (rand : ℕ → ℕ → ℕ) → System → Run (Code × System)
unfolding commit_loop spi_seq_free spi_dev_seq_active
spi_seq_commit rand s = do
  assert (spi_dev_seq_active s.dev)
  assert (s.dev.curr_cmd == s.dev.num_cmds)
  cmds ← cmds_of s.dev
  s₁ ← commit_loop rand cmds s.dev.num_cmds 0 s
  s₂ ← spi_seq_free s₁
  ok (no_error, s₂)

pub spi_seq_abort : System → Run System
unfolding spi_seq_free spi_dev_seq_active
spi_seq_abort s = do assert (spi_dev_seq_active s.dev); spi_seq_free s
