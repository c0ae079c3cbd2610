-- ===== src/Memref/Lender.antt =====
-- The lender (memref-test/lender/lender.c): three pages, a reference to each, and the messages by
-- which a client asks for them. The IPC library, memref_create and the event loop are parameters:
-- a send takes the state of the world and returns its result with the next.
pub mod Replies
use trusty_app_sample.Common.{
  Bool, List, Run, [], aborted, assert, fault, if◌then◌else◌, is_neg, is_zero, ltb, negsuc, not, ok,
  pos, replicate, size_sub, ℕ, ℤ, ◌%◌, ◌+◌, ◌==◌, ◌>>=◌, ◌>>◌, ◌^◌,
}
use trusty_app_sample.Memref.Words.{
  LenderCommand, LenderMsg, LenderRegion, copy_in, copy_out, eq_int, invalid_command, lend_bss,
  lend_ro, lend_rw, msg_size, other, page_size, read_bss, suicide, to_int, write_bss,
}

abbrev pub invalid_ipc_handle : ℤ
invalid_ipc_handle = negsuc 0

pub data Page : Type 0 where
  bss_page ro_page rw_page : Page

pub data Prot : Type 0 where
  read_only read_write : Prot

pub record Lender : Type 0 where
  pub bss : List ℕ
  pub bss_memref : ℤ
  pub ro_memref : ℤ
  pub rw_memref : ℤ

-- init
unfoldable pub init : (Page → Prot → ℤ) → Run Lender
init memref_create =
    let bss_rc = memref_create bss_page read_write in
    let ro_rc = memref_create ro_page read_only in
    let rw_rc = memref_create rw_page read_write in
    if is_neg bss_rc
    then fault aborted
    else if is_neg rw_rc
    then fault aborted
    else ok (record {
      bss = replicate page_size 0;
      bss_memref = bss_rc;
      ro_memref = if is_neg ro_rc then invalid_ipc_handle else ro_rc;
      rw_memref = rw_rc;
    })

-- What a message handler does: it returns a result to the event loop, or ends the program.
pub data Outcome : Type 0 where
  returned : ℤ → Outcome
  exited : Outcome

-- What tipc_recv2 leaves: its result, the message and the buffer `data`.
pub record Received : Type 0 where
  pub rc : ℤ
  pub msg : LenderMsg
  pub data_buf : List ℕ

unfoldable pub lender_check_region : LenderRegion → ℕ → ℤ
lender_check_region region size =
    let end = (region.offset + region.size) % 2 ^ 64 in
    if not (end == region.offset + region.size)
    then negsuc 0
    else if ltb size end
    then negsuc 0
    else pos 0

module _ {W : Type 0} (send_handle : ℤ → W → ℤ × W) (tipc_send1 : List ℕ → W → ℤ × W) where
  lend : ℤ → W → ℤ × W
  lend to_lend w =
      if eq_int to_lend invalid_ipc_handle then (negsuc 0, w) else send_handle to_lend w

  unfoldable pub lender_lend : LenderCommand → Lender → W → ℤ × W
  unfolding lend
  lender_lend lend_bss s w = lend s.bss_memref w
  lender_lend lend_ro s w = lend s.ro_memref w
  lender_lend lend_rw s w = lend s.rw_memref w
  lender_lend _ s w = (negsuc 0, w)

  unfoldable pub lender_read_bss : LenderRegion → Lender → W → Run (ℤ × W)
  lender_read_bss region s w =
      if not (is_zero (lender_check_region region page_size))
      then ok (negsuc 0, w)
      else copy_out s.bss region.offset region.size >>= λ bytes.
          let sent = tipc_send1 bytes w in
          ok (if eq_int sent.0 (to_int region.size) then pos 0 else negsuc 0, sent.1)

  unfoldable pub lender_write_bss : LenderRegion → List ℕ → Lender → W → Run (ℤ × Lender × W)
  lender_write_bss region bytes s w =
      if not (is_zero (lender_check_region region page_size))
      then ok (negsuc 0, s, w)
      else copy_in s.bss region.offset bytes region.size >>= λ page.
          let sent = tipc_send1 [] w in ok (sent.0, record s { bss = page }, sent.1)

  -- `if (rc < 0) return rc; break;`, and 0 behind the switch
  abbrev result : ℤ → Outcome
  result rc = if is_neg rc then returned rc else returned (pos 0)

  run_lend : LenderCommand → Lender → W → Run (Outcome × Lender × W)
  run_lend cmd s w = let lent = lender_lend cmd s w in ok (result lent.0, s, lent.1)

  -- The switch of lender_on_message, for a message of `n` bytes.
  unfoldable pub run_command :
      LenderCommand → ℕ → LenderRegion → List ℕ → Lender → W → Run (Outcome × Lender × W)
  unfolding run_lend
  run_command lend_bss n region bytes s w = run_lend lend_bss s w
  run_command lend_ro n region bytes s w = run_lend lend_ro s w
  run_command lend_rw n region bytes s w = run_lend lend_rw s w
  run_command suicide n region bytes s w = ok (exited, s, w)
  run_command read_bss n region bytes s w =
      lender_read_bss region s w >>= λ r. ok (result r.0, s, r.1)
  run_command write_bss n region bytes s w =
      if not (size_sub n msg_size == region.size)
      then ok (returned (negsuc 0), s, w)
      else lender_write_bss region bytes s w >>= λ r. ok (result r.0, r.1, r.2)
  run_command invalid_command n region bytes s w = ok (returned (negsuc 0), s, w)
  run_command (other _) n region bytes s w = ok (returned (negsuc 0), s, w)

  unfoldable pub handle_received : ℤ → LenderMsg → List ℕ → Lender → W → Run (Outcome × Lender × W)
  handle_received (negsuc n) msg bytes s w = ok (returned (negsuc n), s, w)
  handle_received (pos n) msg bytes s w = run_command msg.cmd n msg.region bytes s w

  -- The port and the context are what the event loop passes.
  unfoldable pub lender_on_message :
      (at_lender_port no_ctx : Bool) → (W → Received × W) → Lender → W → Run (Outcome × Lender × W)
  lender_on_message at_lender_port no_ctx tipc_recv2 s w =
      assert at_lender_port
      >> assert no_ctx
      >> (let received = tipc_recv2 w in
          let got = received.0 in handle_received got.rc got.msg got.data_buf s received.1)

-- The event loop of the library runs with the pages that init has made.
unfoldable pub main :
    (memref_create : Page → Prot → ℤ) (hset_created : Bool) (added : ℤ) (run : Lender → ℤ) → Run ℤ
main memref_create hset_created added run = init memref_create >>= λ s.
    ok (if not hset_created then negsuc 0 else if is_neg added then added else run s)
