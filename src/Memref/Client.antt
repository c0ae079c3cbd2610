-- ===== src/Memref/Client.antt =====
-- The client of the lender (the functions of memref-test/memref-test.c that the tests call). The
-- IPC library is a parameter: each call takes the state of the world and returns the next.
use trusty_app_sample.Common.{
  List, Option, [], if◌then◌else◌, is_zero, negsuc, none, not, overlay, pos, some, take, ℕ, ℤ, ◌+◌,
}
use trusty_app_sample.Memref.Words.{
  LenderCommand, LenderMsg, eq_int, lend_bss, msg_size, read_bss, suicide, to_int, write_bss,
}

-- The calls: tipc_send2 with the message and the bytes behind it (tipc_send1 has none), wait,
-- tipc_recv1 with its least and its largest size and the bytes that it leaves, get_msg and
-- read_msg, which leave an id and a handle, put_msg and close.
pub record Ipc (W : Type 0) : Type 0 where
  pub send : LenderMsg → List ℕ → W → ℤ × W
  pub wait : W → ℤ × W
  pub recv : ℕ → ℕ → W → ℤ × List ℕ × W
  pub get_msg : W → ℤ × ℕ × W
  pub read_msg : ℕ → W → ℤ × Option ℤ × W
  pub put_msg : ℕ → W → W
  pub close : W → W

-- `struct lender_msg msg = { .cmd = cmd }`
abbrev bare : LenderCommand → LenderMsg
bare c = record { cmd = c; region = record { offset = 0; size = 0 } }

module _ {W : Type 0} (ipc : Ipc W) where
  unfoldable pub lender_command : LenderCommand → W → ℤ × W
  lender_command cmd w =
      let sent = ipc.send (bare cmd) [] w in
      (if not (eq_int sent.0 (pos msg_size)) then negsuc 0 else pos 0, sent.1)

  -- `*out` stays as it is if no handle comes.
  received_handle : Option ℤ → ℤ → ℤ
  received_handle none out = out
  received_handle (some h) out = h

  unfoldable pub lender_recv_handle : ℤ → W → ℤ × ℤ × W
  unfolding received_handle
  lender_recv_handle out w =
      let waited = ipc.wait w in
      if not (is_zero waited.0)
      then (waited.0, out, waited.1)
      else let got = ipc.get_msg waited.1 in
        if not (is_zero got.0)
        then (got.0, out, got.2)
        else let back = ipc.read_msg got.1 got.2 in
          (back.0, received_handle back.1 out, ipc.put_msg got.1 back.2)

  unfoldable pub lender_lend_bss : ℤ → W → ℤ × ℤ × W
  lender_lend_bss memref w =
      let asked = lender_command lend_bss w in
      if not (is_zero asked.0)
      then (asked.0, memref, asked.1)
      else lender_recv_handle memref asked.1

  unfoldable pub lender_read_bss : (offset size : ℕ) → List ℕ → W → ℤ × List ℕ × W
  lender_read_bss offset size buf w =
      let message : LenderMsg = record {
        cmd = read_bss;
        region = record { offset = offset; size = size };
      } in
      let sent = ipc.send message [] w in
      if not (eq_int sent.0 (to_int msg_size))
      then (negsuc 0, buf, sent.1)
      else let waited = ipc.wait sent.1 in
        if not (is_zero waited.0)
        then (waited.0, buf, waited.1)
        else let back = ipc.recv size size waited.1 in
          (
            if not (eq_int back.0 (to_int size)) then negsuc 0 else pos 0,
            overlay back.1 buf,
            back.2,
          )

  unfoldable pub lender_write_bss : (offset size : ℕ) → List ℕ → W → ℤ × W
  lender_write_bss offset size buf w =
      let message : LenderMsg = record {
        cmd = write_bss;
        region = record { offset = offset; size = size };
      } in
      let sent = ipc.send message (take size buf) w in
      if not (eq_int sent.0 (to_int (msg_size + size)))
      then (negsuc 0, sent.1)
      else let waited = ipc.wait sent.1 in
        if not (is_zero waited.0)
        then waited
        else let back = ipc.recv 0 0 waited.1 in (back.0, back.2)

  unfoldable pub lender_suicide : W → ℤ × W
  lender_suicide w =
      let asked = lender_command suicide w in
      if not (is_zero asked.0) then asked else (pos 0, ipc.close asked.1)
