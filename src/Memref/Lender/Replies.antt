-- ===== src/Memref/Lender/Replies.antt =====
-- What the lender answers: the messages of lender.c against a description over plain numbers.
use trusty_app_sample.Common.{
  Bool, Bool-cases, List, [], arith, drop, if◌then◌else◌, inl, inr, is_neg, leb, length,
  length-append, length-drop, length-take, negsuc, not, ok, pos, refl, take, true, ℕ, ℤ, ◌++◌, ◌+◌,
  ◌<◌, ◌==◌, ◌^◌, ◌∙◌, ◌≡◌, ◌≤◌,
}
use trusty_app_sample.Memref.Words.{
  LenderCommand, LenderMsg, LenderRegion, copy_in, copy_out, eq_int, invalid_command, lend_bss,
  lend_ro, lend_rw, max_write, msg_size, other, page_size, read_bss, splice, suicide, to_int_small,
  write_bss,
}
use trusty_app_sample.Memref.Lender.{
  Lender, Outcome, Received, exited, handle_received, invalid_ipc_handle, lend, lender_check_region,
  lender_lend, lender_on_message, lender_read_bss, lender_write_bss, returned, run_command,
  run_lend,
}

-- Numbers of 64 bits.
abbrev pub IsRegion : LenderRegion → Type 0
IsRegion region = (region.offset < 2 ^ 64) × (region.size < 2 ^ 64)

abbrev in_page : LenderRegion → Bool
in_page region = leb (region.offset + region.size) page_size

-- What tipc_recv2 documents: an error, or at least the message and at most what the two buffers
-- hold.
abbrev IsLength : ℤ → Type 0
IsLength (pos n) = (msg_size ≤ n) × (n ≤ msg_size + max_write)
IsLength (negsuc n) = Unit

abbrev pub IsReceived : Received → Type 0
IsReceived got = IsRegion got.msg.region × (length got.data_buf ≡ max_write) × IsLength got.rc

lender_check_region-eq :
    (region : LenderRegion)
    → IsRegion region
    → lender_check_region region page_size ≡ (if in_page region then pos 0 else negsuc 0)
unfolding lender_check_region
lender_check_region-eq region (h, k) = ground arith

copy_out-ok :
    (buf : List ℕ) (off n : ℕ)
    → off + n ≤ length buf
    → copy_out buf off n ≡ ok (take n (drop off buf))
unfolding copy_out
copy_out-ok buf off n h = ground arith

pub copy_in-ok :
    (buf src : List ℕ) (off n : ℕ)
    → off + n ≤ length buf
    → n ≤ length src
    → copy_in buf off src n ≡ ok (splice buf off (take n src))
unfolding copy_in
copy_in-ok buf src off n h k = rw (copy_out-ok src 0 n (omega arith)) (ground arith)

pub length-splice :
    (buf src : List ℕ) (off : ℕ)
    → off + length src ≤ length buf
    → length (splice buf off src) ≡ length buf
length-splice buf src off h =
    length-append (take off buf) (src ++ drop (off + length src) buf)
    ∙ omega (
      arith,
      length-append src (drop (off + length src) buf),
      length-take off buf,
      length-drop (off + length src) buf,
    )

module _ {W : Type 0} (send_handle : ℤ → W → ℤ × W) (tipc_send1 : List ℕ → W → ℤ × W) where
  abbrev refused : Lender → W → Outcome × Lender × W
  refused s w = (returned (negsuc 0), s, w)

  -- The handle of a page is sent, if there is one.
  lends : ℤ → Lender → W → Outcome × Lender × W
  lends memref s w =
      if eq_int memref invalid_ipc_handle
      then refused s w
      else let sent = send_handle memref w in
        (if is_neg sent.0 then returned sent.0 else returned (pos 0), s, sent.1)

  -- The answer to each command: a region that ends behind the page is refused, and so is a write
  -- whose message does not have the bytes of its region behind it.
  unfoldable pub serve :
      LenderCommand → ℕ → LenderRegion → List ℕ → Lender → W → Outcome × Lender × W
  unfolding lends
  serve lend_bss n region bytes s w = lends s.bss_memref s w
  serve lend_ro n region bytes s w = lends s.ro_memref s w
  serve lend_rw n region bytes s w = lends s.rw_memref s w
  serve suicide n region bytes s w = (exited, s, w)
  serve read_bss n region bytes s w =
      if not (in_page region)
      then refused s w
      else let sent = tipc_send1 (take region.size (drop region.offset s.bss)) w in
        (returned (if eq_int sent.0 (pos region.size) then pos 0 else negsuc 0), s, sent.1)
  serve write_bss n region bytes s w =
      if not (n == msg_size + region.size)
      then refused s w
      else if not (in_page region)
      then refused s w
      else let sent = tipc_send1 [] w in
        let page = splice s.bss region.offset (take region.size bytes) in
        (
          if is_neg sent.0 then returned sent.0 else returned (pos 0),
          record s { bss = page },
          sent.1,
        )
  serve _ n region bytes s w = refused s w

  run_command-eq-serve :
      (cmd : LenderCommand) (n : ℕ) (region : LenderRegion) (bytes : List ℕ) (s : Lender) (w : W)
      → IsRegion region
      → length bytes ≡ max_write
      → msg_size ≤ n
      → n ≤ msg_size + max_write
      → length s.bss ≡ page_size
      → run_command send_handle tipc_send1 cmd n region bytes s w
        ≡ ok (serve cmd n region bytes s w)
  unfolding run_command run_lend lender_lend lend serve lends lender_read_bss lender_write_bss
  run_command-eq-serve lend_bss n region bytes s w r d lo hi l = ground arith
  run_command-eq-serve lend_ro n region bytes s w r d lo hi l = ground arith
  run_command-eq-serve lend_rw n region bytes s w r d lo hi l = ground arith
  run_command-eq-serve suicide n region bytes s w r d lo hi l = refl
  run_command-eq-serve read_bss n region bytes s w r d lo hi l =
      rw (lender_check_region-eq region r) (elim (Bool-cases (in_page region)) [
        | inl e ↦
            ground (arith, copy_out-ok s.bss region.offset region.size, to_int_small region.size)
        | inr e ↦ ground arith
      ])
  run_command-eq-serve write_bss n region bytes s w r d lo hi l =
      (elim (Bool-cases (in_page region)) [
        | inl e ↦ ground (
          arith,
          lender_check_region-eq region r,
          copy_in-ok s.bss bytes region.offset region.size,
        )
        | inr e ↦ ground (arith, lender_check_region-eq region r)
      ])
  run_command-eq-serve invalid_command n region bytes s w r d lo hi l = refl
  run_command-eq-serve (other _) n region bytes s w r d lo hi l = refl

  -- An error of the library is passed on.
  unfoldable pub answer : ℤ → LenderMsg → List ℕ → Lender → W → Outcome × Lender × W
  answer (negsuc n) msg bytes s w = (returned (negsuc n), s, w)
  answer (pos n) msg bytes s w = serve msg.cmd n msg.region bytes s w

  handle_received-eq-answer :
      (rc : ℤ) (msg : LenderMsg) (bytes : List ℕ) (s : Lender) (w : W)
      → IsRegion msg.region
      → length bytes ≡ max_write
      → IsLength rc
      → length s.bss ≡ page_size
      → handle_received send_handle tipc_send1 rc msg bytes s w ≡ ok (answer rc msg bytes s w)
  unfolding handle_received answer
  handle_received-eq-answer (negsuc n) msg bytes s w r d b l = refl
  handle_received-eq-answer (pos n) msg bytes s w r d b l =
      run_command-eq-serve msg.cmd n msg.region bytes s w r d b.0 b.1 l

  -- Every message that the library can leave is answered as described, and an error of the
  -- library is passed on; no access goes outside the page or the buffer of the message. For the
  -- port and the context that the event loop passes, and a page of 4096 bytes.
  pub lender_on_message-eq-answer :
      (tipc_recv2 : W → Received × W) (s : Lender) (w : W)
      → IsReceived (tipc_recv2 w).0
      → length s.bss ≡ page_size
      → lender_on_message send_handle tipc_send1 true true tipc_recv2 s w
        ≡ ok (let got = (tipc_recv2 w).0 in answer got.rc got.msg got.data_buf s (tipc_recv2 w).1)
  unfolding lender_on_message
  lender_on_message-eq-answer tipc_recv2 s w (r, d, b) l =
      handle_received-eq-answer _ _ _ s _ r d b l

  -- Whatever is asked, the references stay as they are and the page keeps its length.
  pub serve-page :
      (cmd : LenderCommand) (n : ℕ) (region : LenderRegion) (bytes : List ℕ) (s : Lender) (w : W)
      → length bytes ≡ max_write
      → n ≤ msg_size + max_write
      → length s.bss ≡ page_size
      → length (serve cmd n region bytes s w).1.bss ≡ page_size
  unfolding serve lends
  serve-page lend_bss n region bytes s w d h l = ground arith
  serve-page lend_ro n region bytes s w d h l = ground arith
  serve-page lend_rw n region bytes s w d h l = ground arith
  serve-page suicide n region bytes s w d h l = l
  serve-page read_bss n region bytes s w d h l = ground arith
  serve-page write_bss n region bytes s w d h l = ground (
    arith,
    length-splice s.bss (take region.size bytes) region.offset,
    length-take region.size bytes,
  )
  serve-page invalid_command n region bytes s w d h l = l
  serve-page (other _) n region bytes s w d h l = l
