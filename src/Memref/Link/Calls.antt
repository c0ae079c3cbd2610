-- ===== src/Memref/Link/Calls.antt =====
-- What the calls of the client do to the page of the lender.
use trusty_app_sample.Common.{
  List, [], ap, arith, drop, drop-length_append, false, is_neg, length, length-drop, length-take,
  negsuc, overlay, pos, refl, subst, take, take-length, take-length_append, true, ℕ, ℤ, ◌++◌, ◌+◌,
  ◌<◌, ◌^◌, ◌∙◌, ◌≡◌, ◌≤◌,
}
use trusty_app_sample.Memref.Words.{
  LenderMsg, eq_int, max_write, msg_size, page_size, read_bss, splice, to_int, to_int_small,
  write_bss,
}
use trusty_app_sample.Memref.Client.{Ipc, lender_read_bss, lender_write_bss}
use trusty_app_sample.Memref.Lender.{Lender}
use trusty_app_sample.Memref.Link.{
  Connects, Link, eq_int_self, is_ready, linked_with, send_read, send_refused, send_write,
}
use trusty_app_sample.Memref.Lender.Replies.{length-splice}

neg_other : (c : ℤ) (n : ℕ) → is_neg c ≡ true → eq_int c (pos n) ≡ false
neg_other (pos m) n e = cc
neg_other (negsuc m) n e = refl

take-splice :
    (page src : List ℕ) (off : ℕ)
    → off ≤ length page
    → take (length src) (drop off (splice page off src)) ≡ src
take-splice page src off h =
    let rest = src ++ drop (off + length src) page in
    let e : length (take off page) ≡ off = omega (arith, length-take off page) in
    ap (take (length src)) (
      subst (λ n. drop n (take off page ++ rest) ≡ rest) e
        (drop-length_append (take off page) rest))
    ∙ take-length_append src (drop (off + length src) page)

module _ {W : Type 0} (ipc : Ipc W) (link : W → Link) (c : Connects ipc link) where
  -- The region of the page becomes the client's bytes; the rest of the page, the references and the
  -- channel stay.
  lender_write_bss-splice :
      (offset : ℕ) (buf : List ℕ) (s : Lender) (w : W)
      → link w ≡ linked_with [] s
      → length s.bss ≡ page_size
      → offset + length buf ≤ page_size
      → length buf ≤ max_write
      → ((lender_write_bss ipc offset (length buf) buf w).0 ≡ pos 0)
        × (link (lender_write_bss ipc offset (length buf) buf w).1
            ≡ linked_with [] (record s { bss = splice s.bss offset buf }))
  unfolding lender_write_bss
  lender_write_bss-splice offset buf s w e l h k =
      let msg : LenderMsg = record {
        cmd = write_bss;
        region = record { offset = offset; size = length buf };
      } in
      let w₁ = (ipc.send msg buf w).1 in
      let w₂ = (ipc.wait w₁).1 in
      let sent = c.sends msg buf w (ap (λ x. x.closed) e) k in
      let left = send_write ipc link c offset buf s w e l h k in
      let waited = c.waits w₁ (ap is_ready left) in
      let there = waited.1 ∙ left in
      let back = c.receives 0 0 [] [] w₂ (ap (λ x. x.answers) there) (omega arith) (omega arith) in
      rw (take-length buf, sent.0, eq_int_self (msg_size + length buf) (omega arith), waited.0)
        (back.0, back.2 ∙ ap (λ (x : Link). record x { answers = [] }) there)

  -- The client has the bytes of the region at the start of its buffer, and nothing changes.
  lender_read_bss-bytes :
      (offset size : ℕ) (buf : List ℕ) (s : Lender) (w : W)
      → link w ≡ linked_with [] s
      → length s.bss ≡ page_size
      → offset + size ≤ page_size
      → size ≤ max_write
      → ((lender_read_bss ipc offset size buf w).0 ≡ pos 0)
        × ((lender_read_bss ipc offset size buf w).1 ≡ overlay (take size (drop offset s.bss)) buf)
        × (link (lender_read_bss ipc offset size buf w).2 ≡ linked_with [] s)
  unfolding lender_read_bss
  lender_read_bss-bytes offset size buf s w e l h k =
      let msg : LenderMsg = record {
        cmd = read_bss;
        region = record { offset = offset; size = size };
      } in
      let region = take size (drop offset s.bss) in
      let w₁ = (ipc.send msg [] w).1 in
      let w₂ = (ipc.wait w₁).1 in
      let n : length region ≡ size =
        omega (arith, length-take size (drop offset s.bss), length-drop offset s.bss) in
      let sent = c.sends msg [] w (ap (λ x. x.closed) e) (omega arith) in
      let left = send_read ipc link c offset size s w e l h k in
      let waited = c.waits w₁ (ap is_ready left) in
      let there = waited.1 ∙ left in
      let back =
        c.receives size size region [] w₂ (ap (λ x. x.answers) there) (omega (arith, n))
          (omega (arith, n)) in
      let hit : eq_int (ipc.recv size size w₂).0 (to_int size) ≡ true =
        ap (λ m. eq_int m (to_int size)) (back.0 ∙ ap pos n) ∙ eq_int_self size (omega arith) in
      rw (sent.0, waited.0, hit)
        (
          refl,
          ap (λ x. overlay x buf) back.1,
          back.2 ∙ ap (λ (x : Link). record x { answers = [] }) there,
        )

  -- A region that ends behind the page is refused: the client gets an error and its buffer is as it
  -- was, the page too, and the channel is closed. For every offset of 64 bits, also where the end of
  -- the region wraps, and a size below 2^31, and a page of 4096 bytes. Over an open channel with no
  -- answer waiting that takes every message which fits the port, ends a wait when the lender has
  -- handled the message, keeps the answers in order, is closed for a handler that fails, and gives an
  -- error and no byte once it is closed.
  pub lender_read_bss_refused :
      (offset size : ℕ) (buf : List ℕ) (s : Lender) (w : W)
      → link w ≡ linked_with [] s
      → length s.bss ≡ page_size
      → offset < 2 ^ 64
      → size < 2 ^ 31
      → page_size < offset + size
      → ((lender_read_bss ipc offset size buf w).0 ≡ negsuc 0)
        × ((lender_read_bss ipc offset size buf w).1 ≡ buf)
        × (link (lender_read_bss ipc offset size buf w).2
            ≡ record { lender = s; answers = []; closed = true })
  unfolding lender_read_bss
  lender_read_bss_refused offset size buf s w e l h k out =
      let msg : LenderMsg = record {
        cmd = read_bss;
        region = record { offset = offset; size = size };
      } in
      let w₁ = (ipc.send msg [] w).1 in
      let w₂ = (ipc.wait w₁).1 in
      let sent = c.sends msg [] w (ap (λ x. x.closed) e) (omega arith) in
      let left = send_refused ipc link c offset size s w e l h (omega arith) out in
      let waited = c.waits w₁ (ap is_ready left) in
      let there = waited.1 ∙ left in
      let back = c.ends size size w₂ (ap (λ x. x.answers) there) (ap (λ x. x.closed) there) in
      let other : eq_int (ipc.recv size size w₂).0 (pos size) ≡ false = neg_other _ size back.0 in
      rw (sent.0, waited.0, to_int_small size k, other)
        (refl, ap (λ x. overlay x buf) back.1, back.2 ∙ there)

  -- What the client writes is what it reads then, whatever the page was: a region in the page of at
  -- most 2048 bytes, and a page of 4096. Over an open channel with no answer waiting that takes every
  -- message which fits the port, ends a wait when the lender has handled the message, and keeps the
  -- answers in order.
  pub lender_read_bss-lender_write_bss :
      (offset : ℕ) (data_bytes buf : List ℕ) (s : Lender) (w : W)
      → link w ≡ linked_with [] s
      → length s.bss ≡ page_size
      → offset + length data_bytes ≤ page_size
      → length data_bytes ≤ max_write
      → let w₁ = (lender_write_bss ipc offset (length data_bytes) data_bytes w).1 in
        let r = lender_read_bss ipc offset (length data_bytes) buf w₁ in
        (r.0 ≡ pos 0)
        × (r.1 ≡ overlay data_bytes buf)
        × (link r.2 ≡ linked_with [] (record s { bss = splice s.bss offset data_bytes }))
  lender_read_bss-lender_write_bss offset data_bytes buf s w e l h k =
      let page = splice s.bss offset data_bytes in
      let written = lender_write_bss-splice offset data_bytes s w e l h k in
      let got =
        lender_read_bss-bytes offset (length data_bytes) buf (record s { bss = page })
          (lender_write_bss ipc offset (length data_bytes) data_bytes w).1 written.1
          (length-splice s.bss data_bytes offset (omega arith) ∙ l) h k in
      (
        got.0,
        got.1 ∙ ap (λ x. overlay x buf) (take-splice s.bss data_bytes offset (omega arith)),
        got.2,
      )
