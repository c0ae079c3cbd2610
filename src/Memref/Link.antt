-- ===== src/Memref/Link.antt =====
-- The client and the lender together: what a channel between them does is a hypothesis, in terms of
-- the lender's handler.
pub mod Calls
mod Tests
use trusty_app_sample.Common.{
  ==_self, Bool, List, Run, [], ap, arith, drop, false, fault, if◌then◌else◌, is_neg, length,
  length-drop, length-overlay, length-replicate, length-take, ltb, negsuc, ok, overlay, pos,
  replicate, take, take-length_append, true, ℕ, ℤ, ◌++◌, ◌+◌, ◌<◌, ◌^◌, ◌||◌, ◌∙◌, ◌∷◌, ◌≡◌, ◌≤◌,
}
use trusty_app_sample.Memref.Words.{
  LenderCommand, LenderMsg, LenderRegion, eq_int, max_write, msg_size, page_size, read_bss, splice,
  to_int, to_int_small, write_bss,
}
use trusty_app_sample.Memref.Client.{Ipc}
use trusty_app_sample.Memref.Lender.{Lender, Outcome, Received, exited, lender_on_message, returned}
use trusty_app_sample.Memref.Lender.Replies.{
  IsReceived, IsRegion, answer, lender_on_message-eq-answer, serve,
}

pub data Packet : Type 0 where
  bytes : List ℕ → Packet
  memref : ℤ → Packet

-- The lender, what it has sent and the client has not read, and whether the channel is closed, as
-- the event loop closes it for a handler that fails.
pub record Link : Type 0 where
  pub lender : Lender
  pub answers : List Packet
  pub closed : Bool

-- What the lender sends goes to the end of the answers.
abbrev pub send_memref : ℤ → List Packet → ℤ × List Packet
send_memref h sent = (pos 0, sent ++ (memref h ∷ []))

abbrev pub send_bytes : List ℕ → List Packet → ℤ × List Packet
send_bytes bs sent =
    if ltb (msg_size + max_write) (length bs)
    then (negsuc 8, sent)
    else (pos (length bs), sent ++ (bytes bs ∷ []))

-- The message of a client in the two buffers of the handler, the second full of zeros before.
abbrev pub arrive : LenderMsg → List ℕ → List Packet → Received × List Packet
arrive msg payload sent = (
  record {
    rc = pos (msg_size + length payload);
    msg = msg;
    data_buf = overlay payload (replicate max_write 0);
  },
  sent,
)

-- The lender after the handler: an error closes the channel, and so does the end of the lender.
abbrev pub settle : Run (Outcome × Lender × List Packet) → Link → Link
settle (ok (returned rc, s, sent)) l = record { lender = s; answers = sent; closed = is_neg rc }
settle (ok (exited, s, sent)) l = record { lender = s; answers = sent; closed = true }
settle (fault e) l = record l { closed = true }

-- An answer waits, or the channel is closed.
abbrev pub is_ready : Link → Bool
is_ready l = l.closed || ltb 0 (length l.answers)

-- What is relied on of the channel between the two and of the event loop of the lender, for a view of
-- the lender and of the channel: a message that fits the port of an open channel is taken, and the
-- lender handles it before a wait of the client ends; a wait ends with an answer, or with the end of
-- the channel; and a receive gives the first answer if its size is one that is asked for, and fails
-- on a closed channel without answers.
pub record Connects {W : Type 0} (ipc : Ipc W) (link : W → Link) : Type 0 where
  pub sends :
      (msg : LenderMsg) (payload : List ℕ) (w : W)
      → (link w).closed ≡ false
      → length payload ≤ max_write
      → ((ipc.send msg payload w).0 ≡ pos (msg_size + length payload))
        × (link (ipc.send msg payload w).1
            ≡ settle
                (lender_on_message send_memref send_bytes true true
                  (arrive msg payload)
                  (link w).lender
                  (link w).answers)
                (link w))
  pub waits :
      (w : W) → is_ready (link w) ≡ true → ((ipc.wait w).0 ≡ pos 0) × (link (ipc.wait w).1 ≡ link w)
  pub receives :
      (lo hi : ℕ) (bs : List ℕ) (rest : List Packet) (w : W)
      → (link w).answers ≡ bytes bs ∷ rest
      → lo ≤ length bs
      → length bs ≤ hi
      → ((ipc.recv lo hi w).0 ≡ pos (length bs))
        × ((ipc.recv lo hi w).1 ≡ bs)
        × (link (ipc.recv lo hi w).2 ≡ record (link w) { answers = rest })
  pub ends :
      (lo hi : ℕ) (w : W)
      → (link w).answers ≡ []
      → (link w).closed ≡ true
      → (is_neg (ipc.recv lo hi w).0 ≡ true)
        × ((ipc.recv lo hi w).1 ≡ [])
        × (link (ipc.recv lo hi w).2 ≡ link w)

-- An open channel with these answers.
abbrev pub linked_with : List Packet → Lender → Link
linked_with ps s = record { lender = s; answers = ps; closed = false }

-- What arrives is what tipc_recv2 documents.
arrive-IsReceived :
    (msg : LenderMsg) (payload : List ℕ) (ps : List Packet)
    → IsRegion msg.region
    → length payload ≤ max_write
    → IsReceived (arrive msg payload ps).0
arrive-IsReceived msg payload ps r h = (
  r,
  length-overlay payload (replicate max_write 0)
        (omega (arith, length-replicate {A = ℕ} max_write 0))
      ∙ length-replicate {A = ℕ} max_write 0,
  (omega arith, omega arith),
)

take-length-overlay : (xs ys : List ℕ) → take (length xs) (overlay xs ys) ≡ xs
take-length-overlay xs ys = take-length_append xs (drop (length xs) ys)

module _ {W : Type 0} (ipc : Ipc W) (link : W → Link) (c : Connects ipc link) where
  -- A message that fits the port is answered as described.
  send-eq-serve :
      (cmd : LenderCommand) (region : LenderRegion) (payload : List ℕ) (s : Lender) (w : W)
      → link w ≡ linked_with [] s
      → IsRegion region
      → length payload ≤ max_write
      → length s.bss ≡ page_size
      → link (ipc.send (record { cmd = cmd; region = region }) payload w).1
        ≡ settle
            (ok (
              serve send_memref send_bytes cmd
                (msg_size + length payload)
                region
                (overlay payload (replicate max_write 0))
                s
                []))
            (linked_with [] s)
  unfolding answer
  send-eq-serve cmd region payload s w e r h l =
      let msg : LenderMsg = record { cmd = cmd; region = region } in
      (c.sends msg payload w (ap (λ x. x.closed) e) h).1
      ∙ ap
          (λ x.
            settle
              (lender_on_message send_memref send_bytes true true (arrive msg payload) x.lender
                x.answers)
              x)
          e
      ∙ ap (λ m. settle m (linked_with [] s))
          (lender_on_message-eq-answer send_memref send_bytes (arrive msg payload) s []
            (arrive-IsReceived msg payload [] r h) l)

  pub send_write :
      (offset : ℕ) (buf : List ℕ) (s : Lender) (w : W)
      → link w ≡ linked_with [] s
      → length s.bss ≡ page_size
      → offset + length buf ≤ page_size
      → length buf ≤ max_write
      → link
          (ipc.send
            (record { cmd = write_bss; region = record { offset = offset; size = length buf } })
            buf
            w).1
        ≡ linked_with (bytes [] ∷ []) (record s { bss = splice s.bss offset buf })
  unfolding serve
  send_write offset buf s w e l h k =
      send-eq-serve write_bss (record { offset = offset; size = length buf }) buf s w e
        (omega arith, omega arith) k l
      ∙ ground (arith, take-length-overlay buf (replicate max_write 0))

  pub send_read :
      (offset size : ℕ) (s : Lender) (w : W)
      → link w ≡ linked_with [] s
      → length s.bss ≡ page_size
      → offset + size ≤ page_size
      → size ≤ max_write
      → link
          (ipc.send
            (record { cmd = read_bss; region = record { offset = offset; size = size } })
            []
            w).1
        ≡ linked_with (bytes (take size (drop offset s.bss)) ∷ []) s
  unfolding serve
  send_read offset size s w e l h k =
      send-eq-serve read_bss (record { offset = offset; size = size }) [] s w e
        (omega arith, omega arith) (omega arith) l
      ∙ ground (arith, length-take size (drop offset s.bss), length-drop offset s.bss)

  pub send_refused :
      (offset size : ℕ) (s : Lender) (w : W)
      → link w ≡ linked_with [] s
      → length s.bss ≡ page_size
      → offset < 2 ^ 64
      → size < 2 ^ 64
      → page_size < offset + size
      → link
          (ipc.send
            (record { cmd = read_bss; region = record { offset = offset; size = size } })
            []
            w).1
        ≡ record { lender = s; answers = []; closed = true }
  unfolding serve
  send_refused offset size s w e l h k out =
      send-eq-serve read_bss (record { offset = offset; size = size }) [] s w e (h, k) (omega arith)
        l
      ∙ ground arith

pub eq_int_self : (n : ℕ) → n < 2 ^ 31 → eq_int (pos n) (to_int n) ≡ true
eq_int_self n h = rw (to_int_small n h) (==_self n)
