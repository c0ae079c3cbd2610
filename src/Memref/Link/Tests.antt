-- ===== src/Memref/Link/Tests.antt =====
-- A channel that is a list of answers, and a write and reads over it.
use trusty_app_sample.Common.{
  List, [], arith, false, if◌then◌else◌, leb, length, length-replicate, ltb, negsuc, none, pos,
  refl, replicate, true, ℕ, ℤ, ◌&&◌, ◌+◌, ◌-◌, ◌^◌, ◌||◌, ◌∷◌, ◌≡◌,
}
use trusty_app_sample.Memref.Words.{LenderMsg, max_write, msg_size, page_size, splice}
use trusty_app_sample.Memref.Client.{Ipc, lender_read_bss, lender_write_bss}
use trusty_app_sample.Memref.Lender.{Lender, lender_on_message}
use trusty_app_sample.Memref.Link.{
  Connects, Link, Packet, arrive, bytes, linked_with, memref, send_bytes, send_memref, settle,
}
use trusty_app_sample.Memref.Link.Calls.{lender_read_bss-lender_write_bss, lender_read_bss_refused}

abbrev blank_lender : Lender
blank_lender = record {
  bss = replicate page_size 0;
  bss_memref = pos 5;
  ro_memref = negsuc 0;
  rw_memref = pos 6;
}

blank_lender-page : length blank_lender.bss ≡ page_size
blank_lender-page = length-replicate {A = ℕ} page_size 0

abbrev deliver : LenderMsg → List ℕ → Link → ℤ × Link
deliver msg payload l = if l.closed || ltb max_write (length payload) then (negsuc 0, l) else (
  pos (msg_size + length payload),
  settle
      (lender_on_message send_memref send_bytes true true (arrive msg payload) l.lender l.answers)
      l,
)

abbrev next_bytes : ℕ → ℕ → List Packet → Link → ℤ × List ℕ × Link
next_bytes lo hi (bytes bs ∷ rest) l =
    if leb lo (length bs) && leb (length bs) hi
    then (pos (length bs), bs, record l { answers = rest })
    else (negsuc 0, [], record l { answers = rest })
next_bytes lo hi (memref h ∷ rest) l = (negsuc 0, [], record l { answers = rest })
next_bytes lo hi [] l = (negsuc 0, [], l)

abbrev linked : Ipc Link
linked = record {
  send = deliver;
  wait = λ l. (pos 0, l);
  recv = λ lo hi l. next_bytes lo hi l.answers l;
  get_msg = λ l. (negsuc 0, 0, l);
  read_msg = λ n l. (negsuc 0, none, l);
  put_msg = λ n l. l;
  close = λ l. record l { closed = true };
}

linked-Connects : Connects linked (λ l. l)
linked-Connects = record {
  sends = λ msg payload l up fits.
      let room : ltb max_write (length payload) ≡ false = ground (arith, fits) in
      rw (up, room) (refl, refl);
  waits = λ l ready. (refl, refl);
  receives = λ lo hi bs rest l e low high.
      let in_low : leb lo (length bs) ≡ true = ground (arith, low) in
      let in_high : leb (length bs) hi ≡ true = ground (arith, high) in
      rw (e, in_low, in_high) (refl, refl, refl);
  ends = λ lo hi l e shut. rw e (refl, refl, refl);
}

abbrev open_link : Link
open_link = linked_with [] blank_lender

abbrev written : Link
written = (lender_write_bss linked 1 2 (42 ∷ 43 ∷ []) open_link).1

lender_read_bss-lender_write_bss_example :
    let r = lender_read_bss linked 1 2 (0 ∷ 0 ∷ []) written in
    (r.0 ≡ pos 0)
    × (r.1 ≡ 42 ∷ 43 ∷ [])
    × (r.2
        ≡ linked_with [] (record blank_lender { bss = splice blank_lender.bss 1 (42 ∷ 43 ∷ []) }))
lender_read_bss-lender_write_bss_example =
    lender_read_bss-lender_write_bss linked (λ l. l) linked-Connects 1 (42 ∷ 43 ∷ []) (0 ∷ 0 ∷ [])
      blank_lender open_link refl blank_lender-page (omega arith) (omega arith)

-- An offset whose region wraps.
lender_read_bss_refused_example :
    let r = lender_read_bss linked (2 ^ 64 - 1) 2 (0 ∷ 0 ∷ []) open_link in
    (r.0 ≡ negsuc 0)
    × (r.1 ≡ 0 ∷ 0 ∷ [])
    × (r.2 ≡ record { lender = blank_lender; answers = []; closed = true })
lender_read_bss_refused_example =
    lender_read_bss_refused linked (λ l. l) linked-Connects (2 ^ 64 - 1) 2 (0 ∷ 0 ∷ []) blank_lender
      open_link refl blank_lender-page (omega arith) (omega arith) (omega arith)
