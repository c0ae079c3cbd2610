-- ===== src/Spi/Driver/Queueing.antt =====
-- What the requests of the SPI driver leave in its sequence.
use trusty_app_sample.Common.{
  List, Option, [], append_assoc, arith, length, length-append, ltb, map, none, ok, read-append,
  replicate, some, sym, true, write-append, ℕ, ◌++◌, ◌+◌, ◌<◌, ◌∷◌, ◌≡◌, ◌≤◌,
}
use trusty_app_sample.Spi.Driver.{
  Entry, Exec, Priv, System, cs_assert, cs_deassert, delay, delay_ns, fill_entry, no_error, set_clk,
  spi_dev_seq_active, spi_req_cs_assert, spi_req_cs_deassert, spi_req_delay, spi_req_set_clk,
  spi_req_xfer, xfer, xfer_args,
}
use trusty_app_sample.Spi.Driver.Requests.{
  Request, blank, blocks, busy, clock, deselect, entry_of, issue, issue_all, pause, select,
  transfer,
}

module _ (s : System) (front : List Entry) (k n c l : ℕ) where
  fill_entry_lem :
      (f : Exec) (arg : Option Priv) (l' : ℕ)
      → c ≡ length front
      → fill_entry f arg (record (busy s (front ++ blank ∷ replicate k blank) n c l) { live = l' })
        ≡ ok
            (record (busy s
              (front ++ record { exec = some f; priv = arg } ∷ replicate k blank)
              n
              (c + 1)
              l) { live = l' })
  unfolding fill_entry blank
  fill_entry_lem f none l' e =
      rw
        (
          e,
          read-append front (record { exec = none; priv = none })
              (replicate k (record { exec = none; priv = none })),
        )
        (rw (
          write-append front (record { exec = none; priv = none })
            (record { exec = some f; priv = none })
            (replicate k (record { exec = none; priv = none }))))
  fill_entry_lem f (some a) l' e =
      rw
        (
          e,
          read-append front (record { exec = none; priv = none })
              (replicate k (record { exec = none; priv = none })),
        )
        (rw (
          write-append front (record { exec = none; priv = none })
            (record { exec = some f; priv = some a })
            (replicate k (record { exec = none; priv = none }))))

  issue_lem :
      (r : Request)
      → c ≡ length front
      → c < n
      → issue r (busy s (front ++ blank ∷ replicate k blank) n c l)
        ≡ ok (
          no_error,
          busy s (front ++ entry_of r ∷ replicate k blank) n (c + 1) (l + blocks (r ∷ [])),
        )
  unfolding issue spi_req_set_clk entry_of blocks spi_req_cs_assert spi_req_cs_deassert spi_req_xfer
      spi_req_delay spi_dev_seq_active
  issue_lem clock e h = rw (fill_entry_lem set_clk none (s.live + l) e) (ground arith)
  issue_lem select e h =
      let room : ltb c n ≡ true = ground arith in
      rw (room, fill_entry_lem cs_assert none (s.live + l) e) (ground arith)
  issue_lem deselect e h =
      let room : ltb c n ≡ true = ground arith in
      rw (room, fill_entry_lem cs_deassert none (s.live + l) e) (ground arith)
  issue_lem (transfer tx rx len) e h =
      let room : ltb c n ≡ true = ground arith in
      rw (room, fill_entry_lem xfer (some (xfer_args tx rx len)) (s.live + l + 1) e) (ground arith)
  issue_lem (pause ns) e h =
      rw (fill_entry_lem delay (some (delay_ns ns)) (s.live + l + 1) e) (ground arith)

pub shift :
    (front : List Entry) (e : Entry) (es : List Entry) → front ++ e ∷ es ≡ (front ++ e ∷ []) ++ es
shift front e es = sym (append_assoc front (e ∷ []) es)

pub shift-length :
    (front : List Entry) (e : Entry) (i : ℕ) → i ≡ length front → i + 1 ≡ length (front ++ e ∷ [])
shift-length front e i h = ground (arith, length-append front (e ∷ []))

-- Queueing requests into blank entries fills them in order.
pub issue_all_lem :
    (rs : List Request) (s : System) (front : List Entry) (n c l : ℕ)
    → c ≡ length front
    → c + length rs ≤ n
    → issue_all rs (busy s (front ++ replicate (length rs) blank) n c l)
      ≡ ok (busy s (front ++ map entry_of rs) n (c + length rs) (l + blocks rs))
unfolding issue_all blocks
issue_all_lem [] s front n c l e h = ground arith
issue_all_lem (r ∷ rs) s front n c l e h =
    let e_r = entry_of r in
    let l' = l + blocks (r ∷ []) in
    let ih =
      issue_all_lem rs s (front ++ e_r ∷ []) n (c + 1) l' (shift-length front e_r c e)
        (omega arith) in
    rw (issue_lem s front (length rs) n c l r e (omega arith)) (
      rw (shift front e_r (replicate (length rs) blank), shift front e_r (map entry_of rs), ih)
        (ground arith))
