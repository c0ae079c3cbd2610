-- ===== src/Spi/Driver/Overflow.antt =====
-- A request beyond the end of the sequence of swspi.c.
use trusty_app_sample.Common.{
  Bool, List, [], arith, assertion, false, fault, if◌then◌else◌, length, ltb, out_of_bounds, read,
  refl, some, true, ◌∷◌, ◌≡◌,
}
use trusty_app_sample.Spi.Driver.Requests.{Request, clock, deselect, issue, pause, select, transfer}
use trusty_app_sample.Spi.Driver.{
  Entry, System, fill_entry, spi_dev_seq_active, spi_req_cs_assert, spi_req_cs_deassert,
  spi_req_delay, spi_req_set_clk, spi_req_xfer,
}

-- A device whose sequence is full.
pub full : List Entry → System → System
full cmds s = record s {
  dev = record (s.dev) { cmds = some cmds; num_cmds = length cmds; curr_cmd = length cmds };
}

-- The functions that check `curr_cmd` against `num_cmds`.
unfoldable pub is_guarded : Request → Bool
is_guarded clock = false
is_guarded (pause ns) = false
is_guarded _ = true

read-end {ℓ} : {A : Type ℓ} (xs : List A) → read xs (length xs) ≡ fault out_of_bounds
unfolding read
read-end [] = refl
read-end (x ∷ xs) = read-end xs

-- A request on a full sequence stops the program: at an assertion where it selects, deselects or
-- transfers, and at an access outside the sequence where it sets the clock or delays.
pub issue-full :
    (r : Request) (cmds : List Entry) (s : System)
    → issue r (full cmds s) ≡ fault (if is_guarded r then assertion else out_of_bounds)
unfolding issue full is_guarded spi_req_set_clk spi_req_cs_assert spi_req_cs_deassert spi_req_xfer
    spi_req_delay spi_dev_seq_active fill_entry
issue-full clock cmds s = rw (read-end cmds) refl
issue-full select cmds s =
    let no_room : ltb (length cmds) (length cmds) ≡ false = ground arith in rw no_room refl
issue-full deselect cmds s =
    let no_room : ltb (length cmds) (length cmds) ≡ false = ground arith in rw no_room refl
issue-full (transfer tx rx len) cmds s =
    let no_room : ltb (length cmds) (length cmds) ≡ false = ground arith in rw no_room refl
issue-full (pause ns) cmds s = rw (read-end cmds) refl
