-- ===== src/Memref/Receiver.antt =====
-- The receiver (memref-test/receiver/receiver.c): it maps what it is sent and writes a text at the
-- start of each page. The IPC library and mmap are parameters.
pub mod Pages
use trusty_app_sample.Common.{
  Bool, List, Option, Run, [], assert, false, if◌then◌else◌, is_neg, is_zero, length, negsuc, none,
  not, ok, some, suc, true, zero, ℕ, ℤ, ◌*◌, ◌==◌, ◌>>=◌, ◌>>◌, ◌∷◌,
}
use trusty_app_sample.Memref.Words.{copy_in}

abbrev pub num_pages : ℕ
num_pages = 10

-- "Hello from Trusty!" with its end.
abbrev pub hello : List ℕ
hello =
    72 ∷ 101 ∷ 108 ∷ 108 ∷ 111 ∷ 32 ∷ 102 ∷ 114 ∷ 111 ∷ 109 ∷ 32 ∷ 84 ∷ 114 ∷ 117 ∷ 115 ∷ 116 ∷ 121
    ∷ 33 ∷ 0 ∷ []

-- What the handler has done with what it was given: `put_msg`, the memory that was mapped and
-- then unmapped, the handle that was closed, and the byte sent.
pub record Effects : Type 0 where
  pub retired : Bool
  pub unmapped : Option (List ℕ)
  pub closed : Option ℤ
  pub sent : Bool

abbrev pub nothing_done : Effects
nothing_done = record { retired = false; unmapped = none; closed = none; sent = false }

-- The loop over the pages: from page `skip` on, with `n` left.
unfoldable pub write_pages : (n skip page_sz : ℕ) → List ℕ → Run (List ℕ)
write_pages zero skip page_sz out = ok out
write_pages (suc n) skip page_sz out = copy_in out (skip * page_sz) hello (length hello) >>= λ out'.
    write_pages n (suc skip) page_sz out'

-- get_msg with the count of handles, read_msg with the handle, the page size of the system, and
-- mmap by the handle and the size, which fails as -1.
unfoldable pub receiver_on_message :
    (at_receiver_port no_ctx : Bool) (get_msg : ℤ × ℕ) (read_msg : ℤ × ℤ) (page_sz : ℕ)
    (mmap : ℕ → ℤ → Option (List ℕ))
    → Run (ℤ × Effects)
receiver_on_message at_receiver_port no_ctx get_msg read_msg page_sz mmap =
    assert at_receiver_port
    >> assert no_ctx
    >> (if not (is_zero get_msg.0)
        then ok (get_msg.0, nothing_done)
        else if not (get_msg.1 == 1)
        then ok (negsuc 0, nothing_done)
        else let retired = record nothing_done { retired = true } in
          if is_neg read_msg.0
          then ok (read_msg.0, retired)
          else elim (mmap (page_sz * num_pages) read_msg.1) [
            | none ↦ ok (negsuc 0, retired)
            | some out ↦ write_pages num_pages 0 page_sz out >>= λ out'. ok (
              read_msg.0,
              record {
                retired = true;
                unmapped = some out';
                closed = some read_msg.1;
                sent = true;
              },
            )
          ])
