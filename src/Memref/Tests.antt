-- ===== src/Memref/Tests.antt =====
-- Concrete messages of the memory reference test.
use trusty_app_sample.Common.{
  arith, length, length-replicate, negsuc, ok, pos, refl, replicate, some, suc, true, ℕ, ◌≡◌,
}
use trusty_app_sample.Memref.Words.{LenderMsg, max_write, page_size, write_bss}
use trusty_app_sample.Memref.Lender.Replies.{answer, lender_on_message-eq-answer, serve, serve-page}
use trusty_app_sample.Memref.Lender.{Lender, Received, lender_on_message}
use trusty_app_sample.Memref.Receiver.{num_pages, receiver_on_message}
use trusty_app_sample.Memref.Receiver.Pages.{greeted, receiver_on_message-eq-greeted}

abbrev fresh : Lender
fresh = record {
  bss = replicate page_size 0;
  bss_memref = pos 5;
  ro_memref = negsuc 0;
  rw_memref = pos 6;
}

fresh-page : length fresh.bss ≡ page_size
fresh-page = length-replicate {A = ℕ} page_size 0

-- A write of one byte at offset 1.
abbrev poke : LenderMsg
poke = record { cmd = write_bss; region = record { offset = 1; size = 1 } }

abbrev receive_poke : ℕ → Received × ℕ
receive_poke w = (record { rc = pos 25; msg = poke; data_buf = replicate max_write 42 }, w)

lender_on_message-eq-answer_example :
    lender_on_message
      (λ h w. (pos 0, suc w))
      (λ bs w. (pos (length bs), suc w))
      true
      true
      receive_poke
      fresh
      0
    ≡ ok (
        answer
          (λ h w. (pos 0, suc w))
          (λ bs w. (pos (length bs), suc w))
          (pos 25)
          poke
          (replicate max_write 42)
          fresh
          0)
lender_on_message-eq-answer_example =
    lender_on_message-eq-answer (λ h w. (pos 0, suc w)) (λ bs w. (pos (length bs), suc w))
      receive_poke fresh 0
      (
        (omega arith, omega arith),
        length-replicate {A = ℕ} max_write 42,
        (omega arith, omega arith),
      )
      fresh-page

serve-page_example :
    length
      (serve
        (λ h w. (pos 0, suc w))
        (λ bs w. (pos (length bs), suc w))
        write_bss
        25
        (record { offset = 1; size = 1 })
        (replicate max_write 42)
        fresh
        0).1.bss
    ≡ page_size
serve-page_example =
    serve-page (λ h w. (pos 0, suc w)) (λ bs w. (pos (length bs), suc w)) write_bss 25
      (record { offset = 1; size = 1 }) (replicate max_write 42) fresh 0
      (length-replicate {A = ℕ} max_write 42) (omega arith) fresh-page

-- Pages of 20 bytes.
receiver_on_message-eq-greeted_example :
    receiver_on_message true true (pos 0, 1) (pos 0, pos 7) 20 (λ n h. some (replicate n 9))
    ≡ ok (
      pos 0,
      record {
        retired = true;
        unmapped = some (greeted num_pages 20 (replicate 200 9));
        closed = some (pos 7);
        sent = true;
      },
    )
receiver_on_message-eq-greeted_example =
    receiver_on_message-eq-greeted 0 (pos 7) 20 (λ n h. some (replicate n 9)) (replicate 200 9)
      (omega arith) refl refl
