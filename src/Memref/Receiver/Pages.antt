-- ===== src/Memref/Receiver/Pages.antt =====
-- What the receiver leaves of the pages that it maps.
use trusty_app_sample.Common.{
  List, Option, [], ap, append_assoc, ap₂, arith, drop, length, length-append, length-drop,
  length-overlay, length-take, ok, overlay, pos, refl, some, subst, suc, sym, take,
  take-append-drop, take-length, take-length_append, true, zero, ℕ, ℤ, ◌*◌, ◌++◌, ◌+◌, ◌∙◌, ◌∷◌,
  ◌≡◌, ◌≤◌,
}
use trusty_app_sample.Memref.Receiver.{hello, num_pages, receiver_on_message, write_pages}
use trusty_app_sample.Memref.Words.{copy_in, splice}
use trusty_app_sample.Memref.Lender.Replies.{copy_in-ok}

-- The text at the start of each of `n` pages, and the rest as it was.
abbrev pub greeted : (n page_sz : ℕ) → List ℕ → List ℕ
greeted zero page_sz out = out
greeted (suc n) page_sz out =
    overlay hello (take page_sz out) ++ greeted n page_sz (drop page_sz out)

drop-length_add : (xs ys : List ℕ) (n : ℕ) → drop (length xs + n) (xs ++ ys) ≡ drop n ys
drop-length_add [] ys n = let e : 0 + n ≡ n = omega arith in ap (λ m. drop m ys) e
drop-length_add (x ∷ xs) ys n =
    let e : suc (length xs) + n ≡ suc (length xs + n) = omega arith in
    rw e (drop-length_add xs ys n)

drop-le : (n : ℕ) (xs ys : List ℕ) → n ≤ length xs → drop n (xs ++ ys) ≡ drop n xs ++ ys
drop-le zero xs ys h = refl
drop-le (suc n) [] ys h = absurd (omega arith)
drop-le (suc n) (x ∷ xs) ys h = drop-le n xs ys (omega arith)

splice-append :
    (before out src : List ℕ)
    → splice (before ++ out) (length before) src ≡ before ++ overlay src out
splice-append before out src =
    ap₂ (λ a b. a ++ (src ++ b)) (take-length_append before out)
      (drop-length_add before out (length src))

-- A page at a time.
overlay-page :
    (p : ℕ) (src out : List ℕ)
    → length src ≤ p
    → p ≤ length out
    → overlay src out ≡ overlay src (take p out) ++ drop p out
overlay-page p src out h k =
    ap (λ b. src ++ b)
      (ap (drop (length src)) (sym (take-append-drop p out))
        ∙ drop-le (length src) (take p out) (drop p out) (omega (arith, length-take p out)))
    ∙ sym (append_assoc src (drop (length src) (take p out)) (drop p out))

copy_in-page :
    (off : ℕ) (before out src : List ℕ)
    → length before ≡ off
    → length src ≤ length out
    → copy_in (before ++ out) off src (length src) ≡ ok (before ++ overlay src out)
copy_in-page off before out src b h =
    subst (λ n. copy_in (before ++ out) n src (length src) ≡ ok (before ++ overlay src out)) b
      (copy_in-ok (before ++ out) src (length before) (length src)
          (omega (arith, length-append before out)) (omega arith)
        ∙ ap ok (
            ap (splice (before ++ out) (length before)) (take-length src)
            ∙ splice-append before out src))

write_pages-eq-greeted :
    (n skip page_sz : ℕ) (before out : List ℕ)
    → length hello ≤ page_sz
    → length before ≡ skip * page_sz
    → n * page_sz ≤ length out
    → write_pages n skip page_sz (before ++ out) ≡ ok (before ++ greeted n page_sz out)
unfolding write_pages
write_pages-eq-greeted zero skip page_sz before out h b l = refl
write_pages-eq-greeted (suc n) skip page_sz before out h b l =
    let page = overlay hello (take page_sz out) in
    let e : page_sz ≤ length out = grind arith in
    rw
      (
        copy_in-page (skip * page_sz) before out hello b (omega arith),
        overlay-page page_sz hello out h e,
        sym (append_assoc before page (drop page_sz out)),
      )
      (write_pages-eq-greeted n (suc skip) page_sz (before ++ page) (drop page_sz out) h
          (length-append before page
            ∙ grind (arith, length-overlay hello (take page_sz out), length-take page_sz out))
          (grind (arith, length-drop page_sz out))
        ∙ ap ok (append_assoc before page (greeted n page_sz (drop page_sz out))))

-- With a message that has one handle which can be read and mapped, the text stands at the start of
-- each of the ten pages, the rest of them is as it was, and the handler gives back all that it
-- holds: it retires the message, unmaps the pages and closes the handle, and it tells the client.
-- For the port and the context of the event loop, pages of at least 19 bytes, and a mapping of ten
-- pages.
pub receiver_on_message-eq-greeted :
    (rc : ℕ) (handle : ℤ) (page_sz : ℕ) (mmap : ℕ → ℤ → Option (List ℕ)) (out : List ℕ)
    → length hello ≤ page_sz
    → mmap (page_sz * num_pages) handle ≡ some out
    → length out ≡ page_sz * num_pages
    → receiver_on_message true true (pos 0, 1) (pos rc, handle) page_sz mmap
      ≡ ok (
        pos rc,
        record {
          retired = true;
          unmapped = some (greeted num_pages page_sz out);
          closed = some handle;
          sent = true;
        },
      )
unfolding receiver_on_message
receiver_on_message-eq-greeted rc handle page_sz mmap out h e l =
    rw (e, write_pages-eq-greeted num_pages 0 page_sz [] out h (omega arith) (omega arith)) refl
