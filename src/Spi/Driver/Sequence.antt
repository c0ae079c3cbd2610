-- ===== src/Spi/Driver/Sequence.antt =====
-- A sequence of requests: what is queued between `spi_seq_begin` and `spi_seq_commit` is executed in
-- order, and nothing of it is left.
use trusty_app_sample.Common.{
  Bool, List, Run, [], ap, arith, assert, false, fault, if◌then◌else◌, is_some, length, map, none,
  not, null_call, ok, read-append, refl, some, true, ℕ, ◌++◌, ◌+◌, ◌==◌, ◌>>=◌, ◌>>◌, ◌∙◌, ◌∷◌, ◌≡◌,
}
use trusty_app_sample.Spi.Driver.{
  Code, Entry, System, call_exec, commit_loop, free_loop, is_owner, no_error, spi_dev_seq_active,
  spi_seq_begin, spi_seq_commit, spi_seq_free,
}
use trusty_app_sample.Spi.Driver.Requests.{
  Request, blank, blocks, busy, clock, deselect, entry_of, idle, pause, perform, perform_all,
  select, transaction, transfer,
}
use trusty_app_sample.Spi.Driver.Queueing.{issue_all_lem, shift, shift-length}

exec_entry_lem :
    (rand : ℕ → ℕ → ℕ) (r : Request) (s : System)
    → elim (entry_of r).exec [
      | none ↦ fault null_call
      | some f ↦ call_exec rand f (entry_of r).priv s
    ]
      ≡ perform rand r s
unfolding perform entry_of
exec_entry_lem rand clock s = refl
exec_entry_lem rand select s = refl
exec_entry_lem rand deselect s = refl
exec_entry_lem rand (transfer tx rx len) s = refl
exec_entry_lem rand (pause ns) s = refl

>>=-cong {ℓ} :
    {A : Type ℓ} (m : Run System) {f g : System → Run A}
    → ((s : System) → f s ≡ g s)
    → (m >>= f) ≡ (m >>= g)
>>=-cong (ok s) h = h s
>>=-cong (fault x) h = refl

commit_loop_lem :
    (rand : ℕ → ℕ → ℕ) (rs : List Request) (front : List Entry) (i : ℕ) (s : System)
    → i ≡ length front
    → commit_loop rand (front ++ map entry_of rs) (length rs) i s ≡ perform_all rand rs s
unfolding commit_loop perform_all
commit_loop_lem rand [] front i s e = refl
commit_loop_lem rand (r ∷ rs) front i s e =
    rw (e, read-append front (entry_of r) (map entry_of rs), exec_entry_lem rand r s)
      (>>=-cong (perform rand r s) (λ s'.
        ap (λ q. commit_loop rand q (length rs) (length front + 1) s')
          (shift front (entry_of r) (map entry_of rs))
        ∙ commit_loop_lem rand rs (front ++ entry_of r ∷ []) (length front + 1) s'
            (shift-length front (entry_of r) (length front) refl)))

free_loop_lem :
    (rs : List Request) (front : List Entry) (i : ℕ)
    → i ≡ length front
    → free_loop (front ++ map entry_of rs) (length rs) i ≡ ok (blocks rs)
unfolding free_loop blocks
free_loop_lem [] front i e = refl
free_loop_lem (r ∷ rs) front i e =
    let ih =
      free_loop_lem rs (front ++ entry_of r ∷ []) (length front + 1)
        (shift-length front (entry_of r) (length front) refl) in
    rw (e, read-append front (entry_of r) (map entry_of rs))
      (ap (λ m. m >>= λ n. ok (if is_some (entry_of r).priv then n + 1 else n))
        (ap (λ q. free_loop q (length rs) (length front + 1))
            (shift front (entry_of r) (map entry_of rs))
          ∙ ih))

assert-map :
    (t : Bool) (s : System) (f : System → System)
    → (assert t >> ok (f s)) ≡ ((assert t >> ok s) >>= λ s'. ok (f s'))
assert-map true s f = refl
assert-map false s f = refl

-- What a request does is the same while a sequence is queued.
perform-busy :
    (rand : ℕ → ℕ → ℕ) (r : Request) (s : System) (cmds : List Entry) (n c l : ℕ)
    → perform rand r (busy s cmds n c l) ≡ (perform rand r s >>= λ s'. ok (busy s' cmds n c l))
unfolding perform call_exec
perform-busy rand clock s cmds n c l = refl
perform-busy rand select s cmds n c l =
    assert-map (not (is_some s.owner)) (record s { owner = some s.dev.addr })
      (λ s'. busy s' cmds n c l)
perform-busy rand deselect s cmds n c l =
    assert-map (is_owner rand s.owner s.dev.addr) (record s { owner = none })
      (λ s'. busy s' cmds n c l)
perform-busy rand (transfer tx rx len) s cmds n c l = refl
perform-busy rand (pause ns) s cmds n c l = refl

perform_all-busy :
    (rand : ℕ → ℕ → ℕ) (rs : List Request) (s : System) (cmds : List Entry) (n c l : ℕ)
    → perform_all rand rs (busy s cmds n c l)
      ≡ (perform_all rand rs s >>= λ s'. ok (busy s' cmds n c l))
unfolding perform_all
perform_all-busy rand [] s cmds n c l = refl
perform_all-busy rand (r ∷ rs) s cmds n c l =
    rw (perform-busy rand r s cmds n c l)
      (then_rest (perform rand r s) λ s'. perform_all-busy rand rs s' cmds n c l)
  where
    then_rest :
        (m : Run System)
        → ((s' : System)
            → perform_all rand rs (busy s' cmds n c l)
              ≡ (perform_all rand rs s' >>= λ s''. ok (busy s'' cmds n c l)))
        → ((m >>= λ s'. ok (busy s' cmds n c l)) >>= perform_all rand rs)
          ≡ ((m >>= perform_all rand rs) >>= λ s'. ok (busy s' cmds n c l))
    then_rest (ok s') h = h s'
    then_rest (fault x) h = refl

abbrev succeed : System → Run (Code × System)
succeed s = ok (no_error, s)

-- The end of a commit, once every request is done.
freed :
    (rs : List Request) (s : System)
    → (spi_seq_free (busy s (map entry_of rs) (length rs) (length rs) (1 + blocks rs)) >>= succeed)
      ≡ succeed (idle s)
unfolding spi_seq_free idle
freed rs s = rw (free_loop_lem rs [] 0 refl) (ground arith)

commit_lem :
    (rand : ℕ → ℕ → ℕ) (rs : List Request) (s : System)
    → spi_seq_commit rand (busy s (map entry_of rs) (length rs) (length rs) (1 + blocks rs))
      ≡ (perform_all rand rs s >>= λ s'. ok (no_error, idle s'))
unfolding spi_seq_commit spi_dev_seq_active
commit_lem rand rs s =
    let full : (length rs == length rs) ≡ true = ground arith in
    let queued = busy s (map entry_of rs) (length rs) (length rs) (1 + blocks rs) in
    rw
      (
        full,
        commit_loop_lem rand rs [] 0 queued refl,
        perform_all-busy rand rs s (map entry_of rs) (length rs) (length rs) (1 + blocks rs),
      )
      (then_free (perform_all rand rs s))
  where
    then_free :
        (m : Run System)
        → ((m >>= λ s'. ok (busy s' (map entry_of rs) (length rs) (length rs) (1 + blocks rs)))
            >>= λ s₁. spi_seq_free s₁ >>= succeed)
          ≡ (m >>= λ s'. ok (no_error, idle s'))
    then_free (ok s') = freed rs s'
    then_free (fault x) = refl

-- A sequence that is begun with as many commands as are then requested, and committed, on a device
-- with no sequence, does on the bus, the memory and the clock exactly what its requests do one after
-- the other: it stops the program where the first of them does, and else it returns no error and
-- leaves no sequence on the device and as many blocks allocated as before.
pub transaction-eq-perform_all :
    (rand : ℕ → ℕ → ℕ) (rs : List Request) (s : System)
    → transaction rand rs (idle s) ≡ (perform_all rand rs s >>= λ s'. ok (no_error, idle s'))
unfolding transaction idle blank spi_seq_begin spi_dev_seq_active
transaction-eq-perform_all rand rs s =
    let number : 0 + length rs ≡ length rs = omega arith in
    ap (λ m. m >>= spi_seq_commit rand) (issue_all_lem rs s [] (length rs) 0 1 refl (omega arith))
    ∙ ap (λ n. spi_seq_commit rand (busy s (map entry_of rs) (length rs) n (1 + blocks rs))) number
    ∙ commit_lem rand rs s
