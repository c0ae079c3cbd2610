-- ===== src/Hwkey/Handles/Grant.antt =====
-- Asking for an opaque handle: the insertion of a node and `get_key_handle` together.
use trusty_app_sample.Common.{
  All, Bool-cases, List, Run, [], arith, fault, if◌then◌else◌, inl, inr, leb, length, none, ok,
  overlay, refl, replicate, some, subst, true, ℕ, ℕ_discrete, ◌++◌, ◌==◌, ◌>>=◌, ◌∷◌, ◌≡◌, ◌≢◌, ◌≤◌,
  ◌⊎◌,
}
use trusty_app_sample.Hwkey.Model.{
  Context, Device, KeyOut, Node, OpaqueData, already_exists, device, generic, handle_size,
  key_handle, no_error,
}
use trusty_app_sample.Hwkey.Token.{Made, failed, made, make_token}
use trusty_app_sample.Hwkey.Handles.{
  call_handler, delete_opaque_handle, find_opaque_handle_for_slot, finish_key_handle,
  get_key_handle, insert_handle_node, new_node, set_token,
}
use trusty_app_sample.Hwkey.Token.Laws.{
  IsToken, is_empty_token-IsToken, is_empty_token-new, make_token-IsToken, new-IsRoom,
  read_last-IsToken,
}
use trusty_app_sample.Hwkey.Handles.Lookup.{IsTokenNode}

module _ {W : Type 0} where
  -- No node is for the key slot.
  abbrev pub IsFree : ℕ → List (Node W) → Type 0
  IsFree slot = All (λ n. n.key_slot ≢ slot)

  pub find-cases :
      (slot : ℕ) (nodes : List (Node W))
      → ((find_opaque_handle_for_slot slot nodes ≡ none) × IsFree slot nodes)
        ⊎ ((n : Node W) × (find_opaque_handle_for_slot slot nodes ≡ some n) × (n.key_slot ≡ slot))
  unfolding find_opaque_handle_for_slot
  find-cases slot [] = inl (refl, tt)
  find-cases slot (n ∷ nodes) = elim (ℕ_discrete n.key_slot slot) [
    | yes e ↦ inr (n, ground arith, e)
    | no ne ↦ elim (find-cases slot nodes) [
      | inl (e, free) ↦ inl (ground arith, (ne, free))
      | inr (m, e, h) ↦ inr (m, ground arith, h)
    ]
  ]

  pub find-All {κ} :
      (P : Node W → Type κ) (slot : ℕ) (nodes : List (Node W)) (n : Node W)
      → All P nodes
      → find_opaque_handle_for_slot slot nodes ≡ some n
      → P n
  unfolding find_opaque_handle_for_slot
  find-All P slot [] n a e = cc
  find-All P slot (m ∷ nodes) n a e = elim (Bool-cases (m.key_slot == slot)) [
    | inl hit ↦ subst P (some_eq (rw hit at e)) a.0
    | inr miss ↦ find-All P slot nodes n a.1 (rw miss at e)
  ]
    where
      some_eq : {a b : Node W} → some a ≡ some b → a ≡ b
      some_eq p = cc

  module _ (slot : ℕ) (n : Node W) (at : n.key_slot ≡ slot) where
    find-append :
        (nodes : List (Node W))
        → IsFree slot nodes
        → find_opaque_handle_for_slot slot (nodes ++ n ∷ []) ≡ some n
    unfolding find_opaque_handle_for_slot
    find-append [] f = ground arith
    find-append (m ∷ nodes) f = ground (arith, find-append nodes f.1, f.0)

    delete-append :
        (nodes : List (Node W))
        → IsFree slot nodes
        → delete_opaque_handle slot (nodes ++ n ∷ []) ≡ nodes
    unfolding delete_opaque_handle
    delete-append [] f = ground arith
    delete-append (m ∷ nodes) f = ground (arith, delete-append nodes f.1, f.0)

    set_token-append :
        (t : List ℕ) (nodes : List (Node W))
        → IsFree slot nodes
        → set_token slot t (nodes ++ n ∷ []) ≡ nodes ++ record n { token = t } ∷ []
    unfolding set_token
    set_token-append t [] f = ground arith
    set_token-append t (m ∷ nodes) f = ground (arith, set_token-append t nodes f.1, f.0)

  -- The answer, the list and the state when a token is made, or the device fails.
  unfoldable pub granted :
      (owner slot : ℕ)
      → OpaqueData W
      → List (Node W)
      → (kbuf : List ℕ) (klen : ℕ) → Made × W
      → Run (KeyOut × List (Node W) × W)
  granted owner slot handle nodes kbuf klen (failed rc, w) =
      ok (record { status = device rc; kbuf = kbuf; klen = klen }, nodes, w)
  granted owner slot handle nodes kbuf klen (made t, w) = ok (
    record { status = no_error; kbuf = overlay t kbuf; klen = handle_size },
    nodes ++ record (new_node owner slot handle) { token = t } ∷ [],
    w,
  )

  -- What a request for an opaque handle is to do. A slot that has a node is refused; otherwise a
  -- token is made, and the list of handles grows by a node with that token if all goes well, and is
  -- as before if not.
  unfoldable pub grant :
      Device W
      → (fuel : ℕ) → Context
      → List (Node W)
      → (kbuf : List ℕ) (klen slot : ℕ) → OpaqueData W
      → W
      → Run (KeyOut × List (Node W) × W)
  unfolding granted
  grant dev fuel ctx nodes kbuf klen slot handle w = elim (find_opaque_handle_for_slot slot nodes) [
    | some n ↦ ok (record { status = already_exists; kbuf = kbuf; klen = klen }, nodes, w)
    | none ↦
        let (allocated, w') = dev.calloc w in
        if allocated
        then make_token dev fuel (replicate handle_size 0) w'
          >>= granted ctx.addr slot handle nodes kbuf klen
        else ok (record { status = generic; kbuf = kbuf; klen = klen }, nodes, w')
  ]

  finish-granted :
      (owner slot : ℕ) (handle : OpaqueData W) (nodes : List (Node W)) (kbuf : List ℕ) (klen : ℕ)
      (r : Run (Made × W))
      → IsFree slot nodes
      → ((t : List ℕ) (w : W) → r ≡ ok (made t, w) → IsToken t)
      → (r >>= finish_key_handle slot (nodes ++ new_node owner slot handle ∷ []) kbuf klen)
        ≡ (r >>= granted owner slot handle nodes kbuf klen)
  unfolding finish_key_handle granted
  finish-granted owner slot handle nodes kbuf klen (fault e) f h = refl
  finish-granted owner slot handle nodes kbuf klen (ok (failed rc, w)) f h =
      rw (delete-append slot (new_node owner slot handle) refl nodes f)
  finish-granted owner slot handle nodes kbuf klen (ok (made t, w)) f h =
      rw (read_last-IsToken (h t w refl))
        (rw (set_token-append slot (new_node owner slot handle) refl t nodes f))

  -- With a token in each node and room for one in the key buffer, inserting a node and then
  -- calling `get_key_handle` does what is specified, so no assertion fails on the way.
  pub call_handler-eq-grant :
      (dev : Device W) (fuel : ℕ) (ctx : Context) (nodes : List (Node W)) (kbuf : List ℕ)
      (klen slot : ℕ) (handle : OpaqueData W) (w : W)
      → All IsTokenNode nodes
      → 32 ≤ length kbuf
      → call_handler dev fuel ctx nodes kbuf klen slot (key_handle handle) w
        ≡ grant dev fuel ctx nodes kbuf klen slot handle w
  unfolding call_handler grant insert_handle_node get_key_handle
  call_handler-eq-grant dev fuel ctx nodes kbuf klen slot handle w a room =
      let fits : leb 32 (length kbuf) ≡ true = ground arith in
      elim (find-cases slot nodes) [
        | inr (n, e, h) ↦
            ground (arith, e, fits, is_empty_token-IsToken (find-All IsTokenNode slot nodes n a e))
        | inl (e, free) ↦ elim (Bool-cases (dev.calloc w).0) [
          | inr no_memory ↦ ground (arith, e)
          | inl allocated ↦
              let new = new_node ctx.addr slot handle in
              let found = find-append slot new refl nodes free in
              let done =
                finish-granted ctx.addr slot handle nodes kbuf klen
                  (make_token dev fuel (replicate 32 0) (dev.calloc w).1) free
                  (λ t w' m.
                    make_token-IsToken dev fuel (replicate 32 0) (dev.calloc w).1 new-IsRoom m) in
              ground (arith, e, fits, found, is_empty_token-new, done)
        ]
      ]
