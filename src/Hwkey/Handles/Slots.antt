-- ===== src/Hwkey/Handles/Slots.antt =====
-- What a request for a key is answered with: the lookup of a key slot.
use trusty_app_sample.Common.{
  All, Bool, Bool-cases, List, Option, Run, [], arith, false, fault, if◌then◌else◌, inl, inr,
  length, none, not, null_call, ok, refl, some, true, ℕ, ◌&&◌, ◌++◌, ◌+◌, ◌==◌, ◌>>=◌, ◌∷◌, ◌≡◌,
  ◌≤◌,
}
use trusty_app_sample.Hwkey.Model.{
  Context, Device, Handler, KeyOut, Keyslot, Node, key_handle, no_handler, not_found, provider,
}
use trusty_app_sample.Hwkey.Handles.{
  c_string, call_handler, eq_bytes, handle_slots, has_handler, is_slot_of, keep_nodes, slots_loop,
}
use trusty_app_sample.Hwkey.Handles.Lookup.{IsTokenNode, first_reader, get_opaque_key-eq-first}
use trusty_app_sample.Hwkey.Handles.Grant.{call_handler-eq-grant, grant}

c_string-append : (msg stale : List ℕ) → c_string (msg ++ 0 ∷ stale) ≡ c_string msg
unfolding c_string
c_string-append [] stale = refl
c_string-append (c ∷ msg) stale = rw (c_string-append msg stale)

-- The message is the key id, whether it ends there or goes on with a 0.
unfoldable pub is_named : (key_id msg : List ℕ) → Bool
is_named [] [] = true
is_named [] (m ∷ msg) = m == 0
is_named (k ∷ key_id) [] = false
is_named (k ∷ key_id) (m ∷ msg) = not (m == 0) && (k == m && is_named key_id msg)

eq_bytes-c_string : (key_id msg : List ℕ) → eq_bytes key_id (c_string msg) ≡ is_named key_id msg
unfolding eq_bytes c_string is_named
eq_bytes-c_string [] [] = refl
eq_bytes-c_string [] (m ∷ msg) = ground arith
eq_bytes-c_string (k ∷ key_id) [] = refl
eq_bytes-c_string (k ∷ key_id) (m ∷ msg) = ground (arith, eq_bytes-c_string key_id msg)

module _ {W : Type 0} where
  -- The key slot may serve the caller's request: it has a handler, it is for the uuid of the
  -- caller, and the request names it.
  unfoldable pub is_served : Context → (msg : List ℕ) → Keyslot W → Bool
  is_served ctx msg s = elim s.handler [
    | no_handler ↦ false
    | provider f ↦ ctx.uuid == s.uuid && is_named s.key_id msg
    | key_handle h ↦ ctx.uuid == s.uuid && is_named s.key_id msg
  ]

  is_slot_of-eq :
      (ctx : Context) (msg : List ℕ) (s : Keyslot W)
      → is_slot_of ctx (c_string msg) s ≡ is_served ctx msg s
  unfolding is_served
  is_slot_of-eq ctx msg s = rw (eq_bytes-c_string s.key_id msg) (by_handler s.handler)
    where
      by_handler :
          (h : Handler W)
          → (is_named s.key_id msg && (ctx.uuid == s.uuid && has_handler h)) ≡ elim h [
            | no_handler ↦ false
            | provider f ↦ ctx.uuid == s.uuid && is_named s.key_id msg
            | key_handle d ↦ ctx.uuid == s.uuid && is_named s.key_id msg
          ]
      by_handler no_handler = ground arith
      by_handler (provider f) = ground arith
      by_handler (key_handle d) = ground arith

  -- The first key slot that may serve the request, with its number.
  unfoldable pub find_slot :
      Context → (msg : List ℕ) → (i : ℕ) → List (Keyslot W) → Option (ℕ × Handler W)
  find_slot ctx msg i [] = none
  find_slot ctx msg i (s ∷ slots) =
      if is_served ctx msg s then some (i, s.handler) else find_slot ctx msg (i + 1) slots

  module _ (dev : Device W) (fuel : ℕ) (ctx : Context) (nodes : List (Node W)) (kbuf : List ℕ)
      (klen : ℕ) where
    -- What a key slot gives: the key of its provider, or a token for its opaque key.
    unfoldable pub serve : (slot : ℕ) → Handler W → W → Run (KeyOut × List (Node W) × W)
    serve slot no_handler w = fault null_call
    serve slot (provider f) w = f kbuf klen w >>= λ q. ok (q.0, nodes, q.1)
    serve slot (key_handle handle) w = grant dev fuel ctx nodes kbuf klen slot handle w

    -- The result for a request: what the first key slot gives that may serve it, or the key behind
    -- a token.
    unfoldable pub lookup_key :
        (msg : List ℕ) → List (Keyslot W) → W → Run (KeyOut × List (Node W) × W)
    lookup_key msg slots w = elim (find_slot ctx msg 0 slots) [
      | some (i, handler) ↦ serve i handler w
      | none ↦ elim (first_reader ctx.uuid msg nodes) [
        | none ↦ ok (record { status = not_found; kbuf = kbuf; klen = klen }, nodes, w)
        | some n ↦ n.handle.retriever kbuf klen w >>= keep_nodes nodes
      ]
    ]

    call_handler-eq-serve :
        (slot : ℕ) (h : Handler W) (w : W)
        → All IsTokenNode nodes
        → 32 ≤ length kbuf
        → call_handler dev fuel ctx nodes kbuf klen slot h w ≡ serve slot h w
    unfolding call_handler serve
    call_handler-eq-serve slot no_handler w a room = refl
    call_handler-eq-serve slot (provider f) w a room = bind_keep (f kbuf klen w)
      where
        bind_keep :
            (m : Run (KeyOut × W)) → (m >>= keep_nodes nodes) ≡ (m >>= λ q. ok (q.0, nodes, q.1))
        bind_keep (ok q) = refl
        bind_keep (fault x) = refl
    call_handler-eq-serve slot (key_handle handle) w a room =
        call_handler-eq-grant dev fuel ctx nodes kbuf klen slot handle w a room

    slots_loop_lem :
        (msg stale : List ℕ) (i : ℕ) (slots : List (Keyslot W)) (w : W)
        → All IsTokenNode nodes
        → 32 ≤ length kbuf
        → slots_loop dev fuel ctx nodes kbuf klen (msg ++ 0 ∷ stale) i slots w
          ≡ elim (find_slot ctx msg i slots) [
            | some (j, handler) ↦ serve j handler w
            | none ↦ elim (first_reader ctx.uuid msg nodes) [
              | none ↦ ok (record { status = not_found; kbuf = kbuf; klen = klen }, nodes, w)
              | some n ↦ n.handle.retriever kbuf klen w >>= keep_nodes nodes
            ]
          ]
    unfolding slots_loop find_slot
    slots_loop_lem msg stale i [] w a room =
        rw (get_opaque_key-eq-first ctx.uuid msg stale nodes kbuf klen w a) (ground arith)
    slots_loop_lem msg stale i (s ∷ slots) w a room =
        rw
          (
            c_string-append msg stale,
            is_slot_of-eq ctx msg s,
            call_handler-eq-serve i s.handler w a room,
            slots_loop_lem msg stale (i + 1) slots w a room,
          )
          (elim (Bool-cases (is_served ctx msg s)) [ inl e ↦ rw e refl | inr e ↦ rw e refl ])

    -- With a token in each node and room for one in the key buffer, for the bytes `msg` of a
    -- request, which the service terminates: the first key slot serves the request that has a
    -- handler, is for the uuid of the caller and is named by `msg`, an opaque key's by a token; and
    -- without such a slot the bytes are taken for a token. What the buffer holds behind `msg` plays
    -- no part.
    pub handle_slots-eq-lookup :
        (msg stale : List ℕ) (slots : List (Keyslot W)) (w : W)
        → All IsTokenNode nodes
        → 32 ≤ length kbuf
        → handle_slots dev fuel ctx nodes kbuf klen (msg ++ 0 ∷ stale) (some slots) w
          ≡ lookup_key msg slots w
    unfolding handle_slots lookup_key
    handle_slots-eq-lookup msg stale slots w a room = slots_loop_lem msg stale 0 slots w a room
