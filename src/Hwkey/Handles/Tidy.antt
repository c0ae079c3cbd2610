-- ===== src/Hwkey/Handles/Tidy.antt =====
-- What a request leaves in the key buffer: nothing behind the key that is answered.
use trusty_app_sample.Common.{
  All, Bool-cases, IsSafe, List, Option, Returns, Returns-bind, Run, [], arith, drop,
  drop-length_append, fault, inl, inr, length, length-append, length-overlay, none, ok, overlay,
  refl, replicate, some, subst, sym, take, true, ℕ, ◌&&◌, ◌++◌, ◌+◌, ◌>>=◌, ◌∷◌, ◌≡◌, ◌≤◌,
}
use trusty_app_sample.Hwkey.Model.{
  Context, Device, Handler, KeyOut, Keyslot, Node, OpaqueData, Retriever, Status, Uuid,
  already_exists, device, generic, handle_size, key_handle, max_payload_size, no_error, no_handler,
  not_found, provider,
}
use trusty_app_sample.Hwkey.Token.{Made, failed, made, make_token}
use trusty_app_sample.Hwkey.Token.Laws.{
  IsRoom, IsToken, is_empty_token-IsToken, make_token-IsToken, new-IsRoom,
}
use trusty_app_sample.Hwkey.Handles.{
  c_string, call_handler, eq_bytes, get_opaque_key, handle_slots, has_handler,
  is_allowed_to_read_opaque_key, is_slot_of, keep_nodes, slots_loop,
}
use trusty_app_sample.Hwkey.Handles.Lookup.{IsTokenNode}
use trusty_app_sample.Hwkey.Handles.Grant.{call_handler-eq-grant, find-cases, grant, granted}

-- The key is in the first `*klen` bytes, and the others are as before.
pub record IsTidyOut (kbuf : List ℕ) (out : KeyOut) : Type 0 where
  pub size : length out.kbuf ≡ length kbuf
  pub fits : out.klen ≤ length kbuf
  pub rest : drop out.klen out.kbuf ≡ drop out.klen kbuf

pub unchanged-IsTidyOut :
    (rc : Status) (kbuf : List ℕ) (klen : ℕ)
    → klen ≤ length kbuf
    → IsTidyOut kbuf (record { status = rc; kbuf = kbuf; klen = klen })
unchanged-IsTidyOut rc kbuf klen h = record { size = refl; fits = h; rest = refl }

pub overlay-IsTidyOut :
    (rc : Status) (kbuf key : List ℕ) (n : ℕ)
    → length key ≡ n
    → n ≤ length kbuf
    → IsTidyOut kbuf (record { status = rc; kbuf = overlay key kbuf; klen = n })
overlay-IsTidyOut rc kbuf key n e h = record {
  size = length-overlay key kbuf (omega arith);
  fits = h;
  rest =
      subst (λ k. drop k (overlay key kbuf) ≡ drop k kbuf) e
        (drop-length_append key (drop (length key) kbuf));
}

module _ {W : Type 0} where
  -- A provider of a key that keeps to this, from a `*klen` within the key buffer of the service.
  abbrev pub IsTidy : Retriever W → Type 0
  IsTidy f =
      (kbuf : List ℕ) (klen : ℕ) (w : W)
      → length kbuf ≡ max_payload_size
      → klen ≤ length kbuf
      → Returns (λ r. IsTidyOut kbuf r.0) (f kbuf klen w)

  abbrev pub IsTidyHandler : Handler W → Type 0
  IsTidyHandler no_handler = Unit
  IsTidyHandler (key_handle handle) = IsTidy handle.retriever
  IsTidyHandler (provider f) = IsTidy f

  abbrev pub IsTidyNode : Node W → Type 0
  IsTidyNode n = IsTidy n.handle.retriever

  abbrev pub AreTidySlots : Option (List (Keyslot W)) → Type 0
  AreTidySlots none = Unit
  AreTidySlots (some slots) = All (λ s. IsTidyHandler s.handler) slots

  -- The device and the fuel let the token loop end.
  abbrev pub Delivers : Device W → ℕ → Type 0
  Delivers dev fuel = (t : List ℕ) (w : W) → IsRoom t → IsSafe (make_token dev fuel t w)

  tidy-snoc :
      (nodes : List (Node W)) (n : Node W)
      → All IsTidyNode nodes
      → IsTidyNode n
      → All IsTidyNode (nodes ++ n ∷ [])
  tidy-snoc [] n a p = (p, tt)
  tidy-snoc (m ∷ nodes) n a p = (a.0, tidy-snoc nodes n a.1 p)

  module _ (dev : Device W) (fuel : ℕ) (ctx : Context) (nodes : List (Node W)) (kbuf : List ℕ)
      (klen : ℕ) (tokens : All IsTokenNode nodes) (tidy : All IsTidyNode nodes)
      (full : length kbuf ≡ max_payload_size) (small : klen ≤ length kbuf)
      (delivers : Delivers dev fuel) where
    abbrev TidyResult : KeyOut × List (Node W) × W → Type 0
    TidyResult r = IsTidyOut kbuf r.0 × All IsTidyNode r.1

    token-size : {t : List ℕ} → IsToken t → length t ≡ 32
    token-size v = rw v.terminated (omega (arith, length-append v.text (0 ∷ []), v.size))

    granted-tidy :
        (slot : ℕ) (handle : OpaqueData W) (w : W) (r : Made × W)
        → IsTidy handle.retriever
        → make_token dev fuel (replicate 32 0) w ≡ ok r
        → Returns TidyResult (granted ctx.addr slot handle nodes kbuf klen r)
    unfolding granted
    granted-tidy slot handle w (failed rc, w') t e =
        (unchanged-IsTidyOut (device rc) kbuf klen small, tidy)
    granted-tidy slot handle w (made token, w') t e = (
      overlay-IsTidyOut no_error kbuf token 32
          (token-size (make_token-IsToken dev fuel _ w new-IsRoom e)) (omega (arith, full)),
      tidy-snoc nodes _ tidy t,
    )

    grant-tidy :
        (slot : ℕ) (handle : OpaqueData W) (w : W)
        → IsTidy handle.retriever
        → Returns TidyResult (grant dev fuel ctx nodes kbuf klen slot handle w)
    unfolding grant
    grant-tidy slot handle w t = elim (find-cases slot nodes) [
      | inr (n, e, h) ↦ rw (e, grant) (unchanged-IsTidyOut already_exists kbuf klen small, tidy)
      | inl (e, free) ↦ elim (Bool-cases (dev.calloc w).0) [
        | inr no_memory ↦
            rw (e, grant) (rw no_memory (unchanged-IsTidyOut generic kbuf klen small, tidy))
        | inl allocated ↦
            rw (e, grant)
              (rw allocated (
                Returns-bind (λ r. Unit) TidyResult
                  (make_token dev fuel (replicate 32 0) (dev.calloc w).1)
                  (granted ctx.addr slot handle nodes kbuf klen)
                  (delivers (replicate 32 0) (dev.calloc w).1 new-IsRoom)
                  (λ r m u. granted-tidy slot handle (dev.calloc w).1 r t m)))
      ]
    ]

    keep_nodes-tidy :
        (m : Run (KeyOut × W))
        → Returns (λ r. IsTidyOut kbuf r.0) m
        → Returns TidyResult (m >>= keep_nodes nodes)
    keep_nodes-tidy (ok (out, w)) h = (h, tidy)
    keep_nodes-tidy (fault e) h = h

    call_handler-tidy :
        (slot : ℕ) (h : Handler W) (w : W)
        → has_handler h ≡ true
        → IsTidyHandler h
        → Returns TidyResult (call_handler dev fuel ctx nodes kbuf klen slot h w)
    unfolding call_handler
    call_handler-tidy slot no_handler w h t = cc
    call_handler-tidy slot (provider f) w h t =
        keep_nodes-tidy (f kbuf klen w) (t kbuf klen w full small)
    call_handler-tidy slot (key_handle handle) w h t =
        subst (Returns TidyResult)
          (sym (
            call_handler-eq-grant dev fuel ctx nodes kbuf klen slot handle w tokens
              (omega (arith, full))))
          (grant-tidy slot handle w t)

    get_opaque_key-tidy :
        (uuid : Uuid) (access_token : List ℕ) (w : W) (ns : List (Node W))
        → All IsTokenNode ns
        → All IsTidyNode ns
        → Returns (λ r. IsTidyOut kbuf r.0) (get_opaque_key uuid access_token ns kbuf klen w)
    unfolding get_opaque_key
    get_opaque_key-tidy uuid access_token w [] a t = unchanged-IsTidyOut not_found kbuf klen small
    get_opaque_key-tidy uuid access_token w (n ∷ ns) a t =
        rw (is_empty_token-IsToken a.0)
          (elim (Bool-cases (
            is_allowed_to_read_opaque_key uuid n.handle
            && eq_bytes n.token (take handle_size access_token))) [
              | inl hit ↦ rw hit (t.0 kbuf klen w full small)
              | inr miss ↦ rw miss (get_opaque_key-tidy uuid access_token w ns a.1 t.1)
            ])

    slot_has_handler :
        (s : Keyslot W) (slot_id : List ℕ)
        → is_slot_of ctx (c_string slot_id) s ≡ true
        → has_handler s.handler ≡ true
    slot_has_handler s slot_id h = ground arith

    slots_loop-tidy :
        (slot_id : List ℕ) (i : ℕ) (slots : List (Keyslot W)) (w : W)
        → All (λ s. IsTidyHandler s.handler) slots
        → Returns TidyResult (slots_loop dev fuel ctx nodes kbuf klen slot_id i slots w)
    unfolding slots_loop
    slots_loop-tidy slot_id i [] w t =
        keep_nodes-tidy (get_opaque_key ctx.uuid slot_id nodes kbuf klen w)
          (get_opaque_key-tidy ctx.uuid slot_id w nodes tokens tidy)
    slots_loop-tidy slot_id i (s ∷ slots) w t =
        elim (Bool-cases (is_slot_of ctx (c_string slot_id) s)) [
          | inl hit ↦ rw hit (call_handler-tidy i s.handler w (slot_has_handler s slot_id hit) t.0)
          | inr miss ↦ rw miss (slots_loop-tidy slot_id (i + 1) slots w t.1)
        ]

    -- With the key buffer of the service and a token in each node: if every provider returns and
    -- leaves the buffer behind its key as it was, and the token loop ends, every request returns
    -- with the buffer behind the answered key as it was.
    pub handle_slots-tidy :
        (slot_id : List ℕ) (slots : Option (List (Keyslot W))) (w : W)
        → AreTidySlots slots
        → Returns
            (λ r. IsTidyOut kbuf r.0 × All IsTidyNode r.1)
            (handle_slots dev fuel ctx nodes kbuf klen slot_id slots w)
    unfolding handle_slots
    handle_slots-tidy slot_id none w t = (unchanged-IsTidyOut not_found kbuf klen small, tidy)
    handle_slots-tidy slot_id (some slots) w t = slots_loop-tidy slot_id 0 slots w t
