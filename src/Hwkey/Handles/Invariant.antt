-- ===== src/Hwkey/Handles/Invariant.antt =====
-- The invariant of the list of opaque handles.
use trusty_app_sample.Common.{
  All, Bool-cases, Ensures, Ensures-bind, List, Option, Run, [], fault, inl, inr, length, none, ok,
  replicate, some, subst, sym, ℕ, ◌++◌, ◌+◌, ◌>>=◌, ◌∷◌, ◌≡◌, ◌≢◌, ◌≤◌,
}
use trusty_app_sample.Hwkey.Model.{
  Context, Device, Handler, KeyOut, Keyslot, Node, OpaqueData, key_handle, no_handler, provider,
}
use trusty_app_sample.Hwkey.Token.{Made, failed, made, make_token}
use trusty_app_sample.Hwkey.Token.Laws.{make_token-IsToken, new-IsRoom}
use trusty_app_sample.Hwkey.Handles.{
  c_string, call_handler, get_opaque_key, handle_slots, is_slot_of, keep_nodes, slots_loop,
}
use trusty_app_sample.Hwkey.Handles.Lookup.{IsTokenNode}
use trusty_app_sample.Hwkey.Handles.Grant.{
  IsFree, call_handler-eq-grant, find-cases, grant, granted,
}

module _ {W : Type 0} where
  -- No two nodes are for one key slot.
  abbrev pub AreDistinct : List (Node W) → Type 0
  AreDistinct [] = Unit
  AreDistinct (n ∷ nodes) = IsFree n.key_slot nodes × AreDistinct nodes

  -- The list between two messages: each node has a token and a key slot of its own, and belongs to
  -- a context that is alive.
  pub record IsValid (IsLive : ℕ → Type 0) (nodes : List (Node W)) : Type 0 where
    pub tokens : All IsTokenNode nodes
    pub distinct : AreDistinct nodes
    pub owners : All (λ n. IsLive n.owner) nodes

  All-snoc {κ} :
      (P : Node W → Type κ) (nodes : List (Node W)) (n : Node W)
      → All P nodes
      → P n
      → All P (nodes ++ n ∷ [])
  All-snoc P [] n a p = (p, tt)
  All-snoc P (m ∷ nodes) n a p = (a.0, All-snoc P nodes n a.1 p)

  distinct-snoc :
      (nodes : List (Node W)) (n : Node W)
      → AreDistinct nodes
      → IsFree n.key_slot nodes
      → AreDistinct (nodes ++ n ∷ [])
  distinct-snoc [] n d f = (tt, tt)
  distinct-snoc (m ∷ nodes) n d f = (
    All-snoc (λ k. k.key_slot ≢ m.key_slot) nodes n d.0 (λ e. f.0 (sym e)),
    distinct-snoc nodes n d.1 f.1,
  )

  module _ (IsLive : ℕ → Type 0) (dev : Device W) (fuel : ℕ) (ctx : Context) (nodes : List (Node W))
      (kbuf : List ℕ) (klen : ℕ) (v : IsValid IsLive nodes) (live : IsLive ctx.addr)
      (room : 32 ≤ length kbuf) where
    abbrev Keeps : KeyOut × List (Node W) × W → Type 0
    Keeps r = IsValid IsLive r.1

    made_lem :
        (slot : ℕ) (handle : OpaqueData W) (w : W) (r : Made × W)
        → IsFree slot nodes
        → make_token dev fuel (replicate 32 0) w ≡ ok r
        → Ensures Keeps (granted ctx.addr slot handle nodes kbuf klen r)
    unfolding granted
    made_lem slot handle w (failed rc, w') free e = v
    made_lem slot handle w (made t, w') free e = record {
      tokens = All-snoc IsTokenNode nodes _ v.tokens (make_token-IsToken dev fuel _ w new-IsRoom e);
      distinct = distinct-snoc nodes _ v.distinct free;
      owners = All-snoc (λ n. IsLive n.owner) nodes _ v.owners live;
    }

    grant-IsValid :
        (slot : ℕ) (handle : OpaqueData W) (w : W)
        → Ensures Keeps (grant dev fuel ctx nodes kbuf klen slot handle w)
    unfolding grant
    grant-IsValid slot handle w = elim (find-cases slot nodes) [
      | inr (n, e, h) ↦ rw (e, grant) v
      | inl (e, free) ↦ elim (Bool-cases (dev.calloc w).0) [
        | inr no_memory ↦ rw (e, grant) (rw no_memory v)
        | inl allocated ↦
            rw (e, grant)
              (rw allocated (
                Ensures-bind Keeps (make_token dev fuel (replicate 32 0) (dev.calloc w).1)
                  (granted ctx.addr slot handle nodes kbuf klen)
                  (λ r m. made_lem slot handle (dev.calloc w).1 r free m)))
      ]
    ]

    keep_nodes-IsValid : (m : Run (KeyOut × W)) → Ensures Keeps (m >>= keep_nodes nodes)
    keep_nodes-IsValid (ok (out, w)) = v
    keep_nodes-IsValid (fault e) = tt

    -- Every handler of a key slot keeps the invariant.
    call_handler-IsValid :
        (slot : ℕ) (h : Handler W) (w : W)
        → Ensures Keeps (call_handler dev fuel ctx nodes kbuf klen slot h w)
    unfolding call_handler
    call_handler-IsValid slot no_handler w = tt
    call_handler-IsValid slot (provider f) w = keep_nodes-IsValid (f kbuf klen w)
    call_handler-IsValid slot (key_handle handle) w =
        subst (Ensures Keeps)
          (sym (call_handler-eq-grant dev fuel ctx nodes kbuf klen slot handle w v.tokens room))
          (grant-IsValid slot handle w)

    slots_loop-IsValid :
        (slot_id : List ℕ) (i : ℕ) (slots : List (Keyslot W)) (w : W)
        → Ensures Keeps (slots_loop dev fuel ctx nodes kbuf klen slot_id i slots w)
    unfolding slots_loop
    slots_loop-IsValid slot_id i [] w =
        keep_nodes-IsValid (get_opaque_key ctx.uuid slot_id nodes kbuf klen w)
    slots_loop-IsValid slot_id i (s ∷ slots) w =
        elim (Bool-cases (is_slot_of ctx (c_string slot_id) s)) [
          | inl hit ↦ rw hit (call_handler-IsValid i s.handler w)
          | inr miss ↦ rw miss (slots_loop-IsValid slot_id (i + 1) slots w)
        ]

    -- From a valid list, for a living caller and a key buffer of at least 32 bytes, whatever is
    -- asked, and whatever the device, the allocator and the providers do: if the request ends,
    -- each node in the list still has a token, a key slot of its own and a living owner.
    pub handle_slots-IsValid :
        (slot_id : List ℕ) (slots : Option (List (Keyslot W))) (w : W)
        → Ensures
            (λ r. IsValid IsLive r.1)
            (handle_slots dev fuel ctx nodes kbuf klen slot_id slots w)
    unfolding handle_slots
    handle_slots-IsValid slot_id none w = v
    handle_slots-IsValid slot_id (some slots) w = slots_loop-IsValid slot_id 0 slots w
