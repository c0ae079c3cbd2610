-- ===== src/Hwkey/Handles.antt =====
-- The list of opaque handles and the lookup of a key slot in hwcrypto/hwkey_srv.c. The list is
-- passed in and returned. `fuel` bounds the rounds of the token loop.
pub mod Lookup
pub mod Grant
pub mod Slots
pub mod Invariant
pub mod Close
pub mod Lifecycle
pub mod Tidy
pub mod Tests
use trusty_app_sample.Common.{
  Bool, List, Option, Run, [], assert, assertion, false, fault, if◌then◌else◌, leb, length, none,
  not, null_call, ok, overlay, read, replicate, some, take, true, ℕ, ◌&&◌, ◌++◌, ◌+◌, ◌-◌, ◌==◌,
  ◌>>=◌, ◌>>◌, ◌||◌, ◌∷◌,
}
use trusty_app_sample.Hwkey.Model.{
  Context, Device, Handler, KeyOut, Keyslot, Node, OpaqueData, Retriever, Status, Uuid,
  already_exists, device, generic, handle_size, key_handle, no_error, no_handler, not_found,
  provider,
}
use trusty_app_sample.Hwkey.Token.{Made, failed, is_empty_token, made, make_token}

-- `memcmp(...) == 0` and `strcmp(...) == 0`
unfoldable pub eq_bytes : List ℕ → List ℕ → Bool
eq_bytes [] [] = true
eq_bytes [] (y ∷ ys) = false
eq_bytes (x ∷ xs) [] = false
eq_bytes (x ∷ xs) (y ∷ ys) = x == y && eq_bytes xs ys

-- The string that starts a buffer: its bytes before the first 0.
pub c_string : List ℕ → List ℕ
c_string [] = []
c_string (c ∷ cs) = if c == 0 then [] else c ∷ c_string cs

contains : Uuid → List Uuid → Bool
contains uuid [] = false
contains uuid (u ∷ us) = u == uuid || contains uuid us

module _ {W : Type 0} where
  pub is_opaque_handle : Keyslot W → Bool
  is_opaque_handle slot = elim slot.handler [ key_handle _ ↦ true | _ ↦ false ]

  pub is_allowed_to_read_opaque_key : Uuid → OpaqueData W → Bool
  unfolding contains
  is_allowed_to_read_opaque_key uuid handle = contains uuid handle.allowed_uuids

  pub find_opaque_handle_for_slot : ℕ → List (Node W) → Option (Node W)
  find_opaque_handle_for_slot slot [] = none
  find_opaque_handle_for_slot slot (n ∷ nodes) =
      if n.key_slot == slot then some n else find_opaque_handle_for_slot slot nodes

  -- `delete_opaque_handle` on the entry that `find_opaque_handle_for_slot` gives.
  pub delete_opaque_handle : ℕ → List (Node W) → List (Node W)
  delete_opaque_handle slot [] = []
  delete_opaque_handle slot (n ∷ nodes) =
      if n.key_slot == slot then nodes else n ∷ delete_opaque_handle slot nodes

  -- The writes to `entry->token` of the entry that `find_opaque_handle_for_slot` gives.
  pub set_token : ℕ → List ℕ → List (Node W) → List (Node W)
  set_token slot token [] = []
  set_token slot token (n ∷ nodes) =
      if n.key_slot == slot
      then record n { token = token } ∷ nodes
      else n ∷ set_token slot token nodes

  -- The loop of `hwkey_ctx_close`: the entries of a context are deleted.
  pub delete_owned : (owner : ℕ) → List (Node W) → List (Node W)
  delete_owned owner [] = []
  delete_owned owner (n ∷ nodes) =
      let rest = delete_owned owner nodes in if n.owner == owner then rest else n ∷ rest

  -- `calloc` gives a node whose token is empty.
  abbrev pub new_node : (owner slot : ℕ) → OpaqueData W → Node W
  new_node owner slot handle = record {
    key_slot = slot;
    handle = handle;
    owner = owner;
    token = replicate handle_size 0;
  }

  pub insert_handle_node :
      Device W → (owner slot : ℕ) → OpaqueData W → List (Node W) → W → Status × List (Node W) × W
  insert_handle_node dev owner slot handle nodes w = elim (find_opaque_handle_for_slot slot nodes) [
    | some entry ↦ (no_error, nodes, w)
    | none ↦
        let (allocated, w') = dev.calloc w in
        if allocated
        then (no_error, nodes ++ new_node owner slot handle ∷ [], w')
        else (generic, nodes, w')
  ]

  -- `assert(entry)`
  abbrev pub assert_some : Option (Node W) → Run (Node W)
  assert_some none = fault assertion
  assert_some (some n) = ok n

  -- The end of `get_key_handle`, when the loop has made a token or the device has failed.
  pub finish_key_handle :
      (slot : ℕ)
      → List (Node W)
      → (kbuf : List ℕ) (klen : ℕ) → Made × W
      → Run (KeyOut × List (Node W) × W)
  finish_key_handle slot nodes kbuf klen (failed rc, w) =
      ok (
        record { status = device rc; kbuf = kbuf; klen = klen },
        delete_opaque_handle slot nodes,
        w,
      )
  finish_key_handle slot nodes kbuf klen (made token, w) = do
    last ← read token (handle_size - 1)
    assert (last == 0)
    ok (
      record { status = no_error; kbuf = overlay token kbuf; klen = handle_size },
      set_token slot token nodes,
      w,
    )

  pub get_key_handle :
      Device W
      → (fuel slot : ℕ) → List (Node W)
      → (kbuf : List ℕ) (klen : ℕ) → W
      → Run (KeyOut × List (Node W) × W)
  unfolding finish_key_handle
  get_key_handle dev fuel slot nodes kbuf klen w = do
    assert (leb handle_size (length kbuf))
    entry ← assert_some (find_opaque_handle_for_slot slot nodes)
    empty ← is_empty_token entry.token
    if empty
        then make_token dev fuel entry.token w >>= finish_key_handle slot nodes kbuf klen
        else ok (record { status = already_exists; kbuf = kbuf; klen = klen }, nodes, w)

  -- `access_token` is the request buffer, of which the first bytes are compared.
  pub get_opaque_key : Uuid → (access_token : List ℕ) → List (Node W) → Retriever W
  unfolding eq_bytes is_allowed_to_read_opaque_key
  get_opaque_key uuid access_token [] kbuf klen w =
      ok (record { status = not_found; kbuf = kbuf; klen = klen }, w)
  get_opaque_key uuid access_token (n ∷ nodes) kbuf klen w = do
    empty ← is_empty_token n.token
    assert (not empty)
    if is_allowed_to_read_opaque_key uuid n.handle
          && eq_bytes n.token (take handle_size access_token)
        then n.handle.retriever kbuf klen w
        else get_opaque_key uuid access_token nodes kbuf klen w

  -- A handler that does not change the list of handles.
  abbrev pub keep_nodes : List (Node W) → KeyOut × W → Run (KeyOut × List (Node W) × W)
  keep_nodes nodes (out, w) = ok (out, nodes, w)

  abbrev pub has_handler : Handler W → Bool
  has_handler no_handler = false
  has_handler _ = true

  -- The key slot is the caller's: its key id and its uuid fit, and it has a handler.
  abbrev pub is_slot_of : Context → (slot_id : List ℕ) → Keyslot W → Bool
  is_slot_of ctx slot_id s =
      eq_bytes s.key_id slot_id && (ctx.uuid == s.uuid && has_handler s.handler)

  module _ (dev : Device W) (fuel : ℕ) (ctx : Context) (nodes : List (Node W)) (kbuf : List ℕ)
      (klen : ℕ) where
    -- The call of `slots->handler`, after a node is inserted for an opaque handle.
    pub call_handler : (slot : ℕ) → Handler W → W → Run (KeyOut × List (Node W) × W)
    unfolding insert_handle_node get_key_handle
    call_handler slot no_handler w = fault null_call
    call_handler slot (provider f) w = f kbuf klen w >>= keep_nodes nodes
    call_handler slot (key_handle handle) w =
        let (rc, nodes', w') = insert_handle_node dev ctx.addr slot handle nodes w in
        elim rc [
          | no_error ↦ get_key_handle dev fuel slot nodes' kbuf klen w'
          | error ↦ ok (record { status = error; kbuf = kbuf; klen = klen }, nodes', w')
        ]

    -- The loop of `_handle_slots`, from slot number `i` on.
    pub slots_loop :
        (slot_id : List ℕ) (i : ℕ) → List (Keyslot W) → W → Run (KeyOut × List (Node W) × W)
    unfolding eq_bytes c_string call_handler get_opaque_key
    slots_loop slot_id i [] w =
        get_opaque_key ctx.uuid slot_id nodes kbuf klen w >>= keep_nodes nodes
    slots_loop slot_id i (s ∷ slots) w =
        if is_slot_of ctx (c_string slot_id) s
        then call_handler i s.handler w
        else slots_loop slot_id (i + 1) slots w

    -- `slots` is `none` for the null pointer.
    pub handle_slots :
        (slot_id : List ℕ) → Option (List (Keyslot W)) → W → Run (KeyOut × List (Node W) × W)
    unfolding slots_loop
    handle_slots slot_id none w =
        ok (record { status = not_found; kbuf = kbuf; klen = klen }, nodes, w)
    handle_slots slot_id (some slots) w = slots_loop slot_id 0 slots w
