-- ===== src/Hwkey/Handles/Lifecycle.antt =====
-- The life of a token: what the list of handles holds after a token is given, and after its owner is
-- closed.
use trusty_app_sample.Common.{
  ==_self, Bool-cases, List, Run, [], ap, arith, drop, fault, if◌then◌else◌, inl, inr, length,
  length-append, none, ok, overlay, refl, replicate, some, subst, sym, take, take-length_append,
  true, ℕ, ℤ, ◌&&◌, ◌++◌, ◌==◌, ◌>>=◌, ◌∙◌, ◌∷◌, ◌≡◌,
}
use trusty_app_sample.Hwkey.Model.{
  Context, Device, KeyOut, Keyslot, Node, OpaqueData, Uuid, already_exists, device, generic,
  handle_size, key_handle, no_error,
}
use trusty_app_sample.Hwkey.Token.{Made, failed, made, make_token}
use trusty_app_sample.Hwkey.Token.Laws.{IsToken, make_token-IsToken, new-IsRoom}
use trusty_app_sample.Hwkey.Handles.{delete_owned, is_allowed_to_read_opaque_key, new_node}
use trusty_app_sample.Hwkey.Handles.Lookup.{first_reader, names_token, token_text}
use trusty_app_sample.Hwkey.Handles.Grant.{find-cases, grant, granted}
use trusty_app_sample.Hwkey.Handles.Slots.{find_slot, lookup_key, serve}

names_token_self : (text : List ℕ) → names_token text (text ++ 0 ∷ []) ≡ true
unfolding names_token
names_token_self [] = refl
names_token_self (c ∷ text) = ground (arith, names_token_self text, ==_self c)

-- A token names itself.
pub names_token-IsToken : {t : List ℕ} → IsToken t → names_token (take 31 t) t ≡ true
names_token-IsToken {t} v =
    rw (token_text v)
      (subst (λ x. names_token v.text x ≡ true) (sym v.terminated) (names_token_self v.text))

-- A node with a token, new at the end of the list.
pub record IsGranted {W : Type 0} (owner slot : ℕ) (handle : OpaqueData W) (nodes : List (Node W))
    (kbuf : List ℕ) (out : KeyOut) (nodes' : List (Node W)) : Type 0 where
  pub token : List ℕ
  pub is_token : IsToken token
  pub list : nodes' ≡ nodes ++ record (new_node owner slot handle) { token = token } ∷ []
  pub kbuf_after : out.kbuf ≡ overlay token kbuf
  pub klen_after : out.klen ≡ handle_size

pub take-overlay_token :
    {t : List ℕ} (kbuf : List ℕ) → IsToken t → take handle_size (overlay t kbuf) ≡ t
take-overlay_token {t} kbuf v =
    let n : length t ≡ 32 =
      ap length v.terminated ∙ omega (arith, length-append v.text (0 ∷ []), v.size) in
    subst (λ k. take k (overlay t kbuf) ≡ t) n (take-length_append t (drop (length t) kbuf))

pub ok_eq {ℓ} : {A : Type ℓ} {a b : A} → ok a ≡ ok b → a ≡ b
ok_eq p = cc

found : {A : Type 0} {a : A} → some a ≡ none → ⊥
found e = cc

device_fails : {rc : ℤ} → device rc ≡ no_error → ⊥
device_fails e = cc

module _ {W : Type 0} where
  granted-IsGranted :
      (owner slot : ℕ) (handle : OpaqueData W) (nodes : List (Node W)) (kbuf : List ℕ) (klen : ℕ)
      (r : Run (Made × W)) (out : KeyOut) (nodes' : List (Node W)) (w' : W)
      → ((t : List ℕ) (w : W) → r ≡ ok (made t, w) → IsToken t)
      → (r >>= granted owner slot handle nodes kbuf klen) ≡ ok (out, nodes', w')
      → out.status ≡ no_error
      → IsGranted owner slot handle nodes kbuf out nodes'
  unfolding granted
  granted-IsGranted owner slot handle nodes kbuf klen (fault e) out nodes' w' h p q = cc
  granted-IsGranted owner slot handle nodes kbuf klen (ok (failed rc, w)) out nodes' w' h p q =
      absurd (device_fails (ap (λ x. x.0.status) (ok_eq p) ∙ q))
  granted-IsGranted owner slot handle nodes kbuf klen (ok (made t, w)) out nodes' w' h p q =
      record {
        token = t;
        is_token = h t w refl;
        list = sym (ap (λ x. x.1) (ok_eq p));
        kbuf_after = sym (ap (λ x. x.0.kbuf) (ok_eq p));
        klen_after = sym (ap (λ x. x.0.klen) (ok_eq p));
      }

  grant-IsGranted :
      (dev : Device W) (fuel : ℕ) (ctx : Context) (nodes : List (Node W)) (kbuf : List ℕ)
      (klen slot : ℕ) (handle : OpaqueData W) (w : W) (out : KeyOut) (nodes' : List (Node W))
      (w' : W)
      → grant dev fuel ctx nodes kbuf klen slot handle w ≡ ok (out, nodes', w')
      → out.status ≡ no_error
      → IsGranted ctx.addr slot handle nodes kbuf out nodes'
  unfolding grant
  grant-IsGranted dev fuel ctx nodes kbuf klen slot handle w out nodes' w' p q =
      elim (find-cases slot nodes) [
        | inr (n, e, h) ↦ absurd (refused (ap (λ x. x.0.status) (ok_eq (rw (e, grant) at p)) ∙ q))
        | inl (e, free) ↦ elim (Bool-cases (dev.calloc w).0) [
          | inr no_memory ↦
              absurd (no_room (ap (λ x. x.0.status) (ok_eq (rw (e, no_memory, grant) at p)) ∙ q))
          | inl allocated ↦
              granted-IsGranted ctx.addr slot handle nodes kbuf klen
                (make_token dev fuel (replicate handle_size 0) (dev.calloc w).1) out nodes' w'
                (λ t w'' m.
                  make_token-IsToken dev fuel (replicate 32 0) (dev.calloc w).1 new-IsRoom m)
                (rw (e, allocated, grant) at p) q
        ]
      ]
    where
      refused : already_exists ≡ no_error → ⊥
      refused e = cc

      no_room : generic ≡ no_error → ⊥
      no_room e = cc

  -- A handle that is given to the owner of its key slot comes with a new node, whose token is sent.
  pub lookup_key-IsGranted :
      (dev : Device W) (fuel : ℕ) (ctx : Context) (nodes : List (Node W)) (kbuf msg : List ℕ)
      (klen slot : ℕ) (handle : OpaqueData W) (slots : List (Keyslot W)) (w : W) (out : KeyOut)
      (nodes' : List (Node W)) (w' : W)
      → find_slot ctx msg 0 slots ≡ some (slot, key_handle handle)
      → lookup_key dev fuel ctx nodes kbuf klen msg slots w ≡ ok (out, nodes', w')
      → out.status ≡ no_error
      → IsGranted ctx.addr slot handle nodes kbuf out nodes'
  unfolding lookup_key serve
  lookup_key-IsGranted dev fuel ctx nodes kbuf msg klen slot handle slots w out nodes' w' f p q =
      grant-IsGranted dev fuel ctx nodes kbuf klen slot handle w out nodes' w'
        (rw (f, lookup_key) at p) q

  module _ (uuid : Uuid) (msg : List ℕ) where
    pub first_reader-append :
        (nodes : List (Node W)) (n : Node W)
        → first_reader uuid msg nodes ≡ none
        → names_token (take 31 n.token) msg ≡ true
        → first_reader uuid msg (nodes ++ n ∷ [])
          ≡ (if is_allowed_to_read_opaque_key uuid n.handle then some n else none)
    unfolding first_reader
    first_reader-append [] n e h = rw h (ground arith)
    first_reader-append (m ∷ nodes) n e h =
        elim (Bool-cases
          (is_allowed_to_read_opaque_key uuid m.handle && names_token (take 31 m.token) msg)) [
            | inl hit ↦ absurd (found (rw hit at e))
            | inr miss ↦ rw miss (first_reader-append nodes n (rw miss at e) h)
          ]

    pub first_reader-delete_owned :
        (owner : ℕ) (nodes : List (Node W))
        → first_reader uuid msg nodes ≡ none
        → first_reader uuid msg (delete_owned owner nodes) ≡ none
    unfolding first_reader delete_owned
    first_reader-delete_owned owner [] e = refl
    first_reader-delete_owned owner (m ∷ nodes) e =
        elim (Bool-cases
          (is_allowed_to_read_opaque_key uuid m.handle && names_token (take 31 m.token) msg)) [
            | inl hit ↦ absurd (found (rw hit at e))
            | inr miss ↦ elim (Bool-cases (m.owner == owner)) [
              | inl mine ↦ rw mine (first_reader-delete_owned owner nodes (rw miss at e))
              | inr other ↦ rw (other, miss) (first_reader-delete_owned owner nodes (rw miss at e))
            ]
          ]

  pub delete_owned-append :
      (owner : ℕ) (nodes : List (Node W)) (n : Node W)
      → n.owner ≡ owner
      → delete_owned owner (nodes ++ n ∷ []) ≡ delete_owned owner nodes
  unfolding delete_owned
  delete_owned-append owner [] n e = ground (arith, e)
  delete_owned-append owner (m ∷ nodes) n e = ground (arith, delete_owned-append owner nodes n e)
