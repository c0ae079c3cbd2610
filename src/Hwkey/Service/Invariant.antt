-- ===== src/Hwkey/Service/Invariant.antt =====
-- The invariant of the key service, over every event.
use trusty_app_sample.Common.{
  All, Bool-cases, List, Returns, Returns-and, Returns-bind, [], ap, arith, drop, false, inl, inr,
  le_refl, leb, length, length-overlay, length-replicate, refl, replicate, subst, suc, sym, true,
  zero, ℕ, ℤ, ◌++◌, ◌+◌, ◌==◌, ◌∙◌, ◌∷◌, ◌≡◌, ◌≢◌, ◌≤◌, ◌⊎◌,
}
use trusty_app_sample.Hwkey.Model.{
  Context, Device, KeyOut, Node, Uuid, max_payload_size, not_implemented,
}
use trusty_app_sample.Hwkey.Handles.Invariant.{IsValid, handle_slots-IsValid}
use trusty_app_sample.Hwkey.Handles.Close.{All-delete_owned, delete_owned-IsValid}
use trusty_app_sample.Hwkey.Handles.Tidy.{
  AreTidySlots, Delivers, IsTidy, IsTidyNode, IsTidyOut, handle_slots-tidy, unchanged-IsTidyOut,
}
use trusty_app_sample.Hwkey.Service.{
  Header, Kdf, Protocol, Reply, Server, clear, hwkey_ctx_close, hwkey_handle_derive_key_cmd,
  hwkey_handle_get_keyslot_cmd, kdf_version, remove_context, reply_and_clear,
}
use trusty_app_sample.Hwkey.Handles.{handle_slots}

-- A context is allocated at the address.
abbrev pub HasContext : List Context → ℕ → Type 0
HasContext [] a = ⊥
HasContext (c ∷ cs) a = (c.addr ≡ a) ⊎ HasContext cs a

abbrev pub AreZero : List ℕ → Type 0
AreZero = All (λ b. b ≡ 0)

-- Between two events: the list of handles is valid for the live contexts, the providers in it and
-- in the key slots are tidy, the buffers have their sizes, and no key is left in the key buffer.
pub record IsSound {W : Type 0} (s : Server W) : Type 0 where
  pub handles : IsValid (HasContext s.contexts) s.opaque_handles
  pub nodes : All IsTidyNode s.opaque_handles
  pub slots : AreTidySlots s.key_slots
  pub key_size : length s.key_data ≡ max_payload_size
  pub req_size : length s.req_data ≡ max_payload_size + 1
  pub clean : AreZero s.key_data

AreZero-drop : (n : ℕ) (xs : List ℕ) → AreZero xs → AreZero (drop n xs)
AreZero-drop zero xs z = z
AreZero-drop (suc n) [] z = z
AreZero-drop (suc n) (x ∷ xs) z = AreZero-drop n xs z.1

AreZero-append : (xs ys : List ℕ) → AreZero xs → AreZero ys → AreZero (xs ++ ys)
AreZero-append [] ys z u = u
AreZero-append (x ∷ xs) ys z u = (z.0, AreZero-append xs ys z.1 u)

pub AreZero-replicate : (n : ℕ) → AreZero (replicate n 0)
AreZero-replicate zero = tt
AreZero-replicate (suc n) = (refl, AreZero-replicate n)

-- After a tidy key is cleared, nothing of it is left.
clear-tidy :
    (kbuf : List ℕ) (out : KeyOut)
    → IsTidyOut kbuf out
    → AreZero kbuf
    → Returns (λ b. (length b ≡ length kbuf) × AreZero b) (clear out.klen out.kbuf)
unfolding clear
clear-tidy kbuf out t z =
    let fits : leb out.klen (length out.kbuf) ≡ true = ground (arith, t.size, t.fits) in
    let n : length (replicate {A = ℕ} out.klen 0) ≡ out.klen = length-replicate out.klen 0 in
    let cleared : drop (length (replicate out.klen 0)) out.kbuf ≡ drop out.klen kbuf =
      ap (λ k. drop k out.kbuf) n ∙ t.rest in
    rw fits (
      omega (
        arith,
        length-overlay (replicate out.klen 0) out.kbuf (omega (arith, n, t.fits, t.size)),
        t.size,
      ),
      AreZero-append (replicate out.klen 0) (drop (length (replicate out.klen 0)) out.kbuf)
          (AreZero-replicate out.klen) (subst AreZero (sym cleared) (AreZero-drop out.klen kbuf z)),
    )

remove-HasContext :
    (cs : List Context) (addr a : ℕ)
    → HasContext cs a × (a ≢ addr)
    → HasContext (remove_context addr cs) a
unfolding remove_context
remove-HasContext [] addr a h = h.0
remove-HasContext (c ∷ cs) addr a (inl e, ne) =
    let other : (c.addr == addr) ≡ false = ground arith in rw other (inl e)
remove-HasContext (c ∷ cs) addr a (inr h, ne) = elim (Bool-cases (c.addr == addr)) [
  | inl gone ↦ rw gone (remove-HasContext cs addr a (h, ne))
  | inr kept ↦ rw kept (inr (remove-HasContext cs addr a (h, ne)))
]

module _ {W : Type 0} where
  All-mono {κ μ} :
      (P : Node W → Type κ) (Q : Node W → Type μ) (nodes : List (Node W))
      → ((n : Node W) → P n → Q n)
      → All P nodes
      → All Q nodes
  All-mono P Q [] f a = tt
  All-mono P Q (n ∷ nodes) f a = (f n a.0, All-mono P Q nodes f a.1)

  pub IsValid-mono :
      (P Q : ℕ → Type 0) (nodes : List (Node W))
      → ((a : ℕ) → P a → Q a)
      → IsValid P nodes
      → IsValid Q nodes
  IsValid-mono P Q nodes f v = record {
    tokens = v.tokens;
    distinct = v.distinct;
    owners = All-mono (λ n. P n.owner) (λ n. Q n.owner) nodes (λ n. f n.owner) v.owners;
  }

  -- Closing a channel keeps the service sound: no handle is left with a dangling owner.
  pub hwkey_ctx_close-IsSound :
      (ctx : Context) (s : Server W) → IsSound s → IsSound (hwkey_ctx_close ctx s)
  unfolding hwkey_ctx_close
  hwkey_ctx_close-IsSound ctx s v = record {
    handles =
        IsValid-mono _ _ _ (remove-HasContext s.contexts ctx.addr)
          (delete_owned-IsValid ctx.addr (HasContext s.contexts) s.opaque_handles v.handles);
    nodes = All-delete_owned ctx.addr IsTidyNode s.opaque_handles v.nodes;
    slots = v.slots;
    key_size = v.key_size;
    req_size = v.req_size;
    clean = v.clean;
  }

  module _ (k : Protocol) (send : Reply → W → ℤ × W) (ctx : Context) where
    -- The server is sound, but for what a tidy provider has left in the key buffer.
    reply_and_clear-IsSound :
        (hdr : Header) (kbuf : List ℕ) (out : KeyOut) (s : Server W)
        → IsSound s
        → kbuf ≡ s.key_data
        → IsTidyOut kbuf out
        → Returns
            (λ r. IsSound r.1 × (r.1.contexts ≡ s.contexts))
            (reply_and_clear k send ctx hdr out s)
    unfolding reply_and_clear
    reply_and_clear-IsSound hdr kbuf out s v e t =
        Returns-bind (λ b. (length b ≡ length kbuf) × AreZero b)
          (λ r. IsSound r.1 × (r.1.contexts ≡ s.contexts)) (clear out.klen out.kbuf) _
          (clear-tidy kbuf out t (subst AreZero (sym e) v.clean))
          (λ b q h. (
            record {
              handles = v.handles;
              nodes = v.nodes;
              slots = v.slots;
              key_size = omega (arith, h.0, ap length e, v.key_size);
              req_size = v.req_size;
              clean = h.1;
            },
            refl,
          ))

  -- A step of a handler: the server stays sound, and no context comes or goes.
  abbrev pub Keeps : Server W → ℤ × Server W → Type 0
  Keeps s r = IsSound r.1 × (r.1.contexts ≡ s.contexts)

  module _ (k : Protocol) (send : Reply → W → ℤ × W) (dev : Device W) (fuel : ℕ) (kdf : Kdf W)
      (ctx : Context) (delivers : Delivers dev fuel)
      (kdf_tidy : (uuid : Uuid) (ikm : List ℕ)
        → length ikm ≤ max_payload_size
        → IsTidy (kdf uuid ikm)) where
    pub get_keyslot-IsSound :
        (hdr : Header) (s : Server W)
        → IsSound s
        → HasContext s.contexts ctx.addr
        → Returns (Keeps s) (hwkey_handle_get_keyslot_cmd k send dev fuel kdf ctx hdr s)
    unfolding hwkey_handle_get_keyslot_cmd
    get_keyslot-IsSound hdr s v live =
        let room : 32 ≤ length s.key_data = omega (arith, v.key_size) in
        let run =
          handle_slots dev fuel ctx s.opaque_handles s.key_data 0 s.req_data s.key_slots s.world in
        Returns-bind
          (λ r.
            (IsTidyOut s.key_data r.0 × All IsTidyNode r.1) × IsValid (HasContext s.contexts) r.1)
          (Keeps s) run _
          (Returns-and _ _ run
            (handle_slots-tidy dev fuel ctx s.opaque_handles s.key_data 0 v.handles.tokens v.nodes
              v.key_size (omega arith) delivers s.req_data s.key_slots s.world v.slots)
            (handle_slots-IsValid (HasContext s.contexts) dev fuel ctx s.opaque_handles s.key_data 0
              v.handles live room s.req_data s.key_slots s.world))
          (λ r e h.
            reply_and_clear-IsSound k send ctx hdr s.key_data r.0
              (record s { opaque_handles = r.1; world = r.2 })
              (record {
                handles = h.1;
                nodes = h.0.1;
                slots = v.slots;
                key_size = v.key_size;
                req_size = v.req_size;
                clean = v.clean;
              })
              refl h.0.0)

    pub derive_key-IsSound :
        (hdr : Header) (ikm : List ℕ) (s : Server W)
        → length ikm ≤ max_payload_size
        → IsSound s
        → Returns (Keeps s) (hwkey_handle_derive_key_cmd k send dev fuel kdf ctx hdr ikm s)
    unfolding hwkey_handle_derive_key_cmd
    derive_key-IsSound hdr ikm s small v =
        let hdr' = record hdr { arg1 = kdf_version k send dev fuel kdf hdr.arg1 } in
        elim (Bool-cases (hdr'.arg1 == k.kdf_v1)) [
          | inr other ↦ rw other (
              reply_and_clear-IsSound k send ctx hdr' s.key_data _ s v refl
                (unchanged-IsTidyOut not_implemented s.key_data 0 (omega arith)))
          | inl v1 ↦ rw v1 (
              Returns-bind (λ r. IsTidyOut s.key_data r.0) (Keeps s)
                (kdf ctx.uuid ikm s.key_data (length s.key_data) s.world) _
                (kdf_tidy ctx.uuid ikm small s.key_data (length s.key_data) s.world v.key_size
                  (le_refl _))
                (λ r e h.
                  reply_and_clear-IsSound k send ctx hdr' s.key_data r.0 (record s { world = r.1 })
                    (record {
                      handles = v.handles;
                      nodes = v.nodes;
                      slots = v.slots;
                      key_size = v.key_size;
                      req_size = v.req_size;
                      clean = v.clean;
                    })
                    refl h))
        ]
