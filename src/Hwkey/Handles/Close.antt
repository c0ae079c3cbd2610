-- ===== src/Hwkey/Handles/Close.antt =====
-- What closing a channel does to the opaque handles.
use trusty_app_sample.Common.{
  All, Bool-cases, List, Option, [], arith, false, if◌then◌else◌, inl, inr, none, refl, some, subst,
  true, ℕ, ℕ_discrete, ◌==◌, ◌∷◌, ◌≡◌, ◌≢◌,
}
use trusty_app_sample.Hwkey.Model.{Node}
use trusty_app_sample.Hwkey.Handles.{delete_owned, find_opaque_handle_for_slot}
use trusty_app_sample.Hwkey.Handles.Lookup.{IsTokenNode}
use trusty_app_sample.Hwkey.Handles.Grant.{IsFree}
use trusty_app_sample.Hwkey.Handles.Invariant.{AreDistinct, IsValid}

module _ {W : Type 0} (owner : ℕ) where
  pub All-delete_owned {κ} :
      (P : Node W → Type κ) (nodes : List (Node W)) → All P nodes → All P (delete_owned owner nodes)
  unfolding delete_owned
  All-delete_owned P [] a = tt
  All-delete_owned P (n ∷ nodes) a = elim (Bool-cases (n.owner == owner)) [
    | inl mine ↦ rw mine (All-delete_owned P nodes a.1)
    | inr other ↦ rw other (a.0, All-delete_owned P nodes a.1)
  ]

  distinct-delete_owned :
      (nodes : List (Node W)) → AreDistinct nodes → AreDistinct (delete_owned owner nodes)
  unfolding delete_owned
  distinct-delete_owned [] d = tt
  distinct-delete_owned (n ∷ nodes) d = elim (Bool-cases (n.owner == owner)) [
    | inl mine ↦ rw mine (distinct-delete_owned nodes d.1)
    | inr other ↦
        rw other (
          All-delete_owned (λ k. k.key_slot ≢ n.key_slot) nodes d.0,
          distinct-delete_owned nodes d.1,
        )
  ]

  owners-delete_owned :
      (IsLive : ℕ → Type 0) (nodes : List (Node W))
      → All (λ n. IsLive n.owner) nodes
      → All (λ n. IsLive n.owner × (n.owner ≢ owner)) (delete_owned owner nodes)
  unfolding delete_owned
  owners-delete_owned IsLive [] a = tt
  owners-delete_owned IsLive (n ∷ nodes) a = elim (ℕ_discrete n.owner owner) [
    | yes mine ↦
        let hit : (n.owner == owner) ≡ true = ground arith in
        rw hit (owners-delete_owned IsLive nodes a.1)
    | no other ↦
        let miss : (n.owner == owner) ≡ false = ground arith in
        rw miss ((a.0, other), owners-delete_owned IsLive nodes a.1)
  ]

  -- After a context is closed, the list is valid and no node belongs to that context.
  pub delete_owned-IsValid :
      (IsLive : ℕ → Type 0) (nodes : List (Node W))
      → IsValid IsLive nodes
      → IsValid (λ a. IsLive a × (a ≢ owner)) (delete_owned owner nodes)
  delete_owned-IsValid IsLive nodes v = record {
    tokens = All-delete_owned IsTokenNode nodes v.tokens;
    distinct = distinct-delete_owned nodes v.distinct;
    owners = owners-delete_owned IsLive nodes v.owners;
  }

  free-find :
      (slot : ℕ) (nodes : List (Node W))
      → IsFree slot nodes
      → find_opaque_handle_for_slot slot nodes ≡ none
  unfolding find_opaque_handle_for_slot
  free-find slot [] f = refl
  free-find slot (n ∷ nodes) f = ground (arith, f.0, free-find slot nodes f.1)

  -- A node, unless it is of the context.
  abbrev pub unless_owned : Option (Node W) → Option (Node W)
  unless_owned none = none
  unless_owned (some n) = if n.owner == owner then none else some n

  -- With at most one node for each key slot, whose node it is decides what closing a channel leaves of a key slot: a node of the closed
  -- context is gone, so its token is void, and any other node is found as before.
  pub find-delete_owned :
      (slot : ℕ) (nodes : List (Node W))
      → AreDistinct nodes
      → find_opaque_handle_for_slot slot (delete_owned owner nodes)
        ≡ unless_owned (find_opaque_handle_for_slot slot nodes)
  unfolding find_opaque_handle_for_slot delete_owned
  find-delete_owned slot [] d = refl
  find-delete_owned slot (n ∷ nodes) d = elim (ℕ_discrete n.key_slot slot) [
    | yes e ↦
        let f = free-find slot nodes (subst (λ k. IsFree k nodes) e d.0) in
        ground (arith, find-delete_owned slot nodes d.1, f)
    | no ne ↦ ground (arith, find-delete_owned slot nodes d.1)
  ]
