-- ===== src/Hwkey/Handles/Lookup.antt =====
-- Which key an access token gives, and to whom.
use trusty_app_sample.Common.{
  All, Bool, List, Option, [], arith, false, if◌then◌else◌, length, none, ok, refl, some, subst,
  suc, sym, take, take-length_append, true, zero, ℕ, ◌&&◌, ◌++◌, ◌==◌, ◌∷◌, ◌≡◌, ◌≢◌,
}
use trusty_app_sample.Hwkey.Handles.{eq_bytes, get_opaque_key, is_allowed_to_read_opaque_key}
use trusty_app_sample.Hwkey.Model.{Node, Uuid, not_found}
use trusty_app_sample.Hwkey.Token.Laws.{IsToken, is_empty_token-IsToken}

-- The request names the token: it sends all its bytes, and ends there or goes on with a 0.
unfoldable pub names_token : (text msg : List ℕ) → Bool
names_token [] [] = true
names_token [] (m ∷ msg) = m == 0
names_token (c ∷ text) [] = false
names_token (c ∷ text) (m ∷ msg) = c == m && names_token text msg

eq_bytes-nil : (xs : List ℕ) → eq_bytes [] (take 0 xs) ≡ true
unfolding eq_bytes
eq_bytes-nil xs = refl

-- A token is compared with the bytes that were sent, and not with what lies behind them.
eq_bytes-request :
    (text msg stale : List ℕ) (n : ℕ)
    → All (λ c. c ≢ 0) text
    → n ≡ length text
    → eq_bytes (text ++ 0 ∷ []) (take (suc n) (msg ++ 0 ∷ stale)) ≡ names_token text msg
unfolding eq_bytes names_token
eq_bytes-request [] [] stale zero a e = refl
eq_bytes-request [] (m ∷ msg) stale zero a e = ground arith
eq_bytes-request [] msg stale (suc n) a e = absurd (omega arith)
eq_bytes-request (c ∷ text) msg stale zero a e = absurd (omega arith)
eq_bytes-request (c ∷ text) [] stale (suc n) a e = ground arith
eq_bytes-request (c ∷ text) (m ∷ msg) stale (suc n) a e =
    rw (eq_bytes-request text msg stale n a.1 (omega arith))

pub token_text : {t : List ℕ} (v : IsToken t) → take 31 t ≡ v.text
token_text v = rw (v.terminated, ← v.size) (take-length_append v.text (0 ∷ []))

token-request :
    (t msg stale : List ℕ)
    → IsToken t
    → eq_bytes t (take 32 (msg ++ 0 ∷ stale)) ≡ names_token (take 31 t) msg
token-request t msg stale v = rw (token_text v) (
    subst (λ x. eq_bytes x (take 32 (msg ++ 0 ∷ stale)) ≡ names_token v.text msg) (sym v.terminated)
      (eq_bytes-request v.text msg stale 31 v.nonzero (sym v.size)))

module _ {W : Type 0} where
  -- The first node whose key the client may read and whose token the request names.
  unfoldable pub first_reader : Uuid → (msg : List ℕ) → List (Node W) → Option (Node W)
  first_reader uuid msg [] = none
  first_reader uuid msg (n ∷ nodes) =
      if is_allowed_to_read_opaque_key uuid n.handle && names_token (take 31 n.token) msg
      then some n
      else first_reader uuid msg nodes

  abbrev pub IsTokenNode : Node W → Type 0
  IsTokenNode n = IsToken n.token

  -- With a token in each node, a request with the bytes `msg`, terminated by the service, gives
  -- the key of the first node whose key the client may read and whose token the request names, and
  -- `not_found` if there is none. No assertion fails, and what earlier requests have left in the
  -- buffer behind `msg` plays no part.
  pub get_opaque_key-eq-first :
      (uuid : Uuid) (msg stale : List ℕ) (nodes : List (Node W)) (kbuf : List ℕ) (klen : ℕ) (w : W)
      → All IsTokenNode nodes
      → get_opaque_key uuid (msg ++ 0 ∷ stale) nodes kbuf klen w
        ≡ elim (first_reader uuid msg nodes) [
          | none ↦ ok (record { status = not_found; kbuf = kbuf; klen = klen }, w)
          | some n ↦ n.handle.retriever kbuf klen w
        ]
  unfolding get_opaque_key first_reader
  get_opaque_key-eq-first uuid msg stale [] kbuf klen w a = refl
  get_opaque_key-eq-first uuid msg stale (n ∷ nodes) kbuf klen w a =
      rw (is_empty_token-IsToken a.0, token-request n.token msg stale a.0)
        (ground (arith, get_opaque_key-eq-first uuid msg stale nodes kbuf klen w a.1))
