-- ===== src/Hwrng/Service/Contexts.antt =====
-- The lists of contexts of the random number service: finding, changing and removing a context, and
-- what that does to the counts and the accounts.
use trusty_app_sample.Common.{
  List, [], arith, if◌then◌else◌, none, refl, some, ℕ, ◌+◌, ◌<◌, ◌==◌, ◌∷◌, ◌≡◌, ◌≤◌,
}
use trusty_app_sample.Hwrng.Service.{Context, find_context, remove_context, update_context}
use trusty_app_sample.Hwrng.Service.Account.{IsAtRest, addr_of, chan_of, count_at, owed}

-- What a context adds to the account of a channel.
abbrev pub share : ℕ → Context → ℕ
share x c = if c.chan == x then c.req_size else 0

-- The address and the channel of a context stay.
abbrev pub Retains : (Context → Context) → Type 0
Retains f = (c : Context) → ((f c).addr ≡ c.addr) × ((f c).chan ≡ c.chan)

module _ (a : ℕ) where
  pub find_context-none : (cs : List Context) → count_at addr_of a cs ≡ 0 → find_context a cs ≡ none
  unfolding count_at
  find_context-none [] h = refl
  find_context-none (c ∷ cs) h = ground (arith, find_context-none cs)

  pub count_at-none : (cs : List Context) → find_context a cs ≡ none → count_at addr_of a cs ≡ 0
  unfolding count_at
  count_at-none [] h = refl
  count_at-none (c ∷ cs) h = ground (arith, count_at-none cs)

  pub count_at-some :
      (cs : List Context) (c : Context)
      → find_context a cs ≡ some c
      → (0 < count_at addr_of a cs) × (c.addr ≡ a) × (0 < count_at chan_of c.chan cs)
  unfolding count_at
  count_at-some [] c h = cc
  count_at-some (d ∷ cs) c h = ground (arith, count_at-some cs c)

  pub remove_context-none :
      (cs : List Context) → count_at addr_of a cs ≡ 0 → remove_context a cs ≡ cs
  unfolding count_at
  remove_context-none [] h = refl
  remove_context-none (c ∷ cs) h = ground (arith, remove_context-none cs)

  pub update_context-none :
      (f : Context → Context) (cs : List Context)
      → count_at addr_of a cs ≡ 0
      → update_context a f cs ≡ cs
  unfolding count_at
  update_context-none f [] h = refl
  update_context-none f (c ∷ cs) h = ground (arith, update_context-none f cs)

  pub count_at-remove_context :
      (key : Context → ℕ) (y : ℕ) (cs : List Context)
      → count_at key y (remove_context a cs) ≤ count_at key y cs
  unfolding count_at
  count_at-remove_context key y [] = omega arith
  count_at-remove_context key y (c ∷ cs) = ground (arith, count_at-remove_context key y cs)

  -- With one context at the address, its place is free again.
  pub count_at-removed :
      (key : Context → ℕ) (cs : List Context) (c : Context)
      → count_at addr_of a cs ≤ 1
      → find_context a cs ≡ some c
      → count_at key (key c) (remove_context a cs) + 1 ≡ count_at key (key c) cs
  unfolding count_at
  count_at-removed key [] c h e = cc
  count_at-removed key (d ∷ cs) c h e =
      ground (arith, count_at-removed key cs c, remove_context-none cs)

  pub count_at-update_context :
      (key : Context → ℕ) (y : ℕ) (f : Context → Context) (cs : List Context)
      → ((c : Context) → key (f c) ≡ key c)
      → count_at key y (update_context a f cs) ≡ count_at key y cs
  unfolding count_at
  count_at-update_context key y f [] r = refl
  count_at-update_context key y f (c ∷ cs) r =
      ground (arith, r c, count_at-update_context key y f cs r)

  pub find_context-update_context :
      (f : Context → Context) (cs : List Context) (c : Context)
      → Retains f
      → find_context a cs ≡ some c
      → find_context a (update_context a f cs) ≡ some (f c)
  find_context-update_context f [] c r h = cc
  find_context-update_context f (d ∷ cs) c r h =
      ground (arith, r d, find_context-update_context f cs c r)

  pub owed-remove_context :
      (x : ℕ) (cs : List Context) (c : Context)
      → count_at addr_of a cs ≤ 1
      → find_context a cs ≡ some c
      → owed x (remove_context a cs) + share x c ≡ owed x cs
  unfolding owed count_at
  owed-remove_context x [] c h e = cc
  owed-remove_context x (d ∷ cs) c h e =
      ground (arith, owed-remove_context x cs c, remove_context-none cs)

  pub owed-update_context :
      (x : ℕ) (f : Context → Context) (cs : List Context) (c : Context)
      → count_at addr_of a cs ≤ 1
      → find_context a cs ≡ some c
      → owed x (update_context a f cs) + share x c ≡ owed x cs + share x (f c)
  unfolding owed count_at
  owed-update_context x f [] c h e = cc
  owed-update_context x f (d ∷ cs) c h e =
      ground (arith, owed-update_context x f cs c, update_context-none f cs)

  pub IsAtRest-remove_context : (cs : List Context) → IsAtRest cs → IsAtRest (remove_context a cs)
  IsAtRest-remove_context [] r = tt
  IsAtRest-remove_context (c ∷ cs) r = ground (arith, IsAtRest-remove_context cs r.1)

  -- A change that leaves the size of the request.
  pub owed-update_context_same :
      (x : ℕ) (f : Context → Context) (cs : List Context)
      → Retains f
      → ((c : Context) → (f c).req_size ≡ c.req_size)
      → owed x (update_context a f cs) ≡ owed x cs
  unfolding owed
  owed-update_context_same x f [] r e = refl
  owed-update_context_same x f (c ∷ cs) r e =
      ground (arith, r c, e c, owed-update_context_same x f cs r e)

  pub IsAtRest-update_context :
      (f : Context → Context) (cs : List Context)
      → ((c : Context) → (f c).req_size ≡ c.req_size)
      → IsAtRest cs
      → IsAtRest (update_context a f cs)
  IsAtRest-update_context f [] e r = tt
  IsAtRest-update_context f (c ∷ cs) e r = ground (arith, e c, IsAtRest-update_context f cs e r.1)
