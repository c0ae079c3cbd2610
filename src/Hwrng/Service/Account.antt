-- ===== src/Hwrng/Service/Account.antt =====
-- The account of a channel: the bytes that were sent to it and the bytes that it still waits for,
-- through one pass over the list of requests.
use trusty_app_sample.Common.{
  All, Bool-cases, List, [], arith, if◌then◌else◌, inl, inr, is_zero, length, refl, true, ℕ, ◌++◌,
  ◌+◌, ◌==◌, ◌∷◌, ◌≡◌, ◌≤◌,
}
use trusty_app_sample.Hwrng.Service.{
  Context, Fate, Queue, Send, World, after_send, chunk, closes, collect, continues, done,
  hwrng_handle_req_queue, not_enough_buffer, send_failed, sent, serve, waits,
}
use trusty_app_sample.Hwrng.Service.Pass.{Fills, IsFair, serve-IsFair}

abbrev pub addr_of : Context → ℕ
addr_of c = c.addr

abbrev pub chan_of : Context → ℕ
chan_of c = c.chan

-- How many contexts of a list have a key, such as an address or a channel.
unfoldable pub count_at : (Context → ℕ) → ℕ → List Context → ℕ
count_at key a [] = 0
count_at key a (c ∷ cs) = let rest = count_at key a cs in if key c == a then 1 + rest else rest

-- What the contexts of a list with this channel wait for, what was sent to it, and how often it was
-- closed.
unfoldable pub owed : ℕ → List Context → ℕ
owed x [] = 0
owed x (c ∷ cs) = let rest = owed x cs in if c.chan == x then c.req_size + rest else rest

unfoldable pub got : ℕ → List (ℕ × List ℕ) → ℕ
got x [] = 0
got x (r ∷ rs) = let rest = got x rs in if r.0 == x then length r.1 + rest else rest

unfoldable pub closings : ℕ → List ℕ → ℕ
closings x [] = 0
closings x (c ∷ cs) = let rest = closings x cs in if c == x then 1 + rest else rest

pub count_at-append :
    (key : Context → ℕ) (a : ℕ) (cs ds : List Context)
    → count_at key a (cs ++ ds) ≡ count_at key a cs + count_at key a ds
unfolding count_at
count_at-append key a [] ds = omega arith
count_at-append key a (c ∷ cs) ds = ground (arith, count_at-append key a cs ds)

pub owed-append : (x : ℕ) (cs ds : List Context) → owed x (cs ++ ds) ≡ owed x cs + owed x ds
unfolding owed
owed-append x [] ds = omega arith
owed-append x (c ∷ cs) ds = ground (arith, owed-append x cs ds)

pub got-append : (x : ℕ) (rs ts : List (ℕ × List ℕ)) → got x (rs ++ ts) ≡ got x rs + got x ts
unfolding got
got-append x [] ts = omega arith
got-append x (r ∷ rs) ts = ground (arith, got-append x rs ts)

pub closings-append :
    (x : ℕ) (cs ds : List ℕ) → closings x (cs ++ ds) ≡ closings x cs + closings x ds
unfolding closings
closings-append x [] ds = omega arith
closings-append x (c ∷ cs) ds = ground (arith, closings-append x cs ds)

abbrev pub IsAtRest : List Context → Type 0
IsAtRest = All (λ c. c.req_size ≡ 0)

pub IsAtRest-append : (cs ds : List Context) → IsAtRest cs → IsAtRest ds → IsAtRest (cs ++ ds)
IsAtRest-append [] ds r q = q
IsAtRest-append (c ∷ cs) ds r q = (r.0, IsAtRest-append cs ds r.1 q)

pub owed-zero : (x : ℕ) (cs : List Context) → IsAtRest cs → owed x cs ≡ 0
unfolding owed
owed-zero x [] r = refl
owed-zero x (c ∷ cs) r = ground (arith, owed-zero x cs r.1, r.0)

-- A round leaves the address and the channel of a context.
abbrev IsSame : Context → Fate → Type 0
IsSame ctx (waits c) = (c.addr ≡ ctx.addr) × (c.chan ≡ ctx.chan)
IsSame ctx (continues c bytes) = (c.addr ≡ ctx.addr) × (c.chan ≡ ctx.chan)
IsSame ctx (done c bytes) = (c.addr ≡ ctx.addr) × (c.chan ≡ ctx.chan)
IsSame ctx closes = Unit

-- What a pass does to the accounts of the contexts in the list.
pub record IsAccounted (list : List Context) (q : Queue) : Type 0 where
  pub addrs :
      (a : ℕ) → count_at addr_of a q.pending + count_at addr_of a q.idle ≤ count_at addr_of a list
  pub chans :
      (x : ℕ) → count_at chan_of x q.pending + count_at chan_of x q.idle ≤ count_at chan_of x list
  pub at_rest : IsAtRest q.idle
  pub bounded : (x : ℕ) → owed x q.pending + got x q.replies ≤ owed x list
  pub kept : (x : ℕ) → closings x q.closed ≡ 0 → owed x q.pending + got x q.replies ≡ owed x list

collect-IsAccounted :
    (ctx : Context) (list : List Context) (fate : Fate) (q : Queue)
    → IsSame ctx fate
    → IsFair ctx fate
    → IsAccounted list q
    → IsAccounted (ctx ∷ list) (collect ctx fate q)
unfolding count_at owed got closings
collect-IsAccounted ctx list (waits c) q s f v = record {
  addrs = λ a. ground (arith, v.addrs a, s.0);
  chans = λ x. ground (arith, v.chans x, s.1);
  at_rest = v.at_rest;
  bounded = λ x. ground (arith, v.bounded x, s.1, f.0);
  kept = λ x e. ground (arith, v.kept x e, s.1, f.0);
}
collect-IsAccounted ctx list (continues c bytes) q s f v = record {
  addrs = λ a. ground (arith, v.addrs a, s.0);
  chans = λ x. ground (arith, v.chans x, s.1);
  at_rest = v.at_rest;
  bounded = λ x. ground (arith, v.bounded x, s.1, f.0);
  kept = λ x e. ground (arith, v.kept x e, s.1, f.0);
}
collect-IsAccounted ctx list (done c bytes) q s f v = record {
  addrs = λ a. ground (arith, v.addrs a, s.0);
  chans = λ x. ground (arith, v.chans x, s.1);
  at_rest = (f.2, v.at_rest);
  bounded = λ x. ground (arith, v.bounded x, s.1, f.0);
  kept = λ x e. ground (arith, v.kept x e, s.1, f.0);
}
collect-IsAccounted ctx list closes q s f v = record {
  addrs = λ a. ground (arith, v.addrs a);
  chans = λ x. ground (arith, v.chans x);
  at_rest = v.at_rest;
  bounded = λ x. ground (arith, v.bounded x);
  kept = λ x e. ground (arith, v.kept x);
}

after_send-IsSame :
    (ctx : Context) (len : ℕ) (bytes : List ℕ) → IsSame ctx (after_send ctx len bytes)
after_send-IsSame ctx len bytes = ground arith

sent-IsSame :
    (ctx : Context) (len : ℕ) (bytes : List ℕ) (r : Send)
    → IsSame ctx (elim r [
      | sent ↦ after_send ctx len bytes
      | not_enough_buffer ↦ waits (record ctx { send_blocked = true })
      | send_failed ↦ closes
    ])
sent-IsSame ctx len bytes sent = after_send-IsSame ctx len bytes
sent-IsSame ctx len bytes not_enough_buffer = (refl, refl)
sent-IsSame ctx len bytes send_failed = tt

module _ {W : Type 0} (world : World W) where
  serve-IsSame : (ctx : Context) (w : W) → IsSame ctx (serve world ctx w).0
  unfolding serve
  serve-IsSame ctx w =
      let g = world.get_rng_data (chunk ctx.req_size) w in
      elim (Bool-cases ctx.send_blocked) [
        | inl blocked ↦ rw blocked (refl, refl)
        | inr free ↦ elim (Bool-cases (is_zero g.0)) [
          | inr failed ↦ rw (free, failed) tt
          | inl filled ↦
              rw (free, filled)
                (sent-IsSame ctx (chunk ctx.req_size) g.1 (world.send ctx.chan g.1 g.2).0)
        ]
      ]

  pub hwrng_handle_req_queue-IsAccounted :
      (list : List Context) (w : W)
      → Fills world
      → IsAccounted list (hwrng_handle_req_queue world list w).0
  unfolding hwrng_handle_req_queue count_at owed got closings
  hwrng_handle_req_queue-IsAccounted [] w fills = record {
    addrs = λ a. omega arith;
    chans = λ x. omega arith;
    at_rest = tt;
    bounded = λ x. omega arith;
    kept = λ x e. omega arith;
  }
  hwrng_handle_req_queue-IsAccounted (ctx ∷ list) w fills =
      collect-IsAccounted ctx list (serve world ctx w).0 _ (serve-IsSame ctx w)
        (serve-IsFair world fills ctx w)
        (hwrng_handle_req_queue-IsAccounted list (serve world ctx w).1 fills)
