-- ===== src/Hwkey/Handles/Tests.antt =====
-- The list of handles and the key slots of the key service at small sizes.
use trusty_app_sample.Common.{
  All, Bool-cases, Ensures, List, Returns, [], arith, if◌then◌else◌, inl, inr, leb, length,
  length-replicate, none, ok, overlay, refl, replicate, some, suc, true, zero, ℕ, ◌++◌, ◌∷◌, ◌≡◌,
  ◌≢◌,
}
use trusty_app_sample.Hwkey.Model.{
  Context, Device, Keyslot, Node, OpaqueData, Retriever, bad_len, key_handle, no_error, provider,
}
use trusty_app_sample.Hwkey.Token.{made, make_token}
use trusty_app_sample.Hwkey.Token.Laws.{
  IsToken, chosen, make_token-IsToken, make_token-ends, new-IsRoom, nonzero_bytes,
}
use trusty_app_sample.Hwkey.Handles.{
  call_handler, contains, delete_owned, find_opaque_handle_for_slot, get_opaque_key, handle_slots,
  is_allowed_to_read_opaque_key,
}
use trusty_app_sample.Hwkey.Handles.Lookup.{
  IsTokenNode, first_reader, get_opaque_key-eq-first, names_token,
}
use trusty_app_sample.Hwkey.Handles.Slots.{
  find_slot, handle_slots-eq-lookup, is_named, is_served, lookup_key, serve,
}
use trusty_app_sample.Hwkey.Handles.Grant.{call_handler-eq-grant, grant, granted}
use trusty_app_sample.Hwkey.Handles.Invariant.{IsValid, handle_slots-IsValid}
use trusty_app_sample.Hwkey.Handles.Close.{find-delete_owned}
use trusty_app_sample.Hwkey.Handles.Tidy.{
  IsTidy, IsTidyNode, IsTidyOut, handle_slots-tidy, overlay-IsTidyOut, unchanged-IsTidyOut,
}
use trusty_app_sample.Hwrng.Fake.Laws.{fill_from-nonzero}
use trusty_app_sample.Hwrng.Fake.Tokens.{fake-Delivers, fake_device, make_token_fake}
use trusty_app_sample.Hwrng.Fake.{fill_from, hwrng_dev_get_rng_data}

-- A provider of a key of two bytes.
abbrev pub two_bytes : Retriever ℕ
two_bytes kbuf klen w =
    if leb 2 (length kbuf)
    then ok (record { status = no_error; kbuf = overlay (5 ∷ 6 ∷ []) kbuf; klen = 2 }, w)
    else ok (record { status = bad_len; kbuf = kbuf; klen = klen }, w)

pub two_bytes-IsTidy : IsTidy two_bytes
two_bytes-IsTidy kbuf klen w full h = elim (Bool-cases (leb 2 (length kbuf))) [
  | inl fits ↦ rw fits (overlay-IsTidyOut no_error kbuf (5 ∷ 6 ∷ []) 2 refl (ground arith))
  | inr small ↦ rw small (unchanged-IsTidyOut bad_len kbuf klen h)
]

abbrev pub shared_key : OpaqueData ℕ
shared_key = record { allowed_uuids = 2 ∷ []; retriever = two_bytes }

abbrev pub two_slots : List (Keyslot ℕ)
two_slots =
    record { key_id = 107 ∷ []; uuid = 1; handler = provider two_bytes }
    ∷ record { key_id = 104 ∷ []; uuid = 1; handler = key_handle shared_key }
    ∷ []

abbrev pub ones : ℕ → List ℕ
ones n = replicate n 1

ones-nonzero : (n : ℕ) → All (λ c. c ≢ 0) (ones n)
ones-nonzero zero = tt
ones-nonzero (suc n) = ((λ e. absurd (omega (arith, e))), ones-nonzero n)

abbrev pub one_node : List (Node ℕ)
one_node = record { key_slot = 1; handle = shared_key; owner = 9; token = ones 31 ++ 0 ∷ [] } ∷ []

pub one_node-IsToken : All IsTokenNode one_node
one_node-IsToken =
    (record { text = ones 31; terminated = refl; size = refl; nonzero = ones-nonzero 31 }, tt)

abbrev pub client : Context
client = record { addr = 9; chan = 4; uuid = 1 }

abbrev pub reader : Context
reader = record { addr = 10; chan = 5; uuid = 2 }

abbrev pub fake : Device ℕ
fake = fake_device (λ w. true)

abbrev IsNine : ℕ → Type 0
IsNine a = a ≡ 9

one_node-IsValid : IsValid IsNine one_node
one_node-IsValid = record { tokens = one_node-IsToken; distinct = (tt, tt); owners = (refl, tt) }

get_opaque_key-eq-first_example :
    get_opaque_key 2 (ones 31 ++ 0 ∷ 3 ∷ []) one_node (0 ∷ 0 ∷ 0 ∷ []) 0 0
    ≡ ok (record { status = no_error; kbuf = 5 ∷ 6 ∷ 0 ∷ []; klen = 2 }, 0)
unfolding first_reader names_token is_allowed_to_read_opaque_key contains
get_opaque_key-eq-first_example =
    get_opaque_key-eq-first 2 (ones 31) (3 ∷ []) one_node (0 ∷ 0 ∷ 0 ∷ []) 0 0 one_node-IsToken

handle_slots-eq-lookup_example :
    handle_slots fake 1 client one_node (replicate 32 0) 0 (107 ∷ 0 ∷ 3 ∷ []) (some two_slots) 0
    ≡ ok (record { status = no_error; kbuf = 5 ∷ 6 ∷ replicate 30 0; klen = 2 }, one_node, 0)
unfolding lookup_key find_slot serve is_served is_named
handle_slots-eq-lookup_example =
    handle_slots-eq-lookup fake 1 client one_node (replicate 32 0) 0 (107 ∷ []) (3 ∷ []) two_slots 0
      one_node-IsToken (omega arith)

call_handler-eq-grant_example :
    call_handler fake 1 client [] (replicate 32 0) 0 1 (key_handle shared_key) 0
    ≡ grant fake 1 client [] (replicate 32 0) 0 1 shared_key 0
call_handler-eq-grant_example =
    call_handler-eq-grant fake 1 client [] (replicate 32 0) 0 1 shared_key 0 tt (omega arith)

handle_slots-IsValid_example :
    Ensures
      (λ r. IsValid IsNine r.1)
      (handle_slots fake 1 client one_node (replicate 32 0) 0 (104 ∷ 0 ∷ []) (some two_slots) 0)
handle_slots-IsValid_example =
    handle_slots-IsValid IsNine fake 1 client one_node (replicate 32 0) 0 one_node-IsValid refl
      (omega arith) (104 ∷ 0 ∷ []) (some two_slots) 0

handle_slots-tidy_example :
    Returns
      (λ r. IsTidyOut (replicate 2048 0) r.0 × All IsTidyNode r.1)
      (handle_slots fake 1 client one_node (replicate 2048 0) 0 (104 ∷ 0 ∷ []) (some two_slots) 0)
handle_slots-tidy_example =
    handle_slots-tidy fake 1 client one_node (replicate 2048 0) 0 one_node-IsToken
      (two_bytes-IsTidy, tt) (length-replicate {A = ℕ} 2048 0) (omega arith)
      (fake-Delivers (λ w. true) 0) (104 ∷ 0 ∷ []) (some two_slots) 0
      (two_bytes-IsTidy, (two_bytes-IsTidy, tt))

find-delete_owned_example : find_opaque_handle_for_slot 1 (delete_owned 9 one_node) ≡ none
unfolding find_opaque_handle_for_slot
find-delete_owned_example = find-delete_owned 9 1 one_node (tt, tt)

make_token-IsToken_example : IsToken (overlay (chosen (fill_from 34 1).0) (replicate 32 0))
unfolding hwrng_dev_get_rng_data
make_token-IsToken_example = make_token-IsToken fake 1 (replicate 32 0) 1 new-IsRoom (
    make_token-ends fake 0 (replicate 32 0) 1 new-IsRoom refl
      (omega (arith, fill_from-nonzero 34 1 (omega arith))))

make_token_fake_example :
    Returns
      (λ r. (t' : List ℕ) × (r.0 ≡ made t') × IsToken t')
      (make_token fake 1 (replicate 32 0) 250)
make_token_fake_example = make_token_fake (λ w. true) 0 (replicate 32 0) 250 new-IsRoom

-- The fake device, from the counter 0 on, gives the token 1, 2, ..., 31, 0.
abbrev pub first_token : List ℕ
first_token =
    1 ∷ 2 ∷ 3 ∷ 4 ∷ 5 ∷ 6 ∷ 7 ∷ 8 ∷ 9 ∷ 10 ∷ 11 ∷ 12 ∷ 13 ∷ 14 ∷ 15 ∷ 16 ∷ 17 ∷ 18 ∷ 19 ∷ 20 ∷ 21
    ∷ 22 ∷ 23 ∷ 24 ∷ 25 ∷ 26 ∷ 27 ∷ 28 ∷ 29 ∷ 30 ∷ 31 ∷ 0 ∷ []

make_first_token : make_token fake 1 (replicate 32 0) 0 ≡ ok (made first_token, 34)
unfolding chosen nonzero_bytes fill_from hwrng_dev_get_rng_data
make_first_token =
    make_token-ends fake 0 (replicate 32 0) 0 new-IsRoom refl
      (omega (arith, fill_from-nonzero 34 0 (omega arith)))

abbrev pub owned_by_client : List (Node ℕ)
owned_by_client = record { key_slot = 1; handle = shared_key; owner = 9; token = first_token } ∷ []

-- The client asks for its opaque key.
pub first_lookup :
    (kbuf : List ℕ)
    → lookup_key fake 1 client [] kbuf 0 (104 ∷ []) two_slots 0
      ≡ ok (
        record { status = no_error; kbuf = overlay first_token kbuf; klen = 32 },
        owned_by_client,
        34,
      )
unfolding lookup_key find_slot serve is_served is_named grant granted find_opaque_handle_for_slot
first_lookup kbuf = rw make_first_token refl

pub find_slot-client : find_slot client (104 ∷ []) 0 two_slots ≡ some (1, key_handle shared_key)
unfolding find_slot is_served is_named
find_slot-client = refl

pub find_slot-reader : find_slot reader first_token 0 two_slots ≡ none
unfolding find_slot is_served is_named
find_slot-reader = refl
