-- ===== src/Hwrng/Fake/Tokens.antt =====
-- The token loop of the key service over the fake device.
use trusty_app_sample.Common.{Bool, List, Returns, Returns-map, arith, refl, suc, ℕ, ◌≡◌}
use trusty_app_sample.Hwkey.Model.{Device}
use trusty_app_sample.Hwkey.Token.{made, make_token}
use trusty_app_sample.Hwkey.Token.Laws.{IsRoom, IsToken, make_token-IsToken, make_token-ends}
use trusty_app_sample.Hwkey.Handles.Tidy.{Delivers}
use trusty_app_sample.Hwrng.Fake.{hwrng_dev_get_rng_data}
use trusty_app_sample.Hwrng.Fake.Laws.{fill_from-nonzero}

-- The device for a world that is the counter, with an allocator.
abbrev pub fake_device : (ℕ → Bool) → Device ℕ
fake_device free_memory = record {
  get_rng_data = hwrng_dev_get_rng_data;
  calloc = λ w. (free_memory w, w);
}

-- Over the fake device the `while (1)` loop ends in its first round, from every value of the
-- counter, and its result is a token: of 34 bytes in a row at least 33 are not 0.
pub make_token_fake :
    (free_memory : ℕ → Bool) (fuel : ℕ) (t : List ℕ) (counter : ℕ)
    → IsRoom t
    → Returns
        (λ r. (t' : List ℕ) × (r.0 ≡ made t') × IsToken t')
        (make_token (fake_device free_memory) (suc fuel) t counter)
unfolding hwrng_dev_get_rng_data
make_token_fake free_memory fuel t counter r =
    let dev = fake_device free_memory in
    let e =
      make_token-ends dev fuel t counter r refl
        (omega (arith, fill_from-nonzero 34 counter (omega arith))) in
    rw e (_, refl, make_token-IsToken dev (suc fuel) t counter r e)

pub fake-Delivers :
    (free_memory : ℕ → Bool) (fuel : ℕ) → Delivers (fake_device free_memory) (suc fuel)
fake-Delivers free_memory fuel t w r =
    Returns-map _ _ _ (make_token_fake free_memory fuel t w r) (λ a h. tt)
