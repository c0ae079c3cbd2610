-- ===== src/Hwaes/Tests.antt =====
-- The AES service at small sizes.
use trusty_app_sample.Common.{List, [], length, none, pos, replicate, some, true, ℕ, ◌∷◌}
use trusty_app_sample.Hwaes.{Arg, Args, Evp, KeyService, gcm, opaque_handle}

-- A key service with a key of 16 zero bytes, and a cipher library that gives the text back.
abbrev one_key : KeyService ℕ
one_key = record {
  connect = λ w. (pos 1, w);
  get_keyslot_data = λ session name buf len w. (pos 0, buf, 16, w);
  disconnect = λ session w. w;
}

abbrev plain_evp : Evp ℕ
plain_evp = record {
  reset = λ w. w;
  cipher_init = λ c key iv encrypt w. (true, w);
  block_size = λ w. 1;
  iv_length = λ w. 2;
  set_padding = λ w. (true, w);
  update_aad = λ data_ w. (true, w);
  set_tag = λ tag w. (true, w);
  update = λ text w. (true, text, w);
  final = λ w. (true, w);
  get_tag = λ n w. (true, replicate n 0, w);
}

abbrev arg : List ℕ → Arg
arg bs = record { data_ptr = some bs; len = length bs }

abbrev missing : Arg
missing = record { data_ptr = none; len = 0 }

abbrev request : Args
request = record {
  no_padding = true;
  key = arg (104 ∷ 0 ∷ []);
  key_type = opaque_handle;
  iv = arg (0 ∷ 0 ∷ []);
  aad = missing;
  text_in = arg (7 ∷ 8 ∷ []);
  text_out = arg (0 ∷ 0 ∷ []);
  tag_in = missing;
  tag_out = arg (0 ∷ []);
  mode = gcm;
  encrypt = true;
}
