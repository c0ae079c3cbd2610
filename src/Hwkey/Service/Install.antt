-- ===== src/Hwkey/Service/Install.antt =====
-- The installation of the key slots keeps the key service sound.
use trusty_app_sample.Common.{List, Returns, arith, length, ltb, none, some, true, ◌<◌, ◌≡◌}
use trusty_app_sample.Hwkey.Model.{Keyslot}
use trusty_app_sample.Hwkey.Handles.Tidy.{AreTidySlots}
use trusty_app_sample.Hwkey.Service.{Server, hwkey_install_keys}
use trusty_app_sample.Hwkey.Service.Invariant.{IsSound}

module _ {W : Type 0} where
  with_slots :
      (s : Server W) (keys : List (Keyslot W))
      → IsSound s
      → AreTidySlots (some keys)
      → IsSound (record s { key_slots = some keys })
  with_slots s keys v t = record {
    handles = v.handles;
    nodes = v.nodes;
    slots = t;
    key_size = v.key_size;
    req_size = v.req_size;
    clean = v.clean;
  }

  pub hwkey_install_keys-IsSound :
      (keys : List (Keyslot W)) (s : Server W)
      → s.key_slots ≡ none
      → 0 < length keys
      → IsSound s
      → AreTidySlots (some keys)
      → Returns IsSound (hwkey_install_keys keys s)
  unfolding hwkey_install_keys
  hwkey_install_keys-IsSound keys s first some_keys v t =
      let fits : ltb 0 (length keys) ≡ true = ground arith in
      rw (first, fits) (with_slots s keys v t)
