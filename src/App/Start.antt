-- ===== src/App/Start.antt =====
-- The application hwcrypto/main.c from its start on, with the fake provider of keys.
use trusty_app_sample.Common.{Run, ok, ◌>>=◌}
use trusty_app_sample.Hwkey.Provider.Keys.{Platform, hwkey_init_srv_provider}
use trusty_app_sample.App.{App}

-- hwkey_init_srv_provider on the key service of the application.
unfoldable pub init_provider : {W : Type 0} → Platform W → App W → Run (App W)
init_provider p s = hwkey_init_srv_provider p s.key >>= λ t. ok (record s { key = t })
