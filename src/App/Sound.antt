-- ===== src/App/Sound.antt =====
-- The event loop of hwcrypto/main.c keeps the key service and the random number service sound and is
-- stopped by nothing but the double free of keybox/srv.c, whatever the order of the events.
use trusty_app_sample.Hwkey.Service.{Server as KeyServer}
use trusty_app_sample.Keybox.Service.{Context as BoxContext, Received as BoxReceived}
use trusty_app_sample.App.{App}
use trusty_app_sample.Hwrng.Service.{Server as RngServer}
use trusty_app_sample.Keybox.Unwrap.{Status as BoxStatus}
use trusty_app_sample.App.Fits.{Fits}
