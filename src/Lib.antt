-- ===== src/Lib.antt =====
-- The Trusty sample applications: the crypto service (keybox, key and random number services in one
-- event loop), the AES service, the software SPI driver and its test, the memory reference test,
-- the application management test with its servers, and the mock of the secure framebuffer.
--
-- The parts and their files, with the sources from the root of the repository:
--
-- Common: helpers. `Common/Faults` is the result of a C function that may stop the program, and every
--   model uses it: `ok` is a return, `fault` a failed assertion or an undefined access.
-- Keybox: hwcrypto/keybox. `Keybox/Unwrap` is `keybox_unwrap` of keybox.c; `Keybox/Service` is srv.c:
--   `keybox_handle_unwrap`, `keybox_handle_msg` and the event handlers.
-- Hwkey: hwcrypto/hwkey_srv.c and hwkey_srv_priv.h. `Hwkey/Token` is `is_empty_token` and the loop of
--   `get_key_handle`; `Hwkey/Handles` the list of opaque handles and `_handle_slots`;
--   `Hwkey/Derived` is `hwkey_get_derived_key`; `Hwkey/Service` the commands, the event handlers and
--   the static variables; `Hwkey/Service/Session` is about the life of an access token over several
--   requests. `Hwkey/Provider` is hwcrypto/hwkey_srv_fake_provider.c, whose
--   `derive_key_v1` and key slots the service calls; the tables of the slots and of the clients are
--   in `Hwkey/Provider/Keys`, where `Build` is the choice of macros that they are built with.
-- Hwrng: `Hwrng/Service` is hwcrypto/hwrng_srv.c, and `Hwrng/Fake` is
--   hwcrypto/hwrng_srv_fake_provider.c, from which the key service takes the bytes of its tokens.
--   `Hwrng/Service/Account` keeps the account of each channel, `Hwrng/Service/Events`, `Requests` and
--   `Hwrng/Service/Runs` carry it through the handlers, and `Hwrng/Service/Contract` is about runs.
-- Hwaes: hwaes/main.c, which asks the key service for opaque keys.
-- App: hwcrypto/main.c. `dispatch_event`, the event loop and the start; `invoke` runs the handlers of
--   Keybox, Hwkey and Hwrng on one state, whose device and allocator they share. `App/Fits` says which
--   events the library can give, and `App/Sound` is about every order of them; `App/Start` starts the
--   fake provider of keys.
-- Memref: `Memref/Lender` is memref-test/lender/lender.c, `Memref/Client` the functions of
--   memref-test/memref-test.c that its test cases call, `Memref/Receiver` memref-test/receiver. The
--   client and the lender run together in `Memref/Link`, over a channel that is a parameter.
-- AppMgmt: `AppMgmt/PortStart` and `AppMgmt/PortWaiter` are app-mgmt-test/port-start-srv and
--   port-waiter-srv, with the handles that they open and close; `AppMgmt/Client` is app-mgmt-test/client,
--   whose fixture and its tests are in `AppMgmt/Client/Fixture`, and the other tests in
--   `AppMgmt/Client/Boot`; `AppMgmt/BootStart` and `AppMgmt/Small` are the small servers.
-- SecureFb: secure_fb_mock_impl/main.cpp, with the calls that its set-up and its release make.
-- Spi: `Spi/Driver` is spi/swspi-srv/driver/swspi.c and swspi.h, `Spi/Client` the transfer of
--   spi/swspi-test/swspi-test.c, with what the test expects of the driver, over a client library that
--   is a parameter.
--
-- State is passed explicitly: a C list is a `List`, a context is known by its address, and a function
-- that mutates returns the new state. Libraries outside the repository (tipc, OpenSSL, the allocator,
-- the system calls) are arguments with a state of their own; what is relied on is a hypothesis.
--
-- Bounds: `size_t` has 64 bits. A key buffer of the key service has 2048 bytes, and a request buffer
-- one more. The token loop of `get_key_handle` runs on fuel, one unit a round; over the fake device one
-- round is enough. All other loops are structural recursion on the buffer or the list. An event
-- loop recurs on the list of the events that come, so that a theorem about it is about every finite
-- run.
--
-- Not modelled: logging; the contents of the key files that the build includes; the test
-- cases of memref-test, swspi-test and the unit tests, and the samples without state.
pub mod Common
pub mod Keybox
pub mod Hwkey
pub mod Hwrng
pub mod Spi
pub mod Hwaes
pub mod Memref
pub mod App
pub mod AppMgmt
pub mod SecureFb
