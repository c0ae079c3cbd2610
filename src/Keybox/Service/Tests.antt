-- ===== src/Keybox/Service/Tests.antt =====
-- The service at small sizes.
use trusty_app_sample.Common.{
  Event, List, [], arith, no_event, ok, pos, refl, some, true, ℕ, ◌∷◌, ◌≡◌,
}
use trusty_app_sample.Keybox.Unwrap.{success}
use trusty_app_sample.Keybox.Unwrap.Spec.{xor_all}
use trusty_app_sample.Keybox.Service.{
  Interface, Received, freed, keybox_chan_handler, keybox_handle_msg, live, unwrapped,
}
use trusty_app_sample.Keybox.Service.Requests.{IsReceived, keybox_handle_msg-eq-reply, unwrap_reply}
use trusty_app_sample.Keybox.Service.Channels.{keybox_chan_handler_cases}

abbrev sizes : Interface
sizes = record { max_size = 4; req_size = 4; unwrap_req_size = 8; cmd_unwrap = 2; rsp_bit = 1 }

abbrev stack : List ℕ
stack = 7 ∷ 7 ∷ 7 ∷ 7 ∷ []

abbrev request : Received
request = record {
  rc = pos 15;
  cmd = 2;
  unwrap = record { wrapped_keybox_len = 3; wrapped_keybox = 0x43 ∷ 0x40 ∷ 0x03 ∷ 0 ∷ [] };
}

request-IsReceived : IsReceived sizes request 15
request-IsReceived = record {
  count = refl;
  at_least = omega arith;
  at_most = omega arith;
  buffer = refl;
}

keybox_handle_msg-eq-reply_example :
    keybox_handle_msg sizes (λ m. pos 0) stack request
    ≡ ok (success, some (unwrapped 3 success 2 (1 ∷ 2 ∷ [])))
unfolding unwrap_reply xor_all
keybox_handle_msg-eq-reply_example =
    keybox_handle_msg-eq-reply sizes (λ m. pos 0) stack request 15 refl (omega arith)
      request-IsReceived

abbrev last_words : Event
last_words = record no_event { hup = true; msg = true }

keybox_chan_handler_cases_example :
    keybox_chan_handler (λ ev. ok tt) (ok success) (record no_event { hup = true }) live ≡ ok freed
keybox_chan_handler_cases_example =
    keybox_chan_handler_cases (λ ev. ok tt) (ok success) (record no_event { hup = true }) success
      refl refl
