-- ===== src/Keybox/Service/Requests.antt =====
-- The answer to a request, whatever its content is.
use trusty_app_sample.Common.{
  List, ap, arith, bit_or, dec_lt, drop, if◌then◌else◌, inl, length, length-map, length-take, map,
  negsuc, none, not, ok, overlay, pos, refl, size_sub, some, take, take-length_append, ℕ, ℤ, ◌+◌,
  ◌-◌, ◌<◌, ◌==◌, ◌^◌, ◌||◌, ◌∙◌, ◌≡◌, ◌≤◌,
}
use trusty_app_sample.Keybox.Unwrap.{
  internal_error, invalid_request, keybox_unwrap, success, unwrap_fail,
}
use trusty_app_sample.Keybox.Unwrap.Spec.{mask, xor_all}
use trusty_app_sample.Keybox.Unwrap.Laws.{keybox_unwrap-eq-outcome, keybox_unwrap-invalid, outcome}
use trusty_app_sample.Keybox.Service.{
  Interface, Message, Received, UnwrapReq, full_req_size, header, keybox_handle_msg,
  keybox_handle_unwrap, status_of, unwrapped,
}

-- The answer to `n` bytes that follow the command, of which the first are the length field: a
-- specification that mentions neither loops nor buffers.
unfoldable pub unwrap_reply : Interface → UnwrapReq → ℕ → Message
unwrap_reply k req n =
    let len = req.wrapped_keybox_len in
    let cmd = bit_or k.cmd_unwrap k.rsp_bit in
    let m = take len req.wrapped_keybox in
    if not (n == k.unwrap_req_size + len) || len == 0
    then header cmd invalid_request
    else if xor_all m == 0
    then unwrapped cmd success (len - 1) (map mask (take (len - 1) m))
    else header cmd unwrap_fail

module _ (k : Interface) (send : Message → ℤ) (output : List ℕ) (req : UnwrapReq) where
  -- What `keybox_unwrap` does with the request's bytes, when their number fits.
  unwrapped_lem :
      length output ≡ k.max_size
      → length req.wrapped_keybox ≡ k.max_size
      → 0 < req.wrapped_keybox_len
      → req.wrapped_keybox_len ≤ k.max_size
      → keybox_unwrap req.wrapped_keybox req.wrapped_keybox_len output k.max_size 0
        ≡ ok (outcome (take req.wrapped_keybox_len req.wrapped_keybox) output 0)
  unwrapped_lem ho hw p h = rw (← ho) (
      keybox_unwrap-eq-outcome req.wrapped_keybox output req.wrapped_keybox_len 0 p (omega arith)
        (omega arith))

  empty_lem :
      length output ≡ k.max_size
      → req.wrapped_keybox_len ≡ 0
      → keybox_unwrap req.wrapped_keybox req.wrapped_keybox_len output k.max_size 0
        ≡ ok (record { status = invalid_request; plaintext = output; plaintext_len = 0 })
  empty_lem ho z =
      rw (← ho) (keybox_unwrap-invalid req.wrapped_keybox output req.wrapped_keybox_len 0 (inl z))

  -- The payload is the start of the output buffer, so what the stack held is not sent.
  payload_lem :
      (m : List ℕ) (len : ℕ)
      → length m ≡ len
      → take (len - 1) (overlay (map mask (take (length m - 1) m)) output)
        ≡ map mask (take (len - 1) m)
  payload_lem m len e =
      let body = map mask (take (len - 1) m) in
      let l : len - 1 ≡ length body =
        omega (arith, length-map (take (len - 1) m) mask, length-take (len - 1) m) in
      rw e (
        ap (λ k. take k (overlay body output)) l
        ∙ take-length_append body (drop (length body) output))

  -- For every request that fits the receive buffer, `keybox_handle_unwrap` sends the specified
  -- answer. It is not stopped, so no byte outside a buffer is read or written.
  pub keybox_handle_unwrap-eq-reply :
      (n : ℕ)
      → length output ≡ k.max_size
      → length req.wrapped_keybox ≡ k.max_size
      → n ≤ k.unwrap_req_size + k.max_size
      → n < 2 ^ 64
      → keybox_handle_unwrap k send output req n
        ≡ ok (send (unwrap_reply k req n), unwrap_reply k req n)
  unfolding keybox_handle_unwrap unwrap_reply
  keybox_handle_unwrap-eq-reply n ho hw h w = elim (dec_lt 0 req.wrapped_keybox_len) [
    | no z ↦ ground (arith, empty_lem ho (omega arith))
    | yes p ↦ elim (dec_lt k.max_size req.wrapped_keybox_len) [
      | yes over ↦ ground arith
      | no fits ↦ ground (
        arith,
        unwrapped_lem ho hw p (omega arith),
        payload_lem (take req.wrapped_keybox_len req.wrapped_keybox) req.wrapped_keybox_len
            (omega (arith, length-take req.wrapped_keybox_len req.wrapped_keybox)),
        length-take req.wrapped_keybox_len req.wrapped_keybox,
      )
    ]
  ]

-- What `tipc_recv1` promises for the buffer `req`: at least a header, and no more than the buffer.
pub record IsReceived (k : Interface) (r : Received) (n : ℕ) : Type 0 where
  pub count : r.rc ≡ pos n
  pub at_least : k.req_size ≤ n
  pub at_most : n ≤ full_req_size k
  pub buffer : length r.unwrap.wrapped_keybox ≡ k.max_size

-- The answer to a request of `n` bytes, by its command.
abbrev pub reply : Interface → Received → ℕ → Message
reply k r n =
    if r.cmd == k.cmd_unwrap
    then unwrap_reply k r.unwrap (n - k.req_size)
    else header (bit_or r.cmd k.rsp_bit) invalid_request

-- Every message that is received is answered by exactly one message, the specified one, with no
-- fault, and the handler fails exactly if that message cannot be sent.
pub keybox_handle_msg-eq-reply :
    (k : Interface) (send : Message → ℤ) (output : List ℕ) (r : Received) (n : ℕ)
    → length output ≡ k.max_size
    → full_req_size k < 2 ^ 64
    → IsReceived k r n
    → keybox_handle_msg k send output r
      ≡ ok (status_of k send (send (reply k r n)), some (reply k r n))
unfolding keybox_handle_msg
keybox_handle_msg-eq-reply k send output r n ho w v =
    let size : size_sub n k.req_size ≡ n - k.req_size = omega (arith, v.at_least, v.at_most, w) in
    let handled =
      keybox_handle_unwrap-eq-reply k send output r.unwrap (n - k.req_size) ho v.buffer
        (omega (arith, v.at_most)) (omega (arith, v.at_most, w)) in
    ground (arith, v.count, size, handled)

-- A receive that fails is not answered.
pub keybox_handle_msg_failed :
    (k : Interface) (send : Message → ℤ) (output : List ℕ) (r : Received) (e : ℕ)
    → r.rc ≡ negsuc e
    → keybox_handle_msg k send output r ≡ ok (internal_error, none)
unfolding keybox_handle_msg
keybox_handle_msg_failed k send output r e failed = rw (failed, keybox_handle_msg) refl
