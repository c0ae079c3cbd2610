-- ===== src/AppMgmt/Client.antt =====
-- app-mgmt-test/client/main.c: loading an application, and the steps of the tests on port-start-srv.
-- The system calls and the libraries are parameters over a state `W`.
pub mod Fixture
pub mod Boot
pub mod Held
pub mod Loading
use trusty_app_sample.Common.{
  Bool, Event, bit_or, false, if◌then◌else◌, is_neg, is_zero, ltb, negsuc, not, pos, true, ℕ, ℤ,
  ◌&&◌, ◌==◌, ◌||◌,
}
use trusty_app_sample.AppMgmt.Ledger.{Ledger, close, hold}

-- The ports that the client connects to.
pub data Port : Type 0 where
  apploader_port start_port ctrl_port shutdown_port : Port
  never_start_port boot_start_port restart_port start_fail_port port_waiter_port : Port

-- The system calls, by what they return. A handle that `connect` and `memref_create` give is new.
-- The numbers of the loader's interface and the sizes of its messages are fields.
pub record Sys (W : Type 0) : Type 0 where
  pub connect : Port → (is_async wait_for_port : Bool) → W → ℤ × W
  pub wait : (chan : ℤ) → (is_bounded : Bool) → W → ℤ × Event × W
  pub send1 : (chan : ℤ) → (cmd : ℕ) → W → ℤ × W
  pub recv1 : (chan : ℤ) → W → ℤ × ℕ × W
  pub send_request : (chan : ℤ) → (cmd package_size : ℕ) → (memref : ℤ) → W → ℤ × W
  pub get_msg : (chan : ℤ) → W → ℤ × ℕ × W
  pub read_msg : (chan : ℤ) → W → ℤ × (cmd : ℕ) × (error : ℕ) × W
  pub put_msg : (chan : ℤ) → W → W
  pub memref_create : (size : ℕ) → W → ℤ × W
  pub nanosleep : W → W
  pub round_up : ℕ → ℕ
  pub load_cmd : ℕ
  pub resp_bit : ℕ
  pub err_timed_out : ℤ
  pub request_size : ℕ
  pub resp_size : ℕ
  pub no_error : ℕ
  pub already_exists : ℕ
  pub verification_failed : ℕ
  pub loading_unlocked : W → Bool × W

-- `CMD_*` and `RSP_OK`
abbrev pub cmd_close_port : ℕ
cmd_close_port = 1

abbrev pub cmd_exit : ℕ
cmd_exit = 2

abbrev pub cmd_open_port : ℕ
cmd_open_port = 3

abbrev pub rsp_ok : ℕ
rsp_ok = 0

-- `INVALID_IPC_HANDLE`
abbrev pub invalid_handle : ℤ
invalid_handle = negsuc 0

pub data ChanIdx : Type 0 where
  main_chan pend_chan wait_chan : ChanIdx

-- The three handles of `AppMgrPortStart_t`.
pub record Chans : Type 0 where
  pub main : ℤ
  pub pend : ℤ
  pub waiting : ℤ

abbrev pub chan_at : ChanIdx → Chans → ℤ
chan_at main_chan cs = cs.main
chan_at pend_chan cs = cs.pend
chan_at wait_chan cs = cs.waiting

abbrev pub set_chan : ChanIdx → ℤ → Chans → Chans
set_chan main_chan h cs = record cs { main = h }
set_chan pend_chan h cs = record cs { pend = h }
set_chan wait_chan h cs = record cs { waiting = h }

-- A test as it runs: `HasFailure`, the handles, `_state` and the world.
pub record Test (W : Type 0) : Type 0 where
  pub failed : Bool
  pub ledger : Ledger
  pub chans : Chans
  pub world : W

abbrev pub hold_new : ℤ → Ledger → Ledger
hold_new (pos h) l = hold h l
hold_new (negsuc e) l = l

-- `close` gives an error for a handle that is none, which is not looked at.
abbrev pub close_handle : ℤ → Ledger → Ledger
close_handle (pos h) l = close h l
close_handle (negsuc e) l = l

abbrev pub is_positive : ℤ → Bool
is_positive (pos n) = ltb 0 n
is_positive (negsuc e) = false

abbrev pub eq_pos : ℤ → ℕ → Bool
eq_pos (pos m) n = m == n
eq_pos (negsuc e) n = false

abbrev pub eq_handle : ℤ → ℤ → Bool
eq_handle (pos m) (pos n) = m == n
eq_handle (negsuc m) (negsuc n) = m == n
eq_handle _ _ = false

module _ {W : Type 0} where
  -- A failed assertion.
  abbrev pub fail : Test W → Test W
  fail t = record t { failed = true }

  abbrev pub close_chan : ℤ → Test W → Test W
  close_chan h t = record t { ledger = close_handle h t.ledger }

  -- Whether the assertions of a part that only talks have held, and the world after it.
  abbrev pub settle : Bool × W → Test W → Test W
  settle (good, w) t = record t { failed = not good; world = w }

  module _ (sys : Sys W) where
    pub open_chan : Port → (is_async wait_for_port : Bool) → Test W → ℤ × Test W
    open_chan port is_async wait_for_port t =
        let (rc, w) = sys.connect port is_async wait_for_port t.world in
        (rc, record t { ledger = hold_new rc t.ledger; world = w })

    pub port_start_srv_running : Test W → Bool × Test W
    unfolding open_chan
    port_start_srv_running t =
        let (rc, t') =
          open_chan ctrl_port true false (record t { world = sys.nanosleep t.world }) in
        (not (is_neg rc), close_chan rc t')

    -- The assertions of `chan_send_cmd`.
    pub talk : (chan : ℤ) → (cmd : ℕ) → W → Bool × W
    talk chan cmd w =
        let (sent, w₁) = sys.send1 chan cmd w in
        let (rc, ev, w₂) = sys.wait chan false w₁ in
        let (size, rsp, w₃) = sys.recv1 chan w₂ in
        if not (eq_pos sent 1)
        then (false, w₁)
        else if not (is_zero rc && ev.msg)
        then (false, w₂)
        else (eq_pos size 1 && rsp == rsp_ok, w₃)

    pub chan_send_cmd : (chan : ℤ) → (cmd : ℕ) → Test W → Test W
    unfolding talk
    chan_send_cmd chan cmd t = if t.failed then t else settle (talk chan cmd t.world) t

    pub send_apploader_request :
        (chan : ℤ) → (cmd package_size : ℕ) → (memref : ℤ) → Test W → Test W
    send_apploader_request chan cmd package_size memref t =
        let (rc, w) = sys.send_request chan cmd package_size memref t.world in
        if t.failed then t else settle (eq_pos rc sys.request_size, w) t

    -- The error of the response, whether the assertions have held, and the world.
    pub read_apploader_response : (chan : ℤ) → (cmd len : ℕ) → W → ℕ × Bool × W
    read_apploader_response chan cmd len w =
        let (rc, resp_cmd, error, w') = sys.read_msg chan w in
        if not (len == sys.resp_size)
        then (0, false, w)
        else if not (eq_pos rc sys.resp_size && resp_cmd == bit_or cmd sys.resp_bit)
        then (0, false, w')
        else (error, true, w')

    -- `put_msg` follows the read also if an assertion of it has failed.
    pub recv_apploader_response : (chan : ℤ) → (cmd : ℕ) → Test W → ℕ × Test W
    unfolding read_apploader_response
    recv_apploader_response chan cmd t =
        let (rc, ev, w₁) = sys.wait chan false t.world in
        let (got, len, w₂) = sys.get_msg chan w₁ in
        let (error, good, w₃) = read_apploader_response chan cmd len w₂ in
        if t.failed
        then (0, t)
        else if not (is_zero rc && ev.msg)
        then (0, settle (false, w₁) t)
        else if not (is_zero got)
        then (0, settle (false, w₂) t)
        else (error, settle (good, sys.put_msg chan w₃) t)

    -- `load_app` behind `memref_create`, up to the closing of both handles.
    pub exchange_load : (chan memref : ℤ) → (app_size : ℕ) → Test W → ℕ × Test W
    unfolding send_apploader_request recv_apploader_response
    exchange_load chan memref app_size t =
        let t₁ = send_apploader_request chan sys.load_cmd app_size memref t in
        let (error, t₂) = recv_apploader_response chan sys.load_cmd t₁ in
        if t₁.failed
        then (0, fail t₁)
        else if t₂.failed
        then (0, fail t₂)
        else if error == sys.no_error
        then (error, record t₂ { world = sys.nanosleep t₂.world })
        else (error, t₂)

    pub load_app : (app_size : ℕ) → Test W → ℕ × Test W
    unfolding open_chan exchange_load
    load_app app_size t =
        let (chan, t₁) = open_chan apploader_port false true t in
        let (memref, w) = sys.memref_create (sys.round_up app_size) t₁.world in
        let t₂ = record t₁ { ledger = hold_new memref t₁.ledger; world = w } in
        let (error, t₃) = exchange_load chan memref app_size t₂ in
        if not (is_positive chan)
        then (0, fail t₁)
        else if not (is_positive memref)
        then (0, close_chan chan (fail t₂))
        else (error, close_chan chan (close_chan memref t₃))

    -- `error == APPLOADER_NO_ERROR || error == APPLOADER_ERR_ALREADY_EXISTS`
    abbrev pub is_loaded : ℕ → Bool
    is_loaded error = error == sys.no_error || error == sys.already_exists
