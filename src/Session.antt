-- ===== src/Session.antt =====
-- src/transport/hdlc_session.c and hdlc_session.h: the HDLC link-layer session. The transport, the
-- clock and the callbacks are the application's: `Host` is what the session calls of them, on a
-- state W of their own.
pub mod Timeout
pub mod Xid
pub mod Line
pub mod Send
pub mod Invariant
pub mod Receive
pub mod Wait
pub mod Delivery
use openspodes.Prelude.{ℕ, ◌+◌, Bool, true, false, List, [], length, if◌then◌else◌, ◌==◌}
use openspodes.Err.{Call, Outcome, ok, err}
use openspodes.Transport.Address.{HdlcAddress, hdlc_address_init}
use openspodes.Session.Xid.{XidParams}

pub data SessionState : Type 0 where
  idle connecting connected disconnecting : SessionState

pub data TimeoutKind : Type 0 where
  inter_octet inter_frame : TimeoutKind

-- `osp_transport_t`, the callbacks of the session, and the clock, which is read to a value.
pub record Host (W : Type 0) : Type 0 where
  pub open_line : Call W (Unit {0})
  pub close_line : W → W
  pub send_line : List ℕ → Call W (Unit {0})
  pub recv_line : ℕ → ℕ → Call W (List ℕ)
  pub now_ms : W → ℕ × W
  pub state_changed : SessionState → SessionState → W → W
  pub timed_out : TimeoutKind → ℕ → W → W

-- `osp_hdlc_session_t`: the arrays are kept as their octets in use, so `last_sent_info`,
-- `reassembly` and `rx` stand for a length too; `tx_buf` is written anew by each call that uses it.
pub record Session : Type 0 where
  pub client_addr : HdlcAddress
  pub server_addr : HdlcAddress
  pub received_client_addr : HdlcAddress
  pub is_client : Bool
  pub state : SessionState
  pub send_seq : ℕ
  pub recv_seq : ℕ
  pub xid_configured : XidParams
  pub xid : XidParams
  pub inter_octet_timeout_ms : ℕ
  pub inactivity_timeout_s : ℕ
  pub last_sent_info : List ℕ
  pub last_sent_seq : ℕ
  pub has_pending_retransmit : Bool
  pub max_retransmits : ℕ
  pub reassembly : List ℕ
  pub rx : List ℕ

pub record Machine (W : Type 0) : Type 0 where
  pub session : Session
  pub world : W

abbrev pub init_session : Bool → ℕ → ℕ → ℕ → Session
init_session is_client client server max_info =
    let ceiling : XidParams = record {
      max_info_tx = max_info;
      max_info_rx = max_info;
      window_tx = 1;
      window_rx = 1;
    } in
    record {
      client_addr = hdlc_address_init client;
      server_addr = hdlc_address_init server;
      received_client_addr = [];
      is_client = is_client;
      state = idle;
      send_seq = 0;
      recv_seq = 0;
      xid_configured = ceiling;
      xid = ceiling;
      inter_octet_timeout_ms = 25;
      inactivity_timeout_s = 120;
      last_sent_info = [];
      last_sent_seq = 0;
      has_pending_retransmit = false;
      max_retransmits = 3;
      reassembly = [];
      rx = [];
    }

-- The state is already idle, so no callback is made.
unfoldable pub init_client : ℕ → ℕ → Session
init_client client_addr server_addr = init_session true client_addr server_addr 1280

unfoldable pub init_server : ℕ → ℕ → Session
init_server server_addr client_addr = init_session false client_addr server_addr 512

abbrev pub state_code : SessionState → ℕ
state_code idle = 0
state_code connecting = 1
state_code connected = 2
state_code disconnecting = 3

-- `if (s->state == new_state) return;`, else the callback hears of it.
unfoldable pub set_state : {W : Type 0} → Host W → SessionState → Machine W → Machine W
set_state host new m =
    let old = m.session.state in
    if state_code old == state_code new then m else record {
      session = record m.session { state = new };
      world = host.state_changed old new m.world;
    }

unfoldable pub enter_ndm : {W : Type 0} → Host W → Machine W → Machine W
enter_ndm host m =
    let m' = set_state host idle m in
    record m' {
      session = record m'.session {
        send_seq = 0;
        recv_seq = 0;
        has_pending_retransmit = false;
        reassembly = [];
        rx = [];
      };
    }

abbrev pub with_session : {W : Type 0} → (Session → Session) → Machine W → Machine W
with_session f m = record m { session = f m.session }
