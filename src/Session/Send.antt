-- ===== src/Session/Send.antt =====
-- src/transport/hdlc_session.c: the frames that a session sends.
use openspodes.Prelude.{
  ℕ, ◌+◌, true, List, [], ◌∷◌, ◌++◌, length, ltb, ◌==◌, not, if◌then◌else◌, u8, u32, ◌<<◌, bit_and,
  bit_or,
}
use openspodes.Err.{Call, ok, err, done, refused, nomem, invalid, disconnected}
use openspodes.Transport.Address.{HdlcAddress}
use openspodes.Transport.Control.{i_frame, rr, dm, ua, frmr, zero_control}
use openspodes.Transport.Frame.{HdlcFrame, zero_frame, hdlc_frame, max_frame_size}
use openspodes.Session.{Session, connected, Host, Machine, state_code, enter_ndm, with_session}
use openspodes.Session.Xid.{encode_xid_params}

-- sizeof(s->tx_buf), and of rx_buf too
abbrev pub line_size : ℕ
line_size = max_frame_size + 64

abbrev pub llc_command : List ℕ
llc_command = 0xE6 ∷ 0xE6 ∷ 0x00 ∷ []

abbrev pub llc_response : List ℕ
llc_response = 0xE6 ∷ 0xE7 ∷ 0x00 ∷ []

-- The address of this end, and of the other.
abbrev pub own_addr : Session → HdlcAddress
own_addr s = if s.is_client then s.client_addr else s.server_addr

abbrev pub peer_addr : Session → HdlcAddress
peer_addr s = if s.is_client then s.server_addr else s.client_addr

abbrev pub frmr_frame : Session → HdlcAddress → ℕ → ℕ → HdlcFrame
frmr_frame s dst rejected_ctrl reasons = record zero_frame {
  destination = dst;
  source = own_addr s;
  control = record zero_control { type = frmr; poll_final = 1 };
  info =
      rejected_ctrl
      ∷ u8 (bit_or (bit_and s.send_seq 0x07) (bit_and s.recv_seq 0x07 << 5))
      ∷ u8 (bit_and reasons 0x0F)
      ∷ [];
}

abbrev pub rr_frame : Session → HdlcAddress → HdlcFrame
rr_frame s dst = record zero_frame {
  destination = dst;
  source = own_addr s;
  control = record zero_control { type = rr; poll_final = 1; recv_seq = s.recv_seq };
}

abbrev pub dm_frame : Session → HdlcAddress → HdlcFrame
dm_frame s dst = record zero_frame {
  destination = dst;
  source = s.server_addr;
  control = record zero_control { type = dm; poll_final = 1 };
}

abbrev pub ua_frame : Session → HdlcAddress → HdlcFrame
ua_frame s dst = record zero_frame {
  destination = dst;
  source = s.server_addr;
  control = record zero_control { type = ua; poll_final = 1 };
  info = encode_xid_params s.xid;
}

-- An I-frame to the other end.
abbrev pub info_frame : Session → ℕ → List ℕ → HdlcFrame
info_frame s seq info = record zero_frame {
  destination = peer_addr s;
  source = own_addr s;
  control = record { type = i_frame; poll_final = 1; send_seq = seq; recv_seq = s.recv_seq };
  info = info;
}

abbrev pub max_info : Session → ℕ
max_info s =
    let m = if ltb 0 s.xid.max_info_tx then s.xid.max_info_tx else max_frame_size in
    if ltb max_frame_size m then max_frame_size else m

-- The information field of an APDU: `memcpy(frame.info, llc, 3)`, and the APDU behind it.
abbrev pub llc_info : Session → List ℕ → List ℕ
llc_info s apdu = (if s.is_client then llc_command else llc_response) ++ apdu

-- After the I-frame has gone out; its information field is never longer than the array for it.
abbrev pub sent : List ℕ → Session → Session
sent info s = record s {
  last_sent_info = info;
  last_sent_seq = s.send_seq;
  has_pending_retransmit = true;
  send_seq = bit_and (s.send_seq + 1) 0x07;
}

module _ {W : Type 0} (host : Host W) where
  unfoldable pub on_line : List ℕ → Call (Machine W) (Unit {0})
  on_line octets m = elim (host.send_line octets m.world) [
    | ok u w ↦ ok tt (record m { world = w })
    | err e w ↦ err e (record m { world = w })
  ]

  unfoldable pub session_send_frame : HdlcFrame → Call (Machine W) (Unit {0})
  session_send_frame frame m = elim (hdlc_frame frame line_size) [
    | done octets ↦ on_line octets m
    | refused e ↦ err e m
  ]

  unfoldable pub send_frmr : HdlcAddress → ℕ → ℕ → Call (Machine W) (Unit {0})
  send_frmr dst rejected_ctrl reasons m =
      session_send_frame (frmr_frame m.session dst rejected_ctrl reasons) m

  unfoldable pub send_rr : HdlcAddress → Call (Machine W) (Unit {0})
  send_rr dst m = session_send_frame (rr_frame m.session dst) m

  unfoldable pub send_dm : HdlcAddress → Call (Machine W) (Unit {0})
  send_dm dst m = session_send_frame (dm_frame m.session dst) m

  unfoldable pub send_ua_xid : HdlcAddress → Call (Machine W) (Unit {0})
  send_ua_xid dst m = session_send_frame (ua_frame m.session dst) m

  unfoldable pub handle_disc : HdlcAddress → Call (Machine W) (Unit {0})
  handle_disc src m =
      if state_code m.session.state == state_code connected
      then elim (send_ua_xid src m) [
        | ok u m' ↦ err disconnected (enter_ndm host m')
        | err e m' ↦ err e m'
      ]
      else send_dm src m

  unfoldable pub send_apdu : List ℕ → Call (Machine W) (Unit {0})
  send_apdu apdu m =
      let s = m.session in
      if not (state_code s.state == state_code connected)
      then err invalid m
      else if ltb (max_info s) (u32 (3 + length apdu))
      then err nomem m
      else elim (session_send_frame (info_frame s s.send_seq (llc_info s apdu)) m) [
        | ok u m' ↦ ok tt (with_session (sent (llc_info s apdu)) m')
        | err e m' ↦ err e m'
      ]
