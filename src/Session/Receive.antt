-- ===== src/Session/Receive.antt =====
-- src/transport/hdlc_session.c, `osp_hdlc_session_recv_apdu`: what a connected session does with a
-- frame that `session_recv_frame` gave it. The value is what it copies to the caller's buffer.
pub mod Invariant
pub mod Sequence
pub mod Segments
use openspodes.Prelude.{
  ℕ, ◌+◌, Bool, true, false, ◌&&◌, ◌||◌, List, [], ◌∷◌, ◌++◌, length, get_or, drop, ltb, leb, ◌==◌,
  not, if◌then◌else◌, bit_and, bit_or,
}
use openspodes.Err.{Call, Outcome, ok, err, state, nomem, invalid, timeout}
use openspodes.Transport.Address.{HdlcAddress, hdlc_address_value}
use openspodes.Transport.Control.{
  FrameType, i_frame, rr, rnr, rej, sabm, snrm, disc, dm, ua, frmr, ui, xid,
}
use openspodes.Transport.Frame.{HdlcFrame, max_frame_size}
use openspodes.Session.{Session, Host, Machine, with_session}
use openspodes.Session.Send.{
  info_frame, session_send_frame, send_frmr, send_rr, send_ua_xid, handle_disc,
}
use openspodes.Session.Xid.{negotiate_xid}

abbrev pub frmr_w : ℕ
frmr_w = 0x01

abbrev pub frmr_x : ℕ
frmr_x = 0x02

abbrev pub frmr_y : ℕ
frmr_y = 0x04

abbrev pub frmr_z : ℕ
frmr_z = 0x08

abbrev pub frame_allows_info : FrameType → Bool
frame_allows_info i_frame = true
frame_allows_info ui = true
frame_allows_info xid = true
frame_allows_info snrm = true
frame_allows_info ua = true
frame_allows_info dm = true
frame_allows_info frmr = true
frame_allows_info _ = false

abbrev pub max_rx : Session → ℕ
max_rx s = if ltb 0 s.xid.max_info_rx then s.xid.max_info_rx else max_frame_size

-- A SNRM in a connected session: `session_reset_xid`, `negotiate_xid`.
abbrev pub on_snrm : HdlcFrame → Session → Session
on_snrm f s = record s {
  received_client_addr = f.source;
  client_addr = f.source;
  xid = negotiate_xid f.info s.xid_configured;
}

abbrev pub restarted : Session → Session
restarted s = record s {
  send_seq = 0;
  recv_seq = 0;
  has_pending_retransmit = false;
  reassembly = [];
}

-- A segment in sequence is kept, and N(R) goes on.
abbrev pub appended : HdlcFrame → Session → Session
appended f s = record s {
  reassembly = s.reassembly ++ f.info;
  recv_seq = bit_and (f.control.send_seq + 1) 0x07;
}

-- The MSDU without its LLC header, where it has one.
abbrev pub without_llc : List ℕ → List ℕ
without_llc msdu =
    if get_or msdu 0 0 == 0xE6
      && ((get_or msdu 1 0 == 0xE6 || get_or msdu 1 0 == 0xE7) && get_or msdu 2 0 == 0x00)
    then drop 3 msdu
    else msdu

module _ {W : Type 0} (host : Host W) where
  -- A reply whose own result the source does not look at, and then `return OSP_ERR_TIMEOUT;`.
  abbrev pub reply : Call (Machine W) (Unit {0}) → Call (Machine W) (List ℕ)
  reply send m = err timeout (state (send m))

  -- The last segment: the whole MSDU goes to the caller.
  unfoldable pub deliver : ℕ → Call (Machine W) (List ℕ)
  deliver buf_size m =
      let msdu = m.session.reassembly in
      let m' = with_session (λ s. record s { reassembly = [] }) m in
      if ltb (length msdu) 3
      then err invalid m'
      else if ltb buf_size (length (without_llc msdu))
      then err nomem m'
      else ok (without_llc msdu) m'

  unfoldable pub handle_info : ℕ → HdlcFrame → Call (Machine W) (List ℕ)
  handle_info buf_size f m =
      let s = m.session in
      if ltb (max_rx s) (length f.info)
      then reply (send_frmr host f.source f.control_raw frmr_y) m
      else if not (f.control.recv_seq == s.send_seq)
      then reply (send_frmr host f.source f.control_raw frmr_z) m
      else if not (f.control.send_seq == s.recv_seq)
      then reply (send_rr host f.source) m
      else if ltb max_frame_size (length s.reassembly + length f.info)
      then err timeout (
          with_session (λ t. record t { reassembly = [] })
            (state (send_frmr host f.source f.control_raw frmr_y m)))
      else let m' = with_session (appended f) m in
        if f.segmented == 0 then deliver buf_size m' else reply (send_rr host f.source) m'

  -- Whether or not the UA goes out.
  unfoldable pub handle_snrm : HdlcFrame → Call (Machine W) (List ℕ)
  handle_snrm f m =
      if not (hdlc_address_value f.destination == hdlc_address_value m.session.server_addr)
      then err timeout m
      else err timeout
          (with_session restarted (state (send_ua_xid host f.source (with_session (on_snrm f) m))))

  unfoldable pub handle_ready : Bool → HdlcFrame → Call (Machine W) (List ℕ)
  handle_ready is_rr f m =
      if not (f.control.recv_seq == m.session.send_seq)
      then reply (send_frmr host f.source f.control_raw frmr_z) m
      else if is_rr
      then err timeout (with_session (λ s. record s { has_pending_retransmit = false }) m)
      else err timeout m

  unfoldable pub handle_rej : Call (Machine W) (List ℕ)
  handle_rej m =
      let s = m.session in
      if s.has_pending_retransmit && ltb 0 s.max_retransmits
      then err timeout (
          with_session (λ t. record t { has_pending_retransmit = false })
            (state (session_send_frame host (info_frame s s.last_sent_seq s.last_sent_info) m)))
      else err timeout m

  unfoldable pub handle_ui : HdlcFrame → Call (Machine W) (List ℕ)
  handle_ui f m =
      if ltb (max_rx m.session) (length f.info)
      then reply (send_frmr host f.source f.control_raw frmr_y) m
      else err timeout m

  -- The session is connected here, so the reply to DISC never ends with OSP_OK.
  unfoldable pub handle_type : FrameType → ℕ → HdlcFrame → Call (Machine W) (List ℕ)
  handle_type i_frame buf_size f m = handle_info buf_size f m
  handle_type ui buf_size f m = handle_ui f m
  handle_type snrm buf_size f m = handle_snrm f m
  handle_type disc buf_size f m = elim (handle_disc host f.source m) [
    | ok u m' ↦ ok [] m'
    | err e m' ↦ err e m'
  ]
  handle_type rr buf_size f m = handle_ready true f m
  handle_type rnr buf_size f m = handle_ready false f m
  handle_type rej buf_size f m = handle_rej m
  handle_type _ buf_size f m = err invalid m

  unfoldable pub handle_frame : ℕ → HdlcFrame → Call (Machine W) (List ℕ)
  handle_frame buf_size f m =
      if ltb 0 (length f.info) && not (frame_allows_info f.control.type)
      then reply (send_frmr host f.source f.control_raw (bit_or frmr_w frmr_x)) m
      else handle_type f.control.type buf_size f m
