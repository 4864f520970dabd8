-- ===== src/Session/Receive/Invariant.antt =====
-- src/transport/hdlc_session.c: handling a frame leaves a well-formed session well-formed.
use openspodes.Prelude.{
  ℕ, ◌+◌, ◌^◌, ◌<◌, ◌≡◌, arith, Bool, true, false, ◌&&◌, List, [], length, length-append, ltb, ◌==◌,
  not, if◌then◌else◌,
}
use openspodes.Err.{state}
use openspodes.Transport.Address.{HdlcAddress, hdlc_address_value}
use openspodes.Transport.Control.{FrameType, i_frame, rr, rnr, rej, snrm, disc, ui}
use openspodes.Transport.Frame.{HdlcFrame, max_frame_size}
use openspodes.Session.{Session, Host, Machine, with_session, enter_ndm, init_client, init_server}
use openspodes.Session.Send.{send_frmr, send_rr, send_ua_xid, handle_disc, send_apdu}
use openspodes.Session.Receive.{
  reply, deliver, handle_info, handle_snrm, handle_ready, handle_rej, handle_ui, handle_type,
  handle_frame, on_snrm, restarted, appended, frame_allows_info, max_rx, frmr_y,
}
use openspodes.Session.Xid.{XidParams}
use openspodes.Session.Xid.Agreement.{Within, negotiate_xid-Within}
use openspodes.Session.Invariant.{
  IsSession, Kept, Keeps, next_seq-lt, sent-Kept, send_frmr-Keeps, send_rr-Keeps, send_ua_xid-Keeps,
  if-Kept, then-Kept, handle_disc-Keeps, send_apdu-Keeps, enter_ndm-Kept,
}

module _ {W : Type 0} (host : Host W) where
  deliver-Keeps : (buf_size : ℕ) → Keeps (deliver host buf_size)
  unfolding deliver
  deliver-Keeps buf_size m (a, b, c, d, e, f) =
      let emptied : IsSession (record m.session { reassembly = [] }) =
        (a, b, c, d, omega arith, f) in
      if-Kept (ltb (length m.session.reassembly) 3) _ _ (λ _. emptied)
        λ _. if-Kept (ltb buf_size _) _ _ (λ _. emptied) (λ _. emptied)

  handle_info-Keeps : (buf_size : ℕ) (f : HdlcFrame) → Keeps (handle_info host buf_size f)
  unfolding handle_info
  handle_info-Keeps buf_size f m h =
      let s = m.session in
      if-Kept (ltb (max_rx s) (length f.info)) _ _ (λ _. send_frmr-Keeps host _ _ _ m h)
        λ _.
          if-Kept (not (f.control.recv_seq == s.send_seq)) _ _ (λ _. send_frmr-Keeps host _ _ _ m h)
            λ _.
              if-Kept (not (f.control.send_seq == s.recv_seq)) _ _ (λ _. send_rr-Keeps host _ m h)
                λ _.
                  if-Kept (ltb max_frame_size (length s.reassembly + length f.info)) _ _
                    (λ _.
                      overrun (state (send_frmr host f.source f.control_raw frmr_y m)).session
                        (send_frmr-Keeps host _ _ _ m h))
                    λ room. segment (in_sequence room)
    where
      overrun : (t : Session) → IsSession t → IsSession (record t { reassembly = [] })
      overrun t (a, b, c, d, e, w) = (a, b, c, d, omega arith, w)

      in_sequence :
          ltb max_frame_size (length m.session.reassembly + length f.info) ≡ false
          → Kept (with_session (appended f) m)
      in_sequence room =
          let (a, b, c, d, e, w) = h in
          (
            a,
            next_seq-lt f.control.send_seq,
            c,
            d,
            ground (arith, length-append m.session.reassembly f.info),
            w,
          )

      segment :
          Kept (with_session (appended f) m)
          → Kept (
              state (
                if f.segmented == 0
                then deliver host buf_size (with_session (appended f) m)
                else reply host (send_rr host f.source) (with_session (appended f) m)))
      segment k =
          if-Kept (f.segmented == 0) _ _ (λ _. deliver-Keeps buf_size _ k)
            (λ _. send_rr-Keeps host _ _ k)

  handle_snrm-Keeps : (f : HdlcFrame) → Keeps (handle_snrm host f)
  unfolding handle_snrm
  handle_snrm-Keeps f m h =
      if-Kept (not (hdlc_address_value f.destination == hdlc_address_value m.session.server_addr)) _
        _ (λ _. h)
        λ _.
          from_start (state (send_ua_xid host f.source (with_session (on_snrm f) m))).session
            (send_ua_xid-Keeps host f.source (with_session (on_snrm f) m) renegotiated)
    where
      renegotiated : Kept (with_session (on_snrm f) m)
      renegotiated =
          let (a, b, c, d, e, w) = h in
          (a, b, c, d, e, negotiate_xid-Within f.info m.session.xid_configured)

      from_start : (t : Session) → IsSession t → IsSession (restarted t)
      from_start t (a, b, c, d, e, w) = (omega arith, omega arith, c, d, omega arith, w)

  handle_ready-Keeps : (is_rr : Bool) (f : HdlcFrame) → Keeps (handle_ready host is_rr f)
  unfolding handle_ready
  handle_ready-Keeps is_rr f m h =
      if-Kept (not (f.control.recv_seq == m.session.send_seq)) _ _
        (λ _. send_frmr-Keeps host _ _ _ m h) λ _. if-Kept is_rr _ _ (λ _. h) (λ _. h)

  handle_rej-Keeps : Keeps (handle_rej host)
  unfolding handle_rej
  handle_rej-Keeps m h =
      if-Kept (m.session.has_pending_retransmit && ltb 0 m.session.max_retransmits) _ _
        (λ _. sent-Kept host _ m h) (λ _. h)

  handle_ui-Keeps : (f : HdlcFrame) → Keeps (handle_ui host f)
  unfolding handle_ui
  handle_ui-Keeps f m h =
      if-Kept (ltb (max_rx m.session) (length f.info)) _ _ (λ _. send_frmr-Keeps host _ _ _ m h)
        (λ _. h)

  handle_type-Keeps :
      (t : FrameType) (buf_size : ℕ) (f : HdlcFrame) → Keeps (handle_type host t buf_size f)
  unfolding handle_type
  handle_type-Keeps i_frame buf_size f m h = handle_info-Keeps buf_size f m h
  handle_type-Keeps ui buf_size f m h = handle_ui-Keeps f m h
  handle_type-Keeps snrm buf_size f m h = handle_snrm-Keeps f m h
  handle_type-Keeps disc buf_size f m h =
      then-Kept (handle_disc host f.source m) _ (handle_disc-Keeps host f.source m h) λ u m' k. k
  handle_type-Keeps rr buf_size f m h = handle_ready-Keeps true f m h
  handle_type-Keeps rnr buf_size f m h = handle_ready-Keeps false f m h
  handle_type-Keeps rej buf_size f m h = handle_rej-Keeps m h
  handle_type-Keeps _ buf_size f m h = h

  handle_frame-Keeps : (buf_size : ℕ) (f : HdlcFrame) → Keeps (handle_frame host buf_size f)
  unfolding handle_frame
  handle_frame-Keeps buf_size f m h =
      if-Kept (ltb 0 (length f.info) && not (frame_allows_info f.control.type)) _ _
        (λ _. send_frmr-Keeps host _ _ _ m h) λ _. handle_type-Keeps f.control.type buf_size f m h

  -- Whatever the host does, each operation on a well-formed session leaves it well-formed, whether it
  -- succeeds or fails: sending an APDU shorter than 2 ^ 32 - 3 octets, handling any frame, answering
  -- a DISC and going back to the disconnected mode. Well-formed: both sequence numbers and that of
  -- the copy are below 8, the copy of the last information field and the reassembled segments fit
  -- their arrays of 1024 octets, and no limit negotiated is above the one configured.
  pub session-kept :
      (m : Machine W)
      → IsSession m.session
      → ((apdu : List ℕ)
          → length apdu + 3 < 2 ^ 32
          → IsSession (state (send_apdu host apdu m)).session)
        × ((buf_size : ℕ) (f : HdlcFrame)
            → IsSession (state (handle_frame host buf_size f m)).session)
        × ((src : HdlcAddress) → IsSession (state (handle_disc host src m)).session)
        × IsSession (enter_ndm host m).session
  session-kept m h = (
    λ apdu small. send_apdu-Keeps host apdu small m h,
    λ buf_size f. handle_frame-Keeps buf_size f m h,
    λ src. handle_disc-Keeps host src m h,
    enter_ndm-Kept host m h,
  )

-- A session is well-formed as it is set up, for any addresses, at either end.
pub init-IsSession :
    (client server : ℕ)
    → IsSession (init_client client server) × IsSession (init_server server client)
unfolding init_client init_server
init-IsSession client server = (
  (omega arith, omega arith, omega arith, omega arith, omega arith, same),
  (omega arith, omega arith, omega arith, omega arith, omega arith, same),
)
  where
    same : {p : XidParams} → Within p p
    same = record {
      tx_within = omega arith;
      rx_within = omega arith;
      window_tx_within = omega arith;
      window_rx_within = omega arith;
    }
