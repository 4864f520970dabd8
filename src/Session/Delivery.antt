-- ===== src/Session/Delivery.antt =====
-- From `osp_hdlc_session_send_apdu` at one end to `osp_hdlc_session_recv_apdu` at the other.
use openspodes.Prelude.{
  ℕ, ◌+◌, ◌≤◌, ◌≡◌, ◌≢◌, refl, sym, ◌∙◌, ap, arith, Bool, true, false, List, [], ◌++◌, length,
  length-append, ltb, ◌==◌, if◌then◌else◌, u32, bit_and,
}
use openspodes.Err.{ok, ◌>>=◌}
use openspodes.Transport.Address.RoundTrip.{IsAddress}
use openspodes.Transport.Control.{Control, i_frame, sabm, zero_control}
use openspodes.Transport.Control.RoundTrip.{Carries, control_decode-encode}
use openspodes.Transport.Frame.{HdlcFrame, zero_frame, hdlc_deframe, max_frame_size}
use openspodes.Transport.Frame.Build.{frame_length_bound}
use openspodes.Transport.Frame.RoundTrip.{IsFrame, octets, received, framed, deframed}
use openspodes.Session.{Session, connected, Host, Machine, with_session, state_code}
use openspodes.Session.Send.{
  info_frame, llc_info, llc_command, llc_response, max_info, send_apdu, sent, session_send_frame,
  on_line, line_size,
}
use openspodes.Session.Invariant.{IsSession}
use openspodes.Session.Receive.{handle_frame, handle_type, handle_info, max_rx, without_llc}
use openspodes.Session.Receive.Sequence.{Taken, info_delivered}

-- A connected session that may send this APDU: it is well-formed, its addresses are addresses, and
-- the APDU fits the negotiated limit.
pub record MaySend (s : Session) (apdu : List ℕ) : Type 0 where
  pub well_formed : IsSession s
  pub is_connected : s.state ≡ connected
  pub client_ok : IsAddress s.client_addr
  pub client_fits : length s.client_addr ≤ 4
  pub server_ok : IsAddress s.server_addr
  pub server_fits : length s.server_addr ≤ 4
  pub apdu_fits : 3 + length apdu ≤ max_info s

-- The other end, when it expects the next frame of the first, and has the room.
pub record Expects (r s : Session) (apdu : List ℕ) (buf_size : ℕ) : Type 0 where
  pub same_seq : r.recv_seq ≡ s.send_seq
  pub same_ack : r.send_seq ≡ s.recv_seq
  pub nothing_kept : r.reassembly ≡ []
  pub takes : 3 + length apdu ≤ max_rx r
  pub buffer_fits : length apdu ≤ buf_size

i_frame-not-sabm : i_frame ≢ sabm
i_frame-not-sabm = ground arith

module _ (s : Session) (apdu : List ℕ) (h : MaySend s apdu) where
  frame : HdlcFrame
  frame = info_frame s s.send_seq (llc_info s apdu)

  length-llc_info : length (llc_info s apdu) ≡ 3 + length apdu
  length-llc_info =
      ground (arith, length-append (if s.is_client then llc_command else llc_response) apdu)

  max_info-small : max_info s ≤ max_frame_size
  max_info-small = ground arith

  pick : (b : Bool) (P : List ℕ → Type 0) {x y : List ℕ} → P x → P y → P (if b then x else y)
  pick true P p q = p
  pick false P p q = q

  frame-IsFrame : IsFrame frame
  unfolding frame
  frame-IsFrame =
      let (send_lt, recv_lt, _, _, _, _) = h.well_formed in
      record {
        fits = record {
          destination_fits = pick s.is_client (λ a. length a ≤ 4) h.server_fits h.client_fits;
          source_fits = pick s.is_client (λ a. length a ≤ 4) h.client_fits h.server_fits;
          info_fits = omega (arith, length-llc_info, h.apdu_fits, max_info-small);
        };
        destination_ok = pick s.is_client IsAddress h.server_ok h.client_ok;
        source_ok = pick s.is_client IsAddress h.client_ok h.server_ok;
        control_ok = (omega arith, send_lt, recv_lt);
        not_sabm = i_frame-not-sabm;
      }

  without_llc-llc_info : without_llc (llc_info s apdu) ≡ apdu
  without_llc-llc_info = go s.is_client
    where
      go : (b : Bool) → without_llc ((if b then llc_command else llc_response) ++ apdu) ≡ apdu
      go true = refl
      go false = refl

  -- The sender's side: the frame goes on the line, and if the transport takes it the session counts
  -- on and keeps the copy.
  sending :
      {W : Type 0} (host : Host W) (w : W)
      → send_apdu host apdu (record { session = s; world = w })
        ≡ (on_line host (octets frame) >>= λ u m'. ok tt (with_session (sent (llc_info s apdu)) m'))
            (record { session = s; world = w })
  unfolding send_apdu session_send_frame frame
  sending host w =
      let room : ltb (max_info s) (u32 (3 + length apdu)) ≡ false =
        ground (arith, h.apdu_fits, max_info-small) in
      let written =
        framed frame frame-IsFrame line_size
          (omega (arith, frame_length_bound frame frame-IsFrame.fits)) in
      let opened : (state_code s.state == state_code connected) ≡ true =
        ap (λ t. state_code t == state_code connected) h.is_connected in
      rw (opened, room, written) refl

  -- The receiver's side.
  receiving :
      {W : Type 0} (host : Host W) (r : Machine W) (buf_size : ℕ) (c : Control)
      → Expects r.session s apdu buf_size
      → c.type ≡ i_frame
      → Carries i_frame frame.control c
      → handle_frame host buf_size (received frame c) r
        ≡ ok apdu (
            with_session
              (λ t. record t { reassembly = []; recv_seq = bit_and (s.send_seq + 1) 0x07 })
              r)
  unfolding handle_frame handle_type frame
  receiving host r buf_size c e i_type carried =
      let f = received frame c in
      let (same_pf, same_ack, same_seq) = carried in
      let kept : r.session.reassembly ++ llc_info s apdu ≡ llc_info s apdu =
        ap (λ t. t ++ llc_info s apdu) e.nothing_kept in
      let whole : without_llc (r.session.reassembly ++ llc_info s apdu) ≡ apdu =
        ap without_llc kept ∙ without_llc-llc_info in
      let taken : Taken r.session f = record {
        fits = omega (arith, length-llc_info, e.takes);
        acknowledges = same_ack ∙ sym e.same_ack;
        in_sequence = same_seq ∙ sym e.same_seq;
        room =
            omega (arith, length-llc_info, h.apdu_fits, max_info-small, ap length e.nothing_kept);
      } in
      dispatched
      ∙ info_delivered host f r buf_size taken refl (omega (arith, ap length kept, length-llc_info))
          (omega (arith, ap length whole, e.buffer_fits))
      ∙ rw (whole, same_seq) refl
    where
      dispatched :
          handle_frame host buf_size (received frame c) r
          ≡ handle_info host buf_size (received frame c) r
      dispatched = rw i_type (ground arith)

-- An APDU that fits the limit negotiated, sent by a well-formed connected session whose addresses are
-- addresses of at most four octets: the octets that go to the transport decode to an I-frame, and if the transport takes
-- them the session counts on and keeps the copy for a retransmission. At the other end, handling
-- that frame where it is the one expected, nothing of an earlier one is kept, and the limit and the
-- caller's buffer have the room, gives the caller exactly the APDU, and that end expects the next.
pub apdu-delivered :
    {V W : Type 0} (sender : Host V) (receiver : Host W) (s : Session) (v : V) (r : Machine W)
    (apdu : List ℕ) (buf_size : ℕ)
    → MaySend s apdu
    → Expects r.session s apdu buf_size
    → (d : List ℕ) × (f : HdlcFrame) × (hdlc_deframe d zero_frame ≡ ok tt f)
      × (send_apdu sender apdu (record { session = s; world = v })
          ≡ (on_line sender d >>= λ u m'. ok tt (with_session (sent (llc_info s apdu)) m'))
              (record { session = s; world = v }))
      × (handle_frame receiver buf_size f r
          ≡ ok apdu (
              with_session
                (λ t. record t { reassembly = []; recv_seq = bit_and (s.send_seq + 1) 0x07 })
                r))
unfolding frame
apdu-delivered sender receiver s v r apdu buf_size h e =
    let f = frame s apdu h in
    let (c, decodes, same, carried) =
      control_decode-encode f.control zero_control (frame-IsFrame s apdu h).control_ok
        (frame-IsFrame s apdu h).not_sabm in
    (
      octets f,
      received f c,
      deframed f (frame-IsFrame s apdu h) zero_frame c decodes,
      sending s apdu h sender v,
      receiving s apdu h receiver r buf_size c e same carried,
    )
