-- ===== src/Session/Receive/Sequence.antt =====
-- What a connected session hands to its user: the segments in sequence, once each, and in order.
use openspodes.Prelude.{
  ℕ, ◌+◌, ◌≤◌, ◌≡◌, ◌∙◌, arith, [], ◌++◌, length, ◌==◌, if◌then◌else◌, bit_and,
}
use openspodes.Err.{ok}
use openspodes.Transport.Frame.{HdlcFrame, max_frame_size}
use openspodes.Session.{Session, Host, Machine, with_session}
use openspodes.Session.Send.{send_rr}
use openspodes.Session.Receive.{reply, deliver, handle_info, appended, max_rx, without_llc}

-- An I-frame that the session takes: not too long, acknowledging what was sent, in sequence, and
-- with room for it behind the segments before.
pub record Taken (s : Session) (f : HdlcFrame) : Type 0 where
  pub fits : length f.info ≤ max_rx s
  pub acknowledges : f.control.recv_seq ≡ s.send_seq
  pub in_sequence : f.control.send_seq ≡ s.recv_seq
  pub room : length s.reassembly + length f.info ≤ max_frame_size

module _ {W : Type 0} (host : Host W) (f : HdlcFrame) (m : Machine W) (buf_size : ℕ) where
  pub info-Taken :
      Taken m.session f
      → handle_info host buf_size f m ≡ (
          if f.segmented == 0
          then deliver host buf_size (with_session (appended f) m)
          else reply host (send_rr host f.source) (with_session (appended f) m))
  unfolding handle_info
  info-Taken h = ground (arith, h.fits, h.acknowledges, h.in_sequence, h.room)

  -- An I-frame that the session takes (not longer than the limit, acknowledging what was sent, in
  -- sequence, with room behind the segments kept) and that is the last segment of an MSDU, of three
  -- octets or more, that fits the caller's buffer without its LLC header: what the caller receives
  -- is all the segments in order, without the LLC header, the receive sequence number goes on by one
  -- modulo 8, and no segment is kept.
  pub info_delivered :
      Taken m.session f
      → f.segmented ≡ 0
      → 3 ≤ length (m.session.reassembly ++ f.info)
      → length (without_llc (m.session.reassembly ++ f.info)) ≤ buf_size
      → handle_info host buf_size f m
        ≡ ok (without_llc (m.session.reassembly ++ f.info)) (
            with_session
              (λ s. record s { reassembly = []; recv_seq = bit_and (f.control.send_seq + 1) 0x07 })
              m)
  unfolding deliver
  info_delivered h last long fits = info-Taken h ∙ ground arith
