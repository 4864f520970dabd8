-- ===== src/Session/Wait/Buffered.antt =====
-- A frame that has arrived is handled without another call of the transport.
use openspodes.Prelude.{ℕ, suc, ◌≡◌, refl, ◌∙◌, ap, true, List, ◌++◌, ◌==◌, some}
use openspodes.Err.{Outcome, ok, done}
use openspodes.Transport.Control.{Control}
use openspodes.Transport.Control.RoundTrip.{Carries}
use openspodes.Transport.Frame.{HdlcFrame, zero_frame, hdlc_frame, hdlc_deframe}
use openspodes.Transport.Frame.RoundTrip.{IsFrame, received}
use openspodes.Session.{connected, Host, Machine, state_code}
use openspodes.Session.Timeout.{normalize_inter_octet_ms}
use openspodes.Session.Send.{line_size}
use openspodes.Session.Line.{scan, candidate}
use openspodes.Session.Line.Cutting.{AllQuiet, scan-frame}
use openspodes.Session.Receive.{handle_frame}
use openspodes.Session.Wait.{
  recv_apdu, recv_valid, recv_frame, recv_loop, recv_round, returns, on_candidate, with_rx,
  read_deadline,
}

module _ {W : Type 0} (host : Host W) where
  candidate_done :
      (d : List ℕ) (m : Machine W) (f : HdlcFrame)
      → hdlc_deframe d zero_frame ≡ ok tt f
      → on_candidate host d m ≡ ok f m
  unfolding on_candidate
  candidate_done d m f decodes = rw (decodes, on_candidate) refl

  round_done :
      (inter deadline limit : ℕ) (m : Machine W) (d rest : List ℕ)
      → scan m.session.rx ≡ candidate d rest
      → recv_round host inter deadline limit m ≡ returns (on_candidate host d (with_rx rest m))
  unfolding recv_round
  round_done inter deadline limit m d rest cut = rw (cut, recv_round) refl

  loop_done :
      (inter deadline limit fuel : ℕ) (m : Machine W) (r : Outcome (Machine W) HdlcFrame)
      → recv_round host inter deadline limit m ≡ returns r
      → recv_loop host (suc fuel) inter deadline limit m ≡ some r
  unfolding recv_loop
  loop_done inter deadline limit fuel m r e = rw (e, recv_loop) refl

  valid_done :
      (frames fuel buf_size limit : ℕ) (m m' : Machine W) (f : HdlcFrame)
      → recv_frame host fuel limit m ≡ some (ok f m')
      → recv_valid host (suc frames) fuel buf_size limit m ≡ some (handle_frame host buf_size f m')
  unfolding recv_valid
  valid_done frames fuel buf_size limit m m' f e = rw (e, recv_valid) refl

  frame_done :
      (fuel limit : ℕ) (m : Machine W) (d rest : List ℕ) (f : HdlcFrame)
      → scan m.session.rx ≡ candidate d rest
      → hdlc_deframe d zero_frame ≡ ok tt f
      → recv_frame host (suc fuel) limit m
        ≡ some (ok f (with_rx rest (record m { world = (read_deadline host limit m.world).1 })))
  unfolding recv_frame
  frame_done fuel limit m d rest f cut decodes =
      let n = record m { world = (read_deadline host limit m.world).1 } in
      let inter = normalize_inter_octet_ms m.session.inter_octet_timeout_ms in
      let deadline = (read_deadline host limit m.world).0 in
      loop_done inter deadline limit fuel n (on_candidate host d (with_rx rest n))
        (round_done inter deadline limit n d rest cut)
      ∙ ap some (candidate_done d (with_rx rest n) f decodes)

  -- With octets in the buffer that are no flag, a frame that fits the sender's limits behind them, and
  -- anything after it: with any fuel at all `osp_hdlc_session_recv_apdu` of a connected session
  -- handles that frame (its addresses, its information field, and a control field of its type that
  -- carries its poll/final bit and its sequence numbers) and keeps what follows it for later; before
  -- that it makes no call of the host but to read the clock, where there is a timeout.
  pub recv_apdu-buffered :
      (m : Machine W) (f : HdlcFrame) (noise tail : List ℕ) (frames fuel buf_size limit : ℕ)
      → IsFrame f
      → AllQuiet noise
      → m.session.state ≡ connected
      → (d : List ℕ) × (c : Control) × (hdlc_frame f line_size ≡ done d)
        × (c.type ≡ f.control.type)
        × Carries f.control.type f.control c
        × (recv_apdu host (suc frames) (suc fuel) buf_size limit (with_rx (noise ++ (d ++ tail)) m)
            ≡ some (
                handle_frame host buf_size
                  (received f c)
                  (with_rx tail (record m { world = (read_deadline host limit m.world).1 }))))
  unfolding recv_apdu
  recv_apdu-buffered m f noise tail frames fuel buf_size limit h quiet up =
      let (d, c, written, cut, decodes, same, carried) = scan-frame f noise tail h quiet in
      let loaded = with_rx (noise ++ (d ++ tail)) m in
      let opened : (state_code m.session.state == state_code connected) ≡ true =
        ap (λ t. state_code t == state_code connected) up in
      (
        d,
        c,
        written,
        same,
        carried,
        rw opened (
            valid_done frames (suc fuel) buf_size limit loaded
              (with_rx tail (record m { world = (read_deadline host limit m.world).1 }))
              (received f c) (frame_done fuel limit loaded d tail (received f c) cut decodes)),
      )
