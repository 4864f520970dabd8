-- ===== src/Session/Receive/Segments.antt =====
-- A segmented APDU from the peer, frame by frame, as `osp_hdlc_session_recv_apdu` handles them.
use openspodes.Prelude.{ℕ, ◌+◌, ◌≤◌, ◌%◌, ◌≡◌, ◌≢◌, List, [], ◌∷◌, ◌++◌, length}
use openspodes.Err.{Call, ok, state}
use openspodes.Transport.Control.{i_frame}
use openspodes.Transport.Frame.{HdlcFrame}
use openspodes.Session.{Session, Host, Machine}
use openspodes.Session.Receive.{handle_frame, max_rx}

-- I-frames that arrive at a session which expects the number `seq` and is then to expect `next`: the
-- parts of an MSDU in order, the last of them at the end, and among them frames with any other
-- number.
pub data Arrives (s : Session) (next : ℕ) : ℕ → List HdlcFrame → List ℕ → Type 0 where
  stray :
      {seq : ℕ} {fs : List HdlcFrame} {msdu : List ℕ} (f : HdlcFrame)
      → f.control.type ≡ i_frame
      → f.control.send_seq ≢ seq
      → Arrives s next seq fs msdu
      → Arrives s next seq (f ∷ fs) msdu
  part :
      {seq : ℕ} {fs : List HdlcFrame} {msdu : List ℕ} (f : HdlcFrame)
      → f.control.type ≡ i_frame
      → f.control.send_seq ≡ seq
      → f.control.recv_seq ≡ s.send_seq
      → f.segmented ≡ 1
      → length f.info ≤ max_rx s
      → Arrives s next ((seq + 1) % 8) fs msdu
      → Arrives s next seq (f ∷ fs) (f.info ++ msdu)
  last_part :
      {seq : ℕ} (f : HdlcFrame)
      → f.control.type ≡ i_frame
      → f.control.send_seq ≡ seq
      → f.control.recv_seq ≡ s.send_seq
      → f.segmented ≡ 0
      → length f.info ≤ max_rx s
      → next ≡ (seq + 1) % 8
      → Arrives s next seq (f ∷ []) f.info

module _ {W : Type 0} (host : Host W) (buf_size : ℕ) where
  -- Frames are handled one after the other, and the answer to the last is what counts.
  unfoldable pub handle_all : List HdlcFrame → Call (Machine W) (List ℕ)
  handle_all [] m = ok [] m
  handle_all (f ∷ []) m = handle_frame host buf_size f m
  handle_all (f ∷ (g ∷ fs)) m = handle_all (g ∷ fs) (state (handle_frame host buf_size f m))

  -- What is kept of the parts that came, and the number that is expected.
  abbrev holding : Session → List ℕ → ℕ → Session
  holding s kept seq = record s { reassembly = kept; recv_seq = seq }
