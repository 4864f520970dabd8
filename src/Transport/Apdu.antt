-- ===== src/Transport/Apdu.antt =====
-- src/transport/transport.c, "Transport send/receive APDUs". The transport's `send` and `recv` are the
-- application's, calls on a state W of its own, and so parameters. `recv` is given the size of the
-- array and the timeout.
pub mod RoundTrip
use openspodes.Prelude.{ℕ, ◌+◌, List, [], ◌∷◌, length, take, ltb, if◌then◌else◌}
use openspodes.Err.{Call, Outcome, ok, err, Result, done, refused, nomem}
use openspodes.Transport.Address.{hdlc_address_init}
use openspodes.Transport.Control.{Control, zero_control}
use openspodes.Transport.Frame.{HdlcFrame, zero_frame, max_frame_size, hdlc_frame, hdlc_deframe}
use openspodes.Transport.Wrapper.{WrapperHeader, wrapper_encode, wrapper_decode}

pub data Framing : Type 0 where
  unframed hdlc wrapper : Framing

-- sizeof(framed), and of `raw` too
abbrev pub framed_size : ℕ
framed_size = max_frame_size + 32

-- The frame around an APDU, of which the first 1024 octets are taken.
abbrev pub apdu_frame : List ℕ → HdlcFrame
apdu_frame apdu = record zero_frame {
  destination = hdlc_address_init 1;
  source = hdlc_address_init 1;
  control = record zero_control { poll_final = 1 };
  info = take max_frame_size apdu;
}

-- What goes to the transport; `source` and `dest` are the wrapper addresses of the transport.
unfoldable pub frame_apdu : Framing → ℕ → ℕ → List ℕ → Result (List ℕ)
frame_apdu wrapper source dest apdu = wrapper_encode source dest apdu framed_size
frame_apdu hdlc source dest apdu = hdlc_frame (apdu_frame apdu) framed_size
frame_apdu unframed source dest apdu =
    if ltb framed_size (length apdu) then refused nomem else done apdu

-- The APDU is copied to the caller's buffer if it fits.
abbrev pub copied : ℕ → List ℕ → Result (List ℕ)
copied buf_size apdu = if ltb buf_size (length apdu) then refused nomem else done apdu

abbrev pub blank_header : WrapperHeader
blank_header = record { version = 0; source = 0; destination = 0; length = 0 }

-- What is in the octets that came from the transport.
unfoldable pub unframe_apdu : Framing → ℕ → List ℕ → Result (List ℕ)
unframe_apdu wrapper buf_size raw = elim (wrapper_decode raw blank_header) [
  | ok apdu h ↦ copied buf_size apdu
  | err e h ↦ refused e
]
unframe_apdu hdlc buf_size raw = elim (hdlc_deframe raw zero_frame) [
  | ok u f ↦ copied buf_size f.info
  | err e f ↦ refused e
]
unframe_apdu unframed buf_size raw = copied buf_size raw

module _ {W : Type 0} where
  unfoldable pub transport_send_apdu :
      (List ℕ → Call W (Unit {0})) → Framing → ℕ → ℕ → List ℕ → Call W (Unit {0})
  transport_send_apdu send framing source dest apdu w = elim (frame_apdu framing source dest apdu) [
    | done framed ↦ send framed w
    | refused e ↦ err e w
  ]

  abbrev pub returned : Result (List ℕ) → W → Outcome W (List ℕ)
  returned (done apdu) w = ok apdu w
  returned (refused e) w = err e w

  unfoldable pub transport_recv_apdu : (ℕ → ℕ → Call W (List ℕ)) → Framing → ℕ → ℕ → Call W (List ℕ)
  transport_recv_apdu recv framing buf_size timeout_ms w = elim (recv framed_size timeout_ms w) [
    | ok raw w' ↦ returned (unframe_apdu framing buf_size raw) w'
    | err e w' ↦ err e w'
  ]
