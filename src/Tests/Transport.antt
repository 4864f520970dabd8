-- ===== src/Tests/Transport.antt =====
-- src/transport/transport.c on concrete frames.
use openspodes.Prelude.Slices.{take-all}
use openspodes.Prelude.{
  ℕ, ◌<◌, ◌≤◌, length, ltb, if◌then◌else◌, ◌^◌, ◌%◌, ◌≡◌, ◌≢◌, refl, List, [], ◌∷◌, ◌++◌, take,
  arith, bit_xor,
}
use openspodes.Err.{Call, timeout, ok, err, unsupported, done}
use openspodes.Transport.Crc.{hdlc_fcs16, fcs_loop, fcs_step}
use openspodes.Transport.Crc.BitSerial.{serial_loop, fcs16-serial}
use openspodes.Transport.Address.{hdlc_address_init, hdlc_address_value}
use openspodes.Transport.Address.RoundTrip.{address_value-address_init}
use openspodes.Transport.Control.{
  i_frame, sabm, Control, hdlc_control_encode, hdlc_control_decode, zero_control, decoded,
  control_code,
}
use openspodes.Transport.Control.RoundTrip.{
  IsControl, Carries, control_decode-encode, control_decode-sabm,
}
use openspodes.Transport.Frame.{
  HdlcFrame, zero_frame, hdlc_frame, hdlc_deframe, make_frame_length, frame_body, frame_header,
}
use openspodes.Transport.Frame.RoundTrip.{IsFrame, received, deframe-frame}
use openspodes.Transport.Apdu.{framed_size, hdlc, transport_send_apdu, transport_recv_apdu}
use openspodes.Transport.Apdu.RoundTrip.{recv_apdu-send_apdu}
use openspodes.Transport.Wrapper.{WrapperHeader, wrapper_encode, wrapper_decode}
use openspodes.Transport.Wrapper.RoundTrip.{wrapper_decode-encode}

abbrev digits : List ℕ
digits = 0x31 ∷ 0x32 ∷ 0x33 ∷ 0x34 ∷ 0x35 ∷ 0x36 ∷ 0x37 ∷ 0x38 ∷ 0x39 ∷ []

-- The check value of CRC-16/X.25.
fcs16_digits : hdlc_fcs16 digits ≡ 0x906E
unfolding hdlc_fcs16 fcs_loop fcs_step
fcs16_digits = refl

fcs16-serial_example : hdlc_fcs16 digits ≡ bit_xor (serial_loop 0xFFFF digits) 0xFFFF
fcs16-serial_example = fcs16-serial digits (ground arith)

address_value-address_init_example : hdlc_address_value (hdlc_address_init 1000) ≡ 1000 % 2 ^ 28
address_value-address_init_example = address_value-address_init 1000

abbrev pub numbered : Control
numbered = record { type = i_frame; poll_final = 1; send_seq = 2; recv_seq = 3 }

numbered-IsControl : IsControl numbered
numbered-IsControl = (omega arith, omega arith, omega arith)

i_frame-not-sabm : i_frame ≢ sabm
i_frame-not-sabm = ground arith

control_decode-encode_example :
    (d : Control) × (hdlc_control_decode (hdlc_control_encode numbered) zero_control ≡ ok tt d)
    × (d.type ≡ i_frame)
    × Carries i_frame numbered d
control_decode-encode_example =
    control_decode-encode numbered zero_control numbered-IsControl i_frame-not-sabm

abbrev set_mode : Control
set_mode = record { type = sabm; poll_final = 1; send_seq = 0; recv_seq = 0 }

control_decode-sabm_example :
    hdlc_control_decode (hdlc_control_encode set_mode) zero_control
    ≡ err unsupported (decoded (hdlc_control_encode set_mode) zero_control)
control_decode-sabm_example = control_decode-sabm set_mode zero_control refl

abbrev pub sample : HdlcFrame
sample = record {
  destination = 0x03 ∷ [];
  source = 0x02 ∷ 0x21 ∷ [];
  control = numbered;
  control_raw = 0;
  segmented = 0;
  info = 0xE6 ∷ 0xE6 ∷ 0x00 ∷ 0xC0 ∷ [];
}

pub sample-IsFrame : IsFrame sample
sample-IsFrame = record {
  fits = record {
    destination_fits = omega arith;
    source_fits = omega arith;
    info_fits = omega arith;
  };
  destination_ok = omega arith;
  source_ok = ground arith;
  control_ok = numbered-IsControl;
  not_sabm = i_frame-not-sabm;
}

deframe-frame_example :
    (d : List ℕ) × (c : Control) × (hdlc_frame sample 40 ≡ done d)
    × (hdlc_deframe d zero_frame ≡ ok tt (received sample c))
    × (c.type ≡ i_frame)
    × Carries i_frame numbered c
unfolding make_frame_length
deframe-frame_example = deframe-frame sample zero_frame 40 sample-IsFrame (omega arith)

abbrev line : List ℕ
line =
    0x7E ∷ 0xA0 ∷ 0x0E ∷ 0x03 ∷ 0x02 ∷ 0x21 ∷ 0x74 ∷ 0xC8 ∷ 0x89 ∷ 0xE6 ∷ 0xE6 ∷ 0x00 ∷ 0xC0 ∷ 0xEB
    ∷ 0x11 ∷ 0x7E ∷ []

-- The octets of the sample frame, and what the decoder makes of them.
frame_sample : hdlc_frame sample 40 ≡ done line
unfolding hdlc_frame frame_body frame_header make_frame_length hdlc_control_encode control_code
    hdlc_fcs16 fcs_loop fcs_step
frame_sample = refl

abbrev arrived : HdlcFrame
arrived = record sample { control_raw = 0x74 }

wrapper_decode-encode_example :
    (d : List ℕ) × (wrapper_encode 1 16 digits 40 ≡ done d)
    × (wrapper_decode
          (d ++ (0xFF ∷ []))
          (record { version = 0; source = 0; destination = 0; length = 0 })
        ≡ ok
            (take (9 % 2 ^ 16) digits)
            (record { version = 1; source = 1; destination = 16; length = 9 % 2 ^ 16 }))
wrapper_decode-encode_example =
    wrapper_decode-encode 1 16 40 digits (0xFF ∷ [])
      (record { version = 0; source = 0; destination = 0; length = 0 }) (omega arith) (omega arith)
      (omega arith) (omega arith)

abbrev wrapped : List ℕ
wrapped = 0 ∷ 1 ∷ 0 ∷ 1 ∷ 0 ∷ 16 ∷ 0 ∷ 2 ∷ 0xC0 ∷ 0x01 ∷ []

abbrev wrapped_header : WrapperHeader
wrapped_header = record { version = 1; source = 1; destination = 16; length = 2 }

-- A transport that hands over what has arrived, as far as the array takes it.
abbrev read_datagram : ℕ → ℕ → Call (List ℕ) (List ℕ)
read_datagram size timeout_ms w = if ltb 0 (length w) then ok (take size w) [] else err timeout w

datagram_whole :
    (d : List ℕ) → 0 < length d → length d ≤ framed_size → read_datagram framed_size 500 d ≡ ok d []
datagram_whole d some_octets fits = ground (arith, take-all framed_size d fits)

recv_apdu-send_apdu_example :
    (d : List ℕ) × (transport_send_apdu
        (λ (d : List ℕ) (w : List (List ℕ)). ok tt (d ∷ w))
        hdlc
        1
        16
        digits
        []
      ≡ ok tt (d ∷ []))
    × (transport_recv_apdu read_datagram hdlc 64 500 d ≡ ok (take 1024 digits) [])
recv_apdu-send_apdu_example =
    recv_apdu-send_apdu (λ (d : List ℕ) (w : List (List ℕ)). ok tt (d ∷ w)) read_datagram (λ d. d)
      hdlc 1 16 64 500 digits [] [] (omega arith) (omega arith) (omega arith) tt (omega arith)
      datagram_whole
