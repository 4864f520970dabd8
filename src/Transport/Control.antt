-- ===== src/Transport/Control.antt =====
-- src/transport/transport.c, "HDLC control field encode/decode": one octet for the frame's type, its
-- poll/final bit and its sequence numbers.
pub mod RoundTrip
use openspodes.Prelude.{ℕ, ◌+◌, ◌*◌, ◌==◌, if◌then◌else◌, ◌<<◌, ◌>>>◌, bit_and, bit_or}
use openspodes.Err.{Call, Outcome, ok, err, unsupported}

pub data FrameType : Type 0 where
  i_frame rr rnr rej sabm snrm disc dm ua frmr ui xid : FrameType

pub record Control : Type 0 where
  pub type : FrameType
  pub poll_final : ℕ
  pub send_seq : ℕ
  pub recv_seq : ℕ

-- `(recv_seq & 0x07) << 5`
abbrev pub recv_field : Control → ℕ
recv_field c = bit_and c.recv_seq 0x07 << 5

-- A U-frame: the high and the low part of its modifier round the poll/final bit.
abbrev pub unnumbered : ℕ → ℕ → ℕ → ℕ
unnumbered hi pf lo = bit_or (bit_or (bit_or (hi << 5) pf) (lo << 2)) 0x03

unfoldable pub control_code : FrameType → ℕ → Control → ℕ
control_code i_frame pf c = bit_or (bit_or (recv_field c) pf) (bit_and c.send_seq 0x07 << 1)
control_code rr pf c = bit_or (bit_or (recv_field c) pf) 0x01
control_code rnr pf c = bit_or (bit_or (recv_field c) pf) 0x05
control_code rej pf c = bit_or (bit_or (recv_field c) pf) 0x09
control_code snrm pf c = unnumbered 4 pf 0
control_code sabm pf c = unnumbered 1 pf 3
control_code disc pf c = unnumbered 2 pf 0
control_code ua pf c = unnumbered 3 pf 0
control_code dm pf c = unnumbered 0 pf 3
control_code frmr pf c = unnumbered 4 pf 1
control_code ui pf c = unnumbered 0 pf 0
control_code xid pf c = unnumbered 5 pf 3

unfoldable pub hdlc_control_encode : Control → ℕ
unfolding control_code
hdlc_control_encode c = control_code c.type (if c.poll_final == 0 then 0x00 else 0x10) c

-- The three fields that are set whatever the type.
abbrev pub decoded : ℕ → Control → Control
decoded byte c = record c {
  poll_final = bit_and (byte >>> 4) 1;
  send_seq = 0;
  recv_seq = bit_and (byte >>> 5) 0x07;
}

abbrev pub typed : FrameType → Control → Outcome Control (Unit {0})
typed t c = ok tt (record c { type = t })

unfoldable pub decode_supervisory : ℕ → Call Control (Unit {0})
decode_supervisory byte c =
    let low = bit_and byte 0x0F in
    if low == 0x01
    then typed rr c
    else if low == 0x05
    then typed rnr c
    else if low == 0x09
    then typed rej c
    else err unsupported c

-- `byte & ~0x10`, on an octet.
unfoldable pub decode_unnumbered : ℕ → Call Control (Unit {0})
decode_unnumbered byte c =
    let code = bit_and byte 0xEF in
    if code == 0x83
    then typed snrm c
    else if code == 0x63
    then typed ua c
    else if code == 0x43
    then typed disc c
    else if code == 0x0F
    then typed dm c
    else if code == 0x87
    then typed frmr c
    else if code == 0x03
    then typed ui c
    else if code == 0xAF
    then typed xid c
    else err unsupported c

unfoldable pub hdlc_control_decode : ℕ → Call Control (Unit {0})
unfolding decode_supervisory decode_unnumbered
hdlc_control_decode byte c =
    let c' = decoded byte c in
    if bit_and byte 0x01 == 0
    then ok tt (record c' { type = i_frame; send_seq = bit_and (byte >>> 1) 0x07 })
    else if bit_and byte 0x03 == 0x01
    then decode_supervisory byte c'
    else decode_unnumbered byte c'

-- What `memset` leaves: OSP_HDLC_TYPE_I is 0.
abbrev pub zero_control : Control
zero_control = record { type = i_frame; poll_final = 0; send_seq = 0; recv_seq = 0 }
