-- ===== src/Transport/Frame.antt =====
-- src/transport/transport.c, "HDLC frame encode" and "HDLC frame decode". A byte array with its
-- length is the list of its octets; `info` holds the `info_len` octets in use.
pub mod Build
pub mod Parse
pub mod RoundTrip
pub mod Safety
pub mod InBounds
use openspodes.Prelude.{
  ℕ, zero, suc, ◌+◌, ◌-◌, ◌*◌, Bool, true, false, ◌||◌, List, [], ◌∷◌, ◌++◌, length, get_or, take,
  drop, ltb, leb, ◌==◌, not, if◌then◌else◌, u8, u16, u32, sub32, ◌<<◌, ◌>>>◌, bit_and, bit_or,
}
use openspodes.Err.{Call, Outcome, ok, err, Result, done, refused, nomem, invalid}
use openspodes.Transport.Crc.{hdlc_fcs16}
use openspodes.Transport.Address.{HdlcAddress, max_addr_len}
use openspodes.Transport.Control.{Control, hdlc_control_encode, hdlc_control_decode, zero_control}

abbrev pub hdlc_flag : ℕ
hdlc_flag = 0x7E

abbrev pub max_frame_size : ℕ
max_frame_size = 1024

pub record HdlcFrame : Type 0 where
  pub destination : HdlcAddress
  pub source : HdlcAddress
  pub control : Control
  pub control_raw : ℕ
  pub segmented : ℕ
  pub info : List ℕ

abbrev pub zero_frame : HdlcFrame
zero_frame = record {
  destination = [];
  source = [];
  control = zero_control;
  control_raw = 0;
  segmented = 0;
  info = [];
}

unfoldable pub make_frame_length : HdlcFrame → ℕ
make_frame_length f =
    let len = u16 (length f.destination + length f.source + 1) in
    let len' = if ltb 0 (length f.info) then u16 (len + (2 + length f.info)) else len in
    u16 (u16 (len' + 2) + 2)

-- The low octet first.
abbrev pub check_octets : ℕ → List ℕ
check_octets w = u8 (bit_and w 0xFF) ∷ u8 (w >>> 8) ∷ []

-- From the format field to the control octet.
unfoldable pub frame_header : HdlcFrame → List ℕ
frame_header f =
    let flen = make_frame_length f in
    bit_or 0xA0 (bit_and (flen >>> 8) 0x07)
    ∷ u8 (bit_and flen 0xFF)
    ∷ (f.destination ++ (f.source ++ (hdlc_control_encode f.control ∷ [])))

-- And on to the end of the information field, which has a check sequence of its own in front.
unfoldable pub frame_body : HdlcFrame → List ℕ
frame_body f =
    if ltb 0 (length f.info)
    then frame_header f ++ (check_octets (hdlc_fcs16 (frame_header f)) ++ f.info)
    else frame_header f

unfoldable pub hdlc_frame : HdlcFrame → ℕ → Result (List ℕ)
hdlc_frame f max_len =
    let total = u32 (1 + 2 + make_frame_length f + 1) in
    if ltb max_len total
    then refused nomem
    else done (
        hdlc_flag
        ∷ (frame_body f ++ (check_octets (hdlc_fcs16 (frame_body f)) ++ (hdlc_flag ∷ []))))

-- `while (idx < len - 3 && length < OSP_HDLC_MAX_ADDR_LEN)`: the octets, and where to go on.
unfoldable pub read_address : ℕ → List ℕ → ℕ → ℕ → HdlcAddress × ℕ
read_address zero d stop idx = ([], idx)
read_address (suc room) d stop idx =
    let x = get_or d idx 0 in
    let rest = read_address room d stop (idx + 1) in
    if ltb idx stop
    then (if bit_and x 0x01 == 0 then (x ∷ rest.0, rest.1) else (x ∷ [], idx + 1))
    else ([], idx)

-- `data[i] | data[i + 1] << 8`
abbrev pub check_word : List ℕ → ℕ → ℕ
check_word d i = bit_or (get_or d i 0) (get_or d (i + 1) 0 << 8)

-- The octets from `idx` on that reach `frame->info`: the count wraps as `uint32_t`, is cut to
-- `uint16_t` and then to the size of the array. What lies behind the input has no octets here;
-- InBounds shows that no count ever reaches there.
unfoldable pub info_count : ℕ → ℕ → ℕ
info_count fcs_start idx =
    let n = u16 (sub32 fcs_start idx) in if ltb max_frame_size n then max_frame_size else n

unfoldable pub deframe_info : List ℕ → ℕ → ℕ → Call HdlcFrame (Unit {0})
deframe_info d fcs_start idx f =
    if ltb idx fcs_start
    then (if not (check_word d idx == hdlc_fcs16 (take (idx - 1) (drop 1 d)))
        then err invalid f
        else ok tt (record f { info = take (info_count fcs_start (idx + 2)) (drop (idx + 2) d) }))
    else ok tt f

abbrev pub with_control :
    HdlcFrame
    → Outcome Control (Unit {0})
    → (Call HdlcFrame (Unit {0}))
    → Outcome HdlcFrame (Unit {0})
with_control f (ok u c) go = go (record f { control = c })
with_control f (err e c) go = err e (record f { control = c })

unfoldable pub deframe_control : List ℕ → ℕ → ℕ → Call HdlcFrame (Unit {0})
deframe_control d stop idx f =
    if leb stop idx
    then err invalid f
    else let byte = get_or d idx 0 in
      with_control (record f { control_raw = byte }) (hdlc_control_decode byte f.control)
        (deframe_info d stop (idx + 1))

-- Both addresses, then the control octet.
unfoldable pub deframe_addresses : List ℕ → ℕ → Call HdlcFrame (Unit {0})
deframe_addresses d stop f =
    let dst = read_address max_addr_len d stop 3 in
    let src = read_address max_addr_len d stop dst.1 in
    deframe_control d stop src.1 (record f { destination = dst.0; source = src.0 })

abbrev pub frame_length_field : List ℕ → ℕ
frame_length_field d = bit_or (bit_and (get_or d 1 0) 0x07 << 8) (get_or d 2 0)

unfoldable pub hdlc_deframe : List ℕ → Call HdlcFrame (Unit {0})
hdlc_deframe d f =
    let len = length d in
    if ltb len 6
    then err invalid f
    else if not (get_or d 0 0 == hdlc_flag) || not (get_or d (len - 1) 0 == hdlc_flag)
    then err invalid f
    else if not (bit_and (get_or d 1 0) 0xF0 == 0xA0)
    then err invalid zero_frame
    else let f' = record zero_frame {
      segmented = (if bit_and (get_or d 1 0) 0x08 == 0 then 0 else 1);
    } in
      if ltb (frame_length_field d) 4 || ltb len (frame_length_field d + 2)
      then err invalid f'
      else if not (hdlc_fcs16 (take (len - 4) (drop 1 d)) == check_word d (len - 3))
      then err invalid f'
      else deframe_addresses d (len - 3) f'
