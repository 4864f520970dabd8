-- ===== src/Transport/Frame/Build.antt =====
-- The octets that `osp_hdlc_frame` writes: their parts, and how many there are.
use openspodes.Prelude.{
  ℕ, ◌+◌, ◌≤◌, ◌<◌, ◌≡◌, refl, ap, ◌∙◌, List, [], ◌∷◌, ◌++◌, length, length-append, append_assoc,
  append-nil, arith, ltb, if◌then◌else◌, u8, ◌>>>◌, bit_and, bit_or,
}
use native.Mathlib.Decide.{dec_lt}
use openspodes.Transport.Crc.{hdlc_fcs16}
use openspodes.Transport.Control.{hdlc_control_encode}
use openspodes.Transport.Frame.{
  HdlcFrame, make_frame_length, check_octets, frame_header, frame_body,
}

-- The parts of a frame fit: addresses of at most four octets, an information field of at most 1024.
pub record Fits (f : HdlcFrame) : Type 0 where
  pub destination_fits : length f.destination ≤ 4
  pub source_fits : length f.source ≤ 4
  pub info_fits : length f.info ≤ 1024

-- The information field with its check sequence in front, where there is one.
unfoldable pub info_part : HdlcFrame → List ℕ
info_part f =
    if ltb 0 (length f.info) then check_octets (hdlc_fcs16 (frame_header f)) ++ f.info else []

abbrev pub format_high : HdlcFrame → ℕ
format_high f = bit_or 0xA0 (bit_and (make_frame_length f >>> 8) 0x07)

abbrev pub format_low : HdlcFrame → ℕ
format_low f = u8 (bit_and (make_frame_length f) 0xFF)

pub frame_body_parts : (f : HdlcFrame) → frame_body f ≡ frame_header f ++ info_part f
unfolding frame_body info_part
frame_body_parts f = elim (dec_lt 0 (length f.info)) [
  | yes h ↦ ground arith
  | no h ↦ ground (arith, append-nil (frame_header f))
]

pub frame_header_parts :
    (f : HdlcFrame)
    → frame_header f
      ≡ format_high f
        ∷ format_low f
        ∷ (f.destination ++ (f.source ++ (hdlc_control_encode f.control ∷ [])))
unfolding frame_header
frame_header_parts f = refl

pub frame_body_fields :
    (f : HdlcFrame) (rest : List ℕ)
    → frame_body f ++ rest
      ≡ format_high f
        ∷ format_low f
        ∷ (f.destination ++ (f.source ++ (hdlc_control_encode f.control ∷ (info_part f ++ rest))))
frame_body_fields f rest =
    ap (λ t. t ++ rest) (frame_body_parts f ∙ ap (λ t. t ++ info_part f) (frame_header_parts f))
    ∙ ap (λ t. format_high f ∷ format_low f ∷ t) (simp append_assoc)

length-info_part :
    (f : HdlcFrame)
    → length (info_part f) ≡ (if ltb 0 (length f.info) then 2 + length f.info else 0)
unfolding info_part
length-info_part f =
    ground (arith, length-append (check_octets (hdlc_fcs16 (frame_header f))) f.info)

pub length-frame_body :
    (f : HdlcFrame)
    → length (frame_body f) ≡ 3 + length f.destination + length f.source + length (info_part f)
length-frame_body f = omega (
  arith,
  ap length (frame_body_parts f),
  ap length (frame_header_parts f),
  length-append (frame_header f) (info_part f),
  length-append f.destination (f.source ++ (hdlc_control_encode f.control ∷ [])),
  length-append f.source (hdlc_control_encode f.control ∷ []),
)

-- The length field counts all but the two flags, and does not wrap.
pub make_frame_length_lem :
    (f : HdlcFrame) → Fits f → make_frame_length f ≡ length (frame_body f) + 2
unfolding make_frame_length
make_frame_length_lem f h = ground (arith, length-frame_body f, length-info_part f)

pub frame_length_small : (f : HdlcFrame) → Fits f → make_frame_length f < 2048
frame_length_small f h =
    ground (arith, make_frame_length_lem f h, length-frame_body f, length-info_part f)

pub frame_length_bound : (f : HdlcFrame) → Fits f → make_frame_length f ≤ 1039
frame_length_bound f h =
    ground (arith, make_frame_length_lem f h, length-frame_body f, length-info_part f)
