-- ===== src/Transport/Frame/RoundTrip.antt =====
-- `osp_hdlc_deframe` reads back the frame that `osp_hdlc_frame` wrote.
use openspodes.Prelude.{
  ℕ, ◌+◌, ◌-◌, ◌^◌, ◌≤◌, ◌<◌, ◌≡◌, ◌≢◌, refl, sym, ap, ◌∙◌, true, false, List, [], ◌∷◌, ◌++◌,
  length, length-append, append_assoc, get_or, take, drop, arith, ltb, leb, ◌==◌, ◌||◌, ==_iff,
  lt→ltb,
}
use native.Mathlib.Decide.{dec_lt}
use openspodes.Prelude.Slices.{drop-length-append, take-length-append}
use openspodes.Prelude.Xor.{xor-lt}
use openspodes.Err.{ok, done}
use openspodes.Transport.Crc.{hdlc_fcs16, fcs_loop}
use openspodes.Transport.Address.{max_addr_len}
use openspodes.Transport.Address.RoundTrip.{IsAddress}
use openspodes.Transport.Control.{
  Control, sabm, zero_control, hdlc_control_encode, hdlc_control_decode,
}
use openspodes.Transport.Control.RoundTrip.{IsControl, Carries, control_decode-encode}
use openspodes.Transport.Frame.{
  HdlcFrame, zero_frame, hdlc_flag, make_frame_length, check_octets, check_word, frame_header,
  frame_body, hdlc_frame, hdlc_deframe, deframe_addresses, deframe_control, deframe_info,
  read_address, info_count,
}
use openspodes.Transport.Frame.Safety.{fcs_loop-lt}
use openspodes.Transport.Frame.Build.{
  Fits, info_part, format_high, format_low, frame_body_parts, frame_body_fields, length-frame_body,
  make_frame_length_lem, frame_length_small,
}
use openspodes.Transport.Frame.Parse.{
  get_at, drop_at, drop_past, read_address_lem, check_word_lem, format_field,
}

-- A frame that the sender may send: both addresses end as addresses do, and the control field is in
-- range and no SABM.
pub record IsFrame (f : HdlcFrame) : Type 0 where
  pub fits : Fits f
  pub destination_ok : IsAddress f.destination
  pub source_ok : IsAddress f.source
  pub control_ok : IsControl f.control
  pub not_sabm : f.control.type ≢ sabm

fcs16-lt : (xs : List ℕ) → hdlc_fcs16 xs < 2 ^ 16
unfolding hdlc_fcs16
fcs16-lt xs =
    xor-lt 16 (fcs_loop 0xFFFF xs) 0xFFFF (fcs_loop-lt xs 0xFFFF (omega arith)) (omega arith)

abbrev pub trailer : HdlcFrame → List ℕ
trailer f = check_octets (hdlc_fcs16 (frame_body f)) ++ (hdlc_flag ∷ [])

abbrev pub octets : HdlcFrame → List ℕ
octets f = hdlc_flag ∷ (frame_body f ++ trailer f)

-- What is left of the octets from each field on.
module _ (f : HdlcFrame) where
  pub length-octets : length (octets f) ≡ length (frame_body f) + 4
  length-octets = omega (arith, length-append (frame_body f) (trailer f))

  pub from_format :
      drop 1 (octets f)
      ≡ format_high f
        ∷ format_low f
        ∷ (f.destination
            ++ (f.source ++ (hdlc_control_encode f.control ∷ (info_part f ++ trailer f))))
  from_format = frame_body_fields f (trailer f)

  from_destination :
      drop 3 (octets f)
      ≡ f.destination ++ (f.source ++ (hdlc_control_encode f.control ∷ (info_part f ++ trailer f)))
  from_destination = ap (drop 2) from_format

  from_source :
      drop (3 + length f.destination) (octets f)
      ≡ f.source ++ (hdlc_control_encode f.control ∷ (info_part f ++ trailer f))
  from_source = drop_past (octets f) 3 f.destination _ from_destination

  from_control :
      drop (3 + length f.destination + length f.source) (octets f)
      ≡ hdlc_control_encode f.control ∷ (info_part f ++ trailer f)
  from_control = drop_past (octets f) (3 + length f.destination) f.source _ from_source

  from_info :
      drop (3 + length f.destination + length f.source + 1) (octets f) ≡ info_part f ++ trailer f
  from_info = drop_at (octets f) (3 + length f.destination + length f.source) _ _ from_control

  from_trailer : drop (length (octets f) - 3) (octets f) ≡ trailer f
  from_trailer =
      ap (λ (t : ℕ). drop t (octets f)) {y = length (hdlc_flag ∷ frame_body f)}
        (omega (arith, length-octets))
      ∙ drop-length-append (hdlc_flag ∷ frame_body f) (trailer f)

  body_checked : take (length (octets f) - 4) (drop 1 (octets f)) ≡ frame_body f
  body_checked =
      ap (λ (t : ℕ). take t (frame_body f ++ trailer f)) {y = length (frame_body f)}
        (omega (arith, length-octets))
      ∙ take-length-append (frame_body f) (trailer f)

  header_checked :
      take (3 + length f.destination + length f.source) (drop 1 (octets f)) ≡ frame_header f
  header_checked =
      ap (λ (t : ℕ). take t (frame_body f ++ trailer f)) {y = length (frame_header f)}
        (omega (
          arith,
          length-frame_body f,
          ap length (frame_body_parts f),
          length-append (frame_header f) (info_part f),
        ))
      ∙ ap (take (length (frame_header f))) (
          ap (λ t. t ++ trailer f) (frame_body_parts f)
          ∙ append_assoc (frame_header f) (info_part f) (trailer f))
      ∙ take-length-append (frame_header f) (info_part f ++ trailer f)

  pub last_flag : get_or (octets f) (length (octets f) - 1) 0 ≡ hdlc_flag
  last_flag =
      let n = length (octets f) - 3 in
      ap (λ (t : ℕ). get_or (octets f) t 0) {y = n + 1 + 1} (omega (arith, length-octets))
      ∙ get_at (octets f) (n + 1 + 1) hdlc_flag []
          (drop_at (octets f) (n + 1) _ _ (drop_at (octets f) n _ _ from_trailer))

  fcs_checked : check_word (octets f) (length (octets f) - 3) ≡ hdlc_fcs16 (frame_body f)
  fcs_checked =
      check_word_lem (octets f) (length (octets f) - 3) (hdlc_fcs16 (frame_body f)) (hdlc_flag ∷ [])
        (fcs16-lt (frame_body f)) from_trailer

-- What the receiver has of a frame: the control field as decoded, and its octet.
abbrev pub received : HdlcFrame → Control → HdlcFrame
received f c = record f { control = c; control_raw = hdlc_control_encode f.control; segmented = 0 }

module _ (f : HdlcFrame) (h : IsFrame f) where
  stop : ℕ
  stop = length (octets f) - 3

  -- The control octet's place.
  place : ℕ
  place = 3 + length f.destination + length f.source

  stop-place : stop ≡ place + 1 + length (info_part f)
  unfolding stop place
  stop-place = omega (arith, length-octets f, length-frame_body f)

  module _ (some_info : 0 < length f.info) where
    info_part_some : info_part f ≡ check_octets (hdlc_fcs16 (frame_header f)) ++ f.info
    unfolding info_part
    info_part_some = ground arith

    info_from :
        drop (place + 1) (octets f)
        ≡ check_octets (hdlc_fcs16 (frame_header f)) ++ (f.info ++ trailer f)
    unfolding place
    info_from = from_info f ∙ ap (λ t. t ++ trailer f) info_part_some

    hcs_checked :
        check_word (octets f) (place + 1) ≡ hdlc_fcs16 (take (place + 1 - 1) (drop 1 (octets f)))
    unfolding place
    hcs_checked =
        check_word_lem (octets f) (place + 1) (hdlc_fcs16 (frame_header f)) (f.info ++ trailer f)
          (fcs16-lt (frame_header f)) info_from
        ∙ ap hdlc_fcs16
            (sym (ap (λ (t : ℕ). take t (drop 1 (octets f))) (omega arith) ∙ header_checked f))

    count_exact : info_count stop (place + 1 + 2) ≡ length f.info
    unfolding info_count
    count_exact = ground (arith, stop-place, ap length info_part_some, h.fits.info_fits)

    info_taken : take (info_count stop (place + 1 + 2)) (drop (place + 1 + 2) (octets f)) ≡ f.info
    info_taken =
        ap (take (info_count stop (place + 1 + 2))) (
          drop_past (octets f) (place + 1) (check_octets (hdlc_fcs16 (frame_header f)))
            (f.info ++ trailer f) info_from)
        ∙ ap (λ (t : ℕ). take t (f.info ++ trailer f)) count_exact
        ∙ take-length-append f.info (trailer f)

    before_stop : place + 1 < stop
    before_stop = omega (arith, stop-place, ap length info_part_some)

    info_read_some :
        (g : HdlcFrame)
        → deframe_info (octets f) stop (place + 1) g ≡ ok tt (record g { info = f.info })
    unfolding deframe_info
    info_read_some g =
        rw
          (
            lt→ltb (place + 1) stop before_stop,
            (==_iff (check_word (octets f) (place + 1)) _).1 hcs_checked,
            info_taken,
          )
          refl

  nil_of_length : (xs : List ℕ) → length xs ≡ 0 → xs ≡ []
  nil_of_length [] e = refl
  nil_of_length (x ∷ xs) e = absurd (omega arith)

  info_part_none : length f.info ≡ 0 → length (info_part f) ≡ 0
  unfolding info_part
  info_part_none none = ground arith

  info_read_none :
      (g : HdlcFrame)
      → length f.info ≡ 0
      → g.info ≡ []
      → deframe_info (octets f) stop (place + 1) g ≡ ok tt (record g { info = f.info })
  unfolding deframe_info
  info_read_none g none e =
      let past : ltb (place + 1) stop ≡ false = ground (arith, stop-place, info_part_none none) in
      rw past (ap (λ t. ok tt (record g { info = t })) (e ∙ sym (nil_of_length f.info none)))

  info_read :
      (g : HdlcFrame)
      → g.info ≡ []
      → deframe_info (octets f) stop (place + 1) g ≡ ok tt (record g { info = f.info })
  info_read g e = elim (dec_lt 0 (length f.info)) [
    | yes some_info ↦ info_read_some some_info g
    | no none ↦ info_read_none g (omega arith) e
  ]

  control_here : drop place (octets f) ≡ hdlc_control_encode f.control ∷ (info_part f ++ trailer f)
  unfolding place
  control_here = from_control f

  stop_past : place ≤ stop
  stop_past = omega (arith, stop-place)

  destination_inside : 3 + length f.destination ≤ stop
  unfolding place
  destination_inside = omega (arith, stop_past)

  destination_read :
      read_address max_addr_len (octets f) stop 3 ≡ (f.destination, 3 + length f.destination)
  destination_read =
      read_address_lem (octets f) stop f.destination max_addr_len 3 _ h.destination_ok
        h.fits.destination_fits destination_inside (from_destination f)

  source_read :
      read_address max_addr_len (octets f) stop (3 + length f.destination) ≡ (f.source, place)
  unfolding place
  source_read =
      read_address_lem (octets f) stop f.source max_addr_len (3 + length f.destination) _
        h.source_ok h.fits.source_fits stop_past (from_source f)

  control_read :
      (g : HdlcFrame) (c : Control)
      → g.info ≡ []
      → hdlc_control_decode (hdlc_control_encode f.control) g.control ≡ ok tt c
      → deframe_control (octets f) stop place g
        ≡ ok tt
            (record g { info = f.info; control = c; control_raw = hdlc_control_encode f.control })
  unfolding deframe_control
  control_read g c e d =
      let inside : leb stop place ≡ false = ground (arith, stop-place) in
      let byte = get_at (octets f) place _ _ control_here in
      rw (inside, byte, d)
        (info_read (record g { control = c; control_raw = hdlc_control_encode f.control }) e)

  addresses_read :
      (g : HdlcFrame) (c : Control)
      → g.info ≡ []
      → hdlc_control_decode (hdlc_control_encode f.control) g.control ≡ ok tt c
      → deframe_addresses (octets f) stop g
        ≡ ok tt (record g {
          destination = f.destination;
          source = f.source;
          info = f.info;
          control = c;
          control_raw = hdlc_control_encode f.control;
        })
  unfolding deframe_addresses
  addresses_read g c e d =
      rw (destination_read, source_read)
        (control_read (record g { destination = f.destination; source = f.source }) c e d)

  whole_length : make_frame_length f + 2 ≡ length (octets f)
  whole_length = omega (arith, make_frame_length_lem f h.fits, length-octets f)

  format_octets : (get_or (octets f) 1 0 ≡ format_high f) × (get_or (octets f) 2 0 ≡ format_low f)
  format_octets = (
    get_at (octets f) 1 _ _ (from_format f),
    get_at (octets f) 2 _ _ (ap (drop 1) (from_format f)),
  )

  length_field_fits :
      ltb (make_frame_length f) 4 || ltb (length (octets f)) (make_frame_length f + 2) ≡ false
  length_field_fits = ground (arith, whole_length, length-octets f, length-frame_body f)

  fcs_right :
      (hdlc_fcs16 (take (length (octets f) - 4) (drop 1 (octets f)))
        == check_word (octets f) (length (octets f) - 3))
      ≡ true
  fcs_right =
      (==_iff (hdlc_fcs16 (take (length (octets f) - 4) (drop 1 (octets f)))) _).1
        (ap hdlc_fcs16 (body_checked f) ∙ sym (fcs_checked f))

  pub deframed :
      (g : HdlcFrame) (c : Control)
      → hdlc_control_decode (hdlc_control_encode f.control) zero_control ≡ ok tt c
      → hdlc_deframe (octets f) g ≡ ok tt (received f c)
  unfolding hdlc_deframe stop
  deframed g c d =
      let (high, segment, count) =
        format_field (make_frame_length f) (frame_length_small f h.fits) in
      let long : ltb (length (octets f)) 6 ≡ false =
        ground (arith, length-octets f, length-frame_body f) in
      rw
        (
          long,
          last_flag f,
          format_octets.0,
          format_octets.1,
          high,
          segment,
          count,
          length_field_fits,
          fcs_right,
        )
        fields_read
    where
      fields_read :
          deframe_addresses (octets f) (length (octets f) - 3) zero_frame ≡ ok tt (received f c)
      fields_read = addresses_read zero_frame c refl d

  pub framed : (max : ℕ) → make_frame_length f + 4 ≤ max → hdlc_frame f max ≡ done (octets f)
  unfolding hdlc_frame
  framed max room = let small = frame_length_small f h.fits in ground arith

-- A frame that fits the sender's limits (addresses that end as addresses do, of at most four octets,
-- a control field in range and no SABM, at most 1024 octets of information) is written in a buffer
-- with room for it, and `osp_hdlc_deframe` of those octets, whatever its structure held, gives the
-- frame back: its addresses, its information field, and a control field of its type that carries
-- its poll/final bit and its sequence numbers.
pub deframe-frame :
    (f g : HdlcFrame) (max : ℕ)
    → IsFrame f
    → make_frame_length f + 4 ≤ max
    → (d : List ℕ) × (c : Control) × (hdlc_frame f max ≡ done d)
      × (hdlc_deframe d g ≡ ok tt (received f c))
      × (c.type ≡ f.control.type)
      × Carries f.control.type f.control c
deframe-frame f g max h room =
    let (c, decodes, same, carried) =
      control_decode-encode f.control zero_control h.control_ok h.not_sabm in
    (octets f, c, framed f h max room, deframed f h g c decodes, same, carried)
