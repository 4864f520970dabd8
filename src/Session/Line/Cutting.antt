-- ===== src/Session/Line/Cutting.antt =====
-- What the loop over the buffered octets cuts out.
use openspodes.Prelude.{
  ℕ, zero, suc, ◌+◌, ◌-◌, ◌≤◌, ◌<◌, ◌≡◌, ◌≢◌, refl, sym, ◌∙◌, ap, arith, Bool, true, false, List,
  [], ◌∷◌, ◌++◌, length, subst, length-append, get_or, take, drop, ltb, ◌==◌, not, if◌then◌else◌,
  bit_and,
}
use openspodes.Prelude.Slices.{take-length-append, drop-length-append}
use openspodes.Transport.Control.{Control, zero_control, hdlc_control_encode}
use openspodes.Transport.Frame.{
  HdlcFrame, zero_frame, hdlc_frame, hdlc_deframe, hdlc_flag, make_frame_length,
}
use openspodes.Transport.Frame.Build.{
  info_part, format_high, format_low, make_frame_length_lem, frame_length_small, frame_length_bound,
  length-frame_body,
}
use openspodes.Transport.Frame.Parse.{format_field}
use openspodes.Transport.Frame.RoundTrip.{
  IsFrame, octets, trailer, from_format, length-octets, last_flag, framed, deframed, received,
}
use openspodes.Transport.Control.RoundTrip.{Carries, control_decode-encode}
use openspodes.Err.{ok, done}
use openspodes.Session.Send.{line_size}
use openspodes.Session.Line.{Scan, candidate, waiting, scan, need}

-- What waits for more octets leaves room for at least one in the buffer.
abbrev pub HasRoom : Scan → Type 0
HasRoom (candidate d rest) = Unit
HasRoom (waiting d) = length d < line_size

-- Whatever has arrived, the octets that the loop leaves waiting are fewer than the buffer holds: the
-- next call of the transport is given room for one octet at least, and the test for a full buffer
-- before it never succeeds.
pub scan-HasRoom : (d : List ℕ) → HasRoom (scan d)
unfolding scan
scan-HasRoom [] = omega arith
scan-HasRoom (x ∷ xs) =
    let ih = scan-HasRoom xs in
    let d = x ∷ xs in
    either (not (x == hdlc_flag)) _ _ (λ _. ih)
      λ _.
        either (ltb (length d) 3) _ _ (λ few. ground arith)
          λ _.
            either (not (bit_and (get_or d 1 0) 0xF0 == 0xA0)) _ _ (λ _. ih)
              λ _.
                either (ltb line_size (need d)) _ _ (λ _. ih)
                  λ fits.
                    either (ltb (length d) (need d)) _ _ (λ few. ground arith)
                      λ _.
                        either (not (get_or d (need d - 1) 0 == hdlc_flag)) _ _ (λ _. ih) (λ _. tt)
  where
    either :
        (b : Bool) (r r' : Scan)
        → (b ≡ true → HasRoom r)
        → (b ≡ false → HasRoom r')
        → HasRoom (if b then r else r')
    either true r r' h k = h refl
    either false r r' h k = k refl

get_or-front : (xs ys : List ℕ) (i : ℕ) → i < length xs → get_or (xs ++ ys) i 0 ≡ get_or xs i 0
get_or-front [] ys i h = absurd (omega arith)
get_or-front (x ∷ xs) ys zero h = refl
get_or-front (x ∷ xs) ys (suc i) h = get_or-front xs ys i (omega arith)

-- Octets that begin with a flag and a format field of type A, are as many as its length asks for,
-- no more than the buffer holds, and end with a flag, are cut out.
scan_whole :
    (hi lo : ℕ) (t rest : List ℕ)
    → bit_and hi 0xF0 ≡ 0xA0
    → need (hdlc_flag ∷ hi ∷ lo ∷ t) ≡ 3 + length t
    → 3 + length t ≤ line_size
    → get_or t (length t - 1) 0 ≡ hdlc_flag
    → 1 ≤ length t
    → scan ((hdlc_flag ∷ hi ∷ lo ∷ t) ++ rest) ≡ candidate (hdlc_flag ∷ hi ∷ lo ∷ t) rest
unfolding scan
scan_whole hi lo t rest type_a count small last some_t =
    let d = hdlc_flag ∷ hi ∷ lo ∷ t in
    let long : ltb (length (d ++ rest)) 3 ≡ false = ground arith in
    let room : ltb line_size (3 + length t) ≡ false = ground arith in
    let enough : ltb (length (d ++ rest)) (3 + length t) ≡ false =
      ground (arith, length-append d rest) in
    let at : 3 + length t - 1 ≡ suc (suc (suc (length t - 1))) = omega arith in
    let end : get_or (d ++ rest) (3 + length t - 1) 0 ≡ hdlc_flag =
      ap (λ (i : ℕ). get_or (d ++ rest) i 0) at
      ∙ get_or-front t rest (length t - 1) (omega arith)
      ∙ last in
    rw
      (
        long,
        type_a,
        count,
        room,
        enough,
        end,
        ap (λ (n : ℕ). take n (d ++ rest)) {x = 3 + length t} {y = length d} (omega arith)
            ∙ take-length-append d rest,
        ap (λ (n : ℕ). drop n (d ++ rest)) {x = 3 + length t} {y = length d} (omega arith)
            ∙ drop-length-append d rest,
      )
      refl

-- Octets that are no flag in front of it are skipped.
abbrev pub AllQuiet : List ℕ → Type 0
AllQuiet [] = Unit
AllQuiet (x ∷ xs) = (x ≢ hdlc_flag) × AllQuiet xs

scan_quiet : (noise d : List ℕ) → AllQuiet noise → scan (noise ++ d) ≡ scan d
unfolding scan
scan_quiet [] d h = refl
scan_quiet (x ∷ xs) d h = ground (arith, scan_quiet xs d h.1)

abbrev tail_octets : HdlcFrame → List ℕ
tail_octets f =
    (f.destination ++ (f.source ++ (hdlc_control_encode f.control ∷ (info_part f ++ trailer f))))

module _ (f : HdlcFrame) (h : IsFrame f) where
  octets_parts : octets f ≡ hdlc_flag ∷ format_high f ∷ format_low f ∷ tail_octets f
  octets_parts = ap (λ t. hdlc_flag ∷ t) (from_format f)

  tail_length : 3 + length (tail_octets f) ≡ make_frame_length f + 2
  tail_length =
      omega (arith, ap length octets_parts, length-octets f, make_frame_length_lem f h.fits)

  some_tail : 1 ≤ length (tail_octets f)
  some_tail = omega (arith, tail_length, make_frame_length_lem f h.fits, length-frame_body f)

  tail_last : get_or (tail_octets f) (length (tail_octets f) - 1) 0 ≡ hdlc_flag
  tail_last =
      let at : length (octets f) - 1 ≡ suc (suc (suc (length (tail_octets f) - 1))) =
        omega (arith, tail_length, make_frame_length_lem f h.fits, length-octets f, some_tail) in
      sym (ap (λ d. get_or d (suc (suc (suc (length (tail_octets f) - 1)))) 0) octets_parts)
      ∙ sym (ap (λ (i : ℕ). get_or (octets f) i 0) at)
      ∙ last_flag f

  -- A frame is cut out of the octets that arrive: noise without a flag is dropped, and what comes
  -- behind the frame is left for later.
  cut_frame :
      (noise rest : List ℕ)
      → AllQuiet noise
      → scan (noise ++ (octets f ++ rest)) ≡ candidate (octets f) rest
  cut_frame noise rest quiet =
      let (type_a, segment, count) =
        format_field (make_frame_length f) (frame_length_small f h.fits) in
      scan_quiet noise (octets f ++ rest) quiet
      ∙ subst (λ d. scan (d ++ rest) ≡ candidate d rest) (sym octets_parts)
          (scan_whole (format_high f) (format_low f) (tail_octets f) rest type_a
            (omega (arith, count, tail_length))
            (omega (arith, tail_length, frame_length_bound f h.fits)) tail_last some_tail)

-- What a sender writes for a frame that fits its limits is cut out whole, whatever noise without a
-- flag is in front of it and whatever follows, which is left for later; and `osp_hdlc_deframe` of
-- what is cut out gives the frame back: its addresses, its information field, and a control field
-- of its type that carries its poll/final bit and its sequence numbers.
pub scan-frame :
    (f : HdlcFrame) (noise rest : List ℕ)
    → IsFrame f
    → AllQuiet noise
    → (d : List ℕ) × (c : Control) × (hdlc_frame f line_size ≡ done d)
      × (scan (noise ++ (d ++ rest)) ≡ candidate d rest)
      × (hdlc_deframe d zero_frame ≡ ok tt (received f c))
      × (c.type ≡ f.control.type)
      × Carries f.control.type f.control c
scan-frame f noise rest h quiet =
    let (c, decodes, same, carried) =
      control_decode-encode f.control zero_control h.control_ok h.not_sabm in
    (
      octets f,
      c,
      framed f h line_size (omega (arith, frame_length_bound f h.fits)),
      cut_frame f h noise rest quiet,
      deframed f h zero_frame c decodes,
      same,
      carried,
    )
