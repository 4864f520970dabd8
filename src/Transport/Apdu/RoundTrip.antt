-- ===== src/Transport/Apdu/RoundTrip.antt =====
-- `osp_transport_recv_apdu` gets what `osp_transport_send_apdu` sent, over every framing.
use openspodes.Prelude.{
  ℕ, ◌+◌, ◌^◌, ◌%◌, ◌≤◌, ◌<◌, ◌≡◌, ◌≢◌, refl, sym, ◌∙◌, ap, arith, List, [], length, length-take,
  append-nil, take,
}
use openspodes.Err.{Call, ok, done}
use openspodes.Prelude.Slices.{take-length}
use openspodes.Transport.Address.{hdlc_address_init, address_groups, address_octets}
use openspodes.Transport.Control.{i_frame, sabm, zero_control}
use openspodes.Transport.Control.RoundTrip.{control_decode-encode}
use openspodes.Transport.Frame.{HdlcFrame, zero_frame, max_frame_size, hdlc_deframe}
use openspodes.Transport.Frame.Build.{frame_length_bound, make_frame_length_lem}
use openspodes.Transport.Frame.RoundTrip.{
  IsFrame, octets, length-octets, framed, deframed, received,
}
use openspodes.Transport.Wrapper.{WrapperHeader, wrapper_decode, wrapper_encode}
use openspodes.Transport.Wrapper.RoundTrip.{wrapper_decode-encode}
use openspodes.Transport.Apdu.{
  Framing, unframed, hdlc, wrapper, framed_size, apdu_frame, frame_apdu, unframe_apdu, blank_header,
  copied, transport_send_apdu, transport_recv_apdu,
}

-- What is left of an APDU, and which the framing takes.
abbrev pub carried : Framing → List ℕ → List ℕ
carried hdlc apdu = take max_frame_size apdu
carried _ apdu = apdu

abbrev pub Accepts : Framing → List ℕ → Type 0
Accepts hdlc apdu = Unit
Accepts wrapper apdu = length apdu + 8 ≤ framed_size
Accepts unframed apdu = length apdu ≤ framed_size

not-sabm : i_frame ≢ sabm
not-sabm = ground arith

apdu_frame-IsFrame : (apdu : List ℕ) → IsFrame (apdu_frame apdu)
unfolding hdlc_address_init address_groups address_octets
apdu_frame-IsFrame apdu = record {
  fits = record {
    destination_fits = omega arith;
    source_fits = omega arith;
    info_fits = omega (arith, length-take max_frame_size apdu);
  };
  destination_ok = omega arith;
  source_ok = omega arith;
  control_ok = (omega arith, omega arith, omega arith);
  not_sabm = not-sabm;
}

abbrev Survives : Framing → ℕ → ℕ → List ℕ → ℕ → Type 0
Survives framing source dest apdu buf_size =
    (d : List ℕ) × (0 < length d)
    × (length d ≤ framed_size)
    × (frame_apdu framing source dest apdu ≡ done d)
    × (unframe_apdu framing buf_size d ≡ done (carried framing apdu))

copied_whole :
    (buf_size : ℕ) (apdu : List ℕ) → length apdu ≤ buf_size → copied buf_size apdu ≡ done apdu
copied_whole buf_size apdu fits = ground arith

unframe_hdlc :
    (raw : List ℕ) (buf_size : ℕ) (g : HdlcFrame)
    → hdlc_deframe raw zero_frame ≡ ok tt g
    → length g.info ≤ buf_size
    → unframe_apdu hdlc buf_size raw ≡ done g.info
unfolding unframe_apdu
unframe_hdlc raw buf_size g e fits = rw (e, unframe_apdu) (copied_whole buf_size g.info fits)

unframe_wrapper :
    (raw apdu : List ℕ) (buf_size : ℕ) (g : WrapperHeader)
    → wrapper_decode raw blank_header ≡ ok apdu g
    → length apdu ≤ buf_size
    → unframe_apdu wrapper buf_size raw ≡ done apdu
unfolding unframe_apdu
unframe_wrapper raw apdu buf_size g e fits = rw (e, unframe_apdu) (copied_whole buf_size apdu fits)

hdlc-Survives :
    (source dest : ℕ) (apdu : List ℕ) (buf_size : ℕ)
    → length (take max_frame_size apdu) ≤ buf_size
    → Survives hdlc source dest apdu buf_size
unfolding frame_apdu
hdlc-Survives source dest apdu buf_size fits =
    let f = apdu_frame apdu in
    let h = apdu_frame-IsFrame apdu in
    let (c, decodes, same, kept) =
      control_decode-encode f.control zero_control h.control_ok h.not_sabm in
    (
      octets f,
      omega (arith, length-octets f),
      omega (arith, length-octets f, make_frame_length_lem f h.fits, frame_length_bound f h.fits),
      framed f h framed_size (omega (arith, frame_length_bound f h.fits)),
      unframe_hdlc (octets f) buf_size (received f c) (deframed f h zero_frame c decodes) fits,
    )

-- Eight octets of header.
wrapped_length :
    (source dest : ℕ) (apdu d : List ℕ)
    → length apdu + 8 ≤ framed_size
    → wrapper_encode source dest apdu framed_size ≡ done d
    → length d ≡ 8 + length apdu
unfolding wrapper_encode
wrapped_length source dest apdu d small e = ground (arith, e)

wrapper-Survives :
    (source dest : ℕ) (apdu : List ℕ) (buf_size : ℕ)
    → source < 2 ^ 16
    → dest < 2 ^ 16
    → length apdu + 8 ≤ framed_size
    → length apdu ≤ buf_size
    → Survives wrapper source dest apdu buf_size
unfolding frame_apdu
wrapper-Survives source dest apdu buf_size s t small fits =
    let (d, written, read) =
      wrapper_decode-encode source dest framed_size apdu [] blank_header s t (omega arith) small in
    let whole : take (length apdu % 2 ^ 16) apdu ≡ apdu =
      ap (λ (n : ℕ). take n apdu) {y = length apdu} (omega arith) ∙ take-length apdu in
    (
      d,
      omega (arith, wrapped_length source dest apdu d small written),
      omega (arith, wrapped_length source dest apdu d small written),
      written,
      unframe_wrapper d apdu buf_size
          (record {
            version = 1;
            source = source;
            destination = dest;
            length = length apdu % 2 ^ 16;
          })
          (ap (λ t. wrapper_decode t blank_header) (sym (append-nil d)) ∙ read ∙ rw whole refl)
          fits,
    )

apdu-Survives :
    (framing : Framing) (source dest : ℕ) (apdu : List ℕ) (buf_size : ℕ)
    → source < 2 ^ 16
    → dest < 2 ^ 16
    → 0 < length apdu
    → Accepts framing apdu
    → length (carried framing apdu) ≤ buf_size
    → Survives framing source dest apdu buf_size
unfolding frame_apdu unframe_apdu
apdu-Survives hdlc source dest apdu buf_size s t some_octets small fits =
    hdlc-Survives source dest apdu buf_size fits
apdu-Survives wrapper source dest apdu buf_size s t some_octets small fits =
    wrapper-Survives source dest apdu buf_size s t small fits
apdu-Survives unframed source dest apdu buf_size s t some_octets small fits =
    (apdu, some_octets, small, ground arith, copied_whole buf_size apdu fits)

-- What one end sends the other receives, over each framing: an APDU of one octet or more that the
-- framing accepts (in the wrapper at most 1048 octets, unframed at most 1056, in a frame any) is
-- handed to the transport as octets. Let the other end's transport, when octets wait that are no
-- more than the array it is given, hand them over in one read. Then the call there returns the APDU
-- to a buffer with room for it. Of an APDU in a frame that is the first 1024 octets only: the rest is
-- cut off and no error is reported.
pub recv_apdu-send_apdu :
    {V W : Type 0} (send : List ℕ → Call V (Unit {0})) (recv : ℕ → ℕ → Call W (List ℕ))
    (waiting : List ℕ → W) (framing : Framing) (source dest buf_size timeout_ms : ℕ) (apdu : List ℕ)
    (v : V) (w' : W)
    → source < 2 ^ 16
    → dest < 2 ^ 16
    → 0 < length apdu
    → Accepts framing apdu
    → length (carried framing apdu) ≤ buf_size
    → ((d : List ℕ)
        → 0 < length d
        → length d ≤ framed_size
        → recv framed_size timeout_ms (waiting d) ≡ ok d w')
    → (d : List ℕ) × (transport_send_apdu send framing source dest apdu v ≡ send d v)
      × (transport_recv_apdu recv framing buf_size timeout_ms (waiting d)
          ≡ ok (carried framing apdu) w')
unfolding transport_send_apdu transport_recv_apdu
recv_apdu-send_apdu send recv waiting framing source dest buf_size timeout_ms apdu v w' s t
      some_octets small fits delivers =
    let (d, nonempty, within, written, read) =
      apdu-Survives framing source dest apdu buf_size s t some_octets small fits in
    (
      d,
      rw (written, transport_send_apdu) refl,
      rw (delivers d nonempty within, read, transport_recv_apdu) refl,
    )
