-- ===== src/Transport/Control/RoundTrip.antt =====
-- The control octet: what `osp_hdlc_control_encode` writes `osp_hdlc_control_decode` reads, but for
-- SABM; and what is read is written again.
use openspodes.Prelude.{
  ℕ, zero, suc, ◌+◌, ◌*◌, ◌/◌, ◌%◌, ◌^◌, ◌<◌, ◌≡◌, ◌≢◌, refl, ◌∙◌, ap, Bool, true, false, arith,
  ◌==◌, if◌then◌else◌, ◌<<◌, ◌>>>◌, bit_and, bit_or, ◌⊎◌, inl, inr,
}
use openspodes.Prelude.{==_iff, subst, Bool-cases}
use openspodes.Prelude.Table.{holds_below, holds_below_sound}
use openspodes.Prelude.Bits.{or_fields, and_mask}
use openspodes.Err.{ok, err, unsupported, Outcome}
use openspodes.Transport.Control.{
  FrameType, i_frame, rr, rnr, rej, sabm, snrm, disc, dm, ua, frmr, ui, xid, Control,
  hdlc_control_encode, hdlc_control_decode, control_code, zero_control, decoded, recv_field,
  zero_control, decoded, recv_field,
}

-- The poll/final bit and the sequence numbers lie in their ranges.
abbrev pub IsControl : Control → Type 0
IsControl c = (c.poll_final < 2) × (c.send_seq < 8) × (c.recv_seq < 8)

-- `d` has the poll/final bit of `c`, N(R) where the format has it, and N(S) in an I-frame.
abbrev pub Carries : FrameType → Control → Control → Type 0
Carries i_frame c d =
    (d.poll_final ≡ c.poll_final) × (d.recv_seq ≡ c.recv_seq) × (d.send_seq ≡ c.send_seq)
Carries rr c d = (d.poll_final ≡ c.poll_final) × (d.recv_seq ≡ c.recv_seq)
Carries rnr c d = (d.poll_final ≡ c.poll_final) × (d.recv_seq ≡ c.recv_seq)
Carries rej c d = (d.poll_final ≡ c.poll_final) × (d.recv_seq ≡ c.recv_seq)
Carries _ c d = d.poll_final ≡ c.poll_final

abbrev pf_bit : Control → ℕ
pf_bit c = if c.poll_final == 0 then 0x00 else 0x10

-- The low field behind N(R) and the poll/final bit, as a sum.
numbered :
    (c : Control) (low : ℕ)
    → IsControl c
    → low < 16
    → bit_or (bit_or (recv_field c) (pf_bit c)) low ≡ c.recv_seq * 32 + c.poll_final * 16 + low
numbered c low h l =
    let e : bit_and c.recv_seq 0x07 ≡ c.recv_seq = and_mask 3 c.recv_seq ∙ omega arith in
    let f : pf_bit c ≡ c.poll_final * 16 = ground arith in
    let g : c.recv_seq * 2 ^ 5 + c.poll_final * 16 ≡ (c.recv_seq * 2 + c.poll_final) * 2 ^ 4 =
      omega arith in
    rw
      (
        e,
        f,
        or_fields 5 c.recv_seq (c.poll_final * 16) (omega arith),
        g,
        or_fields 4 (c.recv_seq * 2 + c.poll_final) low l,
      )
      (omega arith)

module _ (c e : Control) (h : IsControl c) where
  byte_fields :
      (byte low : ℕ)
      → byte ≡ c.recv_seq * 32 + c.poll_final * 16 + low
      → low < 16
      → (bit_and (byte >>> 4) 1 ≡ c.poll_final)
        × (bit_and (byte >>> 5) 0x07 ≡ c.recv_seq)
        × (bit_and byte 0x0F ≡ low)
        × (bit_and byte 0x03 ≡ low % 4)
        × (bit_and byte 0x01 ≡ low % 2)
        × (bit_and (byte >>> 1) 0x07 ≡ low / 2)
  byte_fields byte low b l = omega (
    arith,
    and_mask 1 (byte >>> 4),
    and_mask 3 (byte >>> 5),
    and_mask 4 byte,
    and_mask 2 byte,
    and_mask 1 byte,
    and_mask 3 (byte >>> 1),
  )

  decode_i :
      (d : ℕ)
      → d ≡ c.recv_seq * 32 + c.poll_final * 16 + c.send_seq * 2
      → hdlc_control_decode d e
        ≡ ok tt (record {
          type = i_frame;
          poll_final = c.poll_final;
          send_seq = c.send_seq;
          recv_seq = c.recv_seq;
        })
  unfolding hdlc_control_decode
  decode_i d b = ground (arith, byte_fields d (c.send_seq * 2) b (omega arith))

  decode_s :
      (d low : ℕ) (t : FrameType)
      → d ≡ c.recv_seq * 32 + c.poll_final * 16 + low
      → ((low ≡ 1) × (t ≡ rr)) ⊎ (((low ≡ 5) × (t ≡ rnr)) ⊎ ((low ≡ 9) × (t ≡ rej)))
      → hdlc_control_decode d e
        ≡ ok tt
            (record { type = t; poll_final = c.poll_final; send_seq = 0; recv_seq = c.recv_seq })
  unfolding hdlc_control_decode
  decode_s d low t b k = ground (arith, byte_fields d low b (ground arith))

abbrev IsUnnumbered : FrameType → Type 0
IsUnnumbered i_frame = ⊥
IsUnnumbered rr = ⊥
IsUnnumbered rnr = ⊥
IsUnnumbered rej = ⊥
IsUnnumbered sabm = ⊥
IsUnnumbered _ = Unit

-- Every unnumbered format but SABM, with the bit clear and with it set.
decode_u :
    (t : FrameType) (p : ℕ) (c e : Control)
    → IsUnnumbered t
    → p < 2
    → (d : Control) × (hdlc_control_decode (control_code t (p * 16) c) e ≡ ok tt d)
      × (d.type ≡ t)
      × (d.poll_final ≡ p)
unfolding hdlc_control_decode control_code
decode_u t (suc (suc p)) c e u h = absurd (omega arith)
decode_u snrm zero c e u h = (_, refl, refl, refl)
decode_u snrm (suc zero) c e u h = (_, refl, refl, refl)
decode_u disc zero c e u h = (_, refl, refl, refl)
decode_u disc (suc zero) c e u h = (_, refl, refl, refl)
decode_u dm zero c e u h = (_, refl, refl, refl)
decode_u dm (suc zero) c e u h = (_, refl, refl, refl)
decode_u ua zero c e u h = (_, refl, refl, refl)
decode_u ua (suc zero) c e u h = (_, refl, refl, refl)
decode_u frmr zero c e u h = (_, refl, refl, refl)
decode_u frmr (suc zero) c e u h = (_, refl, refl, refl)
decode_u ui zero c e u h = (_, refl, refl, refl)
decode_u ui (suc zero) c e u h = (_, refl, refl, refl)
decode_u xid zero c e u h = (_, refl, refl, refl)
decode_u xid (suc zero) c e u h = (_, refl, refl, refl)
decode_u i_frame p c e u h = elim u [ ]
decode_u rr p c e u h = elim u [ ]
decode_u rnr p c e u h = elim u [ ]
decode_u rej p c e u h = elim u [ ]
decode_u sabm p c e u h = elim u [ ]

abbrev Decodes : FrameType → Control → Control → Type 0
Decodes t c e =
    (d : Control) × (hdlc_control_decode (control_code t (pf_bit c) c) e ≡ ok tt d)
    × (d.type ≡ t)
    × Carries t c d

module _ (c e : Control) (h : IsControl c) where
  supervisory :
      (low : ℕ) (t : FrameType)
      → control_code t (pf_bit c) c ≡ bit_or (bit_or (recv_field c) (pf_bit c)) low
      → ((low ≡ 1) × (t ≡ rr)) ⊎ (((low ≡ 5) × (t ≡ rnr)) ⊎ ((low ≡ 9) × (t ≡ rej)))
      → hdlc_control_decode (control_code t (pf_bit c) c) e
        ≡ ok tt
            (record { type = t; poll_final = c.poll_final; send_seq = 0; recv_seq = c.recv_seq })
  supervisory low t code k =
      decode_s c e h (control_code t (pf_bit c) c) low t (code ∙ numbered c low h (ground arith)) k

  unnumbered_type :
      (t : FrameType)
      → IsUnnumbered t
      → (d : Control) × (hdlc_control_decode (control_code t (pf_bit c) c) e ≡ ok tt d)
        × (d.type ≡ t)
        × (d.poll_final ≡ c.poll_final)
  unnumbered_type t u =
      let f : pf_bit c ≡ c.poll_final * 16 = ground arith in
      rw f (decode_u t c.poll_final c e u h.0)

  i_code : control_code i_frame (pf_bit c) c ≡ c.recv_seq * 32 + c.poll_final * 16 + c.send_seq * 2
  unfolding control_code
  i_code =
      let k : bit_and c.send_seq 0x07 << 1 ≡ c.send_seq * 2 =
        omega (arith, and_mask 3 c.send_seq) in
      rw k (numbered c (c.send_seq * 2) h (omega arith))

  by_type : (t : FrameType) → t ≢ sabm → Decodes t c e
  unfolding control_code
  by_type i_frame n = (_, decode_i c e h _ i_code, refl, (refl, refl, refl))
  by_type rr n = (_, supervisory 1 rr refl (inl (refl, refl)), refl, (refl, refl))
  by_type rnr n = (_, supervisory 5 rnr refl (inr (inl (refl, refl))), refl, (refl, refl))
  by_type rej n = (_, supervisory 9 rej refl (inr (inr (refl, refl))), refl, (refl, refl))
  by_type sabm n = absurd (n refl)
  by_type snrm n = unnumbered_type snrm tt
  by_type disc n = unnumbered_type disc tt
  by_type dm n = unnumbered_type dm tt
  by_type ua n = unnumbered_type ua tt
  by_type frmr n = unnumbered_type frmr tt
  by_type ui n = unnumbered_type ui tt
  by_type xid n = unnumbered_type xid tt

  -- Every control field in range but a SABM is read back from its octet, whatever the decoder's
  -- structure held before: its type, its poll/final bit, N(R) of an I- or S-frame and N(S) of an
  -- I-frame.
  pub control_decode-encode :
      c.type ≢ sabm
      → (d : Control) × (hdlc_control_decode (hdlc_control_encode c) e ≡ ok tt d)
        × (d.type ≡ c.type)
        × Carries c.type c d
  unfolding hdlc_control_encode
  control_decode-encode n = by_type c.type n

sabm_octet :
    (c : Control) → c.type ≡ sabm → (hdlc_control_encode c ≡ 0x2F) ⊎ (hdlc_control_encode c ≡ 0x3F)
unfolding hdlc_control_encode control_code
sabm_octet c t = elim (Bool-cases (c.poll_final == 0)) [ inl z ↦ inr-or z | inr z ↦ inl-or z ]
  where
    code :
        (b : Bool)
        → control_code c.type (if b then 0x00 else 0x10) c
          ≡ control_code sabm (if b then 0x00 else 0x10) c
    code b = ap (λ k. control_code k (if b then 0x00 else 0x10) c) t

    inr-or :
        (c.poll_final == 0) ≡ true → (hdlc_control_encode c ≡ 0x2F) ⊎ (hdlc_control_encode c ≡ 0x3F)
    inr-or z = inl (ap (λ b. control_code c.type (if b then 0x00 else 0x10) c) z ∙ code true)

    inl-or :
        (c.poll_final == 0) ≡ false
        → (hdlc_control_encode c ≡ 0x2F) ⊎ (hdlc_control_encode c ≡ 0x3F)
    inl-or z = inr (ap (λ b. control_code c.type (if b then 0x00 else 0x10) c) z ∙ code false)

sabm_refused :
    (e : Control) (byte : ℕ)
    → (byte ≡ 0x2F) ⊎ (byte ≡ 0x3F)
    → hdlc_control_decode byte e ≡ err unsupported (decoded byte e)
unfolding hdlc_control_decode
sabm_refused e byte (inl h) = rw h refl
sabm_refused e byte (inr h) = rw h refl

-- Whatever else a SABM control field holds, `osp_hdlc_control_decode` refuses the octet that
-- `osp_hdlc_control_encode` writes for it as UNSUPPORTED.
pub control_decode-sabm :
    (c e : Control)
    → c.type ≡ sabm
    → hdlc_control_decode (hdlc_control_encode c) e
      ≡ err unsupported (decoded (hdlc_control_encode c) e)
control_decode-sabm c e t = sabm_refused e (hdlc_control_encode c) (sabm_octet c t)

abbrev encodes : ℕ → Outcome Control (Unit {0}) → Bool
encodes byte (ok u d) = hdlc_control_encode d == byte
encodes byte (err e d) = true

encodes_table :
    holds_below 256 (λ byte. encodes byte (hdlc_control_decode byte zero_control)) ≡ true
unfolding holds_below hdlc_control_encode hdlc_control_decode
encodes_table = refl

-- Each octet that the decoder accepts is the one that the encoder writes for what was decoded.
pub control_encode-decode :
    (byte : ℕ) (d : Control)
    → byte < 256
    → hdlc_control_decode byte zero_control ≡ ok tt d
    → hdlc_control_encode d ≡ byte
control_encode-decode byte d h p =
    (==_iff _ _).0
      (subst (λ r. encodes byte r ≡ true) p (holds_below_sound 256 _ byte encodes_table h))
