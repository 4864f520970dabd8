-- ===== src/Session/Xid/RoundTrip.antt =====
-- `decode_xid_params` reads back what `encode_xid_params` wrote.
use openspodes.Prelude.{
  ℕ, ◌^◌, ◌%◌, ◌<◌, ◌≡◌, refl, ◌∙◌, ap, arith, u8, u16, ◌<<◌, ◌>>>◌, bit_and, bit_or,
}
use openspodes.Prelude.Bits.{or_fields, and_mask}
use openspodes.Session.Xid.{XidParams, encode_xid_params, decode_xid_params, decode_loop, set_param}

-- The fields hold what their types can.
pub record IsXid (p : XidParams) : Type 0 where
  pub tx_fits : p.max_info_tx < 2 ^ 16
  pub rx_fits : p.max_info_rx < 2 ^ 16
  pub window_tx_fits : p.window_tx < 2 ^ 8
  pub window_rx_fits : p.window_rx < 2 ^ 8

info_back :
    (w : ℕ) → w < 2 ^ 16 → u16 (bit_or (u8 (bit_and (w >>> 8) 0xFF) << 8) (u8 (bit_and w 0xFF))) ≡ w
info_back w h =
    ap (λ (t : ℕ). t % 2 ^ 16)
      (or_fields 8 (u8 (bit_and (w >>> 8) 0xFF)) (u8 (bit_and w 0xFF)) (omega arith))
    ∙ omega (arith, and_mask 8 w, and_mask 8 (w >>> 8))

window_back : (w : ℕ) → w < 2 ^ 8 → u8 (bit_or 0 (u8 (bit_and w 0xFF))) ≡ w
window_back w h =
    ap (λ (t : ℕ). t % 2 ^ 8) (or_fields 8 0 (u8 (bit_and w 0xFF)) (omega arith))
    ∙ omega (arith, and_mask 8 w)

-- Parameters in range that `encode_xid_params` writes are read back as they were, whatever the
-- structure held before.
pub decode_xid-encode_xid :
    (p q : XidParams) → IsXid p → decode_xid_params (encode_xid_params p) q ≡ p
unfolding decode_xid_params encode_xid_params decode_loop set_param
decode_xid-encode_xid p q h =
    rw
      (
        info_back p.max_info_tx h.tx_fits,
        info_back p.max_info_rx h.rx_fits,
        window_back p.window_tx h.window_tx_fits,
        window_back p.window_rx h.window_rx_fits,
      )
      refl
