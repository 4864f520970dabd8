-- ===== src/Transport/Frame/Parse.antt =====
-- The readers of `osp_hdlc_deframe` on the octets that `osp_hdlc_frame` writes, one part each.
use openspodes.Prelude.{
  ℕ, zero, suc, ◌+◌, ◌^◌, ◌≤◌, ◌<◌, ◌≡◌, refl, sym, ap, ap₂, ◌∙◌, List, [], ◌∷◌, ◌++◌, length,
  get_or, drop, arith, u8, ◌<<◌, ◌>>>◌, bit_and, bit_or,
}
use openspodes.Prelude.Bits.{or_fields, or_fields_low, and_mask}
use openspodes.Prelude.Table.{holds_below, agree_below}
use openspodes.Prelude.Slices.{get_or-drop, drop-drop, drop-length-append}
use openspodes.Transport.Address.{HdlcAddress}
use openspodes.Transport.Address.RoundTrip.{IsAddress}
use openspodes.Transport.Frame.{read_address, check_octets, check_word}

-- What stands at an index, from what the rest of the input is.
pub get_at : (d : List ℕ) (i x : ℕ) (r : List ℕ) → drop i d ≡ x ∷ r → get_or d i 0 ≡ x
get_at d i x r e =
    ap (λ (t : ℕ). get_or d t 0) (omega arith)
    ∙ sym (get_or-drop d 0 i 0)
    ∙ ap (λ t. get_or t 0 0) e

pub drop_at : (d : List ℕ) (i x : ℕ) (r : List ℕ) → drop i d ≡ x ∷ r → drop (i + 1) d ≡ r
drop_at d i x r e = sym (drop-drop d 1 i) ∙ ap (drop 1) e

pub drop_past :
    (d : List ℕ) (i : ℕ) (xs r : List ℕ) → drop i d ≡ xs ++ r → drop (i + length xs) d ≡ r
drop_past d i xs r e =
    sym (drop-drop d (length xs) i) ∙ ap (drop (length xs)) e ∙ drop-length-append xs r

-- An address is read to its odd octet, and no further.
module _ (d : List ℕ) (stop : ℕ) where
  pub read_address_lem :
      (a : HdlcAddress) (room idx : ℕ) (r : List ℕ)
      → IsAddress a
      → length a ≤ room
      → idx + length a ≤ stop
      → drop idx d ≡ a ++ r
      → read_address room d stop idx ≡ (a, idx + length a)
  unfolding read_address
  read_address_lem [] room idx r h fits within e = elim h [ ]
  read_address_lem (x ∷ t) zero idx r h fits within e = absurd (omega arith)
  read_address_lem (x ∷ []) (suc room) idx r h fits within e =
      ground (arith, get_at d idx x r e, and_mask 1 x)
  read_address_lem (x ∷ y ∷ t) (suc room) idx r h fits within e =
      let ih =
        read_address_lem (y ∷ t) room (idx + 1) r h.2 (omega arith) (omega arith)
          (drop_at d idx x ((y ∷ t) ++ r) e) in
      let even : bit_and x 0x01 ≡ 0 = and_mask 1 x ∙ h.1 in
      let n : idx + 1 + length (y ∷ t) ≡ idx + length (x ∷ y ∷ t) = omega arith in
      rw (get_at d idx x _ e, even, ih, n) (ground arith)

-- A check sequence in the input is read as it was written.
pub check_word_lem :
    (d : List ℕ) (i w : ℕ) (r : List ℕ)
    → w < 2 ^ 16
    → drop i d ≡ check_octets w ++ r
    → check_word d i ≡ w
check_word_lem d i w r h e =
    let lo = get_at d i _ _ e in
    let hi = get_at d (i + 1) _ _ (drop_at d i _ _ e) in
    ap₂ (λ (s t : ℕ). bit_or s (t << 8)) lo hi
    ∙ or_fields_low 8 (u8 (w >>> 8)) (u8 (bit_and w 0xFF)) (omega arith)
    ∙ omega (arith, and_mask 8 w)

-- The format field holds the length, and marks type A with no more segments.
formats :
    (j : ℕ)
    → j < 8
    → (bit_and (bit_or 0xA0 j) 0xF0 ≡ 0xA0)
      × (bit_and (bit_or 0xA0 j) 0x08 ≡ 0)
      × (bit_and (bit_or 0xA0 j) 0x07 ≡ j)
unfolding holds_below
formats j h = (
  agree_below 8 (λ i. bit_and (bit_or 0xA0 i) 0xF0) (λ i. 0xA0) j refl h,
  agree_below 8 (λ i. bit_and (bit_or 0xA0 i) 0x08) (λ i. 0) j refl h,
  agree_below 8 (λ i. bit_and (bit_or 0xA0 i) 0x07) (λ i. i) j refl h,
)

pub format_field :
    (n : ℕ)
    → n < 2048
    → let x = bit_or 0xA0 (bit_and (n >>> 8) 0x07) in
      (bit_and x 0xF0 ≡ 0xA0)
      × (bit_and x 0x08 ≡ 0)
      × (bit_or (bit_and x 0x07 << 8) (u8 (bit_and n 0xFF)) ≡ n)
format_field n h =
    let j = bit_and (n >>> 8) 0x07 in
    let j_lt : j < 8 = omega (arith, and_mask 3 (n >>> 8)) in
    let (a, b, c) = formats j j_lt in
    (
      a,
      b,
      ap (λ (t : ℕ). bit_or (t << 8) (u8 (bit_and n 0xFF))) c
          ∙ or_fields 8 j (u8 (bit_and n 0xFF)) (omega arith)
          ∙ omega (arith, and_mask 3 (n >>> 8), and_mask 8 n),
    )
