-- ===== src/Transport/Crc/BitSerial.antt =====
-- The table-driven frame check sequence is the bit-serial one of X.25: shift right, and `^` with the
-- reversed polynomial 0x8408 when a one falls out.
use openspodes.Prelude.{
  ℕ, zero, suc, ◌+◌, ◌*◌, ◌/◌, ◌%◌, ◌^◌, ◌<◌, ◌≡◌, refl, sym, ap, ap₂, ◌∙◌, List, [], ◌∷◌, get_or,
  arith, bit_and, bit_xor,
}
use native.Mathlib.Nat.{pow-suc}
use openspodes.Prelude.Bits.{and_mask}
use openspodes.Prelude.Table.{agree_below, holds_below}
use openspodes.Prelude.Xor.{xor-half, xor-parity, xor-shift, xor_fields, xor_swap, xor_zero}
use openspodes.Codec.Len.RoundTrip.{AllBytes}
use openspodes.Transport.Crc.{crc_table, fcs_step, fcs_loop, hdlc_fcs16}

abbrev poly : ℕ → ℕ
poly zero = 0
poly (suc b) = 0x8408

-- One bit, and so many bits.
unfoldable pub shift_bit : ℕ → ℕ
shift_bit c = bit_xor (c / 2) (poly (c % 2))

unfoldable pub shift_bits : ℕ → ℕ → ℕ
shift_bits zero c = c
shift_bits (suc n) c = shift_bits n (shift_bit c)

unfoldable pub serial_loop : ℕ → List ℕ → ℕ
serial_loop c [] = c
serial_loop c (x ∷ xs) = serial_loop (shift_bits 8 (bit_xor c x)) xs

poly-xor : (a b : ℕ) → a < 2 → b < 2 → poly ((a + b) % 2) ≡ bit_xor (poly a) (poly b)
poly-xor zero zero p q = refl
poly-xor zero (suc zero) p q = refl
poly-xor (suc zero) zero p q = refl
poly-xor (suc zero) (suc zero) p q = refl
poly-xor (suc (suc a)) b p q = absurd (omega arith)
poly-xor zero (suc (suc b)) p q = absurd (omega arith)
poly-xor (suc zero) (suc (suc b)) p q = absurd (omega arith)

shift_bit-xor : (a b : ℕ) → shift_bit (bit_xor a b) ≡ bit_xor (shift_bit a) (shift_bit b)
unfolding shift_bit
shift_bit-xor a b =
    ap₂ bit_xor (xor-half a b)
      (ap poly (xor-parity a b) ∙ poly-xor (a % 2) (b % 2) (omega arith) (omega arith))
    ∙ xor_swap (a / 2) (b / 2) (poly (a % 2)) (poly (b % 2))

shift_bits-xor :
    (n a b : ℕ) → shift_bits n (bit_xor a b) ≡ bit_xor (shift_bits n a) (shift_bits n b)
unfolding shift_bits
shift_bits-xor zero a b = refl
shift_bits-xor (suc n) a b =
    ap (shift_bits n) (shift_bit-xor a b) ∙ shift_bits-xor n (shift_bit a) (shift_bit b)

shift_even : (m k : ℕ) → m ≡ k * 2 → shift_bit m ≡ k
unfolding shift_bit
shift_even m k h =
    let e : m / 2 ≡ k = omega arith in let f : m % 2 ≡ 0 = omega arith in rw (e, f) (xor_zero k)

-- Zeros fall out, and nothing else happens.
shift_zeros : (n a : ℕ) → shift_bits n (a * 2 ^ n) ≡ a
unfolding shift_bits
shift_zeros zero a = omega arith
shift_zeros (suc n) a =
    ap (shift_bits n)
      (shift_even (a * 2 ^ suc n) (a * 2 ^ n) (omega (arith, ap (λ (t : ℕ). a * t) (pow-suc 2 n))))
    ∙ shift_zeros n a

low_octet : (x : ℕ) → x < 256 → get_or crc_table x 0 ≡ shift_bits 8 x
unfolding holds_below shift_bits shift_bit
low_octet x h = agree_below 256 (λ i. get_or crc_table i 0) (shift_bits 8) x refl h

-- Eight bits at once, for any word: the high octets move down, the low one goes by the table.
eight_bits : (y : ℕ) → shift_bits 8 y ≡ bit_xor (y / 256) (get_or crc_table (bit_and y 0xFF) 0)
eight_bits y =
    let split : y ≡ bit_xor (y / 256 * 2 ^ 8) (y % 256) =
      omega (arith, xor_fields 8 (y / 256) (y % 256) (omega arith)) in
    ap (shift_bits 8) split
    ∙ shift_bits-xor 8 (y / 256 * 2 ^ 8) (y % 256)
    ∙ ap₂ bit_xor (shift_zeros 8 (y / 256)) (sym (low_octet (y % 256) (omega arith)))
    ∙ ap (λ (t : ℕ). bit_xor (y / 256) (get_or crc_table t 0)) (sym (and_mask 8 y))

fcs_step_lem : (c x : ℕ) → x < 256 → fcs_step c x ≡ shift_bits 8 (bit_xor c x)
unfolding fcs_step
fcs_step_lem c x h =
    let high : bit_xor c x / 2 ^ 8 ≡ c / 2 ^ 8 =
      xor-shift 8 c x ∙ ap (bit_xor (c / 2 ^ 8)) (omega arith) ∙ xor_zero (c / 2 ^ 8) in
    sym (
      eight_bits (bit_xor c x)
      ∙ ap (λ (t : ℕ). bit_xor t (get_or crc_table (bit_and (bit_xor c x) 0xFF) 0)) high)

pub fcs_loop-serial : (xs : List ℕ) (c : ℕ) → AllBytes xs → fcs_loop c xs ≡ serial_loop c xs
unfolding fcs_loop serial_loop
fcs_loop-serial [] c h = refl
fcs_loop-serial (x ∷ xs) c h =
    ap (λ (t : ℕ). fcs_loop t xs) (fcs_step_lem c x h.0)
    ∙ fcs_loop-serial xs (shift_bits 8 (bit_xor c x)) h.1

-- On any octets the table-driven frame check sequence is the complement of what the bit-serial
-- register of CRC-16/X.25, started at 0xFFFF, holds after them.
pub fcs16-serial :
    (xs : List ℕ) → AllBytes xs → hdlc_fcs16 xs ≡ bit_xor (serial_loop 0xFFFF xs) 0xFFFF
unfolding hdlc_fcs16
fcs16-serial xs h = ap (λ (t : ℕ). bit_xor t 0xFFFF) (fcs_loop-serial xs 0xFFFF h)
