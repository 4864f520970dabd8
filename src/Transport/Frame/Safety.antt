-- ===== src/Transport/Frame/Safety.antt =====
-- The information field of a received frame: the subtraction that gives its length never wraps, so
-- the copy into `frame->info` stays within the octets received. The code has no test for this; it
-- holds because of the two check sequences together.
use openspodes.Prelude.{
  ℕ, zero, suc, ◌+◌, ◌-◌, ◌*◌, ◌%◌, ◌^◌, ◌<◌, ◌≡◌, ◌≢◌, refl, sym, subst, ap, ap₂, ◌∙◌, true, not,
  List, [], ◌∷◌, ◌++◌, length, get_or, take, arith, ltb, ◌==◌, ==_iff, ltb→lt, ◌<<◌, ◌>>>◌, bit_and,
  bit_or, bit_xor,
}
use openspodes.Prelude.Bits.{or_fields_low, and_mask}
use openspodes.Prelude.Table.{holds_below, holds_below_sound}
use openspodes.Prelude.Xor.{xor_ones, xor-low, xor_comm, xor_cancel, xor-lt}
use openspodes.Codec.Len.RoundTrip.{AllBytes}
use openspodes.Transport.Crc.{crc_table, fcs_step, fcs_loop, hdlc_fcs16}
use openspodes.Transport.Frame.{check_word}

complement16 : (a : ℕ) → a < 2 ^ 16 → bit_xor a 0xFFFF ≡ 0xFFFF - a
complement16 a h = xor_ones 16 a h

word_parts : (x y : ℕ) → x < 256 → bit_or x (y << 8) ≡ y * 256 + x
word_parts x y h = or_fields_low 8 y x h

-- No octet is its own `^` with 0x78.
moved_octet : (t : ℕ) → t < 256 → bit_xor t 0x78 ≢ t
moved_octet t h e = cc (
    subst (λ b. not b ≡ true) ((==_iff (bit_xor t 0x78) t).1 e)
      (holds_below_sound 256 (λ i. not (bit_xor i 0x78 == i)) t table h))
  where
    table : holds_below 256 (λ i. not (bit_xor i 0x78 == i)) ≡ true
    table = unfold holds_below in refl

-- With the low octet of the check sequence of some octets behind them, the register takes the last
-- entry of the table.
step_low :
    (s x y : ℕ)
    → x < 256
    → y < 256
    → s < 2 ^ 16
    → bit_xor s 0xFFFF ≡ y * 256 + x
    → fcs_step s x ≡ bit_xor (255 - y) 0x0F78
unfolding fcs_step
step_low s x y hx hy hs e =
    let s_eq : s ≡ (255 - y) * 256 + (255 - x) = omega (arith, complement16 s hs, e) in
    let low : bit_and (bit_xor s x) 0xFF ≡ 255 =
      and_mask 8 (bit_xor s x)
      ∙ xor-low 8 s x
      ∙ ap₂ bit_xor (omega (arith, s_eq)) (omega arith)
      ∙ ap (λ (t : ℕ). bit_xor t x) (sym (xor_ones 8 x hx) ∙ xor_comm x 255)
      ∙ xor_cancel 255 x in
    ap₂ (λ (t u : ℕ). bit_xor t (get_or crc_table u 0)) (omega (arith, s_eq)) low

-- So the low octet of the longer check sequence is not the high octet of the shorter one.
check_octets_differ :
    (s x y z : ℕ)
    → x < 256
    → y < 256
    → s < 2 ^ 16
    → bit_xor s 0xFFFF ≡ y * 256 + x
    → bit_xor (fcs_step s x) 0xFFFF ≢ z * 256 + y
check_octets_differ s x y z hx hy hs e f =
    let t = bit_xor (255 - y) 0x0F78 in
    let t_lt : t < 2 ^ 16 = xor-lt 16 (255 - y) 0x0F78 (omega arith) (omega arith) in
    let g : 0xFFFF - t ≡ z * 256 + y =
      sym (ap (λ (u : ℕ). bit_xor u 0xFFFF) (step_low s x y hx hy hs e) ∙ complement16 t t_lt)
      ∙ f in
    let low : t % 2 ^ 8 ≡ bit_xor (255 - y) 0x78 =
      xor-low 8 (255 - y) 0x0F78 ∙ ap (λ (u : ℕ). bit_xor u 0x78) (omega arith) in
    moved_octet (255 - y) (omega arith) (omega (arith, g, low))

table_word : (i : ℕ) → i < 256 → get_or crc_table i 0 < 2 ^ 16
table_word i h =
    ltb→lt _ _ (holds_below_sound 256 (λ j. ltb (get_or crc_table j 0) (2 ^ 16)) i table h)
  where
    table : holds_below 256 (λ j. ltb (get_or crc_table j 0) (2 ^ 16)) ≡ true
    table = unfold holds_below in refl

fcs_step-lt : (c x : ℕ) → c < 2 ^ 16 → fcs_step c x < 2 ^ 16
unfolding fcs_step
fcs_step-lt c x h =
    let m : bit_and (bit_xor c x) 0xFF ≡ bit_xor c x % 2 ^ 8 = and_mask 8 (bit_xor c x) in
    xor-lt 16 (c >>> 8) _ (omega arith) (table_word (bit_and (bit_xor c x) 0xFF) (omega (arith, m)))

pub fcs_loop-lt : (xs : List ℕ) (c : ℕ) → c < 2 ^ 16 → fcs_loop c xs < 2 ^ 16
unfolding fcs_loop
fcs_loop-lt [] c h = h
fcs_loop-lt (x ∷ xs) c h = fcs_loop-lt xs (fcs_step c x) (fcs_step-lt c x h)

fcs_loop-append : (xs ys : List ℕ) (c : ℕ) → fcs_loop c (xs ++ ys) ≡ fcs_loop (fcs_loop c xs) ys
unfolding fcs_loop
fcs_loop-append [] ys c = refl
fcs_loop-append (x ∷ xs) ys c = fcs_loop-append xs ys (fcs_step c x)

take_one_more :
    (l : List ℕ) (n : ℕ) → n < length l → take (suc n) l ≡ take n l ++ (get_or l n 0 ∷ [])
take_one_more [] n h = absurd (omega arith)
take_one_more (x ∷ l) zero h = refl
take_one_more (x ∷ l) (suc n) h = ap (λ t. x ∷ t) (take_one_more l n (omega arith))

byte_at : (d : List ℕ) (i : ℕ) → AllBytes d → get_or d i 0 < 256
byte_at [] i h = omega arith
byte_at (x ∷ d) zero h = h.0
byte_at (x ∷ d) (suc i) h = byte_at d i h.1

-- The check sequence of one octet more.
fcs16_one_more :
    (d : List ℕ) (n : ℕ)
    → n < length d
    → hdlc_fcs16 (take (suc n) d)
      ≡ bit_xor (fcs_step (fcs_loop 0xFFFF (take n d)) (get_or d n 0)) 0xFFFF
unfolding hdlc_fcs16
fcs16_one_more d n h =
    ap (λ (t : ℕ). bit_xor t 0xFFFF)
      (ap (fcs_loop 0xFFFF) (take_one_more d n h)
        ∙ fcs_loop-append (take n d) (get_or d n 0 ∷ []) 0xFFFF
        ∙ unfold fcs_loop in refl)

-- Where one octet alone lies between the control octet and the frame check sequence, the octet
-- behind it serves twice, and the two check sequences cannot both be right.
pub one_octet_left :
    (h : List ℕ) (n : ℕ)
    → AllBytes h
    → n + 2 < length h
    → hdlc_fcs16 (take n h) ≡ check_word h n
    → hdlc_fcs16 (take (suc n) h) ≢ check_word h (suc n)
unfolding hdlc_fcs16
one_octet_left h n bytes room hcs fcs =
    let s = fcs_loop 0xFFFF (take n h) in
    let s_lt : s < 2 ^ 16 = fcs_loop-lt (take n h) 0xFFFF (omega arith) in
    let e : n + 1 ≡ suc n = omega arith in
    check_octets_differ s (get_or h n 0) (get_or h (suc n) 0) (get_or h (suc n + 1) 0)
      (byte_at h n bytes) (byte_at h (suc n) bytes) s_lt
      (hcs ∙ rw e (word_parts (get_or h n 0) (get_or h (suc n) 0) (byte_at h n bytes)))
      (sym (fcs16_one_more h n (omega arith))
        ∙ fcs
        ∙ word_parts (get_or h (suc n) 0) (get_or h (suc n + 1) 0) (byte_at h (suc n) bytes))
