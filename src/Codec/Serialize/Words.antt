-- ===== src/Codec/Serialize/Words.antt =====
-- Integers of eight octets, and signed integers.
use openspodes.Prelude.{
  ℕ, ◌+◌, ◌*◌, ◌/◌, ◌%◌, ◌^◌, ◌<◌, ◌≡◌, refl, ◌∙◌, subst, List, [], ◌∷◌, arith, u8, bit_or, ◌<<◌,
  ◌>>>◌,
}
use openspodes.Prelude.Bits.{or_fields}
use openspodes.Prelude.Ints.{
  ℤ, to_word, as_signed, IsSigned, as_signed-to_word, to_word-lt, i8_half, i16_half, i32_half,
  i64_half,
}
use openspodes.Err.{invalid, pure, ◌>>=◌}
use openspodes.Buf.{octet}
use openspodes.Codec.Axdr.RoundTrip.{octet_at}
use openspodes.Codec.Wire.{Emits, Takes, Takes-last}
use openspodes.Codec.Wire.Guarded.{Emits-if_room, Takes-if_there}
use openspodes.Codec.Wire.Parts.{
  u16_octets, u32_octets, Emits-u8, Takes-u8, Emits-u16, Takes-u16, Emits-u32, Takes-u32,
}
use openspodes.Codec.Serialize.{
  axdr_read_i8, axdr_read_i16, axdr_read_i32, axdr_read_u64, axdr_read_i64, axdr_write_i8,
  axdr_write_i16, axdr_write_i32, axdr_write_u64, axdr_write_i64,
}
use openspodes.Codec.Axdr.{axdr_read_u8, axdr_read_u16, axdr_read_u32}

abbrev pub u64_octets : ℕ → List ℕ
u64_octets x =
    (x / 2 ^ 56)
    ∷ (x / 2 ^ 48 % 256)
    ∷ (x / 2 ^ 40 % 256)
    ∷ (x / 2 ^ 32 % 256)
    ∷ (x / 2 ^ 24 % 256)
    ∷ (x / 2 ^ 16 % 256)
    ∷ (x / 256 % 256)
    ∷ (x % 256)
    ∷ []

pub Emits-u64 : (x : ℕ) → x < 2 ^ 64 → Emits (axdr_write_u64 x) (u64_octets x)
unfolding axdr_write_u64
Emits-u64 x h =
    let e : u8 (x >>> 56) ≡ x / 2 ^ 56 = omega arith in
    rw e (Emits-if_room (u64_octets x) 8 invalid refl)

-- Eight octets joined by shifts and `|` are the number they stand for.
join_eight :
    (a b c d e f g h : ℕ)
    → b < 256
    → c < 256
    → d < 256
    → e < 256
    → f < 256
    → g < 256
    → h < 256
    → bit_or
        (bit_or
          (bit_or
            (bit_or (bit_or (bit_or (bit_or (a << 56) (b << 48)) (c << 40)) (d << 32)) (e << 24))
            (f << 16))
          (g << 8))
        h
      ≡ ((((((a * 256 + b) * 256 + c) * 256 + d) * 256 + e) * 256 + f) * 256 + g) * 256 + h
join_eight a b c d e f g h hb hc hd he hf hg hh =
    let ab = a * 256 + b in
    let abc = ab * 256 + c in
    let abcd = abc * 256 + d in
    let abcde = abcd * 256 + e in
    let abcdef = abcde * 256 + f in
    let e1 : bit_or (a << 56) (b << 48) ≡ ab * 2 ^ 48 =
      or_fields 56 a (b * 2 ^ 48) (omega arith) ∙ omega arith in
    let e2 : bit_or (ab * 2 ^ 48) (c << 40) ≡ abc * 2 ^ 40 =
      or_fields 48 ab (c * 2 ^ 40) (omega arith) ∙ omega arith in
    let e3 : bit_or (abc * 2 ^ 40) (d << 32) ≡ abcd * 2 ^ 32 =
      or_fields 40 abc (d * 2 ^ 32) (omega arith) ∙ omega arith in
    let e4 : bit_or (abcd * 2 ^ 32) (e << 24) ≡ abcde * 2 ^ 24 =
      or_fields 32 abcd (e * 2 ^ 24) (omega arith) ∙ omega arith in
    let e5 : bit_or (abcde * 2 ^ 24) (f << 16) ≡ abcdef * 2 ^ 16 =
      or_fields 24 abcde (f * 2 ^ 16) (omega arith) ∙ omega arith in
    let e6 : bit_or (abcdef * 2 ^ 16) (g << 8) ≡ (abcdef * 256 + g) * 2 ^ 8 =
      or_fields 16 abcdef (g * 2 ^ 8) (omega arith) ∙ omega arith in
    rw (e1, e2, e3, e4, e5, e6) (or_fields 8 (abcdef * 256 + g) h hh)

pub Takes-u64 : (x : ℕ) → x < 2 ^ 64 → Takes axdr_read_u64 (u64_octets x) x
unfolding axdr_read_u64
Takes-u64 x small = Takes-if_there (u64_octets x) 8 _ refl λ b rest v p.
    let o0 : octet b 0 ≡ x / 2 ^ 56 = octet_at b v 0 _ p (omega arith) in
    let o1 : octet b 1 ≡ x / 2 ^ 48 % 256 = octet_at b v 1 _ p (omega arith) in
    let o2 : octet b 2 ≡ x / 2 ^ 40 % 256 = octet_at b v 2 _ p (omega arith) in
    let o3 : octet b 3 ≡ x / 2 ^ 32 % 256 = octet_at b v 3 _ p (omega arith) in
    let o4 : octet b 4 ≡ x / 2 ^ 24 % 256 = octet_at b v 4 _ p (omega arith) in
    let o5 : octet b 5 ≡ x / 2 ^ 16 % 256 = octet_at b v 5 _ p (omega arith) in
    let o6 : octet b 6 ≡ x / 256 % 256 = octet_at b v 6 _ p (omega arith) in
    let o7 : octet b 7 ≡ x % 256 = octet_at b v 7 _ p (omega arith) in
    rw (o0, o1, o2, o3, o4, o5, o6, o7)
      (join_eight (x / 2 ^ 56) (x / 2 ^ 48 % 256) (x / 2 ^ 40 % 256) (x / 2 ^ 32 % 256)
          (x / 2 ^ 24 % 256) (x / 2 ^ 16 % 256) (x / 256 % 256) (x % 256) (omega arith)
          (omega arith) (omega arith) (omega arith) (omega arith) (omega arith) (omega arith)
        ∙ omega arith)

pub Emits-i8 : (z : ℤ) → IsSigned i8_half z → Emits (axdr_write_i8 z) (to_word i8_half z ∷ [])
unfolding axdr_write_i8
Emits-i8 z h = Emits-u8 (to_word i8_half z)

pub Takes-i8 : (z : ℤ) → IsSigned i8_half z → Takes axdr_read_i8 (to_word i8_half z ∷ []) z
unfolding axdr_read_i8
Takes-i8 z h =
    subst (Takes (axdr_read_u8 >>= λ v. pure (as_signed i8_half v)) (to_word i8_half z ∷ []))
      (as_signed-to_word i8_half z h)
      (Takes-last (to_word i8_half z ∷ []) (as_signed i8_half) (Takes-u8 (to_word i8_half z)))

pub Emits-i16 :
    (z : ℤ) → IsSigned i16_half z → Emits (axdr_write_i16 z) (u16_octets (to_word i16_half z))
unfolding axdr_write_i16
Emits-i16 z h = Emits-u16 (to_word i16_half z) (omega (arith, to_word-lt i16_half z h))

pub Takes-i16 :
    (z : ℤ) → IsSigned i16_half z → Takes axdr_read_i16 (u16_octets (to_word i16_half z)) z
unfolding axdr_read_i16
Takes-i16 z h =
    subst
      (Takes (axdr_read_u16 >>= λ v. pure (as_signed i16_half v)) (u16_octets (to_word i16_half z)))
      (as_signed-to_word i16_half z h)
      (Takes-last (u16_octets (to_word i16_half z)) (as_signed i16_half)
        (Takes-u16 (to_word i16_half z) (omega (arith, to_word-lt i16_half z h))))

pub Emits-i32 :
    (z : ℤ) → IsSigned i32_half z → Emits (axdr_write_i32 z) (u32_octets (to_word i32_half z))
unfolding axdr_write_i32
Emits-i32 z h = Emits-u32 (to_word i32_half z) (omega (arith, to_word-lt i32_half z h))

pub Takes-i32 :
    (z : ℤ) → IsSigned i32_half z → Takes axdr_read_i32 (u32_octets (to_word i32_half z)) z
unfolding axdr_read_i32
Takes-i32 z h =
    subst
      (Takes (axdr_read_u32 >>= λ v. pure (as_signed i32_half v)) (u32_octets (to_word i32_half z)))
      (as_signed-to_word i32_half z h)
      (Takes-last (u32_octets (to_word i32_half z)) (as_signed i32_half)
        (Takes-u32 (to_word i32_half z) (omega (arith, to_word-lt i32_half z h))))

pub Emits-i64 :
    (z : ℤ) → IsSigned i64_half z → Emits (axdr_write_i64 z) (u64_octets (to_word i64_half z))
unfolding axdr_write_i64
Emits-i64 z h = Emits-u64 (to_word i64_half z) (omega (arith, to_word-lt i64_half z h))

pub Takes-i64 :
    (z : ℤ) → IsSigned i64_half z → Takes axdr_read_i64 (u64_octets (to_word i64_half z)) z
unfolding axdr_read_i64
Takes-i64 z h =
    subst
      (Takes (axdr_read_u64 >>= λ v. pure (as_signed i64_half v)) (u64_octets (to_word i64_half z)))
      (as_signed-to_word i64_half z h)
      (Takes-last (u64_octets (to_word i64_half z)) (as_signed i64_half)
        (Takes-u64 (to_word i64_half z) (omega (arith, to_word-lt i64_half z h))))
