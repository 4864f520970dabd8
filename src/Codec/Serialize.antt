-- ===== src/Codec/Serialize.antt =====
-- src/codec/serialize.c, "Primitive helpers", "Date / time / datetime", "Structure / array" and
-- "Bitstring". A struct is what its fields hold, a floating-point number the word of its bits.
pub mod Words
pub mod Dates
pub mod Headers
pub mod Bitstring
use openspodes.Prelude.{
  ℕ, ◌+◌, ◌-◌, ◌*◌, ◌/◌, ◌^◌, Bool, true, false, List, [], ◌∷◌, length, take, ltb, ◌==◌, not,
  if◌then◌else◌, u8, u16, u32, sub32, bit_and, bit_or, ◌<<◌, ◌>>>◌,
}
use openspodes.Prelude.Ints.{ℤ, to_word, as_signed, i8_half, i16_half, i32_half, i64_half}
use openspodes.Err.{Call, ok, err, invalid, nomem, ◌>>=◌, ◌>>◌, pure, fail, fail_if}
use openspodes.Buf.{Buf, buf_unread, buf_free, next, put, put_all, octet, octets_at, skip}
use openspodes.Codec.Len.{ber_read_length, ber_write_length}
use openspodes.Codec.Axdr.{
  axdr_read_tag, axdr_read_u8, axdr_read_u16, axdr_read_u32, axdr_write_tag, axdr_write_u8,
  axdr_write_u16, axdr_write_u32,
}

-- A signed value is the cast of the unsigned one.
unfoldable pub axdr_read_i8 : Call Buf ℤ
axdr_read_i8 = axdr_read_u8 >>= λ v. pure (as_signed i8_half v)

unfoldable pub axdr_read_i16 : Call Buf ℤ
axdr_read_i16 = axdr_read_u16 >>= λ v. pure (as_signed i16_half v)

unfoldable pub axdr_read_i32 : Call Buf ℤ
axdr_read_i32 = axdr_read_u32 >>= λ v. pure (as_signed i32_half v)

unfoldable pub axdr_read_u64 : Call Buf ℕ
axdr_read_u64 b =
    (do
      fail_if (ltb (buf_unread b) 8) invalid
      skip 8
      pure (
          bit_or
            (bit_or
              (bit_or
                (bit_or
                  (bit_or (bit_or (bit_or (octet b 0 << 56) (octet b 1 << 48)) (octet b 2 << 40))
                    (octet b 3 << 32))
                  (octet b 4 << 24))
                (octet b 5 << 16))
              (octet b 6 << 8))
            (octet b 7)))
      b

-- The same text as the unsigned reader, with the assignment's cast.
unfoldable pub axdr_read_i64 : Call Buf ℤ
axdr_read_i64 = axdr_read_u64 >>= λ v. pure (as_signed i64_half v)

unfoldable pub axdr_write_i8 : ℤ → Call Buf (Unit {0})
axdr_write_i8 val = axdr_write_u8 (to_word i8_half val)

unfoldable pub axdr_write_i16 : ℤ → Call Buf (Unit {0})
axdr_write_i16 val = axdr_write_u16 (to_word i16_half val)

unfoldable pub axdr_write_i32 : ℤ → Call Buf (Unit {0})
axdr_write_i32 val = axdr_write_u32 (to_word i32_half val)

-- `p[0] = ...; ...; p[7] = ...; buf->wr += 8;`
unfoldable pub axdr_write_u64 : ℕ → Call Buf (Unit {0})
axdr_write_u64 val b =
    (do
      fail_if (ltb (buf_free b) 8) invalid
      put_all (
          u8 (val >>> 56)
          ∷ u8 (val >>> 48)
          ∷ u8 (val >>> 40)
          ∷ u8 (val >>> 32)
          ∷ u8 (val >>> 24)
          ∷ u8 (val >>> 16)
          ∷ u8 (val >>> 8)
          ∷ u8 val
          ∷ []))
      b

-- The octets of a negative number are those of its two's complement.
unfoldable pub axdr_write_i64 : ℤ → Call Buf (Unit {0})
axdr_write_i64 val = axdr_write_u64 (to_word i64_half val)

pub record Date : Type 0 where
  pub year : ℕ
  pub month : ℕ
  pub day : ℕ
  pub day_of_week : ℕ

pub record Time : Type 0 where
  pub hour : ℕ
  pub minute : ℕ
  pub second : ℕ
  pub ms : ℕ

pub record Datetime : Type 0 where
  pub date : Date
  pub time : Time

unfoldable pub date_read : Call Buf Date
date_read b =
    (do
      fail_if (ltb (buf_unread b) 5) invalid
      skip 5
      pure record {
        year = bit_or (u16 (octet b 0) << 8) (octet b 1);
        month = octet b 2;
        day = octet b 3;
        day_of_week = octet b 4;
      })
      b

unfoldable pub date_write : Date → Call Buf (Unit {0})
date_write d b =
    (do
      fail_if (ltb (buf_free b) 5) invalid
      put_all (u8 (d.year >>> 8) ∷ u8 (bit_and d.year 0xFF) ∷ d.month ∷ d.day ∷ d.day_of_week ∷ []))
      b

unfoldable pub time_read : Call Buf Time
time_read b =
    (do
      fail_if (ltb (buf_unread b) 4) invalid
      skip 4
      pure record { hour = octet b 0; minute = octet b 1; second = octet b 2; ms = octet b 3 })
      b

unfoldable pub time_write : Time → Call Buf (Unit {0})
time_write t b =
    (do fail_if (ltb (buf_free b) 4) invalid; put_all (t.hour ∷ t.minute ∷ t.second ∷ t.ms ∷ [])) b

-- The three octets behind the time are skipped.
unfoldable pub skip_three : Call Buf (Unit {0})
skip_three b = (do fail_if (ltb (buf_unread b) 3) invalid; skip 3) b

unfoldable pub datetime_read : Call Buf Datetime
datetime_read = do
  date ← date_read
  time ← time_read
  skip_three
  pure record { date = date; time = time }

unfoldable pub put_reserved : Call Buf (Unit {0})
put_reserved b = (do fail_if (ltb (buf_free b) 3) nomem; put_all (0xFF ∷ 0xFF ∷ 0x80 ∷ [])) b

unfoldable pub datetime_write : Datetime → Call Buf (Unit {0})
datetime_write dt = do date_write dt.date; time_write dt.time; put_reserved

abbrev pub tag_array : ℕ
tag_array = 1

abbrev pub tag_structure : ℕ
tag_structure = 2

abbrev pub tag_bitstring : ℕ
tag_bitstring = 4

unfoldable pub struct_begin : ℕ → Call Buf (Unit {0})
struct_begin num_fields = axdr_write_tag tag_structure >> ber_write_length num_fields

unfoldable pub array_begin : ℕ → Call Buf (Unit {0})
array_begin count = axdr_write_tag tag_array >> ber_write_length count

-- `r = osp_ber_read_length(buf, &count); if (r != OSP_OK || count > UINT8_MAX)`
unfoldable pub read_count : Call Buf ℕ
read_count b = elim (ber_read_length b) [
  | ok count b' ↦ if ltb 255 count then err invalid b' else ok count b'
  | err e b' ↦ err invalid b'
]

unfoldable pub struct_begin_read : Call Buf ℕ
struct_begin_read = do tag ← axdr_read_tag; fail_if (not (tag == tag_structure)) invalid; read_count

unfoldable pub array_begin_read : Call Buf ℕ
array_begin_read = do tag ← axdr_read_tag; fail_if (not (tag == tag_array)) invalid; read_count

-- The octets of a bit string and the number of its bits.
pub record Bits : Type 0 where
  pub bits : List ℕ
  pub num_bits : ℕ

-- The octets behind the one of unused bits.
unfoldable pub copy_bits : ℕ → ℕ → ℕ → Call Buf Bits
copy_bits total_bits unused n b =
    (do
      skip n
      pure record {
        bits = octets_at b n;
        num_bits = sub32 total_bits (if n == 0 then 0 else unused);
      })
      b

-- Behind the tag: `len` counts the octet of unused bits too.
unfoldable pub read_bits : ℕ → ℕ → Call Buf Bits
read_bits max_bits len b =
    if len == 0
    then ok (record { bits = []; num_bits = 0 }) b
    else if ltb (buf_unread b) len
    then err invalid b
    else if ltb 0x1FFFFFFF len
    then err nomem b
    else if ltb max_bits (len * 8)
    then err nomem b
    else (skip 1 >> copy_bits (len * 8) (octet b 0) (len - 1)) b

unfoldable pub bitstring_read : ℕ → Call Buf Bits
bitstring_read max_bits = do
  tag ← axdr_read_tag
  fail_if (not (tag == tag_bitstring)) invalid
  len ← ber_read_length
  read_bits max_bits len

unfoldable pub put_bits : List ℕ → ℕ → ℕ → Call Buf (Unit {0})
put_bits bits num_bits num_bytes b =
    (do
      fail_if (ltb (buf_free b) (1 + num_bytes)) nomem
      put (u8 (num_bytes * 8 - num_bits))
      put_all (take num_bytes bits))
      b

unfoldable pub bitstring_write : Bits → Call Buf (Unit {0})
bitstring_write s =
    let num_bytes = u32 (s.num_bits + 7) / 8 in
    do
      axdr_write_tag tag_bitstring
      ber_write_length (1 + num_bytes)
      put_bits s.bits s.num_bits num_bytes
