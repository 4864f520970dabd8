-- ===== src/Codec/CompactArray.antt =====
-- src/codec/serialize.c, "COMPACT-ARRAY": the writer. The contents are values without their tags,
-- and their length is computed before they are written. The sum is a size_t, which holds it.
pub mod Size
pub mod Written
pub mod Packed
pub mod Walk
use openspodes.Prelude.{ℕ, suc, ◌+◌, ◌/◌, List, length, take, ltb, leb, ◌==◌, if◌then◌else◌, u32}
use openspodes.Prelude.Ints.{as_signed, i8_half}
use openspodes.Err.{Call, invalid, unsupported, ◌>>◌, pure, fail, fail_if}
use openspodes.Buf.{Buf}
use openspodes.Codec.Len.{ber_write_length}
use openspodes.Codec.Ber.{write_string_body}
use openspodes.Codec.Axdr.{axdr_write_u8, axdr_write_u16, axdr_write_u32}
use openspodes.Codec.Serialize.{
  Bits, axdr_write_i8, axdr_write_i16, axdr_write_i32, axdr_write_i64, axdr_write_u64, date_write,
  time_write, datetime_write,
}
use openspodes.Codec.Value.{
  Value, Values, null, boolean, bitstring, int32, uint32, octetstring, visiblestring, utf8string,
  bcd, int8, int16, uint8, uint16, int64, uint64, enum_val, float32, float64, datetime, date, time,
  array, structure, other, no_items, item, tag_compact_array, write_string,
}
use openspodes.Codec.TypeDescription.{write_type_description}

unfoldable pub dlms_encoded_len_size : ℕ → ℕ
dlms_encoded_len_size v =
    if ltb v 0x80
    then 1
    else if leb v 0xFF
    then 2
    else if leb v 0xFFFF
    then 3
    else if leb v 0xFFFFFF
    then 4
    else 5

unfoldable mutual
  pub packed_value_size : Value → ℕ
  packed_value_size null = 0
  packed_value_size (boolean _) = 1
  packed_value_size (bcd _) = 1
  packed_value_size (int8 _) = 1
  packed_value_size (uint8 _) = 1
  packed_value_size (enum_val _) = 1
  packed_value_size (int16 _) = 2
  packed_value_size (uint16 _) = 2
  packed_value_size (int32 _) = 4
  packed_value_size (uint32 _) = 4
  packed_value_size (float32 _) = 4
  packed_value_size (int64 _) = 8
  packed_value_size (uint64 _) = 8
  packed_value_size (float64 _) = 8
  packed_value_size (date _) = 5
  packed_value_size (time _) = 4
  packed_value_size (datetime _) = 12
  packed_value_size (octetstring xs) = dlms_encoded_len_size (length xs) + length xs
  packed_value_size (visiblestring xs) = dlms_encoded_len_size (length xs) + length xs
  packed_value_size (utf8string xs) = dlms_encoded_len_size (length xs) + length xs
  packed_value_size (bitstring s) = dlms_encoded_len_size s.num_bits + u32 (s.num_bits + 7) / 8
  packed_value_size (array vs) = packed_total vs
  packed_value_size (structure vs) = packed_total vs
  packed_value_size (other _) = 0

  -- The loop that adds up the sizes.
  pub packed_total : Values → ℕ
  packed_total no_items = 0
  packed_total (item v vs) = packed_value_size v + packed_total vs

-- The count of bits, and not of octets, is the length here.
unfoldable pub pack_bits : Bits → Call Buf (Unit {0})
pack_bits s =
    ber_write_length s.num_bits >> write_string_body (take (u32 (s.num_bits + 7) / 8) s.bits)

unfoldable mutual
  pub pack_value : Value → Call Buf (Unit {0})
  pack_value null = pure tt
  pack_value (boolean k) = axdr_write_u8 (if k then 1 else 0)
  pack_value (bcd n) = axdr_write_i8 (as_signed i8_half n)
  pack_value (int8 z) = axdr_write_i8 z
  pack_value (uint8 n) = axdr_write_u8 n
  pack_value (enum_val n) = axdr_write_u8 n
  pack_value (int16 z) = axdr_write_i16 z
  pack_value (uint16 n) = axdr_write_u16 n
  pack_value (int32 z) = axdr_write_i32 z
  pack_value (uint32 n) = axdr_write_u32 n
  pack_value (int64 z) = axdr_write_i64 z
  pack_value (uint64 n) = axdr_write_u64 n
  pack_value (float32 n) = axdr_write_u32 n
  pack_value (float64 n) = axdr_write_u64 n
  pack_value (octetstring xs) = write_string xs
  pack_value (visiblestring xs) = write_string xs
  pack_value (utf8string xs) = write_string xs
  pack_value (bitstring s) = pack_bits s
  pack_value (date d) = date_write d
  pack_value (time t) = time_write t
  pack_value (datetime dt) = datetime_write dt
  pack_value (array vs) = pack_items vs
  pack_value (structure vs) = pack_items vs
  pack_value (other _) = fail unsupported

  pub pack_items : Values → Call Buf (Unit {0})
  pack_items no_items = pure tt
  pack_items (item v vs) = pack_value v >> pack_items vs

-- The type is that of the first element.
unfoldable pub value_write_compact_array : Value → Call Buf (Unit {0})
value_write_compact_array (array (item v vs)) = do
  axdr_write_u8 tag_compact_array
  write_type_description v
  fail_if (ltb 0xFFFFFFFF (packed_total (item v vs))) invalid
  ber_write_length (u32 (packed_total (item v vs)))
  pack_items (item v vs)
value_write_compact_array _ = fail invalid
