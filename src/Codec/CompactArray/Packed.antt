-- ===== src/Codec/CompactArray/Packed.antt =====
-- src/codec/serialize.c, "COMPACT-ARRAY": the contents of a compact array are read and skipped value
-- by value. A tag says which value comes next.
pub mod RoundTrip
use openspodes.Prelude.{ℕ, ◌+◌, ◌/◌, List, [], ◌∷◌, get_or, ltb, ◌==◌, ◌||◌, if◌then◌else◌, u32}
use openspodes.Prelude.Ints.{to_word, i8_half}
use openspodes.Err.{Call, invalid, unsupported, ◌>>=◌, ◌>>◌, pure, fail, fail_if}
use openspodes.Buf.{Buf, buf_unread, octets_at, skip}
use openspodes.Codec.Len.{ber_read_length}
use openspodes.Codec.Axdr.{axdr_read_u8, axdr_read_u16, axdr_read_u32, axdr_read_bool}
use openspodes.Codec.Serialize.{
  Bits, axdr_read_i8, axdr_read_i16, axdr_read_i32, axdr_read_i64, axdr_read_u64, date_read,
  time_read, datetime_read,
}
use openspodes.Codec.Value.{
  Value, null, boolean, bitstring, int32, uint32, octetstring, visiblestring, utf8string, bcd, int8,
  int16, uint8, uint16, int64, uint64, enum_val, float32, float64, datetime, date, time, as_value,
}

-- The sizes of the types of fixed size, by tag.
abbrev pub size_table : List ℕ
size_table =
    0 ∷ 0 ∷ 0 ∷ 1 ∷ 0 ∷ 4 ∷ 4 ∷ 0 ∷ 0 ∷ 0 ∷ 0 ∷ 0 ∷ 0 ∷ 1 ∷ 0 ∷ 1 ∷ 2 ∷ 1 ∷ 2 ∷ 0 ∷ 8 ∷ 8 ∷ 1 ∷ 4
    ∷ 8 ∷ 12 ∷ 5 ∷ 4 ∷ 1 ∷ 2 ∷ 4 ∷ 1 ∷ 2 ∷ 4 ∷ []

unfoldable pub axdr_type_size : ℕ → ℕ
axdr_type_size tag = get_or size_table tag 0

unfoldable pub read_packed_string : ℕ → ℕ → Call Buf (List ℕ)
read_packed_string max_len slen b =
    (do
      fail_if (ltb max_len slen || ltb (buf_unread b) slen) invalid
      skip slen
      pure (octets_at b slen))
      b

unfoldable pub read_packed_bits : ℕ → Call Buf Bits
read_packed_bits num_bits b =
    let num_bytes = u32 (num_bits + 7) / 8 in
    (do
      fail_if (ltb 256 num_bits || ltb (buf_unread b) num_bytes) invalid
      skip num_bytes
      pure record { bits = octets_at b num_bytes; num_bits = num_bits })
      b

abbrev pub packed_string : ℕ → Call Buf (List ℕ)
packed_string max_len = ber_read_length >>= read_packed_string max_len

unfoldable pub read_packed_value : ℕ → Call Buf Value
read_packed_value tag =
    if tag == 0
    then pure null
    else if tag == 3
    then as_value boolean axdr_read_bool
    else if tag == 13
    then as_value (λ z. bcd (to_word i8_half z)) axdr_read_i8
    else if tag == 15
    then as_value int8 axdr_read_i8
    else if tag == 17
    then as_value uint8 axdr_read_u8
    else if tag == 16
    then as_value int16 axdr_read_i16
    else if tag == 18
    then as_value uint16 axdr_read_u16
    else if tag == 5
    then as_value int32 axdr_read_i32
    else if tag == 6
    then as_value uint32 axdr_read_u32
    else if tag == 20
    then as_value int64 axdr_read_i64
    else if tag == 21
    then as_value uint64 axdr_read_u64
    else if tag == 22
    then as_value enum_val axdr_read_u8
    else if tag == 23
    then as_value float32 axdr_read_u32
    else if tag == 24
    then as_value float64 axdr_read_u64
    else if tag == 9
    then as_value octetstring (packed_string 256)
    else if tag == 10
    then as_value visiblestring (packed_string 255)
    else if tag == 12
    then as_value utf8string (packed_string 256)
    else if tag == 4
    then as_value bitstring (ber_read_length >>= read_packed_bits)
    else if tag == 26
    then as_value date date_read
    else if tag == 27
    then as_value time time_read
    else if tag == 25
    then as_value datetime datetime_read
    else fail unsupported

unfoldable pub skip_run : ℕ → Call Buf (Unit {0})
skip_run n b = (do fail_if (ltb (buf_unread b) n) invalid; skip n) b

unfoldable pub skip_packed_value : ℕ → Call Buf (Unit {0})
skip_packed_value tag =
    if ltb 0 (axdr_type_size tag)
    then skip_run (axdr_type_size tag)
    else if tag == 0
    then pure tt
    else if tag == 9 || tag == 10 || tag == 12
    then (ber_read_length >>= skip_run)
    else if tag == 4
    then (ber_read_length >>= λ slen. skip_run (u32 (slen + 7) / 8))
    else fail unsupported
