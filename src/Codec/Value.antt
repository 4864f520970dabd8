-- ===== src/Codec/Value.antt =====
-- src/codec/types.h, `osp_value_t`, and src/codec/serialize.c, "Generic value": COSEM data of any
-- type, its reader and its writer. The tags 0xEC to 0xFF, which refer to lists elsewhere in the
-- program and never go on the wire, are no values here. The reader of compact arrays (tag 19),
-- which Codec/CompactArray/Walk has, is a parameter of the reader.
pub mod Format
pub mod Scalars
pub mod RoundTrip
use openspodes.Prelude.{
  ℕ, zero, suc, ◌+◌, ◌-◌, ◌*◌, ◌/◌, Bool, true, false, ◌||◌, List, [], ◌∷◌, length, take, ltb, ◌==◌,
  not, if◌then◌else◌, u8, u32, sub32, Option, none, some,
}
use openspodes.Prelude.Ints.{ℤ}
use openspodes.Err.{
  Call, Outcome, ok, err, invalid, nomem, unsupported, ◌>>=◌, ◌>>◌, pure, fail, fail_if,
}
use openspodes.Buf.{Buf, buf_unread, buf_free, octet, octets_at, skip, put, put_all}
use openspodes.Codec.Len.{ber_read_length, ber_write_length, dlms_read_len}
use openspodes.Codec.Ber.{read_string_body, write_string_body}
use openspodes.Codec.Axdr.{
  axdr_read_tag, axdr_read_u8, axdr_read_u16, axdr_read_u32, axdr_read_bool, axdr_write_u8,
  axdr_write_u16, axdr_write_u32, axdr_write_bool, axdr_write_octet_string,
}
use openspodes.Codec.Serialize.{
  Date, Time, Datetime, Bits, axdr_read_i8, axdr_read_i16, axdr_read_i32, axdr_read_i64,
  axdr_read_u64, axdr_write_i8, axdr_write_i16, axdr_write_i32, axdr_write_i64, axdr_write_u64,
  date_read, date_write, time_read, time_write, datetime_read, datetime_write, put_bits,
}

-- A string is the octets it has, a floating-point number the word of its bits.
mutual
  pub data Value : Type 0 where
    null : Value
    boolean : Bool → Value
    bitstring : Bits → Value
    int32 : ℤ → Value
    uint32 : ℕ → Value
    octetstring : List ℕ → Value
    visiblestring : List ℕ → Value
    utf8string : List ℕ → Value
    bcd : ℕ → Value
    int8 : ℤ → Value
    int16 : ℤ → Value
    uint8 : ℕ → Value
    uint16 : ℕ → Value
    int64 : ℤ → Value
    uint64 : ℕ → Value
    enum_val : ℕ → Value
    float32 : ℕ → Value
    float64 : ℕ → Value
    datetime : Datetime → Value
    date : Date → Value
    time : Time → Value
    array : Values → Value
    structure : Values → Value
    -- a tag that has no type of its own here
    other : ℕ → Value

  -- `osp_value_list_t`
  pub data Values : Type 0 where
    no_items : Values
    item : Value → Values → Values

-- The length of a list of values, its `count`.
abbrev pub count_of : Values → ℕ
count_of no_items = 0
count_of (item v vs) = suc (count_of vs)

abbrev pub tag_of : Value → ℕ
tag_of null = 0
tag_of (array _) = 1
tag_of (structure _) = 2
tag_of (boolean _) = 3
tag_of (bitstring _) = 4
tag_of (int32 _) = 5
tag_of (uint32 _) = 6
tag_of (octetstring _) = 9
tag_of (visiblestring _) = 10
tag_of (utf8string _) = 12
tag_of (bcd _) = 13
tag_of (int8 _) = 15
tag_of (int16 _) = 16
tag_of (uint8 _) = 17
tag_of (uint16 _) = 18
tag_of (int64 _) = 20
tag_of (uint64 _) = 21
tag_of (enum_val _) = 22
tag_of (float32 _) = 23
tag_of (float64 _) = 24
tag_of (datetime _) = 25
tag_of (date _) = 26
tag_of (time _) = 27
tag_of (other tag) = tag

abbrev pub tag_compact_array : ℕ
tag_compact_array = 19

abbrev pub max_array_len : ℕ
max_array_len = 32

abbrev pub max_struct_len : ℕ
max_struct_len = 16

-- OSP_VALUE_READ_POOL_LEN
abbrev pub pool_len : ℕ
pool_len = 512

-- The -1 of `osp_axdr_read_length` is returned as it is, and is the number of OSP_ERR_NOMEM.
unfoldable pub raw_read_length : Call Buf ℕ
raw_read_length b = elim (dlms_read_len b) [ ok n b' ↦ ok n b' | err e b' ↦ err nomem b' ]

unfoldable pub value_string : ℕ → Call Buf ℕ → Call Buf (List ℕ)
value_string max_len read_length = read_length >>= read_string_body max_len

-- Behind the octet of unused bits.
unfoldable pub value_bits_rest : ℕ → ℕ → Call Buf Bits
value_bits_rest unused n b =
    if ltb 256 (u32 (n * 8))
    then err nomem b
    else (do skip n; pure record { bits = octets_at b n; num_bits = sub32 (u32 (n * 8)) unused }) b

unfoldable pub value_bits : ℕ → Call Buf Bits
value_bits blen b =
    if blen == 0
    then ok (record { bits = []; num_bits = 0 }) b
    else if ltb (buf_unread b) blen
    then err invalid b
    else (skip 1 >> value_bits_rest (octet b 0) (blen - 1)) b

abbrev pub as_value : {A : Type 0} → (A → Value) → Call Buf A → Call Buf Value
as_value f m = m >>= λ x. pure (f x)

-- The cases of the `switch` that hold no further values.
unfoldable pub read_scalar : ℕ → Call Buf Value
read_scalar tag =
    if tag == 0
    then pure null
    else if tag == 3
    then as_value boolean axdr_read_bool
    else if tag == 15
    then as_value int8 axdr_read_i8
    else if tag == 16
    then as_value int16 axdr_read_i16
    else if tag == 5
    then as_value int32 axdr_read_i32
    else if tag == 20
    then as_value int64 axdr_read_i64
    else if tag == 17
    then as_value uint8 axdr_read_u8
    else if tag == 18
    then as_value uint16 axdr_read_u16
    else if tag == 6
    then as_value uint32 axdr_read_u32
    else if tag == 21
    then as_value uint64 axdr_read_u64
    else if tag == 22
    then as_value enum_val axdr_read_u8
    else if tag == 23
    then as_value float32 axdr_read_u32
    else if tag == 24
    then as_value float64 axdr_read_u64
    else if tag == 9
    then as_value octetstring (value_string 256 ber_read_length)
    else if tag == 10
    then as_value visiblestring (value_string 255 ber_read_length)
    else if tag == 4
    then as_value bitstring (raw_read_length >>= value_bits)
    else if tag == 12
    then as_value utf8string (value_string 255 raw_read_length)
    else if tag == 13
    then as_value bcd axdr_read_u8
    else if tag == 26
    then as_value date date_read
    else if tag == 27
    then as_value time time_read
    else if tag == 25
    then as_value datetime datetime_read
    else fail unsupported

-- A value with the number of places of the pool that are used behind it; `none` is a nesting deeper
-- than the fuel.
abbrev pub Read : Type 0 → Type 0
Read A = Option (A × ℕ)

-- Goes on with what was read.
abbrev pub and_then :
    {A B : Type 0} → Call Buf (Read A) → (A → ℕ → Call Buf (Read B)) → Call Buf (Read B)
and_then m k = m >>= λ r. elim r [ none ↦ pure none | some p ↦ k p.0 p.1 ]

abbrev pub done : {A : Type 0} → A → ℕ → Call Buf (Read A)
done x used = pure (some (x, used))

-- The loop over the elements.
unfoldable pub read_items : (ℕ → Call Buf (Read Value)) → ℕ → ℕ → Call Buf (Read Values)
read_items read zero used = done no_items used
read_items read (suc n) used =
    and_then (read used)
      λ v used'. and_then (read_items read n used') λ vs used''. done (item v vs) used''

-- The elements of an array or a structure lie together in the pool.
unfoldable pub read_list :
    (ℕ → Call Buf (Read Value)) → ℕ → (Values → Value) → ℕ → Call Buf (Read Value)
read_list read max_len make used = do
  count ← ber_read_length
  fail_if (ltb max_len count) nomem
  fail_if (ltb pool_len (used + count)) nomem
  and_then (read_items read count (used + count)) λ vs used'. done (make vs) used'

module _ (read_compact_array : ℕ → Call Buf (Read Value)) where
  unfoldable pub value_read_impl : ℕ → ℕ → Call Buf (Read Value)
  value_read_impl zero used = pure none
  value_read_impl (suc fuel) used = axdr_read_tag >>= λ tag.
      if tag == 1
      then read_list (value_read_impl fuel) max_array_len array used
      else if tag == 2
      then read_list (value_read_impl fuel) max_struct_len structure used
      else if tag == tag_compact_array
      then read_compact_array used
      else (read_scalar tag >>= λ v. done v used)

  -- The pool is empty at the start: the calls within are of `osp_value_read_impl`.
  unfoldable pub value_read : ℕ → Call Buf (Option Value)
  value_read fuel =
      value_read_impl fuel 0 >>= λ r. pure (elim r [ none ↦ none | some p ↦ some p.0 ])

unfoldable pub write_bits : Bits → Call Buf (Unit {0})
write_bits s =
    let num_bytes = u32 (s.num_bits + 7) / 8 in
    ber_write_length (1 + num_bytes) >> put_bits s.bits s.num_bits num_bytes

unfoldable pub write_string : List ℕ → Call Buf (Unit {0})
write_string xs = ber_write_length (length xs) >> write_string_body xs

unfoldable mutual
  -- Behind the tag.
  pub write_body : Value → Call Buf (Unit {0})
  write_body null = pure tt
  write_body (boolean k) = axdr_write_bool k
  write_body (int8 z) = axdr_write_i8 z
  write_body (int16 z) = axdr_write_i16 z
  write_body (int32 z) = axdr_write_i32 z
  write_body (int64 z) = axdr_write_i64 z
  write_body (uint8 n) = axdr_write_u8 n
  write_body (uint16 n) = axdr_write_u16 n
  write_body (uint32 n) = axdr_write_u32 n
  write_body (uint64 n) = axdr_write_u64 n
  write_body (enum_val n) = axdr_write_u8 n
  write_body (float32 n) = axdr_write_u32 n
  write_body (float64 n) = axdr_write_u64 n
  write_body (octetstring xs) = axdr_write_octet_string xs
  write_body (visiblestring xs) = write_string xs
  write_body (bitstring s) = write_bits s
  write_body (utf8string xs) = write_string xs
  write_body (bcd n) = axdr_write_u8 n
  write_body (date d) = date_write d
  write_body (time t) = time_write t
  write_body (datetime dt) = datetime_write dt
  write_body (array vs) = ber_write_length (count_of vs) >> write_items vs
  write_body (structure vs) = ber_write_length (count_of vs) >> write_items vs
  write_body (other tag) = fail unsupported

  pub write_items : Values → Call Buf (Unit {0})
  write_items no_items = pure tt
  write_items (item v vs) = (axdr_write_u8 (tag_of v) >> write_body v) >> write_items vs

unfoldable pub value_write : Value → Call Buf (Unit {0})
value_write v = axdr_write_u8 (tag_of v) >> write_body v
