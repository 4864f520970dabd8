-- ===== src/Tests/Values.antt =====
-- src/codec/serialize.c on concrete values.
use openspodes.Prelude.{ℕ, ◌≡◌, refl, true, [], ◌∷◌, ◌++◌, replicate, arith, some, none, Option}
use openspodes.Prelude.Ints.{negsuc, as_signed, to_word}
use openspodes.Err.{Outcome, err, Call, ok, unsupported, fail, ◌>>◌}
use openspodes.Buf.{
  Buf, IsBuf, buf_init, next, put, put_all, skip, buf_unread, buf_free, octets_at, octet,
}
use openspodes.Buf.View.{content, pending, Writes}
use openspodes.Codec.Len.Format.{len_octets}
use openspodes.Codec.Serialize.{Bits, bitstring_write, bitstring_read, axdr_write_i8, axdr_read_i8}
use openspodes.Codec.Serialize.Bitstring.{IsBits, bitstring_octets}
use openspodes.Codec.TypeDescription.{
  write_type_description, skip_type_description, skip_two, skip_fields, skip_type_description_depth,
  write_type, write_fields,
}
use openspodes.Codec.TypeDescription.RoundTrip.{
  HasType, type_octets, type_depth, type_description_skip-write,
}
use openspodes.Codec.CompactArray.{
  value_write_compact_array, pack_value, dlms_encoded_len_size, packed_value_size, packed_total,
  pack_items,
}
use openspodes.Codec.CompactArray.Walk.{
  read_compact_array, on_desc, on_contents, rewind, skip_times, compact_skip_description,
  count_loop, compact_count_elements, made, walk_items, compact_walk_description, walk_elements,
  compact_decode_elements, read_contents, read_described,
}
use openspodes.Codec.CompactArray.Size.{packed_octets}
use openspodes.Codec.CompactArray.Written.{compact_array_written, compact_octets}
use openspodes.Codec.CompactArray.Packed.{
  read_packed_value, skip_packed_value, axdr_type_size, read_packed_string, skip_run,
}
use openspodes.Codec.CompactArray.Packed.RoundTrip.{packed_read-pack}
use openspodes.Codec.Len.{
  dlms_write_len, dlms_read_len, read_len_rest, min_octets_u32, write_octets, read_octets,
}
use openspodes.Codec.Axdr.{
  axdr_write_u8, axdr_write_u16, axdr_write_u32, axdr_read_tag, axdr_read_u8, axdr_read_u16,
  axdr_write_tag,
}
use openspodes.Codec.Ber.{read_string_body, write_string_body}
use openspodes.Prelude.Slices.{}
use openspodes.Codec.Value.{
  tag_of, null, Value, Read, boolean, int8, uint16, octetstring, array, structure, no_items, item,
  value_read, value_write, value_read_impl, write_string,
}
use openspodes.Codec.Value.Format.{AllFit, Fits, depth, places, value_octets, body_octets}
use openspodes.Codec.Value.RoundTrip.{value_read-write}
use openspodes.Codec.Serialize.Bitstring.{bitstring_read-write}

abbrev blank : Buf
blank = buf_init (replicate 64 0) 64

blank-IsBuf : IsBuf blank
unfolding buf_init
blank-IsBuf = record {
  ordered = omega arith;
  within = omega arith;
  backed = refl;
  narrow = omega arith;
}

-- A structure with an array of two numbers and a string in it.
abbrev nested : Value
nested = structure (
    item (array (item (int8 (negsuc 4)) (item (uint16 1000) no_items)))
      (item (octetstring (0x61 ∷ 0x62 ∷ [])) (item (boolean true) no_items)))

abbrev no_compact_arrays : ℕ → Call Buf (Read Value)
no_compact_arrays used = fail unsupported

nested-Fits : Fits nested
unfolding Fits
nested-Fits =
    (omega arith, ((omega arith, (omega arith, (omega arith, tt))), (omega arith, (tt, tt))))

value_read-write_example :
    (c : Buf) × ((value_write nested >> value_read no_compact_arrays 3) blank ≡ ok (some nested) c)
    × (content c ≡ content blank ++ value_octets nested)
    × (pending c ≡ [])
unfolding buf_init depth places body_octets len_octets
value_read-write_example =
    value_read-write no_compact_arrays 3 nested blank nested-Fits (omega arith) (omega arith)
      blank-IsBuf refl (omega arith)

-- Eight bits.
abbrev one_octet : Bits
one_octet = record { bits = 0xA5 ∷ []; num_bits = 8 }

one_octet-IsBits : IsBits one_octet
one_octet-IsBits = record { few = omega arith; whole = refl }

bitstring_read-write_example :
    (c : Buf) × ((bitstring_write one_octet >> bitstring_read 16) blank
      ≡ ok (record { bits = 0xA5 ∷ []; num_bits = 16 }) c)
    × (content c ≡ content blank ++ bitstring_octets one_octet)
    × (pending c ≡ [])
unfolding buf_init len_octets
bitstring_read-write_example =
    bitstring_read-write 16 one_octet blank one_octet-IsBits (omega arith) blank-IsBuf refl
      (omega arith)

nested-HasType : HasType nested
unfolding HasType
nested-HasType = (omega arith, ((omega arith, tt), (tt, (tt, tt))))

type_description_skip-write_example :
    (c : Buf) × ((write_type_description nested >> skip_type_description) blank ≡ ok tt c)
    × (content c ≡ content blank ++ (tag_of nested ∷ type_octets nested))
    × (pending c ≡ [])
unfolding buf_init type_octets len_octets type_depth
type_description_skip-write_example =
    type_description_skip-write nested blank nested-HasType (omega arith) blank-IsBuf refl
      (omega arith)

-- A row of a table: a number and a string.
abbrev row : Value
row = structure (item (int8 (negsuc 4)) (item (octetstring (0x61 ∷ 0x62 ∷ [])) no_items))

rows-AllFit : AllFit (item row (item row no_items))
unfolding Fits AllFit
rows-AllFit =
    let one : Fits row = (omega arith, (omega arith, (omega arith, tt))) in (one, (one, tt))

row-HasType : HasType row
unfolding HasType
row-HasType = (omega arith, (tt, (tt, tt)))

compact_array_written_example :
    Writes
      (value_write_compact_array (array (item row (item row no_items))))
      blank
      (compact_octets row (item row no_items))
unfolding buf_init type_octets len_octets packed_octets body_octets
compact_array_written_example =
    compact_array_written row (item row no_items) blank rows-AllFit row-HasType (omega arith)
      blank-IsBuf (omega arith)

packed_read-pack_example :
    ((c : Buf) × ((pack_value (uint16 1000) >> read_packed_value 18) blank ≡ ok (uint16 1000) c)
      × (content c ≡ content blank ++ packed_octets (uint16 1000))
      × (pending c ≡ []))
    × ((c : Buf) × ((pack_value (uint16 1000) >> skip_packed_value 18) blank ≡ ok tt c)
        × (content c ≡ content blank ++ packed_octets (uint16 1000))
        × (pending c ≡ []))
unfolding buf_init packed_octets body_octets Fits
packed_read-pack_example =
    packed_read-pack (uint16 1000) blank (omega arith) blank-IsBuf refl (omega arith)

-- What the reader of values returns, whatever the buffer is then.
abbrev result : {A : Type 0} → Outcome Buf A → Option A
result (ok a b) = some a
result (err e b) = none

-- Two rows written as a compact array are two rows again.
compact_rows_read :
    result (
      (value_write_compact_array (array (item row (item row no_items)))
          >> value_read (read_compact_array 16) 1)
        blank)
    ≡ some (some (array (item row (item row no_items))))
unfolding buf_init next put put_all skip buf_unread buf_free octets_at octet dlms_write_len
    dlms_read_len read_len_rest min_octets_u32 write_octets read_octets axdr_write_u8 axdr_write_u16
    axdr_write_u32 axdr_read_tag axdr_read_u8 axdr_read_u16 axdr_write_tag read_string_body
    write_string_body axdr_write_i8 axdr_read_i8 value_read value_read_impl write_string skip_two
    skip_fields skip_type_description_depth skip_type_description write_type_description write_type
    write_fields dlms_encoded_len_size packed_value_size packed_total pack_value pack_items
    value_write_compact_array axdr_type_size read_packed_string read_packed_value skip_run
    skip_packed_value on_desc on_contents rewind skip_times compact_skip_description count_loop
    compact_count_elements made walk_items compact_walk_description walk_elements
    compact_decode_elements read_contents read_described read_compact_array as_signed to_word
compact_rows_read = refl

-- Elements that take no octets are lost.
compact_nulls_read :
    result (
      (value_write_compact_array (array (item null (item null no_items)))
          >> value_read (read_compact_array 16) 1)
        blank)
    ≡ some (some (array no_items))
unfolding buf_init next put put_all skip buf_unread buf_free octets_at octet dlms_write_len
    dlms_read_len read_len_rest min_octets_u32 write_octets read_octets axdr_write_u8 axdr_write_u16
    axdr_write_u32 axdr_read_tag axdr_read_u8 axdr_read_u16 axdr_write_tag read_string_body
    write_string_body axdr_write_i8 axdr_read_i8 value_read value_read_impl write_string skip_two
    skip_fields skip_type_description_depth skip_type_description write_type_description write_type
    write_fields dlms_encoded_len_size packed_value_size packed_total pack_value pack_items
    value_write_compact_array axdr_type_size read_packed_string read_packed_value skip_run
    skip_packed_value on_desc on_contents rewind skip_times compact_skip_description count_loop
    compact_count_elements made walk_items compact_walk_description walk_elements
    compact_decode_elements read_contents read_described read_compact_array as_signed to_word
compact_nulls_read = refl
